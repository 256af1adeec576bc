-- ===== src/Fleet/Orchestrator/Moves.antt =====
-- orchestrator.py: each handler keeps to the table of the moves.
use hanium_smart_parkin.Base.{
  ◌⊎◌, ℕ, ◌≡◌, refl, sym, ◌∙◌, ◌≢◌, inl, inr, Bool-cases, true, false, ◌&&◌, Option, none, some,
  List, [], ◌∷◌, if◌then◌else◌, arith,
}
use hanium_smart_parkin.Base.Float.{Float}
use hanium_smart_parkin.Base.Arithmetic.{Arithmetic}
use hanium_smart_parkin.Bridge.Wire.{VehicleState, waiting, moving, CommandResult}
use hanium_smart_parkin.Fleet.Graph.{Slot}
use hanium_smart_parkin.Fleet.Waypoints.{Waypoint, is_waypoint_reached}
use hanium_smart_parkin.Fleet.Mission.{
  MissionState, driving, switching, loading, resuming, held, parked_check, done, WaitReason,
  Mission, Report, Event, Link, Turn, current, in_state, is_over, is_waiting, is_moving, Recovery,
  replan, wait_for_condition, no_recovery, recovery_of, quiet, sending, equals,
}
use hanium_smart_parkin.Base.Int.{ℤ, pos}
use hanium_smart_parkin.Fleet.Orchestrator.{
  on_parked, reached, load_at, load_current, send_go_at, hold_mission, resume_in, regenerate_with,
  arrive, pose_in, next_target, is_loaded, status_in, recover,
}
use hanium_smart_parkin.Fleet.Orchestrator.Calls.{
  Call, hold_call, resume_call, regenerate_call, pose_call, status_call, rejected_call,
}
use hanium_smart_parkin.Fleet.Orchestrator.Cycle.{
  Loaded, advanced, Rests, Move, fails, rests, arrives, loads_next, goes, departs, arrives_at_end,
  parks, runs_out, holds, resumes, changes_route, is_turned_down, is_raised,
}

waiting_of : (q : VehicleState) → is_waiting q ≡ true → q ≡ waiting
waiting_of waiting e = refl
waiting_of _ e = cc

moving_of : (q : VehicleState) → is_moving q ≡ true → q ≡ moving
moving_of moving e = refl
moving_of _ e = cc

not_waiting : (q : VehicleState) → is_waiting q ≡ false → q ≢ waiting
not_waiting q e k = ground (arith, k, e)

not_moving : (q : VehicleState) → is_moving q ≡ false → q ≢ moving
not_moving q e k = ground (arith, k, e)

equals_of : (o : Option ℤ) (z : ℤ) → equals o z ≡ true → o ≡ some z
equals_of none z e = cc
equals_of (some y) z e = ground (arith, e)

equals_to : (o : Option ℤ) (z : ℤ) → o ≡ some z → equals o z ≡ true
equals_to o z e = ground (arith, e)

module _ {F V E : Type 0} ⦃fl : Float F⦄ ⦃ar : Arithmetic F⦄ (link : Link F V E) (lead : F)
    (car : ℕ) where
  abbrev pub Moves : Call F → Mission F → Turn F V E → Type 0
  Moves c m t = Move lead c m (is_raised t.reply) t.mission.state

  sending-Moves :
      (c : Call F) (m before after : Mission F) (e : Event F) (r : V × Option E)
      → before.state ≡ m.state
      → Move lead c m false after.state
      → Moves c m (sending before after e r)
  sending-Moves c m before after e (v, none) b h = h
  sending-Moves c m before after e (v, some x) b h = rw b fails

  pub hold_mission-Moves :
      (reason : WaitReason) (m : Mission F) (v : V)
      → Moves (hold_call reason) m (hold_mission link car reason m v)
  unfolding hold_mission
  hold_mission-Moves reason m v = elim (Bool-cases (is_over m.state)) [
    | inl e ↦ rw e (rests e)
    | inr e ↦ rw e (sending-Moves (hold_call reason) m m (in_state held m) _ _ refl (holds e))
  ]

  pub resume_in-Moves :
      (s : MissionState) (o : Option (Waypoint F)) (m : Mission F) (v : V)
      → m.state ≡ s
      → current m ≡ o
      → Moves resume_call m (resume_in link s o car m v)
  unfolding resume_in send_go_at
  resume_in-Moves held none m v b e = rests (inr e)
  resume_in-Moves held (some w) m v b e =
      sending-Moves resume_call m m (in_state resuming m) _ _ refl (resumes b e)
  resume_in-Moves _ o m v b e = rests (inl (λ k. cc))

  pub regenerate_with-Moves :
      (ws : List (Waypoint F)) (m : Mission F) (v : V)
      → Moves (regenerate_call ws) m (regenerate_with link car ws m v)
  unfolding regenerate_with load_current load_at
  regenerate_with-Moves [] m v = fails
  regenerate_with-Moves (w ∷ ws) m v =
      let m1 = record m { route_id = w.route_id; waypoints = w ∷ ws; index = 0 } in
      sending-Moves (regenerate_call (w ∷ ws)) m m1 (in_state loading m1) _ _ refl changes_route

  arrive-Moves :
      (w : Waypoint F) (p : F × F) (d : Option F) (m : Mission F) (v : V)
      → m.state ≡ driving
      → current m ≡ some w
      → reached lead w p d ≡ true
      → Moves (pose_call p d) m (arrive link car w m v)
  unfolding arrive
  arrive-Moves w p d m v b e q = elim (Bool-cases w.is_final) [
    | inl f ↦ rw f (
        sending-Moves (pose_call p d) m m (in_state parked_check m) _ _ refl
          (arrives_at_end b e q f))
    | inr f ↦
        rw f (sending-Moves (pose_call p d) m m (in_state switching m) _ _ refl (arrives b e q f))
  ]

  parked_reply :
      {m : Mission F} {p : F × F} {d : Option F} (o : Option Slot)
      → Move lead (pose_call p d) m false done
      → Move lead (pose_call p d) m (is_raised {E = E} (on_parked link car o)) done
  unfolding on_parked
  parked_reply none h = h
  parked_reply (some s) h = h

  pub pose_in-Moves :
      (s : MissionState) (o : Option (Waypoint F)) (p : F × F) (d : Option F) (m : Mission F)
      (v : V)
      → m.state ≡ s
      → current m ≡ o
      → Moves (pose_call p d) m (pose_in link lead s o car p d m v)
  unfolding pose_in on_parked
  pose_in-Moves driving (some w) p d m v b e = elim (Bool-cases (reached lead w p d)) [
    | inl q ↦ rw q (arrive-Moves w p d m v b e q)
    | inr q ↦ rw q (rests (λ w' e'. ((λ _. ground (arith, q, sym e ∙ e')), λ k. absurd (cc))))
  ]
  pose_in-Moves parked_check (some w) p d m v b e = elim (Bool-cases (is_waypoint_reached w p d)) [
    | inl q ↦ rw q (parked_reply m.slot_id (parks b e q))
    | inr q ↦ rw q (rests (λ w' e'. ((λ k. absurd (cc)), λ _. ground (arith, q, sym e ∙ e'))))
  ]
  pose_in-Moves driving none p d m v b e = rests (λ w' e'. absurd (cc))
  pose_in-Moves parked_check none p d m v b e = rests (λ w' e'. absurd (cc))
  pose_in-Moves _ o p d m v b e = rests (λ w' e'. ((λ k. absurd (cc)), λ k. absurd (cc)))

  moving-Moves :
      (r : Report) (m : Mission F) (v : V)
      → (m.state ≡ resuming) ⊎ (m.state ≡ loading)
      → ((r.state ≢ moving) → Rests lead (status_call r) m)
      → Moves
          (status_call r)
          m
          (if is_moving r.state then quiet (in_state driving m) v else quiet m v)
  moving-Moves r m v b h = elim (Bool-cases (is_moving r.state)) [
    | inl e ↦ rw e (departs b (moving_of r.state e))
    | inr e ↦ rw e (rests (h (not_moving r.state e)))
  ]

  next_target-Moves :
      (r : Report) (o : Option (Waypoint F)) (m : Mission F) (v : V)
      → m.state ≡ switching
      → r.state ≡ waiting
      → current (advanced m) ≡ o
      → Moves (status_call r) m (next_target link o (advanced m) v)
  unfolding next_target load_current load_at
  next_target-Moves r none m v b q e = runs_out b q e
  next_target-Moves r (some w) m v b q e = rw e (
      sending-Moves (status_call r) m (advanced m) (in_state loading (advanced m)) _ _ refl
        (loads_next b q e))

  go-Moves :
      (r : Report) (o : Option (Waypoint F)) (m : Mission F) (v : V)
      → m.state ≡ loading
      → r.state ≡ waiting
      → current m ≡ o
      → is_loaded link m r ≡ true
      → Moves (status_call r) m (send_go_at link o car m v)
  unfolding send_go_at
  go-Moves r none m v b q e l = fails
  go-Moves r (some w) m v b q e l =
      let l' : ((r.target_loaded && equals r.route_id (pos m.route_id))
            && equals r.waypoint_id (pos w.waypoint_id))
          ≡ true =
        rw e at l in
      sending-Moves (status_call r) m m (in_state resuming m) _ _ refl (
        goes b q (
          w,
          e,
          ground (arith, l'),
          equals_of r.route_id _ (ground (arith, l')),
          equals_of r.waypoint_id _ (ground (arith, l')),
        ))

  not-Loaded :
      (r : Report) (m : Mission F)
      → (is_waiting r.state && is_loaded link m r) ≡ false
      → ¬ ((r.state ≡ waiting) × Loaded m r)
  not-Loaded r m f (q, (w, e, t, a, b)) =
      let all : (is_waiting r.state && is_loaded link m r) ≡ true =
        rw (q, e, t, a, b)
          (rw (equals_to (some (pos m.route_id)) _ refl)
            (equals_to (some (pos w.waypoint_id)) _ refl)) in
      cc

  pub status_in-Moves :
      (s : MissionState) (r : Report) (m : Mission F) (v : V)
      → m.state ≡ s
      → Moves (status_call r) m (status_in link s car r m v)
  unfolding status_in
  status_in-Moves switching r m v b = elim (Bool-cases (is_waiting r.state)) [
    | inl e ↦ rw e (next_target-Moves r (current (advanced m)) m v b (waiting_of r.state e) refl)
    | inr e ↦ rw e (rests ((λ _. not_waiting r.state e), (λ k. absurd (cc)), λ k. absurd (cc)))
  ]
  status_in-Moves loading r m v b = elim (Bool-cases (is_waiting r.state && is_loaded link m r)) [
    | inl e ↦ rw e (
        go-Moves r (current m) m v b (waiting_of r.state (ground (arith, e))) refl
          (ground (arith, e)))
    | inr e ↦ rw e (
        moving-Moves r m v (inr b)
          (λ n. ((λ k. absurd (cc)), (λ _. (n, not-Loaded r m e)), λ k. absurd (cc))))
  ]
  status_in-Moves resuming r m v b =
      moving-Moves r m v (inl b) (λ n. ((λ k. absurd (cc)), (λ k. absurd (cc)), λ _. n))
  status_in-Moves _ r m v b = rests ((λ k. absurd (cc)), (λ k. absurd (cc)), λ k. absurd (cc))

  pub recover-Moves :
      (a : Recovery) (result : CommandResult) (m : Mission F) (v : V)
      → recovery_of result ≡ a
      → Moves (rejected_call result) m (recover link a car result m v)
  unfolding recover
  recover-Moves replan result m v e = is_turned_down (λ n. cc)
  recover-Moves wait_for_condition result m v e = is_turned_down (λ n. cc)
  recover-Moves no_recovery result m v e = rests e
