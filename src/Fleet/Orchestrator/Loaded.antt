-- ===== src/Fleet/Orchestrator/Loaded.antt =====
-- orchestrator.py: what the handlers leave of a mission whose current target has been sent.
use hanium_smart_parkin.Base.{
  ℕ, zero, suc, ◌+◌, ◌≡◌, refl, inl, inr, Bool-cases, ◌&&◌, Option, none, some, List, [], ◌∷◌, ◌++◌,
  arith, All, In, get_elem?, if_both,
}
use hanium_smart_parkin.Base.Float.{Float}
use hanium_smart_parkin.Base.Arithmetic.{Arithmetic}
use hanium_smart_parkin.Bridge.Wire.{CommandResult}
use hanium_smart_parkin.Fleet.Graph.{Slot}
use hanium_smart_parkin.Fleet.Waypoints.{Waypoint, is_waypoint_reached}
use hanium_smart_parkin.Fleet.Mission.{
  MissionState, idle, driving, switching, loading, resuming, held, parked_check, done, WaitReason,
  Mission, Report, Event, waypoint_sent, go_sent, wait_sent, parked, replan_required, Reply,
  returned, raised, Link, Turn, current, in_state, is_over, is_waiting, is_moving, Recovery, replan,
  wait_for_condition, no_recovery, turn, sending,
}
use hanium_smart_parkin.Fleet.Orchestrator.{
  load_at, load_current, send_go_at, wait_then, hold_mission, resume_in, regenerate_with, arrive,
  on_parked, pose_in, reached, next_target, is_loaded, status_in, recover,
}

module _ {F : Type 0} where
  -- All the waypoints bear one route's id.
  abbrev pub IsOfRoute : ℕ → List (Waypoint F) → Type 0
  IsOfRoute r ws = All (λ w. w.route_id ≡ r) ws

  abbrev pub IsUniform : List (Waypoint F) → Type 0
  IsUniform [] = Unit
  IsUniform (w ∷ ws) = IsOfRoute w.route_id (w ∷ ws)

  -- A GO names a waypoint, of the same route, that has been sent to the same car before.
  abbrev pub IsAnnounced : List (Event F) → Event F → Type 0
  IsAnnounced seen (go_sent car r i) =
      (w : Waypoint F) × In (waypoint_sent car w) seen × (w.route_id ≡ r) × (w.waypoint_id ≡ i)
  IsAnnounced seen (waypoint_sent _ _) = Unit
  IsAnnounced seen (wait_sent _ _ _ _) = Unit
  IsAnnounced seen (parked _ _) = Unit
  IsAnnounced seen (replan_required _ _) = Unit

  -- So it is for each of the events, `seen` being those before them.
  abbrev pub AreAnnounced : List (Event F) → List (Event F) → Type 0
  AreAnnounced seen [] = Unit
  AreAnnounced seen (e ∷ es) = IsAnnounced seen e × AreAnnounced (e ∷ seen) es

  abbrev pub grow : List (Event F) → List (Event F) → List (Event F)
  grow [] seen = seen
  grow (e ∷ es) seen = grow es (e ∷ seen)

  pub AreAnnounced-append :
      (es fs seen : List (Event F))
      → AreAnnounced seen es
      → AreAnnounced (grow es seen) fs
      → AreAnnounced seen (es ++ fs)
  AreAnnounced-append [] fs seen h k = k
  AreAnnounced-append (e ∷ es) fs seen h k = (h.0, AreAnnounced-append es fs (e ∷ seen) h.1 k)

  -- The current target of a mission has been sent.
  abbrev pub IsLoaded : List (Event F) → ℕ → Mission F → Type 0
  IsLoaded seen car m =
      (m.car_id ≡ car)
      × IsOfRoute m.route_id m.waypoints
      × ((w : Waypoint F) → current m ≡ some w → In (waypoint_sent car w) seen)

  pub IsLoaded-grow :
      (es seen : List (Event F)) (car : ℕ) (m : Mission F)
      → IsLoaded seen car m
      → IsLoaded (grow es seen) car m
  IsLoaded-grow [] seen car m h = h
  IsLoaded-grow (e ∷ es) seen car m h =
      IsLoaded-grow es (e ∷ seen) car m (h.0, h.1, λ w c. inr (h.2 w c))

  in_route :
      (r i : ℕ) (ws : List (Waypoint F)) (w : Waypoint F)
      → IsOfRoute r ws
      → get_elem? ws i ≡ some w
      → w.route_id ≡ r
  in_route r i [] w h e = cc
  in_route r zero (x ∷ ws) w h e = ground (arith, h.0)
  in_route r (suc i) (x ∷ ws) w h e = in_route r i ws w h.1 e

module _ {F E : Type 0} where
  -- After a call that has returned, its events are announced and the mission is loaded.
  abbrev pub Continues : List (Event F) → ℕ → Mission F → Reply F E → Type 0
  Continues seen car m (raised e) = Unit
  Continues seen car m (returned es) = AreAnnounced seen es × IsLoaded (grow es seen) car m

module _ {F V E : Type 0} where
  abbrev pub ContinuesTurn : List (Event F) → ℕ → Turn F V E → Type 0
  ContinuesTurn seen car t = Continues seen car t.mission t.reply

  sending-Continues :
      (seen : List (Event F)) (car : ℕ) (before after : Mission F) (e : Event F) (r : V × Option E)
      → IsAnnounced seen e
      → IsLoaded (e ∷ seen) car after
      → ContinuesTurn seen car (sending before after e r)
  sending-Continues seen car before after e (v, none) a h = ((a, tt), h)
  sending-Continues seen car before after e (v, some x) a h = tt

module _ {F V E : Type 0} ⦃fl : Float F⦄ ⦃ar : Arithmetic F⦄ (link : Link F V E)
    (seen : List (Event F)) (car : ℕ) where
  pub load_at-Continues :
      (o : Option (Waypoint F)) (m : Mission F) (v : V)
      → current m ≡ o
      → m.car_id ≡ car
      → IsOfRoute m.route_id m.waypoints
      → ContinuesTurn seen car (load_at link o m v)
  unfolding load_at
  load_at-Continues none m v c i u = tt
  load_at-Continues (some w) m v c i u =
      sending-Continues seen car m (in_state loading m) (waypoint_sent m.car_id w) _ tt
        (i, u, λ w' c'. inl (ground (arith, c, c', i)))

  send_go_at-Continues :
      (o : Option (Waypoint F)) (m : Mission F) (v : V)
      → current m ≡ o
      → IsLoaded seen car m
      → ContinuesTurn seen car (send_go_at link o car m v)
  unfolding send_go_at
  send_go_at-Continues none m v c h = tt
  send_go_at-Continues (some w) m v c h =
      sending-Continues seen car m (in_state resuming m) (go_sent car m.route_id w.waypoint_id) _
        (w, h.2 w c, in_route m.route_id m.index m.waypoints w h.1 c, refl)
        (h.0, h.1, λ w' c'. inr (h.2 w' c'))

  wait_then-Continues :
      (s : MissionState) (reason : WaitReason) (wp : ℕ) (m : Mission F) (v : V)
      → IsLoaded seen car m
      → ContinuesTurn seen car (wait_then link s reason car wp m v)
  wait_then-Continues s reason wp m v h =
      sending-Continues seen car m (in_state s m) (wait_sent car reason m.route_id wp) _ tt
        (h.0, h.1, λ w c. inr (h.2 w c))

  pub hold_mission-Continues :
      (reason : WaitReason) (m : Mission F) (v : V)
      → IsLoaded seen car m
      → ContinuesTurn seen car (hold_mission link car reason m v)
  unfolding hold_mission
  hold_mission-Continues reason m v h = elim (Bool-cases (is_over m.state)) [
    | inl e ↦ rw e (tt, h)
    | inr e ↦ rw e (wait_then-Continues held reason _ m v h)
  ]

  pub resume_in-Continues :
      (s : MissionState) (o : Option (Waypoint F)) (m : Mission F) (v : V)
      → current m ≡ o
      → IsLoaded seen car m
      → ContinuesTurn seen car (resume_in link s o car m v)
  unfolding resume_in
  resume_in-Continues held none m v c h = (tt, h)
  resume_in-Continues held (some w) m v c h = send_go_at-Continues (some w) m v c h
  resume_in-Continues idle o m v c h = (tt, h)
  resume_in-Continues driving o m v c h = (tt, h)
  resume_in-Continues switching o m v c h = (tt, h)
  resume_in-Continues loading o m v c h = (tt, h)
  resume_in-Continues resuming o m v c h = (tt, h)
  resume_in-Continues parked_check o m v c h = (tt, h)
  resume_in-Continues done o m v c h = (tt, h)

  pub regenerate_with-Continues :
      (ws : List (Waypoint F)) (m : Mission F) (v : V)
      → IsUniform ws
      → IsLoaded seen car m
      → ContinuesTurn seen car (regenerate_with link car ws m v)
  unfolding regenerate_with load_current
  regenerate_with-Continues [] m v u h = tt
  regenerate_with-Continues (w ∷ ws) m v u h =
      load_at-Continues (some w) (record m { route_id = w.route_id; waypoints = w ∷ ws; index = 0 })
        (link.clear_outstanding car v) refl h.0 u

  arrive-Continues :
      (w : Waypoint F) (m : Mission F) (v : V)
      → IsLoaded seen car m
      → ContinuesTurn seen car (arrive link car w m v)
  unfolding arrive
  arrive-Continues w m v h =
      if_both (ContinuesTurn seen car) w.is_final (wait_then-Continues parked_check _ _ m v h)
        (wait_then-Continues switching _ _ m v h)

  done-Continues :
      (slot : Option Slot) (m : Mission F) (v : V)
      → IsLoaded seen car m
      → ContinuesTurn seen car (turn (in_state done m) v (on_parked link car slot))
  unfolding on_parked
  done-Continues none m v h = (tt, h)
  done-Continues (some s) m v h = ((tt, tt), (h.0, h.1, λ w c. inr (h.2 w c)))

  pub pose_in-Continues :
      (lead : F) (s : MissionState) (o : Option (Waypoint F)) (p : F × F) (d : Option F)
      (m : Mission F) (v : V)
      → IsLoaded seen car m
      → ContinuesTurn seen car (pose_in link lead s o car p d m v)
  unfolding pose_in
  pose_in-Continues lead driving (some w) p d m v h =
      if_both (ContinuesTurn seen car) (reached lead w p d) (arrive-Continues w m v h) (tt, h)
  pose_in-Continues lead parked_check (some w) p d m v h =
      if_both (ContinuesTurn seen car) (is_waypoint_reached w p d) (done-Continues m.slot_id m v h)
        (tt, h)
  pose_in-Continues lead driving none p d m v h = (tt, h)
  pose_in-Continues lead parked_check none p d m v h = (tt, h)
  pose_in-Continues lead idle o p d m v h = (tt, h)
  pose_in-Continues lead switching o p d m v h = (tt, h)
  pose_in-Continues lead loading o p d m v h = (tt, h)
  pose_in-Continues lead resuming o p d m v h = (tt, h)
  pose_in-Continues lead held o p d m v h = (tt, h)
  pose_in-Continues lead done o p d m v h = (tt, h)

  next_target-Continues :
      (o : Option (Waypoint F)) (m : Mission F) (v : V)
      → current m ≡ o
      → m.car_id ≡ car
      → IsOfRoute m.route_id m.waypoints
      → ContinuesTurn seen car (next_target link o m v)
  unfolding next_target load_current
  next_target-Continues none m v c i u = (tt, (i, u, λ w c'. cc))
  next_target-Continues (some w) m v c i u = load_at-Continues (current m) m v refl i u

  pub status_in-Continues :
      (s : MissionState) (r : Report) (m : Mission F) (v : V)
      → IsLoaded seen car m
      → ContinuesTurn seen car (status_in link s car r m v)
  unfolding status_in
  status_in-Continues switching r m v h =
      let next = record m { index = m.index + 1 } in
      if_both (ContinuesTurn seen car) (is_waiting r.state)
        (next_target-Continues (current next) next v refl h.0 h.1) (tt, h)
  status_in-Continues loading r m v h =
      if_both (ContinuesTurn seen car) (is_waiting r.state && is_loaded link m r)
        (send_go_at-Continues (current m) m v refl h)
        (if_both (ContinuesTurn seen car) (is_moving r.state) (tt, h) (tt, h))
  status_in-Continues resuming r m v h =
      if_both (ContinuesTurn seen car) (is_moving r.state) (tt, h) (tt, h)
  status_in-Continues idle r m v h = (tt, h)
  status_in-Continues driving r m v h = (tt, h)
  status_in-Continues held r m v h = (tt, h)
  status_in-Continues parked_check r m v h = (tt, h)
  status_in-Continues done r m v h = (tt, h)

  pub recover-Continues :
      (a : Recovery) (result : CommandResult) (m : Mission F) (v : V)
      → IsLoaded seen car m
      → ContinuesTurn seen car (recover link a car result m v)
  unfolding recover
  recover-Continues replan result m v h = ((tt, tt), (h.0, h.1, λ w c. inr (h.2 w c)))
  recover-Continues wait_for_condition result m v h = (tt, h)
  recover-Continues no_recovery result m v h = (tt, h)
