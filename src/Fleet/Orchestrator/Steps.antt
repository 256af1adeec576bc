-- ===== src/Fleet/Orchestrator/Steps.antt =====
-- orchestrator.py: what a call does to the missions of the cars.
use hanium_smart_parkin.Base.{
  ℕ, ◌≡◌, refl, ◌⊎◌, inl, inr, Bool-cases, Option-cases, Bool, true, false, if◌then◌else◌, Option,
  none, some, List, [], ◌∷◌, ◌==◌, arith,
}
use hanium_smart_parkin.Base.Float.{Float}
use hanium_smart_parkin.Base.Arithmetic.{Arithmetic}
use hanium_smart_parkin.Fleet.Graph.{Slot}
use hanium_smart_parkin.Fleet.Waypoints.{Waypoint, to_wire}
use hanium_smart_parkin.Fleet.Mission.{
  idle, loading, held, Mission, Reply, returned, Link, Turn, MissionOrchestrator, current, in_state,
  is_over, recovery_of, sending, waypoint_sent, write, with_mission,
}
use hanium_smart_parkin.Fleet.Orchestrator.{
  hold_mission, resume_mission, regenerate_mission, update_mission, status_mission, reject_mission,
  start_with, start_mission, hold, resume, regenerate, update_pose, on_vehicle_status,
  on_command_rejected, mark_link_lost, load_at, load_current,
}
use hanium_smart_parkin.Fleet.Orchestrator.Calls.{
  Call, start_call, hold_call, link_lost_call, resume_call, regenerate_call, pose_call, status_call,
  rejected_call, step, with_mission-none, with_mission-some, link_none, link_some,
}
use hanium_smart_parkin.Fleet.Orchestrator.Cycle.{Move, rests, loses_link, is_raised}
use hanium_smart_parkin.Fleet.Orchestrator.Moves.{
  Moves, hold_mission-Moves, resume_in-Moves, regenerate_with-Moves, pose_in-Moves, status_in-Moves,
  recover-Moves,
}

pub ==-refl : (n : ℕ) → (n == n) ≡ true
==-refl n = ground arith

-- A new mission takes the place of the old one: with its first target loading, or idle where the server
-- refuses that. Without a waypoint nothing is started.
abbrev pub Starts :
    {F : Type 0} → List (Waypoint F) → Bool → Option (Mission F) → Option (Mission F) → Type 0
Starts [] b before after = (b ≡ true) × (after ≡ before)
Starts {F} (w ∷ ws) b before after =
    (m : Mission F) × (after ≡ some m)
    × (m.waypoints ≡ w ∷ ws)
    × (m.index ≡ 0)
    × (m.route_id ≡ w.route_id)
    × (m.state ≡ (if b then idle else loading))

module _ {F : Type 0} ⦃fl : Float F⦄ ⦃ar : Arithmetic F⦄ (lead : F) where
  -- What a call other than a start makes of the mission of its car.
  abbrev pub Goes : Call F → Bool → Option (Mission F) → Option (Mission F) → Type 0
  Goes c b none after = (b ≡ false) × (after ≡ none)
  Goes c b (some m) after = (m' : Mission F) × (after ≡ some m') × Move lead c m b m'.state

  abbrev pub Becomes : Call F → Bool → Option (Mission F) → Option (Mission F) → Type 0
  Becomes (start_call ws slot) b before after = Starts ws b before after
  Becomes c b before after = Goes c b before after

module _ {F V E : Type 0} ⦃fl : Float F⦄ ⦃ar : Arithmetic F⦄ (lead : F) where
  -- What a call for a car makes of the missions: no other one than that of the car changes.
  abbrev pub Steps :
      ℕ → Call F → MissionOrchestrator F V → MissionOrchestrator F V × Reply F E → ℕ → Type 0
  Steps car c o (o', r) other =
      Becomes lead c (is_raised r) (o.missions car) (o'.missions car)
      × ((other ≡ car) ⊎ (o'.missions other ≡ o.missions other))

module _ {F : Type 0} where
  written_other :
      (car other : ℕ) (m : Option (Mission F)) (ms : ℕ → Option (Mission F))
      → (other ≡ car) ⊎ (write car m ms other ≡ ms other)
  written_other car other m ms = elim (Bool-cases (other == car)) [
    | inl e ↦ inl (ground (arith, e))
    | inr e ↦ inr (rw e refl)
  ]

module _ {F V E : Type 0} ⦃fl : Float F⦄ ⦃ar : Arithmetic F⦄ (link : Link F V E) (lead : F)
    (car : ℕ) where
  -- A call other than a start, on the mission of the car.
  abbrev Passes :
      Call F → MissionOrchestrator F V → MissionOrchestrator F V × Reply F E → ℕ → Type 0
  Passes c o (o', r) other =
      Goes lead c (is_raised r) (o.missions car) (o'.missions car)
      × ((other ≡ car) ⊎ (o'.missions other ≡ o.missions other))

  with_mission-Passes :
      (c : Call F) (f : Mission F → V → Turn F V E) (o : MissionOrchestrator F V) (v : V)
      (other : ℕ)
      → ((m : Mission F) → Moves link lead car c m (f m v))
      → Passes c o (with_mission car f (record o { server = v })) other
  with_mission-Passes c f o v other h = elim (Option-cases (o.missions car)) [
    | inl e ↦ rw (with_mission-none car f (record o { server = v }) e, e) ((refl, refl), inr refl)
    | inr (m, e) ↦
        rw (with_mission-some car f (record o { server = v }) m e, e)
          (
            ((f m v).mission, rw (==-refl car) refl, h m),
            written_other car other (some (f m v).mission) o.missions,
          )
  ]

  link_lost-Passes :
      (o : MissionOrchestrator F V) (v : V) (other : ℕ)
      → Passes link_lost_call o
          ((mark_link_lost car (record o { server = v })).0, returned [])
          other
  link_lost-Passes o v other = elim (Option-cases (o.missions car)) [
    | inl e ↦ rw (link_none car (record o { server = v }) e, e) ((refl, refl), inr refl)
    | inr (m, e) ↦
        rw (link_some car (record o { server = v }) m e, e)
          (elim (Bool-cases (is_over m.state)) [
            | inl b ↦ rw b ((m, e, rests b), inr refl)
            | inr b ↦ rw b (
              (in_state held m, rw (==-refl car) refl, loses_link b),
              written_other car other (some (in_state held m)) o.missions,
            )
          ])
  ]

  abbrev Started : Waypoint F → List (Waypoint F) → Turn F V E → Type 0
  Started w ws t =
      (t.mission.waypoints ≡ w ∷ ws)
      × (t.mission.index ≡ 0)
      × (t.mission.route_id ≡ w.route_id)
      × (t.mission.state ≡ (if is_raised t.reply then idle else loading))

  started :
      (w : Waypoint F) (ws : List (Waypoint F)) (slot : Option Slot) (r : V × Option E)
      → let m : Mission F = record {
        car_id = car;
        route_id = w.route_id;
        waypoints = w ∷ ws;
        index = 0;
        state = idle;
        slot_id = slot;
      } in
        Started w ws (sending m (in_state loading m) (waypoint_sent car w) r)
  started w ws slot (v, none) = (refl, refl, refl, refl)
  started w ws slot (v, some x) = (refl, refl, refl, refl)

  start_with-Steps :
      (ws : List (Waypoint F)) (slot : Option Slot) (o : MissionOrchestrator F V) (v : V)
      (other : ℕ)
      → Steps {E = E} lead car
          (start_call ws slot)
          o
          (start_with link car ws slot (record o { server = v }))
          other
  unfolding start_with load_current load_at
  start_with-Steps [] slot o v other = ((refl, refl), inr refl)
  start_with-Steps (w ∷ ws) slot o v other =
      let m : Mission F = record {
        car_id = car;
        route_id = w.route_id;
        waypoints = w ∷ ws;
        index = 0;
        state = idle;
        slot_id = slot;
      } in
      let r = link.send_waypoint car (to_wire w) v in
      let t : Turn F V E = sending m (in_state loading m) (waypoint_sent car w) r in
      let (a, b, c, d) = started w ws slot r in
      (
        (t.mission, rw (==-refl car) refl, a, b, c, d),
        written_other car other (some t.mission) o.missions,
      )

  -- A call for a car changes no mission but that of this car. A start replaces it by a new one at the
  -- first waypoint: LOADING, or IDLE if the call raises; an empty route raises and changes nothing. Any
  -- other call does nothing without a mission, and else leads to the state that the table `Move` has for
  -- it, the conditions on pose, report, target and route included: a call that raises leaves the state,
  -- and one that returns leaves it only where the conditions of every move fail.
  pub step-Steps :
      (c : Call F) (v : V) (o : MissionOrchestrator F V) (other : ℕ)
      → Steps {E = E} lead car c o (step link lead car c v o) other
  unfolding step start_mission hold resume regenerate update_pose on_vehicle_status
      on_command_rejected resume_mission regenerate_mission update_mission status_mission
      reject_mission
  step-Steps (start_call ws slot) v o other = start_with-Steps ws slot o v other
  step-Steps (hold_call reason) v o other =
      with_mission-Passes (hold_call reason) (hold_mission link car reason) o v other
        (λ m. hold_mission-Moves link lead car reason m v)
  step-Steps link_lost_call v o other = link_lost-Passes o v other
  step-Steps resume_call v o other =
      with_mission-Passes resume_call (resume_mission link car) o v other
        (λ m. resume_in-Moves link lead car m.state (current m) m v refl refl)
  step-Steps (regenerate_call ws) v o other =
      with_mission-Passes (regenerate_call ws) (regenerate_mission link car ws) o v other
        (λ m. regenerate_with-Moves link lead car ws m v)
  step-Steps (pose_call p d) v o other =
      with_mission-Passes (pose_call p d) (update_mission link lead car p d) o v other
        (λ m. pose_in-Moves link lead car m.state (current m) p d m v refl refl)
  step-Steps (status_call r) v o other =
      with_mission-Passes (status_call r) (status_mission link car r) o v other
        (λ m. status_in-Moves link lead car m.state r m v refl)
  step-Steps (rejected_call result) v o other =
      with_mission-Passes (rejected_call result) (reject_mission link car result) o v other
        (λ m. recover-Moves link lead car (recovery_of result) result m v refl)
