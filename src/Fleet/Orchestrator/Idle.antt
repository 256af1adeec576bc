-- ===== src/Fleet/Orchestrator/Idle.antt =====
-- orchestrator.py: a mission whose first waypoint could not be sent.
use hanium_smart_parkin.Base.{
  ℕ, ◌≡◌, refl, sym, inl, inr, ◌∙◌, ap, true, Option, some, List, [], ◌∷◌,
}
use hanium_smart_parkin.Base.Float.{Float}
use hanium_smart_parkin.Base.Arithmetic.{Arithmetic}
use hanium_smart_parkin.Fleet.Graph.{Slot}
use hanium_smart_parkin.Fleet.Waypoints.{Waypoint, to_wire}
use hanium_smart_parkin.Fleet.Mission.{
  MissionState, idle, loading, Mission, Report, refused, Reply, returned, raised, Link, Turn,
  MissionOrchestrator, current, in_state, is_over, turn, quiet, store, with_mission,
}
use hanium_smart_parkin.Fleet.Orchestrator.{
  load_at, load_current, start_with, start_mission, hold_mission, resume_in, resume_mission,
  pose_in, update_mission, status_in, status_mission, hold, resume, update_pose, on_vehicle_status,
}
use hanium_smart_parkin.Fleet.Orchestrator.Calls.{
  Call, start_call, hold_call, link_lost_call, resume_call, regenerate_call, pose_call, status_call,
  rejected_call, step, run, with_mission-some, link_some,
}
use hanium_smart_parkin.Fleet.Orchestrator.Steps.{==-refl, step-Steps}
use hanium_smart_parkin.Fleet.Orchestrator.Failure.{sending_refused}

-- The calls by which poses, reports and the watch over the cars drive a mission on.
abbrev pub IsRoutine : {F : Type 0} → Call F → Type 0
IsRoutine (hold_call _) = Unit
IsRoutine link_lost_call = Unit
IsRoutine resume_call = Unit
IsRoutine (pose_call _ _) = Unit
IsRoutine (status_call _) = Unit
IsRoutine (start_call _ _) = ⊥
IsRoutine (regenerate_call _) = ⊥
IsRoutine (rejected_call _) = ⊥

-- The mission that `start_mission` enters before it sends anything.
abbrev pub entered : {F : Type 0} → ℕ → Waypoint F → List (Waypoint F) → Option Slot → Mission F
entered car w ws slot = record {
  car_id = car;
  route_id = w.route_id;
  waypoints = w ∷ ws;
  index = 0;
  state = idle;
  slot_id = slot;
}

module _ {F V E : Type 0} ⦃fl : Float F⦄ ⦃ar : Arithmetic F⦄ (link : Link F V E) (car : ℕ) where
  resume_in_idle :
      (s : MissionState) (o : Option (Waypoint F)) (m : Mission F) (v : V)
      → s ≡ idle
      → resume_in link s o car m v ≡ quiet m v
  unfolding resume_in
  resume_in_idle idle o m v e = refl
  resume_in_idle _ o m v e = cc

  pose_in_idle :
      (lead : F) (s : MissionState) (o : Option (Waypoint F)) (p : F × F) (d : Option F)
      (m : Mission F) (v : V)
      → s ≡ idle
      → pose_in link lead s o car p d m v ≡ quiet m v
  unfolding pose_in
  pose_in_idle lead idle o p d m v e = refl
  pose_in_idle lead _ o p d m v e = cc

  status_in_idle :
      (s : MissionState) (r : Report) (m : Mission F) (v : V)
      → s ≡ idle
      → status_in link s car r m v ≡ quiet m v
  unfolding status_in
  status_in_idle idle r m v e = refl
  status_in_idle _ r m v e = cc

  is_over_idle : (s : MissionState) → s ≡ idle → is_over s ≡ true
  is_over_idle s e = rw e refl

  -- Nothing has been said, and the mission of the car is `m`.
  abbrev pub Leaves : Mission F → MissionOrchestrator F V × Reply F E → Type 0
  Leaves m (o, r) = (r ≡ returned []) × (o.missions car ≡ some m)

  quiet-Leaves :
      (f : Mission F → V → Turn F V E) (o : MissionOrchestrator F V) (m : Mission F)
      → o.missions car ≡ some m
      → f m o.server ≡ quiet m o.server
      → Leaves m (with_mission car f o)
  quiet-Leaves f o m e q =
      rw (with_mission-some car f o m e ∙ ap (store car o) q) (refl, rw (==-refl car) refl)

  routine-Leaves :
      (lead : F) (c : Call F) (v : V) (o : MissionOrchestrator F V) (m : Mission F)
      → IsRoutine c
      → o.missions car ≡ some m
      → m.state ≡ idle
      → Leaves m (step link lead car c v o)
  unfolding step hold resume update_pose on_vehicle_status hold_mission resume_mission
      update_mission status_mission
  routine-Leaves lead (hold_call reason) v o m u e i =
      quiet-Leaves (hold_mission link car reason) (record o { server = v }) m e
        (rw (is_over_idle m.state i) refl)
  routine-Leaves lead link_lost_call v o m u e i =
      (refl, rw (link_some car (record o { server = v }) m e, is_over_idle m.state i) e)
  routine-Leaves lead resume_call v o m u e i =
      quiet-Leaves (resume_mission link car) (record o { server = v }) m e
        (resume_in_idle m.state (current m) m v i)
  routine-Leaves lead (pose_call p d) v o m u e i =
      quiet-Leaves (update_mission link lead car p d) (record o { server = v }) m e
        (pose_in_idle lead m.state (current m) p d m v i)
  routine-Leaves lead (status_call r) v o m u e i =
      quiet-Leaves (status_mission link car r) (record o { server = v }) m e
        (status_in_idle m.state r m v i)
  routine-Leaves lead (start_call ws slot) v o m u e i = absurd u
  routine-Leaves lead (regenerate_call ws) v o m u e i = absurd u
  routine-Leaves lead (rejected_call result) v o m u e i = absurd u

  start_entered :
      (w : Waypoint F) (ws : List (Waypoint F)) (slot : Option Slot) (o : MissionOrchestrator F V)
      (x : E)
      → (link.send_waypoint car (to_wire w) o.server).1 ≡ some x
      → start_mission link car (w ∷ ws) slot o
        ≡ store car o (
            turn
              (entered car w ws slot)
              (link.send_waypoint car (to_wire w) o.server).0
              (raised (refused x)))
  unfolding start_mission start_with load_current load_at
  start_entered w ws slot o x f = ap (store car o) (
      sending_refused link car (entered car w ws slot) (in_state loading (entered car w ws slot))
        (link.send_waypoint car (to_wire w) o.server) w x f)

  -- The calls for this car are routine ones; those for the other cars may be any.
  abbrev pub AreRoutine : List (ℕ × Call F × V) → Type 0
  AreRoutine [] = Unit
  AreRoutine ((c, call, v) ∷ cs) = ((c ≡ car) → IsRoutine call) × AreRoutine cs

  -- A call that leaves the mission `m` of this car, and says nothing if it is for this car.
  abbrev Spares : ℕ → Mission F → MissionOrchestrator F V × Reply F E → Type 0
  Spares c m (o, r) = (o.missions car ≡ some m) × ((c ≡ car) → r ≡ returned [])

  step-Spares :
      (lead : F) (c : ℕ) (call : Call F) (v : V) (o : MissionOrchestrator F V) (m : Mission F)
      → ((c ≡ car) → IsRoutine call)
      → o.missions car ≡ some m
      → m.state ≡ idle
      → Spares c m (step link lead c call v o)
  step-Spares lead c call v o m u e i = (
    elim (step-Steps link lead c call v o car).1 [
      | inl q ↦ rw (sym q) ((routine-Leaves lead call v o m (u (sym q)) e i).1)
      | inr k ↦ k ∙ e
    ],
    λ k. rw k ((routine-Leaves lead call v o m (u k) e i).0),
  )

  -- The replies to the calls for this car are empty.
  abbrev pub AreSilent : List (ℕ × Call F × V) → List (Reply F E) → Type 0
  AreSilent [] rs = Unit
  AreSilent (_ ∷ _) [] = ⊥
  AreSilent ((c, _, _) ∷ cs) (r ∷ rs) = ((c ≡ car) → r ≡ returned []) × AreSilent cs rs

  run-Spares :
      (lead : F) (cs : List (ℕ × Call F × V)) (o : MissionOrchestrator F V) (m : Mission F)
      → AreRoutine cs
      → o.missions car ≡ some m
      → m.state ≡ idle
      → let (o', rs) = run link lead cs o in (o'.missions car ≡ some m) × AreSilent cs rs
  unfolding run
  run-Spares lead [] o m u e i = (e, tt)
  run-Spares lead ((c, call, v) ∷ cs) o m u e i =
      let (kept, silent) = step-Spares lead c call v o m u.0 e i in
      let (last, rest) = run-Spares lead cs (step link lead c call v o).0 m u.1 kept i in
      (last, (silent, rest))

  -- If the server raises when the first waypoint of a new mission is sent, `start_mission` raises, yet
  -- the mission is entered for the car, IDLE. From then on, in every series of calls in which those for
  -- this car are poses, reports, holds, resumes and lost links, and those for other cars are any, all
  -- calls for this car return without an event and its mission stays as it was entered.
  pub start_refused :
      (lead : F) (w : Waypoint F) (ws : List (Waypoint F)) (slot : Option Slot)
      (o : MissionOrchestrator F V) (x : E) (cs : List (ℕ × Call F × V))
      → (link.send_waypoint car (to_wire w) o.server).1 ≡ some x
      → AreRoutine cs
      → let (o', r) = start_mission link car (w ∷ ws) slot o in
        let (o'', rs) = run link lead cs o' in
        (r ≡ raised (refused x))
        × (o'.missions car ≡ some (entered car w ws slot))
        × (o''.missions car ≡ some (entered car w ws slot))
        × AreSilent cs rs
  start_refused lead w ws slot o x cs f u =
      let e = start_entered w ws slot o x f in
      let s : (start_mission link car (w ∷ ws) slot o).0.missions car
          ≡ some (entered car w ws slot) =
        rw (e, ==-refl car) refl in
      let (k, q) =
        run-Spares lead cs (start_mission link car (w ∷ ws) slot o).0 (entered car w ws slot) u s
          refl in
      (ap (λ t. t.1) e, s, k, q)
