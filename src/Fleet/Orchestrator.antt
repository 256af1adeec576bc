-- ===== src/Fleet/Orchestrator.antt =====
-- integrated/host/comm/orchestrator.py: `MissionOrchestrator`, which takes each car from waypoint to
-- waypoint: a handler for each call, on the mission of one car and the server, and the calls themselves.
pub mod Calls
pub mod Cycle
pub mod Moves
pub mod Steps
pub mod Loaded
pub mod Announced
pub mod Failure
pub mod Idle
use hanium_smart_parkin.Base.{
  ℕ, ◌+◌, Bool, true, false, ◌&&◌, Option, none, some, List, [], ◌∷◌, if◌then◌else◌,
}
use hanium_smart_parkin.Base.Int.{pos, negsuc}
use hanium_smart_parkin.Base.Float.{Float}
use hanium_smart_parkin.Base.Arithmetic.{Arithmetic}
use hanium_smart_parkin.Bridge.Wire.{VehicleState, CommandResult}
use hanium_smart_parkin.Fleet.Graph.{Slot, mm}
use hanium_smart_parkin.Fleet.Waypoints.{
  Waypoint, to_wire, distance_mm, faces_target, is_waypoint_reached,
}
use hanium_smart_parkin.Fleet.Mission.{
  MissionState, WaitReason, Mission, Report, waypoint_sent, go_sent, wait_sent, parked,
  replan_required, value_error, index_error, attribute_error, Reply, returned, raised, Link, Turn,
  MissionOrchestrator, current, in_state, waypoint_id_or, equals, is_over, is_waiting, is_moving,
  Recovery, replan, wait_for_condition, no_recovery, recovery_of, turn, quiet, sending, write,
  store, with_mission,
}

module _ {F : Type 0} ⦃fl : Float F⦄ ⦃ar : Arithmetic F⦄ where
  -- `_reached`: the tolerance for the position, and the way that a late picture may hide.
  unfoldable pub reached : F → Waypoint F → F × F → Option F → Bool
  unfolding faces_target
  reached camera_lead_cm w position heading =
      if fl.lt (fl.add (ar.mul w.position_tolerance_cm (mm 10)) (ar.mul camera_lead_cm (mm 10)))
        (distance_mm w position)
      then false
      else faces_target w heading

module _ {F V E : Type 0} ⦃fl : Float F⦄ ⦃ar : Arithmetic F⦄ (link : Link F V E) where
  unfoldable pub load_at : Option (Waypoint F) → Mission F → V → Turn F V E
  load_at none m v = turn m v (raised attribute_error)
  load_at (some w) m v =
      sending m (in_state MissionState.loading m) (waypoint_sent m.car_id w)
        (link.send_waypoint m.car_id (to_wire w) v)

  -- `_load_current`
  unfoldable pub load_current : Mission F → V → Turn F V E
  unfolding load_at
  load_current m v = load_at (current m) m v

  unfoldable pub send_go_at : Option (Waypoint F) → ℕ → Mission F → V → Turn F V E
  send_go_at none car m v = turn m v (raised attribute_error)
  send_go_at (some w) car m v =
      sending m (in_state MissionState.resuming m) (go_sent car m.route_id w.waypoint_id)
        (link.send_go car m.route_id w.waypoint_id v)

  abbrev pub wait_then : MissionState → WaitReason → ℕ → ℕ → Mission F → V → Turn F V E
  wait_then s reason car wp m v =
      sending m (in_state s m) (wait_sent car reason m.route_id wp)
        (link.send_wait car reason m.route_id wp v)

  unfoldable pub waypoint_id_or_nought : Option (Waypoint F) → ℕ
  waypoint_id_or_nought none = 0
  waypoint_id_or_nought (some w) = w.waypoint_id

  unfoldable pub hold_mission : ℕ → WaitReason → Mission F → V → Turn F V E
  unfolding waypoint_id_or_nought
  hold_mission car reason m v =
      if is_over m.state
      then quiet m v
      else wait_then MissionState.held reason car (waypoint_id_or_nought (current m)) m v

  unfoldable pub resume_in : MissionState → Option (Waypoint F) → ℕ → Mission F → V → Turn F V E
  unfolding send_go_at
  resume_in MissionState.held none car m v = quiet m v
  resume_in MissionState.held (some w) car m v = send_go_at (some w) car m v
  resume_in _ w car m v = quiet m v

  unfoldable pub resume_mission : ℕ → Mission F → V → Turn F V E
  unfolding resume_in send_go_at
  resume_mission car m v = resume_in m.state (current m) car m v

  unfoldable pub regenerate_with : ℕ → List (Waypoint F) → Mission F → V → Turn F V E
  regenerate_with car [] m v = turn m (link.clear_outstanding car v) (raised index_error)
  regenerate_with car (w ∷ ws) m v =
      load_current (record m { route_id = w.route_id; waypoints = w ∷ ws; index = 0 })
        (link.clear_outstanding car v)

  unfoldable pub regenerate_mission : ℕ → List (Waypoint F) → Mission F → V → Turn F V E
  unfolding regenerate_with
  regenerate_mission car ws m v = regenerate_with car ws m v

  -- The arrival at a waypoint: the car is stopped, for the check of its position or the next target.
  unfoldable pub arrive : ℕ → Waypoint F → Mission F → V → Turn F V E
  arrive car w m v =
      if w.is_final
      then wait_then MissionState.parked_check WaitReason.final_waypoint_reached car w.waypoint_id m
          v
      else wait_then MissionState.switching WaitReason.waypoint_reached car w.waypoint_id m v

  unfoldable pub on_parked : ℕ → Option Slot → Reply F E
  on_parked car none = returned []
  on_parked car (some s) = returned (parked car s ∷ [])

  unfoldable pub pose_in :
      F → MissionState → Option (Waypoint F) → ℕ → F × F → Option F → Mission F → V → Turn F V E
  pose_in lead MissionState.driving (some w) car p h m v =
      if reached lead w p h then arrive car w m v else quiet m v
  pose_in lead MissionState.parked_check (some w) car p h m v =
      if is_waypoint_reached w p h
      then turn (in_state MissionState.done m) v (on_parked car m.slot_id)
      else quiet m v
  pose_in lead _ w car p h m v = quiet m v

  -- The first argument is `camera_lead_cm`.
  unfoldable pub update_mission : F → ℕ → F × F → Option F → Mission F → V → Turn F V E
  unfolding pose_in arrive on_parked
  update_mission lead car p h m v = pose_in lead m.state (current m) car p h m v

  -- The next target, after the car has reported that it waits.
  unfoldable pub next_target : Option (Waypoint F) → Mission F → V → Turn F V E
  next_target none m v = quiet (in_state MissionState.done m) v
  next_target (some w) m v = load_current m v

  -- Is the current target the one that the car has loaded?
  abbrev pub is_loaded : Mission F → Report → Bool
  is_loaded m r =
      (r.target_loaded && equals r.route_id (pos m.route_id))
      && equals r.waypoint_id (waypoint_id_or (negsuc 0) (current m))

  unfoldable pub status_in : MissionState → ℕ → Report → Mission F → V → Turn F V E
  status_in MissionState.switching car r m v =
      let next = record m { index = m.index + 1 } in
      if is_waiting r.state then next_target (current next) next v else quiet m v
  status_in MissionState.loading car r m v =
      if is_waiting r.state && is_loaded m r
      then send_go_at (current m) car m v
      else (if is_moving r.state then quiet (in_state MissionState.driving m) v else quiet m v)
  status_in MissionState.resuming car r m v =
      if is_moving r.state then quiet (in_state MissionState.driving m) v else quiet m v
  status_in _ car r m v = quiet m v

  unfoldable pub status_mission : ℕ → Report → Mission F → V → Turn F V E
  unfolding status_in next_target send_go_at
  status_mission car r m v = status_in m.state car r m v

  unfoldable pub recover : Recovery → ℕ → CommandResult → Mission F → V → Turn F V E
  recover replan car result m v =
      turn (in_state MissionState.held m) v (returned (replan_required car result ∷ []))
  recover wait_for_condition car result m v = quiet (in_state MissionState.held m) v
  recover no_recovery car result m v = quiet m v

  unfoldable pub reject_mission : ℕ → CommandResult → Mission F → V → Turn F V E
  unfolding recover
  reject_mission car result m v = recover (recovery_of result) car result m v

  -- The calls. A new mission takes the place of any other of the car before its waypoint is sent.
  unfoldable pub start_with :
      ℕ
      → List (Waypoint F)
      → Option Slot
      → MissionOrchestrator F V
      → MissionOrchestrator F V × Reply F E
  start_with car [] slot o = (o, raised value_error)
  start_with car (w ∷ ws) slot o =
      let m : Mission F = record {
        car_id = car;
        route_id = w.route_id;
        waypoints = w ∷ ws;
        index = 0;
        state = MissionState.idle;
        slot_id = slot;
      } in
      store car o (load_current m o.server)

  unfoldable pub start_mission :
      ℕ
      → List (Waypoint F)
      → Option Slot
      → MissionOrchestrator F V
      → MissionOrchestrator F V × Reply F E
  unfolding start_with
  start_mission car ws slot o = start_with car ws slot o

  unfoldable pub hold :
      ℕ → WaitReason → MissionOrchestrator F V → MissionOrchestrator F V × Reply F E
  hold car reason o = with_mission car (hold_mission car reason) o

  unfoldable pub resume : ℕ → MissionOrchestrator F V → MissionOrchestrator F V × Reply F E
  resume car o = with_mission car (resume_mission car) o

  unfoldable pub regenerate :
      ℕ → List (Waypoint F) → MissionOrchestrator F V → MissionOrchestrator F V × Reply F E
  regenerate car ws o = with_mission car (regenerate_mission car ws) o

  unfoldable pub update_pose :
      F → ℕ → F × F → Option F → MissionOrchestrator F V → MissionOrchestrator F V × Reply F E
  update_pose lead car p h o = with_mission car (update_mission lead car p h) o

  unfoldable pub on_vehicle_status :
      ℕ → Report → MissionOrchestrator F V → MissionOrchestrator F V × Reply F E
  on_vehicle_status car r o = with_mission car (status_mission car r) o

  unfoldable pub on_command_rejected :
      ℕ → CommandResult → MissionOrchestrator F V → MissionOrchestrator F V × Reply F E
  on_command_rejected car result o = with_mission car (reject_mission car result) o

module _ {F V : Type 0} where
  -- Without a word to the server; the answer says whether a mission was under way.
  unfoldable pub mark_link_lost : ℕ → MissionOrchestrator F V → MissionOrchestrator F V × Bool
  mark_link_lost car o = elim (o.missions car) [
    | none ↦ (o, false)
    | some m ↦ if is_over m.state then (o, false) else (
      record o { missions = write car (some (in_state MissionState.held m)) o.missions },
      true,
    )
  ]

  unfoldable pub next_route_id : MissionOrchestrator F V → MissionOrchestrator F V × ℕ
  next_route_id o = (record o { route_counter = o.route_counter + 1 }, o.route_counter + 1)
