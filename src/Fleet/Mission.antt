-- ===== src/Fleet/Mission.antt =====
-- integrated/host/comm/orchestrator.py: the state of `MissionOrchestrator`, and what it asks of the
-- server. The server is an interface, `Link`: the calls of it that the orchestrator makes, each of
-- which returns or raises. A callback that is called is an event of the reply, and so is a message
-- handed to the server.
use hanium_smart_parkin.Base.{
  ℕ, Bool, true, false, Option, none, some, List, [], ◌∷◌, ◌==◌, if◌then◌else◌, get_elem?,
}
use hanium_smart_parkin.Base.Int.{ℤ, pos, eqb_ℤ}
use hanium_smart_parkin.Bridge.Wire.{VehicleState, CommandResult}
use hanium_smart_parkin.Fleet.Graph.{Slot}
use hanium_smart_parkin.Fleet.Waypoints.{Waypoint, WireWaypoint}

pub data MissionState : Type 0 where
  idle driving switching loading resuming held parked_check done : MissionState

-- The strings of `WAIT_REASONS`; `unsupported` is any other one.
pub data WaitReason : Type 0 where
  remote_wait collision_risk obstacle rerouting waypoint_reached : WaitReason
  final_waypoint_reached operator_request unsupported : WaitReason

pub record Mission (F : Type 0) : Type 0 where
  pub car_id : ℕ
  pub route_id : ℕ
  pub waypoints : List (Waypoint F)
  pub index : ℕ
  pub state : MissionState
  pub slot_id : Option Slot

-- What the orchestrator reads of a STATUS: a field is `none` if it is missing or no integer.
pub record Report : Type 0 where
  pub state : VehicleState
  pub target_loaded : Bool
  pub route_id : Option ℤ
  pub waypoint_id : Option ℤ

pub data Event (F : Type 0) : Type 0 where
  waypoint_sent : ℕ → Waypoint F → Event F
  go_sent : ℕ → ℕ → ℕ → Event F
  wait_sent : ℕ → WaitReason → ℕ → ℕ → Event F
  parked : ℕ → Slot → Event F
  replan_required : ℕ → CommandResult → Event F

-- The exceptions that a call lets out: those of Python here, and `refused`, what the server raised.
pub data Exception (E : Type 0) : Type 0 where
  value_error index_error attribute_error : Exception E
  refused : E → Exception E

pub data Reply (F E : Type 0) : Type 0 where
  returned : List (Event F) → Reply F E
  raised : Exception E → Reply F E

-- The server, with states `V` and errors `E`: `none` is a call that returns.
pub record Link (F V E : Type 0) : Type 0 where
  pub send_waypoint : ℕ → WireWaypoint F → V → V × Option E
  pub send_go : ℕ → ℕ → ℕ → V → V × Option E
  pub send_wait : ℕ → WaitReason → ℕ → ℕ → V → V × Option E
  pub clear_outstanding : ℕ → V → V

-- What a call has made of a mission and of the server.
pub record Turn (F V E : Type 0) : Type 0 where
  pub mission : Mission F
  pub server : V
  pub reply : Reply F E

pub record MissionOrchestrator (F V : Type 0) : Type 0 where
  pub server : V
  pub missions : ℕ → Option (Mission F)
  pub route_counter : ℕ

module _ {F : Type 0} where
  -- `current`
  abbrev pub current : Mission F → Option (Waypoint F)
  current m = get_elem? m.waypoints m.index

  abbrev pub in_state : MissionState → Mission F → Mission F
  in_state s m = record m { state = s }

  -- `missions[car_id] = m`
  abbrev pub write : ℕ → Option (Mission F) → (ℕ → Option (Mission F)) → ℕ → Option (Mission F)
  write car m missions c = if c == car then m else missions c

  -- `m.current.waypoint_id if m.current else …`
  abbrev pub waypoint_id_or : ℤ → Option (Waypoint F) → ℤ
  waypoint_id_or z none = z
  waypoint_id_or z (some w) = pos w.waypoint_id

-- `x == n` where x may be missing
abbrev pub equals : Option ℤ → ℤ → Bool
equals none n = false
equals (some z) n = eqb_ℤ z n

-- `state == "WAITING"`, `state == "MOVING"`
abbrev pub is_waiting : VehicleState → Bool
is_waiting VehicleState.waiting = true
is_waiting _ = false

abbrev pub is_moving : VehicleState → Bool
is_moving VehicleState.moving = true
is_moving _ = false

-- `state in (DONE, IDLE)`
abbrev pub is_over : MissionState → Bool
is_over MissionState.done = true
is_over MissionState.idle = true
is_over MissionState.driving = false
is_over MissionState.switching = false
is_over MissionState.loading = false
is_over MissionState.resuming = false
is_over MissionState.held = false
is_over MissionState.parked_check = false

-- What `on_command_rejected` does for a result: it holds the mission and calls for a new route, only
-- holds it, or does nothing.
pub data Recovery : Type 0 where
  replan wait_for_condition no_recovery : Recovery

abbrev pub recovery_of : CommandResult → Recovery
recovery_of CommandResult.stale_route = replan
recovery_of CommandResult.new_route_required = replan
recovery_of CommandResult.target_mismatch = replan
recovery_of CommandResult.target_not_loaded = replan
recovery_of CommandResult.pose_required = wait_for_condition
recovery_of CommandResult.invalid_state = wait_for_condition
recovery_of CommandResult.locked_state = replan
recovery_of CommandResult.session_mismatch = replan
recovery_of CommandResult.protocol_error = replan
recovery_of CommandResult.seq_conflict = replan
recovery_of CommandResult.stale_seq = replan
recovery_of _ = no_recovery

module _ {F V E : Type 0} where
  abbrev pub turn : Mission F → V → Reply F E → Turn F V E
  turn m v r = record { mission = m; server = v; reply = r }

  -- A call that leaves the server alone.
  abbrev pub quiet : Mission F → V → Turn F V E
  quiet m v = turn m v (returned [])

  -- The state to which a call of the server leads, unless it raises.
  abbrev pub sending : Mission F → Mission F → Event F → V × Option E → Turn F V E
  sending before after e (v, none) = turn after v (returned (e ∷ []))
  sending before after e (v, some x) = turn before v (raised (refused x))

  abbrev pub store : ℕ → MissionOrchestrator F V → Turn F V E → MissionOrchestrator F V × Reply F E
  store car o t =
      (record o { server = t.server; missions = write car (some t.mission) o.missions }, t.reply)

  -- A call that looks the mission of a car up, and returns if there is none.
  unfoldable pub with_mission :
      ℕ
      → (Mission F → V → Turn F V E)
      → MissionOrchestrator F V
      → MissionOrchestrator F V × Reply F E
  with_mission car f o = elim (o.missions car) [
    | none ↦ (o, returned [])
    | some m ↦ store car o (f m o.server)
  ]
