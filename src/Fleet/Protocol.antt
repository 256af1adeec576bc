-- ===== src/Fleet/Protocol.antt =====
-- integrated/host/comm/protocol.py: the messages between the host and the cars, with the functions that
-- build them. Session, boot and connection ids are only compared, so they are numbers.
use hanium_smart_parkin.Base.{ℕ, Bool, true, false, Option, none, some, if◌then◌else◌}
use hanium_smart_parkin.Base.Int.{ℤ}
use hanium_smart_parkin.Base.Float.{Float, min_f, max_f}
use hanium_smart_parkin.Bridge.Wire.{Mode, CommandResult, Json, AckResult}
use hanium_smart_parkin.Fleet.Waypoints.{WireWaypoint}
use hanium_smart_parkin.Fleet.Mission.{WaitReason, Report}

-- `TIMING`, in milliseconds
abbrev pub comm_timeout_ms : ℕ
comm_timeout_ms = 1000

abbrev pub heartbeat_interval_ms : ℕ
heartbeat_interval_ms = 250

abbrev pub control_interval_ms : ℕ
control_interval_ms = 100

-- `TERMINAL_RESULTS`
abbrev pub is_terminal : CommandResult → Bool
is_terminal CommandResult.none_result = false
is_terminal CommandResult.other_result = false
is_terminal _ = true

-- `NEGATIVE_RESULTS`
abbrev pub is_negative : CommandResult → Bool
is_negative CommandResult.accepted = false
is_negative CommandResult.already_stopped = false
is_negative r = is_terminal r

-- `WAIT_REASONS`
abbrev pub is_wait_reason : WaitReason → Bool
is_wait_reason WaitReason.unsupported = false
is_wait_reason _ = true

-- `CONTROL_MODES`
abbrev pub is_mode : Mode → Bool
is_mode Mode.unknown_mode = false
is_mode _ = true

-- Why a HELLO is not accepted: the constants of `_judge_hello`, or what the hook for it says; `plain_hold`
-- is the word HOLD, which stands for a missing reason.
pub data HelloReason : Type 0 where
  not_hello version_mismatch unknown_car_id error_not_cleared estop_history plain_hold : HelloReason
  hook : ℕ → HelloReason

-- The fields of a message beside version, type, car_id and session_id; the seq of a reliable command
-- is kept by its sender.
pub data Body (F : Type 0) : Type 0 where
  waypoint : WireWaypoint F → Body F
  go : ℕ → ℕ → Body F
  wait : ℕ → ℕ → WaitReason → Body F
  stop reset : Body F
  set_mode : Mode → Body F
  -- control_seq, throttle, steering
  direct_control : ℕ → F → F → Body F
  heartbeat : ℕ → Body F
  event_ack : ℤ → Body F
  -- boot_id, result, command_seq_start, hold_reason, reject_reason
  hello_ack : ℕ → AckResult → Option ℕ → Option HelloReason → Option HelloReason → Body F

-- The session_id 0 stands for the empty text.
pub record Frame (F : Type 0) : Type 0 where
  pub car_id : ℕ
  pub session_id : ℕ
  pub body : Body F

-- A STATUS or COMMAND_RESULT. A missing `status_seq` is -1; one that is no number, at which Python's
-- comparison would raise, is not modelled. `rejected` is rejected_seq, or ack_seq if that key is missing.
pub record Snapshot (F : Type 0) : Type 0 where
  pub command_result : CommandResult
  pub last_processed_cmd_seq : Json F
  pub rejected : Json F
  pub status_seq : ℤ
  pub report : Report

pub data Content (F : Type 0) : Type 0 where
  status command_result : Snapshot F → Content F
  -- the event_id, if there is one
  arrived : Option ℤ → Content F
  unhandled : Content F

-- What the reading loop takes from a line. `session_id` is `none` where it is missing or empty.
pub record Inbound (F : Type 0) : Type 0 where
  pub session_id : Option ℕ
  pub car_id : ℤ
  pub content : Content F

module _ {F : Type 0} where
  -- `_base`
  abbrev pub frame : ℕ → ℕ → Body F → Frame F
  frame car sid b = record { car_id = car; session_id = sid; body = b }

  unfoldable pub make_waypoint : ℕ → ℕ → WireWaypoint F → Frame F
  make_waypoint car sid w = frame car sid (waypoint w)

  unfoldable pub make_go : ℕ → ℕ → ℕ → ℕ → Frame F
  make_go car sid route_id waypoint_id = frame car sid (go route_id waypoint_id)

  -- `none` is the ValueError.
  unfoldable pub make_wait : ℕ → ℕ → ℕ → ℕ → WaitReason → Option (Frame F)
  make_wait car sid route_id waypoint_id reason =
      if is_wait_reason reason
      then some (frame car sid (wait route_id waypoint_id reason))
      else none

  unfoldable pub make_stop : ℕ → ℕ → Frame F
  make_stop car sid = frame car sid stop

  unfoldable pub make_reset : ℕ → ℕ → Frame F
  make_reset car sid = frame car sid reset

  -- `none` is the ValueError.
  unfoldable pub make_set_mode : ℕ → ℕ → Mode → Option (Frame F)
  make_set_mode car sid mode = if is_mode mode then some (frame car sid (set_mode mode)) else none

  unfoldable pub make_heartbeat : ℕ → ℕ → ℕ → Frame F
  make_heartbeat car sid n = frame car sid (heartbeat n)

  unfoldable pub make_event_ack : ℕ → ℕ → ℤ → Frame F
  make_event_ack car sid event = frame car sid (event_ack event)

  -- `command_seq_start` is sent unless the HELLO is rejected, and the reason under a key of its own.
  unfoldable pub make_hello_ack : ℕ → ℕ → AckResult → Option HelloReason → ℕ → ℕ → Frame F
  make_hello_ack car sid result reason boot_id start =
      let seq_start : Option ℕ = elim result [ AckResult.rejected ↦ none | _ ↦ some start ] in
      let hold_reason : Option HelloReason = elim result [ AckResult.hold ↦ reason | _ ↦ none ] in
      let reject_reason : Option HelloReason = elim result [ AckResult.hold ↦ none | _ ↦ reason ] in
      frame car sid (hello_ack boot_id result seq_start hold_reason reject_reason)

module _ {F : Type 0} ⦃fl : Float F⦄ where
  -- `max(-1.0, min(1.0, x))`, rounded
  abbrev unit_of : F → F
  unit_of x = fl.round4 (max_f fl.neg_one (min_f fl.one x))

  unfoldable pub make_direct_control : ℕ → ℕ → ℕ → F → F → Frame F
  make_direct_control car sid n throttle steering =
      frame car sid (direct_control n (unit_of throttle) (unit_of steering))
