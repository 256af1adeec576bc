-- ===== src/Bridge/Wire.antt =====
-- remote-direct-bridge/protocol.py: the messages on the wire and the functions that build them, and
-- the values of config.py that they hold. Ids are only compared, so they are numbers; a field whose
-- value is only compared with fixed words is an enumeration, whose last constructor stands for any
-- other value, a missing one included.
use hanium_smart_parkin.Base.{ℕ, ◌≢◌, Bool, true, false, Option, none, some, ◌==◌, if◌then◌else◌}
use hanium_smart_parkin.Base.Int.{ℤ, pos, eqb_ℤ}
use hanium_smart_parkin.Base.Float.{Float, min_f, max_f}
use Prim.Native.String.{String}

pub data VehicleState : Type 0 where
  boot wifi_connecting syncing ready moving waiting emergency_stop comm_timeout error : VehicleState
  unknown_state : VehicleState

pub data Mode : Type 0 where
  manual_serial remote_direct waypoint_auto unknown_mode : Mode

-- `command_result`; `none_result` is the word NONE, which a missing field reads as.
pub data CommandResult : Type 0 where
  none_result accepted already_stopped invalid_state session_mismatch : CommandResult
  seq_conflict stale_seq target_mismatch target_not_loaded new_route_required : CommandResult
  stale_route pose_required locked_state protocol_error hold rejected other_result : CommandResult

-- A result that answers a command: any word of the protocol's list but NONE.
abbrev pub IsFinal : CommandResult → Type 0
IsFinal r = (r ≢ none_result) × (r ≢ other_result)

-- A value of a decoded JSON message whose type the program does not fix. `null` is a missing one too.
pub data Json (F : Type 0) : Type 0 where
  null structure : Json F
  boolean : Bool → Json F
  int : ℤ → Json F
  real : F → Json F
  text : String → Json F

module _ {F : Type 0} where
  -- The integer for which `isinstance(x, int)` holds; a Python bool is one.
  abbrev pub as_int : Json F → Option ℤ
  as_int (int z) = some z
  as_int (boolean true) = some (pos 1)
  as_int (boolean false) = some (pos 0)
  as_int null = none
  as_int structure = none
  as_int (real _) = none
  as_int (text _) = none

  -- `x == n` for an int n
  abbrev pub json_eq_int : ⦃fl : Float F⦄ → Json F → ℕ → Bool
  json_eq_int ⦃fl⦄ (int z) n = eqb_ℤ z (pos n)
  json_eq_int ⦃fl⦄ (boolean true) n = 1 == n
  json_eq_int ⦃fl⦄ (boolean false) n = 0 == n
  json_eq_int ⦃fl⦄ (real x) n = fl.eq_int x n
  json_eq_int ⦃fl⦄ null n = false
  json_eq_int ⦃fl⦄ structure n = false
  json_eq_int ⦃fl⦄ (text _) n = false

-- HELLO, as far as the controller reads it. `boot_id` is `none` unless it is a nonempty string,
-- `motor_stopped` says that the field is `True`, `error_code` is `none` for a missing, empty or NONE one.
pub record Hello : Type 0 where
  pub boot_id : Option ℕ
  pub previous_session_id : Option ℕ
  pub previous_state : VehicleState
  pub motor_stopped : Bool
  pub error_code : Option ℕ

-- STATUS, without the fields that are only printed. The controller adds `encoder_delta`.
pub record Status (F : Type 0) : Type 0 where
  pub session_id : Option ℕ
  pub command_result : CommandResult
  pub last_processed_cmd_seq : Json F
  pub rejected_seq : Json F
  pub status_seq : Json F
  pub encoder_count : Json F
  pub state : VehicleState
  pub mode : Mode
  pub encoder_delta : Option ℤ

-- A message from the car, by its type.
pub data Inbound (F : Type 0) : Type 0 where
  hello : Hello → Inbound F
  status : Status F → Inbound F
  unhandled : Inbound F

pub data AckResult : Type 0 where
  ready_allowed hold rejected : AckResult

-- The texts PREVIOUS_STATE_…, MOTOR_NOT_CONFIRMED_STOPPED and ERROR_….
pub data Reason : Type 0 where
  previous_state_reason : VehicleState → Reason
  motor_not_confirmed_stopped : Reason
  error_reason : ℕ → Reason

-- What a message to the car holds besides the version, the car's id and the session's.
pub data Body (F : Type 0) : Type 0 where
  -- boot_id, result, command_seq_start, hold_reason, reject_reason
  hello_ack : ℕ → AckResult → ℕ → Option Reason → Option Reason → Body F
  heartbeat : ℕ → Body F
  set_mode : ℕ → Mode → Body F
  -- control_seq, throttle, steering
  direct_control : ℕ → F → F → Body F
  stop : ℕ → String → Body F
  reset : ℕ → Body F

pub record Frame (F : Type 0) : Type 0 where
  pub version : ℕ
  pub car_id : String
  pub session_id : ℕ
  pub body : Body F

abbrev pub protocol_version : ℕ
protocol_version = 1

abbrev pub car_id : String
car_id = "CAR_01"

module _ {F : Type 0} where
  abbrev pub frame : ℕ → Body F → Frame F
  frame sid b = record { version = protocol_version; car_id = car_id; session_id = sid; body = b }

  -- The reason goes into the field that the result has for it.
  unfoldable pub build_hello_ack : ℕ → ℕ → ℕ → AckResult → Option Reason → Frame F
  build_hello_ack sid boot_id start result reason =
      let hold_reason : Option Reason = elim result [ AckResult.hold ↦ reason | _ ↦ none ] in
      let reject_reason : Option Reason = elim result [ AckResult.rejected ↦ reason | _ ↦ none ] in
      frame sid (hello_ack boot_id result start hold_reason reject_reason)

  unfoldable pub build_heartbeat : ℕ → ℕ → Frame F
  build_heartbeat sid n = frame sid (heartbeat n)

  unfoldable pub build_set_mode : ℕ → ℕ → Mode → Frame F
  build_set_mode sid seq mode = frame sid (set_mode seq mode)

  unfoldable pub build_stop : ℕ → ℕ → Frame F
  build_stop sid seq = frame sid (stop seq "EMERGENCY")

  unfoldable pub build_reset : ℕ → ℕ → Frame F
  build_reset sid seq = frame sid (reset seq)

module _ {F : Type 0} ⦃fl : Float F⦄ where
  -- `none` is a `ProtocolError`.
  unfoldable pub clamp : F → F → F → Option F
  clamp value low high = if fl.is_finite value then some (max_f low (min_f high value)) else none

  unfoldable pub build_direct_control : ℕ → ℕ → F → F → Option (Frame F)
  unfolding clamp
  build_direct_control sid n throttle steering = elim (clamp throttle fl.neg_one fl.one) [
    | none ↦ none
    | some t ↦ elim (clamp steering fl.neg_one fl.one) [
      | none ↦ none
      | some s ↦ some (frame sid (direct_control n (fl.round4 t) (fl.round4 s)))
    ]
  ]
