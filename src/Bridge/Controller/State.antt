-- ===== src/Bridge/Controller/State.antt =====
-- controller.py: the object `Controller`, what its methods do to the outside, and its helpers. The
-- listeners and the memory of the last printed status, which serve the display and the log, are left
-- out. The methods run on one asyncio loop, so that each is one step up to where it awaits.
use hanium_smart_parkin.Base.{
  ℕ, Bool, true, false, Option, none, some, List, [], ◌∷◌, if◌then◌else◌,
}
use hanium_smart_parkin.Base.Int.{ℤ}
use hanium_smart_parkin.Base.Float.{Float}
use hanium_smart_parkin.Bridge.Wire.{
  VehicleState, unknown_state, Mode, unknown_mode, Status, Frame, AckResult, Reason, build_set_mode,
  build_stop, build_reset, remote_direct,
}
use hanium_smart_parkin.Bridge.Session.{VehicleSession, has_outstanding, set_outstanding, next_seq}

pub record Controller (F : Type 0) : Type 0 where
  pub session : Option (VehicleSession F)
  -- `self.sender is not None`
  pub connected : Bool
  pub direct_streaming : Bool
  pub pending_remote_mode_seq : Option ℕ
  pub hello_result : Option AckResult
  pub hello_reason : Option Reason
  pub last_encoder_count : Option ℤ

-- What a step does to the outside: a message for the car, or a call of the listeners. `crash` is a
-- `ProtocolError` that ends the task of a loop.
pub data Effect (F : Type 0) : Type 0 where
  transmit : Frame F → Effect F
  -- the snapshot, `bridge_direct_streaming`, `bridge_pending_mode_seq`
  publish : Status F → Bool → Option ℕ → Effect F
  connection : Bool → Effect F
  crash : Effect F

-- Milliseconds in nanoseconds: the resend timeouts of config.py, and `RELIABLE_MAX_RESENDS`.
abbrev pub stop_resend_timeout : ℕ
stop_resend_timeout = 100000000

abbrev pub reliable_resend_timeout : ℕ
reliable_resend_timeout = 300000000

abbrev pub max_resends : ℕ
max_resends = 5

-- The builders that the controller hands to `_send_reliable`.
pub data Command : Type 0 where
  set_mode_remote stop_command reset_command : Command

abbrev resend_timeout_of : Command → ℕ
resend_timeout_of stop_command = stop_resend_timeout
resend_timeout_of set_mode_remote = reliable_resend_timeout
resend_timeout_of reset_command = reliable_resend_timeout

-- `Controller()`
unfoldable pub new : {F : Type 0} → Controller F
new = record {
  session = none;
  connected = false;
  direct_streaming = false;
  pending_remote_mode_seq = none;
  hello_result = none;
  hello_reason = none;
  last_encoder_count = none;
}

-- `mode == "REMOTE_DIRECT"`
abbrev pub is_remote_direct : Mode → Bool
is_remote_direct remote_direct = true
is_remote_direct _ = false

module _ {F : Type 0} where
  unfoldable pub build : Command → ℕ → ℕ → Frame F
  unfolding build_set_mode build_stop build_reset
  build set_mode_remote sid seq = build_set_mode sid seq remote_direct
  build stop_command sid seq = build_stop sid seq
  build reset_command sid seq = build_reset sid seq

  -- `_send`: a failure of the transport is only logged.
  abbrev pub transmit_if : Bool → Frame F → List (Effect F)
  transmit_if c m = if c then transmit m ∷ [] else []

  abbrev pub latest_of : Option (VehicleSession F) → VehicleState × Mode
  latest_of none = (unknown_state, unknown_mode)
  latest_of (some s) = elim s.last_status [
    | none ↦ (unknown_state, unknown_mode)
    | some m ↦ (m.state, m.mode)
  ]

  -- `_latest_state_mode`
  abbrev pub latest_state : Controller F → VehicleState
  latest_state c = (latest_of c.session).0

  abbrev pub latest_mode : Controller F → Mode
  latest_mode c = (latest_of c.session).1

  -- `_send_reliable` under its lock, up to where it awaits the transport: the command gets the next
  -- number and becomes the outstanding one, unless another is and this one does not preempt.
  reliable :
      Command
      → Bool
      → ℕ
      → Controller F
      → Option (VehicleSession F)
      → Controller F × List (Effect F) × Option ℕ
  unfolding build next_seq set_outstanding
  reliable cmd preempt now c none = (c, [], none)
  reliable cmd preempt now c (some s) =
      let (s', seq) = next_seq s in
      let m = build cmd s.session_id seq in
      let fresh = record c {
        session = some (
            set_outstanding
              (record {
                seq = seq;
                message = m;
                sent_at = now;
                resend_timeout = resend_timeout_of cmd;
                resends = 0;
              })
              s');
      } in
      let sent : Controller F × List (Effect F) × Option ℕ =
        (fresh, transmit_if c.connected m, some seq) in
      if has_outstanding s then (if preempt then sent else (c, [], none)) else sent

  unfoldable pub send_reliable :
      Command → Bool → ℕ → Controller F → Controller F × List (Effect F) × Option ℕ
  unfolding reliable
  send_reliable cmd preempt now c = reliable cmd preempt now c c.session

module _ {F : Type 0} ⦃fl : Float F⦄ where
  abbrev pub neutral_session : VehicleSession F → VehicleSession F
  neutral_session s = record s { desired_throttle = fl.nought; desired_steering = fl.nought }

  -- `_neutralize_desired`
  unfoldable pub neutralize_desired : Controller F → Controller F
  neutralize_desired c = elim c.session [
    | none ↦ c
    | some s ↦ record c { session = some (neutral_session s) }
  ]
