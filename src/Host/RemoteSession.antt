-- ===== src/Host/RemoteSession.antt =====
-- integrated/host/integration/remote_direct_session.py: `RemoteDirectSession`, which arms the autopilot
-- of a host controller once the car has accepted REMOTE_DIRECT. The waiting for the answer is cut out:
-- `begin_handshake` comes before it, `arm_end` after it, and the callbacks of the server between. The
-- session is attached, and what `send_set_mode` returns, if it does, is an argument.
pub mod Granted
mod Tests
use hanium_smart_parkin.Base.{
  ℕ, ◌+◌, ◌==◌, Bool, true, false, not, is_some, ◌&&◌, Option, none, some, List, [], ◌∷◌,
  if◌then◌else◌,
}
use hanium_smart_parkin.Host.Model.{Reason, custom}
use hanium_smart_parkin.Host.Authority
use hanium_smart_parkin.Host.HostController
use hanium_smart_parkin.Host.HostController.{HostController}

-- The text of a result; `other` is any text but ACCEPTED.
pub data CommandResult : Type 0 where
  accepted : CommandResult
  other : ℕ → CommandResult

pub record RemoteDirectSession (F : Type 0) : Type 0 where
  pub host : HostController F
  pub set_mode_seq : Option ℕ
  -- Whether the event `_accepted` is set, which a rejection sets too
  pub is_answered : Bool
  pub rejected_reason : Option ℕ
  -- `server.direct_control_enabled`
  pub direct_control_enabled : Bool

-- The callbacks of the server, with the car that each is about
pub data Notice : Type 0 where
  command_result : ℕ → ℕ → CommandResult → Notice
  command_rejected : ℕ → ℕ → Notice
  comm_fail comm_recovered resync : ℕ → Notice

-- SET_MODE_TIMEOUT, COMM_TIMEOUT, RESYNC, and SET_MODE_ with the text of a result
abbrev set_mode_timeout : Reason
set_mode_timeout = custom 0

abbrev comm_timeout : Reason
comm_timeout = custom 1

abbrev resync_reason : Reason
resync_reason = custom 2

abbrev set_mode_refused : ℕ → Reason
set_mode_refused text = custom (3 + text)

abbrev is_number : Option ℕ → ℕ → Bool
is_number none seq = false
is_number (some n) seq = seq == n

module _ {F : Type 0} where
  unfoldable pub new : HostController F → Bool → RemoteDirectSession F
  new host enabled = record {
    host = host;
    set_mode_seq = none;
    is_answered = false;
    rejected_reason = none;
    direct_control_enabled = enabled;
  }

  -- `none` where `send_set_mode` raises, which leaves the session without a number. The flag says
  -- whether that happens.
  unfoldable pub begin_handshake : Option ℕ → RemoteDirectSession F → RemoteDirectSession F × Bool
  begin_handshake seq s = (
    record s { set_mode_seq = seq; is_answered = false; rejected_reason = none },
    not (is_some seq),
  )

  fault_host : Reason → RemoteDirectSession F → RemoteDirectSession F
  fault_host r s = record s { host = HostController.fault r s.host }

  refuse : ℕ → RemoteDirectSession F → RemoteDirectSession F
  unfolding fault_host
  refuse text s = record (fault_host (set_mode_refused text) s) {
    rejected_reason = some text;
    is_answered = true;
  }

  answer : CommandResult → RemoteDirectSession F → RemoteDirectSession F
  unfolding refuse
  answer accepted s = record s { is_answered = true }
  answer (other text) s = refuse text s

  -- What follows `wait_accepted` in `arm_auto` and `re_arm_auto`, by the rejection. The flag says
  -- whether an error is raised.
  arm_granted : Option ℕ → RemoteDirectSession F → RemoteDirectSession F × Bool
  unfolding fault_host
  arm_granted (some text) s = (fault_host (set_mode_refused text) s, true)
  arm_granted none s =
      let (h, raised) = HostController.arm_auto s.host in
      (record s { host = h; direct_control_enabled = true }, raised)

  -- The rest of `arm_auto` and of `re_arm_auto`, `wait_accepted` with its outcome included
  unfoldable pub arm_end : RemoteDirectSession F → RemoteDirectSession F × Bool
  unfolding fault_host arm_granted
  arm_end s =
      if s.is_answered
      then arm_granted s.rejected_reason s
      else (fault_host set_mode_timeout s, true)

  -- `clear_fault() if is_faulted`
  cleared : Option Authority.ControlAuthority → HostController F → HostController F
  cleared none h = h
  cleared (some a) h = record h { authority = a }

  -- The beginning of `re_arm_auto`
  unfoldable pub re_arm_begin : Option ℕ → RemoteDirectSession F → RemoteDirectSession F × Bool
  unfolding begin_handshake cleared
  re_arm_begin seq s =
      begin_handshake seq
        (record s { host = cleared (Authority.clear_fault s.host.authority) s.host })

module _ (car_id : ℕ) {F : Type 0} where
  -- One callback, and whether it calls `stop_control`
  unfoldable pub hear : Notice → RemoteDirectSession F → RemoteDirectSession F × Bool
  unfolding answer refuse fault_host
  hear (command_result car seq result) s =
      (if car == car_id && is_number s.set_mode_seq seq then answer result s else s, false)
  hear (command_rejected car text) s = (if car == car_id then refuse text s else s, false)
  hear (comm_fail car) s = if car == car_id then (fault_host comm_timeout s, true) else (s, false)
  hear (comm_recovered car) s = (s, false)
  hear (resync car) s =
      if car == car_id
      then (record (fault_host resync_reason s) { is_answered = false; set_mode_seq = none }, true)
      else (s, false)

  unfoldable pub hear_all : List Notice → RemoteDirectSession F → RemoteDirectSession F
  hear_all [] s = s
  hear_all (n ∷ ns) s = hear_all ns (hear n s).0
