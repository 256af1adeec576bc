-- ===== src/Bridge/Session.antt =====
-- remote-direct-bridge/session.py: `VehicleSession`, the state of the one connected vehicle. A
-- counter (`itertools.count`) is the next number that it gives. Clock readings are nanoseconds.
pub mod Ack
use hanium_smart_parkin.Base.{
  ℕ, ◌+◌, Bool, true, false, ◌||◌, Option, none, some, is_some, if◌then◌else◌,
}
use hanium_smart_parkin.Base.Int.{ℤ, pos, negsuc, leb_ℤ, eqb_ℤ}
use hanium_smart_parkin.Base.Float.{Float}
use hanium_smart_parkin.Bridge.Wire.{
  CommandResult, none_result, other_result, accepted, already_stopped, Json, as_int, Status, Frame,
}

-- `TERMINAL_COMMAND_RESULTS`
abbrev pub is_terminal : CommandResult → Bool
is_terminal none_result = false
is_terminal other_result = false
is_terminal _ = true

-- `NEGATIVE_COMMAND_RESULTS`
abbrev pub is_negative : CommandResult → Bool
is_negative none_result = false
is_negative other_result = false
is_negative accepted = false
is_negative already_stopped = false
is_negative _ = true

-- The field `fingerprint` is set and never read, so it is left out.
pub record OutstandingCommand (F : Type 0) : Type 0 where
  pub seq : ℕ
  pub message : Frame F
  pub sent_at : ℕ
  pub resend_timeout : ℕ
  pub resends : ℕ

pub record VehicleSession (F : Type 0) : Type 0 where
  pub session_id : ℕ
  pub boot_id : ℕ
  pub command_seq_start : ℕ
  pub seq_counter : ℕ
  pub control_seq_counter : ℕ
  pub heartbeat_counter : ℕ
  pub outstanding : Option (OutstandingCommand F)
  pub desired_throttle : F
  pub desired_steering : F
  pub last_status : Option (Status F)
  pub last_status_at : ℕ
  pub last_status_seq : ℤ

-- `VehicleSession(session_id, boot_id, command_seq_start)`
unfoldable pub new_session : {F : Type 0} ⦃fl : Float F⦄ → ℕ → ℕ → ℕ → VehicleSession F
new_session ⦃fl⦄ session_id boot_id start = record {
  session_id = session_id;
  boot_id = boot_id;
  command_seq_start = start;
  seq_counter = start;
  control_seq_counter = 1;
  heartbeat_counter = 1;
  outstanding = none;
  desired_throttle = fl.nought;
  desired_steering = fl.nought;
  last_status = none;
  last_status_at = 0;
  last_status_seq = negsuc 0;
}

newer_seq : Option ℤ → ℤ → ℤ
newer_seq none last = last
newer_seq (some n) last = if leb_ℤ n last then last else n

module _ {F : Type 0} where
  unfoldable pub next_seq : VehicleSession F → VehicleSession F × ℕ
  next_seq s = (record s { seq_counter = s.seq_counter + 1 }, s.seq_counter)

  unfoldable pub next_control_seq : VehicleSession F → VehicleSession F × ℕ
  next_control_seq s =
      (record s { control_seq_counter = s.control_seq_counter + 1 }, s.control_seq_counter)

  unfoldable pub next_heartbeat_seq : VehicleSession F → VehicleSession F × ℕ
  next_heartbeat_seq s =
      (record s { heartbeat_counter = s.heartbeat_counter + 1 }, s.heartbeat_counter)

  unfoldable pub set_outstanding : OutstandingCommand F → VehicleSession F → VehicleSession F
  set_outstanding cmd s = record s { outstanding = some cmd }

  unfoldable pub clear_outstanding : VehicleSession F → VehicleSession F
  clear_outstanding s = record s { outstanding = none }

  abbrev pub has_outstanding : VehicleSession F → Bool
  has_outstanding s = is_some s.outstanding

  -- `isinstance(x, int) and x == seq`
  abbrev is_int_eq : Json F → ℕ → Bool
  is_int_eq x seq = elim (as_int x) [ none ↦ false | some z ↦ eqb_ℤ z (pos seq) ]

  unfoldable pub terminal_result_matches : Status F → ℕ → Bool
  terminal_result_matches m seq =
      if is_terminal m.command_result
      then is_int_eq m.last_processed_cmd_seq seq || is_int_eq m.rejected_seq seq
      else false

  consume : Status F → VehicleSession F → Option (OutstandingCommand F) → VehicleSession F
  unfolding terminal_result_matches
  consume m s none = s
  consume m s (some cmd) =
      if terminal_result_matches m cmd.seq then record s { outstanding = none } else s

  -- The state after `consume_terminal_result`; the command that it returns is only logged.
  unfoldable pub consume_terminal_result : Status F → VehicleSession F → VehicleSession F
  unfolding consume
  consume_terminal_result m s = consume m s s.outstanding

  unfoldable pub is_stale_snapshot : Status F → VehicleSession F → Bool
  is_stale_snapshot m s = elim (as_int m.status_seq) [
    | none ↦ false
    | some n ↦ leb_ℤ n s.last_status_seq
  ]

  unfoldable pub record_snapshot : ℕ → Status F → VehicleSession F → VehicleSession F
  unfolding newer_seq
  record_snapshot now m s = record s {
    last_status = some m;
    last_status_at = now;
    last_status_seq = newer_seq (as_int m.status_seq) s.last_status_seq;
  }
