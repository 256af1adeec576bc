-- ===== src/Fleet/Server.antt =====
-- integrated/host/comm/server.py: `VehicleServer`, the table of sessions, the commands, the handshake of a
-- connection and the rounds of the periodic loop. Each method holds the lock or is one thread's step,
-- so it maps a state to the next one. `Link` of the orchestrator is met by `link`.
pub mod Handshake
pub mod Rounds
mod Tests
use hanium_smart_parkin.Base.{
  ℕ, suc, ◌+◌, ◌-◌, ◌*◌, Bool, true, false, not, ◌&&◌, Option, none, some, List, [], ◌∷◌, ◌++◌, ltb,
  leb, ◌==◌, if◌then◌else◌,
}
use hanium_smart_parkin.Base.Int.{ℤ, pos, eqb_ℤ}
use hanium_smart_parkin.Base.Float.{Float}
use hanium_smart_parkin.Bridge.Wire.{VehicleState, Mode, AckResult, protocol_version}
use hanium_smart_parkin.Reliability.{
  MessageType, Message, ReliableSender, SendError, Outcome, sent, raised, clear_pending, send,
  ns_per_ms,
}
use hanium_smart_parkin.Fleet.Waypoints.{WireWaypoint}
use hanium_smart_parkin.Fleet.Mission.{WaitReason, Link}
use hanium_smart_parkin.Fleet.Protocol.{
  heartbeat_interval_ms, control_interval_ms, HelloReason, not_hello, version_mismatch,
  unknown_car_id, error_not_cleared, estop_history, hook, Frame, make_waypoint, make_go, make_wait,
  make_stop, make_reset, make_set_mode, make_hello_ack,
}
use hanium_smart_parkin.Fleet.Session.{
  VehicleSession, Event, raw, raw_command, on_comm_fail, on_hold, on_resync, on_ready, Outage,
  hold_exhausted, command_seq_start, new, fail_session, tick_session, beat, stream_control,
  set_control,
}

-- The callbacks are events; the rest of the state is the table of sessions, by car.
pub record VehicleServer (F : Type 0) : Type 0 where
  pub known_car_ids : ℕ → Bool
  pub sessions : ℕ → Option (VehicleSession F)
  pub direct_control_enabled : Bool

-- What a `send_…` raises: no live session, an unknown reason or mode, or what the sender says.
pub data SendFailure : Type 0 where
  no_active_session bad_argument : SendFailure
  not_sent : SendError → SendFailure

abbrev pub max_hold_retries : ℕ
max_hold_retries = 20

-- HELLO as `_judge_hello` reads it: `version` is the integer that the field equals, if there is one, and
-- `has_error` says that there is an error_code other than NONE. A negative car_id, which no known one
-- is, is not modelled.
pub record Hello : Type 0 where
  pub is_hello : Bool
  pub version : Option ℤ
  pub car_id : ℕ
  pub boot_id : ℕ
  pub has_error : Bool
  pub previous_state : VehicleState

-- `_judge_hello`. `hold_check` is what that hook says: `none` where it has no reason or is not set.
judge_known : Option ℕ → Hello → AckResult × Option HelloReason
judge_known hold_check h =
    if h.has_error then (AckResult.hold, some error_not_cleared) else elim h.previous_state [
      | VehicleState.emergency_stop ↦ (AckResult.hold, some estop_history)
      | _ ↦ elim hold_check [
        | none ↦ (AckResult.ready_allowed, none)
        | some reason ↦ (AckResult.hold, some (hook reason))
      ]
    ]

abbrev has_version : Option ℤ → Bool
has_version none = false
has_version (some v) = eqb_ℤ v (pos protocol_version)

module _ {F : Type 0} where
  -- `sessions[car_id] = s`
  abbrev pub put : ℕ → VehicleSession F → VehicleServer F → VehicleServer F
  put car s srv = record srv { sessions = λ c. if c == car then some s else srv.sessions c }

  -- `_session`
  abbrev pub live : Option (VehicleSession F) → Option (VehicleSession F)
  live none = none
  live (some s) = if s.alive then some s else none

  -- The sender's answer, entered in the table.
  sent_by :
      ℕ
      → VehicleSession F
      → ReliableSender (Frame F) × Outcome (Frame F)
      → VehicleServer F
      → VehicleServer F × Option SendFailure
  sent_by car s (sender, sent n m) srv = (put car (record s { sender = sender }) srv, none)
  sent_by car s (sender, raised e) srv =
      (put car (record s { sender = sender }) srv, some (not_sent e))

  send_frame :
      ℕ
      → ℕ
      → MessageType
      → VehicleSession F
      → Option (Frame F)
      → VehicleServer F
      → VehicleServer F × Option SendFailure
  send_frame now car t s none srv = (srv, some bad_argument)
  send_frame now car t s (some f) srv =
      sent_by car s (send now (record { type = t; seq = 0; payload = f }) s.sender) srv

  send_over :
      ℕ
      → ℕ
      → MessageType
      → Option (VehicleSession F)
      → (ℕ → Option (Frame F))
      → VehicleServer F
      → VehicleServer F × Option SendFailure
  send_over now car t none f srv = (srv, some no_active_session)
  send_over now car t (some s) f srv = send_frame now car t s (f s.session_id) srv

  -- A `send_…`, by the message that it builds for the session's id.
  unfoldable pub send_command :
      ℕ
      → ℕ
      → MessageType
      → (ℕ → Option (Frame F))
      → VehicleServer F
      → VehicleServer F × Option SendFailure
  unfolding send_over send_frame sent_by
  send_command now car t f srv = send_over now car t (live (srv.sessions car)) f srv

  unfoldable pub send_waypoint :
      ℕ → ℕ → WireWaypoint F → VehicleServer F → VehicleServer F × Option SendFailure
  send_waypoint now car w =
      send_command now car MessageType.waypoint (λ sid. some (make_waypoint car sid w))

  unfoldable pub send_go : ℕ → ℕ → ℕ → ℕ → VehicleServer F → VehicleServer F × Option SendFailure
  send_go now car r w = send_command now car MessageType.go (λ sid. some (make_go car sid r w))

  unfoldable pub send_wait :
      ℕ → ℕ → WaitReason → ℕ → ℕ → VehicleServer F → VehicleServer F × Option SendFailure
  send_wait now car reason r w =
      send_command now car MessageType.wait (λ sid. make_wait car sid r w reason)

  unfoldable pub send_stop : ℕ → ℕ → VehicleServer F → VehicleServer F × Option SendFailure
  send_stop now car = send_command now car MessageType.stop (λ sid. some (make_stop car sid))

  unfoldable pub send_reset : ℕ → ℕ → VehicleServer F → VehicleServer F × Option SendFailure
  send_reset now car = send_command now car MessageType.reset (λ sid. some (make_reset car sid))

  unfoldable pub send_set_mode :
      ℕ → ℕ → Mode → VehicleServer F → VehicleServer F × Option SendFailure
  send_set_mode now car mode =
      send_command now car MessageType.set_mode (λ sid. make_set_mode car sid mode)

  unfoldable pub clear_outstanding : ℕ → VehicleServer F → VehicleServer F
  clear_outstanding car srv = elim (srv.sessions car) [
    | none ↦ srv
    | some s ↦ put car (record s { sender = clear_pending s.sender }) srv
  ]

  -- The server as the orchestrator calls it, at a clock reading.
  abbrev pub link : ℕ → Link F (VehicleServer F) SendFailure
  link now = record {
    send_waypoint = send_waypoint now;
    send_go = send_go now;
    send_wait = send_wait now;
    clear_outstanding = clear_outstanding;
  }

  -- What a call does to the session of a car, if there is one.
  unfoldable pub at_session :
      ℕ
      → (VehicleSession F → VehicleSession F × List (Event F))
      → VehicleServer F
      → VehicleServer F × List (Event F)
  at_session car f srv = elim (srv.sessions car) [
    | none ↦ (srv, [])
    | some s ↦ let (s', es) = f s in (put car s' srv, es)
  ]

  -- `_comm_fail`
  unfoldable pub comm_fail : ℕ → Outage F → VehicleServer F → VehicleServer F × List (Event F)
  comm_fail car o srv = elim (srv.sessions car) [
    | none ↦ (srv, on_comm_fail car o ∷ [])
    | some s ↦ let (s', es) = fail_session o s in (put car s' srv, es)
  ]

  unfoldable pub judge_hello : Option ℕ → Hello → VehicleServer F → AckResult × Option HelloReason
  unfolding judge_known
  judge_hello hold_check h srv =
      if not h.is_hello
      then (AckResult.rejected, some not_hello)
      else (if not (has_version h.version)
          then (AckResult.rejected, some version_mismatch)
          else (if not (srv.known_car_ids h.car_id)
              then (AckResult.rejected, some unknown_car_id)
              else judge_known hold_check h))
