-- ===== src/Fleet/Session.antt =====
-- integrated/host/comm/server.py: `VehicleSession`, and what the server does with the session of one
-- car. Clock readings are numbers of nanoseconds. The callbacks are events of the result, in the order
-- of the calls; what they change, the sender of the session, is not read again by the caller. A message
-- that is received and a round of the periodic loop are one step each. In the code they run in two threads,
-- which hold no lock over such a step, nor while a callback runs: there the callbacks for a failing and a
-- recovering link can come in another order than here.
pub mod Calls
pub mod Track
pub mod Notices
use hanium_smart_parkin.Base.{
  ℕ, ◌+◌, ◌-◌, ◌*◌, Bool, true, false, not, ◌&&◌, ◌||◌, Option, none, some, List, [], ◌∷◌, ◌++◌,
  ltb, ◌==◌, if◌then◌else◌,
}
use hanium_smart_parkin.Base.Int.{ℤ, pos, negsuc, leb_ℤ, eqb_ℤ}
use hanium_smart_parkin.Base.Float.{Float}
use hanium_smart_parkin.Bridge.Wire.{CommandResult, json_eq_int}
use hanium_smart_parkin.Reliability.{
  MessageType, Message, ReliableSender, Outcome, TickEvent, idle, resend, failed, outstanding, send,
  on_ack, clear_pending, tick, set_seq_start, ns_per_ms,
}
use hanium_smart_parkin.Reliability
use hanium_smart_parkin.Fleet.Protocol.{
  comm_timeout_ms, is_terminal, is_negative, HelloReason, Frame, Snapshot, status, command_result,
  arrived, unhandled, Content, Inbound, make_heartbeat, make_event_ack, make_direct_control,
}

pub record VehicleSession (F : Type 0) : Type 0 where
  pub car_id : ℕ
  pub session_id : ℕ
  pub boot_id : ℕ
  pub conn : ℕ
  pub sender : ReliableSender (Frame F)
  pub last_status : Option (Snapshot F)
  pub last_rx : ℕ
  pub heartbeat_seq : ℕ
  pub control_seq : ℕ
  pub latest_control : Option (Frame F)
  pub alive : Bool
  pub comm_failed : Bool

-- The dict that `on_comm_fail` gets.
pub data Outage (F : Type 0) : Type 0 where
  comm_timeout : Outage F
  hold_exhausted : HelloReason → Outage F
  unanswered : Message (Frame F) → Outage F

-- What is sent on a connection, and the callbacks. A reliable command bears its number.
pub data Event (F : Type 0) : Type 0 where
  raw : ℕ → Frame F → Event F
  raw_command : ℕ → Message (Frame F) → Event F
  on_status : ℕ → Snapshot F → Event F
  on_command_result : ℕ → ℕ → CommandResult → Snapshot F → Event F
  on_command_rejected : ℕ → CommandResult → Snapshot F → Event F
  on_comm_fail : ℕ → Outage F → Event F
  on_comm_recovered : ℕ → Event F
  on_hold : ℕ → HelloReason → Event F
  on_resync on_ready : ℕ → Event F

-- `last_status.get("status_seq", -1)`
abbrev pub last_seq : {F : Type 0} → Option (Snapshot F) → ℤ
last_seq none = negsuc 0
last_seq (some s) = s.status_seq

-- The `command_seq_start` of `_handshake`
abbrev pub command_seq_start : ℕ
command_seq_start = 1

module _ {F : Type 0} where
  -- A session as `_handshake` makes it.
  unfoldable pub new : ℕ → ℕ → ℕ → ℕ → ℕ → VehicleSession F
  new car sid boot conn now = record {
    car_id = car;
    session_id = sid;
    boot_id = boot;
    conn = conn;
    sender = set_seq_start (pos command_seq_start) (Reliability.new car);
    last_status = none;
    last_rx = now;
    heartbeat_seq = 0;
    control_seq = 0;
    latest_control = none;
    alive = true;
    comm_failed = false;
  }

  -- `_comm_fail`, of a session that is there
  unfoldable pub fail_session : Outage F → VehicleSession F → VehicleSession F × List (Event F)
  fail_session o s = if s.comm_failed then (s, []) else (
    record s { comm_failed = true; sender = clear_pending s.sender },
    on_comm_fail s.car_id o ∷ [],
  )

  -- `_comm_recovered`
  unfoldable pub comm_recovered : VehicleSession F → VehicleSession F × List (Event F)
  comm_recovered s =
      if s.comm_failed
      then (record s { comm_failed = false }, on_comm_recovered s.car_id ∷ [])
      else (s, [])

module _ {F : Type 0} ⦃fl : Float F⦄ where
  -- Is the message the final answer to the command with the number `seq`?
  abbrev pub is_answer : Snapshot F → ℕ → Bool
  is_answer m seq =
      is_terminal m.command_result
      && (json_eq_int m.last_processed_cmd_seq seq || json_eq_int m.rejected seq)

  consume :
      Option (Message (Frame F)) → Snapshot F → VehicleSession F → VehicleSession F × List (Event F)
  consume none m s = (s, [])
  consume (some cmd) m s =
      if is_answer m cmd.seq
      then (
        record s { sender = (on_ack (pos cmd.seq) s.sender).0 },
        on_command_result s.car_id cmd.seq m.command_result m
            ∷ (if is_negative m.command_result
                then on_command_rejected s.car_id m.command_result m ∷ []
                else []),
      )
      else (s, [])

  -- `_consume_command_result`
  unfoldable pub consume_command_result :
      Snapshot F → VehicleSession F → VehicleSession F × List (Event F)
  unfolding consume
  consume_command_result m s = consume (outstanding s.sender) m s

  -- The snapshot of a STATUS, unless it is an old one.
  unfoldable pub take_status : Snapshot F → VehicleSession F → VehicleSession F × List (Event F)
  take_status m s =
      if leb_ℤ m.status_seq (last_seq s.last_status)
      then (s, [])
      else (record s { last_status = some m }, on_status s.car_id m ∷ [])

  -- A call, and then another one on what it leaves.
  abbrev pub next :
      VehicleSession F × List (Event F)
      → (VehicleSession F → VehicleSession F × List (Event F))
      → VehicleSession F × List (Event F)
  next (s, es) f = let (s', fs) = f s in (s', es ++ fs)

  unfoldable pub handle : Content F → VehicleSession F → VehicleSession F × List (Event F)
  handle (status m) s = next (consume_command_result m s) (take_status m)
  handle (command_result m) s = consume_command_result m s
  handle (arrived none) s = (s, [])
  handle (arrived (some event)) s =
      (s, raw s.conn (make_event_ack s.car_id s.session_id event) ∷ [])
  handle unhandled s = (s, [])

  -- The session of the message, if it names one, and its car are those of the connection.
  abbrev pub is_own : Inbound F → VehicleSession F → Bool
  is_own m s =
      (elim m.session_id [ none ↦ true | some sid ↦ sid == s.session_id ])
      && eqb_ℤ m.car_id (pos s.car_id)

  -- `_dispatch`
  unfoldable pub dispatch : ℕ → Inbound F → VehicleSession F → VehicleSession F × List (Event F)
  dispatch now m s =
      next (comm_recovered (record s { last_rx = now }))
        (λ s'. if is_own m s' then handle m.content s' else (s', []))

  after_tick : TickEvent (Frame F) → VehicleSession F → VehicleSession F × List (Event F)
  after_tick idle s = (s, [])
  after_tick (resend m) s = (s, raw_command s.conn m ∷ [])
  after_tick (failed m) s = fail_session (unanswered m) s

  watch_link : ℕ → VehicleSession F → VehicleSession F × List (Event F)
  watch_link now s =
      if ltb (comm_timeout_ms * ns_per_ms) (now - s.last_rx)
      then fail_session comm_timeout s
      else (s, [])

  -- What a round of `_tick_loop` does first with a session. The sender reads the clock itself, at `t`.
  unfoldable pub tick_session : ℕ → ℕ → VehicleSession F → VehicleSession F × List (Event F)
  unfolding after_tick watch_link
  tick_session now t s =
      if s.alive
      then (let (sender, e) = tick t s.sender in
          next (after_tick e (record s { sender = sender })) (watch_link now))
      else (s, [])

  -- The rounds of HEARTBEAT and DIRECT_CONTROL
  unfoldable pub beat : VehicleSession F → VehicleSession F × List (Event F)
  beat s =
      if s.alive
      then (
        record s { heartbeat_seq = s.heartbeat_seq + 1 },
        raw s.conn (make_heartbeat s.car_id s.session_id (s.heartbeat_seq + 1)) ∷ [],
      )
      else (s, [])

  unfoldable pub stream_control : VehicleSession F → VehicleSession F × List (Event F)
  stream_control s = elim s.latest_control [
    | none ↦ (s, [])
    | some m ↦ (s, if s.alive then raw s.conn m ∷ [] else [])
  ]

  -- `push_control`, of a session that is there
  unfoldable pub set_control : F → F → VehicleSession F → VehicleSession F
  set_control throttle steering s =
      let n = s.control_seq + 1 in
      record s {
        control_seq = n;
        latest_control = some (make_direct_control s.car_id s.session_id n throttle steering);
      }
