-- ===== src/Reliability.antt =====
-- integrated/host/comm/reliability.py: `ReliableSender`, which keeps one reliable command of a
-- vehicle outstanding, sends it again until it is acknowledged, and lets STOP and WAIT preempt.
-- Clock readings (`time.monotonic`) are numbers of nanoseconds. A payload `P` is the rest of the
-- message's dict. A method is the step that it makes under the lock: it maps a state to the next one, and
-- what it hands to `send_raw` or `on_fail`. The calls of these come after the lock is released, so those
-- of two threads may come in another order.
pub mod Priority
pub mod Retry
pub mod Sequence
mod Tests
use hanium_smart_parkin.Base.{
  ℕ, ◌+◌, ◌-◌, ◌*◌, Bool, true, false, Option, none, some, ltb, leb, if◌then◌else◌,
}
use hanium_smart_parkin.Base.Int.{ℤ, pos, negsuc, leb_ℤ}

-- The "type" field; `other` is any string without a rule of its own, the empty default included.
pub data MessageType : Type 0 where
  set_mode waypoint wait go stop reset other : MessageType

-- `TIMING["MAX_RETRANSMIT"]`
abbrev pub max_retransmit : ℕ
max_retransmit = 5

-- `PREEMPTIVE_TYPES`
abbrev pub is_preemptive : MessageType → Bool
is_preemptive MessageType.wait = true
is_preemptive MessageType.stop = true
is_preemptive _ = false

abbrev pub priority : MessageType → ℕ
priority MessageType.stop = 2
priority MessageType.wait = 1
priority _ = 0

-- `_timeout_for`, over the response times of `TIMING`
abbrev pub timeout_for : MessageType → ℕ
timeout_for MessageType.waypoint = 300
timeout_for MessageType.wait = 100
timeout_for MessageType.stop = 100
timeout_for _ = 300

abbrev pub ns_per_ms : ℕ
ns_per_ms = 1000000

pub data SendError : Type 0 where
  outstanding_exists : ℕ → MessageType → SendError
  cannot_preempt : MessageType → MessageType → ℕ → SendError

pub record Message (P : Type 0) : Type 0 where
  pub type : MessageType
  pub seq : ℕ
  pub payload : P

pub record Pending (P : Type 0) : Type 0 where
  pub seq : ℕ
  pub msg : Message P
  pub sent_at : ℕ
  pub attempts : ℕ
  pub timeout_ms : ℕ

pub record ReliableSender (P : Type 0) : Type 0 where
  pub car_id : ℕ
  pub seq : ℕ
  pub pending : Option (Pending P)

-- What `send` did: it handed a message to `send_raw` and returned its seq, or raised.
pub data Outcome (P : Type 0) : Type 0 where
  sent : ℕ → Message P → Outcome P
  raised : SendError → Outcome P

-- What `tick` did: nothing, a retransmission by `send_raw`, or a call of `on_fail`.
pub data TickEvent (P : Type 0) : Type 0 where
  idle : TickEvent P
  resend failed : Message P → TickEvent P

-- `max(0, int(start) - 1)`
abbrev start_seq : ℤ → ℕ
start_seq (pos n) = n - 1
start_seq (negsuc n) = 0

module _ {P : Type 0} where
  unfoldable pub new : ℕ → ReliableSender P
  new car_id = record { car_id = car_id; seq = 0; pending = none }

  unfoldable pub set_seq_start : ℤ → ReliableSender P → ReliableSender P
  set_seq_start start s = record s { seq = start_seq start }

  unfoldable pub next_seq : ReliableSender P → ReliableSender P × ℕ
  next_seq s = (record s { seq = s.seq + 1 }, s.seq + 1)

  -- The part of `send` that numbers the command and makes it the outstanding one.
  transmit : ℕ → Message P → ReliableSender P → ReliableSender P × Outcome P
  transmit now msg s =
      let seq = s.seq + 1 in
      let numbered : Message P = record msg { seq = seq } in
      (
        record s {
          seq = seq;
          pending = some (record {
            seq = seq;
            msg = numbered;
            sent_at = now;
            attempts = 1;
            timeout_ms = timeout_for msg.type;
          });
        },
        sent seq numbered,
      )

  -- The tests of `send` on the outstanding command.
  admit : MessageType → Option (Pending P) → Option SendError
  admit t none = none
  admit t (some p) =
      if is_preemptive t
      then (if leb (priority t) (priority p.msg.type)
          then some (cannot_preempt t p.msg.type p.seq)
          else none)
      else some (outstanding_exists p.seq p.msg.type)

  unfoldable pub send : ℕ → Message P → ReliableSender P → ReliableSender P × Outcome P
  unfolding transmit admit
  send now msg s = elim (admit msg.type s.pending) [
    | some e ↦ (s, raised e)
    | none ↦ transmit now msg (record s { pending = none })
  ]

  ack_pending : ℤ → Option (Pending P) → Bool
  ack_pending acked none = false
  ack_pending acked (some p) = leb_ℤ (pos p.seq) acked

  unfoldable pub on_ack : ℤ → ReliableSender P → ReliableSender P × Bool
  unfolding ack_pending
  on_ack acked s =
      if ack_pending acked s.pending then (record s { pending = none }, true) else (s, false)

  unfoldable pub clear_pending : ReliableSender P → ReliableSender P
  clear_pending s = record s { pending = none }

  -- `outstanding`
  abbrev pub outstanding : ReliableSender P → Option (Message P)
  outstanding s = elim s.pending [ none ↦ none | some p ↦ some p.msg ]

  tick_pending : ℕ → Pending P → ReliableSender P → ReliableSender P × TickEvent P
  tick_pending now p s =
      if ltb (now - p.sent_at) (p.timeout_ms * ns_per_ms)
      then (s, idle)
      else (if leb max_retransmit p.attempts then (record s { pending = none }, failed p.msg) else (
        record s { pending = some (record p { attempts = p.attempts + 1; sent_at = now }) },
        resend p.msg,
      ))

  unfoldable pub tick : ℕ → ReliableSender P → ReliableSender P × TickEvent P
  unfolding tick_pending
  tick now s = elim s.pending [ none ↦ (s, idle) | some p ↦ tick_pending now p s ]
