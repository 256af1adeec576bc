-- ===== src/Reliability/Tests.antt =====
-- reliability.py: runs on concrete inputs, and the theorems at inputs that meet their hypotheses.
use hanium_smart_parkin.Base.{
  ℕ, ◌≡◌, refl, ◌⊎◌, ◌↔◌, none, some, List, [], ◌∷◌, ◌++◌, arith, replicate,
}
use hanium_smart_parkin.Base.Int.{pos}
use hanium_smart_parkin.Reliability.{
  Message, Pending, ReliableSender, raised, cannot_preempt, outstanding_exists, resend, failed,
  outstanding, send, on_ack, next_seq, set_seq_start, new, waypoint, wait, stop,
}
use hanium_smart_parkin.Reliability.Priority.{MayPreempt, IsSent, send-IsSent_iff}
use hanium_smart_parkin.Reliability.Retry.{run_ticks, run_ticks_give_up}
use hanium_smart_parkin.Reliability.Sequence.{
  Call, send_call, tick_call, ack_call, next_seq_call, run, IsUnambiguous, run-IsUnambiguous,
  stop_stands,
}

abbrev stop_msg : Message ℕ
stop_msg = record { type = stop; seq = 0; payload = 7 }

abbrev wait_msg : Message ℕ
wait_msg = record { type = wait; seq = 0; payload = 8 }

abbrev waypoint_msg : Message ℕ
waypoint_msg = record { type = waypoint; seq = 0; payload = 9 }

abbrev numbered_stop : Message ℕ
numbered_stop = record { type = stop; seq = 4; payload = 7 }

abbrev stop_pending : Pending ℕ
stop_pending = record { seq = 4; msg = numbered_stop; sent_at = 0; attempts = 1; timeout_ms = 100 }

abbrev stopping : ReliableSender ℕ
stopping = record { car_id = 1; seq = 4; pending = some stop_pending }

abbrev holding : ReliableSender ℕ
holding = record {
  car_id = 1;
  seq = 4;
  pending = some (record {
    seq = 4;
    msg = record { type = wait; seq = 4; payload = 8 };
    sent_at = 0;
    attempts = 1;
    timeout_ms = 100;
  });
}

wait_cannot_preempt_stop :
    send 0 wait_msg stopping ≡ (stopping, raised (cannot_preempt wait stop 4))
unfolding send
wait_cannot_preempt_stop = refl

waypoint_must_wait : (send 0 waypoint_msg holding).1 ≡ raised (outstanding_exists 4 wait)
unfolding send
waypoint_must_wait = refl

stop_preempts_wait : outstanding (send 0 stop_msg holding).0 ≡ some (record stop_msg { seq = 5 })
unfolding send
stop_preempts_wait = refl

-- A later number acknowledges too, and the number given at HELLO_ACK is the next one used.
ack_of_later_seq : outstanding (on_ack (pos 9) stopping).0 ≡ none
unfolding on_ack
ack_of_later_seq = refl

seq_start : (next_seq (set_seq_start (pos 12) (new {P = ℕ} 1))).1 ≡ 12
unfolding next_seq set_seq_start new
seq_start = refl

send-IsSent_iff_example :
    IsSent (send 0 stop_msg holding).1
    ↔ (holding.pending ≡ none)
      ⊎ ((p : Pending ℕ) × (holding.pending ≡ some p) × MayPreempt stop p.msg.type)
send-IsSent_iff_example = send-IsSent_iff 0 stop_msg holding

abbrev slow_ticks : List ℕ
slow_ticks = 100000000 ∷ 200000000 ∷ 350000000 ∷ 450000000 ∷ 600000000 ∷ []

run_ticks_give_up_example : run_ticks slow_ticks stopping ≡ (
  record stopping { pending = none },
  replicate 4 (resend numbered_stop) ++ failed numbered_stop ∷ [],
)
run_ticks_give_up_example =
    run_ticks_give_up 4 slow_ticks stopping stop_pending refl refl refl (omega arith)

abbrev calls : List (Call ℕ)
calls =
    tick_call 100000000
    ∷ send_call 100000001 wait_msg
    ∷ ack_call (pos 4)
    ∷ next_seq_call
    ∷ send_call 100000003 waypoint_msg
    ∷ tick_call 500000000
    ∷ []

run-IsUnambiguous_example : IsUnambiguous (run calls stopping).1
run-IsUnambiguous_example = run-IsUnambiguous calls stopping (λ m e. ground arith)

stop_stands_example :
    let (s, wire) = run (next_seq_call ∷ send_call 5 wait_msg ∷ []) stopping in
    (outstanding s ≡ some numbered_stop) × (wire ≡ [])
stop_stands_example =
    stop_stands (next_seq_call ∷ send_call 5 wait_msg ∷ []) stopping numbered_stop (tt, (tt, tt))
      refl refl
