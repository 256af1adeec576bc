-- ===== src/Reliability/Sequence.antt =====
-- reliability.py: what a whole series of calls hands out to be sent, in the order of the lock.
use hanium_smart_parkin.Base.{
  ℕ, ◌≤◌, ◌<◌, ◌≡◌, refl, sym, ◌∙◌, ◌⊎◌, inl, inr, In, Option, none, some, List, [], ◌∷◌, arith,
  All, All-map,
}
use hanium_smart_parkin.Base.Int.{ℤ}
use hanium_smart_parkin.Reliability.{
  stop, Message, ReliableSender, Outcome, sent, raised, TickEvent, idle, resend, failed,
  outstanding, next_seq, send, on_ack, clear_pending, tick,
}

-- The calls that the server makes within one session.
pub data Call (P : Type 0) : Type 0 where
  send_call : ℕ → Message P → Call P
  tick_call : ℕ → Call P
  ack_call : ℤ → Call P
  clear_call next_seq_call : Call P

module _ {P : Type 0} where
  abbrev sent_message : Outcome P → Option (Message P)
  sent_message (sent _ m) = some m
  sent_message (raised _) = none

  abbrev resent_message : TickEvent P → Option (Message P)
  resent_message (resend m) = some m
  resent_message idle = none
  resent_message (failed _) = none

  -- One call: the next state, and the message that it hands to `send_raw`.
  step : Call P → ReliableSender P → ReliableSender P × Option (Message P)
  step (send_call now msg) s = let (s', o) = send now msg s in (s', sent_message o)
  step (tick_call now) s = let (s', e) = tick now s in (s', resent_message e)
  step (ack_call n) s = ((on_ack n s).0, none)
  step clear_call s = (clear_pending s, none)
  step next_seq_call s = ((next_seq s).0, none)

  abbrev emit : Option (Message P) → List (Message P) → List (Message P)
  emit none ms = ms
  emit (some m) ms = m ∷ ms

  -- A series of calls: the last state, and the messages handed to `send_raw`, in the
  -- order of the lock.
  pub run : List (Call P) → ReliableSender P → ReliableSender P × List (Message P)
  unfolding step
  run [] s = (s, [])
  run (c ∷ cs) s = let (s', m) = step c s in let (t, ms) = run cs s' in (t, emit m ms)

  -- The outstanding command bears a number that has been given out.
  abbrev pub IsNumbered : ReliableSender P → Type 0
  IsNumbered s = (m : Message P) → outstanding s ≡ some m → m.seq ≤ s.seq

  step-IsNumbered : (c : Call P) (s : ReliableSender P) → IsNumbered s → IsNumbered (step c s).0
  unfolding step send tick on_ack clear_pending next_seq
  step-IsNumbered (send_call now msg) s h m e = ground (arith, h m)
  step-IsNumbered (tick_call now) s h m e = ground (arith, h m)
  step-IsNumbered (ack_call n) s h m e = ground (arith, h m)
  step-IsNumbered clear_call s h m e = ground (arith, h m)
  step-IsNumbered next_seq_call s h m e = ground (arith, h m)

  -- A message that belongs after the state `s`: the outstanding one again, or a later number.
  abbrev After : ReliableSender P → Message P → Type 0
  After s m = (outstanding s ≡ some m) ⊎ (s.seq < m.seq)

  After-step :
      (c : Call P) (s : ReliableSender P) (m : Message P) → After (step c s).0 m → After s m
  unfolding step send tick on_ack clear_pending next_seq
  After-step (send_call now msg) s m h = ground arith
  After-step (tick_call now) s m h = ground arith
  After-step (ack_call n) s m h = ground arith
  After-step clear_call s m h = ground arith
  After-step next_seq_call s m h = ground arith

  emitted-After :
      (c : Call P) (s : ReliableSender P) (m : Message P) → (step c s).1 ≡ some m → After s m
  unfolding step send tick
  emitted-After (send_call now msg) s m h = ground arith
  emitted-After (tick_call now) s m h = ground arith
  emitted-After (ack_call n) s m h = cc
  emitted-After clear_call s m h = cc
  emitted-After next_seq_call s m h = cc

  emitted-outstanding :
      (c : Call P) (s : ReliableSender P) (m : Message P)
      → (step c s).1 ≡ some m
      → outstanding (step c s).0 ≡ some m
  unfolding step send tick
  emitted-outstanding (send_call now msg) s m h = ground arith
  emitted-outstanding (tick_call now) s m h = ground arith
  emitted-outstanding (ack_call n) s m h = cc
  emitted-outstanding clear_call s m h = cc
  emitted-outstanding next_seq_call s m h = cc

  All-emit :
      (Q : Message P → Type 0) (o : Option (Message P)) (ms : List (Message P))
      → ((m : Message P) → o ≡ some m → Q m)
      → All Q ms
      → All Q (emit o ms)
  All-emit Q none ms f h = h
  All-emit Q (some m) ms f h = (f m refl, h)

  run-After : (cs : List (Call P)) (s : ReliableSender P) → All (After s) (run cs s).1
  unfolding run
  run-After [] s = tt
  run-After (c ∷ cs) s =
      All-emit (After s) (step c s).1 (run cs (step c s).0).1 (emitted-After c s)
        (All-map (After-step c s) _ (run-After cs (step c s).0))

  -- Of two messages the later is the same one again, or has a greater number.
  abbrev pub Follows : Message P → Message P → Type 0
  Follows m m' = (m ≡ m') ⊎ (m.seq < m'.seq)

  abbrev pub IsOrderly : List (Message P) → Type 0
  IsOrderly [] = Unit
  IsOrderly (m ∷ ms) = All (Follows m) ms × IsOrderly ms

  After-Follows :
      (s : ReliableSender P) (m m' : Message P)
      → IsNumbered s
      → outstanding s ≡ some m
      → After s m'
      → Follows m m'
  After-Follows s m m' n e h = ground (arith, n m)

  IsOrderly-emit :
      (o : Option (Message P)) (s : ReliableSender P) (ms : List (Message P))
      → IsNumbered s
      → ((m : Message P) → o ≡ some m → outstanding s ≡ some m)
      → All (After s) ms
      → IsOrderly ms
      → IsOrderly (emit o ms)
  IsOrderly-emit none s ms n f a h = h
  IsOrderly-emit (some m) s ms n f a h = (All-map (λ m'. After-Follows s m m' n (f m refl)) ms a, h)

  -- In the order in which the lock is taken, a message that is handed out later is identical to an earlier
  -- one or bears a greater number.
  run-IsOrderly :
      (cs : List (Call P)) (s : ReliableSender P) → IsNumbered s → IsOrderly (run cs s).1
  unfolding run
  run-IsOrderly [] s h = tt
  run-IsOrderly (c ∷ cs) s h =
      let s' = (step c s).0 in
      IsOrderly-emit (step c s).1 s' (run cs s').1 (step-IsNumbered c s h) (emitted-outstanding c s)
        (run-After cs s') (run-IsOrderly cs s' (step-IsNumbered c s h))

  -- One number, one message, whatever the order of the messages.
  abbrev pub IsUnambiguous : List (Message P) → Type 0
  IsUnambiguous ms = (m m' : Message P) → In m ms → In m' ms → m.seq ≡ m'.seq → m ≡ m'

  Follows-same : (m m' : Message P) → Follows m m' → m.seq ≡ m'.seq → m ≡ m'
  Follows-same m m' (inl e) q = e
  Follows-same m m' (inr l) q = absurd (omega arith)

  In-Follows :
      (m m' : Message P) (ms : List (Message P)) → All (Follows m) ms → In m' ms → Follows m m'
  In-Follows m m' [] h i = elim i [ ]
  In-Follows m m' (x ∷ ms) h (inl e) = rw e h.0
  In-Follows m m' (x ∷ ms) h (inr i) = In-Follows m m' ms h.1 i

  IsOrderly-IsUnambiguous : (ms : List (Message P)) → IsOrderly ms → IsUnambiguous ms
  IsOrderly-IsUnambiguous [] h m m' i i' q = elim i [ ]
  IsOrderly-IsUnambiguous (x ∷ ms) h m m' (inl e) (inl e') q = e ∙ sym e'
  IsOrderly-IsUnambiguous (x ∷ ms) h m m' (inl e) (inr i) q =
      Follows-same m m' (rw e (In-Follows x m' ms h.0 i)) q
  IsOrderly-IsUnambiguous (x ∷ ms) h m m' (inr i) (inl e) q =
      sym (Follows-same m' m (rw e (In-Follows x m ms h.0 i)) (sym q))
  IsOrderly-IsUnambiguous (x ∷ ms) h m m' (inr i) (inr i') q =
      IsOrderly-IsUnambiguous ms h.1 m m' i i' q

  -- Whatever is called within a session, and however retransmissions, acknowledgements and preemptions
  -- interleave: two messages that are handed to `send_raw` with the same number are identical. So one
  -- number never goes out with two payloads, in whatever order the threads then call `send_raw`.
  pub run-IsUnambiguous :
      (cs : List (Call P)) (s : ReliableSender P) → IsNumbered s → IsUnambiguous (run cs s).1
  run-IsUnambiguous cs s h = IsOrderly-IsUnambiguous (run cs s).1 (run-IsOrderly cs s h)

  -- The calls by which the program asks for commands and numbers.
  abbrev pub IsRequest : Call P → Type 0
  IsRequest (send_call _ _) = Unit
  IsRequest next_seq_call = Unit
  IsRequest (tick_call _) = ⊥
  IsRequest (ack_call _) = ⊥
  IsRequest clear_call = ⊥

  stop_stands_step :
      (c : Call P) (s : ReliableSender P) (m : Message P)
      → IsRequest c
      → outstanding s ≡ some m
      → m.type ≡ stop
      → (outstanding (step c s).0 ≡ some m) × ((step c s).1 ≡ none)
  unfolding step send next_seq
  stop_stands_step (send_call now msg) s m r e t = ground arith
  stop_stands_step next_seq_call s m r e t = ground arith
  stop_stands_step (tick_call now) s m r e t = absurd r
  stop_stands_step (ack_call n) s m r e t = absurd r
  stop_stands_step clear_call s m r e t = absurd r

  -- While a STOP awaits its answer no series of requests displaces it, and none of them hands out a
  -- message to be sent.
  pub stop_stands :
      (cs : List (Call P)) (s : ReliableSender P) (m : Message P)
      → All IsRequest cs
      → outstanding s ≡ some m
      → m.type ≡ stop
      → (outstanding (run cs s).0 ≡ some m) × ((run cs s).1 ≡ [])
  unfolding run
  stop_stands [] s m r e t = (e, refl)
  stop_stands (c ∷ cs) s m r e t =
      let (kept, silent) = stop_stands_step c s m r.0 e t in
      let (last, wire) = stop_stands cs (step c s).0 m r.1 kept t in (last, rw (silent, wire))
