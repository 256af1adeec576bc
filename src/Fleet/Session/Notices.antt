-- ===== src/Fleet/Session/Notices.antt =====
-- server.py: the callbacks over a whole series of calls on a session.
use hanium_smart_parkin.Base.{
  ℕ, ◌≤◌, ◌<◌, ◌≡◌, refl, inl, inr, Option-cases, some, List, [], ◌∷◌, if_both, arith,
}
use hanium_smart_parkin.Base.Int.{negsuc}
use hanium_smart_parkin.Base.Float.{Float}
use hanium_smart_parkin.Reliability.{
  MessageType, Message, Pending, ReliableSender, TickEvent, idle, resend, failed, send,
  clear_pending, tick, set_seq_start,
}
use hanium_smart_parkin.Reliability
use hanium_smart_parkin.Fleet.Protocol.{Frame}
use hanium_smart_parkin.Fleet.Session.{
  VehicleSession, unanswered, comm_timeout, new, after_tick, watch_link, last_seq, tick_session,
  beat, stream_control, set_control,
}
use hanium_smart_parkin.Fleet.Session.Calls.{
  Call, dispatch_call, tick_call, beat_call, stream_call, control_call, command_call, clear_call,
  step, run,
}
use hanium_smart_parkin.Fleet.Session.Track.{
  Told, Tells, tell_all, Agrees, Keeps, next-Keeps, fail_session-Keeps, dispatch-Keeps,
}

-- What the program has been told of a session that has just been opened.
abbrev pub told_nothing : Told
told_nothing = record { status_seq = negsuc 0; answered = 0 }

module _ {F : Type 0} ⦃fl : Float F⦄ where
  -- The numbers of a sender after which the program has been told of the answer to `n`.
  abbrev IsAhead : ℕ → ReliableSender (Frame F) → Type 0
  IsAhead n s =
      (n ≤ s.seq)
      × ((p : Pending (Frame F))
          → s.pending ≡ some p
          → (p.msg.seq ≡ p.seq) × (p.seq ≤ s.seq) × (n < p.seq))

  tick-IsAhead : (n t : ℕ) (s : ReliableSender (Frame F)) → IsAhead n s → IsAhead n (tick t s).0
  unfolding tick
  tick-IsAhead n t s h = elim (Option-cases s.pending) [
    | inl c ↦ (ground arith, λ p e. ground arith)
    | inr (q, c) ↦ (ground (arith, h.1 q c), λ p e. ground (arith, h.1 q c))
  ]

  send-IsAhead :
      (n now : ℕ) (m : Message (Frame F)) (s : ReliableSender (Frame F))
      → IsAhead n s
      → IsAhead n (send now m s).0
  unfolding send
  send-IsAhead n now m s h = elim (Option-cases s.pending) [
    | inl c ↦ (ground arith, λ p e. ground arith)
    | inr (q, c) ↦ (ground (arith, h.1 q c), λ p e. ground (arith, h.1 q c))
  ]

  after_tick-Keeps :
      (e : TickEvent (Frame F)) (t : Told) (s : VehicleSession F)
      → Agrees t s
      → Keeps t (after_tick e s)
  unfolding after_tick
  after_tick-Keeps idle t s h = (tt, h)
  after_tick-Keeps (resend m) t s h = ((tt, tt), h)
  after_tick-Keeps (failed m) t s h = fail_session-Keeps (unanswered m) t s h

  watch_link-Keeps :
      (now : ℕ) (t : Told) (s : VehicleSession F) → Agrees t s → Keeps t (watch_link now s)
  unfolding watch_link
  watch_link-Keeps now t s h = if_both (Keeps t) _ (fail_session-Keeps comm_timeout t s h) (tt, h)

  tick_session-Keeps :
      (now c : ℕ) (t : Told) (s : VehicleSession F) → Agrees t s → Keeps t (tick_session now c s)
  unfolding tick_session
  tick_session-Keeps now c t s h =
      let s' = record s { sender = (tick c s.sender).0 } in
      let ahead = tick-IsAhead t.answered c s.sender (h.1, h.2) in
      if_both (Keeps t) s.alive
        (next-Keeps t (after_tick (tick c s.sender).1 s') (watch_link now)
          (after_tick-Keeps (tick c s.sender).1 t s' (h.0, ahead.0, ahead.1))
          (watch_link-Keeps now))
        (tt, h)

  beat-Keeps : (t : Told) (s : VehicleSession F) → Agrees t s → Keeps t (beat s)
  unfolding beat
  beat-Keeps t s h = if_both (Keeps t) s.alive ((tt, tt), h) (tt, h)

  stream_control-Keeps : (t : Told) (s : VehicleSession F) → Agrees t s → Keeps t (stream_control s)
  unfolding stream_control
  stream_control-Keeps t s h = ground arith

  step-Keeps : (c : Call F) (t : Told) (s : VehicleSession F) → Agrees t s → Keeps t (step c s)
  unfolding step set_control clear_pending
  step-Keeps (dispatch_call now m) t s h = dispatch-Keeps now m t s h
  step-Keeps (tick_call now c) t s h = tick_session-Keeps now c t s h
  step-Keeps beat_call t s h = beat-Keeps t s h
  step-Keeps stream_call t s h = stream_control-Keeps t s h
  step-Keeps (control_call throttle steering) t s h = (tt, h)
  step-Keeps (command_call now k f) t s h =
      let ahead =
        send-IsAhead t.answered now (record { type = k; seq = 0; payload = f }) s.sender
          (h.1, h.2) in
      (tt, (h.0, ahead.0, ahead.1))
  step-Keeps clear_call t s h = (tt, (h.0, h.1, λ p e. absurd (cc)))

  run-Keeps :
      (cs : List (Call F)) (t : Told) (s : VehicleSession F) → Agrees t s → Keeps t (run cs s)
  unfolding run
  run-Keeps [] t s h = (tt, h)
  run-Keeps (c ∷ cs) t s h =
      next-Keeps t (step c s) (run cs) (step-Keeps c t s h) (λ t' s' h'. run-Keeps cs t' s' h')

  -- In every session, whatever is received, sent, cleared or timed out, and in whatever order: the STATUS
  -- handed on bear ever greater numbers; the commands reported as answered do so too, each by a message
  -- that names the very number of the command and whose result is a word of the protocol other than
  -- NONE; a command is reported as rejected only by such a message for the last one answered, never with
  -- ACCEPTED or ALREADY_STOPPED; and the number told last of a STATUS is that of the session's snapshot.
  pub run-Tells :
      (cs : List (Call F)) (car sid boot conn now : ℕ)
      → let (s, es) = run cs (new car sid boot conn now) in
        Tells told_nothing es × ((tell_all es told_nothing).status_seq ≡ last_seq s.last_status)
  unfolding new set_seq_start Reliability.new
  run-Tells cs car sid boot conn now =
      let (a, b) =
        run-Keeps cs told_nothing (new car sid boot conn now)
          (refl, omega arith, λ p e. absurd (cc)) in
      (a, b.0)
