-- ===== src/Fleet/Session/Track.antt =====
-- server.py: what the callbacks of one session are told, in order.
use hanium_smart_parkin.Base.{
  ℕ, ◌≤◌, ◌<◌, ◌≡◌, ◌≢◌, ◌⊎◌, refl, inl, inr, Bool-cases, Option-cases, Bool, true, false, none,
  some, List, [], ◌∷◌, ◌++◌, if◌then◌else◌, if_both, arith,
}
use hanium_smart_parkin.Base.Int.{ℤ, pos, ◌<ℤ◌}
use hanium_smart_parkin.Base.Float.{Float}
use hanium_smart_parkin.Reliability.{Pending, ReliableSender, outstanding, on_ack, clear_pending}
use hanium_smart_parkin.Bridge.Wire.{CommandResult, accepted, already_stopped, IsFinal, json_eq_int}
use hanium_smart_parkin.Fleet.Protocol.{
  is_terminal, Frame, Snapshot, Content, status, command_result, arrived, unhandled, Inbound,
  is_negative,
}
use hanium_smart_parkin.Fleet.Session.{
  VehicleSession, Outage, Event, raw, raw_command, on_status, on_command_result,
  on_command_rejected, on_comm_fail, on_comm_recovered, on_hold, on_resync, on_ready, last_seq,
  fail_session, comm_recovered, is_answer, consume, consume_command_result, take_status, next,
  handle, is_own, dispatch,
}

terminal-IsFinal : (r : CommandResult) → is_terminal r ≡ true → IsFinal r
terminal-IsFinal r e = ((λ q. cc), λ q. cc)

-- What the program has been told: the number of the last STATUS, and that of the last command answered.
pub record Told : Type 0 where
  pub status_seq : ℤ
  pub answered : ℕ

module _ {F : Type 0} ⦃fl : Float F⦄ where
  -- The message has a final result and names the command `n`.
  abbrev pub Answers : Snapshot F → ℕ → Type 0
  Answers m n =
      IsFinal m.command_result
      × ((json_eq_int m.last_processed_cmd_seq n ≡ true) ⊎ (json_eq_int m.rejected n ≡ true))

  is_answer-Answers : (m : Snapshot F) (n : ℕ) → is_answer m n ≡ true → Answers m n
  is_answer-Answers m n h = (
    terminal-IsFinal m.command_result (ground (arith, h)),
    elim (Bool-cases (json_eq_int m.last_processed_cmd_seq n)) [
      | inl e ↦ inl e
      | inr e ↦ inr (ground (arith, e, h))
    ],
  )

  -- A STATUS is newer than the last one; and an answer is to a later command than the last one, and is
  -- its final result. The callbacks for the link may come from two threads, and nothing is said of them.
  abbrev pub MayTell : Told → Event F → Type 0
  MayTell t (on_comm_fail _ _) = Unit
  MayTell t (on_comm_recovered _) = Unit
  MayTell t (on_status _ m) = t.status_seq <ℤ m.status_seq
  MayTell t (on_command_result _ n r m) = (t.answered < n) × Answers m n × (r ≡ m.command_result)
  MayTell t (on_command_rejected _ r m) =
      Answers m t.answered × (r ≡ m.command_result) × (r ≢ accepted) × (r ≢ already_stopped)
  MayTell t (raw _ _) = Unit
  MayTell t (raw_command _ _) = Unit
  MayTell t (on_hold _ _) = Unit
  MayTell t (on_resync _) = Unit
  MayTell t (on_ready _) = Unit

  abbrev pub tell : Event F → Told → Told
  tell (on_comm_fail _ _) t = t
  tell (on_comm_recovered _) t = t
  tell (on_status _ m) t = record t { status_seq = m.status_seq }
  tell (on_command_result _ n r m) t = record t { answered = n }
  tell (on_command_rejected _ _ _) t = t
  tell (raw _ _) t = t
  tell (raw_command _ _) t = t
  tell (on_hold _ _) t = t
  tell (on_resync _) t = t
  tell (on_ready _) t = t

  abbrev pub Tells : Told → List (Event F) → Type 0
  Tells t [] = Unit
  Tells t (e ∷ es) = MayTell t e × Tells (tell e t) es

  abbrev pub tell_all : List (Event F) → Told → Told
  tell_all [] t = t
  tell_all (e ∷ es) t = tell_all es (tell e t)

  Tells-append :
      (es fs : List (Event F)) (t : Told)
      → Tells t es
      → Tells (tell_all es t) fs
      → Tells t (es ++ fs)
  Tells-append [] fs t h k = k
  Tells-append (e ∷ es) fs t h k = (h.0, Tells-append es fs (tell e t) h.1 k)

  tell_all-append :
      (es fs : List (Event F)) (t : Told) → tell_all (es ++ fs) t ≡ tell_all fs (tell_all es t)
  tell_all-append [] fs t = refl
  tell_all-append (e ∷ es) fs t = tell_all-append es fs (tell e t)

  -- The state of the session agrees with what has been told of it.
  abbrev pub Agrees : Told → VehicleSession F → Type 0
  Agrees t s =
      (t.status_seq ≡ last_seq s.last_status)
      × (t.answered ≤ s.sender.seq)
      × ((p : Pending (Frame F))
          → s.sender.pending ≡ some p
          → (p.msg.seq ≡ p.seq) × (p.seq ≤ s.sender.seq) × (t.answered < p.seq))

  abbrev pub Keeps : Told → VehicleSession F × List (Event F) → Type 0
  Keeps t (s, es) = Tells t es × Agrees (tell_all es t) s

  pub next-Keeps :
      (t : Told) (p : VehicleSession F × List (Event F))
      (f : VehicleSession F → VehicleSession F × List (Event F))
      → Keeps t p
      → ((t' : Told) (s : VehicleSession F) → Agrees t' s → Keeps t' (f s))
      → Keeps t (next p f)
  next-Keeps t (s, es) f h k =
      let (a, b) = k (tell_all es t) s h.1 in
      (Tells-append es (f s).1 t h.0 a, rw (tell_all-append es (f s).1 t) b)

  pub fail_session-Keeps :
      (o : Outage F) (t : Told) (s : VehicleSession F) → Agrees t s → Keeps t (fail_session o s)
  unfolding fail_session clear_pending
  fail_session-Keeps o t s h = ground arith

  comm_recovered-Keeps : (t : Told) (s : VehicleSession F) → Agrees t s → Keeps t (comm_recovered s)
  unfolding comm_recovered
  comm_recovered-Keeps t s h = ground arith

  take_status-Keeps :
      (m : Snapshot F) (t : Told) (s : VehicleSession F) → Agrees t s → Keeps t (take_status m s)
  unfolding take_status
  take_status-Keeps m t s h = ground arith

  consume_none :
      (m : Snapshot F) (s : VehicleSession F)
      → s.sender.pending ≡ none
      → consume_command_result m s ≡ (s, [])
  unfolding consume_command_result consume
  consume_none m s e = ground (arith, e)

  outstanding_some :
      (s : ReliableSender (Frame F)) (p : Pending (Frame F))
      → s.pending ≡ some p
      → outstanding s ≡ some p.msg
  outstanding_some s p e = ground (arith, e)

  on_ack_settles :
      (s : ReliableSender (Frame F)) (p : Pending (Frame F))
      → s.pending ≡ some p
      → p.msg.seq ≡ p.seq
      → (on_ack (pos p.msg.seq) s).0 ≡ record s { pending = none }
  unfolding on_ack
  on_ack_settles s p e q = ground (arith, e, q)

  -- The session after its command has been answered.
  abbrev settled : VehicleSession F → VehicleSession F
  settled s = record s { sender = record s.sender { pending = none } }

  consume_answer :
      (m : Snapshot F) (s : VehicleSession F) (p : Pending (Frame F))
      → s.sender.pending ≡ some p
      → p.msg.seq ≡ p.seq
      → is_answer m p.msg.seq ≡ true
      → consume_command_result m s ≡ (
        settled s,
        on_command_result s.car_id p.msg.seq m.command_result m
            ∷ (if is_negative m.command_result
                then on_command_rejected s.car_id m.command_result m ∷ []
                else []),
      )
  unfolding consume_command_result consume
  consume_answer m s p e q a =
      rw (outstanding_some s.sender p e, a, on_ack_settles s.sender p e q) refl

  consume_other :
      (m : Snapshot F) (s : VehicleSession F) (p : Pending (Frame F))
      → s.sender.pending ≡ some p
      → is_answer m p.msg.seq ≡ false
      → consume_command_result m s ≡ (s, [])
  unfolding consume_command_result consume
  consume_other m s p e a = rw (outstanding_some s.sender p e, a) refl

  abbrev rejection : Bool → Snapshot F → ℕ → List (Event F)
  rejection b m car = if b then on_command_rejected car m.command_result m ∷ [] else []

  rejection-Tells :
      (b : Bool) (m : Snapshot F) (car : ℕ) (t : Told)
      → is_negative m.command_result ≡ b
      → is_answer m t.answered ≡ true
      → Tells t (rejection b m car)
  rejection-Tells true m car t n a =
      ((is_answer-Answers m t.answered a, refl, (λ q. cc), λ q. cc), tt)
  rejection-Tells false m car t n a = tt

  tell_all-rejection :
      (b : Bool) (m : Snapshot F) (car : ℕ) (t : Told) → tell_all (rejection b m car) t ≡ t
  tell_all-rejection true m car t = refl
  tell_all-rejection false m car t = refl

  consume-Keeps :
      (m : Snapshot F) (t : Told) (s : VehicleSession F)
      → Agrees t s
      → Keeps t (consume_command_result m s)
  consume-Keeps m t s h = elim (Option-cases s.sender.pending) [
    | inl e ↦ rw (consume_none m s e) (tt, h)
    | inr (p, e) ↦ elim (Bool-cases (is_answer m p.msg.seq)) [
      | inl a ↦ rw (consume_answer m s p e (h.2 p e).0 a) (
          let t' = record t { answered = p.msg.seq } in
          (
            (
              (omega (arith, (h.2 p e).0, (h.2 p e).2), is_answer-Answers m p.msg.seq a, refl),
              rejection-Tells (is_negative m.command_result) m s.car_id t' refl a,
            ),
            rw (tell_all-rejection (is_negative m.command_result) m s.car_id t')
                (h.0, omega (arith, (h.2 p e).0, (h.2 p e).1), λ p' c. absurd (cc)),
          ))
      | inr a ↦ rw (consume_other m s p e a) (tt, h)
    ]
  ]

  handle-Keeps :
      (c : Content F) (t : Told) (s : VehicleSession F) → Agrees t s → Keeps t (handle c s)
  unfolding handle
  handle-Keeps (status m) t s h =
      next-Keeps t (consume_command_result m s) (take_status m) (consume-Keeps m t s h)
        (take_status-Keeps m)
  handle-Keeps (command_result m) t s h = consume-Keeps m t s h
  handle-Keeps (arrived none) t s h = (tt, h)
  handle-Keeps (arrived (some event)) t s h = ((tt, tt), h)
  handle-Keeps unhandled t s h = (tt, h)

  pub dispatch-Keeps :
      (now : ℕ) (m : Inbound F) (t : Told) (s : VehicleSession F)
      → Agrees t s
      → Keeps t (dispatch now m s)
  unfolding dispatch
  dispatch-Keeps now m t s h =
      next-Keeps t (comm_recovered (record s { last_rx = now }))
        (λ s'. if is_own m s' then handle m.content s' else (s', []))
        (comm_recovered-Keeps t (record s { last_rx = now }) h)
        (λ t' s' h'. if_both (Keeps t') (is_own m s') (handle-Keeps m.content t' s' h') (tt, h'))
