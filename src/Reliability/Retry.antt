-- ===== src/Reliability/Retry.antt =====
-- reliability.py: the retransmission timer, over any series of calls of `tick`.
use hanium_smart_parkin.Base.{
  ℕ, zero, suc, ◌+◌, ◌*◌, ◌≤◌, ◌≡◌, refl, none, some, List, [], ◌∷◌, ◌++◌, arith, length, replicate,
}
use hanium_smart_parkin.Reliability.{
  Pending, ReliableSender, TickEvent, idle, resend, failed, tick, max_retransmit, ns_per_ms,
}

-- Clock readings of which each lies at least `gap` after the one before.
abbrev pub Spaced : ℕ → ℕ → List ℕ → Type 0
Spaced gap last [] = Unit
Spaced gap last (t ∷ ts) = (last + gap ≤ t) × Spaced gap t ts

module _ {P : Type 0} where
  -- The ticks at the given clock readings, and what each of them did.
  pub run_ticks : List ℕ → ReliableSender P → ReliableSender P × List (TickEvent P)
  run_ticks [] s = (s, [])
  run_ticks (now ∷ times) s =
      let (s', e) = tick now s in let (t, es) = run_ticks times s' in (t, e ∷ es)

  abbrev pub resends : List (TickEvent P) → ℕ
  resends [] = 0
  resends (resend _ ∷ es) = suc (resends es)
  resends (idle ∷ es) = resends es
  resends (failed _ ∷ es) = resends es

  -- How many times the outstanding command has been transmitted.
  abbrev pub attempts : ReliableSender P → ℕ
  attempts s = elim s.pending [ none ↦ max_retransmit | some p ↦ p.attempts ]

  attempts-tick :
      (now : ℕ) (s : ReliableSender P)
      → attempts s ≤ max_retransmit
      → (attempts (tick now s).0 ≤ max_retransmit)
        × (resends ((tick now s).1 ∷ []) + attempts s ≤ attempts (tick now s).0)
  unfolding tick
  attempts-tick now s h = ground arith

  resends-cons :
      (e : TickEvent P) (es : List (TickEvent P)) → resends (e ∷ es) ≡ resends (e ∷ []) + resends es
  resends-cons idle es = omega arith
  resends-cons (resend _) es = omega arith
  resends-cons (failed _) es = omega arith

  -- However often the timer runs, a command that has been transmitted `attempts` times is sent again
  -- at most until `MAX_RETRANSMIT` transmissions are reached.
  pub resends-le :
      (times : List ℕ) (s : ReliableSender P)
      → attempts s ≤ max_retransmit
      → resends (run_ticks times s).1 + attempts s ≤ max_retransmit
  unfolding run_ticks
  resends-le [] s h = omega arith
  resends-le (now ∷ times) s h =
      let (ok, step) = attempts-tick now s h in
      omega (
        arith,
        step,
        resends-cons (tick now s).1 (run_ticks times (tick now s).0).1,
        resends-le times (tick now s).0 ok,
      )

  -- The outstanding command `p`, sent for the `n`-th time at the reading `now`.
  abbrev pub resent : Pending P → ℕ → ℕ → Pending P
  resent p n now = record p { attempts = n; sent_at = now }

  tick_due :
      (now : ℕ) (s : ReliableSender P) (p : Pending P)
      → s.pending ≡ some p
      → p.sent_at + p.timeout_ms * ns_per_ms ≤ now
      → suc p.attempts ≤ max_retransmit
      → tick now s ≡ (record s { pending = some (resent p (p.attempts + 1) now) }, resend p.msg)
  unfolding tick
  tick_due now s p e due h = ground arith

  tick_over :
      (now : ℕ) (s : ReliableSender P) (p : Pending P)
      → s.pending ≡ some p
      → p.sent_at + p.timeout_ms * ns_per_ms ≤ now
      → p.attempts ≡ max_retransmit
      → tick now s ≡ (record s { pending = none }, failed p.msg)
  unfolding tick
  tick_over now s p e due h = ground arith

  -- With no acknowledgement and each tick a timeout after the one before, the same message goes out
  -- until `MAX_RETRANSMIT` transmissions are reached; the next tick reports it to `on_fail` and frees
  -- the sender. (`k` transmissions are left, and there are `k + 1` ticks.)
  pub run_ticks_give_up :
      (k : ℕ) (times : List ℕ) (s : ReliableSender P) (p : Pending P)
      → length times ≡ suc k
      → s.pending ≡ some p
      → p.attempts + k ≡ max_retransmit
      → Spaced (p.timeout_ms * ns_per_ms) p.sent_at times
      → run_ticks times s
        ≡ (record s { pending = none }, replicate k (resend p.msg) ++ failed p.msg ∷ [])
  unfolding run_ticks
  run_ticks_give_up k [] s p n e a d = absurd (omega arith)
  run_ticks_give_up zero (now ∷ []) s p n e a d = rw (tick_over now s p e d.0 (omega arith))
  run_ticks_give_up zero (now ∷ t ∷ ts) s p n e a d = absurd (omega arith)
  run_ticks_give_up (suc k) (now ∷ times) s p n e a d = rw (tick_due now s p e d.0 (omega arith)) (
      rw (
        run_ticks_give_up k times (record s { pending = some (resent p (p.attempts + 1) now) })
          (resent p (p.attempts + 1) now) (omega arith) refl (omega arith) d.1))
