-- ===== src/Bridge/Controller/Resend.antt =====
-- controller.py: the retransmission of an outstanding command, and its end.
use hanium_smart_parkin.Base.{
  ℕ, zero, suc, ◌+◌, ◌≤◌, ◌≡◌, ◌⊎◌, refl, ap, sym, true, false, Option, none, some, List, [], ◌∷◌,
  ◌++◌, map, arith, is_some, length, replicate,
}
use mathlib.Core.Path.{subst}
use hanium_smart_parkin.Base.Float.{Float}
use hanium_smart_parkin.Bridge.Session.{VehicleSession, OutstandingCommand}
use hanium_smart_parkin.Bridge.Controller.State.{Controller, Effect, transmit, max_resends}
use hanium_smart_parkin.Bridge.Controller.Loops.{is_pending, reliable_resend_round}
use hanium_smart_parkin.Bridge.Controller.Run.{Event, resend_due, react, run}
use hanium_smart_parkin.Bridge.Controller.Stop.{IsDisarmed}

-- Clock readings of which each lies at least `gap` after the one before.
abbrev pub Spaced : ℕ → ℕ → List ℕ → Type 0
Spaced gap last [] = Unit
Spaced gap last (t ∷ ts) = (last + gap ≤ t) × Spaced gap t ts

module _ {F : Type 0} where
  abbrev pub outstanding_of : Option (VehicleSession F) → Option (OutstandingCommand F)
  outstanding_of none = none
  outstanding_of (some s) = s.outstanding

module _ {F : Type 0} ⦃fl : Float F⦄ where
  abbrev resent : ℕ → OutstandingCommand F → OutstandingCommand F
  resent now cmd = record cmd { resends = cmd.resends + 1; sent_at = now }

  resend_again :
      (now : ℕ) (c : Controller F) (s : VehicleSession F) (cmd : OutstandingCommand F)
      → c.session ≡ some s
      → s.outstanding ≡ some cmd
      → c.connected ≡ true
      → cmd.sent_at + cmd.resend_timeout ≤ now
      → suc cmd.resends ≤ max_resends
      → reliable_resend_round now c ≡ (
        record c { session = some (record s { outstanding = some (resent now cmd) }) },
        transmit cmd.message ∷ [],
      )
  unfolding reliable_resend_round
  resend_again now c s cmd e o l due r = ground arith

  abbrev GivenUp : Controller F → ℕ → Controller F × List (Effect F) → Type 0
  GivenUp c seq (c', out) =
      (out ≡ [])
      × (is_some c'.session ≡ true)
      × (outstanding_of c'.session ≡ none)
      × ((is_pending c.pending_remote_mode_seq seq ≡ false) ⊎ IsDisarmed c')

  resend_last :
      (now : ℕ) (c : Controller F) (s : VehicleSession F) (cmd : OutstandingCommand F)
      → c.session ≡ some s
      → s.outstanding ≡ some cmd
      → c.connected ≡ true
      → cmd.sent_at + cmd.resend_timeout ≤ now
      → cmd.resends ≡ max_resends
      → GivenUp c cmd.seq (reliable_resend_round now c)
  unfolding reliable_resend_round
  resend_last now c s cmd e o l due r = ground arith

  -- The end of a command: sent `k` times more and then given up; if it was the request `p` for the
  -- mode, the stream is shut and no request is pending.
  abbrev pub GivesUp : ℕ → OutstandingCommand F → Option ℕ → Controller F × List (Effect F) → Type 0
  GivesUp k cmd p (c', out) =
      (out ≡ replicate k (transmit cmd.message))
      × (is_some c'.session ≡ true)
      × (outstanding_of c'.session ≡ none)
      × ((is_pending p cmd.seq ≡ false) ⊎ IsDisarmed c')

  run-cons :
      (e : Event F) (es : List (Event F)) (c c' : Controller F) (out : List (Effect F))
      → react e c ≡ (c', out)
      → ((run es c').0, out ++ (run es c').1) ≡ run (e ∷ es) c
  unfolding run
  run-cons e es c c' out h =
      ap (λ (r : Controller F × List (Effect F)). ((run es r.0).0, r.1 ++ (run es r.0).1)) (sym h)

  -- With no answer and each round a timeout after the one before, a command that may be sent `k` more
  -- times is sent `k` more times, unchanged; the next round gives it up, and if it was the pending
  -- request for the mode, the stream is shut and no request is pending.
  pub run-resend_due :
      (k : ℕ) (times : List ℕ) (c : Controller F) (s : VehicleSession F)
      (cmd : OutstandingCommand F)
      → length times ≡ suc k
      → c.session ≡ some s
      → s.outstanding ≡ some cmd
      → c.connected ≡ true
      → cmd.resends + k ≡ max_resends
      → Spaced cmd.resend_timeout cmd.sent_at times
      → let (c', out) = run (map resend_due times) c in
        (out ≡ replicate k (transmit cmd.message))
        × (is_some c'.session ≡ true)
        × (outstanding_of c'.session ≡ none)
        × ((is_pending c.pending_remote_mode_seq cmd.seq ≡ false) ⊎ IsDisarmed c')
  unfolding react
  run-resend_due k [] c s cmd n e o l r d = absurd (omega arith)
  run-resend_due zero (t ∷ []) c s cmd n e o l r d =
      let done = resend_last t c s cmd e o l d.0 (omega arith) in
      unfold run in (rw done.0, done.1, done.2, done.3)
  run-resend_due zero (t ∷ u ∷ ts) c s cmd n e o l r d = absurd (omega arith)
  run-resend_due (suc k) (t ∷ ts) c s cmd n e o l r d =
      let s' = record s { outstanding = some (resent t cmd) } in
      let c' = record c { session = some s' } in
      let rest =
        run-resend_due k ts c' s' (resent t cmd) (omega arith) refl refl l (omega arith) d.1 in
      let step = resend_again t c s cmd e o l d.0 (omega arith) in
      subst (GivesUp (suc k) cmd c.pending_remote_mode_seq)
        (run-cons (resend_due t) (map resend_due ts) c c' (transmit cmd.message ∷ []) step)
        (ap (λ out. transmit cmd.message ∷ out) rest.0, rest.1, rest.2, rest.3)
