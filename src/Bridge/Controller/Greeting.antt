-- ===== src/Bridge/Controller/Greeting.antt =====
-- controller.py: the handshake by HELLO.
use hanium_smart_parkin.Base.{ℕ, ◌≡◌, ◌≢◌, ◌↔◌, ap, ◌∙◌, sym, true, false, none, some, arith}
use hanium_smart_parkin.Base.Float.{Float}
use hanium_smart_parkin.Bridge.Wire.{build_hello_ack, Hello, ready_allowed}
use hanium_smart_parkin.Bridge.Session.{new_session}
use hanium_smart_parkin.Bridge.Controller.State.{transmit_if, Controller}
use hanium_smart_parkin.Bridge.Controller.Inbound.{on_hello, is_locked, hello_verdict}

-- The car is released exactly if it reports no locked state, a stopped motor and no error.
pub hello_verdict-ready_iff :
    (h : Hello)
    → ((hello_verdict h).0 ≡ ready_allowed)
      ↔ (is_locked h.previous_state ≡ false) × (h.motor_stopped ≡ true) × (h.error_code ≡ none)
unfolding hello_verdict
hello_verdict-ready_iff h = (λ e. ground arith, λ e. ground arith)

module _ {F : Type 0} ⦃fl : Float F⦄ where
  hello_first :
      (sid b : ℕ) (h : Hello) (c : Controller F)
      → h.boot_id ≡ some b
      → c.session ≡ none
      → let (c1, out) = on_hello sid h c in
        (c1.session ≡ some (new_session sid b 1))
        × (c1.hello_result ≡ some (hello_verdict h).0)
        × (c1.hello_reason ≡ (hello_verdict h).1)
        × (out
            ≡ transmit_if c.connected
                (build_hello_ack sid b 1 (hello_verdict h).0 (hello_verdict h).1))
        × (c1.connected ≡ c.connected)
  unfolding on_hello
  hello_first sid b h c e n = ground arith

  hello_again :
      (sid sid' b : ℕ) (h : Hello) (c1 : Controller F)
      → h.boot_id ≡ some b
      → h.previous_session_id ≢ some sid
      → c1.session ≡ some (new_session sid b 1)
      → c1.hello_result ≡ some (hello_verdict h).0
      → c1.hello_reason ≡ (hello_verdict h).1
      → on_hello sid' h c1 ≡ (
        c1,
        transmit_if c1.connected (build_hello_ack sid b 1 (hello_verdict h).0 (hello_verdict h).1),
      )
  unfolding on_hello new_session
  hello_again sid sid' b h c1 e p n r q = ground arith

  -- A car that repeats its first HELLO, since it has not got the answer, gets the same answer with
  -- the same session again, whatever id is drawn meanwhile, and nothing else changes.
  pub on_hello-twice :
      (sid sid' b : ℕ) (h : Hello) (c : Controller F)
      → h.boot_id ≡ some b
      → h.previous_session_id ≢ some sid
      → c.session ≡ none
      → let (c1, out) = on_hello sid h c in on_hello sid' h c1 ≡ (c1, out)
  on_hello-twice sid sid' b h c e p n =
      let first = hello_first sid b h c e n in
      let again = hello_again sid sid' b h (on_hello sid h c).0 e p first.0 first.1 first.2 in
      again ∙ ap (λ out. ((on_hello sid h c).0, out)) (rw first.4 (sym first.3))
