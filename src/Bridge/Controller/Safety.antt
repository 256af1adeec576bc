-- ===== src/Bridge/Controller/Safety.antt =====
-- controller.py: the car is never asked to move unless its stream has been armed.
use hanium_smart_parkin.Base.{
  ℕ, ◌≡◌, refl, inl, inr, Bool, true, false, Option, none, some, List, [], ◌∷◌, arith, Option-cases,
  is_some,
}
use hanium_smart_parkin.Base.Float.{Float, is_nought, IsUnit, nought-IsUnit, clamp-IsUnit}
use hanium_smart_parkin.Bridge.Wire.{hello, status, unhandled, Hello, Status, clamp}
use hanium_smart_parkin.Bridge.Session.{
  new_session, VehicleSession, consume_terminal_result, record_snapshot,
}
use hanium_smart_parkin.Bridge.Controller.State.{
  Controller, Command, send_reliable, neutral_session, neutralize_desired,
}
use hanium_smart_parkin.Bridge.Controller.Inbound.{
  on_message, on_hello, on_status, finish_pending_mode, on_session, take_snapshot, gate_stream,
  count_encoder,
}
use hanium_smart_parkin.Bridge.Controller.Intents.{
  attach, detach, mode_remote_begin, mode_remote_end, stop_begin, reset_begin, set_throttle,
  set_steering, set_drive, nudge_throttle, nudge_steering, center, neutral, pause_direct_stream,
  resume_direct_stream,
}
use hanium_smart_parkin.Bridge.Controller.Loops.{
  heartbeat_round, direct_control_round, reliable_resend_round,
}
use hanium_smart_parkin.Bridge.Controller.Run.{
  Event, attached, detached, message, mode_begin, mode_end, stop_pressed, reset_pressed, stop_sent,
  reset_sent, throttle_set, steering_set, throttle_nudged, steering_nudged, drive_set, centered,
  neutralized, paused, resumed, heartbeat_due, direct_control_due, resend_due, react, run, kept,
}

module _ {F : Type 0} ⦃fl : Float F⦄ where
  -- A control value that can be sent: finite, and within [-1, 1].
  abbrev pub IsDrive : F → Type 0
  IsDrive x = IsUnit x × (fl.is_finite x ≡ true)

nought-IsDrive : (F : Type 0) ⦃fl : Float F⦄ → IsDrive fl.nought
nought-IsDrive F ⦃fl⦄ = (nought-IsUnit F, fl.nought-finite)

module _ {F : Type 0} ⦃fl : Float F⦄ where
  -- Without a session nothing streams; in one the desired values can be sent, and are zero unless
  -- the stream is armed.
  abbrev pub SafeAt : Bool → Option (VehicleSession F) → Type 0
  SafeAt streaming none = streaming ≡ false
  SafeAt streaming (some s) =
      IsDrive s.desired_throttle
      × IsDrive s.desired_steering
      × (streaming ≡ false
          → (is_nought s.desired_throttle ≡ true) × (is_nought s.desired_steering ≡ true))

  abbrev pub IsSafe : Controller F → Type 0
  IsSafe c = SafeAt c.direct_streaming c.session

  clamp-IsDrive : (x : F) {v : F} → clamp x fl.neg_one fl.one ≡ some v → IsDrive v
  unfolding clamp
  clamp-IsDrive x e = ground (arith, clamp-IsUnit x, fl.one-finite, fl.neg_one-finite)

  neutral-SafeAt : (b : Bool) (s : VehicleSession F) → SafeAt b (some (neutral_session s))
  neutral-SafeAt b s = (nought-IsDrive F, nought-IsDrive F, λ _. (fl.nought-eq, fl.nought-eq))

  neutralize-IsSafe :
      (c : Controller F)
      → (c.session ≡ none → c.direct_streaming ≡ false)
      → IsSafe (neutralize_desired c)
  unfolding neutralize_desired
  neutralize-IsSafe c h = elim (Option-cases c.session) [
    | inl e ↦ ground (arith, h e)
    | inr (s, e) ↦ ground (arith, neutral-SafeAt c.direct_streaming s)
  ]

  send_reliable-IsSafe :
      (cmd : Command) (b : Bool) (now : ℕ) (c : Controller F)
      → IsSafe c
      → IsSafe (send_reliable cmd b now c).0
  unfolding send_reliable
  send_reliable-IsSafe cmd b now c h = ground arith

  set_throttle-IsSafe : (v : F) (c : Controller F) → IsSafe c → IsSafe (kept c (set_throttle v c)).0
  unfolding set_throttle
  set_throttle-IsSafe v c h = ground (
    arith,
    clamp-IsUnit ⦃fl = fl⦄ v,
    fl.one-finite,
    fl.neg_one-finite,
    fl.nought-eq,
    nought-IsDrive F ⦃fl = fl⦄,
  )

  set_steering-IsSafe : (v : F) (c : Controller F) → IsSafe c → IsSafe (kept c (set_steering v c)).0
  unfolding set_steering
  set_steering-IsSafe v c h = ground (
    arith,
    clamp-IsUnit ⦃fl = fl⦄ v,
    fl.one-finite,
    fl.neg_one-finite,
    fl.nought-eq,
    nought-IsDrive F ⦃fl = fl⦄,
  )

  nudge_throttle-IsSafe :
      (d : F) (c : Controller F) → IsSafe c → IsSafe (kept c (nudge_throttle d c)).0
  unfolding nudge_throttle
  nudge_throttle-IsSafe d c h = elim (Option-cases c.session) [
    | inl e ↦ ground arith
    | inr (s, e) ↦ ground (arith, set_throttle-IsSafe (fl.add s.desired_throttle d) c h)
  ]

  nudge_steering-IsSafe :
      (d : F) (c : Controller F) → IsSafe c → IsSafe (kept c (nudge_steering d c)).0
  unfolding nudge_steering
  nudge_steering-IsSafe d c h = elim (Option-cases c.session) [
    | inl e ↦ ground arith
    | inr (s, e) ↦ ground (arith, set_steering-IsSafe (fl.add s.desired_steering d) c h)
  ]

  set_drive-IsSafe : (t r : F) (c : Controller F) → IsSafe c → IsSafe (kept c (set_drive t r c)).0
  unfolding set_drive
  set_drive-IsSafe t r c h = ground (
    arith,
    clamp-IsUnit ⦃fl = fl⦄ t,
    clamp-IsUnit ⦃fl = fl⦄ r,
    fl.one-finite,
    fl.neg_one-finite,
    fl.nought-eq,
    nought-IsDrive F ⦃fl = fl⦄,
  )

  mode_remote_begin-IsSafe :
      (now : ℕ) (c : Controller F) → IsSafe c → IsSafe (mode_remote_begin now c).0
  unfolding mode_remote_begin
  mode_remote_begin-IsSafe now c h = ground (arith, fl.nought-eq, nought-IsDrive F ⦃fl = fl⦄)

  resume-IsSafe : (c : Controller F) → IsSafe c → IsSafe (resume_direct_stream c)
  unfolding resume_direct_stream
  resume-IsSafe c h = ground (arith, fl.nought-eq, nought-IsDrive F ⦃fl = fl⦄)

  on_hello-IsSafe :
      (sid : ℕ) (m : Hello) (c : Controller F) → IsSafe c → IsSafe (on_hello sid m c).0
  unfolding on_hello new_session
  on_hello-IsSafe sid m c h = ground (arith, fl.nought-eq, nought-IsDrive F ⦃fl = fl⦄)

  finish_pending_mode-IsSafe :
      (m : Status F) (c : Controller F)
      → is_some c.session ≡ true
      → IsSafe c
      → (is_some (finish_pending_mode m c).session ≡ true) × IsSafe (finish_pending_mode m c)
  unfolding finish_pending_mode
  finish_pending_mode-IsSafe m c o h = ground (arith, fl.nought-eq, nought-IsDrive F ⦃fl = fl⦄)

  gate_stream-IsSafe : (m : Status F) (c : Controller F) → IsSafe c → IsSafe (gate_stream m c)
  unfolding gate_stream
  gate_stream-IsSafe m c h = ground (arith, fl.nought-eq, nought-IsDrive F ⦃fl = fl⦄)

  count_encoder-IsSafe : (m : Status F) (c : Controller F) → IsSafe c → IsSafe (count_encoder m c).1
  unfolding count_encoder
  count_encoder-IsSafe m c h = ground arith

  record_snapshot-IsSafe :
      (now : ℕ) (m : Status F) (c : Controller F)
      → IsSafe c
      → IsSafe (on_session (record_snapshot now m) c)
  unfolding record_snapshot
  record_snapshot-IsSafe now m c h = ground arith

  take_snapshot-IsSafe :
      (now : ℕ) (m : Status F) (c : Controller F) → IsSafe c → IsSafe (take_snapshot now m c).0
  unfolding take_snapshot
  take_snapshot-IsSafe now m c h =
      record_snapshot-IsSafe now (count_encoder m c).0 (gate_stream m (count_encoder m c).1)
        (gate_stream-IsSafe m _ (count_encoder-IsSafe m c h))

  -- A final result frees the outstanding command and touches nothing else that safety rests on.
  consume-SafeAt :
      (m : Status F) (b : Bool) (s : VehicleSession F)
      → SafeAt b (some s)
      → SafeAt b (some (consume_terminal_result m s))
  unfolding consume_terminal_result
  consume-SafeAt m b s h = ground arith

  on_status-IsSafe :
      (now : ℕ) (m : Status F) (c : Controller F) → IsSafe c → IsSafe (on_status now m c).0
  unfolding on_status
  on_status-IsSafe now m c h = elim (Option-cases c.session) [
    | inl e ↦ ground arith
    | inr (s, e) ↦
        let c1 = record c { session = some (consume_terminal_result m s) } in
        let safe = consume-SafeAt m c.direct_streaming s (rw e at h) in
        let (_, finished) = finish_pending_mode-IsSafe m c1 refl safe in
        let taken = take_snapshot-IsSafe now m (finish_pending_mode m c1) finished in ground arith
  ]

  direct_control_round-IsSafe : (c : Controller F) → IsSafe c → IsSafe (direct_control_round c).0
  unfolding direct_control_round
  direct_control_round-IsSafe c h = ground (arith, fl.nought-eq, nought-IsDrive F ⦃fl = fl⦄)

  reliable_resend_round-IsSafe :
      (now : ℕ) (c : Controller F) → IsSafe c → IsSafe (reliable_resend_round now c).0
  unfolding reliable_resend_round
  reliable_resend_round-IsSafe now c h = ground (arith, fl.nought-eq, nought-IsDrive F ⦃fl = fl⦄)

  -- Every step of the controller keeps it safe.
  pub react-IsSafe : (e : Event F) (c : Controller F) → IsSafe c → IsSafe (react e c).0
  unfolding react attach detach mode_remote_end stop_begin reset_begin center neutral
      pause_direct_stream heartbeat_round on_message
  react-IsSafe attached c h = h
  react-IsSafe detached c h = refl
  react-IsSafe (message now sid (hello m)) c h = on_hello-IsSafe sid m c h
  react-IsSafe (message now sid (status m)) c h = on_status-IsSafe now m c h
  react-IsSafe (message now sid unhandled) c h = h
  react-IsSafe (mode_begin now) c h = mode_remote_begin-IsSafe now c h
  react-IsSafe (mode_end seq) c h = neutralize-IsSafe _ (λ _. refl)
  react-IsSafe stop_pressed c h = neutralize-IsSafe _ (λ _. refl)
  react-IsSafe (stop_sent now) c h = send_reliable-IsSafe _ _ now c h
  react-IsSafe reset_pressed c h = ground (arith, fl.nought-eq, nought-IsDrive F ⦃fl = fl⦄)
  react-IsSafe (reset_sent now) c h = send_reliable-IsSafe _ _ now c h
  react-IsSafe (throttle_set v) c h = set_throttle-IsSafe v c h
  react-IsSafe (steering_set v) c h = set_steering-IsSafe v c h
  react-IsSafe (throttle_nudged d) c h = nudge_throttle-IsSafe d c h
  react-IsSafe (steering_nudged d) c h = nudge_steering-IsSafe d c h
  react-IsSafe (drive_set t r) c h = set_drive-IsSafe t r c h
  react-IsSafe centered c h = ground (arith, fl.nought-eq, nought-IsDrive F ⦃fl = fl⦄)
  react-IsSafe neutralized c h = ground (arith, fl.nought-eq, nought-IsDrive F ⦃fl = fl⦄)
  react-IsSafe paused c h = neutralize-IsSafe _ (λ _. refl)
  react-IsSafe resumed c h = resume-IsSafe c h
  react-IsSafe heartbeat_due c h = ground arith
  react-IsSafe direct_control_due c h = direct_control_round-IsSafe c h
  react-IsSafe (resend_due now) c h = reliable_resend_round-IsSafe now c h

  -- From a safe controller, such as a new one, every series of events leads to a safe one: there is no
  -- session and the stream is shut, or the desired values are finite and within [-1, 1], and are zero
  -- unless the stream is armed.
  pub run-IsSafe : (es : List (Event F)) (c : Controller F) → IsSafe c → IsSafe (run es c).0
  unfolding run
  run-IsSafe [] c h = h
  run-IsSafe (e ∷ es) c h = run-IsSafe es (react e c).0 (react-IsSafe e c h)
