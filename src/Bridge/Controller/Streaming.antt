-- ===== src/Bridge/Controller/Streaming.antt =====
-- controller.py: what is sent to the car as DIRECT_CONTROL, and when.
use hanium_smart_parkin.Base.{
  ℕ, ◌≡◌, inl, inr, Bool, true, Option, none, some, List, [], ◌∷◌, arith, Option-cases, All,
  All-append,
}
use hanium_smart_parkin.Base.Float.{
  Float, IsWithin, IsWithin-of_not_beyond, clamp-IsUnit, round4-IsUnit, max_f, min_f,
}
use hanium_smart_parkin.Bridge.Wire.{
  build_hello_ack, build_direct_control, frame, hello, status, unhandled, Hello, Status, Frame,
  Body, hello_ack, heartbeat, set_mode, direct_control, stop, reset,
}
use hanium_smart_parkin.Bridge.Controller.State.{
  Controller, Effect, transmit, publish, connection, crash, Command, set_mode_remote, stop_command,
  reset_command, send_reliable,
}
use hanium_smart_parkin.Bridge.Controller.Inbound.{on_message, on_hello, on_status, take_snapshot}
use hanium_smart_parkin.Bridge.Controller.Intents.{attach, detach, mode_remote_begin}
use hanium_smart_parkin.Bridge.Controller.Loops.{
  heartbeat_round, direct_control_round, reliable_resend_round,
}
use hanium_smart_parkin.Bridge.Controller.Run.{
  Event, attached, detached, message, mode_begin, stop_sent, reset_sent, throttle_set, steering_set,
  throttle_nudged, steering_nudged, drive_set, heartbeat_due, direct_control_due, resend_due, react,
  run, kept,
}
use hanium_smart_parkin.Bridge.Controller.Safety.{IsSafe, IsDrive, react-IsSafe}
use hanium_smart_parkin.Bridge.Controller.Tracking.{IsTracked, IsReliable, react-IsTracked}

module _ {F : Type 0} ⦃fl : Float F⦄ where
  -- A DIRECT_CONTROL has its two values within [-1, 1].
  abbrev pub InUnit : Body F → Type 0
  InUnit (direct_control _ t s) = IsWithin fl.neg_one fl.one t × IsWithin fl.neg_one fl.one s
  InUnit (set_mode _ _) = Unit
  InUnit (stop _ _) = Unit
  InUnit (reset _) = Unit
  InUnit (hello_ack _ _ _ _ _) = Unit
  InUnit (heartbeat _) = Unit

  -- No ProtocolError leaves a round, and what is sent is in range.
  abbrev pub IsSound : Effect F → Type 0
  IsSound (transmit m) = InUnit m.body
  IsSound (publish _ _ _) = Unit
  IsSound (connection _) = Unit
  IsSound crash = ⊥

  reliable-InUnit : (b : Body F) (n : ℕ) → IsReliable b n → InUnit b
  reliable-InUnit (set_mode _ _) n h = tt
  reliable-InUnit (stop _ _) n h = tt
  reliable-InUnit (reset _) n h = tt
  reliable-InUnit (hello_ack _ _ _ _ _) n h = tt
  reliable-InUnit (heartbeat _) n h = tt
  reliable-InUnit (direct_control _ _ _) n h = absurd h

  send_reliable-IsSound :
      (cmd : Command) (b : Bool) (now : ℕ) (c : Controller F)
      → All IsSound (send_reliable cmd b now c).1
  unfolding send_reliable
  send_reliable-IsSound set_mode_remote b now c = ground arith
  send_reliable-IsSound stop_command b now c = ground arith
  send_reliable-IsSound reset_command b now c = ground arith

  mode_remote_begin-IsSound : (now : ℕ) (c : Controller F) → All IsSound (mode_remote_begin now c).1
  unfolding mode_remote_begin
  mode_remote_begin-IsSound now c = ground arith

  on_hello-IsSound : (sid : ℕ) (m : Hello) (c : Controller F) → All IsSound (on_hello sid m c).1
  unfolding on_hello build_hello_ack
  on_hello-IsSound sid m c = ground arith

  on_status-IsSound :
      (now : ℕ) (m : Status F) (c : Controller F) → All IsSound (on_status now m c).1
  unfolding on_status take_snapshot
  on_status-IsSound now m c = ground arith

  kept-IsSound : (c : Controller F) (r : Option (Controller F)) → All IsSound (kept c r).1
  kept-IsSound c none = tt
  kept-IsSound c (some _) = tt

  bounded_eq :
      (x : F)
      → fl.is_finite x ≡ true
      → let b = max_f fl.neg_one (min_f fl.one x) in fl.eq b b ≡ true
  bounded_eq x f = ground (
    arith,
    fl.finite_eq x f,
    fl.finite_eq fl.one fl.one-finite,
    fl.finite_eq fl.neg_one fl.neg_one-finite,
  )

  bounded-IsWithin :
      (x : F)
      → fl.is_finite x ≡ true
      → IsWithin fl.neg_one fl.one (fl.round4 (max_f fl.neg_one (min_f fl.one x)))
  bounded-IsWithin x f =
      let b = max_f fl.neg_one (min_f fl.one x) in
      let u = round4-IsUnit b (clamp-IsUnit x) in
      IsWithin-of_not_beyond fl.neg_one fl.one (fl.round4 b)
        (fl.finite_eq fl.neg_one fl.neg_one-finite) (fl.finite_eq fl.one fl.one-finite)
        (fl.round4_eq b (bounded_eq x f)) u.0 u.1

  build_direct_control-InUnit :
      (sid n : ℕ) (t s : F)
      → IsDrive t
      → IsDrive s
      → (m : Frame F) × (build_direct_control sid n t s ≡ some m) × InUnit m.body
  unfolding build_direct_control
  build_direct_control-InUnit sid n t s ht hs =
      let bounded = λ (x : F). max_f fl.neg_one (min_f fl.one x) in
      (
        frame sid (direct_control n (fl.round4 (bounded t)) (fl.round4 (bounded s))),
        ground (arith, ht.1, hs.1),
        (bounded-IsWithin t ht.1, bounded-IsWithin s hs.1),
      )

  direct_control_round-IsSound :
      (c : Controller F) → IsSafe c → All IsSound (direct_control_round c).1
  unfolding direct_control_round
  direct_control_round-IsSound c h = elim (Option-cases c.session) [
    | inl e ↦ ground arith
    | inr (s, e) ↦
        let drive = rw e at h in
        let built =
          build_direct_control-InUnit s.session_id s.control_seq_counter s.desired_throttle
            s.desired_steering drive.0 drive.1 in
        ground arith
  ]

  reliable_resend_round-IsSound :
      (now : ℕ) (c : Controller F) → IsTracked c → All IsSound (reliable_resend_round now c).1
  unfolding reliable_resend_round
  reliable_resend_round-IsSound now c h = elim (Option-cases c.session) [
    | inl e ↦ ground arith
    | inr (s, e) ↦ elim (Option-cases s.outstanding) [
      | inl e' ↦ ground arith
      | inr (cmd, e') ↦ ground (arith, reliable-InUnit cmd.message.body cmd.seq)
    ]
  ]

  react-IsSound :
      (e : Event F) (c : Controller F) → IsSafe c → IsTracked c → All IsSound (react e c).1
  unfolding react attach detach heartbeat_round on_message
  react-IsSound attached c h k = (tt, tt)
  react-IsSound detached c h k = (tt, tt)
  react-IsSound (message now sid (hello m)) c h k = on_hello-IsSound sid m c
  react-IsSound (message now sid (status m)) c h k = on_status-IsSound now m c
  react-IsSound (message now sid unhandled) c h k = tt
  react-IsSound (mode_begin now) c h k = mode_remote_begin-IsSound now c
  react-IsSound (stop_sent now) c h k = send_reliable-IsSound _ _ now c
  react-IsSound (reset_sent now) c h k = send_reliable-IsSound _ _ now c
  react-IsSound (throttle_set v) c h k = kept-IsSound c _
  react-IsSound (steering_set v) c h k = kept-IsSound c _
  react-IsSound (throttle_nudged d) c h k = kept-IsSound c _
  react-IsSound (steering_nudged d) c h k = kept-IsSound c _
  react-IsSound (drive_set t r) c h k = kept-IsSound c _
  react-IsSound heartbeat_due c h k = ground arith
  react-IsSound direct_control_due c h k = direct_control_round-IsSound c h
  react-IsSound (resend_due now) c h k = reliable_resend_round-IsSound now c k
  react-IsSound _ c h k = tt

  -- From a safe controller that tracks its command, such as a new one, in every series of events no
  -- round of DIRECT_CONTROL ends by the ProtocolError of its clamp, and every DIRECT_CONTROL that is sent
  -- has a throttle and a steering that compare as at least -1 and at most 1, so that neither is NaN.
  pub run-IsSound :
      (es : List (Event F)) (c : Controller F) → IsSafe c → IsTracked c → All IsSound (run es c).1
  unfolding run
  run-IsSound [] c h k = tt
  run-IsSound (e ∷ es) c h k =
      All-append IsSound (react e c).1 (run es (react e c).0).1 (react-IsSound e c h k)
        (run-IsSound es (react e c).0 (react-IsSafe e c h) (react-IsTracked e c k))
