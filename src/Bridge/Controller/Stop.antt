-- ===== src/Bridge/Controller/Stop.antt =====
-- controller.py: a pressed STOP, and what may still overtake it.
use hanium_smart_parkin.Base.{
  ℕ, ◌≡◌, refl, inl, inr, Bool, false, Option, none, some, List, [], ◌∷◌, arith, Option-cases,
  Bool-cases, All, All-append,
}
use hanium_smart_parkin.Base.Float.{Float}
use hanium_smart_parkin.Bridge.Wire.{
  build_hello_ack, hello, status, unhandled, Hello, Status, Body, hello_ack, heartbeat, set_mode,
  direct_control, stop, reset,
}
use hanium_smart_parkin.Bridge.Controller.State.{
  Controller, Effect, transmit, publish, connection, crash, Command, set_mode_remote, stop_command,
  reset_command, send_reliable,
}
use hanium_smart_parkin.Bridge.Controller.Inbound.{
  on_message, on_hello, on_status, finish_pending_mode, take_snapshot, gate_stream, count_encoder,
}
use hanium_smart_parkin.Bridge.Controller.Intents.{
  attach, detach, mode_remote_begin, stop_begin, reset_begin, set_throttle, set_steering, set_drive,
  nudge_throttle, nudge_steering, center, neutral, pause_direct_stream,
}
use hanium_smart_parkin.Bridge.Controller.Loops.{
  heartbeat_round, direct_control_round, reliable_resend_round,
}
use hanium_smart_parkin.Bridge.Controller.Run.{
  Event, attached, detached, message, mode_begin, mode_end, stop_pressed, stop_sent, reset_sent,
  throttle_set, steering_set, throttle_nudged, steering_nudged, drive_set, resumed, heartbeat_due,
  direct_control_due, resend_due, react, run, kept,
}
use hanium_smart_parkin.Bridge.Controller.Tracking.{IsTracked, IsReliable, react-IsTracked}
use hanium_smart_parkin.Bridge.Controller.Arming.{MayArm, armed_by}

module _ {F : Type 0} where
  abbrev pub IsDisarmed : Controller F → Type 0
  IsDisarmed c = (c.direct_streaming ≡ false) × (c.pending_remote_mode_seq ≡ none)

  -- The events that do not ask for the stream. (`mode_end` ends a request that was begun.)
  abbrev pub IsPassive : Event F → Type 0
  IsPassive (mode_begin _) = ⊥
  IsPassive (mode_end _) = ⊥
  IsPassive resumed = ⊥
  IsPassive _ = Unit

  abbrev pub NotDirectBody : Body F → Type 0
  NotDirectBody (direct_control _ _ _) = ⊥
  NotDirectBody (set_mode _ _) = Unit
  NotDirectBody (stop _ _) = Unit
  NotDirectBody (reset _) = Unit
  NotDirectBody (hello_ack _ _ _ _ _) = Unit
  NotDirectBody (heartbeat _) = Unit

  abbrev pub NotDirect : Effect F → Type 0
  NotDirect (transmit m) = NotDirectBody m.body
  NotDirect (publish _ _ _) = Unit
  NotDirect (connection _) = Unit
  NotDirect crash = Unit

  reliable-NotDirect : (b : Body F) (n : ℕ) → IsReliable b n → NotDirectBody b
  reliable-NotDirect (set_mode _ _) n h = tt
  reliable-NotDirect (stop _ _) n h = tt
  reliable-NotDirect (reset _) n h = tt
  reliable-NotDirect (hello_ack _ _ _ _ _) n h = tt
  reliable-NotDirect (heartbeat _) n h = tt
  reliable-NotDirect (direct_control _ _ _) n h = absurd h

  send_reliable-NotDirect :
      (cmd : Command) (b : Bool) (now : ℕ) (c : Controller F)
      → All NotDirect (send_reliable cmd b now c).1
  unfolding send_reliable
  send_reliable-NotDirect set_mode_remote b now c = ground arith
  send_reliable-NotDirect stop_command b now c = ground arith
  send_reliable-NotDirect reset_command b now c = ground arith

  kept-NotDirect : (c : Controller F) (r : Option (Controller F)) → All NotDirect (kept c r).1
  kept-NotDirect c none = tt
  kept-NotDirect c (some _) = tt

module _ {F : Type 0} ⦃fl : Float F⦄ where
  mode_remote_begin-NotDirect :
      (now : ℕ) (c : Controller F) → All NotDirect (mode_remote_begin now c).1
  unfolding mode_remote_begin
  mode_remote_begin-NotDirect now c = ground arith

  on_hello-NotDirect : (sid : ℕ) (m : Hello) (c : Controller F) → All NotDirect (on_hello sid m c).1
  unfolding on_hello build_hello_ack
  on_hello-NotDirect sid m c = ground arith

  on_status-NotDirect :
      (now : ℕ) (m : Status F) (c : Controller F) → All NotDirect (on_status now m c).1
  unfolding on_status take_snapshot
  on_status-NotDirect now m c = ground arith

  resend-NotDirect :
      (now : ℕ) (c : Controller F) → IsTracked c → All NotDirect (reliable_resend_round now c).1
  unfolding reliable_resend_round
  resend-NotDirect now c h = elim (Option-cases c.session) [
    | inl e ↦ ground arith
    | inr (s, e) ↦ elim (Option-cases s.outstanding) [
      | inl e' ↦ ground arith
      | inr (cmd, e') ↦ ground (arith, reliable-NotDirect cmd.message.body cmd.seq)
    ]
  ]

  -- With the stream shut no step sends a DIRECT_CONTROL.
  react-NotDirect :
      (e : Event F) (c : Controller F)
      → IsTracked c
      → c.direct_streaming ≡ false
      → All NotDirect (react e c).1
  unfolding react attach detach heartbeat_round on_message direct_control_round
  react-NotDirect attached c k off = (tt, tt)
  react-NotDirect detached c k off = (tt, tt)
  react-NotDirect (message now sid (hello m)) c k off = on_hello-NotDirect sid m c
  react-NotDirect (message now sid (status m)) c k off = on_status-NotDirect now m c
  react-NotDirect (message now sid unhandled) c k off = tt
  react-NotDirect (mode_begin now) c k off = mode_remote_begin-NotDirect now c
  react-NotDirect (stop_sent now) c k off = send_reliable-NotDirect _ _ now c
  react-NotDirect (reset_sent now) c k off = send_reliable-NotDirect _ _ now c
  react-NotDirect (throttle_set v) c k off = kept-NotDirect c _
  react-NotDirect (steering_set v) c k off = kept-NotDirect c _
  react-NotDirect (throttle_nudged d) c k off = kept-NotDirect c _
  react-NotDirect (steering_nudged d) c k off = kept-NotDirect c _
  react-NotDirect (drive_set t r) c k off = kept-NotDirect c _
  react-NotDirect heartbeat_due c k off = ground arith
  react-NotDirect direct_control_due c k off = ground arith
  react-NotDirect (resend_due now) c k off = resend-NotDirect now c k
  react-NotDirect _ c k off = tt

  status_pending :
      (now : ℕ) (m : Status F) (c : Controller F)
      → c.pending_remote_mode_seq ≡ none
      → (on_status now m c).0.pending_remote_mode_seq ≡ none
  unfolding on_status finish_pending_mode take_snapshot gate_stream count_encoder
  status_pending now m c p = ground arith

  -- No step but those that ask for the stream leaves a request pending.
  react_pending :
      (e : Event F) (c : Controller F)
      → IsPassive e
      → c.pending_remote_mode_seq ≡ none
      → (react e c).0.pending_remote_mode_seq ≡ none
  unfolding react attach detach stop_begin reset_begin center neutral pause_direct_stream
      heartbeat_round on_message send_reliable set_throttle set_steering set_drive nudge_throttle
      nudge_steering on_hello direct_control_round reliable_resend_round
  react_pending attached c h p = p
  react_pending detached c h p = refl
  react_pending (message now sid (hello m)) c h p = ground arith
  react_pending (message now sid (status m)) c h p = status_pending now m c p
  react_pending (message now sid unhandled) c h p = p
  react_pending (mode_begin now) c h p = absurd h
  react_pending (mode_end seq) c h p = absurd h
  react_pending resumed c h p = absurd h
  react_pending _ c h p = ground arith

  passive-unarmed :
      (e : Event F) (c : Controller F)
      → IsPassive e
      → c.pending_remote_mode_seq ≡ none
      → MayArm e c
      → ⊥
  passive-unarmed (message now sid (status m)) c h p a = cc (p, a.1)
  passive-unarmed (message now sid (hello m)) c h p a = a
  passive-unarmed (message now sid unhandled) c h p a = a
  passive-unarmed (mode_begin now) c h p a = absurd h
  passive-unarmed (mode_end seq) c h p a = absurd h
  passive-unarmed resumed c h p a = absurd h
  passive-unarmed _ c h p a = a

  react-IsDisarmed :
      (e : Event F) (c : Controller F) → IsPassive e → IsDisarmed c → IsDisarmed (react e c).0
  react-IsDisarmed e c h (off, p) = (
    elim (Bool-cases (react e c).0.direct_streaming) [
      | inl on ↦ absurd (passive-unarmed e c h p (armed_by e c off on))
      | inr still ↦ still
    ],
    react_pending e c h p,
  )

  pub stop_pressed-IsDisarmed : (c : Controller F) → IsDisarmed (react stop_pressed c).0
  unfolding react stop_begin
  stop_pressed-IsDisarmed c = ground arith

  run-NotDirect :
      (es : List (Event F)) (c : Controller F)
      → IsTracked c
      → IsDisarmed c
      → All IsPassive es
      → All NotDirect (run es c).1
  unfolding run
  run-NotDirect [] c k d h = tt
  run-NotDirect (e ∷ es) c k d h =
      All-append NotDirect (react e c).1 (run es (react e c).0).1 (react-NotDirect e c k d.0)
        (run-NotDirect es (react e c).0 (react-IsTracked e c k) (react-IsDisarmed e c h.0 d) h.1)

  -- Once STOP is pressed, no series of events sends a DIRECT_CONTROL, whatever the car reports,
  -- unless the driver asks for the mode or the stream again, or a request for the mode that was
  -- already being sent comes to its end.
  pub stop_silences :
      (es : List (Event F)) (c : Controller F)
      → IsTracked c
      → All IsPassive es
      → All NotDirect (run (stop_pressed ∷ es) c).1
  unfolding run react stop_begin
  stop_silences es c k h =
      run-NotDirect es _ (react-IsTracked stop_pressed c k) (stop_pressed-IsDisarmed c) h
