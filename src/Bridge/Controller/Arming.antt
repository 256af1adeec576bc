-- ===== src/Bridge/Controller/Arming.antt =====
-- controller.py: what arms the stream, and what a pressed STOP shuts out.
use hanium_smart_parkin.Base.{ℕ, ◌≡◌, ◌⊎◌, inl, inr, true, false, some, arith, Option-cases}
use hanium_smart_parkin.Base.Float.{Float}
use hanium_smart_parkin.Bridge.Wire.{
  hello, status, unhandled, Status, accepted, remote_direct, ready, waiting,
}
use hanium_smart_parkin.Bridge.Session.{consume_terminal_result}
use hanium_smart_parkin.Bridge.Controller.State.{
  Controller, send_reliable, latest_state, latest_mode,
}
use hanium_smart_parkin.Bridge.Controller.Inbound.{
  on_message, on_hello, on_status, finish_pending_mode, take_snapshot, gate_stream, count_encoder,
  result_matches_seq,
}
use hanium_smart_parkin.Bridge.Controller.Intents.{
  attach, detach, mode_remote_begin, mode_remote_end, stop_begin, reset_begin, set_throttle,
  set_steering, set_drive, nudge_throttle, nudge_steering, center, neutral, pause_direct_stream,
  resume_direct_stream,
}
use hanium_smart_parkin.Bridge.Controller.Loops.{
  heartbeat_round, direct_control_round, reliable_resend_round,
}
use hanium_smart_parkin.Bridge.Controller.Run.{
  Event, attached, detached, message, mode_begin, mode_end, stop_pressed, reset_pressed, stop_sent,
  reset_sent, throttle_set, steering_set, throttle_nudged, steering_nudged, drive_set, centered,
  neutralized, paused, resumed, heartbeat_due, direct_control_due, resend_due, react,
}

module _ {F : Type 0} ⦃fl : Float F⦄ where
  -- The three grounds on which an event may open the stream.
  abbrev pub MayArm : Event F → Controller F → Type 0
  MayArm (mode_begin _) c = (latest_state c ≡ ready) × (latest_mode c ≡ remote_direct)
  MayArm resumed c =
      ((latest_state c ≡ ready) ⊎ (latest_state c ≡ waiting)) × (latest_mode c ≡ remote_direct)
  MayArm (message _ _ (status m)) c =
      (n : ℕ) × (c.pending_remote_mode_seq ≡ some n)
      × (m.command_result ≡ accepted)
      × (m.mode ≡ remote_direct)
      × (result_matches_seq m n ≡ true)
  MayArm _ c = ⊥

  streaming-finish_pending_mode :
      (m : Status F) (c : Controller F)
      → c.direct_streaming ≡ false
      → (finish_pending_mode m c).direct_streaming ≡ true
      → (n : ℕ) × (c.pending_remote_mode_seq ≡ some n)
        × (m.command_result ≡ accepted)
        × (m.mode ≡ remote_direct)
        × (result_matches_seq m n ≡ true)
  unfolding finish_pending_mode
  streaming-finish_pending_mode m c off on = ground arith

  streaming-take_snapshot :
      (now : ℕ) (m : Status F) (c : Controller F)
      → (take_snapshot now m c).0.direct_streaming ≡ true
      → c.direct_streaming ≡ true
  unfolding take_snapshot gate_stream count_encoder
  streaming-take_snapshot now m c on = ground arith

  status-MayArm :
      (now : ℕ) (m : Status F) (c : Controller F)
      → c.direct_streaming ≡ false
      → (on_status now m c).0.direct_streaming ≡ true
      → MayArm (message now 0 (status m)) c
  unfolding on_status
  status-MayArm now m c off on = elim (Option-cases c.session) [
    | inl e ↦ ground arith
    | inr (s, e) ↦
        let c1 = record c { session = some (consume_terminal_result m s) } in
        ground (
          arith,
          streaming-finish_pending_mode m c1 off,
          streaming-take_snapshot now m (finish_pending_mode m c1),
        )
  ]

  -- The stream opens only on the driver's request at a car that is READY in REMOTE_DIRECT, on a
  -- resumption at a READY or WAITING one, or on the acceptance of the pending SET_MODE by its number.
  pub armed_by :
      (e : Event F) (c : Controller F)
      → c.direct_streaming ≡ false
      → (react e c).0.direct_streaming ≡ true
      → MayArm e c
  unfolding react attach detach mode_remote_begin mode_remote_end stop_begin reset_begin center
      neutral pause_direct_stream resume_direct_stream heartbeat_round on_message send_reliable
      set_throttle set_steering set_drive nudge_throttle nudge_steering on_hello
      direct_control_round reliable_resend_round
  armed_by attached c off on = ground arith
  armed_by detached c off on = ground arith
  armed_by (message now sid (hello m)) c off on = ground arith
  armed_by (message now sid (status m)) c off on = status-MayArm now m c off on
  armed_by (message now sid unhandled) c off on = ground arith
  armed_by (mode_begin now) c off on = ground arith
  armed_by (mode_end seq) c off on = ground arith
  armed_by stop_pressed c off on = ground arith
  armed_by (stop_sent now) c off on = ground arith
  armed_by reset_pressed c off on = ground arith
  armed_by (reset_sent now) c off on = ground arith
  armed_by (throttle_set v) c off on = ground arith
  armed_by (steering_set v) c off on = ground arith
  armed_by (throttle_nudged d) c off on = ground arith
  armed_by (steering_nudged d) c off on = ground arith
  armed_by (drive_set t r) c off on = ground arith
  armed_by centered c off on = ground arith
  armed_by neutralized c off on = ground arith
  armed_by paused c off on = ground arith
  armed_by resumed c off on = ground arith
  armed_by heartbeat_due c off on = ground arith
  armed_by direct_control_due c off on = ground arith
  armed_by (resend_due now) c off on = ground arith
