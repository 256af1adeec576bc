-- ===== src/Bridge/Controller/Tracking.antt =====
-- controller.py: the outstanding command, whatever happens to the controller.
use hanium_smart_parkin.Base.{
  ℕ, ◌≤◌, ◌<◌, ◌≡◌, inl, inr, Bool, false, Option, none, some, List, [], ◌∷◌, arith, Option-cases,
}
use hanium_smart_parkin.Base.Float.{Float}
use hanium_smart_parkin.Bridge.Wire.{
  hello, status, unhandled, Hello, Status, Body, hello_ack, heartbeat, set_mode, direct_control,
  stop, reset,
}
use hanium_smart_parkin.Bridge.Session.{
  new_session, VehicleSession, OutstandingCommand, consume_terminal_result, record_snapshot,
}
use hanium_smart_parkin.Bridge.Controller.State.{
  Controller, Command, set_mode_remote, stop_command, reset_command, send_reliable,
  neutralize_desired, max_resends,
}
use hanium_smart_parkin.Bridge.Controller.Inbound.{
  on_message, on_hello, on_status, finish_pending_mode, take_snapshot, gate_stream, count_encoder,
}
use hanium_smart_parkin.Bridge.Controller.Intents.{
  attach, detach, mode_remote_begin, mode_remote_end, stop_begin, reset_begin, set_throttle,
  set_steering, set_drive, nudge_throttle, nudge_steering, center, neutral, pause_direct_stream,
  resume_direct_stream,
}
use hanium_smart_parkin.Bridge.Controller.Loops.{
  heartbeat_round, direct_control_round, reliable_resend_round,
}
use hanium_smart_parkin.Bridge.Controller.Run.{
  Event, attached, detached, message, mode_begin, mode_end, stop_pressed, reset_pressed, stop_sent,
  reset_sent, throttle_set, steering_set, throttle_nudged, steering_nudged, drive_set, centered,
  neutralized, paused, resumed, heartbeat_due, direct_control_due, resend_due, react, run, kept,
}

module _ {F : Type 0} where
  -- The body of a reliable command with the given number.
  abbrev pub IsReliable : Body F → ℕ → Type 0
  IsReliable (set_mode n _) seq = n ≡ seq
  IsReliable (stop n _) seq = n ≡ seq
  IsReliable (reset n) seq = n ≡ seq
  IsReliable (hello_ack _ _ _ _ _) seq = ⊥
  IsReliable (heartbeat _) seq = ⊥
  IsReliable (direct_control _ _ _) seq = ⊥

  abbrev pub TrackedAt : VehicleSession F → Option (OutstandingCommand F) → Type 0
  TrackedAt s none = Unit
  TrackedAt s (some cmd) =
      (cmd.seq < s.seq_counter)
      × (cmd.resends ≤ max_resends)
      × (cmd.message.session_id ≡ s.session_id)
      × IsReliable cmd.message.body cmd.seq

  -- The outstanding command bears a number that this session has given out, has been sent again at
  -- most `RELIABLE_MAX_RESENDS` times, and is a message of this session with that number in it.
  abbrev pub Tracked : Option (VehicleSession F) → Type 0
  Tracked none = Unit
  Tracked (some s) = TrackedAt s s.outstanding

  abbrev pub IsTracked : Controller F → Type 0
  IsTracked c = Tracked c.session

  send_reliable-IsTracked :
      (cmd : Command) (b : Bool) (now : ℕ) (c : Controller F)
      → IsTracked c
      → IsTracked (send_reliable cmd b now c).0
  unfolding send_reliable
  send_reliable-IsTracked set_mode_remote b now c h = ground arith
  send_reliable-IsTracked stop_command b now c h = ground arith
  send_reliable-IsTracked reset_command b now c h = ground arith

module _ {F : Type 0} ⦃fl : Float F⦄ where
  neutralize-IsTracked : (c : Controller F) → IsTracked c → IsTracked (neutralize_desired c)
  unfolding neutralize_desired
  neutralize-IsTracked c h = ground arith

  mode_remote_begin-IsTracked :
      (now : ℕ) (c : Controller F) → IsTracked c → IsTracked (mode_remote_begin now c).0
  unfolding mode_remote_begin
  mode_remote_begin-IsTracked now c h =
      ground (arith, send_reliable-IsTracked set_mode_remote false now c h)

  setters-IsTracked :
      (t r : F) (c : Controller F)
      → IsTracked c
      → IsTracked (kept c (set_throttle t c)).0
        × IsTracked (kept c (set_steering r c)).0
        × IsTracked (kept c (set_drive t r c)).0
  unfolding set_throttle set_steering set_drive
  setters-IsTracked t r c h = (ground arith, ground arith, ground arith)

  nudges-IsTracked :
      (d : F) (c : Controller F)
      → IsTracked c
      → IsTracked (kept c (nudge_throttle d c)).0 × IsTracked (kept c (nudge_steering d c)).0
  unfolding nudge_throttle nudge_steering
  nudges-IsTracked d c h = (ground arith, ground arith)

  on_hello-IsTracked :
      (sid : ℕ) (m : Hello) (c : Controller F) → IsTracked c → IsTracked (on_hello sid m c).0
  unfolding on_hello new_session
  on_hello-IsTracked sid m c h = ground arith

  finish_pending_mode-IsTracked :
      (m : Status F) (c : Controller F) → IsTracked c → IsTracked (finish_pending_mode m c)
  unfolding finish_pending_mode
  finish_pending_mode-IsTracked m c h = ground arith

  take_snapshot-IsTracked :
      (now : ℕ) (m : Status F) (c : Controller F)
      → IsTracked c
      → IsTracked (take_snapshot now m c).0
  unfolding take_snapshot gate_stream count_encoder record_snapshot
  take_snapshot-IsTracked now m c h = ground arith

  consume-TrackedAt :
      (m : Status F) (s : VehicleSession F)
      → Tracked (some s)
      → Tracked (some (consume_terminal_result m s))
  unfolding consume_terminal_result
  consume-TrackedAt m s h = ground arith

  on_status-IsTracked :
      (now : ℕ) (m : Status F) (c : Controller F) → IsTracked c → IsTracked (on_status now m c).0
  unfolding on_status
  on_status-IsTracked now m c h = elim (Option-cases c.session) [
    | inl e ↦ ground arith
    | inr (s, e) ↦
        let c1 = record c { session = some (consume_terminal_result m s) } in
        let finished = finish_pending_mode-IsTracked m c1 (consume-TrackedAt m s (rw e at h)) in
        let taken = take_snapshot-IsTracked now m (finish_pending_mode m c1) finished in
        ground arith
  ]

  direct_control_round-IsTracked :
      (c : Controller F) → IsTracked c → IsTracked (direct_control_round c).0
  unfolding direct_control_round
  direct_control_round-IsTracked c h = ground arith

  reliable_resend_round-IsTracked :
      (now : ℕ) (c : Controller F) → IsTracked c → IsTracked (reliable_resend_round now c).0
  unfolding reliable_resend_round
  reliable_resend_round-IsTracked now c h = ground arith

  pub react-IsTracked : (e : Event F) (c : Controller F) → IsTracked c → IsTracked (react e c).0
  unfolding react attach detach mode_remote_end stop_begin reset_begin center neutral
      pause_direct_stream resume_direct_stream heartbeat_round on_message
  react-IsTracked attached c h = h
  react-IsTracked detached c h = tt
  react-IsTracked (message now sid (hello m)) c h = on_hello-IsTracked sid m c h
  react-IsTracked (message now sid (status m)) c h = on_status-IsTracked now m c h
  react-IsTracked (message now sid unhandled) c h = h
  react-IsTracked (mode_begin now) c h = mode_remote_begin-IsTracked now c h
  react-IsTracked (mode_end seq) c h = neutralize-IsTracked _ h
  react-IsTracked stop_pressed c h = neutralize-IsTracked _ h
  react-IsTracked (stop_sent now) c h = send_reliable-IsTracked _ _ now c h
  react-IsTracked reset_pressed c h = ground arith
  react-IsTracked (reset_sent now) c h = send_reliable-IsTracked _ _ now c h
  react-IsTracked (throttle_set v) c h = (setters-IsTracked v v c h).0
  react-IsTracked (steering_set v) c h = (setters-IsTracked v v c h).1
  react-IsTracked (throttle_nudged d) c h = (nudges-IsTracked d c h).0
  react-IsTracked (steering_nudged d) c h = (nudges-IsTracked d c h).1
  react-IsTracked (drive_set t r) c h = (setters-IsTracked t r c h).2
  react-IsTracked centered c h = ground arith
  react-IsTracked neutralized c h = ground arith
  react-IsTracked paused c h = neutralize-IsTracked _ h
  react-IsTracked resumed c h = ground arith
  react-IsTracked heartbeat_due c h = ground arith
  react-IsTracked direct_control_due c h = direct_control_round-IsTracked c h
  react-IsTracked (resend_due now) c h = reliable_resend_round-IsTracked now c h

  -- From a controller that tracks its command, such as a new one, every series of events leads to one
  -- that does: the outstanding command bears a number that its session has given out, is a message of
  -- that session with that number in it, and has been sent again at most `RELIABLE_MAX_RESENDS` times.
  pub run-IsTracked :
      (es : List (Event F)) (c : Controller F) → IsTracked c → IsTracked (run es c).0
  unfolding run
  run-IsTracked [] c h = h
  run-IsTracked (e ∷ es) c h = run-IsTracked es (react e c).0 (react-IsTracked e c h)
