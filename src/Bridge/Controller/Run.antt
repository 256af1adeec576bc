-- ===== src/Bridge/Controller/Run.antt =====
-- controller.py: everything that can happen to the controller, in any order. A command of the driver
-- comes in the parts between which other tasks may run, so a run contains every schedule of them.
use hanium_smart_parkin.Base.{ℕ, true, false, Option, none, some, List, [], ◌∷◌, ◌++◌}
use hanium_smart_parkin.Base.Float.{Float}
use hanium_smart_parkin.Bridge.Wire.{Inbound}
use hanium_smart_parkin.Bridge.Controller.State.{
  Controller, Effect, stop_command, reset_command, send_reliable,
}
use hanium_smart_parkin.Bridge.Controller.Inbound.{on_message}
use hanium_smart_parkin.Bridge.Controller.Intents.{
  attach, detach, mode_remote_begin, mode_remote_end, stop_begin, reset_begin, set_throttle,
  set_steering, set_drive, nudge_throttle, nudge_steering, center, neutral, pause_direct_stream,
  resume_direct_stream,
}
use hanium_smart_parkin.Bridge.Controller.Loops.{
  heartbeat_round, direct_control_round, reliable_resend_round,
}

-- A number is the clock; of `message` the second one is the session id drawn, and the number of
-- `mode_end` is that of the SET_MODE sent.
pub data Event (F : Type 0) : Type 0 where
  attached detached : Event F
  message : ℕ → ℕ → Inbound F → Event F
  mode_begin mode_end : ℕ → Event F
  stop_pressed reset_pressed : Event F
  stop_sent reset_sent : ℕ → Event F
  throttle_set steering_set throttle_nudged steering_nudged : F → Event F
  drive_set : F → F → Event F
  centered neutralized paused resumed : Event F
  heartbeat_due direct_control_due : Event F
  resend_due : ℕ → Event F

module _ {F : Type 0} where
  -- A setter that raises leaves the controller as it was.
  abbrev pub kept : Controller F → Option (Controller F) → Controller F × List (Effect F)
  kept c none = (c, [])
  kept c (some c') = (c', [])

  abbrev pub sent : Controller F × List (Effect F) × Option ℕ → Controller F × List (Effect F)
  sent (c, es, _) = (c, es)

module _ {F : Type 0} ⦃fl : Float F⦄ where
  unfoldable pub react : Event F → Controller F → Controller F × List (Effect F)
  react attached c = attach c
  react detached c = detach c
  react (message now sid m) c = on_message now sid m c
  react (mode_begin now) c = sent (mode_remote_begin now c)
  react (mode_end seq) c = (mode_remote_end seq c, [])
  react stop_pressed c = ((stop_begin c).0, [])
  react (stop_sent now) c = sent (send_reliable stop_command true now c)
  react reset_pressed c = ((reset_begin c).0, [])
  react (reset_sent now) c = sent (send_reliable reset_command false now c)
  react (throttle_set v) c = kept c (set_throttle v c)
  react (steering_set v) c = kept c (set_steering v c)
  react (throttle_nudged d) c = kept c (nudge_throttle d c)
  react (steering_nudged d) c = kept c (nudge_steering d c)
  react (drive_set t s) c = kept c (set_drive t s c)
  react centered c = (center c, [])
  react neutralized c = (neutral c, [])
  react paused c = (pause_direct_stream c, [])
  react resumed c = (resume_direct_stream c, [])
  react heartbeat_due c = heartbeat_round c
  react direct_control_due c = direct_control_round c
  react (resend_due now) c = reliable_resend_round now c

  -- A series of events: the last state, and what was done to the outside, in order.
  unfoldable pub run : List (Event F) → Controller F → Controller F × List (Effect F)
  run [] c = (c, [])
  run (e ∷ es) c = let (c', out) = react e c in let (last, rest) = run es c' in (last, out ++ rest)
