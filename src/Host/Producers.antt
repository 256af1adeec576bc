-- ===== src/Host/Producers.antt =====
-- integrated/host/host_control/producers.py, pose_source.py and direct_control.py: where commands
-- come from, the last observed pose, and the sender of DIRECT_CONTROL.
pub mod Range
use hanium_smart_parkin.Base.{
  ℕ, ◌+◌, Bool, true, false, not, ◌&&◌, Option, none, some, if◌then◌else◌,
}
use hanium_smart_parkin.Base.Float.{Float}
use hanium_smart_parkin.Base.Arithmetic.{Arithmetic}
use hanium_smart_parkin.Host.Model.{
  hold, drive, Reason, manual, no_manual_input, no_target, no_pose, Pose, Waypoint, ControlCommand,
  ControllerConfig, clamp, or_nought,
}
use hanium_smart_parkin.Host.Pursuit.{Memory, compute}

-- `steering` is the driver's sign: +1 is left.
pub record ManualInput (F : Type 0) : Type 0 where
  pub throttle : F
  pub steering : F

-- The message that the sink gets.
pub record Payload (F : Type 0) : Type 0 where
  pub control_seq : ℕ
  pub throttle : F
  pub steering : F

-- `CameraPoseSource`: the pose keeps the time at which it was observed.
pub record CameraPoseSource (F : Type 0) : Type 0 where
  pub pose : Option (Pose F)
  pub had_observation : Bool

module _ {F : Type 0} where
  -- `CameraPoseSource()`, which is also what `clear` leaves
  unfoldable pub no_observation : CameraPoseSource F
  no_observation = record { pose = none; had_observation = false }

  unfoldable pub observe_pose : Pose F → CameraPoseSource F → CameraPoseSource F
  observe_pose p s = record { pose = some p; had_observation = true }

module _ {F : Type 0} ⦃fl : Float F⦄ where
  unfoldable pub zero_command : Reason → ControlCommand F
  zero_command r = record {
    throttle = fl.nought;
    steering = fl.nought;
    mode = hold;
    arrived = false;
    distance_error_cm = fl.nought;
    heading_error_deg = fl.nought;
    target_bearing_deg = fl.nought;
    reason = r;
    logical_steering = fl.nought;
  }

  -- `DirectControlSender._send` from the last number, with the next one
  unfoldable pub send : ℕ → F → F → ℕ × Payload F
  send seq throttle steering = (
    seq + 1,
    record { control_seq = seq + 1; throttle = fl.round4 throttle; steering = fl.round4 steering },
  )

module _ {F : Type 0} ⦃fl : Float F⦄ ⦃ar : Arithmetic F⦄ (cfg : ControllerConfig F) where
  -- The throttle of `ManualControlProducer.compute` before it is rounded.
  manual_throttle : F → F
  manual_throttle value =
      let unit = clamp value fl.neg_one fl.one in
      let forward = if not cfg.allow_reverse && fl.lt unit fl.nought then fl.nought else unit in
      clamp forward (if not cfg.allow_reverse then fl.nought else ar.neg cfg.max_throttle)
        cfg.max_throttle

  -- `ManualControlProducer.compute`
  unfoldable pub compute_manual : Option (ManualInput F) → ControlCommand F
  unfolding manual_throttle zero_command
  compute_manual none = zero_command no_manual_input
  compute_manual (some input) =
      let thr = or_nought (fl.round4 (manual_throttle input.throttle)) in
      let logical = clamp input.steering fl.neg_one fl.one in
      let wire = clamp (ar.mul cfg.wire_steering_sign logical) fl.neg_one fl.one in
      record {
        throttle = thr;
        steering = or_nought (fl.round4 wire);
        mode = if fl.lt fl.nought thr then drive else hold;
        arrived = false;
        distance_error_cm = fl.nought;
        heading_error_deg = fl.nought;
        target_bearing_deg = fl.nought;
        reason = manual;
        logical_steering = or_nought (fl.round4 logical);
      }

  -- `AutoControlProducer.compute`
  unfoldable pub compute_auto :
      Option (Pose F) → Option (Waypoint F) → Bool → F → Memory F → ControlCommand F × Memory F
  unfolding zero_command
  compute_auto pose none allow now mem = (zero_command no_target, mem)
  compute_auto none (some w) allow now mem = (zero_command no_pose, mem)
  compute_auto (some p) (some w) allow now mem = compute cfg p w allow now mem
