-- ===== src/Host/Pursuit.antt =====
-- integrated/host/controller/pose_controller.py: `PoseWaypointController`, which steers towards one
-- waypoint. Its state is the last heading error and the time of it.
pub mod Gates
pub mod Range
use hanium_smart_parkin.Base.{ℕ, Bool, true, false, not, Option, none, some, if◌then◌else◌}
use hanium_smart_parkin.Base.Float.{Float, is_nought, max_f, le}
use hanium_smart_parkin.Base.Arithmetic.{Arithmetic}
use hanium_smart_parkin.Host.Model.{
  hold, drive, brake, align, Reason, no_reason, pose_invalid, no_heading, pose_stale,
  drive_not_allowed, heading_out_of_tolerance, Pose, Waypoint, ControlMode, ControlCommand,
  ControllerConfig, brake_radius_cm, clamp, or_nought, wrap180, bearing_deg, heading_error_deg,
}

-- `_prev_err_rad` and `_prev_time`, which are set and cleared together.
abbrev pub Memory : Type 0 → Type 0
Memory F = Option (F × F)

module _ {F : Type 0} ⦃fl : Float F⦄ ⦃ar : Arithmetic F⦄ (cfg : ControllerConfig F) where
  -- A command that stops the car.
  unfoldable pub stopped : ControlMode → Bool → F → F → F → Reason → ControlCommand F
  stopped mode done distance err bearing reason = record {
    throttle = fl.nought;
    steering = fl.nought;
    mode = mode;
    arrived = done;
    distance_error_cm = distance;
    heading_error_deg = err;
    target_bearing_deg = bearing;
    reason = reason;
    logical_steering = fl.nought;
  }

  -- `_halt`, which also forgets the last error
  unfoldable pub halt : F → F → F → Reason → ControlCommand F × Memory F
  unfolding stopped
  halt distance err bearing reason = (stopped hold false distance err bearing reason, none)

  -- `_steering`: the logical and the wire value
  unfoldable pub steering : F → F → F × F
  steering err_rad derr =
      let raw = fl.add (ar.mul cfg.steer_kp err_rad) (ar.mul cfg.steer_kd derr) in
      let norm = ar.div raw (ar.radians cfg.steer_normalize_deg) in
      let logical = clamp norm fl.neg_one fl.one in
      let wire = clamp (ar.mul cfg.wire_steering_sign logical) fl.neg_one fl.one in
      (or_nought (fl.round4 logical), or_nought (fl.round4 wire))

  -- `_throttle`
  unfoldable pub throttle : Waypoint F → F → F → F
  throttle w distance err =
      let turn_scale =
        clamp (ar.sub fl.one (ar.div (ar.abs err) (max_f cfg.turn_slowdown_deg (ar.literal 1 6))))
          cfg.turn_throttle_floor fl.one in
      let remaining = max_f (ar.sub distance cfg.stop_distance_cm) fl.nought in
      let approach_scale =
        clamp (ar.div remaining (max_f cfg.slow_radius_cm (ar.literal 1 6))) fl.nought fl.one in
      let desired = ar.mul (ar.mul (max_f w.speed_cm_s fl.nought) turn_scale) approach_scale in
      if le desired fl.nought
      then fl.nought
      else fl.round4 (
          clamp (max_f (ar.mul desired cfg.throttle_per_cm_s) cfg.min_move_throttle) fl.nought
            cfg.max_throttle)

  -- `_needs_alignment`
  unfoldable pub needs_alignment : Waypoint F → F → Bool
  needs_alignment w heading = if not w.heading_required then false else elim w.target_heading_deg [
    | none ↦ false
    | some target ↦ fl.lt w.heading_tolerance_deg (ar.abs (wrap180 (ar.sub target heading)))
  ]

  -- `_derivative`, whose new memory is the given error and time
  unfoldable pub derivative : F → F → Memory F → F
  derivative err_rad now none = fl.nought
  derivative err_rad now (some (prev_err, prev_t)) =
      let dt = ar.sub now prev_t in
      if le dt (ar.literal 1 3) then fl.nought else ar.div (ar.sub err_rad prev_err) dt

  target_or_nought : Option F → F
  target_or_nought none = fl.nought
  target_or_nought (some t) = or_nought t

  -- The part of `compute` for a pose that passed the gates, with the memory it leaves.
  unfoldable pub pursue : Waypoint F → Bool → F → Memory F → F → F → F → ControlCommand F × Memory F
  unfolding halt target_or_nought stopped
  pursue w allow_drive now mem distance bearing heading =
      let err = heading_error_deg bearing heading in
      let err_rad = ar.radians err in
      let derr = derivative err_rad now mem in
      let mem' : Memory F = some (err_rad, now) in
      let (logical, wire) = steering err_rad derr in
      let thr = throttle w distance err in
      if not allow_drive
      then halt distance err bearing drive_not_allowed
      else (if le distance (brake_radius_cm cfg w.position_tolerance_cm)
          then (if needs_alignment w heading
              then (
                stopped align false distance
                    (wrap180 (ar.sub (target_or_nought w.target_heading_deg) heading)) bearing
                    heading_out_of_tolerance,
                mem',
              )
              else (stopped ControlMode.arrived true distance err bearing Reason.arrived, none))
          else (
            record {
              throttle = thr;
              steering = wire;
              mode = if fl.lt fl.nought thr then drive else brake;
              arrived = false;
              distance_error_cm = distance;
              heading_error_deg = err;
              target_bearing_deg = bearing;
              reason = no_reason;
              logical_steering = logical;
            },
            mem',
          ))

  unfoldable pub compute : Pose F → Waypoint F → Bool → F → Memory F → ControlCommand F × Memory F
  unfolding halt
  compute pose w allow_drive now mem =
      let distance =
        ar.div (ar.hypot (ar.sub w.x_mm pose.x_mm) (ar.sub w.y_mm pose.y_mm)) (ar.literal 10 0) in
      let bearing = bearing_deg pose.x_mm pose.y_mm w.x_mm w.y_mm in
      if not pose.valid
      then halt distance fl.nought bearing pose_invalid
      else elim pose.heading_deg [
        | none ↦ halt distance fl.nought bearing no_heading
        | some heading ↦
            if fl.lt cfg.max_pose_age_s (ar.sub now pose.timestamp)
            then halt distance fl.nought bearing pose_stale
            else pursue w allow_drive now mem distance bearing heading
      ]
