-- ===== src/Host/Model.antt =====
-- integrated/host/controller/models.py, config.py and geometry.py.
use hanium_smart_parkin.Base.{ℕ, Bool, ◌&&◌, Option, if◌then◌else◌}
use hanium_smart_parkin.Base.Float.{Float, is_nought}
use hanium_smart_parkin.Base.Arithmetic.{Arithmetic}

pub data ControlMode : Type 0 where
  hold drive brake align arrived : ControlMode

pub data MissionStatus : Type 0 where
  empty running replan_required done parked : MissionStatus

-- The reasons that a command gives and that a fault keeps; `custom` is any other text.
pub data Reason : Type 0 where
  no_reason pose_invalid no_heading pose_stale drive_not_allowed : Reason
  heading_out_of_tolerance arrived manual no_manual_input no_target no_pose : Reason
  disarmed_state faulted_state stop_reason fault_reason : Reason
  mission_reason : MissionStatus → Reason
  custom : ℕ → Reason

pub record Pose (F : Type 0) : Type 0 where
  pub x_mm : F
  pub y_mm : F
  pub heading_deg : Option F
  pub timestamp : F
  pub valid : Bool

-- Without the fields for routing and debugging, which the controller does not read.
pub record Waypoint (F : Type 0) : Type 0 where
  pub x_mm : F
  pub y_mm : F
  pub target_heading_deg : Option F
  pub speed_cm_s : F
  pub position_tolerance_cm : F
  pub heading_tolerance_deg : F
  pub heading_required : Bool
  pub is_final : Bool

pub record ControlCommand (F : Type 0) : Type 0 where
  pub throttle : F
  pub steering : F
  pub mode : ControlMode
  pub arrived : Bool
  pub distance_error_cm : F
  pub heading_error_deg : F
  pub target_bearing_deg : F
  pub reason : Reason
  pub logical_steering : F

pub record ControllerConfig (F : Type 0) : Type 0 where
  pub steer_kp : F
  pub steer_kd : F
  pub steer_normalize_deg : F
  pub wire_steering_sign : F
  pub throttle_per_cm_s : F
  pub min_move_throttle : F
  pub max_throttle : F
  pub turn_slowdown_deg : F
  pub turn_throttle_floor : F
  pub slow_radius_cm : F
  pub stop_distance_cm : F
  pub allow_reverse : Bool
  pub max_pose_age_s : F

module _ {F : Type 0} ⦃fl : Float F⦄ where
  -- `ControlCommand.is_stopped`
  abbrev pub is_stopped : ControlCommand F → Bool
  is_stopped c = is_nought c.throttle && is_nought c.steering

  -- `ControllerConfig.brake_radius_cm`
  abbrev pub brake_radius_cm : ControllerConfig F → F → F
  brake_radius_cm cfg tolerance = fl.add tolerance cfg.stop_distance_cm

  -- `geometry.clamp`
  abbrev pub clamp : F → F → F → F
  clamp value lo hi = if fl.lt value lo then lo else if fl.lt hi value then hi else value

  -- `x or 0.0`
  abbrev pub or_nought : F → F
  or_nought x = if is_nought x then fl.nought else x

module _ {F : Type 0} ⦃fl : Float F⦄ ⦃ar : Arithmetic F⦄ where
  unfoldable pub wrap180 : F → F
  wrap180 deg =
      ar.sub (ar.rem (fl.add deg (ar.literal 180 0)) (ar.literal 360 0)) (ar.literal 180 0)

  unfoldable pub bearing_deg : F → F → F → F → F
  bearing_deg x y x' y' = ar.degrees (ar.atan2 (ar.sub y' y) (ar.sub x' x))

  unfoldable pub heading_error_deg : F → F → F
  heading_error_deg bearing heading = wrap180 (ar.sub bearing heading)
