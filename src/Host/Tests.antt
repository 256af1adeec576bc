-- ===== src/Host/Tests.antt =====
-- Runs of the host controller at concrete inputs.
use hanium_smart_parkin.Base.{
  ℕ, ◌+◌, ◌≡◌, refl, ◌⊎◌, Bool, true, false, none, some, List, [], ◌∷◌, length, All, arith,
}
use hanium_smart_parkin.Base.Int.{pos, negsuc}
use hanium_smart_parkin.Base.Decimal.{Decimal, decimal, not_finite, decimal_float}
use hanium_smart_parkin.Base.DecimalArithmetic.{num, decimal_arithmetic}
use hanium_smart_parkin.Host.Model.{
  ControllerConfig, ControlCommand, Pose, Waypoint, drive, arrived, no_reason, heading_error_deg,
  wrap180, bearing_deg,
}
use hanium_smart_parkin.Host.Authority.{faulted, auto_host}
use hanium_smart_parkin.Host.Authority
use hanium_smart_parkin.Host.Mission
use hanium_smart_parkin.Host.Mission.Progress.{IsAfter, notify_each, route-IsAfter}
use hanium_smart_parkin.Host.Pursuit.{compute, pursue, throttle, needs_alignment}
use hanium_smart_parkin.Host.Pursuit.Gates.{Meets, compute-Meets}
use hanium_smart_parkin.Host.Producers.{zero_command}
use hanium_smart_parkin.Host.HostController
use hanium_smart_parkin.Host.HostController.{HostController, tick}
use hanium_smart_parkin.Host.HostController.Latch.{IsZero, run-faulted}
use hanium_smart_parkin.Host.HostController.Permit.{MayDrive, tick-MayDrive}
use hanium_smart_parkin.Host.HostController.Stale.{stale_faults}
use hanium_smart_parkin.Host.HostController.Range.{IsNumbered, IsSendable, run-IsNumbered}
use hanium_smart_parkin.Host.Calls.{ticked, observed, armed_auto, run}

-- A configuration that does not allow reversing
abbrev pub test_config : ControllerConfig Decimal
test_config = record {
  steer_kp = num 1;
  steer_kd = decimal (pos 1000);
  steer_normalize_deg = num 30;
  wire_steering_sign = decimal (negsuc 9999);
  throttle_per_cm_s = decimal (pos 200);
  min_move_throttle = decimal (pos 1500);
  max_throttle = decimal (pos 5000);
  turn_slowdown_deg = num 90;
  turn_throttle_floor = decimal (pos 3500);
  slow_radius_cm = num 30;
  stop_distance_cm = num 3;
  allow_reverse = false;
  max_pose_age_s = decimal (pos 5000);
}

abbrev waypoint : ℕ → Bool → Waypoint Decimal
waypoint x final = record {
  x_mm = num x;
  y_mm = num 0;
  target_heading_deg = none;
  speed_cm_s = num 15;
  position_tolerance_cm = num 8;
  heading_tolerance_deg = num 15;
  heading_required = false;
  is_final = final;
}

abbrev pub pose_at : ℕ → ℕ → Pose Decimal
pose_at x t = record {
  x_mm = num x;
  y_mm = num 0;
  heading_deg = some (num 0);
  timestamp = num t;
  valid = true;
}

abbrev pub route : List (Waypoint Decimal)
route = waypoint 1000 false ∷ waypoint 2000 true ∷ []

abbrev pub driving : HostController Decimal
driving = (HostController.arm_auto (HostController.new (Mission.new route) true)).0

abbrev pub faulty : HostController Decimal
faulty = HostController.stop driving

drives : (compute test_config (pose_at 0 5) (waypoint 1000 true) true (num 5) none).0.mode ≡ drive
unfolding compute pursue throttle heading_error_deg wrap180 bearing_deg
drives = refl

arrives :
    (compute test_config (pose_at 990 5) (waypoint 1000 true) true (num 5) none).0.mode ≡ arrived
unfolding compute pursue needs_alignment
arrives = refl

compute-Meets_example :
    let r = compute test_config (pose_at 0 5) (waypoint 1000 true) true (num 5) none in
    Meets test_config (pose_at 0 5) (waypoint 1000 true) true (num 5) r r.0.mode
compute-Meets_example =
    compute-Meets test_config (pose_at 0 5) (waypoint 1000 true) true (num 5) none

tick-MayDrive_example :
    let (h', t) = tick test_config (num 5) (some (pose_at 0 5)) none driving in
    IsZero t.payload ⊎ MayDrive test_config auto_host none (num 5) driving h'
unfolding HostController.arm_auto HostController.new Authority.arm_auto
tick-MayDrive_example = tick-MayDrive test_config (num 5) (some (pose_at 0 5)) none driving

stale_faults_example :
    let (h', t) = tick test_config (num 9) (some (pose_at 0 5)) none driving in
    (h'.authority.state ≡ faulted) × IsZero t.payload × (h'.mission ≡ driving.mission)
unfolding HostController.arm_auto HostController.new Authority.arm_auto Authority.new Mission.new
    Mission.current_target
stale_faults_example =
    stale_faults test_config (num 9) (pose_at 0 5) none driving (waypoint 1000 false) refl refl refl
      refl

run-faulted_example :
    let (h', ps) =
      run test_config (armed_auto ∷ ticked (num 5) (some (pose_at 0 5)) none ∷ []) faulty in
    (h'.authority ≡ faulty.authority) × All IsZero ps
unfolding HostController.stop HostController.arm_auto HostController.new Authority.stop
    Authority.fault Authority.arm_auto Authority.new
run-faulted_example =
    run-faulted test_config (armed_auto ∷ ticked (num 5) (some (pose_at 0 5)) none ∷ []) faulty
      (refl, (refl, tt)) refl

run-IsNumbered_example :
    let calls =
      ticked (num 5) (some (pose_at 0 5)) none
      ∷ observed (pose_at 1 6)
      ∷ ticked (num 6) none none
      ∷ [] in
    let (h', ps) = run test_config calls driving in
    (h'.control_seq ≡ driving.control_seq + length ps)
    × (length ps ≡ 2)
    × IsNumbered driving.control_seq ps
    × All (IsSendable test_config (refl, refl, refl) refl) ps
run-IsNumbered_example =
    run-IsNumbered test_config (refl, refl, refl) refl
      (ticked (num 5) (some (pose_at 0 5)) none
        ∷ observed (pose_at 1 6)
        ∷ ticked (num 6) none none
        ∷ [])
      driving

-- A NaN of the driver is sent as it is.
nan_is_sent :
    (tick test_config
      (num 5)
      none
      (some (record { throttle = not_finite; steering = num 0 }))
      (HostController.arm_manual
        (HostController.new (Mission.new route) true)).0).1.payload.throttle
    ≡ not_finite
unfolding tick HostController.observe HostController.arm_manual Authority.arm_manual
    HostController.new HostController.finish hanium_smart_parkin.Host.Producers.compute_manual
nan_is_sent = refl

abbrev arrival : ControlCommand Decimal
arrival = record (zero_command no_reason) { mode = arrived; arrived = true }

route-IsAfter_example :
    IsAfter 2 2 (Mission.new route) (notify_each (arrival ∷ arrival ∷ []) (Mission.new route))
route-IsAfter_example =
    route-IsAfter route (arrival ∷ arrival ∷ []) (refl, (refl, tt)) (omega arith)
