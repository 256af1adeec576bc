-- ===== src/Host/HostController.antt =====
-- integrated/host/host_control/host_controller.py: `HostController`, one tick of which sends exactly
-- one DIRECT_CONTROL, a zero one included. The configuration is a parameter.
pub mod Latch
pub mod Permit
pub mod Stale
pub mod Range
pub mod Stays
use hanium_smart_parkin.Base.{
  ℕ, Bool, true, false, ◌&&◌, Option, none, some, is_some, if◌then◌else◌,
}
use hanium_smart_parkin.Base.Float.{Float}
use hanium_smart_parkin.Base.Arithmetic.{Arithmetic}
use hanium_smart_parkin.Host.Model.{
  Reason, pose_invalid, no_heading, pose_stale, no_reason, disarmed_state, faulted_state,
  mission_reason, Pose, Waypoint, ControlCommand, ControllerConfig, is_stopped,
}
use hanium_smart_parkin.Host.Pursuit.{Memory}
use hanium_smart_parkin.Host.Authority
use hanium_smart_parkin.Host.Authority.{
  Authority, ControlAuthority, disarmed, manual, auto_host, faulted,
}
use hanium_smart_parkin.Host.Mission.{HostWaypointMission, is_active, current_target, notify_result}
use hanium_smart_parkin.Host.Producers.{
  ManualInput, Payload, CameraPoseSource, no_observation, observe_pose, zero_command, send,
  compute_manual, compute_auto,
}

pub record HostController (F : Type 0) : Type 0 where
  pub authority : ControlAuthority
  pub pose_source : CameraPoseSource F
  pub mission : HostWaypointMission F
  -- the error memory of `auto_producer.controller`
  pub memory : Memory F
  -- `sender.control_seq`
  pub control_seq : ℕ
  pub fault_on_stale : Bool

-- What a tick returns, but for the two states, which are those of the new controller.
pub record TickResult (F : Type 0) : Type 0 where
  pub command : ControlCommand F
  pub payload : Payload F

-- `_STALE_REASONS`
abbrev pub is_stale_reason : Reason → Bool
is_stale_reason pose_invalid = true
is_stale_reason no_heading = true
is_stale_reason pose_stale = true
is_stale_reason _ = false

-- `fault_reason or state.value`
abbrev stop_text : Reason → Authority → Reason
stop_text no_reason faulted = faulted_state
stop_text no_reason _ = disarmed_state
stop_text r _ = r

unfoldable pub new : {F : Type 0} → HostWaypointMission F → Bool → HostController F
unfolding Authority.new no_observation
new mission fault_on_stale = record {
  authority = Authority.new;
  pose_source = no_observation;
  mission = mission;
  memory = none;
  control_seq = 0;
  fault_on_stale = fault_on_stale;
}

module _ {F : Type 0} where
  unfoldable pub observe : Option (Pose F) → HostController F → HostController F
  unfolding observe_pose
  observe none h = h
  observe (some p) h = record h { pose_source = observe_pose p h.pose_source }

module _ {F : Type 0} ⦃fl : Float F⦄ where
  -- `_finish`
  unfoldable pub finish :
      ControlCommand F → Bool → HostController F → HostController F × TickResult F
  unfolding send
  finish cmd zero h =
      let (seq, payload) =
        send h.control_seq (if zero then fl.nought else cmd.throttle)
          (if zero then fl.nought else cmd.steering) in
      (record h { control_seq = seq }, record { command = cmd; payload = payload })

module _ {F : Type 0} ⦃fl : Float F⦄ ⦃ar : Arithmetic F⦄ (cfg : ControllerConfig F) where
  -- The tick behind a computed command of the autopilot.
  unfoldable pub settle :
      Bool → ControlCommand F × Memory F → HostController F → HostController F × TickResult F
  unfolding zero_command
  settle has_pose (cmd, mem) h =
      let h' = record h { memory = mem } in
      if has_pose && (is_stale_reason cmd.reason && h.fault_on_stale)
      then finish (zero_command cmd.reason) true
          (record h' { authority = Authority.fault cmd.reason h.authority })
      else finish cmd (is_stopped cmd) (record h' { mission = notify_result cmd h.mission })

  auto_tick : F → HostController F → Option (Waypoint F) → HostController F × TickResult F
  unfolding zero_command
  auto_tick now h none = finish (zero_command (mission_reason h.mission.status)) true h
  auto_tick now h (some target) =
      settle (is_some h.pose_source.pose)
        (compute_auto cfg h.pose_source.pose (some target) true now h.memory) h

  tick_in :
      Authority → F → Option (ManualInput F) → HostController F → HostController F × TickResult F
  unfolding zero_command auto_tick
  tick_in disarmed now input h =
      finish (zero_command (stop_text h.authority.fault_reason disarmed)) true h
  tick_in faulted now input h =
      finish (zero_command (stop_text h.authority.fault_reason faulted)) true h
  tick_in manual now input h = let cmd = compute_manual cfg input in finish cmd (is_stopped cmd) h
  -- A target that is there implies an active mission, which the source tests besides.
  tick_in auto_host now input h =
      if is_active h.mission.status
      then auto_tick now h (current_target h.mission)
      else finish (zero_command (mission_reason h.mission.status)) true h

  unfoldable pub tick :
      F
      → Option (Pose F)
      → Option (ManualInput F)
      → HostController F
      → HostController F × TickResult F
  unfolding tick_in
  tick now observation input h =
      let h' = observe observation h in tick_in h'.authority.state now input h'

module _ {F : Type 0} where
  -- The calls for the driver, with a flag that says whether an `AuthorityError` was raised.
  abbrev with_authority : HostController F → Option ControlAuthority → HostController F × Bool
  with_authority h none = (h, true)
  with_authority h (some a) = (record h { authority = a }, false)

  -- The error memory is cleared first, and stays so if the authority refuses.
  unfoldable pub arm_auto : HostController F → HostController F × Bool
  arm_auto h = with_authority (record h { memory = none }) (Authority.arm_auto h.authority)

  unfoldable pub arm_manual : HostController F → HostController F × Bool
  arm_manual h = with_authority h (Authority.arm_manual h.authority)

  unfoldable pub disarm : HostController F → HostController F × Bool
  disarm h = with_authority h (Authority.disarm h.authority)

  unfoldable pub stop : HostController F → HostController F
  stop h = record h { authority = Authority.stop h.authority }

  unfoldable pub fault : Reason → HostController F → HostController F
  fault r h = record h { authority = Authority.fault r h.authority }

  unfoldable pub re_arm_auto : HostController F → HostController F × Bool
  re_arm_auto h = with_authority (record h { memory = none }) (Authority.re_arm_auto h.authority)
