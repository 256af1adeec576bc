-- ===== src/Host/Hybrid/Calls.antt =====
-- hybrid_control.py and integrated/host/control/auto_host_runner.py: the rounds of the two loops and the
-- calls from outside in any order, one whole round or call at a time.
use hanium_smart_parkin.Base.{true, false, none, List, [], ◌∷◌, ◌++◌}
use hanium_smart_parkin.Base.Float.{Float}
use hanium_smart_parkin.Base.Arithmetic.{Arithmetic}
use hanium_smart_parkin.Host.Model.{Reason, Pose, Waypoint, ControllerConfig}
use hanium_smart_parkin.Host.Mission
use hanium_smart_parkin.Host.HostController
use hanium_smart_parkin.Host.HostController.{HostController}
use hanium_smart_parkin.Host.Hybrid.{
  HybridControlMux, Sent, zeroed, Effect, on_camera_pose, switch_to_manual, set_manual_wire,
  stop_scheduler, manual_round, step, switch_to_auto, stop,
}

-- `scheduler_began` is the beginning of the scheduler's thread, `failed` is a `host.fault` of the session's
-- callbacks, `loaded`, `re_armed` (with the mode accepted anew) and `runner_stopped` are
-- `load_waypoints`, `re_arm` and `stop` of `AutoHostRunner`.
pub data Call (F : Type 0) : Type 0 where
  manual_round_at step_at switched_to_auto stopped : F → Call F
  switched_to_manual re_armed runner_stopped scheduler_began : Call F
  wired : F → F → Call F
  posed : Pose F → Call F
  failed : Reason → Call F
  loaded : List (Waypoint F) → Call F

module _ {F : Type 0} where
  -- `AutoHostRunner.load_waypoints`
  unfoldable pub load_waypoints : List (Waypoint F) → HybridControlMux F → HybridControlMux F
  load_waypoints ws m = record m {
    host = record m.host { mission = Mission.new ws; memory = none };
  }

  -- `AutoHostRunner.stop`, which keeps `direct_control_enabled`
  unfoldable pub stop_runner : HybridControlMux F → Effect F
  unfolding stop_scheduler
  stop_runner m =
      (stop_scheduler (record m { host = HostController.stop m.host }), zeroed ∷ [], false)

module _ {F : Type 0} ⦃fl : Float F⦄ ⦃ar : Arithmetic F⦄ (cfg : ControllerConfig F) where
  unfoldable pub react : Call F → HybridControlMux F → Effect F
  react (manual_round_at now) m = manual_round cfg now m
  react (step_at now) m = step cfg now m
  react (switched_to_auto now) m = switch_to_auto cfg now m
  react (stopped now) m = stop cfg now m
  react switched_to_manual m = switch_to_manual cfg m
  react re_armed m =
      let (h, raised) = HostController.re_arm_auto m.host in (record m { host = h }, [], raised)
  react runner_stopped m = stop_runner m
  react scheduler_began m = (record m { scheduler_begun = true }, [], false)
  react (wired throttle wire) m = (set_manual_wire throttle wire m, [], false)
  react (posed p) m = (on_camera_pose p m, [], false)
  react (failed r) m = (record m { host = HostController.fault r m.host }, [], false)
  react (loaded ws) m =
      (record m { host = record m.host { mission = Mission.new ws; memory = none } }, [], false)

  unfoldable pub run : List (Call F) → HybridControlMux F → HybridControlMux F × List (Sent F)
  run [] m = (m, [])
  run (call ∷ calls) m =
      let (m1, sent, raised) = react call m in let (m2, rest) = run calls m1 in (m2, sent ++ rest)
