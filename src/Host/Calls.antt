-- ===== src/Host/Calls.antt =====
-- host_controller.py: the calls of a driver program, in any order.
use hanium_smart_parkin.Base.{Option, some, List, [], ◌∷◌, ◌++◌}
use hanium_smart_parkin.Base.Float.{Float}
use hanium_smart_parkin.Base.Arithmetic.{Arithmetic}
use hanium_smart_parkin.Host.Model.{Reason, Pose, Waypoint, ControllerConfig}
use hanium_smart_parkin.Host.Mission
use hanium_smart_parkin.Host.Producers.{ManualInput, Payload}
use hanium_smart_parkin.Host.HostController
use hanium_smart_parkin.Host.HostController.{HostController}

-- `re_armed` is the only call that takes back a fault.
pub data Call (F : Type 0) : Type 0 where
  ticked : F → Option (Pose F) → Option (ManualInput F) → Call F
  observed : Pose F → Call F
  armed_auto armed_manual put_down stopped re_armed : Call F
  failed : Reason → Call F
  loaded : List (Waypoint F) → Call F
  restarted : Call F

module _ {F : Type 0} ⦃fl : Float F⦄ ⦃ar : Arithmetic F⦄ (cfg : ControllerConfig F) where
  unfoldable pub react : Call F → HostController F → HostController F × List (Payload F)
  react (ticked now obs input) h =
      let (h', r) = HostController.tick cfg now obs input h in (h', r.payload ∷ [])
  react (observed p) h = (HostController.observe (some p) h, [])
  react armed_auto h = ((HostController.arm_auto h).0, [])
  react armed_manual h = ((HostController.arm_manual h).0, [])
  react put_down h = ((HostController.disarm h).0, [])
  react stopped h = (HostController.stop h, [])
  react re_armed h = ((HostController.re_arm_auto h).0, [])
  react (failed r) h = (HostController.fault r h, [])
  react (loaded ws) h = (record h { mission = Mission.load ws h.mission }, [])
  react restarted h = (record h { mission = Mission.reset h.mission }, [])

  unfoldable pub run : List (Call F) → HostController F → HostController F × List (Payload F)
  run [] h = (h, [])
  run (call ∷ calls) h =
      let (h1, ps) = react call h in let (h2, qs) = run calls h1 in (h2, ps ++ qs)
