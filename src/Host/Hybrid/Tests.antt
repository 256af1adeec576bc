-- ===== src/Host/Hybrid/Tests.antt =====
-- Runs of the hybrid control at concrete inputs.
use hanium_smart_parkin.Base.{◌≡◌, refl, true, List, [], ◌∷◌, All}
use hanium_smart_parkin.Base.Decimal.{Decimal, decimal_float}
use hanium_smart_parkin.Base.DecimalArithmetic.{num, decimal_arithmetic}
use hanium_smart_parkin.Host.Authority
use hanium_smart_parkin.Host.HostController
use hanium_smart_parkin.Host.Tests.{test_config, pose_at, driving, faulty}
use hanium_smart_parkin.Host.Hybrid
use hanium_smart_parkin.Host.Hybrid.{HybridControlMux, auto_host, manual_wasd, switch_to_manual}
use hanium_smart_parkin.Host.Hybrid.Calls
use hanium_smart_parkin.Host.Hybrid.Calls.{
  manual_round_at, step_at, switched_to_auto, stopped, switched_to_manual, wired, posed,
  scheduler_began, Call, run,
}
use hanium_smart_parkin.Host.Hybrid.Prompt.{IsSole, run-IsSole}
use hanium_smart_parkin.Host.Hybrid.Resume.{IsWaiting, IsOfDriver, run-Waits}
use hanium_smart_parkin.Host.Hybrid.Locked.{Rests, run-locked}

abbrev mux : HybridControlMux Decimal
mux = Hybrid.new test_config driving true

abbrev taken : HybridControlMux Decimal
taken = (switch_to_manual test_config (record mux { scheduler_begun = true })).0

-- The driver takes the car, steers it, gives it back, and the next pose starts the autopilot.
abbrev calls : List (Call Decimal)
calls =
    scheduler_began
    ∷ switched_to_manual
    ∷ wired (num 1) (num 0)
    ∷ manual_round_at (num 5)
    ∷ switched_to_auto (num 6)
    ∷ step_at (num 6)
    ∷ posed (pose_at 0 7)
    ∷ scheduler_began
    ∷ step_at (num 7)
    ∷ []

abbrev calls_without_pose : List (Call Decimal)
calls_without_pose =
    wired (num 1) (num 0)
    ∷ manual_round_at (num 5)
    ∷ switched_to_auto (num 6)
    ∷ step_at (num 6)
    ∷ []

abbrev calls_in_fault : List (Call Decimal)
calls_in_fault =
    switched_to_manual ∷ switched_to_auto (num 6) ∷ posed (pose_at 0 7) ∷ step_at (num 7) ∷ []

resumes : (run test_config calls mux).0.mode ≡ auto_host
unfolding run Calls.react Hybrid.new switch_to_manual Hybrid.take_over Hybrid.step
    Hybrid.on_camera_pose Hybrid.switch_to_auto Hybrid.manual_round Hybrid.set_manual_wire
    HostController.disarm Authority.disarm HostController.arm_auto Authority.arm_auto
    HostController.new HostController.arm_manual Authority.arm_manual HostController.tick
    HostController.observe HostController.finish
resumes = refl

-- A stop does not take back a pending resumption: the next pose starts the scheduler.
stop_forgotten :
    (run test_config
      (switched_to_manual ∷ switched_to_auto (num 6) ∷ stopped (num 6) ∷ posed (pose_at 0 7) ∷ [])
      (record mux { scheduler_begun = true })).0.scheduler_running
    ≡ true
unfolding run Calls.react Hybrid.on_camera_pose Hybrid.stop Hybrid.switch_to_auto switch_to_manual
    Hybrid.new HostController.disarm Authority.disarm HostController.arm_auto Authority.arm_auto
    HostController.new HostController.arm_manual Authority.arm_manual HostController.tick
    HostController.observe HostController.finish
stop_forgotten = refl

-- A pose that is followed at once by the driver: the stop of the scheduler is lost.
stop_is_lost :
    let m =
      (run test_config
        (switched_to_manual
          ∷ switched_to_auto (num 6)
          ∷ posed (pose_at 0 7)
          ∷ switched_to_manual
          ∷ [])
        (record mux { scheduler_begun = true })).0 in
    (m.mode ≡ manual_wasd) × (m.scheduler_running ≡ true)
unfolding run Calls.react switch_to_manual Hybrid.on_camera_pose Hybrid.switch_to_auto Hybrid.new
    HostController.disarm Authority.disarm HostController.arm_auto Authority.arm_auto
    HostController.new HostController.arm_manual Authority.arm_manual HostController.tick
    HostController.observe HostController.finish
stop_is_lost = (refl, refl)

run-IsSole_example : IsSole (run test_config calls mux).0
unfolding run Calls.react Hybrid.new HostController.arm_auto Authority.arm_auto HostController.new
run-IsSole_example =
    run-IsSole test_config calls mux
      (refl, (refl, (refl, (refl, (refl, (refl, (refl, (refl, (refl, tt)))))))))
      (
        (λ e. cc),
        (
          (λ e. refl),
          (
            (λ e. cc),
            ((λ e. cc), ((λ e. cc), ((λ e. cc), ((λ e. cc), ((λ e. cc), ((λ e. cc), tt)))))),
          ),
        ),
      )
      ((refl, refl), refl)

run-Waits_example :
    let (m', sent) = run test_config calls_without_pose taken in IsWaiting m' × All IsOfDriver sent
unfolding switch_to_manual Hybrid.new HostController.disarm Authority.disarm HostController.arm_auto
    Authority.arm_auto HostController.new HostController.arm_manual Authority.arm_manual
run-Waits_example =
    run-Waits test_config calls_without_pose taken (refl, (refl, (refl, (refl, tt))))
      (refl, refl, refl)

run-locked_example :
    let m = Hybrid.new test_config faulty true in
    let (m', sent) = run test_config calls_in_fault m in
    (m'.host.authority ≡ m.host.authority) × All Rests sent
unfolding Hybrid.new HostController.stop Authority.stop HostController.arm_auto Authority.arm_auto
    HostController.new
run-locked_example =
    run-locked test_config calls_in_fault (Hybrid.new test_config faulty true)
      (refl, (refl, (refl, (refl, tt)))) refl
