-- ===== src/Host/Hybrid/Prompt.antt =====
-- hybrid_control.py and control_scheduler.py: one owner, as long as no stop of the scheduler is lost.
use hanium_smart_parkin.Base.{
  ◌≡◌, refl, inl, inr, Bool, true, false, some, if_both, ◌∙◌, ◌&&◌, ◌||◌, List, [], ◌∷◌, All,
  Bool-cases, arith,
}
use hanium_smart_parkin.Base.Float.{Float}
use hanium_smart_parkin.Base.Arithmetic.{Arithmetic}
use hanium_smart_parkin.Host.Model.{ControllerConfig, Pose}
use hanium_smart_parkin.Host.Authority
use hanium_smart_parkin.Host.Authority.{Authority}
use hanium_smart_parkin.Host.HostController
use hanium_smart_parkin.Host.HostController.{HostController, TickResult}
use hanium_smart_parkin.Host.HostController.Stays.{disarm-put_down}
use hanium_smart_parkin.Host.Hybrid.{
  HybridMode, auto_host, auto_pending, manual_wasd, HybridControlMux, Effect, is_manual_wasd,
  is_pending, neutral, tick_host, take_over, begin_manual, switch_to_manual, await_pose, give_back,
  quit_manual, switch_to_auto, on_camera_pose, set_manual_wire, by_driver, by_scheduler, halt,
  stop_scheduler, manual_round, step, stop,
}
use hanium_smart_parkin.Host.Hybrid.Calls.{
  Call, manual_round_at, step_at, switched_to_auto, stopped, switched_to_manual, re_armed,
  runner_stopped, scheduler_began, wired, posed, failed, loaded, load_waypoints, stop_runner, react,
  run,
}
use hanium_smart_parkin.Host.Hybrid.Alone.{
  Owned, IsOwned, is_re_arm, stops, is_starting, react-IsOwned,
}

pending_idle :
    (mode : HybridMode) (driver sched : Bool) (a : Authority)
    → is_pending mode ≡ true
    → Owned mode driver sched a
    → sched ≡ false
pending_idle auto_pending d s a e k = k.1
pending_idle auto_host d s a e k = ground arith
pending_idle manual_wasd d s a e k = ground arith

module _ {F : Type 0} where
  -- The mode has its owner, and no other scheduler's thread is left over.
  abbrev pub IsSole : HybridControlMux F → Type 0
  IsSole m = IsOwned m × (m.stray ≡ false)

  abbrev Lone : Effect F → Type 0
  Lone (m, _, _) = m.stray ≡ false

  on_camera_pose_stray :
      (p : Pose F) (m : HybridControlMux F) → IsSole m → (on_camera_pose p m).stray ≡ false
  unfolding on_camera_pose
  on_camera_pose_stray p m k = elim (Bool-cases (is_pending m.mode)) [
    | inr e ↦ rw e k.1
    | inl e ↦ rw (e, k.1, pending_idle m.mode _ _ _ e k.0) refl
  ]

module _ {F : Type 0} ⦃fl : Float F⦄ where
  switch_to_manual_stray :
      (cfg : ControllerConfig F) (m : HybridControlMux F)
      → (switch_to_manual cfg m).0.stray ≡ m.stray
  unfolding switch_to_manual take_over stop_scheduler begin_manual HostController.arm_manual
      Authority.arm_manual Authority.new
  switch_to_manual_stray cfg m = elim (Bool-cases (is_manual_wasd m.mode)) [
    | inl e ↦ rw e refl
    | inr e ↦ rw e (elim (disarm-put_down m.host) [ inl (_, d) ↦ rw d refl | inr d ↦ rw d refl ])
  ]

  quit_manual_stray :
      (m : HybridControlMux F) (t : TickResult F) → (quit_manual (m, t)).0.stray ≡ m.stray
  unfolding quit_manual give_back await_pose HostController.arm_auto Authority.arm_auto
      Authority.new
  quit_manual_stray m t = elim (disarm-put_down m.host) [
    | inl (_, d) ↦ rw d refl
    | inr d ↦ rw d refl
  ]

module _ {F : Type 0} ⦃fl : Float F⦄ ⦃ar : Arithmetic F⦄ (cfg : ControllerConfig F) where
  react_stray :
      (call : Call F) (m : HybridControlMux F) → IsSole m → (react cfg call m).0.stray ≡ false
  unfolding react load_waypoints stop_runner stop_scheduler manual_round step by_driver by_scheduler
      tick_host switch_to_auto set_manual_wire stop halt
  react_stray (manual_round_at now) m k = if_both Lone m.manual_running k.1 k.1
  react_stray (step_at now) m k =
      if_both Lone ((m.scheduler_running && m.scheduler_begun) || m.stray) k.1 k.1
  react_stray (switched_to_auto now) m k =
      if_both Lone (is_manual_wasd m.mode)
        (quit_manual_stray (tick_host cfg now (some neutral) (record m { held = neutral })).0 _
          ∙ k.1)
        k.1
  react_stray (stopped now) m k = elim (Bool-cases (is_manual_wasd m.mode)) [
    | inl e ↦ rw e k.1
    | inr e ↦ rw e k.1
  ]
  react_stray switched_to_manual m k = switch_to_manual_stray cfg m ∙ k.1
  react_stray re_armed m k = k.1
  react_stray runner_stopped m k = k.1
  react_stray scheduler_began m k = k.1
  react_stray (wired throttle wire) m k =
      if_both (λ (n : HybridControlMux F). n.stray ≡ false) (is_manual_wasd m.mode) k.1 k.1
  react_stray (posed o) m k = on_camera_pose_stray o m k
  react_stray (failed r) m k = k.1
  react_stray (loaded ws) m k = k.1

  -- Whenever a call stops the scheduler, the scheduler's thread has begun.
  abbrev pub IsPrompt : List (Call F) → HybridControlMux F → Type 0
  IsPrompt [] m = Unit
  IsPrompt (c ∷ cs) m = ((stops c ≡ true) → is_starting m ≡ false) × IsPrompt cs (react cfg c m).0

  -- While the mode is MANUAL_WASD no scheduler runs and the autopilot is not armed. While it is AUTO_HOST
  -- or AUTO_PENDING the driver's loop does not run and MANUAL is not armed, and in AUTO_PENDING no
  -- scheduler runs either. Every sequence of calls, camera poses, faults and rounds of the loops keeps
  -- this, if none of them re-arms the autopilot, and if no scheduler is stopped between its start and the
  -- beginning of its thread, where the stop would be lost.
  pub run-IsSole :
      (calls : List (Call F)) (m : HybridControlMux F)
      → All (λ c. is_re_arm c ≡ false) calls
      → IsPrompt calls m
      → IsSole m
      → IsSole (run cfg calls m).0
  unfolding run
  run-IsSole [] m a p k = k
  run-IsSole (c ∷ cs) m a p k =
      run-IsSole cs (react cfg c m).0 a.1 p.1 (react-IsOwned cfg c m a.0 p.0 k.0, react_stray c m k)
