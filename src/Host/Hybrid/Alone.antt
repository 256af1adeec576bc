-- ===== src/Host/Hybrid/Alone.antt =====
-- hybrid_control.py: one owner at a time.
use hanium_smart_parkin.Base.{
  ◌&&◌, not, ◌≡◌, refl, ap, ◌∙◌, inl, inr, if_both, Bool, true, false, ◌||◌, Option, none, some,
  Bool-cases, arith,
}
use hanium_smart_parkin.Base.Float.{Float}
use hanium_smart_parkin.Base.Arithmetic.{Arithmetic}
use hanium_smart_parkin.Host.Model.{ControllerConfig, Pose, stop_reason}
use hanium_smart_parkin.Host.Authority
use hanium_smart_parkin.Host.Authority.{Authority, manual, faulted}
use hanium_smart_parkin.Host.Producers.{ManualInput}
use hanium_smart_parkin.Host.HostController
use hanium_smart_parkin.Host.HostController.{HostController, TickResult}
use hanium_smart_parkin.Host.HostController.Stale.{fault-state}
use hanium_smart_parkin.Host.HostController.Stays.{Stays, tick-Stays, disarm-put_down}
use hanium_smart_parkin.Host.Hybrid.{
  HybridMode, auto_host, auto_pending, manual_wasd, HybridControlMux, is_manual_wasd, is_pending,
  neutral, tick_host, Effect, take_over, begin_manual, switch_to_manual, await_pose, give_back,
  quit_manual, switch_to_auto, on_camera_pose, set_manual_wire, by_driver, by_scheduler, halt,
  stop_scheduler, manual_round, step, stop,
}
use hanium_smart_parkin.Host.Hybrid.Calls.{
  Call, manual_round_at, step_at, switched_to_auto, stopped, switched_to_manual, re_armed,
  runner_stopped, wired, posed, failed, loaded, react, load_waypoints, stop_runner, scheduler_began,
}

abbrev is_manual : Authority → Bool
is_manual manual = true
is_manual _ = false

abbrev is_auto : Authority → Bool
is_auto Authority.auto_host = true
is_auto _ = false

-- By the mode, which loops do not run (the driver's, the scheduler) and who is not armed.
abbrev pub Owned : HybridMode → Bool → Bool → Authority → Type 0
Owned auto_host driver sched a = (driver ≡ false) × (is_manual a ≡ false)
Owned auto_pending driver sched a = (driver ≡ false) × (sched ≡ false) × (is_manual a ≡ false)
Owned manual_wasd driver sched a = (sched ≡ false) × (is_auto a ≡ false)

module _ {F : Type 0} where
  abbrev pub IsOwned : HybridControlMux F → Type 0
  IsOwned m = Owned m.mode m.manual_running m.scheduler_running m.host.authority.state

Owned-Stays :
    (mode : HybridMode) (driver sched : Bool) (a a' : Authority)
    → Stays a a'
    → Owned mode driver sched a
    → Owned mode driver sched a'
Owned-Stays auto_host d s a a' (inl e) k = (k.0, ap is_manual e ∙ k.1)
Owned-Stays auto_pending d s a a' (inl e) k = (k.0, k.1, ap is_manual e ∙ k.2)
Owned-Stays manual_wasd d s a a' (inl e) k = (k.0, ap is_auto e ∙ k.1)
Owned-Stays auto_host d s a a' (inr e) k = (k.0, ap is_manual e)
Owned-Stays auto_pending d s a a' (inr e) k = (k.0, k.1, ap is_manual e)
Owned-Stays manual_wasd d s a a' (inr e) k = (k.0, ap is_auto e)

-- The scheduler may stop, and so may both loops, or the driver's.
Owned-halted :
    (mode : HybridMode) (driver sched : Bool) (a : Authority)
    → Owned mode driver sched a
    → Owned mode driver false a × Owned mode false false a × Owned mode false sched a
Owned-halted auto_host d s a k = (k, (refl, k.1), (refl, k.1))
Owned-halted auto_pending d s a k = ((k.0, refl, k.2), (refl, refl, k.2), (refl, k.1, k.2))
Owned-halted manual_wasd d s a k = ((refl, k.1), (refl, k.1), (k.0, k.1))

pending-Owned :
    (mode : HybridMode) (driver sched : Bool) (a : Authority)
    → is_pending mode ≡ true
    → Owned mode driver sched a
    → Owned auto_host driver true a
pending-Owned auto_pending d s a e k = (k.0, k.2)
pending-Owned auto_host d s a e k = ground arith
pending-Owned manual_wasd d s a e k = ground arith

module _ {F : Type 0} where
  -- `re_armed` arms the autopilot whatever the mode is.
  abbrev pub is_re_arm : Call F → Bool
  is_re_arm re_armed = true
  is_re_arm _ = false

  -- The state that an effect leaves.
  abbrev pub Leaves : (HybridControlMux F → Type 0) → Effect F → Type 0
  Leaves P (m, _, _) = P m

  -- The calls that stop the scheduler.
  abbrev pub stops : Call F → Bool
  stops switched_to_manual = true
  stops (stopped _) = true
  stops runner_stopped = true
  stops _ = false

  -- The scheduler has been started, and its thread has not begun.
  abbrev pub is_starting : HybridControlMux F → Bool
  is_starting m = m.scheduler_running && not m.scheduler_begun

  on_camera_pose-IsOwned :
      (p : Pose F) (m : HybridControlMux F) → IsOwned m → IsOwned (on_camera_pose p m)
  unfolding on_camera_pose HostController.observe
  on_camera_pose-IsOwned p m k = elim (Bool-cases (is_pending m.mode)) [
    | inr e ↦ rw e k
    | inl e ↦ rw e (pending-Owned m.mode _ _ _ e k)
  ]

module _ {F : Type 0} ⦃fl : Float F⦄ where
  take_over-IsOwned :
      (cfg : ControllerConfig F) (m : HybridControlMux F)
      → is_starting m ≡ false
      → IsOwned m
      → Leaves IsOwned (take_over cfg (HostController.disarm m.host) (stop_scheduler m))
  unfolding take_over stop_scheduler begin_manual HostController.arm_manual Authority.arm_manual
      Authority.new
  take_over-IsOwned cfg m p k = elim (disarm-put_down m.host) [
    | inl (_, e) ↦ rw (e, p) (Owned-halted m.mode _ _ _ k).0
    | inr e ↦ rw e (p, refl)
  ]

  switch_to_manual-IsOwned :
      (cfg : ControllerConfig F) (m : HybridControlMux F)
      → is_starting m ≡ false
      → IsOwned m
      → Leaves IsOwned (switch_to_manual cfg m)
  unfolding switch_to_manual
  switch_to_manual-IsOwned cfg m p k =
      if_both (Leaves IsOwned) (is_manual_wasd m.mode) k (take_over-IsOwned cfg m p k)

  quit_manual-IsOwned :
      (m : HybridControlMux F) (t : TickResult F)
      → IsOwned m
      → m.scheduler_running ≡ false
      → Leaves IsOwned (quit_manual (m, t))
  unfolding quit_manual give_back await_pose HostController.arm_auto Authority.arm_auto
      Authority.new
  quit_manual-IsOwned m t k idle = elim (disarm-put_down m.host) [
    | inl (_, e) ↦ rw e (Owned-halted m.mode _ _ _ k).2
    | inr e ↦ rw e (refl, idle, refl)
  ]

manual-idle :
    (mode : HybridMode) (driver sched : Bool) (a : Authority)
    → is_manual_wasd mode ≡ true
    → Owned mode driver sched a
    → sched ≡ false
manual-idle manual_wasd d s a e k = k.0
manual-idle auto_host d s a e k = ground arith
manual-idle auto_pending d s a e k = ground arith

module _ {F : Type 0} ⦃fl : Float F⦄ ⦃ar : Arithmetic F⦄ (cfg : ControllerConfig F) where
  tick_host-IsOwned :
      (now : F) (input : Option (ManualInput F)) (m : HybridControlMux F)
      → IsOwned m
      → IsOwned (tick_host cfg now input m).0
  unfolding tick_host
  tick_host-IsOwned now input m k =
      Owned-Stays m.mode _ _ _ _ (tick-Stays _ now none input m.host) k

  set_manual_wire-IsOwned :
      (throttle wire : F) (m : HybridControlMux F)
      → IsOwned m
      → IsOwned (set_manual_wire throttle wire m)
  unfolding set_manual_wire
  set_manual_wire-IsOwned throttle wire m k = if_both IsOwned (is_manual_wasd m.mode) k k

  switch_to_auto-IsOwned :
      (now : F) (m : HybridControlMux F) → IsOwned m → Leaves IsOwned (switch_to_auto cfg now m)
  unfolding switch_to_auto
  switch_to_auto-IsOwned now m k = elim (Bool-cases (is_manual_wasd m.mode)) [
    | inr e ↦ rw e k
    | inl e ↦ rw e (
        quit_manual-IsOwned _ _ (tick_host-IsOwned now _ (record m { held = neutral }) k)
          (manual-idle m.mode _ _ _ e k))
  ]

  stop-IsOwned :
      (now : F) (m : HybridControlMux F)
      → is_starting m ≡ false
      → IsOwned m
      → Leaves IsOwned (stop cfg now m)
  unfolding stop halt stop_scheduler by_driver
  stop-IsOwned now m p k = elim (Bool-cases (is_manual_wasd m.mode)) [
    | inr e ↦ rw (e, p) (Owned-halted m.mode _ _ _ k).1
    | inl e ↦
        rw (e, p)
          (Owned-halted m.mode _ _ _
            (tick_host-IsOwned now (some neutral) (record m { held = neutral }) k)).1
  ]

  pub react-IsOwned :
      (call : Call F) (m : HybridControlMux F)
      → is_re_arm call ≡ false
      → ((stops call ≡ true) → is_starting m ≡ false)
      → IsOwned m
      → Leaves IsOwned (react cfg call m)
  unfolding react load_waypoints stop_runner stop_scheduler manual_round step by_driver by_scheduler
      HostController.stop Authority.stop HostController.fault
  react-IsOwned (manual_round_at now) m a p k =
      if_both (Leaves IsOwned) m.manual_running (tick_host-IsOwned now _ m k) k
  react-IsOwned (step_at now) m a p k =
      if_both (Leaves IsOwned) ((m.scheduler_running && m.scheduler_begun) || m.stray)
        (tick_host-IsOwned now none m k) k
  react-IsOwned (switched_to_auto now) m a p k = switch_to_auto-IsOwned now m k
  react-IsOwned (stopped now) m a p k = stop-IsOwned now m (p refl) k
  react-IsOwned switched_to_manual m a p k = switch_to_manual-IsOwned cfg m (p refl) k
  react-IsOwned re_armed m a p k = ground arith
  react-IsOwned runner_stopped m a p k =
      rw (p refl)
        (Owned-halted m.mode _ _ _
          (Owned-Stays m.mode _ _ _ _ (inr (fault-state m.host.authority stop_reason)) k)).0
  react-IsOwned scheduler_began m a p k = k
  react-IsOwned (wired throttle wire) m a p k = set_manual_wire-IsOwned throttle wire m k
  react-IsOwned (posed o) m a p k = on_camera_pose-IsOwned o m k
  react-IsOwned (failed r) m a p k =
      Owned-Stays m.mode _ _ _ _ (inr (fault-state m.host.authority r)) k
  react-IsOwned (loaded ws) m a p k = k
