-- ===== src/Host/Hybrid/Resume.antt =====
-- hybrid_control.py: the way back to the autopilot needs a camera pose.
use hanium_smart_parkin.Base.{
  ◌≡◌, refl, inl, inr, if_both, Bool, true, false, not, ◌&&◌, some, List, [], ◌∷◌, All, All-append,
  Bool-cases, arith,
}
use hanium_smart_parkin.Base.Float.{Float}
use hanium_smart_parkin.Base.Arithmetic.{Arithmetic}
use hanium_smart_parkin.Host.Model.{ControllerConfig}
use hanium_smart_parkin.Host.Authority
use hanium_smart_parkin.Host.HostController
use hanium_smart_parkin.Host.HostController.{TickResult}
use hanium_smart_parkin.Host.HostController.Stays.{disarm-put_down}
use hanium_smart_parkin.Host.Hybrid.{
  HybridMode, auto_host, HybridControlMux, is_manual_wasd, neutral, tick_host, Sent, steered,
  Effect, take_over, begin_manual, switch_to_manual, await_pose, give_back, quit_manual,
  switch_to_auto, set_manual_wire, by_driver, by_scheduler, halt, stop_scheduler, manual_round,
  step, stop,
}
use hanium_smart_parkin.Host.Hybrid.Calls.{
  Call, manual_round_at, step_at, switched_to_auto, stopped, switched_to_manual, re_armed,
  runner_stopped, scheduler_began, wired, posed, failed, loaded, react, run, load_waypoints,
  stop_runner,
}

abbrev is_auto_host : HybridMode → Bool
is_auto_host auto_host = true
is_auto_host _ = false

module _ {F : Type 0} where
  -- No scheduler runs, and only a camera pose can start one.
  abbrev pub IsWaiting : HybridControlMux F → Type 0
  IsWaiting m = (is_auto_host m.mode ≡ false) × (m.scheduler_running ≡ false) × (m.stray ≡ false)

  -- No stop can be lost then.
  none_lost :
      (m : HybridControlMux F)
      → IsWaiting m
      → (m.scheduler_running && not m.scheduler_begun) ≡ false
  none_lost m k = rw k.1 refl

  abbrev is_steered : Sent F → Bool
  is_steered (steered _) = true
  is_steered _ = false

  abbrev pub IsSteered : Sent F → Type 0
  IsSteered s = is_steered s ≡ true

  abbrev pub IsOfDriver : Sent F → Type 0
  IsOfDriver s = is_steered s ≡ false

  abbrev pub is_pose : Call F → Bool
  is_pose (posed _) = true
  is_pose _ = false

  abbrev Waits : Effect F → Type 0
  Waits (m, out, _) = IsWaiting m × All IsOfDriver out

module _ {F : Type 0} ⦃fl : Float F⦄ where
  switch_to_manual-Waits :
      (cfg : ControllerConfig F) (m : HybridControlMux F)
      → IsWaiting m
      → Waits (switch_to_manual cfg m)
  unfolding switch_to_manual take_over stop_scheduler begin_manual HostController.arm_manual
      Authority.arm_manual Authority.new
  switch_to_manual-Waits cfg m k = elim (Bool-cases (is_manual_wasd m.mode)) [
    | inl e ↦ rw e (k, tt)
    | inr e ↦ rw e (elim (disarm-put_down m.host) [
      | inl (_, d) ↦ rw d ((k.0, none_lost m k, k.2), (refl, tt))
      | inr d ↦ rw d ((refl, none_lost m k, k.2), (refl, tt))
    ])
  ]

  quit_manual-Waits :
      (m : HybridControlMux F) (t : TickResult F) → IsWaiting m → Waits (quit_manual (m, t))
  unfolding quit_manual give_back await_pose HostController.arm_auto Authority.arm_auto
      Authority.new
  quit_manual-Waits m t k = elim (disarm-put_down m.host) [
    | inl (_, d) ↦ rw d (k, (refl, (refl, tt)))
    | inr d ↦ rw d ((refl, k.1, k.2), (refl, (refl, tt)))
  ]

module _ {F : Type 0} ⦃fl : Float F⦄ ⦃ar : Arithmetic F⦄ (cfg : ControllerConfig F) where
  switch_to_auto-Waits :
      (now : F) (m : HybridControlMux F) → IsWaiting m → Waits (switch_to_auto cfg now m)
  unfolding switch_to_auto tick_host
  switch_to_auto-Waits now m k = elim (Bool-cases (is_manual_wasd m.mode)) [
    | inl e ↦
        rw e
          (quit_manual-Waits (tick_host cfg now (some neutral) (record m { held = neutral })).0 _ k)
    | inr e ↦ rw e (k, tt)
  ]

  stop-Waits : (now : F) (m : HybridControlMux F) → IsWaiting m → Waits (stop cfg now m)
  unfolding stop halt stop_scheduler by_driver tick_host
  stop-Waits now m k = elim (Bool-cases (is_manual_wasd m.mode)) [
    | inl e ↦ rw e ((k.0, none_lost m k, k.2), (refl, (refl, tt)))
    | inr e ↦ rw e ((k.0, none_lost m k, k.2), (refl, tt))
  ]

  set_manual_wire-Waits :
      (throttle wire : F) (m : HybridControlMux F)
      → IsWaiting m
      → IsWaiting (set_manual_wire throttle wire m)
  unfolding set_manual_wire
  set_manual_wire-Waits throttle wire m k = if_both IsWaiting (is_manual_wasd m.mode) k k

  react-Waits :
      (call : Call F) (m : HybridControlMux F)
      → is_pose call ≡ false
      → IsWaiting m
      → Waits (react cfg call m)
  unfolding react load_waypoints stop_runner stop_scheduler manual_round step by_driver by_scheduler
      tick_host
  react-Waits (manual_round_at now) m p k = if_both Waits m.manual_running (k, (refl, tt)) (k, tt)
  react-Waits (step_at now) m p k = rw (k.1, k.2) ((k.0, refl, refl), tt)
  react-Waits (switched_to_auto now) m p k = switch_to_auto-Waits now m k
  react-Waits (stopped now) m p k = stop-Waits now m k
  react-Waits switched_to_manual m p k = switch_to_manual-Waits cfg m k
  react-Waits re_armed m p k = (k, tt)
  react-Waits runner_stopped m p k = ((k.0, none_lost m k, k.2), (refl, tt))
  react-Waits scheduler_began m p k = (k, tt)
  react-Waits (wired throttle wire) m p k = (set_manual_wire-Waits throttle wire m k, tt)
  react-Waits (posed o) m p k = ground arith
  react-Waits (failed r) m p k = (k, tt)
  react-Waits (loaded ws) m p k = (k, tt)

  -- While the driver or nobody drives, no scheduler's thread is left over, and until the next camera pose,
  -- the scheduler neither starts nor ticks: whatever the order of mode changes, faults, re-arming and rounds of the loops, the mode does
  -- not become AUTO_HOST, and only `stop_control` and ticks with the driver's input are sent.
  pub run-Waits :
      (calls : List (Call F)) (m : HybridControlMux F)
      → All (λ c. is_pose c ≡ false) calls
      → IsWaiting m
      → let (m', sent) = run cfg calls m in IsWaiting m' × All IsOfDriver sent
  unfolding run
  run-Waits [] m p k = (k, tt)
  run-Waits (c ∷ cs) m (p, ps) k =
      let (k1, first) = react-Waits c m p k in
      let (k2, later) = run-Waits cs _ ps k1 in (k2, All-append IsOfDriver _ _ first later)
