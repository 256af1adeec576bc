-- ===== src/Host/Hybrid/Locked.antt =====
-- hybrid_control.py: what the mux can do while the host controller is FAULTED.
use hanium_smart_parkin.Base.{
  ◌&&◌, ◌≡◌, refl, ap, ◌∙◌, inl, inr, if_both, true, false, ◌||◌, Option, none, some, List, [], ◌∷◌,
  All, All-append, Bool-cases, arith,
}
use hanium_smart_parkin.Base.Float.{Float}
use hanium_smart_parkin.Base.Arithmetic.{Arithmetic}
use hanium_smart_parkin.Host.Model.{ControllerConfig, stop_reason}
use hanium_smart_parkin.Host.Authority
use hanium_smart_parkin.Host.Authority.{ControlAuthority, faulted}
use hanium_smart_parkin.Host.Authority.Latched.{fault-faulted, disarm-faulted}
use hanium_smart_parkin.Host.Calls
use hanium_smart_parkin.Host.Producers.{ManualInput}
use hanium_smart_parkin.Host.HostController
use hanium_smart_parkin.Host.HostController.{HostController, TickResult}
use hanium_smart_parkin.Host.HostController.Latch.{IsZero, react-faulted}
use hanium_smart_parkin.Host.Hybrid.{
  HybridControlMux, is_manual_wasd, is_pending, neutral, config_for, tick_host, Sent, zeroed,
  driven, steered, Effect, take_over, switch_to_manual, give_back, quit_manual, switch_to_auto,
  on_camera_pose, set_manual_wire, by_driver, by_scheduler, halt, stop_scheduler, manual_round,
  step, stop,
}
use hanium_smart_parkin.Host.Hybrid.Calls.{
  Call, manual_round_at, step_at, switched_to_auto, stopped, switched_to_manual, re_armed,
  runner_stopped, scheduler_began, wired, posed, failed, loaded, react, run, load_waypoints,
  stop_runner,
}
use hanium_smart_parkin.Host.Hybrid.Alone.{is_re_arm}

module _ {F : Type 0} ⦃fl : Float F⦄ where
  -- What reaches the server moves nothing.
  abbrev pub Rests : Sent F → Type 0
  Rests zeroed = Unit
  Rests (driven t) = IsZero t.payload
  Rests (steered t) = IsZero t.payload

  abbrev Keeps : ControlAuthority → HybridControlMux F → Type 0
  Keeps a m = m.host.authority ≡ a

  -- The authority is `a`, and what was sent moves nothing.
  abbrev Locks : ControlAuthority → Effect F → Type 0
  Locks a (m, sent, _) = (m.host.authority ≡ a) × All Rests sent

  disarm-locked :
      (h : HostController F) → h.authority.state ≡ faulted → HostController.disarm h ≡ (h, true)
  unfolding HostController.disarm
  disarm-locked h f = rw (disarm-faulted h.authority f) refl

  -- In FAULTED neither the driver nor the autopilot can be given the car: a change of mode raises and
  -- leaves the mode as it was.
  switch_to_manual-locked :
      (cfg : ControllerConfig F) (m : HybridControlMux F)
      → m.host.authority.state ≡ faulted
      → Locks m.host.authority (switch_to_manual cfg m)
  unfolding switch_to_manual take_over stop_scheduler
  switch_to_manual-locked cfg m f =
      rw (disarm-locked m.host f)
        (if_both (Locks m.host.authority) (is_manual_wasd m.mode) (refl, tt) (refl, (tt, tt)))

  quit_manual-locked :
      (m : HybridControlMux F) (t : TickResult F)
      → m.host.authority.state ≡ faulted
      → IsZero t.payload
      → Locks m.host.authority (quit_manual (m, t))
  unfolding quit_manual give_back
  quit_manual-locked m t f z = rw (disarm-locked m.host f) (refl, (z, (tt, tt)))

module _ {F : Type 0} ⦃fl : Float F⦄ ⦃ar : Arithmetic F⦄ (cfg : ControllerConfig F) where
  tick_host-locked :
      (now : F) (input : Option (ManualInput F)) (m : HybridControlMux F)
      → m.host.authority.state ≡ faulted
      → let (m', t) = tick_host cfg now input m in
        (m'.host.authority ≡ m.host.authority) × IsZero t.payload
  unfolding tick_host Calls.react
  tick_host-locked now input m f =
      let (same, zero) =
        react-faulted (config_for cfg m.host.authority.state m) (Calls.ticked now none input) m.host
          refl f in
      (same, zero.0)

  switch_to_auto-locked :
      (now : F) (m : HybridControlMux F)
      → m.host.authority.state ≡ faulted
      → Locks m.host.authority (switch_to_auto cfg now m)
  unfolding switch_to_auto
  switch_to_auto-locked now m f = elim (Bool-cases (is_manual_wasd m.mode)) [
    | inr e ↦ rw e (refl, tt)
    | inl e ↦
        let m1 = record m { held = neutral } in
        let (same, zero) = tick_host-locked now (some neutral) m1 f in
        let m2 = (tick_host cfg now (some neutral) m1).0 in
        let (same', sent) = quit_manual-locked m2 _ (ap (λ a. a.state) same ∙ f) zero in
        rw e (same' ∙ same, sent)
  ]

  stop-locked :
      (now : F) (m : HybridControlMux F)
      → m.host.authority.state ≡ faulted
      → Locks m.host.authority (stop cfg now m)
  unfolding stop halt stop_scheduler by_driver
  stop-locked now m f = elim (Bool-cases (is_manual_wasd m.mode)) [
    | inr e ↦ rw e (refl, (tt, tt))
    | inl e ↦
        let (same, zero) = tick_host-locked now (some neutral) (record m { held = neutral }) f in
        rw e (same, (zero, (tt, tt)))
  ]

  react-locked :
      (call : Call F) (m : HybridControlMux F)
      → is_re_arm call ≡ false
      → m.host.authority.state ≡ faulted
      → Locks m.host.authority (react cfg call m)
  unfolding react load_waypoints stop_runner stop_scheduler manual_round step by_driver by_scheduler
      set_manual_wire on_camera_pose HostController.observe HostController.stop Authority.stop
      HostController.fault
  react-locked (manual_round_at now) m k f =
      let (same, zero) = tick_host-locked now (some m.held) m f in
      if_both (Locks m.host.authority) m.manual_running (same, (zero, tt)) (refl, tt)
  react-locked (step_at now) m k f =
      let (same, zero) = tick_host-locked now none m f in
      if_both (Locks m.host.authority) ((m.scheduler_running && m.scheduler_begun) || m.stray)
        (same, (zero, tt)) (refl, tt)
  react-locked (switched_to_auto now) m k f = switch_to_auto-locked now m f
  react-locked (stopped now) m k f = stop-locked now m f
  react-locked switched_to_manual m k f = switch_to_manual-locked cfg m f
  react-locked re_armed m k f = ground arith
  react-locked runner_stopped m k f = (fault-faulted m.host.authority f stop_reason, (tt, tt))
  react-locked scheduler_began m k f = (refl, tt)
  react-locked (wired throttle wire) m k f =
      (if_both (Keeps m.host.authority) (is_manual_wasd m.mode) refl refl, tt)
  react-locked (posed p) m k f =
      (if_both (Keeps m.host.authority) (is_pending m.mode) refl refl, tt)
  react-locked (failed r) m k f = (fault-faulted m.host.authority f r, tt)
  react-locked (loaded ws) m k f = (refl, tt)

  -- Once the host controller is FAULTED, no change of mode, camera pose, key, new route or stop brings
  -- the car back: in every sequence of calls without `re_arm` the authority and the reason of the fault
  -- stay, and everything sent meanwhile has throttle and steering zero.
  pub run-locked :
      (calls : List (Call F)) (m : HybridControlMux F)
      → All (λ c. is_re_arm c ≡ false) calls
      → m.host.authority.state ≡ faulted
      → let (m', sent) = run cfg calls m in (m'.host.authority ≡ m.host.authority) × All Rests sent
  unfolding run
  run-locked [] m k f = (refl, tt)
  run-locked (c ∷ cs) m (k, ks) f =
      let (same, first) = react-locked c m k f in
      let (same', later) = run-locked cs _ ks (ap (λ a. a.state) same ∙ f) in
      (same' ∙ same, All-append Rests _ _ first later)
