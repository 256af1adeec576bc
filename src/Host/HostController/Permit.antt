-- ===== src/Host/HostController/Permit.antt =====
-- host_controller.py: what a command that moves the car needs, and what a stale pose does.
use hanium_smart_parkin.Base.{
  ◌≡◌, refl, ap, ◌∙◌, ◌⊎◌, inl, inr, if_both, Bool, true, false, ◌&&◌, Option, none, some, is_some,
  Bool-cases, arith,
}
use hanium_smart_parkin.Base.Float.{Float}
use hanium_smart_parkin.Base.Arithmetic.{Arithmetic}
use hanium_smart_parkin.Host.Model.{
  ControllerConfig, ControlCommand, ControlMode, hold, drive, brake, align, arrived, MissionStatus,
  running, Pose, Waypoint, no_manual_input, is_stopped,
}
use hanium_smart_parkin.Host.Authority.{Authority, disarmed, manual, auto_host, faulted}
use hanium_smart_parkin.Host.Mission.{is_active, current_target}
use hanium_smart_parkin.Host.Pursuit.{Memory, compute}
use hanium_smart_parkin.Host.Pursuit.Gates.{IsFresh, Meets, compute-Meets}
use hanium_smart_parkin.Host.Producers.{
  send, ManualInput, zero_command, compute_manual, compute_auto,
}
use hanium_smart_parkin.Host.HostController.{
  HostController, TickResult, tick_in, finish, tick, observe, settle, auto_tick, is_stale_reason,
}
use hanium_smart_parkin.Host.HostController.Latch.{IsZero}

module _ {F : Type 0} ⦃fl : Float F⦄ where
  pub finish_stopped :
      (cmd : ControlCommand F) (h : HostController F) → IsZero (finish cmd true h).1.payload
  unfolding finish send
  finish_stopped cmd h = (fl.round4-nought, fl.round4-nought)

  finish-keeps :
      (cmd : ControlCommand F) (z : Bool) (h : HostController F)
      → let h' = (finish cmd z h).0 in
        (h'.authority ≡ h.authority) × (h'.pose_source ≡ h.pose_source)
  unfolding finish send
  finish-keeps cmd z h = (refl, refl)

  pub finish-IsZero :
      (cmd : ControlCommand F) (z : Bool) (h : HostController F)
      → cmd.throttle ≡ fl.nought
      → cmd.steering ≡ fl.nought
      → IsZero (finish cmd z h).1.payload
  unfolding finish send
  finish-IsZero cmd true h t s = (fl.round4-nought, fl.round4-nought)
  finish-IsZero cmd false h t s =
      (ap fl.round4 t ∙ fl.round4-nought, ap fl.round4 s ∙ fl.round4-nought)

  -- What a result owes to the command behind it and to the controller before it.
  abbrev pub Owes : ControlCommand F → HostController F → HostController F × TickResult F → Type 0
  Owes cmd h (h', t) =
      ((cmd.throttle ≡ fl.nought) × (cmd.steering ≡ fl.nought) → IsZero t.payload)
      × (IsZero t.payload ⊎ (h'.authority ≡ h.authority))
      × (h'.pose_source ≡ h.pose_source)

  finish-Owes :
      (cmd : ControlCommand F) (z : Bool) (h : HostController F) → Owes cmd h (finish cmd z h)
  finish-Owes cmd z h =
      ((λ k. finish-IsZero cmd z h k.0 k.1), inr (finish-keeps cmd z h).0, (finish-keeps cmd z h).1)

module _ {F : Type 0} ⦃fl : Float F⦄ ⦃ar : Arithmetic F⦄ (cfg : ControllerConfig F) where
  -- The pose passed the gates of the controller.
  abbrev pub HasFresh : Option (Pose F) → F → Type 0
  HasFresh o now = (p : Pose F) × (o ≡ some p) × IsFresh cfg p now

  settled-IsZero :
      (r : ControlCommand F × Memory F) (m : ControlMode) (p : Pose F) (w : Waypoint F) (now : F)
      → Meets cfg p w true now r m
      → ((r.0.throttle ≡ fl.nought) × (r.0.steering ≡ fl.nought)) ⊎ IsFresh cfg p now
  settled-IsZero r hold p w now k = inl k.0
  settled-IsZero r align p w now k = inl k.0
  settled-IsZero r arrived p w now k = inl k.0
  settled-IsZero r drive p w now k = inr k.2
  settled-IsZero r brake p w now k = inr k.2

  settle-Owes :
      (has : Bool) (r : ControlCommand F × Memory F) (h : HostController F)
      → Owes r.0 h (settle cfg has r h)
  unfolding settle
  settle-Owes has (cmd, mem) h =
      if_both (Owes cmd h) (has && (is_stale_reason cmd.reason && h.fault_on_stale))
        ((λ k. finish_stopped _ _), inl (finish_stopped _ _), (finish-keeps _ true _).1)
        (finish-Owes cmd (is_stopped cmd) _)

  -- The autopilot moves the car only by a fresh pose, and stays armed.
  abbrev pub Drives : F → HostController F → HostController F × TickResult F → Type 0
  Drives now h (h', t) =
      IsZero t.payload ⊎ ((h'.authority ≡ h.authority) × HasFresh h'.pose_source.pose now)

  computed-IsZero :
      (o : Option (Pose F)) (w : Waypoint F) (now : F) (mem : Memory F)
      → let cmd = (compute_auto cfg o (some w) true now mem).0 in
        ((cmd.throttle ≡ fl.nought) × (cmd.steering ≡ fl.nought)) ⊎ HasFresh o now
  unfolding compute_auto zero_command
  computed-IsZero none w now mem = inl (refl, refl)
  computed-IsZero (some p) w now mem =
      elim (settled-IsZero (compute cfg p w true now mem) _ p w now
        (compute-Meets cfg p w true now mem)) [ inl z ↦ inl z | inr f ↦ inr (p, refl, f) ]

  auto_tick-Drives :
      (now : F) (h : HostController F) (o : Option (Waypoint F))
      → Drives now h (auto_tick cfg now h o)
  unfolding auto_tick
  auto_tick-Drives now h none = inl (finish_stopped _ _)
  auto_tick-Drives now h (some w) =
      let r = compute_auto cfg h.pose_source.pose (some w) true now h.memory in
      let (zero, other, same) = settle-Owes (is_some h.pose_source.pose) r h in
      elim (computed-IsZero h.pose_source.pose w now h.memory) [
        | inl z ↦ inl (zero z)
        | inr (p, e, f) ↦ elim other [
          | inl z ↦ inl z
          | inr keep ↦ inr (keep, (p, ap (λ s. s.pose) same ∙ e, f))
        ]
      ]

  -- What a message that moves the car says of the controller.
  abbrev pub MayDrive :
      Authority → Option (ManualInput F) → F → HostController F → HostController F → Type 0
  MayDrive s input now h h' =
      ((s ≡ manual) × (is_some input ≡ true))
      ⊎ ((s ≡ auto_host)
          × (h.mission.status ≡ running)
          × (h'.authority ≡ h.authority)
          × HasFresh h'.pose_source.pose now)

  is_active-running : (s : MissionStatus) → is_active s ≡ true → s ≡ running
  is_active-running s e = ground arith

  tick_in-MayDrive :
      (s : Authority) (now : F) (input : Option (ManualInput F)) (h : HostController F)
      → let (h', t) = tick_in cfg s now input h in IsZero t.payload ⊎ MayDrive s input now h h'
  unfolding tick_in compute_manual zero_command
  tick_in-MayDrive disarmed now input h = inl (finish_stopped _ _)
  tick_in-MayDrive faulted now input h = inl (finish_stopped _ _)
  tick_in-MayDrive manual now none h =
      inl (finish-IsZero (zero_command no_manual_input) _ h refl refl)
  tick_in-MayDrive manual now (some i) h = inr (inl (refl, refl))
  tick_in-MayDrive auto_host now input h = elim (Bool-cases (is_active h.mission.status)) [
    | inr e ↦ rw e (inl (finish_stopped _ _))
    | inl e ↦ rw e (elim (auto_tick-Drives now h (current_target h.mission)) [
      | inl z ↦ inl z
      | inr (keep, fresh) ↦ inr (inr (refl, is_active-running _ e, keep, fresh))
    ])
  ]

  -- A tick sends throttle and steering zero unless the authority is MANUAL and the driver gives an
  -- input, or it is AUTO_HOST before and after the tick, the mission was running, and the last
  -- observed pose is valid, has a heading and is not older than the limit.
  pub tick-MayDrive :
      (now : F) (obs : Option (Pose F)) (input : Option (ManualInput F)) (h : HostController F)
      → let (h', t) = tick cfg now obs input h in
        IsZero t.payload ⊎ MayDrive h.authority.state input now h h'
  unfolding tick observe
  tick-MayDrive now none input h = tick_in-MayDrive _ now input h
  tick-MayDrive now (some p) input h = tick_in-MayDrive _ now input (observe (some p) h)
