-- ===== src/Host/HostController/Stays.antt =====
-- host_controller.py: what a tick and a `disarm` may do to the authority.
use hanium_smart_parkin.Base.{
  ◌≡◌, refl, ◌⊎◌, inl, inr, if_both, Bool, true, false, ◌&&◌, Option, none, some, is_some,
}
use hanium_smart_parkin.Base.Float.{Float}
use hanium_smart_parkin.Base.Arithmetic.{Arithmetic}
use hanium_smart_parkin.Host.Model.{ControllerConfig, ControlCommand, Pose, Waypoint}
use hanium_smart_parkin.Host.Authority
use hanium_smart_parkin.Host.Authority.{Authority, ControlAuthority, disarmed, manual, faulted}
use hanium_smart_parkin.Host.Authority.Latched.{disarm-cases}
use hanium_smart_parkin.Host.Mission.{is_active, current_target}
use hanium_smart_parkin.Host.Pursuit.{Memory}
use hanium_smart_parkin.Host.Producers.{ManualInput, compute_auto}
use hanium_smart_parkin.Host.HostController.{
  HostController, TickResult, tick, observe, tick_in, finish, settle, auto_tick, is_stale_reason,
  disarm,
}
use hanium_smart_parkin.Host.HostController.Stale.{fault-state}

-- The authority stays, or becomes FAULTED.
abbrev pub Stays : Authority → Authority → Type 0
Stays a a' = (a' ≡ a) ⊎ (a' ≡ faulted)

module _ {F : Type 0} ⦃fl : Float F⦄ ⦃ar : Arithmetic F⦄ (cfg : ControllerConfig F) where
  abbrev pub TickStays : HostController F → HostController F × TickResult F → Type 0
  TickStays h (h', _) = Stays h.authority.state h'.authority.state

  settle-Stays :
      (has : Bool) (r : ControlCommand F × Memory F) (h : HostController F)
      → TickStays h (settle cfg has r h)
  unfolding settle finish
  settle-Stays has (cmd, mem) h =
      if_both (TickStays h) (has && (is_stale_reason cmd.reason && h.fault_on_stale))
        (inr (fault-state h.authority cmd.reason)) (inl refl)

  auto_tick-Stays :
      (now : F) (h : HostController F) (o : Option (Waypoint F))
      → TickStays h (auto_tick cfg now h o)
  unfolding auto_tick finish
  auto_tick-Stays now h none = inl refl
  auto_tick-Stays now h (some w) =
      settle-Stays (is_some h.pose_source.pose)
        (compute_auto cfg h.pose_source.pose (some w) true now h.memory) h

  tick_in-Stays :
      (s : Authority) (now : F) (input : Option (ManualInput F)) (h : HostController F)
      → TickStays h (tick_in cfg s now input h)
  unfolding tick_in finish
  tick_in-Stays disarmed now input h = inl refl
  tick_in-Stays faulted now input h = inl refl
  tick_in-Stays manual now input h = inl refl
  tick_in-Stays Authority.auto_host now input h =
      if_both (TickStays h) (is_active h.mission.status)
        (auto_tick-Stays now h (current_target h.mission)) (inl refl)

  pub tick-Stays :
      (now : F) (o : Option (Pose F)) (input : Option (ManualInput F)) (h : HostController F)
      → TickStays h (tick cfg now o input h)
  unfolding tick observe
  tick-Stays now none input h = tick_in-Stays _ now input h
  tick-Stays now (some p) input h = tick_in-Stays _ now input (observe (some p) h)

module _ {F : Type 0} where
  -- The controller that a `disarm` without an error leaves.
  abbrev pub put_down : HostController F → HostController F
  put_down h = record h { authority = Authority.new }

  pub disarm-put_down :
      (h : HostController F)
      → ((h.authority.state ≡ faulted) × (disarm h ≡ (h, true))) ⊎ (disarm h ≡ (put_down h, false))
  unfolding disarm
  disarm-put_down h = elim (disarm-cases h.authority) [
    | inl (f, e) ↦ inl (f, rw e refl)
    | inr e ↦ inr (rw e refl)
  ]
