-- ===== src/Host/HostController/Latch.antt =====
-- host_controller.py: a fault is latched.
use hanium_smart_parkin.Base.{
  ◌≡◌, refl, ap, ◌∙◌, Bool, true, false, Option, none, some, List, [], ◌∷◌, All, All-append, arith,
}
use hanium_smart_parkin.Base.Float.{Float}
use hanium_smart_parkin.Base.Arithmetic.{Arithmetic}
use hanium_smart_parkin.Host.Model.{ControllerConfig, stop_reason}
use hanium_smart_parkin.Host.Authority
use hanium_smart_parkin.Host.Authority.{Authority, ControlAuthority, faulted, fault}
use hanium_smart_parkin.Host.Authority.Latched.{
  fault-faulted, arm_auto-faulted, arm_manual-faulted, disarm-faulted,
}
use hanium_smart_parkin.Host.Producers.{Payload, send, ManualInput}
use hanium_smart_parkin.Host.HostController
use hanium_smart_parkin.Host.HostController.{
  HostController, TickResult, tick_in, finish, tick, observe, arm_auto, arm_manual, disarm, stop,
}
use hanium_smart_parkin.Host.Calls.{
  Call, ticked, observed, armed_auto, armed_manual, put_down, stopped, re_armed, failed, loaded,
  restarted, react, run,
}

module _ {F : Type 0} where
  -- The one call that takes back a fault.
  abbrev pub is_re_arm : Call F → Bool
  is_re_arm re_armed = true
  is_re_arm _ = false

module _ {F : Type 0} ⦃fl : Float F⦄ where
  abbrev pub IsZero : Payload F → Type 0
  IsZero p = (p.throttle ≡ fl.nought) × (p.steering ≡ fl.nought)

module _ {F : Type 0} ⦃fl : Float F⦄ ⦃ar : Arithmetic F⦄ (cfg : ControllerConfig F) where
  tick_in-faulted :
      (now : F) (input : Option (ManualInput F)) (h : HostController F) (s : Authority)
      → s ≡ faulted
      → let (h', r) = tick_in cfg s now input h in (h'.authority ≡ h.authority) × IsZero r.payload
  unfolding tick_in finish send
  tick_in-faulted now input h faulted e = (refl, (fl.round4-nought, fl.round4-nought))
  tick_in-faulted now input h Authority.disarmed e = ground arith
  tick_in-faulted now input h Authority.manual e = ground arith
  tick_in-faulted now input h Authority.auto_host e = ground arith

  pub react-faulted :
      (call : Call F) (h : HostController F)
      → is_re_arm call ≡ false
      → h.authority.state ≡ faulted
      → let (h', ps) = react cfg call h in (h'.authority ≡ h.authority) × All IsZero ps
  unfolding react tick observe arm_auto arm_manual disarm stop Authority.stop HostController.fault
  react-faulted (ticked now none input) h k f =
      let lem = tick_in-faulted now input h _ f in (lem.0, (lem.1, tt))
  react-faulted (ticked now (some p) input) h k f =
      let lem = tick_in-faulted now input (observe (some p) h) _ f in (lem.0, (lem.1, tt))
  react-faulted (observed p) h k f = (refl, tt)
  react-faulted armed_auto h k f = (rw (arm_auto-faulted h.authority f) refl, tt)
  react-faulted armed_manual h k f = (rw (arm_manual-faulted h.authority f) refl, tt)
  react-faulted put_down h k f = (rw (disarm-faulted h.authority f) refl, tt)
  react-faulted stopped h k f = (fault-faulted h.authority f stop_reason, tt)
  react-faulted re_armed h k f = ground arith
  react-faulted (failed r) h k f = (fault-faulted h.authority f r, tt)
  react-faulted (loaded ws) h k f = (refl, tt)
  react-faulted restarted h k f = (refl, tt)

  -- Once a controller is FAULTED, no sequence of calls without `re_arm_auto` changes its authority or
  -- the reason of the fault, whatever poses, driver's input and missions come, and every message sent
  -- meanwhile has throttle and steering zero.
  pub run-faulted :
      (calls : List (Call F)) (h : HostController F)
      → All (λ c. is_re_arm c ≡ false) calls
      → h.authority.state ≡ faulted
      → let (h', ps) = run cfg calls h in (h'.authority ≡ h.authority) × All IsZero ps
  unfolding run
  run-faulted [] h k f = (refl, tt)
  run-faulted (c ∷ cs) h (kc, kcs) f =
      let (h1, ps) = react cfg c h in
      let (same, zeros) = react-faulted c h kc f in
      let (same', zeros') = run-faulted cs h1 kcs (ap (λ a. a.state) same ∙ f) in
      (same' ∙ same, All-append IsZero ps _ zeros zeros')
