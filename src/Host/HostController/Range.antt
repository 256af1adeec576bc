-- ===== src/Host/HostController/Range.antt =====
-- host_controller.py: the messages of a run, their range and their numbers.
use hanium_smart_parkin.Base.{
  ℕ, suc, ◌+◌, ◌≡◌, refl, if_both, Bool, true, false, ◌&&◌, Option, none, some, List, [], ◌∷◌, ◌++◌,
  length, length-append, All, All-append, arith,
}
use hanium_smart_parkin.Base.Float.{
  Float, IsUnit, IsWithinOrNan, within_or_nan, nought-IsUnit, round4-IsUnit,
}
use hanium_smart_parkin.Base.Arithmetic.{Arithmetic}
use hanium_smart_parkin.Host.Model.{ControllerConfig, ControlCommand, Waypoint}
use hanium_smart_parkin.Host.Authority.{Authority, disarmed, manual, auto_host, faulted}
use hanium_smart_parkin.Host.Mission.{is_active, current_target}
use hanium_smart_parkin.Host.Pursuit.{Memory}
use hanium_smart_parkin.Host.Pursuit.Range.{
  IsForward, IsLimit, IsInRange, round4-IsForward, nought-IsForward, rest-IsInRange,
}
use hanium_smart_parkin.Host.Producers.{Payload, ManualInput, send, zero_command}
use hanium_smart_parkin.Host.Producers.Range.{compute_auto-IsInRange, compute_manual-IsInRange}
use hanium_smart_parkin.Host.HostController
use hanium_smart_parkin.Host.HostController.{
  HostController, TickResult, tick_in, tick, finish, observe, settle, auto_tick, is_stale_reason,
  arm_auto, arm_manual, disarm, re_arm_auto, with_authority,
}
use hanium_smart_parkin.Host.Calls.{
  Call, ticked, observed, armed_auto, armed_manual, put_down, stopped, re_armed, failed, loaded,
  restarted, react, run,
}

module _ {F : Type 0} where
  -- The numbers that follow n.
  abbrev pub IsNumbered : ℕ → List (Payload F) → Type 0
  IsNumbered n [] = n ≡ n
  IsNumbered n (p ∷ ps) = (p.control_seq ≡ suc n) × IsNumbered (suc n) ps

  abbrev pub ticks : List (Call F) → ℕ
  ticks [] = 0
  ticks (ticked _ _ _ ∷ cs) = suc (ticks cs)
  ticks (_ ∷ cs) = ticks cs

  IsNumbered-append :
      (n m : ℕ) (ps qs : List (Payload F))
      → m ≡ n + length ps
      → IsNumbered n ps
      → IsNumbered m qs
      → IsNumbered n (ps ++ qs)
  IsNumbered-append n m [] qs e h k = let same : n ≡ m = omega arith in rw same k
  IsNumbered-append n m (p ∷ ps) qs e h k =
      (h.0, IsNumbered-append (suc n) m ps qs (omega arith) h.1 k)

  ticks-cons : (c : Call F) (cs : List (Call F)) → ticks (c ∷ cs) ≡ ticks (c ∷ []) + ticks cs
  ticks-cons c cs = ground arith

module _ {F : Type 0} ⦃fl : Float F⦄ ⦃ar : Arithmetic F⦄ (cfg : ControllerConfig F)
    (lim : IsLimit cfg.max_throttle) (fwd : cfg.allow_reverse ≡ false) where
  abbrev IsBounded : Payload F → Type 0
  IsBounded p = IsForward cfg.max_throttle p.throttle × IsUnit p.steering

  -- The message asks for what the car may do, or for NaN.
  abbrev pub IsSendable : Payload F → Type 0
  IsSendable p =
      IsWithinOrNan fl.nought cfg.max_throttle p.throttle
      × IsWithinOrNan fl.neg_one fl.one p.steering

  IsBounded-IsSendable : (p : Payload F) → IsBounded p → IsSendable p
  IsBounded-IsSendable p k = (
    within_or_nan fl.nought cfg.max_throttle p.throttle fl.nought-eq lim.2 k.0.0 k.0.1,
    within_or_nan fl.neg_one fl.one p.steering (fl.finite_eq fl.neg_one fl.neg_one-finite)
        (fl.finite_eq fl.one fl.one-finite) k.1.0 k.1.1,
  )

  -- The result of a tick has such a message, with the next number.
  abbrev IsNext : ℕ → HostController F × TickResult F → Type 0
  IsNext n (h, t) = (h.control_seq ≡ suc n) × (t.payload.control_seq ≡ suc n) × IsBounded t.payload

  finish-IsNext :
      (cmd : ControlCommand F) (z : Bool) (h : HostController F)
      → IsInRange cfg cmd
      → IsNext h.control_seq (finish cmd z h)
  unfolding finish send
  finish-IsNext cmd true h k = (
    omega arith,
    omega arith,
    (
      round4-IsForward cfg.max_throttle _ lim (nought-IsForward cfg.max_throttle lim),
      round4-IsUnit ⦃fl = fl⦄ fl.nought (nought-IsUnit F),
    ),
  )
  finish-IsNext cmd false h k = (
    omega arith,
    omega arith,
    (round4-IsForward cfg.max_throttle _ lim k.0, round4-IsUnit ⦃fl = fl⦄ cmd.steering k.1),
  )

  settle-IsNext :
      (has : Bool) (r : ControlCommand F × Memory F) (h : HostController F)
      → IsInRange cfg r.0
      → IsNext h.control_seq (settle cfg has r h)
  unfolding settle zero_command
  settle-IsNext has (cmd, mem) h k =
      if_both (IsNext h.control_seq) (has && (is_stale_reason cmd.reason && h.fault_on_stale))
        (finish-IsNext _ _ _ (rest-IsInRange cfg lim)) (finish-IsNext cmd _ _ k)

  auto_tick-IsNext :
      (now : F) (h : HostController F) (o : Option (Waypoint F))
      → IsNext h.control_seq (auto_tick cfg now h o)
  unfolding auto_tick zero_command
  auto_tick-IsNext now h none = finish-IsNext _ _ h (rest-IsInRange cfg lim)
  auto_tick-IsNext now h (some w) =
      settle-IsNext _ _ h
        (compute_auto-IsInRange cfg lim h.pose_source.pose (some w) true now h.memory)

  tick_in-IsNext :
      (s : Authority) (now : F) (input : Option (ManualInput F)) (h : HostController F)
      → IsNext h.control_seq (tick_in cfg s now input h)
  unfolding tick_in zero_command
  tick_in-IsNext disarmed now input h = finish-IsNext _ _ h (rest-IsInRange cfg lim)
  tick_in-IsNext faulted now input h = finish-IsNext _ _ h (rest-IsInRange cfg lim)
  tick_in-IsNext manual now input h =
      finish-IsNext _ _ h (compute_manual-IsInRange cfg lim fwd input)
  tick_in-IsNext auto_host now input h =
      if_both (IsNext h.control_seq) (is_active h.mission.status)
        (auto_tick-IsNext now h (current_target h.mission))
        (finish-IsNext _ _ h (rest-IsInRange cfg lim))

  react-IsNumbered :
      (call : Call F) (h : HostController F)
      → let (h', ps) = react cfg call h in
        (h'.control_seq ≡ h.control_seq + length ps)
        × (length ps ≡ ticks (call ∷ []))
        × IsNumbered h.control_seq ps
        × All IsSendable ps
  unfolding react tick observe arm_auto arm_manual disarm re_arm_auto HostController.stop
      HostController.fault
  react-IsNumbered (ticked now none input) h =
      let (seq, num, ok) = tick_in-IsNext h.authority.state now input h in
      (
        omega arith,
        refl,
        (num, refl),
        (IsBounded-IsSendable (tick_in cfg h.authority.state now input h).1.payload ok, tt),
      )
  react-IsNumbered (ticked now (some p) input) h =
      let (seq, num, ok) = tick_in-IsNext h.authority.state now input (observe (some p) h) in
      (
        omega arith,
        refl,
        (num, refl),
        (
          IsBounded-IsSendable
              (tick_in cfg h.authority.state now input (observe (some p) h)).1.payload ok,
          tt,
        ),
      )
  react-IsNumbered (observed p) h = (omega arith, refl, refl, tt)
  react-IsNumbered armed_auto h = (ground arith, refl, refl, tt)
  react-IsNumbered armed_manual h = (ground arith, refl, refl, tt)
  react-IsNumbered put_down h = (ground arith, refl, refl, tt)
  react-IsNumbered stopped h = (omega arith, refl, refl, tt)
  react-IsNumbered re_armed h = (ground arith, refl, refl, tt)
  react-IsNumbered (failed r) h = (omega arith, refl, refl, tt)
  react-IsNumbered (loaded ws) h = (omega arith, refl, refl, tt)
  react-IsNumbered restarted h = (omega arith, refl, refl, tt)

  -- With reversing off and a limit of the throttle that is a number, not negative and unchanged by
  -- rounding, each tick of a run sends one message, the messages bear the numbers that follow the last one
  -- sent, and each asks for a throttle from zero to the limit or NaN, and for a steering from -1 to 1 or
  -- NaN. (A NaN in the input of the driver or in a pose passes every clamp.)
  pub run-IsNumbered :
      (calls : List (Call F)) (h : HostController F)
      → let (h', ps) = run cfg calls h in
        (h'.control_seq ≡ h.control_seq + length ps)
        × (length ps ≡ ticks calls)
        × IsNumbered h.control_seq ps
        × All IsSendable ps
  unfolding run
  run-IsNumbered [] h = (omega arith, refl, refl, tt)
  run-IsNumbered (c ∷ cs) h =
      let (h1, ps) = react cfg c h in
      let (seq, len, num, ok) = react-IsNumbered c h in
      let (seq', len', num', ok') = run-IsNumbered cs h1 in
      let total = length-append ps (run cfg cs h1).1 in
      let count = ticks-cons c cs in
      (
        omega arith,
        omega arith,
        IsNumbered-append h.control_seq _ ps _ seq num num',
        All-append IsSendable ps _ ok ok',
      )
