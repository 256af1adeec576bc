-- ===== src/Host/Pursuit/Range.antt =====
-- pose_controller.py and producers.py: the range of what is sent.
use hanium_smart_parkin.Base.{◌≡◌, if_both, not, Option-cases, inl, inr, Bool, true, false, arith}
use hanium_smart_parkin.Base.Float.{Float, IsUnit, nought-IsUnit, round4-IsUnit}
use hanium_smart_parkin.Base.Arithmetic.{Arithmetic}
use hanium_smart_parkin.Host.Model.{
  Pose, Waypoint, ControlCommand, ControllerConfig, clamp, or_nought,
}
use hanium_smart_parkin.Host.Pursuit.{Memory, steering, throttle, halt, stopped, pursue, compute}

module _ {F : Type 0} ⦃fl : Float F⦄ where
  pub clamp-IsUnit : (x : F) → IsUnit (clamp x fl.neg_one fl.one)
  clamp-IsUnit x = ground (
    arith,
    fl.lt_irrefl fl.one,
    fl.lt_irrefl fl.neg_one,
    fl.lt_asymm fl.neg_one fl.one fl.neg_one-lt-one,
    fl.lt_asymm x fl.neg_one,
    fl.lt_asymm fl.one x,
  )

  pub or_nought-IsUnit : (x : F) → IsUnit x → IsUnit (or_nought x)
  or_nought-IsUnit x h =
      ground (arith, (nought-IsUnit F ⦃fl = fl⦄).0, (nought-IsUnit F ⦃fl = fl⦄).1)

  -- Not below zero, and not above the limit. A NaN is neither.
  abbrev pub IsForward : F → F → Type 0
  IsForward top x = (fl.lt x fl.nought ≡ false) × (fl.lt top x ≡ false)

  -- A limit that is a number and can be sent as it is.
  abbrev pub IsLimit : F → Type 0
  IsLimit top = (fl.lt top fl.nought ≡ false) × (fl.round4 top ≡ top) × (fl.eq top top ≡ true)

  pub clamp-IsForward : (top x : F) → IsLimit top → IsForward top (clamp x fl.nought top)
  clamp-IsForward top x h =
      ground (
        arith,
        fl.lt_irrefl top,
        fl.lt_irrefl fl.nought,
        fl.lt_asymm x fl.nought,
        fl.lt_asymm top x,
      )

  pub round4-IsForward : (top x : F) → IsLimit top → IsForward top x → IsForward top (fl.round4 x)
  round4-IsForward top x h k =
      ground (arith, fl.round4_mono fl.nought x, fl.round4_mono x top, fl.round4-nought)

  pub nought-IsForward : (top : F) → IsLimit top → IsForward top fl.nought
  nought-IsForward top h = (fl.lt_irrefl fl.nought, h.0)

module _ {F : Type 0} ⦃fl : Float F⦄ ⦃ar : Arithmetic F⦄ (cfg : ControllerConfig F) where
  -- What a command may ask for: forward up to the limit, and a steering within the unit interval.
  abbrev pub IsInRange : ControlCommand F → Type 0
  IsInRange cmd = IsForward cfg.max_throttle cmd.throttle × IsUnit cmd.steering

  pub wire-IsUnit : (x : F) → IsUnit (or_nought (fl.round4 (clamp x fl.neg_one fl.one)))
  wire-IsUnit x =
      let lem = clamp-IsUnit ⦃fl = fl⦄ x in
      or_nought-IsUnit ⦃fl = fl⦄ _ (round4-IsUnit ⦃fl = fl⦄ _ lem)

  pub steering-IsUnit : (e d : F) → IsUnit (steering cfg e d).1
  unfolding steering
  steering-IsUnit e d = wire-IsUnit _

  pub throttle-IsForward :
      IsLimit cfg.max_throttle
      → (w : Waypoint F) (d e : F) → IsForward cfg.max_throttle (throttle cfg w d e)
  unfolding throttle
  throttle-IsForward h w d e =
      if_both (IsForward cfg.max_throttle) _ (nought-IsForward cfg.max_throttle h)
        (round4-IsForward cfg.max_throttle _ h (clamp-IsForward cfg.max_throttle _ h))

  pub rest-IsInRange :
      IsLimit cfg.max_throttle → IsForward cfg.max_throttle fl.nought × IsUnit fl.nought
  rest-IsInRange h = (nought-IsForward cfg.max_throttle h, nought-IsUnit F)

  pub pursue-IsInRange :
      IsLimit cfg.max_throttle
      → (w : Waypoint F) (allow : Bool) (now : F) (mem : Memory F) (d b h : F)
      → IsInRange (pursue cfg w allow now mem d b h).0
  unfolding pursue halt stopped
  pursue-IsInRange lim w allow now mem d b h =
      let P = λ (r : ControlCommand F × Memory F). IsInRange r.0 in
      if_both P (not allow) (rest-IsInRange lim) (
        if_both P _ (if_both P _ (rest-IsInRange lim) (rest-IsInRange lim))
          (throttle-IsForward lim w d _, steering-IsUnit _ _))

  pub compute-IsInRange :
      IsLimit cfg.max_throttle
      → (pose : Pose F) (w : Waypoint F) (allow : Bool) (now : F) (mem : Memory F)
      → IsInRange (compute cfg pose w allow now mem).0
  unfolding compute halt stopped
  compute-IsInRange lim pose w allow now mem =
      let P = λ (r : ControlCommand F × Memory F). IsInRange r.0 in
      if_both P (not pose.valid) (rest-IsInRange lim) (elim (Option-cases pose.heading_deg) [
        | inl e ↦ rw e (rest-IsInRange lim)
        | inr (h, e) ↦
            rw e (if_both P _ (rest-IsInRange lim) (pursue-IsInRange lim w allow now mem _ _ h))
      ])
