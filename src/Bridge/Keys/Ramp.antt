-- ===== src/Bridge/Keys/Ramp.antt =====
-- wasd_logic.py: the ramp of the steering and the intent.
use hanium_smart_parkin.Base.{
  ◌≡◌, refl, ◌⊎◌, Bool, true, false, Option, none, some, arith, if_both, if◌then◌else◌,
}
use hanium_smart_parkin.Base.Float.{Float, IsUnit, nought-IsUnit, clamp-IsUnit}
use hanium_smart_parkin.Bridge.Keys.{
  Keys, Direction, left, center, right, Steps, steering_direction, compute_throttle, clip, ramp,
  advance_steering, compute_drive_intent,
}

module _ {F : Type 0} ⦃fl : Float F⦄ ⦃st : Steps F⦄ where
  -- Not to the right, exactly ahead, not to the left.
  abbrev pub Points : Direction → F → Type 0
  Points left x = fl.lt fl.nought x ≡ false
  Points center x = x ≡ fl.nought
  Points right x = fl.lt x fl.nought ≡ false

  round3-IsUnit : (x : F) → IsUnit x → IsUnit (st.round3 x)
  round3-IsUnit x h = ground (
    arith,
    st.round3_mono fl.neg_one x,
    st.round3_mono x fl.one,
    st.round3-one,
    st.round3-neg_one,
  )

  clip-number : (x : F) → fl.eq (clip x) (clip x) ≡ true
  clip-number x = ground (
    arith,
    st.lt-number x fl.one,
    st.lt-number fl.neg_one fl.one fl.neg_one-lt-one,
    st.gt-number fl.neg_one fl.one fl.neg_one-lt-one,
  )

  -- Clipping and rounding keep the side.
  clip-right : (x : F) → fl.lt fl.nought x ≡ true → fl.lt (st.round3 (clip x)) fl.nought ≡ false
  clip-right x h = ground (
    arith,
    st.round3_mono (clip x) fl.nought,
    st.round3_mono fl.nought (clip x),
    st.round3-nought,
    st.lt_trans fl.neg_one fl.nought x,
    fl.lt_asymm fl.nought x,
    fl.lt_asymm fl.nought fl.one fl.nought-lt-one,
  )

  clip-left : (x : F) → fl.lt x fl.nought ≡ true → fl.lt fl.nought (st.round3 (clip x)) ≡ false
  clip-left x h = ground (
    arith,
    st.round3_mono (clip x) fl.nought,
    st.round3_mono fl.nought (clip x),
    st.round3-nought,
    st.lt_trans x fl.nought fl.one,
    fl.lt_asymm x fl.nought,
    fl.lt_asymm fl.neg_one fl.nought fl.neg_one-lt-nought,
  )

  -- Where a step to the right or to the left starts.
  start-right :
      (v : F)
      → fl.eq v v ≡ true
      → let x = if fl.lt v fl.nought then fl.nought else v in
        (fl.eq x x ≡ true) × (fl.lt x fl.nought ≡ false)
  start-right v h = ground (arith, fl.lt_irrefl fl.nought)

  start-left :
      (v : F)
      → fl.eq v v ≡ true
      → let x = if fl.lt fl.nought v then fl.nought else v in
        (fl.eq x x ≡ true) × (fl.lt fl.nought x ≡ false)
  start-left v h = ground (arith, fl.lt_irrefl fl.nought)

  ramp-Points : (dir : Direction) (b : Bool) (x : F) → Points dir (ramp dir b x)
  unfolding ramp
  ramp-Points center b x = refl
  ramp-Points right b x =
      let start = start-right (clip x) (clip-number x) in
      let pos = if_both (λ y. fl.lt fl.nought y ≡ true) b st.ramp_fast_step-pos st.ramp_step-pos in
      clip-right _ (st.add-pos _ _ start.0 start.1 pos)
  ramp-Points left b x =
      let start = start-left (clip x) (clip-number x) in
      let pos = if_both (λ y. fl.lt fl.nought y ≡ true) b st.ramp_fast_step-pos st.ramp_step-pos in
      clip-left _ (st.add-neg _ _ start.0 start.1 (st.negate-neg _ pos))

  ramp-IsUnit : (dir : Direction) (b : Bool) (x : F) → IsUnit (ramp dir b x)
  unfolding ramp
  ramp-IsUnit center b x = nought-IsUnit F
  ramp-IsUnit right b x = round3-IsUnit _ (clamp-IsUnit ⦃fl = fl⦄ _)
  ramp-IsUnit left b x = round3-IsUnit _ (clamp-IsUnit ⦃fl = fl⦄ _)

  -- Whatever the steering was, one step of the ramp leaves it within [-1, 1], and on the side of the
  -- held key or in the center, never on the other side; with no key or both it is exactly 0.
  pub advance_steering-Points :
      (current : F) (k : Keys)
      → IsUnit (advance_steering current k)
        × Points (steering_direction k) (advance_steering current k)
  unfolding advance_steering
  advance_steering-Points current k = (ramp-IsUnit _ k.shift current, ramp-Points _ k.shift current)

  abbrev pub Throttles : Keys → F → Type 0
  Throttles k x =
      ((x ≡ fl.one) × (k.w ≡ true) × (k.s ≡ false))
      ⊎ (((x ≡ fl.neg_one) × (k.w ≡ false) × (k.s ≡ true)) ⊎ ((x ≡ fl.nought) × (k.w ≡ k.s)))

  -- An intent drives forward by W alone, backward by S alone and else not at all, and its steering is
  -- within [-1, 1], given or not.
  pub compute_drive_intent-Throttles :
      (k : Keys) (steering : Option F)
      → let (throttle, wheel) = compute_drive_intent k steering in
        Throttles k throttle × IsUnit wheel
  unfolding compute_drive_intent compute_throttle
  compute_drive_intent-Throttles k none = (ground arith, clamp-IsUnit ⦃fl = fl⦄ _)
  compute_drive_intent-Throttles k (some v) = (ground arith, clamp-IsUnit ⦃fl = fl⦄ _)
