-- ===== src/Bridge/Keys.antt =====
-- remote-direct-bridge/wasd_logic.py: from the keys that are held to throttle and steering. A set of keys
-- is four flags and one for any Shift key, which is all that the code asks of it; the text for the
-- display and the expected values of the actuators, which are shown only, are left out.
pub mod Ramp
mod Tests
use hanium_smart_parkin.Base.{◌≡◌, Bool, true, false, not, ◌&&◌, Option, none, some, if◌then◌else◌}
use hanium_smart_parkin.Base.Float.{Float, min_f, max_f}

pub record Keys : Type 0 where
  pub w : Bool
  pub s : Bool
  pub a : Bool
  pub d : Bool
  pub shift : Bool

-- Which way the steering keys point; both or none of them is the center.
pub data Direction : Type 0 where
  left center right : Direction

-- The constants of the ramp and what the code computes with them, with laws that floats meet.
pub record Steps (F : Type 0) ⦃fl : Float F⦄ : Type 0 where
  -- `STEERING_RAMP_STEP`, `STEERING_RAMP_FAST_STEP` and `0.5`
  pub ramp_step : F
  pub ramp_fast_step : F
  pub half : F
  -- `-1 * x`, `round(x, 3)`
  pub negate : F → F
  pub round3 : F → F
  pub ramp_step-pos : fl.lt fl.nought ramp_step ≡ true
  pub ramp_fast_step-pos : fl.lt fl.nought ramp_fast_step ≡ true
  pub negate-neg : (x : F) → fl.lt fl.nought x ≡ true → fl.lt (negate x) fl.nought ≡ true
  pub lt_trans : (x y z : F) → fl.lt x y ≡ true → fl.lt y z ≡ true → fl.lt x z ≡ true
  -- What is less or greater is no NaN, and only NaN differs from itself.
  pub lt-number : (x y : F) → fl.lt x y ≡ true → fl.eq x x ≡ true
  pub gt-number : (x y : F) → fl.lt x y ≡ true → fl.eq y y ≡ true
  pub add-pos :
      (x y : F)
      → fl.eq x x ≡ true
      → fl.lt x fl.nought ≡ false
      → fl.lt fl.nought y ≡ true
      → fl.lt fl.nought (fl.add x y) ≡ true
  pub add-neg :
      (x y : F)
      → fl.eq x x ≡ true
      → fl.lt fl.nought x ≡ false
      → fl.lt y fl.nought ≡ true
      → fl.lt (fl.add x y) fl.nought ≡ true
  pub round3_mono : (x y : F) → fl.lt y x ≡ false → fl.lt (round3 y) (round3 x) ≡ false
  pub round3-one : round3 fl.one ≡ fl.one
  pub round3-neg_one : round3 fl.neg_one ≡ fl.neg_one
  pub round3-nought : round3 fl.nought ≡ fl.nought

unfoldable pub steering_direction : Keys → Direction
steering_direction k =
    if k.a then (if k.d then center else left) else (if k.d then right else center)

module _ {F : Type 0} ⦃fl : Float F⦄ where
  unfoldable pub compute_throttle : Keys → F
  compute_throttle k =
      if k.w then (if k.s then fl.nought else fl.one) else (if k.s then fl.neg_one else fl.nought)

  -- `max(-1.0, min(1.0, x))`
  abbrev pub clip : F → F
  clip x = max_f fl.neg_one (min_f fl.one x)

module _ {F : Type 0} ⦃fl : Float F⦄ ⦃st : Steps F⦄ where
  -- `direction * x`
  abbrev pub signed : Direction → F → F
  signed left x = st.negate x
  signed center x = fl.nought
  signed right x = x

  -- `value * direction < 0.0`: the wheels point to the other side.
  abbrev pub is_opposite : Direction → F → Bool
  is_opposite left value = fl.lt fl.nought value
  is_opposite center value = false
  is_opposite right value = fl.lt value fl.nought

  -- One step of the ramp towards a side.
  unfoldable pub ramp : Direction → Bool → F → F
  ramp center strong current = fl.nought
  ramp direction strong current =
      let value = clip current in
      let from = if is_opposite direction value then fl.nought else value in
      let step = if strong then st.ramp_fast_step else st.ramp_step in
      st.round3 (clip (fl.add from (signed direction step)))

  unfoldable pub advance_steering : F → Keys → F
  unfolding ramp steering_direction
  advance_steering current k = ramp (steering_direction k) k.shift current

  -- `compute_drive_intent`: throttle and steering
  unfoldable pub compute_drive_intent : Keys → Option F → F × F
  unfolding compute_throttle steering_direction
  compute_drive_intent k (some steering) = (compute_throttle k, clip steering)
  compute_drive_intent k none = (
    compute_throttle k,
    clip (signed (steering_direction k) (if k.shift then fl.one else st.half)),
  )
