-- ===== src/Collision/Waiter.antt =====
-- safety.py: whom the monitor stops.
use hanium_smart_parkin.Base.{
  ◌≡◌, refl, ◌⊎◌, inl, inr, true, ◌||◌, Option, none, some, List, [], ◌∷◌, arith, All, All-append,
  All-map, In,
}
use hanium_smart_parkin.Base.Float.{Float}
use hanium_smart_parkin.Base.Arithmetic.{Arithmetic}
use hanium_smart_parkin.Collision.{
  VehiclePose, SafetyEvent, CollisionMonitor, pick_waiter, pick_moving_waiter, check_paths,
  check_pair, noted, check_rest, check,
}

module _ {F : Type 0} ⦃fl : Float F⦄ where
  -- Two numbers of which one is not NaN: one is less, or they are equal.
  abbrev pub AreComparable : F → F → Type 0
  AreComparable x y = (fl.eq x y ≡ true) ⊎ ((fl.lt x y ≡ true) ⊎ (fl.lt y x ≡ true))

  pick_waiter-swap :
      (a b : VehiclePose F)
      → AreComparable a.progress b.progress
      → pick_waiter a b ≡ pick_waiter b a
  unfolding pick_waiter
  pick_waiter-swap a b h = ground (
    arith,
    fl.eq_symm a.progress b.progress,
    fl.eq_symm b.progress a.progress,
    fl.lt_asymm a.progress b.progress,
    fl.lt_asymm b.progress a.progress,
    fl.not_lt_of_eq a.progress b.progress,
    fl.not_lt_of_eq b.progress a.progress,
  )

  -- Which of two cars has to wait, if one of them moves and their progress can be compared, does not
  -- depend on the order in which they are looked at.
  pub pick_moving_waiter-swap :
      (a b : VehiclePose F)
      → AreComparable a.progress b.progress
      → (a.is_moving || b.is_moving) ≡ true
      → pick_moving_waiter a b ≡ pick_moving_waiter b a
  unfolding pick_moving_waiter
  pick_moving_waiter-swap a b h m = ground (arith, pick_waiter-swap a b h)

module _ {F : Type 0} ⦃fl : Float F⦄ ⦃ar : Arithmetic F⦄ (monitor : CollisionMonitor F) where
  -- The first car stops for the second one, and moves.
  abbrev pub StopsFor : VehiclePose F → VehiclePose F → SafetyEvent F → Type 0
  StopsFor a b e = (e.stop_car_id ≡ a.car_id) × (e.keep_car_id ≡ b.car_id) × (a.is_moving ≡ true)

  abbrev pub Warns : VehiclePose F → VehiclePose F → Option (SafetyEvent F) → Type 0
  Warns a b none = Unit
  Warns a b (some e) = StopsFor a b e ⊎ StopsFor b a e

  -- An event about two cars stops one of them for the other one, and the stopped one is moving.
  pub check_pair-Warns : (a b : VehiclePose F) → Warns a b (check_pair monitor a b)
  unfolding check_pair check_paths pick_moving_waiter pick_waiter
  check_pair-Warns a b = ground arith

  -- The car that an event stops is among the cars and moves, and so it is for the car that goes on,
  -- which may stand.
  abbrev pub Stops : List (VehiclePose F) → SafetyEvent F → Type 0
  Stops ps e =
      (p : VehiclePose F) × (q : VehiclePose F) × In p ps
      × In q ps
      × (p.is_moving ≡ true)
      × (e.stop_car_id ≡ p.car_id)
      × (e.keep_car_id ≡ q.car_id)

  Stops-more :
      (a : VehiclePose F) (ps : List (VehiclePose F)) (e : SafetyEvent F)
      → Stops ps e
      → Stops (a ∷ ps) e
  Stops-more a ps e (p, q, m, n, v, s, k) = (p, q, inr m, inr n, v, s, k)

  event-Stops :
      (a b : VehiclePose F) (ps : List (VehiclePose F)) (e : SafetyEvent F)
      → In a ps
      → In b ps
      → Warns a b (some e)
      → Stops ps e
  event-Stops a b ps e m n (inl (s, k, v)) = (a, b, m, n, v, s, k)
  event-Stops a b ps e m n (inr (s, k, v)) = (b, a, n, m, v, s, k)

  noted-Stops :
      (a b : VehiclePose F) (ps : List (VehiclePose F)) (o : Option (SafetyEvent F))
      (rest : List (SafetyEvent F))
      → In a ps
      → In b ps
      → Warns a b o
      → All (Stops ps) rest
      → All (Stops ps) (noted monitor o rest)
  noted-Stops a b ps none rest m n h k = k
  noted-Stops a b ps (some e) rest m n h k = (event-Stops a b ps e m n h, k)

  check_rest-Stops :
      (a : VehiclePose F) (bs ps : List (VehiclePose F))
      → In a ps
      → ((b : VehiclePose F) → In b bs → In b ps)
      → All (Stops ps) (check_rest monitor a bs)
  unfolding check_rest
  check_rest-Stops a [] ps m n = tt
  check_rest-Stops a (b ∷ bs) ps m n =
      noted-Stops a b ps (check_pair monitor a b) (check_rest monitor a bs) m (n b (inl refl))
        (check_pair-Warns a b) (check_rest-Stops a bs ps m (λ c i. n c (inr i)))

  -- Each event of a check stops a car that moves, and both cars it names are among those given.
  pub check-Stops : (ps : List (VehiclePose F)) → All (Stops ps) (check monitor ps)
  unfolding check
  check-Stops [] = tt
  check-Stops (a ∷ bs) =
      All-append (Stops (a ∷ bs)) (check_rest monitor a bs) (check monitor bs)
        (check_rest-Stops a bs (a ∷ bs) (inl refl) (λ b i. inr i))
        (All-map (Stops-more a bs) (check monitor bs) (check-Stops bs))
