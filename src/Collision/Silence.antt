-- ===== src/Collision/Silence.antt =====
-- safety.py: when the monitor is silent.
use hanium_smart_parkin.Base.{
  ℕ, zero, suc, ◌<◌, ◌≡◌, refl, ◌⊎◌, ◌↔◌, inl, inr, Bool, true, false, ◌&&◌, ◌||◌, Bool-cases,
  Option, none, some, is_some, List, [], ◌∷◌, ◌++◌, get_elem?, arith,
}
use hanium_smart_parkin.Base.Float.{Float}
use hanium_smart_parkin.Base.Arithmetic.{Arithmetic}
use hanium_smart_parkin.Collision.{
  VehiclePose, SafetyEvent, CollisionMonitor, hypot, sub, seg_seg_distance, check_paths, check_pair,
  noted, check_rest, check,
}

some_inj : {A : Type 0} (x y : A) → ◌≡◌ {A = Option A} (some x) (some y) → x ≡ y
some_inj x y e = cc

moves : (a b : Bool) → (a || b) ≡ true → (a ≡ true) ⊎ (b ≡ true)
moves true b h = inl refl
moves false b h = inr h

module _ {F : Type 0} ⦃fl : Float F⦄ ⦃ar : Arithmetic F⦄ (monitor : CollisionMonitor F) where
  -- One of the two moves, and they are nearer than the safety distance.
  abbrev pub AreTooNear : VehiclePose F → VehiclePose F → Type 0
  AreTooNear a b =
      ((a.is_moving ≡ true) ⊎ (b.is_moving ≡ true))
      × (fl.lt (hypot (sub a.position b.position)) monitor.safety_distance_mm ≡ true)

  -- Both move, and the ways to their next waypoints come nearer than the clearance.
  abbrev pub AreCrossing : VehiclePose F → VehiclePose F → Type 0
  AreCrossing a b =
      (v : F × F) × (w : F × F) × (a.next_waypoint ≡ some v)
      × (b.next_waypoint ≡ some w)
      × (a.is_moving ≡ true)
      × (b.is_moving ≡ true)
      × (fl.lt (seg_seg_distance a.position v b.position w) monitor.path_clearance_mm ≡ true)

  abbrev pub Conflict : VehiclePose F → VehiclePose F → Type 0
  Conflict a b = AreTooNear a b ⊎ AreCrossing a b

  near_warns : (a b : VehiclePose F) → AreTooNear a b → is_some (check_pair monitor a b) ≡ true
  unfolding check_pair
  near_warns a b (inl m, n) = rw (n, m) refl
  near_warns a b (inr m, n) = elim (Bool-cases a.is_moving) [
    | inl e ↦ rw (n, e) refl
    | inr e ↦ rw (n, e, m) refl
  ]

  paths_warn :
      (a b : VehiclePose F)
      → AreCrossing a b
      → is_some (check_paths monitor a b a.next_waypoint b.next_waypoint) ≡ true
  unfolding check_paths
  paths_warn a b (v, w, ea, eb, ma, mb, n) = rw (ea, eb, ma, mb, n) refl

  crossing_warns : (a b : VehiclePose F) → AreCrossing a b → is_some (check_pair monitor a b) ≡ true
  unfolding check_pair
  crossing_warns a b c = ground (arith, paths_warn a b c)

  paths_conflict :
      (a b : VehiclePose F) (o p : Option (F × F))
      → a.next_waypoint ≡ o
      → b.next_waypoint ≡ p
      → is_some (check_paths monitor a b o p) ≡ true
      → AreCrossing a b
  unfolding check_paths
  paths_conflict a b none p ea eb h = absurd (cc)
  paths_conflict a b (some v) none ea eb h = absurd (cc)
  paths_conflict a b (some v) (some w) ea eb h =
      (v, w, ea, eb, ground (arith, h), ground (arith, h), ground (arith, h))

  warned-Conflict : (a b : VehiclePose F) → is_some (check_pair monitor a b) ≡ true → Conflict a b
  unfolding check_pair
  warned-Conflict a b h =
      let near = fl.lt (hypot (sub a.position b.position)) monitor.safety_distance_mm in
      elim (Bool-cases (near && (a.is_moving || b.is_moving))) [
        | inl e ↦ inl (moves a.is_moving b.is_moving (ground (arith, e)), ground (arith, e))
        | inr e ↦ inr (paths_conflict a b a.next_waypoint b.next_waypoint refl refl (rw e at h))
      ]

  silent_none : (o : Option (SafetyEvent F)) → ¬ (is_some o ≡ true) → o ≡ none
  silent_none none h = refl
  silent_none (some e) h = absurd (h refl)

  -- No conflict of the cars at two places, the one before the other.
  abbrev pub HasNoConflict : List (VehiclePose F) → Type 0
  HasNoConflict ps =
      (i j : ℕ) (a b : VehiclePose F)
      → i < j
      → get_elem? ps i ≡ some a
      → get_elem? ps j ≡ some b
      → ¬ Conflict a b

  abbrev IsFree : VehiclePose F → List (VehiclePose F) → Type 0
  IsFree a bs = (j : ℕ) (b : VehiclePose F) → get_elem? bs j ≡ some b → ¬ Conflict a b

  append-nil : (es fs : List (SafetyEvent F)) → es ++ fs ≡ [] → (es ≡ []) × (fs ≡ [])
  append-nil [] fs h = (refl, h)
  append-nil (e ∷ es) fs h = ground arith

  noted_nil :
      (o : Option (SafetyEvent F)) (es : List (SafetyEvent F))
      → noted monitor o es ≡ []
      → (o ≡ none) × (es ≡ [])
  noted_nil none es h = (refl, h)
  noted_nil (some e) es h = ground arith

  Conflict-warns : (a b : VehiclePose F) → Conflict a b → is_some (check_pair monitor a b) ≡ true
  Conflict-warns a b (inl n) = near_warns a b n
  Conflict-warns a b (inr c) = crossing_warns a b c

  silent-IsFree :
      (a : VehiclePose F) (bs : List (VehiclePose F)) → check_rest monitor a bs ≡ [] → IsFree a bs
  unfolding check_rest
  silent-IsFree a [] h j b e k = absurd (ground (arith, e))
  silent-IsFree a (b' ∷ bs) h zero b e k =
      let (n, _) = noted_nil (check_pair monitor a b') (check_rest monitor a bs) h in
      let w : is_some (check_pair monitor a b') ≡ true =
        Conflict-warns a b' (rw (some_inj b' b e) k) in
      cc
  silent-IsFree a (b' ∷ bs) h (suc j) b e k =
      let (_, rest) = noted_nil (check_pair monitor a b') (check_rest monitor a bs) h in
      silent-IsFree a bs rest j b e k

  IsFree-silent :
      (a : VehiclePose F) (bs : List (VehiclePose F)) → IsFree a bs → check_rest monitor a bs ≡ []
  unfolding check_rest
  IsFree-silent a [] h = refl
  IsFree-silent a (b ∷ bs) h =
      rw
        (
          silent_none (check_pair monitor a b) (λ w. h 0 b refl (warned-Conflict a b w)),
          IsFree-silent a bs (λ j c e. h (suc j) c e),
        )
        refl

  silent-HasNoConflict : (ps : List (VehiclePose F)) → check monitor ps ≡ [] → HasNoConflict ps
  unfolding check
  silent-HasNoConflict [] h i j a b l ei ej k = absurd (ground (arith, ei))
  silent-HasNoConflict (p ∷ ps) h zero zero a b l ei ej k = absurd (omega arith)
  silent-HasNoConflict (p ∷ ps) h (suc i) zero a b l ei ej k = absurd (omega arith)
  silent-HasNoConflict (p ∷ ps) h zero (suc j) a b l ei ej k =
      let (first, _) = append-nil (check_rest monitor p ps) (check monitor ps) h in
      silent-IsFree p ps first j b ej (rw (some_inj p a ei) k)
  silent-HasNoConflict (p ∷ ps) h (suc i) (suc j) a b l ei ej k =
      let (_, rest) = append-nil (check_rest monitor p ps) (check monitor ps) h in
      silent-HasNoConflict ps rest i j a b (omega arith) ei ej k

  HasNoConflict-silent : (ps : List (VehiclePose F)) → HasNoConflict ps → check monitor ps ≡ []
  unfolding check
  HasNoConflict-silent [] h = refl
  HasNoConflict-silent (p ∷ ps) h =
      rw
        (
          IsFree-silent p ps (λ j b e. h 0 (suc j) p b (omega arith) refl e),
          HasNoConflict-silent ps (λ i j a b l ei ej. h (suc i) (suc j) a b (omega arith) ei ej),
        )
        refl

  -- The monitor is silent exactly if the cars at no two places of the list are in conflict: one moves and
  -- they are nearer than the safety distance, or both move and the ways to their next waypoints come
  -- nearer than the clearance.
  pub check-silent_iff : (ps : List (VehiclePose F)) → (check monitor ps ≡ []) ↔ HasNoConflict ps
  check-silent_iff ps = (silent-HasNoConflict ps, HasNoConflict-silent ps)
