-- ===== src/Parking/Recommend.antt =====
-- services.py: the spot that `recommend_spot` gives.
use hanium_smart_parkin.Base.{
  ℕ, ◌≤◌, ◌≡◌, refl, ◌⊎◌, inl, inr, Bool, true, false, Option, List, [], ◌∷◌, if◌then◌else◌, arith,
  All, All-map, In, In-if, if_both, ◌∙◌,
}
use hanium_smart_parkin.Base.Float.{Float}
use hanium_smart_parkin.Base.Arithmetic.{Arithmetic}
use hanium_smart_parkin.Parking.{
  VehicleType, ParkingSpot, Database, Result, done, error, no_vacant_spot, type_rank, is_candidate,
  candidates, scores_below, best, recommend_from, recommend_spot,
}

module _ {F : Type 0} where
  All-if :
      (P : ParkingSpot F → Type 0) (c : Bool) (s : ParkingSpot F) (rest : List (ParkingSpot F))
      → All P (if c then s ∷ rest else rest)
      → ((c ≡ false) ⊎ P s) × All P rest
  All-if P true s rest h = (inr h.0, h.1)
  All-if P false s rest h = (inl refl, h)

  candidates-In :
      (lot : Option ℕ) (ss : List (ParkingSpot F)) (b : ParkingSpot F)
      → In b (candidates lot ss)
      → In b ss × (is_candidate lot b ≡ true)
  unfolding candidates
  candidates-In lot [] b i = absurd i
  candidates-In lot (s ∷ ss) b i = elim (In-if (is_candidate lot s) s b (candidates lot ss) i) [
    | inl (e, c) ↦ (inl e, rw e c)
    | inr j ↦ let (p, q) = candidates-In lot ss b j in (inr p, q)
  ]

  -- What holds of all the candidates holds of every spot that is one.
  All-candidates :
      (P : ParkingSpot F → Type 0) (lot : Option ℕ) (ss : List (ParkingSpot F))
      → All P (candidates lot ss)
      → All (λ s. (is_candidate lot s ≡ false) ⊎ P s) ss
  unfolding candidates
  All-candidates P lot [] h = tt
  All-candidates P lot (s ∷ ss) h =
      let (p, q) = All-if P (is_candidate lot s) s (candidates lot ss) h in
      (p, All-candidates P lot ss q)

module _ {F : Type 0} ⦃fl : Float F⦄ ⦃ar : Arithmetic F⦄ (v : VehicleType) where
  abbrev rank : ParkingSpot F → ℕ
  rank s = type_rank v s.spot_type

  better : ParkingSpot F → ParkingSpot F → ParkingSpot F
  better s b = if scores_below v s b then s else b

  better-le : (s b : ParkingSpot F) → (rank (better s b) ≤ rank s) × (rank (better s b) ≤ rank b)
  unfolding better scores_below
  better-le s b = ground arith

  better-one : (s b : ParkingSpot F) → (better s b ≡ s) ⊎ (better s b ≡ b)
  unfolding better
  better-one s b = if_both (λ x. (x ≡ s) ⊎ (x ≡ b)) (scores_below v s b) (inl refl) (inr refl)

  best-In :
      (b : ParkingSpot F) (ss : List (ParkingSpot F)) → (best v b ss ≡ b) ⊎ In (best v b ss) ss
  unfolding best better
  best-In b [] = inl refl
  best-In b (s ∷ ss) = elim (best-In (better s b) ss) [
    | inl e ↦ elim (better-one s b) [ inl q ↦ inr (inl (e ∙ q)) | inr q ↦ inl (e ∙ q) ]
    | inr i ↦ inr (inr i)
  ]

  best-le :
      (b : ParkingSpot F) (ss : List (ParkingSpot F))
      → (rank (best v b ss) ≤ rank b) × All (λ s. rank (best v b ss) ≤ rank s) ss
  unfolding best better
  best-le b [] = (omega arith, tt)
  best-le b (s ∷ ss) =
      let (p, q) = best-le (better s b) ss in
      (omega (arith, p, better-le s b), (omega (arith, p, better-le s b), q))

  -- What `recommend_spot` gives for a lot: an error only if no spot of it is vacant; else a vacant
  -- spot of it, such that no other one has a type that suits the vehicle better.
  abbrev pub Suits : Option ℕ → Database F → Result F (ParkingSpot F) → Type 0
  Suits lot db (error e) = (e ≡ no_vacant_spot) × All (λ s. is_candidate lot s ≡ false) db.spots
  Suits lot db (done db' b) =
      (db' ≡ record db { policy_logs = db'.policy_logs })
      × In b db.spots
      × (is_candidate lot b ≡ true)
      × All (λ s. (is_candidate lot s ≡ false) ⊎ (rank b ≤ rank s)) db.spots

  recommend_from-Suits :
      (lot : Option ℕ) (db : Database F) (cs : List (ParkingSpot F))
      → candidates lot db.spots ≡ cs
      → Suits lot db (recommend_from lot v cs db)
  unfolding recommend_from
  recommend_from-Suits lot db [] e =
      let none_left : All (λ s. ⊥) (candidates lot db.spots) = rw e tt in
      (
        refl,
        All-map (λ s h. elim h [ inl c ↦ c | inr x ↦ absurd x ]) db.spots
            (All-candidates (λ s. ⊥) lot db.spots none_left),
      )
  recommend_from-Suits lot db (s ∷ ss) e =
      let chosen : In (best v s ss) (s ∷ ss) = elim (best-In s ss) [
        | inl q ↦ inl q
        | inr i ↦ inr i
      ] in
      let least : All (λ u. rank (best v s ss) ≤ rank u) (s ∷ ss) = best-le s ss in
      let (i, c) = candidates-In lot db.spots (best v s ss) (rw e chosen) in
      (refl, i, c, All-candidates (λ u. rank (best v s ss) ≤ rank u) lot db.spots (rw e least))

  -- `recommend_spot` raises only if no spot of the lot (of any lot, if none is given) is vacant, and then
  -- with that error. Else it gives a vacant spot of the lot, such that the vehicle prefers the type of no
  -- other vacant spot of the lot, and changes nothing but the log of the policy.
  pub recommend_spot-Suits :
      (lot : Option ℕ) (db : Database F) → Suits lot db (recommend_spot lot v db)
  unfolding recommend_spot
  recommend_spot-Suits lot db = recommend_from-Suits lot db (candidates lot db.spots) refl
