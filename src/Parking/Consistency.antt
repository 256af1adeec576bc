-- ===== src/Parking/Consistency.antt =====
-- services.py: when the tables of the database agree with one another.
use hanium_smart_parkin.Base.{
  ℕ, ◌≡◌, refl, ◌≢◌, ◌⊎◌, inl, inr, Bool-cases, true, some, List, [], ◌∷◌, ◌==◌, if◌then◌else◌,
  arith, All, sym, ◌∙◌,
}
use hanium_smart_parkin.Parking.{
  SpotStatus, vacant, occupied, ParkingSpot, EntryExit, Database, is_vacant,
}
use hanium_smart_parkin.Parking.Services.{set_status}
use hanium_smart_parkin.Parking.Tables.{
  status_of, status_of-set_same, status_of-set_other, HasLeft, AreAllApart,
}

pub vacant_of : (s : SpotStatus) → is_vacant s ≡ true → s ≡ vacant
vacant_of vacant e = refl
vacant_of _ e = cc

pub same : (m n : ℕ) → (m == n) ≡ true → m ≡ n
same m n e = ground arith

module _ {F : Type 0} where
  -- A spot is the one that its key finds.
  abbrev pub IsFound : List (ParkingSpot F) → ParkingSpot F → Type 0
  IsFound ss s = status_of ss s.spot_id ≡ some s.status

  -- The spot of a transaction that is active is occupied.
  abbrev pub Stands : List (ParkingSpot F) → EntryExit → Type 0
  Stands ss t = HasLeft t ⊎ (status_of ss t.spot ≡ some occupied)

  -- Spots have keys of their own, the spots of the active transactions are occupied, and no two of
  -- these have the same vehicle or the same spot.
  pub record IsConsistent (db : Database F) : Type 0 where
    pub found : All (IsFound db.spots) db.spots
    pub stands : All (Stands db.spots) db.transactions
    pub apart : AreAllApart db.transactions

  IsFound-set_status :
      (st : SpotStatus) (id : ℕ) (ss : List (ParkingSpot F)) (s : ParkingSpot F)
      → IsFound ss s
      → IsFound (set_status st id ss) (if s.spot_id == id then record s { status = st } else s)
  IsFound-set_status st id ss s h = elim (Bool-cases (s.spot_id == id)) [
    | inl e ↦ rw (e, sym (same s.spot_id id e)) (status_of-set_same st s.status s.spot_id ss h)
    | inr e ↦ rw e (status_of-set_other st id s.spot_id ss (λ q. ground (arith, e, q)) ∙ h)
  ]

  All-set_status :
      (P Q : ParkingSpot F → Type 0) (st : SpotStatus) (id : ℕ)
      → ((s : ParkingSpot F) → P s → Q (if s.spot_id == id then record s { status = st } else s))
      → (ss : List (ParkingSpot F)) → All P ss
      → All Q (set_status st id ss)
  unfolding set_status
  All-set_status P Q st id f [] h = tt
  All-set_status P Q st id f (s ∷ ss) h = (f s h.0, All-set_status P Q st id f ss h.1)

  pub set_status-keeps :
      (st : SpotStatus) (id : ℕ) (ss : List (ParkingSpot F))
      → All (IsFound ss) ss
      → All (IsFound (set_status st id ss)) (set_status st id ss)
  set_status-keeps st id ss h =
      All-set_status (IsFound ss) (IsFound (set_status st id ss)) st id
        (IsFound-set_status st id ss) ss h

  -- A spot that is vacant is that of no active transaction.
  pub away :
      (ss : List (ParkingSpot F)) (b : ParkingSpot F) (t : EntryExit)
      → IsFound ss b
      → b.status ≡ vacant
      → Stands ss t
      → HasLeft t ⊎ (t.spot ≢ b.spot_id)
  away ss b t f v (inl h) = inl h
  away ss b t f v (inr h) = inr (λ e. absurd (cc))
