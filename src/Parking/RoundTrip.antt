-- ===== src/Parking/RoundTrip.antt =====
-- services.py: an exit takes back what the entry before it has done to the spots.
use hanium_smart_parkin.Base.{
  ℕ, suc, ◌≡◌, refl, ◌≢◌, inl, inr, Bool-cases, true, Option, none, some, List, [], ◌∷◌, ◌==◌,
  arith, All-In, sym, ◌∙◌, ap,
}
use hanium_smart_parkin.Base.Float.{Float}
use hanium_smart_parkin.Base.Arithmetic.{Arithmetic}
use hanium_smart_parkin.Parking.{
  VehicleType, vacant, occupied, Vehicle, ParkingSpot, EntryExit, RoutePlan, Database, Result, done,
  error, recommend_spot,
}
use hanium_smart_parkin.Parking.Services.{
  is_active_of, active_of, set_status, register, occupy, enter_if_free, process_entry, leave,
  process_exit, is_known,
}
use hanium_smart_parkin.Parking.Recommend.{Suits, recommend_spot-Suits}
use hanium_smart_parkin.Parking.Tables.{status_of, status_of-set_same, status_of-set_other}
use hanium_smart_parkin.Parking.Consistency.{IsConsistent, IsFound, same}
use hanium_smart_parkin.Parking.Preserved.{left, vacant_candidate}

register-is_known :
    (plate : ℕ) (k : VehicleType) (vs : List Vehicle) → is_known plate (register plate k vs) ≡ true
unfolding is_known register
register-is_known plate k [] = ground arith
register-is_known plate k (v ∷ vs) = ground (arith, register-is_known plate k vs)

module _ {F : Type 0} where
  -- A vacant spot that has been occupied and set free again: every spot has the status it had.
  freed :
      (ss : List (ParkingSpot F)) (id j : ℕ)
      → status_of ss id ≡ some vacant
      → status_of (set_status vacant id (set_status occupied id ss)) j ≡ status_of ss j
  freed ss id j h = elim (Bool-cases (j == id)) [
    | inl e ↦ rw (same j id e) (
        status_of-set_same vacant occupied id (set_status occupied id ss)
          (status_of-set_same occupied vacant id ss h)
        ∙ sym h)
    | inr e ↦
        let n : j ≢ id = λ q. ground (arith, e, q) in
        status_of-set_other vacant id j (set_status occupied id ss) n
        ∙ status_of-set_other occupied id j ss n
  ]

is_now_active :
    (plate : ℕ) (t : EntryExit)
    → t.vehicle ≡ plate
    → t.exit_time ≡ none
    → is_active_of plate t ≡ true
is_now_active plate t v x = ground (arith, v, x)

newly_active :
    (plate : ℕ) (t : EntryExit) (ts : List EntryExit)
    → t.vehicle ≡ plate
    → t.exit_time ≡ none
    → active_of plate ts ≡ []
    → active_of plate (t ∷ ts) ≡ t ∷ []
unfolding active_of
newly_active plate t ts v x a = rw (is_now_active plate t v x, a) refl

module _ {F : Type 0} (later plate : ℕ) where
  exits :
      (db : Database F) (t : EntryExit)
      → is_known plate db.vehicles ≡ true
      → active_of plate db.transactions ≡ t ∷ []
      → process_exit later plate db ≡ leave (t ∷ []) later plate db
  unfolding process_exit
  exits db t k a = rw (k, a) refl

module _ {F : Type 0} ⦃fl : Float F⦄ ⦃ar : Arithmetic F⦄ (now later plate j : ℕ) where
  -- The exit for the transaction `t` goes through, and the spot `j` has the status it has in `ss`.
  abbrev pub TakesBack : List (ParkingSpot F) → EntryExit → Result F EntryExit → Type 0
  TakesBack ss t (error e) = ⊥
  TakesBack ss t (done db'' t') =
      (t' ≡ record t { exit_time = some later }) × (status_of db''.spots j ≡ status_of ss j)

  -- What holds of an entry, unless it is refused.
  abbrev pub IsTakenBack : List (ParkingSpot F) → Result F (EntryExit × RoutePlan F) → Type 0
  IsTakenBack ss (error e) = Unit
  IsTakenBack ss (done db' (t, r)) = TakesBack ss t (process_exit later plate db')

  occupy-IsTakenBack :
      (k : VehicleType) (lot : Option ℕ) (db : Database F) (r : Result F (ParkingSpot F))
      → IsConsistent db
      → Suits k lot db r
      → is_known plate db.vehicles ≡ true
      → active_of plate db.transactions ≡ []
      → IsTakenBack db.spots (occupy now plate r)
  unfolding occupy leave
  occupy-IsTakenBack k lot db (error e) c s v a = tt
  occupy-IsTakenBack k lot db (done db' b) c s v a =
      let t : EntryExit = record {
        transaction_id = suc db'.last_transaction_id;
        vehicle = plate;
        spot = b.spot_id;
        entry_time = now;
        exit_time = none;
      } in
      let spots_of = λ (ss : List (ParkingSpot F)).
        status_of (set_status vacant b.spot_id (set_status occupied b.spot_id ss)) j in
      let free : status_of db.spots b.spot_id ≡ some vacant =
        All-In (IsFound db.spots) b db.spots c.found s.1 ∙ ap some (vacant_candidate lot b s.2) in
      let leaving =
        exits later plate (left db (occupy now plate (done db' b))) t
          (rw (ap (λ d. d.vehicles) s.0) v)
          (newly_active plate t db'.transactions refl refl (rw (ap (λ d. d.transactions) s.0) a)) in
      rw leaving (refl, ap (λ d. spots_of d.spots) s.0 ∙ freed db.spots b.spot_id j free)

  enter-IsTakenBack :
      (k : VehicleType) (lot : Option ℕ) (db : Database F) (ts : List EntryExit)
      → IsConsistent db
      → is_known plate db.vehicles ≡ true
      → active_of plate db.transactions ≡ ts
      → IsTakenBack db.spots (enter_if_free ts now plate k lot db)
  unfolding enter_if_free
  enter-IsTakenBack k lot db (t ∷ ts) c v a = tt
  enter-IsTakenBack k lot db [] c v a =
      occupy-IsTakenBack k lot db (recommend_spot lot k db) c (recommend_spot-Suits k lot db) v a

  -- In tables that agree with one another, a vehicle that has been let in can leave: its exit ends the
  -- transaction that the entry has begun, and every spot has again the status that it had before.
  pub process_entry-IsTakenBack :
      (k : VehicleType) (lot : Option ℕ) (db : Database F)
      → IsConsistent db
      → IsTakenBack db.spots (process_entry now plate k lot db)
  unfolding process_entry
  process_entry-IsTakenBack k lot db c =
      let known = record db { vehicles = register plate k db.vehicles } in
      enter-IsTakenBack k lot known (active_of plate db.transactions)
        (record { found = c.found; stands = c.stands; apart = c.apart })
        (register-is_known plate k db.vehicles) refl
