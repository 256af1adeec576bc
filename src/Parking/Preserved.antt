-- ===== src/Parking/Preserved.antt =====
-- services.py: an entry and an exit leave tables that agree with one another.
use hanium_smart_parkin.Base.{
  ℕ, suc, ◌≡◌, refl, ◌≢◌, ◌⊎◌, inl, inr, Bool-cases, true, false, Option, none, List, [], ◌∷◌, ◌==◌,
  arith, All, All-map, All-In, All-map2, In, if_both, sym, is_some, ◌∙◌, ap,
}
use hanium_smart_parkin.Base.Float.{Float}
use hanium_smart_parkin.Base.Arithmetic.{Arithmetic}
use hanium_smart_parkin.Parking.{
  VehicleType, SpotStatus, vacant, occupied, ParkingSpot, EntryExit, Database, Result, done, error,
  recommend_spot, is_candidate,
}
use hanium_smart_parkin.Parking.Services.{
  is_active_of, active_of, set_exit, set_status, register, occupy, enter_if_free, process_entry,
  leave, process_exit, is_known,
}
use hanium_smart_parkin.Parking.Recommend.{Suits, recommend_spot-Suits}
use hanium_smart_parkin.Parking.Tables.{
  status_of-set_same, status_of-set_other, HasLeft, AreApart, apart_from, exited, All-set_exit,
  set_exit-AreAllApart, active_of-In, none_active,
}
use hanium_smart_parkin.Parking.Consistency.{
  IsConsistent, IsFound, Stands, set_status-keeps, away, vacant_of,
}

-- The services, as calls.
pub data Call : Type 0 where
  entry_call : ℕ → ℕ → VehicleType → Option ℕ → Call
  exit_call : ℕ → ℕ → Call

-- The new transaction is apart from one that is not of its vehicle or not active, and that has
-- another spot or is not active.
new_apart :
    (plate : ℕ) (t u : EntryExit)
    → t.vehicle ≡ plate
    → is_active_of plate u ≡ false
    → HasLeft u ⊎ (u.spot ≢ t.spot)
    → AreApart t u
new_apart plate t u v a (inl l) = inr (inl l)
new_apart plate t u v a (inr n) = elim (Bool-cases (is_some u.exit_time)) [
  | inl l ↦ inr (inl l)
  | inr l ↦ inr (inr (λ e. ground (arith, e, v, a, l), λ e. n (sym e)))
]

spot_apart :
    (plate : ℕ) (t u : EntryExit)
    → is_active_of plate t ≡ true
    → AreApart t u
    → HasLeft u ⊎ (u.spot ≢ t.spot)
spot_apart plate t u a (inl l) = ground (arith, a, l)
spot_apart plate t u a (inr (inl l)) = inl l
spot_apart plate t u a (inr (inr (v, s))) = inr (λ e. s (sym e))

its_own :
    (id : ℕ) (t u : EntryExit) → t.transaction_id ≡ id → u ≡ t → (u.transaction_id == id) ≡ true
its_own id t u e q = ground (arith, e, ap (λ x. x.transaction_id) q)

module _ {F : Type 0} where
  -- What a service leaves: after an error, the database as it was.
  abbrev pub left : {A : Type 0} → Database F → Result F A → Database F
  left db (done db' a) = db'
  left db (error e) = db

  set_status-Stands :
      (st : SpotStatus) (id : ℕ) (ss : List (ParkingSpot F)) (t : EntryExit)
      → HasLeft t ⊎ (t.spot ≢ id)
      → Stands ss t
      → Stands (set_status st id ss) t
  set_status-Stands st id ss t (inl l) h = inl l
  set_status-Stands st id ss t (inr n) (inl l) = inl l
  set_status-Stands st id ss t (inr n) (inr h) = inr (status_of-set_other st id t.spot ss n ∙ h)

  entered-IsConsistent :
      (db db' : Database F) (plate : ℕ) (b : ParkingSpot F) (t : EntryExit)
      → IsConsistent db
      → In b db.spots
      → b.status ≡ vacant
      → All (λ u. is_active_of plate u ≡ false) db.transactions
      → t.vehicle ≡ plate
      → t.spot ≡ b.spot_id
      → db'.spots ≡ set_status occupied b.spot_id db.spots
      → db'.transactions ≡ t ∷ db.transactions
      → IsConsistent db'
  entered-IsConsistent db db' plate b t c i v n tv ts es et =
      let f = All-In (IsFound db.spots) b db.spots c.found i in
      let free = All-map (λ u h. away db.spots b u f v h) db.transactions c.stands in
      record {
        found = rw es (set_status-keeps occupied b.spot_id db.spots c.found);
        stands =
            rw (es, et)
              (
                inr (rw ts (status_of-set_same occupied b.status b.spot_id db.spots f)),
                All-map2 (λ u h k. set_status-Stands occupied b.spot_id db.spots u h k)
                    db.transactions free c.stands,
              );
        apart = rw et (
          All-map2 (λ u a h. new_apart plate t u tv a (rw ts h)) db.transactions n free,
          c.apart,
        );
      }

  exited-Stands :
      (now id plate : ℕ) (ss : List (ParkingSpot F)) (t u : EntryExit)
      → t.transaction_id ≡ id
      → is_active_of plate t ≡ true
      → (u ≡ t) ⊎ AreApart t u
      → Stands ss u
      → Stands (set_status vacant t.spot ss) (exited now id u)
  exited-Stands now id plate ss t u e a (inl q) k = rw (its_own id t u e q) (inl refl)
  exited-Stands now id plate ss t u e a (inr p) k =
      if_both (Stands (set_status vacant t.spot ss)) (u.transaction_id == id) (inl refl)
        (set_status-Stands vacant t.spot ss u (spot_apart plate t u a p) k)

  left-IsConsistent :
      (now plate : ℕ) (db : Database F) (t : EntryExit)
      → IsConsistent db
      → In t db.transactions
      → is_active_of plate t ≡ true
      → (db' : Database F) → db'.spots ≡ set_status vacant t.spot db.spots
      → db'.transactions ≡ set_exit now t.transaction_id db.transactions
      → IsConsistent db'
  left-IsConsistent now plate db t c i a db' es et =
      let others = apart_from t db.transactions c.apart i in
      record {
        found = rw es (set_status-keeps vacant t.spot db.spots c.found);
        stands =
            rw (es, et)
              (All-set_exit (λ u. ((u ≡ t) ⊎ AreApart t u) × Stands db.spots u)
                (Stands (set_status vacant t.spot db.spots)) now t.transaction_id
                (λ u h. exited-Stands now t.transaction_id plate db.spots t u refl a h.0 h.1)
                db.transactions (All-map2 (λ u h k. (h, k)) db.transactions others c.stands));
        apart = rw et (set_exit-AreAllApart now t.transaction_id db.transactions c.apart);
      }

module _ {F : Type 0} ⦃fl : Float F⦄ ⦃ar : Arithmetic F⦄ where
  pub vacant_candidate :
      (lot : Option ℕ) (s : ParkingSpot F) → is_candidate lot s ≡ true → s.status ≡ vacant
  vacant_candidate lot s e = vacant_of s.status (ground (arith, e))

  occupy-IsConsistent :
      (now plate : ℕ) (k : VehicleType) (lot : Option ℕ) (db0 db : Database F)
      (r : Result F (ParkingSpot F))
      → IsConsistent db0
      → IsConsistent db
      → Suits k lot db r
      → All (λ u. is_active_of plate u ≡ false) db.transactions
      → IsConsistent (left db0 (occupy now plate r))
  unfolding occupy
  occupy-IsConsistent now plate k lot db0 db (error e) c0 c s n = c0
  occupy-IsConsistent now plate k lot db0 db (done db' b) c0 c s n =
      let t : EntryExit = record {
        transaction_id = suc db'.last_transaction_id;
        vehicle = plate;
        spot = b.spot_id;
        entry_time = now;
        exit_time = none;
      } in
      entered-IsConsistent db (left db0 (occupy now plate (done db' b))) plate b t c s.1
        (vacant_candidate lot b s.2) n refl refl
        (ap (λ d. set_status occupied b.spot_id d.spots) s.0) (ap (λ d. t ∷ d.transactions) s.0)

  enter-IsConsistent :
      (now plate : ℕ) (k : VehicleType) (lot : Option ℕ) (db0 db : Database F) (ts : List EntryExit)
      → IsConsistent db0
      → IsConsistent db
      → active_of plate db.transactions ≡ ts
      → IsConsistent (left db0 (enter_if_free ts now plate k lot db))
  unfolding enter_if_free
  enter-IsConsistent now plate k lot db0 db (t ∷ ts) c0 c e = c0
  enter-IsConsistent now plate k lot db0 db [] c0 c e =
      occupy-IsConsistent now plate k lot db0 db (recommend_spot lot k db) c0 c
        (recommend_spot-Suits k lot db) (none_active plate db.transactions e)

  leave-IsConsistent :
      (now plate : ℕ) (db : Database F) (ts : List EntryExit)
      → IsConsistent db
      → active_of plate db.transactions ≡ ts
      → IsConsistent (left db (leave ts now plate db))
  unfolding leave
  leave-IsConsistent now plate db [] c e = c
  leave-IsConsistent now plate db (t ∷ u ∷ ts) c e = c
  leave-IsConsistent now plate db (t ∷ []) c e =
      let first : In t (active_of plate db.transactions) = rw e (inl refl) in
      let (i, a) = active_of-In plate db.transactions t first in
      left-IsConsistent now plate db t c i a (left db (leave (t ∷ []) now plate db)) refl refl

  -- A call of a service, and a series of them.
  unfoldable pub step : Call → Database F → Database F
  step (entry_call now plate k lot) db = left db (process_entry now plate k lot db)
  step (exit_call now plate) db = left db (process_exit now plate db)

  unfoldable pub run : List Call → Database F → Database F
  run [] db = db
  run (c ∷ cs) db = run cs (step c db)

  step-IsConsistent : (c : Call) (db : Database F) → IsConsistent db → IsConsistent (step c db)
  unfolding step process_entry process_exit
  step-IsConsistent (entry_call now plate k lot) db c =
      let known = record db { vehicles = register plate k db.vehicles } in
      enter-IsConsistent now plate k lot db known (active_of plate db.transactions) c
        (record { found = c.found; stands = c.stands; apart = c.apart }) refl
  step-IsConsistent (exit_call now plate) db c =
      if_both (λ (r : Result F EntryExit). IsConsistent (left db r)) (is_known plate db.vehicles)
        (leave-IsConsistent now plate db (active_of plate db.transactions) c refl) c

  -- Whatever cars enter and leave, in whatever order and with whatever errors: spots keep keys of
  -- their own, the spot of each active transaction is occupied, and no two active transactions are of
  -- one vehicle or for one spot.
  pub run-IsConsistent :
      (cs : List Call) (db : Database F) → IsConsistent db → IsConsistent (run cs db)
  unfolding run
  run-IsConsistent [] db c = c
  run-IsConsistent (d ∷ cs) db c = run-IsConsistent cs (step d db) (step-IsConsistent d db c)
