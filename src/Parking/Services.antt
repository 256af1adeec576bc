-- ===== src/Parking/Services.antt =====
-- services.py: `process_entry`, `process_exit`, and the numbers of `dashboard_state`.
use hanium_smart_parkin.Base.{
  ℕ, suc, ◌+◌, Bool, true, false, not, ◌&&◌, Option, none, some, List, [], ◌∷◌, ◌==◌, if◌then◌else◌,
  is_some, length,
}
use hanium_smart_parkin.Base.Float.{Float}
use hanium_smart_parkin.Base.Arithmetic.{Arithmetic}
use hanium_smart_parkin.Parking.{
  VehicleType, SpotStatus, AssignmentStatus, Vehicle, ParkingSpot, EntryExit, ParkingAssignment,
  RoutePlan, Database, already_active, not_registered, no_active_transaction, multiple_objects,
  Result, done, error, entry_point, recommend_spot, build_route_plan,
}

-- `exit_time__isnull=True` of the vehicle
abbrev pub is_active_of : ℕ → EntryExit → Bool
is_active_of plate t = t.vehicle == plate && not (is_some t.exit_time)

-- The active transactions of a vehicle
unfoldable pub active_of : ℕ → List EntryExit → List EntryExit
active_of plate [] = []
active_of plate (t ∷ ts) =
    let rest = active_of plate ts in if is_active_of plate t then t ∷ rest else rest

unfoldable pub is_known : ℕ → List Vehicle → Bool
is_known plate [] = false
is_known plate (v ∷ vs) =
    let rest = is_known plate vs in if v.license_plate == plate then true else rest

-- `get_or_create`, and the type brought up to date
unfoldable pub register : ℕ → VehicleType → List Vehicle → List Vehicle
register plate k [] = record { license_plate = plate; vehicle_type = k; is_registered = false } ∷ []
register plate k (v ∷ vs) =
    let rest = register plate k vs in
    if v.license_plate == plate then record v { vehicle_type = k } ∷ vs else v ∷ rest

-- `transaction_record.save(update_fields=["exit_time"])`
unfoldable pub set_exit : ℕ → ℕ → List EntryExit → List EntryExit
set_exit now id [] = []
set_exit now id (t ∷ ts) =
    (if t.transaction_id == id then record t { exit_time = some now } else t) ∷ set_exit now id ts

abbrev pub is_occupied_assignment : AssignmentStatus → Bool
is_occupied_assignment AssignmentStatus.occupied = true
is_occupied_assignment _ = false

-- The assignments that an exit completes
unfoldable pub complete : ℕ → ℕ → ℕ → List ParkingAssignment → List ParkingAssignment
complete now plate spot [] = []
complete now plate spot (a ∷ rest) =
    (if (a.vehicle == plate && a.spot == spot) && is_occupied_assignment a.status
      then record a { status = AssignmentStatus.completed; released_at = some now }
      else a)
    ∷ complete now plate spot rest

module _ {F : Type 0} where
  -- `spot.status = …; spot.save()`
  unfoldable pub set_status : SpotStatus → ℕ → List (ParkingSpot F) → List (ParkingSpot F)
  set_status st id [] = []
  set_status st id (s ∷ ss) =
      (if s.spot_id == id then record s { status = st } else s) ∷ set_status st id ss

module _ {F : Type 0} ⦃fl : Float F⦄ ⦃ar : Arithmetic F⦄ where
  -- The rows that an entry adds, once there is a spot for it.
  unfoldable pub occupy : ℕ → ℕ → Result F (ParkingSpot F) → Result F (EntryExit × RoutePlan F)
  occupy now plate (error e) = error e
  occupy now plate (done db s) =
      let t : EntryExit = record {
        transaction_id = suc db.last_transaction_id;
        vehicle = plate;
        spot = s.spot_id;
        entry_time = now;
        exit_time = none;
      } in
      let a : ParkingAssignment = record {
        vehicle = plate;
        spot = s.spot_id;
        status = AssignmentStatus.occupied;
        released_at = none;
      } in
      let r = build_route_plan plate s entry_point in
      done
        (record db {
          spots = set_status SpotStatus.occupied s.spot_id db.spots;
          transactions = t ∷ db.transactions;
          assignments = a ∷ db.assignments;
          route_plans = r ∷ db.route_plans;
          last_transaction_id = suc db.last_transaction_id;
        })
        (t, r)

  unfoldable pub enter_if_free :
      List EntryExit
      → ℕ
      → ℕ
      → VehicleType
      → Option ℕ
      → Database F
      → Result F (EntryExit × RoutePlan F)
  enter_if_free (t ∷ ts) now plate k lot db = error already_active
  enter_if_free [] now plate k lot db = occupy now plate (recommend_spot lot k db)

  unfoldable pub process_entry :
      ℕ → ℕ → VehicleType → Option ℕ → Database F → Result F (EntryExit × RoutePlan F)
  unfolding enter_if_free
  process_entry now plate k lot db =
      enter_if_free (active_of plate db.transactions) now plate k lot
        (record db { vehicles = register plate k db.vehicles })

module _ {F : Type 0} where
  unfoldable pub leave : List EntryExit → ℕ → ℕ → Database F → Result F EntryExit
  leave [] now plate db = error no_active_transaction
  leave (t ∷ []) now plate db =
      done
        (record db {
          spots = set_status SpotStatus.vacant t.spot db.spots;
          transactions = set_exit now t.transaction_id db.transactions;
          assignments = complete now plate t.spot db.assignments;
        })
        (record t { exit_time = some now })
  leave (t ∷ u ∷ ts) now plate db = error multiple_objects

  unfoldable pub process_exit : ℕ → ℕ → Database F → Result F EntryExit
  unfolding leave
  process_exit now plate db =
      if is_known plate db.vehicles
      then leave (active_of plate db.transactions) now plate db
      else error not_registered

abbrev status_code : SpotStatus → ℕ
status_code SpotStatus.vacant = 0
status_code SpotStatus.occupied = 1
status_code SpotStatus.reserved = 2
status_code SpotStatus.disabled = 3

-- The "summary" of the spots
pub record Summary : Type 0 where
  pub total_spots : ℕ
  pub vacant : ℕ
  pub occupied : ℕ
  pub reserved : ℕ
  pub disabled : ℕ

module _ {F : Type 0} where
  -- `spots.filter(status=…).count()`
  unfoldable pub count : SpotStatus → List (ParkingSpot F) → ℕ
  count st [] = 0
  count st (s ∷ ss) = (if status_code s.status == status_code st then 1 else 0) + count st ss

  unfoldable pub summary : Database F → Summary
  summary db = record {
    total_spots = length db.spots;
    vacant = count SpotStatus.vacant db.spots;
    occupied = count SpotStatus.occupied db.spots;
    reserved = count SpotStatus.reserved db.spots;
    disabled = count SpotStatus.disabled db.spots;
  }
