-- ===== src/Parking.antt =====
-- integrated/host/parking/services.py and models.py: which spot a car is given, and the entries and exits
-- over the tables of the database. Keys and texts that are only compared are numbers; a vehicle is
-- known by its license plate, which is unique. `transaction.atomic` makes a service one step, and an
-- exception out of it undoes what it has written, so an error leaves the database as it was.
-- Columns that the services only write (discounts, policies, reasons, times of creation) are left out.
pub mod Services
pub mod Recommend
pub mod Tables
pub mod Consistency
pub mod Preserved
pub mod RoundTrip
mod Tests
use hanium_smart_parkin.Base.{
  ℕ, zero, suc, ◌+◌, Bool, true, false, not, ◌&&◌, Option, none, some, List, [], ◌∷◌, ltb, ◌==◌,
  if◌then◌else◌, is_some, length, map,
}
use hanium_smart_parkin.Base.Float.{Float}
use hanium_smart_parkin.Base.Arithmetic.{Arithmetic}

pub data VehicleType : Type 0 where
  sedan suv compact ev disabled other_vehicle : VehicleType

pub data SpotType : Type 0 where
  standard compact ev disabled other_spot : SpotType

pub data SpotStatus : Type 0 where
  vacant occupied reserved disabled : SpotStatus

pub data AssignmentStatus : Type 0 where
  assigned occupied completed cancelled : AssignmentStatus

pub record Vehicle : Type 0 where
  pub license_plate : ℕ
  pub vehicle_type : VehicleType
  pub is_registered : Bool

pub record ParkingSpot (F : Type 0) : Type 0 where
  pub spot_id : ℕ
  pub lot_id : ℕ
  pub section : ℕ
  pub spot_type : SpotType
  pub status : SpotStatus
  pub coord_x : F
  pub coord_y : F

pub record EntryExit : Type 0 where
  pub transaction_id : ℕ
  pub vehicle : ℕ
  pub spot : ℕ
  pub entry_time : ℕ
  pub exit_time : Option ℕ

pub record ParkingAssignment : Type 0 where
  pub vehicle : ℕ
  pub spot : ℕ
  pub status : AssignmentStatus
  pub released_at : Option ℕ

pub data Label : Type 0 where
  entry aisle_entry aisle : Label
  section_label : ℕ → Label

pub record RoutePlan (F : Type 0) : Type 0 where
  pub vehicle : ℕ
  pub target_spot : ℕ
  pub start : F × F
  pub waypoints : List ((F × F) × Label)

pub record RlPolicyLog : Type 0 where
  pub lot_id : Option ℕ
  pub vehicle_type : VehicleType
  pub vacant_count : ℕ
  pub spot_id : ℕ

-- The newest row of a table comes first.
pub record Database (F : Type 0) : Type 0 where
  pub vehicles : List Vehicle
  pub spots : List (ParkingSpot F)
  pub transactions : List EntryExit
  pub assignments : List ParkingAssignment
  pub route_plans : List (RoutePlan F)
  pub policy_logs : List RlPolicyLog
  pub last_transaction_id : ℕ

-- The ValidationErrors, and what `get` raises if it finds several rows.
pub data ServiceError : Type 0 where
  no_vacant_spot already_active not_registered no_active_transaction : ServiceError
  multiple_objects : ServiceError

pub data Result (F A : Type 0) : Type 0 where
  done : Database F → A → Result F A
  error : ServiceError → Result F A

-- `SPOT_PREFERENCE_BY_VEHICLE`
unfoldable pub preferences : VehicleType → List SpotType
preferences VehicleType.ev = SpotType.ev ∷ SpotType.standard ∷ SpotType.compact ∷ []
preferences VehicleType.compact = SpotType.compact ∷ SpotType.standard ∷ []
preferences VehicleType.disabled = SpotType.disabled ∷ []
preferences VehicleType.suv = SpotType.standard ∷ []
preferences VehicleType.sedan = SpotType.standard ∷ SpotType.compact ∷ []
preferences VehicleType.other_vehicle = SpotType.standard ∷ SpotType.compact ∷ []

abbrev spot_type_code : SpotType → ℕ
spot_type_code SpotType.standard = 0
spot_type_code SpotType.compact = 1
spot_type_code SpotType.ev = 2
spot_type_code SpotType.disabled = 3
spot_type_code SpotType.other_spot = 4

-- The place of a type in the list, which begins at `i`, or `default`.
rank_from : ℕ → ℕ → List SpotType → SpotType → ℕ
rank_from i default [] t = default
rank_from i default (p ∷ ps) t =
    let rest = rank_from (suc i) default ps t in
    if spot_type_code p == spot_type_code t then i else rest

-- `type_score`
unfoldable pub type_rank : VehicleType → SpotType → ℕ
unfolding rank_from
type_rank v t = rank_from 0 (length (preferences v) + 1) (preferences v) t

abbrev pub is_vacant : SpotStatus → Bool
is_vacant SpotStatus.vacant = true
is_vacant _ = false

-- `if lot_id: queryset.filter(lot_id=lot_id)`: 0 filters nothing.
abbrev pub in_lot : Option ℕ → ℕ → Bool
in_lot none n = true
in_lot (some zero) n = true
in_lot (some (suc k)) n = suc k == n

module _ {F : Type 0} where
  abbrev pub is_candidate : Option ℕ → ParkingSpot F → Bool
  is_candidate lot s = is_vacant s.status && in_lot lot s.lot_id

  unfoldable pub candidates : Option ℕ → List (ParkingSpot F) → List (ParkingSpot F)
  candidates lot [] = []
  candidates lot (s ∷ ss) =
      let rest = candidates lot ss in if is_candidate lot s then s ∷ rest else rest

module _ {F : Type 0} ⦃fl : Float F⦄ ⦃ar : Arithmetic F⦄ where
  -- `ENTRY_POINT`, `AISLE_Y`
  abbrev pub entry_point : F × F
  entry_point = (ar.literal 150 0, ar.literal 0 0)

  abbrev pub aisle_y : F
  aisle_y = ar.literal 600 0

  -- `_distance_from_entry`
  unfoldable pub distance_from_entry : ParkingSpot F → F
  distance_from_entry s = ar.root (
      fl.add (ar.square (ar.sub s.coord_x entry_point.0))
        (ar.square (ar.sub s.coord_y entry_point.1)))

  -- `score(s) < score(b)`: tuples are compared at the first place where they differ.
  unfoldable pub scores_below : VehicleType → ParkingSpot F → ParkingSpot F → Bool
  scores_below v s b =
      if type_rank v s.spot_type == type_rank v b.spot_type
      then (if fl.eq (distance_from_entry s) (distance_from_entry b)
          then ltb s.spot_id b.spot_id
          else fl.lt (distance_from_entry s) (distance_from_entry b))
      else ltb (type_rank v s.spot_type) (type_rank v b.spot_type)

  -- `sorted(candidates, key=score)[0]`, with the first of the candidates in hand
  unfoldable pub best : VehicleType → ParkingSpot F → List (ParkingSpot F) → ParkingSpot F
  best v b [] = b
  best v b (s ∷ ss) = best v (if scores_below v s b then s else b) ss

  recommend_from :
      Option ℕ → VehicleType → List (ParkingSpot F) → Database F → Result F (ParkingSpot F)
  recommend_from lot v [] db = error no_vacant_spot
  recommend_from lot v (s ∷ ss) db =
      let b = best v s ss in
      let log : RlPolicyLog = record {
        lot_id = lot;
        vehicle_type = v;
        vacant_count = length (s ∷ ss);
        spot_id = b.spot_id;
      } in
      done (record db { policy_logs = log ∷ db.policy_logs }) b

  unfoldable pub recommend_spot : Option ℕ → VehicleType → Database F → Result F (ParkingSpot F)
  unfolding recommend_from
  recommend_spot lot v db = recommend_from lot v (candidates lot db.spots) db

  unfoldable pub build_route_plan : ℕ → ParkingSpot F → F × F → RoutePlan F
  build_route_plan plate s start = record {
    vehicle = plate;
    target_spot = s.spot_id;
    start = start;
    waypoints =
        (start, entry)
        ∷ ((start.0, aisle_y), aisle_entry)
        ∷ ((s.coord_x, aisle_y), aisle)
        ∷ ((s.coord_x, s.coord_y), section_label s.section)
        ∷ [];
  }
