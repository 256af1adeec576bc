-- ===== src/Parking/Tests.antt =====
-- Entries and exits at concrete inputs.
use hanium_smart_parkin.Base.{ℕ, ◌≡◌, refl, inr, false, none, List, [], ◌∷◌}
use hanium_smart_parkin.Base.Decimal.{Decimal, decimal_float}
use hanium_smart_parkin.Base.DecimalArithmetic.{num, decimal_arithmetic}
use hanium_smart_parkin.Parking.{
  sedan, ev, SpotType, SpotStatus, ParkingSpot, EntryExit, Database, error, recommend_spot,
  candidates, best, scores_below, type_rank, preferences, distance_from_entry, build_route_plan,
  already_active,
}
use hanium_smart_parkin.Parking.Services.{
  process_entry, occupy, active_of, set_status, register, enter_if_free,
}
use hanium_smart_parkin.Parking.Recommend.{Suits, recommend_spot-Suits}
use hanium_smart_parkin.Parking.Tables.{status_of}
use hanium_smart_parkin.Parking.Consistency.{IsConsistent}
use hanium_smart_parkin.Parking.Preserved.{Call, entry_call, exit_call, left, run, run-IsConsistent}
use hanium_smart_parkin.Parking.RoundTrip.{IsTakenBack, process_entry-IsTakenBack}

abbrev spot : ℕ → SpotType → ℕ → SpotStatus → ParkingSpot Decimal
spot id t x st = record {
  spot_id = id;
  lot_id = 1;
  section = id;
  spot_type = t;
  status = st;
  coord_x = num x;
  coord_y = num 150;
}

abbrev parked : EntryExit
parked = record { transaction_id = 1; vehicle = 40; spot = 2; entry_time = 10; exit_time = none }

abbrev lot : Database Decimal
lot = record {
  vehicles = record { license_plate = 40; vehicle_type = sedan; is_registered = false } ∷ [];
  spots =
      spot 1 SpotType.ev 425 SpotStatus.vacant
      ∷ spot 2 SpotType.standard 650 SpotStatus.occupied
      ∷ spot 3 SpotType.standard 875 SpotStatus.vacant
      ∷ [];
  transactions = parked ∷ [];
  assignments = [];
  route_plans = [];
  policy_logs = [];
  last_transaction_id = 1;
}

lot-IsConsistent : IsConsistent lot
unfolding status_of
lot-IsConsistent = record {
  found = (refl, (refl, (refl, tt)));
  stands = (inr refl, tt);
  apart = (tt, tt);
}

-- A sedan is given the standard spot, though the one for electric cars is nearer.
sedan_statuses :
    (left lot (process_entry 20 41 sedan none lot)).spots
    ≡ spot 1 SpotType.ev 425 SpotStatus.vacant
      ∷ spot 2 SpotType.standard 650 SpotStatus.occupied
      ∷ spot 3 SpotType.standard 875 SpotStatus.occupied
      ∷ []
unfolding process_entry enter_if_free occupy recommend_spot candidates best scores_below type_rank
    preferences distance_from_entry active_of set_status register build_route_plan
sedan_statuses = refl

second_entry_is_refused : process_entry 20 40 ev none lot ≡ error already_active
unfolding process_entry enter_if_free active_of
second_entry_is_refused = refl

recommend_spot-Suits_example : Suits sedan none lot (recommend_spot none sedan lot)
recommend_spot-Suits_example = recommend_spot-Suits sedan none lot

abbrev calls : List Call
calls = entry_call 20 41 sedan none ∷ entry_call 21 41 ev none ∷ exit_call 30 40 ∷ []

run-IsConsistent_example : IsConsistent (run calls lot)
run-IsConsistent_example = run-IsConsistent calls lot lot-IsConsistent

process_entry-IsTakenBack_example :
    IsTakenBack 20 30 41 3 lot.spots (process_entry 20 41 sedan none lot)
process_entry-IsTakenBack_example =
    process_entry-IsTakenBack 20 30 41 3 sedan none lot lot-IsConsistent
