-- ===== src/Collision/Tests.antt =====
-- safety.py: three cars on a line, two of which are close.
use hanium_smart_parkin.Base.{ℕ, ◌≡◌, refl, ◌↔◌, inl, inr, Bool, true, none, List, [], ◌∷◌, All}
use hanium_smart_parkin.Base.Decimal.{Decimal, decimal_float}
use hanium_smart_parkin.Base.DecimalArithmetic.{num, decimal_arithmetic}
use hanium_smart_parkin.Collision.{
  VehiclePose, CollisionMonitor, pick_moving_waiter, pick_waiter, check,
}
use hanium_smart_parkin.Collision.Silence.{HasNoConflict, check-silent_iff}
use hanium_smart_parkin.Collision.Waiter.{Stops, pick_moving_waiter-swap, check-Stops}

abbrev car : ℕ → ℕ → ℕ → Bool → VehiclePose Decimal
car id x progress moving = record {
  car_id = id;
  position = (num x, num 0);
  next_waypoint = none;
  progress = num progress;
  is_moving = moving;
}

abbrev monitor : CollisionMonitor Decimal
monitor = record { safety_distance_mm = num 350; path_clearance_mm = num 250 }

abbrev cars : List (VehiclePose Decimal)
cars = car 1 0 0 true ∷ car 2 300 1 true ∷ car 3 2000 0 true ∷ []

stops_first : (pick_moving_waiter (car 1 0 0 true) (car 2 300 1 true)) ≡ (1, 2)
unfolding pick_moving_waiter pick_waiter
stops_first = refl

pick_moving_waiter-swap_example :
    pick_moving_waiter (car 1 0 0 true) (car 2 300 1 true)
    ≡ pick_moving_waiter (car 2 300 1 true) (car 1 0 0 true)
pick_moving_waiter-swap_example =
    pick_moving_waiter-swap (car 1 0 0 true) (car 2 300 1 true) (inr (inl refl)) refl

check-silent_iff_example : (check monitor cars ≡ []) ↔ HasNoConflict monitor cars
check-silent_iff_example = check-silent_iff monitor cars

check-Stops_example : All (Stops monitor cars) (check monitor cars)
check-Stops_example = check-Stops monitor cars
