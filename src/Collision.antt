-- ===== src/Collision.antt =====
-- integrated/host/parking/safety.py: `CollisionMonitor`, which finds pairs of cars that are too close or
-- about to be, and says which of them has to wait.
pub mod Waiter
pub mod Silence
mod Tests
use hanium_smart_parkin.Base.{
  ℕ, Bool, true, false, not, ◌&&◌, ◌||◌, Option, none, some, List, [], ◌∷◌, ◌++◌, ltb,
  if◌then◌else◌,
}
use hanium_smart_parkin.Base.Float.{Float, is_nought, min_f, max_f}
use hanium_smart_parkin.Base.Arithmetic.{Arithmetic}

-- Of the next waypoint only the position is read.
pub record VehiclePose (F : Type 0) : Type 0 where
  pub car_id : ℕ
  pub position : F × F
  pub next_waypoint : Option (F × F)
  pub progress : F
  pub is_moving : Bool

pub data Danger : Type 0 where
  proximity path_conflict : Danger

pub record SafetyEvent (F : Type 0) : Type 0 where
  pub stop_car_id : ℕ
  pub keep_car_id : ℕ
  pub reason : Danger
  pub distance_mm : F

pub record CollisionMonitor (F : Type 0) : Type 0 where
  pub safety_distance_mm : F
  pub path_clearance_mm : F

abbrev max_ℕ : ℕ → ℕ → ℕ
max_ℕ a b = if ltb a b then b else a

abbrev min_ℕ : ℕ → ℕ → ℕ
min_ℕ a b = if ltb b a then b else a

abbrev differ : Bool → Bool → Bool
differ a b = if a then not b else b

module _ {F : Type 0} ⦃fl : Float F⦄ ⦃ar : Arithmetic F⦄ where
  abbrev sub : F × F → F × F → F × F
  sub (ax, ay) (bx, by) = (ar.sub ax bx, ar.sub ay by)

  abbrev dot : F × F → F × F → F
  dot (ax, ay) (bx, by) = fl.add (ar.mul ax bx) (ar.mul ay by)

  abbrev hypot : F × F → F
  hypot (x, y) = ar.hypot x y

  -- The distance of a point from a segment.
  point_seg : F × F → F × F → F × F → F
  point_seg p a b =
      let ab = sub b a in
      let denom = dot ab ab in
      let t = max_f fl.nought (min_f fl.one (ar.div (dot (sub p a) ab) denom)) in
      if is_nought denom
      then hypot (sub p a)
      else hypot (sub p (fl.add a.0 (ar.mul t ab.0), fl.add a.1 (ar.mul t ab.1)))

  ccw : F × F → F × F → F × F → F
  ccw (ax, ay) (bx, by) (cx, cy) =
      ar.sub (ar.mul (ar.sub bx ax) (ar.sub cy ay)) (ar.mul (ar.sub by ay) (ar.sub cx ax))

  abbrev is_positive : F → Bool
  is_positive x = fl.lt fl.nought x

  -- `_seg_seg_distance`
  unfoldable pub seg_seg_distance : F × F → F × F → F × F → F × F → F
  unfolding point_seg ccw
  seg_seg_distance p1 p2 q1 q2 =
      if differ (is_positive (ccw p1 p2 q1)) (is_positive (ccw p1 p2 q2))
        && differ (is_positive (ccw q1 q2 p1)) (is_positive (ccw q1 q2 p2))
      then fl.nought
      else min_f (min_f (min_f (point_seg q1 p1 p2) (point_seg q2 p1 p2)) (point_seg p1 q1 q2))
          (point_seg p2 q1 q2)

module _ {F : Type 0} ⦃fl : Float F⦄ where
  -- `_pick_waiter`: who stops, and who goes on
  unfoldable pub pick_waiter : VehiclePose F → VehiclePose F → ℕ × ℕ
  pick_waiter a b =
      if fl.eq a.progress b.progress
      then (max_ℕ a.car_id b.car_id, min_ℕ a.car_id b.car_id)
      else (if fl.lt a.progress b.progress then (a.car_id, b.car_id) else (b.car_id, a.car_id))

  -- `_pick_moving_waiter`
  unfoldable pub pick_moving_waiter : VehiclePose F → VehiclePose F → ℕ × ℕ
  pick_moving_waiter a b =
      if not a.is_moving
      then (b.car_id, a.car_id)
      else (if not b.is_moving then (a.car_id, b.car_id) else pick_waiter a b)

module _ {F : Type 0} ⦃fl : Float F⦄ ⦃ar : Arithmetic F⦄ (monitor : CollisionMonitor F) where
  abbrev event : ℕ × ℕ → Danger → F → SafetyEvent F
  event (stop, keep) r d = record {
    stop_car_id = stop;
    keep_car_id = keep;
    reason = r;
    distance_mm = ar.round1 d;
  }

  -- The prediction along the segments to the next waypoints.
  unfoldable pub check_paths :
      VehiclePose F → VehiclePose F → Option (F × F) → Option (F × F) → Option (SafetyEvent F)
  check_paths a b (some v) (some w) =
      let gap = seg_seg_distance a.position v b.position w in
      if (a.is_moving && b.is_moving) && fl.lt gap monitor.path_clearance_mm
      then some (event (pick_waiter a b) path_conflict gap)
      else none
  check_paths a b none w = none
  check_paths a b (some v) none = none

  -- `_check_pair`
  unfoldable pub check_pair : VehiclePose F → VehiclePose F → Option (SafetyEvent F)
  unfolding check_paths
  check_pair a b =
      let gap = hypot (sub a.position b.position) in
      if fl.lt gap monitor.safety_distance_mm && (a.is_moving || b.is_moving)
      then some (event (pick_moving_waiter a b) proximity gap)
      else check_paths a b a.next_waypoint b.next_waypoint

  -- `if ev is not None: events.append(ev)`
  abbrev pub noted : Option (SafetyEvent F) → List (SafetyEvent F) → List (SafetyEvent F)
  noted none events = events
  noted (some e) events = e ∷ events

  -- The inner loop of `check`.
  unfoldable pub check_rest : VehiclePose F → List (VehiclePose F) → List (SafetyEvent F)
  check_rest a [] = []
  check_rest a (b ∷ bs) = noted (check_pair a b) (check_rest a bs)

  unfoldable pub check : List (VehiclePose F) → List (SafetyEvent F)
  check [] = []
  check (a ∷ bs) = check_rest a bs ++ check bs
