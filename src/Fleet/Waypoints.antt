-- ===== src/Fleet/Waypoints.antt =====
-- integrated/host/parking/waypoints.py: the waypoints of a route into a slot, when one of them is
-- reached, and the form in which it is sent.
pub mod Route
use hanium_smart_parkin.Base.{
  ℕ, ◌+◌, Bool, true, false, Option, none, some, List, [], ◌∷◌, ◌++◌, map, if◌then◌else◌, is_some,
}
use hanium_smart_parkin.Base.Float.{Float, le}
use hanium_smart_parkin.Base.Arithmetic.{Arithmetic}
use hanium_smart_parkin.Fleet.Graph.{
  Slot, a1, a2, a3, a4, b1, b2, b3, b4, slots, Node, mm, slot_coordinates, node_coordinates,
  slot_routes,
}

-- `PHASES`
pub data Phase : Type 0 where
  cruise approach align entry final : Phase

pub data EntrySide : Type 0 where
  bottom top : EntrySide

pub record SlotSpec (F : Type 0) : Type 0 where
  pub slot_id : Slot
  pub center_x : F
  pub center_y : F
  pub target_heading_deg : F
  pub width : F
  pub length : F
  pub entry_side : EntrySide

pub record Waypoint (F : Type 0) : Type 0 where
  pub route_id : ℕ
  pub waypoint_id : ℕ
  pub phase : Phase
  pub x : F
  pub y : F
  pub target_heading_deg : Option F
  pub speed_cm_s : F
  pub position_tolerance_cm : F
  pub heading_tolerance_deg : F
  pub heading_required : Bool
  pub is_final : Bool

-- The dict of `to_wire`, without `motion_direction` and `arrival_mode`, which are always FORWARD and
-- STOP.
pub record WireWaypoint (F : Type 0) : Type 0 where
  pub route_id : ℕ
  pub waypoint_id : ℕ
  pub phase : Phase
  pub x_cm : F
  pub y_cm : F
  pub target_heading_deg : F
  pub speed_cm_s : F
  pub position_tolerance_cm : F
  pub heading_tolerance_deg : F
  pub heading_required : Bool
  pub is_final : Bool

-- `name.startswith("A")`
abbrev starts_with_a : Slot → Bool
starts_with_a a1 = true
starts_with_a a2 = true
starts_with_a a3 = true
starts_with_a a4 = true
starts_with_a b1 = false
starts_with_a b2 = false
starts_with_a b3 = false
starts_with_a b4 = false

module _ {F : Type 0} ⦃fl : Float F⦄ ⦃ar : Arithmetic F⦄ where
  -- `PHASE_DEFAULTS`: the speed and the tolerances for the position and the heading
  phase_defaults : Phase → F × F × F
  phase_defaults cruise = (mm 12, mm 8, mm 30)
  phase_defaults approach = (mm 8, mm 6, mm 20)
  phase_defaults align = (mm 5, mm 5, mm 12)
  phase_defaults entry = (mm 5, mm 4, mm 12)
  phase_defaults final = (mm 4, mm 5, mm 12)

  unfoldable pub to_wire : Waypoint F → WireWaypoint F
  to_wire w = record {
    route_id = w.route_id;
    waypoint_id = w.waypoint_id;
    phase = w.phase;
    x_cm = ar.round1 (ar.div w.x (mm 10));
    y_cm = ar.round1 (ar.div w.y (mm 10));
    target_heading_deg = elim w.target_heading_deg [
      | none ↦ fl.nought
      | some h ↦ ar.round3 (ar.rem h (mm 360))
    ];
    speed_cm_s = w.speed_cm_s;
    position_tolerance_cm = w.position_tolerance_cm;
    heading_tolerance_deg = w.heading_tolerance_deg;
    heading_required = w.heading_required;
    is_final = w.is_final;
  }

  default_slot_spec : Slot → SlotSpec F
  unfolding slot_coordinates
  default_slot_spec s = record {
    slot_id = s;
    center_x = (slot_coordinates s).0;
    center_y = (slot_coordinates s).1;
    target_heading_deg = if starts_with_a s then mm 270 else mm 90;
    width = mm 200;
    length = mm 300;
    entry_side = if starts_with_a s then top else bottom;
  }

  unfoldable pub default_slot_specs : List (SlotSpec F)
  unfolding default_slot_spec
  default_slot_specs = map default_slot_spec slots

  -- `_make`
  unfoldable pub make : ℕ → ℕ → Phase → F → F → Option F → Bool → Waypoint F
  unfolding phase_defaults
  make route_id wp_id phase x y heading is_final =
      let (speed, position, tolerance) = phase_defaults phase in
      record {
        route_id = route_id;
        waypoint_id = wp_id;
        phase = phase;
        x = x;
        y = y;
        target_heading_deg = heading;
        speed_cm_s = speed;
        position_tolerance_cm = position;
        heading_tolerance_deg = tolerance;
        heading_required = is_some heading;
        is_final = is_final;
      }

  abbrev dir_y : EntrySide → F
  dir_y bottom = mm 1
  dir_y top = ar.neg (mm 1)

  -- `slot.center_y - dir_y * (slot.length / 2)`
  abbrev entry_y : SlotSpec F → F
  entry_y s = ar.sub s.center_y (ar.mul (dir_y s.entry_side) (ar.div s.length (mm 2)))

  -- `entry_y - dir_y * (slot.length * k)`
  abbrev before_entry : SlotSpec F → F → F
  before_entry s k = ar.sub (entry_y s) (ar.mul (dir_y s.entry_side) (ar.mul s.length k))

  -- The waypoints from APPROACH on.
  slot_waypoints : SlotSpec F → ℕ → ℕ → List (Waypoint F)
  slot_waypoints s r i =
      let h = some s.target_heading_deg in
      make r i approach s.center_x (before_entry s (ar.literal 9 1)) none false
      ∷ make r (i + 1) align s.center_x (before_entry s (ar.literal 5 1)) h false
      ∷ make r (i + 2) entry s.center_x (entry_y s) h false
      ∷ make r (i + 3) final s.center_x s.center_y h true
      ∷ []

  -- The loop over `nodes[:-1]`, with the rest of the route after it.
  cruise_waypoints : SlotSpec F → ℕ → ℕ → Node → List Node → List (Waypoint F)
  unfolding slot_waypoints node_coordinates
  cruise_waypoints s r i last [] = slot_waypoints s r i
  cruise_waypoints s r i node (next ∷ nodes) =
      make r i cruise (node_coordinates node).0 (node_coordinates node).1 none false
      ∷ cruise_waypoints s r (i + 1) next nodes

  build_along : SlotSpec F → ℕ → List Node → Option (List (Waypoint F))
  build_along s r [] = none
  build_along s r (node ∷ nodes) = some (cruise_waypoints s r 1 node nodes)

  -- `none` is the ValueError for a route without a node.
  unfoldable pub build_waypoints : SlotSpec F → ℕ → Option (List Node) → Option (List (Waypoint F))
  unfolding build_along cruise_waypoints slot_waypoints slot_routes
  build_waypoints s r none = build_along s r (slot_routes s.slot_id)
  build_waypoints s r (some nodes) = build_along s r nodes

  -- `w.target_heading_deg or 0.0`
  abbrev heading_or_nought : Option F → F
  heading_or_nought none = fl.nought
  heading_or_nought (some h) = if fl.eq h fl.nought then fl.nought else h

  -- `abs((heading - target + 180.0) % 360.0 - 180.0)`
  heading_error : F → Option F → F
  heading_error heading target = ar.abs (
      ar.sub (ar.rem (fl.add (ar.sub heading (heading_or_nought target)) (mm 180)) (mm 360))
        (mm 180))

  -- The test of the heading, which follows that of the distance.
  unfoldable pub faces_target : Waypoint F → Option F → Bool
  unfolding heading_error
  faces_target w none = if w.heading_required then false else true
  faces_target w (some heading) =
      if w.heading_required
      then le (heading_error heading w.target_heading_deg) w.heading_tolerance_deg
      else true

  -- `math.hypot(pos[0] - w.x, pos[1] - w.y)`
  abbrev pub distance_mm : Waypoint F → F × F → F
  distance_mm w (px, py) = ar.hypot (ar.sub px w.x) (ar.sub py w.y)

  unfoldable pub is_waypoint_reached : Waypoint F → F × F → Option F → Bool
  unfolding faces_target
  is_waypoint_reached w position heading =
      if fl.lt (ar.mul w.position_tolerance_cm (mm 10)) (distance_mm w position)
      then false
      else faces_target w heading
