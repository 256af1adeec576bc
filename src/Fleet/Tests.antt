-- ===== src/Fleet/Tests.antt =====
-- Routes and missions at concrete inputs, with the server itself in the place of `Link`.
use hanium_smart_parkin.Base.{
  ℕ, ◌≡◌, refl, Bool, true, false, none, some, List, [], ◌∷◌, ◌==◌, if◌then◌else◌, arith,
}
use hanium_smart_parkin.Base.Int.{pos}
use hanium_smart_parkin.Base.Decimal.{Decimal, decimal_float}
use hanium_smart_parkin.Base.DecimalArithmetic.{num, decimal_arithmetic}
use hanium_smart_parkin.Bridge.Wire.{VehicleState, waiting, moving}
use hanium_smart_parkin.Fleet.Graph.{a3, slot_routes}
use hanium_smart_parkin.Fleet.Waypoints.{
  SlotSpec, top, Waypoint, cruise, to_wire, build_waypoints, faces_target,
}
use hanium_smart_parkin.Fleet.Waypoints.Route.{Builds, build_waypoints-Builds}
use hanium_smart_parkin.Fleet.Mission.{
  Mission, MissionState, switching, loading, driving, Report, waypoint_sent, go_sent, wait_sent,
  waypoint_reached, with_mission, refused, returned, raised, MissionOrchestrator, in_state,
}
use hanium_smart_parkin.Fleet.Protocol.{make_waypoint, make_go, make_wait}
use hanium_smart_parkin.Reliability.{set_seq_start, send}
use hanium_smart_parkin.Reliability
use hanium_smart_parkin.Fleet.Session.{VehicleSession}
use hanium_smart_parkin.Fleet.Session
use hanium_smart_parkin.Fleet.Server.{
  VehicleServer, no_active_session, SendFailure, link, put, send_waypoint, send_go, send_wait,
  send_command,
}
use hanium_smart_parkin.Fleet.Orchestrator.{
  start_mission, status_mission, update_mission, update_pose, on_vehicle_status, load_current,
  reached,
}
use hanium_smart_parkin.Fleet.Orchestrator.Calls.{
  Call, start_call, pose_call, status_call, step, run, new, events,
}
use hanium_smart_parkin.Fleet.Orchestrator.Loaded.{AreAnnounced}
use hanium_smart_parkin.Fleet.Orchestrator.Announced.{run-AreAnnounced}
use hanium_smart_parkin.Fleet.Orchestrator.Steps.{Steps, step-Steps}
use hanium_smart_parkin.Fleet.Orchestrator.Failure.{advanced, refused_skips}
use hanium_smart_parkin.Fleet.Orchestrator.Idle.{AreSilent, entered, start_refused}

abbrev spec : SlotSpec Decimal
spec = record {
  slot_id = a3;
  center_x = num 875;
  center_y = num 150;
  target_heading_deg = num 270;
  width = num 200;
  length = num 300;
  entry_side = top;
}

no_route : build_waypoints spec 7 (some []) ≡ none
unfolding build_waypoints
no_route = refl

build_waypoints-Builds_example :
    Builds {F = Decimal} spec 7 (slot_routes a3) (build_waypoints spec 7 none)
unfolding slot_routes
build_waypoints-Builds_example = build_waypoints-Builds spec 7 none

abbrev waypoint : ℕ → ℕ → Bool → Waypoint Decimal
waypoint i x is_final = record {
  route_id = 7;
  waypoint_id = i;
  phase = cruise;
  x = num x;
  y = num 600;
  target_heading_deg = none;
  speed_cm_s = num 12;
  position_tolerance_cm = num 8;
  heading_tolerance_deg = num 30;
  heading_required = false;
  is_final = is_final;
}

abbrev route : List (Waypoint Decimal)
route = waypoint 1 150 false ∷ waypoint 2 425 false ∷ waypoint 3 650 true ∷ []

abbrev empty_server : VehicleServer Decimal
empty_server = record {
  known_car_ids = λ c. c == 1;
  sessions = λ c. none;
  direct_control_enabled = false;
}

abbrev server : VehicleServer Decimal
server = put 1 (Session.new 1 77 5 3 0) empty_server

abbrev mission : MissionState → Mission Decimal
mission s = record {
  car_id = 1;
  route_id = 7;
  waypoints = route;
  index = 0;
  state = s;
  slot_id = some a3;
}

abbrev between : Mission Decimal
between = mission switching

abbrev report : VehicleState → ℕ → Report
report s i = record {
  state = s;
  target_loaded = true;
  route_id = some (pos 7);
  waypoint_id = some (pos i);
}

abbrev calls : List (ℕ × Call Decimal × VehicleServer Decimal)
calls =
    (1, start_call route (some a3), server)
    ∷ (1, status_call (report waiting 1), server)
    ∷ (1, status_call (report moving 1), server)
    ∷ (1, pose_call (num 160, num 600) none, server)
    ∷ (1, status_call (report waiting 1), server)
    ∷ (1, status_call (report waiting 2), server)
    ∷ []

-- The messages of these calls
run_events :
    events (run (link 0) (num 2) calls (new empty_server)).1
    ≡ waypoint_sent 1 (waypoint 1 150 false)
      ∷ go_sent 1 7 1
      ∷ wait_sent 1 waypoint_reached 7 1
      ∷ waypoint_sent 1 (waypoint 2 425 false)
      ∷ go_sent 1 7 2
      ∷ []
unfolding run step start_mission update_pose on_vehicle_status status_mission update_mission
    load_current with_mission send_waypoint send_go send_wait send_command make_waypoint make_go
    make_wait Session.new set_seq_start Reliability.new send reached faces_target to_wire
run_events = refl

run-AreAnnounced_example :
    AreAnnounced [] (events (run (link 0) (num 2) calls (new empty_server)).1)
unfolding run step start_mission update_pose on_vehicle_status status_mission update_mission
    load_current with_mission send_waypoint send_go send_wait send_command make_waypoint make_go
    make_wait Session.new set_seq_start Reliability.new send reached faces_target to_wire
run-AreAnnounced_example =
    run-AreAnnounced (link 0) (num 2) calls empty_server (omega arith) (omega arith)

abbrev started : MissionOrchestrator Decimal (VehicleServer Decimal)
started = record {
  server = server;
  missions = λ c. if c == 1 then some (mission driving) else none;
  route_counter = 7;
}

step-Steps_example :
    Steps {E = SendFailure}
      (num 2)
      1
      (pose_call (num 160, num 600) none)
      started
      (step (link 0) (num 2) 1 (pose_call (num 160, num 600) none) server started)
      2
step-Steps_example =
    step-Steps (link 0) (num 2) 1 (pose_call (num 160, num 600) none) server started 2

refused_skips_example :
    let t = status_mission (link 0) 1 (report waiting 1) between empty_server in
    let t' = status_mission (link 0) 1 (report waiting 1) t.mission server in
    (t.reply ≡ raised (refused no_active_session))
    × (t.mission ≡ advanced 1 between)
    × (t'.reply ≡ returned (waypoint_sent 1 (waypoint 3 650 true) ∷ []))
    × (t'.mission ≡ in_state loading (advanced 1 (advanced 1 between)))
unfolding send_waypoint send_command make_waypoint Session.new set_seq_start Reliability.new send
refused_skips_example =
    refused_skips (link 0) 1 (report waiting 1) (report waiting 1) between empty_server server
      (waypoint 2 425 false) (waypoint 3 650 true) no_active_session refl refl refl refl refl refl
      refl

abbrev later_calls : List (ℕ × Call Decimal × VehicleServer Decimal)
later_calls =
    (1, status_call (report waiting 1), server)
    ∷ (2, start_call route none, server)
    ∷ (1, pose_call (num 160, num 600) none, server)
    ∷ []

start_refused_example :
    let (o', r) = start_mission (link 0) 1 route (some a3) (new empty_server) in
    let (o'', rs) = run (link 0) (num 2) later_calls o' in
    let rest = waypoint 2 425 false ∷ waypoint 3 650 true ∷ [] in
    (r ≡ raised (refused no_active_session))
    × (o'.missions 1 ≡ some (entered 1 (waypoint 1 150 false) rest (some a3)))
    × (o''.missions 1 ≡ some (entered 1 (waypoint 1 150 false) rest (some a3)))
    × AreSilent (link 0) 1 later_calls rs
unfolding send_waypoint send_command
start_refused_example =
    start_refused (link 0) 1 (num 2) (waypoint 1 150 false)
      (waypoint 2 425 false ∷ waypoint 3 650 true ∷ []) (some a3) (new empty_server)
      no_active_session later_calls refl ((λ _. tt), ((λ q. omega arith), ((λ _. tt), tt)))
