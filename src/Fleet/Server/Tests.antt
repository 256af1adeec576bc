-- ===== src/Fleet/Server/Tests.antt =====
-- Sessions and handshakes at concrete inputs.
use hanium_smart_parkin.Base.{ℕ, ◌≡◌, refl, true, false, none, some, List, [], ◌∷◌, ◌==◌, arith}
use hanium_smart_parkin.Base.Int.{pos}
use hanium_smart_parkin.Base.Decimal.{Decimal, decimal_float}
use hanium_smart_parkin.Bridge.Wire.{
  VehicleState, ready, emergency_stop, moving, accepted, int, null, hold,
}
use hanium_smart_parkin.Reliability.{MessageType, set_seq_start, send, on_ack, tick, clear_pending}
use hanium_smart_parkin.Reliability
use hanium_smart_parkin.Fleet.Protocol.{stop, frame, Snapshot, status, Inbound, estop_history}
use hanium_smart_parkin.Fleet.Session.{
  on_status, on_command_result, on_comm_fail, on_comm_recovered, comm_timeout, last_seq, new,
  dispatch, comm_recovered, handle, consume_command_result, take_status, tick_session, fail_session,
}
use hanium_smart_parkin.Fleet.Session.Calls.{
  Call, dispatch_call, tick_call, command_call, step, run,
}
use hanium_smart_parkin.Fleet.Session.Track.{Tells, tell_all}
use hanium_smart_parkin.Fleet.Session.Notices.{told_nothing, run-Tells}
use hanium_smart_parkin.Fleet.Server.{VehicleServer, Hello, judge_hello}
use hanium_smart_parkin.Fleet.Server.Handshake.{Reading, greeting, other_message, broken, handshake}
use hanium_smart_parkin.Fleet.Server.Handshake.Bounds.{Ends, handshake-Ends}

abbrev snapshot : ℕ → Snapshot Decimal
snapshot n = record {
  command_result = accepted;
  last_processed_cmd_seq = int (pos 1);
  rejected = null;
  status_seq = pos n;
  report = record {
    state = moving;
    target_loaded = true;
    route_id = some (pos 7);
    waypoint_id = some (pos 1);
  };
}

abbrev message : ℕ → Inbound Decimal
message n = record { session_id = some 77; car_id = pos 1; content = status (snapshot n) }

-- A STOP, its answer, an outage of which two rounds take notice, an old STATUS, and a new one.
abbrev calls : List (Call Decimal)
calls =
    command_call 0 MessageType.stop (frame 1 77 stop)
    ∷ dispatch_call 0 (message 4)
    ∷ tick_call 1000000001 1000000001
    ∷ tick_call 1020000000 1020000000
    ∷ dispatch_call 1100000000 (message 3)
    ∷ dispatch_call 1200000000 (message 5)
    ∷ []

calls_told :
    (run calls (new 1 77 5 3 0)).1
    ≡ on_command_result 1 1 accepted (snapshot 4)
      ∷ on_status 1 (snapshot 4)
      ∷ on_comm_fail 1 comm_timeout
      ∷ on_comm_recovered 1
      ∷ on_status 1 (snapshot 5)
      ∷ []
unfolding run step new set_seq_start Reliability.new send on_ack tick dispatch comm_recovered handle
    consume_command_result take_status tick_session fail_session clear_pending
calls_told = refl

run-Tells_example :
    let (s, es) = run calls (new 1 77 5 3 0) in
    Tells told_nothing es × ((tell_all es told_nothing).status_seq ≡ last_seq s.last_status)
run-Tells_example = run-Tells calls 1 77 5 3 0

abbrev server : VehicleServer Decimal
server = record {
  known_car_ids = λ c. c == 1;
  sessions = λ c. none;
  direct_control_enabled = false;
}

abbrev hello : VehicleState → Hello
hello s = record {
  is_hello = true;
  version = some (pos 1);
  car_id = 1;
  boot_id = 5;
  has_error = false;
  previous_state = s;
}

stopped_car_waits : judge_hello none (hello emergency_stop) server ≡ (hold, some estop_history)
unfolding judge_hello
stopped_car_waits = refl

abbrev readings : List Reading
readings =
    greeting (hello emergency_stop) none true
    ∷ other_message
    ∷ greeting (hello ready) none true
    ∷ broken
    ∷ []

handshake-Ends_example : Ends 2 0 (handshake 3 77 0 readings 0 server)
handshake-Ends_example = handshake-Ends 3 77 0 readings 0 server (omega arith)
