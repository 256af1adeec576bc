-- ===== src/Bridge/Tests.antt =====
-- remote-direct-bridge/: a drive on concrete messages, and the theorems at inputs that meet their
-- hypotheses, over decimal fractions.
use hanium_smart_parkin.Base.{
  ℕ, ◌≡◌, refl, ◌⊎◌, ◌↔◌, inr, true, false, none, some, List, [], ◌∷◌, map, arith, All,
}
use hanium_smart_parkin.Base.Int.{pos, negsuc, ◌-ℤ◌}
use hanium_smart_parkin.Base.Decimal.{Decimal, decimal, decimal_float}
use hanium_smart_parkin.Bridge.Wire.{
  frame, set_mode, boot, ready, remote_direct, waypoint_auto, accepted, none_result, null, int,
  Hello, Status, hello, status, direct_control, ready_allowed, build_stop, build_direct_control,
  build_hello_ack,
}
use hanium_smart_parkin.Bridge.Session.{
  VehicleSession, OutstandingCommand, consume_terminal_result, new_session, is_stale_snapshot,
  record_snapshot,
}
use hanium_smart_parkin.Bridge.Wire.{IsFinal}
use hanium_smart_parkin.Bridge.Session.Ack.{Names, consume_terminal_result_iff}
use hanium_smart_parkin.Bridge.Controller.State.{Controller, transmit, new, send_reliable}
use hanium_smart_parkin.Bridge.Controller.Inbound.{
  on_status, hello_verdict, on_message, finish_pending_mode, take_snapshot, gate_stream,
  count_encoder,
}
use hanium_smart_parkin.Bridge.Controller.Intents.{
  cmd_stop, attach, mode_remote_begin, mode_remote_end, set_drive,
}
use hanium_smart_parkin.Bridge.Controller.Loops.{direct_control_round}
use hanium_smart_parkin.Bridge.Controller.Run.{
  Event, attached, message, mode_begin, mode_end, stop_pressed, stop_sent, drive_set,
  direct_control_due, resend_due, react, run,
}
use hanium_smart_parkin.Bridge.Controller.Safety.{IsSafe, run-IsSafe}
use hanium_smart_parkin.Bridge.Controller.Tracking.{IsTracked, run-IsTracked}
use hanium_smart_parkin.Bridge.Controller.Streaming.{IsSound, run-IsSound}
use hanium_smart_parkin.Bridge.Controller.Arming.{MayArm, armed_by}
use hanium_smart_parkin.Bridge.Controller.Stop.{NotDirect, stop_silences}
use hanium_smart_parkin.Bridge.Controller.Emergency.{
  stopped_session, cmd_stop-sends, stop_overtaken,
}
use hanium_smart_parkin.Bridge.Controller.Resend.{GivesUp, run-resend_due}

abbrev first_hello : Hello
first_hello = record {
  boot_id = some 7;
  previous_session_id = none;
  previous_state = boot;
  motor_stopped = true;
  error_code = none;
}

abbrev ready_status : Status Decimal
ready_status = record {
  session_id = some 11;
  command_result = none_result;
  last_processed_cmd_seq = int (pos 0);
  rejected_seq = null;
  status_seq = int (pos 1);
  encoder_count = int (pos 40);
  state = ready;
  mode = waypoint_auto;
  encoder_delta = none;
}

abbrev accepted_status : Status Decimal
accepted_status = record ready_status {
  command_result = accepted;
  last_processed_cmd_seq = int (pos 1);
  status_seq = int (pos 2);
  encoder_count = int (pos 42);
  mode = remote_direct;
}

abbrev half : Decimal
half = decimal (pos 5000)

-- The car says HELLO and reports READY, the driver asks for the mode and drives.
abbrev drive : List (Event Decimal)
drive =
    attached
    ∷ message 0 11 (hello first_hello)
    ∷ message 5 0 (status ready_status)
    ∷ mode_begin 10
    ∷ mode_end 1
    ∷ message 20 0 (status accepted_status)
    ∷ drive_set half (decimal (negsuc 19999))
    ∷ direct_control_due
    ∷ []

abbrev greeted : Controller Decimal
greeted = record {
  session = some (record {
    session_id = 11;
    boot_id = 7;
    command_seq_start = 1;
    seq_counter = 1;
    control_seq_counter = 1;
    heartbeat_counter = 1;
    outstanding = none;
    desired_throttle = decimal (pos 0);
    desired_steering = decimal (pos 0);
    last_status = some (record ready_status { encoder_delta = some (pos 0) });
    last_status_at = 5;
    last_status_seq = pos 1;
  });
  connected = true;
  direct_streaming = false;
  pending_remote_mode_seq = none;
  hello_result = some ready_allowed;
  hello_reason = none;
  last_encoder_count = some (pos 40);
}

first_snapshot :
    (run
      (message 0 11 (hello first_hello) ∷ message 5 0 (status ready_status) ∷ [])
      (react attached new).0).0
    ≡ greeted
unfolding run react attach new on_message new_session hello_verdict build_hello_ack on_status
    consume_terminal_result is_stale_snapshot finish_pending_mode take_snapshot gate_stream
    count_encoder record_snapshot
first_snapshot = refl

-- Throttle 0.5 and steering -2.0, which is held at -1.0.
drives : (run drive new).0.direct_streaming ≡ true
unfolding run react attach new on_message new_session hello_verdict build_hello_ack on_status
    consume_terminal_result is_stale_snapshot finish_pending_mode take_snapshot gate_stream
    count_encoder record_snapshot mode_remote_begin send_reliable mode_remote_end set_drive
    direct_control_round build_direct_control ◌-ℤ◌
drives = refl

abbrev set_mode_sent : OutstandingCommand Decimal
set_mode_sent = record {
  seq = 1;
  message = frame 11 (set_mode 1 remote_direct);
  sent_at = 10;
  resend_timeout = 300000000;
  resends = 0;
}

abbrev greeted_session : VehicleSession Decimal
greeted_session = record {
  session_id = 11;
  boot_id = 7;
  command_seq_start = 1;
  seq_counter = 2;
  control_seq_counter = 1;
  heartbeat_counter = 1;
  outstanding = some set_mode_sent;
  desired_throttle = decimal (pos 0);
  desired_steering = decimal (pos 0);
  last_status = some ready_status;
  last_status_at = 5;
  last_status_seq = pos 1;
}

-- The request for the mode has been sent and is not answered yet.
abbrev asking : Controller Decimal
asking = record greeted { session = some greeted_session; pending_remote_mode_seq = some 1 }

-- The mode has been accepted, and the stream is open.
abbrev armed : Controller Decimal
armed = record greeted {
  session =
      some (record greeted_session { outstanding = none; last_status = some accepted_status });
  direct_streaming = true;
}

drive_wire :
    (run (drive_set half (decimal (negsuc 19999)) ∷ direct_control_due ∷ []) armed).1
    ≡ transmit (frame 11 (direct_control 1 half (decimal (negsuc 9999)))) ∷ []
unfolding run react set_drive direct_control_round build_direct_control
drive_wire = refl

asking-IsSafe : IsSafe asking
asking-IsSafe = (((refl, refl), refl), ((refl, refl), refl), λ _. (refl, refl))

asking-IsTracked : IsTracked asking
asking-IsTracked = omega arith

consume_terminal_result_iff_example :
    ((consume_terminal_result accepted_status greeted_session).outstanding ≡ none)
    ↔ IsFinal accepted × (Names {F = Decimal} (int (pos 1)) 1 ⊎ Names {F = Decimal} null 1)
consume_terminal_result_iff_example =
    consume_terminal_result_iff accepted_status greeted_session set_mode_sent refl

run-IsSafe_example : IsSafe (run drive asking).0
run-IsSafe_example = run-IsSafe drive asking asking-IsSafe

run-IsTracked_example : IsTracked (run drive asking).0
run-IsTracked_example = run-IsTracked drive asking asking-IsTracked

run-IsSound_example : All IsSound (run drive asking).1
run-IsSound_example = run-IsSound drive asking asking-IsSafe asking-IsTracked

armed_by_example : MayArm (message 20 0 (status accepted_status)) asking
unfolding react on_message on_status consume_terminal_result is_stale_snapshot finish_pending_mode
    take_snapshot gate_stream count_encoder record_snapshot ◌-ℤ◌
armed_by_example = armed_by (message 20 0 (status accepted_status)) asking refl refl

abbrev after_stop : List (Event Decimal)
after_stop =
    stop_sent 21
    ∷ message 22 0 (status accepted_status)
    ∷ drive_set half half
    ∷ direct_control_due
    ∷ resend_due 200000000
    ∷ []

stop_silences_example : All NotDirect (run (stop_pressed ∷ after_stop) armed).1
stop_silences_example = stop_silences after_stop armed tt (tt, (tt, (tt, (tt, (tt, tt)))))

cmd_stop-sends_example : cmd_stop 30 asking ≡ (
  record asking {
    session = some (stopped_session 30 greeted_session);
    direct_streaming = false;
    pending_remote_mode_seq = none;
  },
  transmit (build_stop 11 2) ∷ [],
)
cmd_stop-sends_example = cmd_stop-sends 30 asking greeted_session refl refl (inr refl)

stop_overtaken_example :
    (run
      (stop_pressed ∷ mode_end 1 ∷ message 20 0 (status accepted_status) ∷ [])
      asking).0.direct_streaming
    ≡ true
stop_overtaken_example =
    stop_overtaken 20 0 1 accepted_status asking greeted_session refl refl refl refl refl refl

abbrev resend_times : List ℕ
resend_times = 300000010 ∷ 600000010 ∷ 900000010 ∷ 1200000010 ∷ 1500000010 ∷ 1800000010 ∷ []

run-resend_due_example : GivesUp 5 set_mode_sent (some 1) (run (map resend_due resend_times) asking)
run-resend_due_example =
    run-resend_due 5 resend_times asking greeted_session set_mode_sent refl refl refl refl refl
      (omega arith)
