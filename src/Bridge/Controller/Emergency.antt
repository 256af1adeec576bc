-- ===== src/Bridge/Controller/Emergency.antt =====
-- controller.py: `cmd_stop` as a whole, and the request for the mode that can overtake it.
use hanium_smart_parkin.Base.{
  ℕ, ◌+◌, ◌≡◌, ◌≢◌, ◌⊎◌, true, false, none, some, [], ◌∷◌, arith, is_some,
}
use hanium_smart_parkin.Base.Float.{Float}
use hanium_smart_parkin.Bridge.Wire.{
  status, Status, build_stop, accepted, remote_direct, emergency_stop,
}
use hanium_smart_parkin.Bridge.Session.{VehicleSession, consume_terminal_result}
use hanium_smart_parkin.Bridge.Controller.State.{
  Controller, transmit, latest_state, stop_resend_timeout, neutral_session,
}
use hanium_smart_parkin.Bridge.Controller.Inbound.{
  on_message, on_status, finish_pending_mode, take_snapshot, gate_stream, count_encoder,
  result_matches_seq, is_halted,
}
use hanium_smart_parkin.Bridge.Controller.Intents.{mode_remote_end, stop_begin, cmd_stop}
use hanium_smart_parkin.Bridge.Controller.Run.{message, mode_end, stop_pressed, react, run}
use hanium_smart_parkin.Bridge.Controller.Stop.{IsDisarmed}

module _ {F : Type 0} ⦃fl : Float F⦄ where
  -- The session after a STOP: neutral, with STOP as the outstanding command under the next number.
  abbrev pub stopped_session : ℕ → VehicleSession F → VehicleSession F
  stopped_session now s = record s {
    seq_counter = s.seq_counter + 1;
    desired_throttle = fl.nought;
    desired_steering = fl.nought;
    outstanding = some (record {
      seq = s.seq_counter;
      message = build_stop s.session_id s.seq_counter;
      sent_at = now;
      resend_timeout = stop_resend_timeout;
      resends = 0;
    });
  }

  -- On a connected car that is not yet known to be in EMERGENCY_STOP, or that owes an answer, STOP
  -- goes out at once under the next number in place of whatever was outstanding; the stream is shut,
  -- a pending request for the mode is forgotten and the desired values are zero.
  pub cmd_stop-sends :
      (now : ℕ) (c : Controller F) (s : VehicleSession F)
      → c.session ≡ some s
      → c.connected ≡ true
      → (latest_state c ≢ emergency_stop) ⊎ (is_some s.outstanding ≡ true)
      → cmd_stop now c ≡ (
        record c {
          session = some (stopped_session now s);
          direct_streaming = false;
          pending_remote_mode_seq = none;
        },
        transmit (build_stop s.session_id s.seq_counter) ∷ [],
      )
  unfolding cmd_stop
  cmd_stop-sends now c s e o h = ground arith

  -- In every other case STOP disarms the controller all the same, and sends nothing.
  pub cmd_stop-IsDisarmed : (now : ℕ) (c : Controller F) → IsDisarmed (cmd_stop now c).0
  unfolding cmd_stop
  cmd_stop-IsDisarmed now c = ground arith

  accepted_finish :
      (n : ℕ) (m : Status F) (c : Controller F)
      → c.pending_remote_mode_seq ≡ some n
      → m.command_result ≡ accepted
      → m.mode ≡ remote_direct
      → result_matches_seq m n ≡ true
      → (finish_pending_mode m c).direct_streaming ≡ true
  unfolding finish_pending_mode
  accepted_finish n m c p a d r = ground arith

  snapshot_keeps :
      (now : ℕ) (m : Status F) (c : Controller F)
      → m.mode ≡ remote_direct
      → is_halted m.state ≡ false
      → c.direct_streaming ≡ true
      → (take_snapshot now m c).0.direct_streaming ≡ true
  unfolding take_snapshot gate_stream count_encoder
  snapshot_keeps now m c d t on = ground arith

  accepted-streaming :
      (now n : ℕ) (m : Status F) (c : Controller F) (s : VehicleSession F)
      → c.session ≡ some s
      → c.pending_remote_mode_seq ≡ some n
      → m.session_id ≡ some s.session_id
      → m.command_result ≡ accepted
      → m.mode ≡ remote_direct
      → result_matches_seq m n ≡ true
      → is_halted m.state ≡ false
      → (on_status now m c).0.direct_streaming ≡ true
  unfolding on_status
  accepted-streaming now n m c s e p i a d r t =
      let c1 = record c { session = some (consume_terminal_result m s) } in
      let on = accepted_finish n m c1 p a d r in
      let kept = snapshot_keeps now m (finish_pending_mode m c1) d t on in ground arith

  request_left :
      (n : ℕ) (c : Controller F) (s : VehicleSession F)
      → c.session ≡ some s
      → ((mode_remote_end n (stop_begin c).0).session ≡ some (neutral_session s))
        × ((mode_remote_end n (stop_begin c).0).pending_remote_mode_seq ≡ some n)
  unfolding mode_remote_end stop_begin
  request_left n c s e = ground arith

  -- A STOP that is pressed while the request for the mode still awaits the transport is overtaken:
  -- the request then comes back as the pending one, and its acceptance opens the stream again.
  pub stop_overtaken :
      (now sid n : ℕ) (m : Status F) (c : Controller F) (s : VehicleSession F)
      → c.session ≡ some s
      → m.session_id ≡ some s.session_id
      → m.command_result ≡ accepted
      → m.mode ≡ remote_direct
      → result_matches_seq m n ≡ true
      → is_halted m.state ≡ false
      → (run (stop_pressed ∷ mode_end n ∷ message now sid (status m) ∷ []) c).0.direct_streaming
        ≡ true
  unfolding run react on_message
  stop_overtaken now sid n m c s e i a d r t =
      accepted-streaming now n m (mode_remote_end n (stop_begin c).0) (neutral_session s)
        (request_left n c s e).0 (request_left n c s e).1 i a d r t
