-- ===== src/Bridge/Controller/Inbound.antt =====
-- controller.py: `on_message` and the handlers of HELLO and STATUS. The messages of the model are those
-- whose words (state, mode, results) are hashable and whose numbers a float can hold: the code raises a
-- TypeError for a list or an object as state, and an OverflowError when it prints a larger number.
use hanium_smart_parkin.Base.{
  ℕ, Bool, true, false, not, ◌&&◌, ◌||◌, Option, none, some, List, [], ◌∷◌, ◌==◌, if◌then◌else◌,
}
use hanium_smart_parkin.Base.Int.{ℤ, pos, ◌-ℤ◌}
use hanium_smart_parkin.Base.Float.{Float}
use hanium_smart_parkin.Bridge.Wire.{
  VehicleState, emergency_stop, error, comm_timeout, syncing, none_result, accepted, as_int,
  json_eq_int, Hello, Status, Inbound, hello, status, unhandled, AckResult, ready_allowed, Reason,
  previous_state_reason, motor_not_confirmed_stopped, error_reason, build_hello_ack,
}
use hanium_smart_parkin.Bridge.Session.{
  VehicleSession, new_session, is_negative, consume_terminal_result, is_stale_snapshot,
  record_snapshot,
}
use hanium_smart_parkin.Bridge.Controller.State.{
  Controller, Effect, publish, transmit_if, is_remote_direct, neutralize_desired,
}

abbrev pub is_id : Option ℕ → ℕ → Bool
is_id none n = false
is_id (some k) n = k == n

-- The states that `_on_status` answers by ending the stream.
abbrev pub is_halted : VehicleState → Bool
is_halted emergency_stop = true
is_halted error = true
is_halted comm_timeout = true
is_halted syncing = true
is_halted _ = false

abbrev pub is_locked : VehicleState → Bool
is_locked error = true
is_locked emergency_stop = true
is_locked _ = false

-- The result and the reason of a first HELLO.
unfoldable pub hello_verdict : Hello → AckResult × Option Reason
hello_verdict h =
    if is_locked h.previous_state
    then (AckResult.hold, some (previous_state_reason h.previous_state))
    else (if h.motor_stopped
        then elim h.error_code [
          | none ↦ (ready_allowed, none)
          | some code ↦ (AckResult.hold, some (error_reason code))
        ]
        else (AckResult.hold, some motor_not_confirmed_stopped))

abbrev result_or_ready : Option AckResult → AckResult
result_or_ready none = ready_allowed
result_or_ready (some r) = r

delta : ℤ → Option ℤ → ℤ
delta count none = pos 0
delta count (some previous) = count -ℤ previous

module _ {F : Type 0} ⦃fl : Float F⦄ where
  -- A repeated HELLO: the same boot, from a car that does not hold this session yet.
  repeats : Hello → ℕ → VehicleSession F → Bool
  repeats h boot_id s = (s.boot_id == boot_id) && not (is_id h.previous_session_id s.session_id)

  -- `sid` is what `new_session_id` draws.
  fresh_session : ℕ → Hello → ℕ → Controller F → Controller F × List (Effect F)
  fresh_session sid h boot_id c =
      let (result, reason) = hello_verdict h in
      (
        record c {
          session = some (new_session sid boot_id 1);
          direct_streaming = false;
          pending_remote_mode_seq = none;
          hello_result = some result;
          hello_reason = reason;
          last_encoder_count = none;
        },
        transmit_if c.connected (build_hello_ack sid boot_id 1 result reason),
      )

  -- `_on_hello` once the boot id is known to be a nonempty string
  hello_from :
      ℕ → Hello → ℕ → Controller F → Option (VehicleSession F) → Controller F × List (Effect F)
  unfolding fresh_session repeats
  hello_from sid h boot_id c none = fresh_session sid h boot_id c
  hello_from sid h boot_id c (some s) =
      if repeats h boot_id s
      then (
        c,
        transmit_if c.connected (
            build_hello_ack s.session_id boot_id s.command_seq_start
              (result_or_ready c.hello_result) c.hello_reason),
      )
      else fresh_session sid h boot_id c

  unfoldable pub on_hello : ℕ → Hello → Controller F → Controller F × List (Effect F)
  unfolding hello_from
  on_hello sid h c = elim h.boot_id [
    | none ↦ (c, [])
    | some boot_id ↦ hello_from sid h boot_id c c.session
  ]

  -- `_result_matches_seq`
  abbrev pub result_matches_seq : Status F → ℕ → Bool
  result_matches_seq m seq =
      let matches = json_eq_int m.last_processed_cmd_seq seq || json_eq_int m.rejected_seq seq in
      elim m.command_result [ none_result ↦ false | _ ↦ matches ]

  abbrev is_accepted : Status F → Bool
  is_accepted m = elim m.command_result [ accepted ↦ true | _ ↦ false ]

  finish_mode : Status F → ℕ → Controller F → Controller F
  unfolding neutralize_desired
  finish_mode m seq c =
      if result_matches_seq m seq
      then (if is_accepted m && is_remote_direct m.mode
          then record c { direct_streaming = true; pending_remote_mode_seq = none }
          else (if is_negative m.command_result || not (is_remote_direct m.mode)
              then neutralize_desired
                  (record c { direct_streaming = false; pending_remote_mode_seq = none })
              else c))
      else c

  -- `_finish_pending_mode_from_status`
  unfoldable pub finish_pending_mode : Status F → Controller F → Controller F
  unfolding finish_mode
  finish_pending_mode m c = elim c.pending_remote_mode_seq [
    | none ↦ c
    | some seq ↦ finish_mode m seq c
  ]

  -- The encoder's progress since the last snapshot, for the display.
  unfoldable pub count_encoder : Status F → Controller F → Status F × Controller F
  unfolding delta
  count_encoder m c = elim (as_int m.encoder_count) [
    | none ↦ (m, c)
    | some count ↦ (
      record m { encoder_delta = some (delta count c.last_encoder_count) },
      record c { last_encoder_count = some count },
    )
  ]

  -- The stream does not outlive the vehicle state or the mode that it needs.
  unfoldable pub gate_stream : Status F → Controller F → Controller F
  unfolding neutralize_desired
  gate_stream m c =
      if is_halted m.state
      then neutralize_desired
          (record c { direct_streaming = false; pending_remote_mode_seq = none })
      else (if not (is_remote_direct m.mode) && c.direct_streaming
          then neutralize_desired (record c { direct_streaming = false })
          else c)

  abbrev pub on_session : (VehicleSession F → VehicleSession F) → Controller F → Controller F
  on_session f c = elim c.session [ none ↦ c | some s ↦ record c { session = some (f s) } ]

  -- The part of `_on_status` behind the test for a stale snapshot.
  unfoldable pub take_snapshot : ℕ → Status F → Controller F → Controller F × List (Effect F)
  take_snapshot now m c =
      let (m', c1) = count_encoder m c in
      let c2 = on_session (record_snapshot now m') (gate_stream m c1) in
      (c2, publish m' c2.direct_streaming c2.pending_remote_mode_seq ∷ [])

  unfoldable pub status_of :
      ℕ → Status F → Controller F → VehicleSession F → Controller F × List (Effect F)
  status_of now m c s =
      let c1 = finish_pending_mode m (record c { session = some (consume_terminal_result m s) }) in
      if is_stale_snapshot m s then (c1, []) else take_snapshot now m c1

  unfoldable pub on_status : ℕ → Status F → Controller F → Controller F × List (Effect F)
  unfolding status_of
  on_status now m c = elim c.session [
    | none ↦ (c, [])
    | some s ↦ if is_id m.session_id s.session_id then status_of now m c s else (c, [])
  ]

  -- `now` is the clock, and `sid` the session id that a HELLO may need.
  unfoldable pub on_message : ℕ → ℕ → Inbound F → Controller F → Controller F × List (Effect F)
  unfolding on_hello on_status
  on_message now sid (hello h) c = on_hello sid h c
  on_message now sid (status m) c = on_status now m c
  on_message now sid unhandled c = (c, [])
