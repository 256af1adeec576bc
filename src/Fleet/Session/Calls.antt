-- ===== src/Fleet/Session/Calls.antt =====
-- server.py: series of calls on the session of a car.
use hanium_smart_parkin.Base.{ℕ, List, [], ◌∷◌}
use hanium_smart_parkin.Base.Float.{Float}
use hanium_smart_parkin.Reliability.{MessageType, clear_pending, send}
use hanium_smart_parkin.Fleet.Protocol.{Frame, Inbound}
use hanium_smart_parkin.Fleet.Session.{
  VehicleSession, Event, dispatch, tick_session, beat, stream_control, set_control, next,
}

-- A message received, the parts of a round of the periodic loop, and what the program asks for.
pub data Call (F : Type 0) : Type 0 where
  dispatch_call : ℕ → Inbound F → Call F
  tick_call : ℕ → ℕ → Call F
  beat_call stream_call : Call F
  control_call : F → F → Call F
  command_call : ℕ → MessageType → Frame F → Call F
  clear_call : Call F

module _ {F : Type 0} ⦃fl : Float F⦄ where
  unfoldable pub step : Call F → VehicleSession F → VehicleSession F × List (Event F)
  step (dispatch_call now m) s = dispatch now m s
  step (tick_call now t) s = tick_session now t s
  step beat_call s = beat s
  step stream_call s = stream_control s
  step (control_call throttle steering) s = (set_control throttle steering s, [])
  step (command_call now t f) s =
      (record s { sender = (send now (record { type = t; seq = 0; payload = f }) s.sender).0 }, [])
  step clear_call s = (record s { sender = clear_pending s.sender }, [])

  unfoldable pub run : List (Call F) → VehicleSession F → VehicleSession F × List (Event F)
  run [] s = (s, [])
  run (c ∷ cs) s = next (step c s) (run cs)
