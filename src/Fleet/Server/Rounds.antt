-- ===== src/Fleet/Server/Rounds.antt =====
-- server.py: a round of `_tick_loop`, and the methods that only touch the session of one car.
use hanium_smart_parkin.Base.{ℕ, ◌-◌, ◌*◌, false, List, [], ◌∷◌, ◌++◌, leb, if◌then◌else◌}
use hanium_smart_parkin.Base.Float.{Float}
use hanium_smart_parkin.Reliability.{ns_per_ms}
use hanium_smart_parkin.Fleet.Protocol.{heartbeat_interval_ms, control_interval_ms, Inbound}
use hanium_smart_parkin.Fleet.Session.{
  VehicleSession, Event, dispatch, tick_session, beat, stream_control, set_control,
}
use hanium_smart_parkin.Fleet.Server.{VehicleServer, at_session}

-- When HEARTBEAT and DIRECT_CONTROL were last sent.
pub record Clock : Type 0 where
  pub last_hb : ℕ
  pub last_control : ℕ

module _ {F : Type 0} ⦃fl : Float F⦄ where
  -- `_dispatch` of a message on the connection of a car's session in the table
  unfoldable pub receive : ℕ → ℕ → Inbound F → VehicleServer F → VehicleServer F × List (Event F)
  receive now car m srv = at_session car (dispatch now m) srv

  unfoldable pub push_control : ℕ → F → F → VehicleServer F → VehicleServer F
  push_control car throttle steering srv =
      (at_session car (λ s. (set_control throttle steering s, [])) srv).0

  unfoldable pub stop_control : ℕ → VehicleServer F → VehicleServer F
  stop_control car srv = push_control car fl.nought fl.nought srv

  -- The same for each of the cars.
  unfoldable pub for_each :
      (VehicleSession F → VehicleSession F × List (Event F))
      → List ℕ
      → VehicleServer F
      → VehicleServer F × List (Event F)
  for_each f [] srv = (srv, [])
  for_each f (car ∷ cars) srv =
      let (srv', es) = at_session car f srv in
      let (last, fs) = for_each f cars srv' in (last, es ++ fs)

  -- At the reading `now`, with the cars of the table; the senders read the clock at `t`.
  -- POSE_UPDATE, which `POSE_UPDATE_ENABLED` turns off, is left out.
  unfoldable pub tick_round :
      ℕ → ℕ → List ℕ → Clock → VehicleServer F → (VehicleServer F × Clock) × List (Event F)
  tick_round now t cars clock srv =
      let beats = leb (heartbeat_interval_ms * ns_per_ms) (now - clock.last_hb) in
      let streams =
        if srv.direct_control_enabled
        then leb (control_interval_ms * ns_per_ms) (now - clock.last_control)
        else false in
      let (srv', es) = for_each (tick_session now t) cars srv in
      let (srv'', fs) = for_each beat (if beats then cars else []) srv' in
      let (last, gs) = for_each stream_control (if streams then cars else []) srv'' in
      (
        (
          last,
          record {
            last_hb = if beats then now else clock.last_hb;
            last_control = if streams then now else clock.last_control;
          },
        ),
        es ++ (fs ++ gs),
      )
