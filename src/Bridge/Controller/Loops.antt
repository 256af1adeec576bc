-- ===== src/Bridge/Controller/Loops.antt =====
-- controller.py: one round of each of the periodic tasks.
use hanium_smart_parkin.Base.{
  ℕ, ◌+◌, ◌-◌, Bool, true, false, not, ◌&&◌, ◌||◌, Option, none, some, List, [], ◌∷◌, ltb, leb,
  ◌==◌, if◌then◌else◌,
}
use hanium_smart_parkin.Base.Float.{Float}
use hanium_smart_parkin.Bridge.Wire.{
  VehicleState, boot, wifi_connecting, build_heartbeat, build_direct_control,
}
use hanium_smart_parkin.Bridge.Session.{
  VehicleSession, OutstandingCommand, next_heartbeat_seq, next_control_seq, clear_outstanding,
}
use hanium_smart_parkin.Bridge.Controller.State.{
  Controller, Effect, transmit, crash, max_resends, latest_state, latest_mode, is_remote_direct,
  neutralize_desired,
}
use hanium_smart_parkin.Bridge.Controller.Inbound.{is_halted}

-- The states in which nothing is streamed.
abbrev pub is_undrivable : VehicleState → Bool
is_undrivable boot = true
is_undrivable wifi_connecting = true
is_undrivable s = is_halted s

abbrev pub is_pending : Option ℕ → ℕ → Bool
is_pending none seq = false
is_pending (some n) seq = n == seq

module _ {F : Type 0} ⦃fl : Float F⦄ where
  heartbeat_of : Controller F → VehicleSession F → Controller F × List (Effect F)
  unfolding next_heartbeat_seq build_heartbeat
  heartbeat_of c s =
      let (s', n) = next_heartbeat_seq s in
      (record c { session = some s' }, transmit (build_heartbeat s.session_id n) ∷ [])

  unfoldable pub heartbeat_round : Controller F → Controller F × List (Effect F)
  unfolding heartbeat_of
  heartbeat_round c = elim c.session [
    | none ↦ (c, [])
    | some s ↦ if c.connected then heartbeat_of c s else (c, [])
  ]

  stream_of : Controller F → VehicleSession F → Controller F × List (Effect F)
  unfolding next_control_seq
  stream_of c s =
      let (s', n) = next_control_seq s in
      let c' = record c { session = some s' } in
      elim (build_direct_control s.session_id n s.desired_throttle s.desired_steering) [
        | none ↦ (c', crash ∷ [])
        | some m ↦ (c', transmit m ∷ [])
      ]

  unfoldable pub direct_control_round : Controller F → Controller F × List (Effect F)
  unfolding stream_of neutralize_desired
  direct_control_round c = elim c.session [
    | none ↦ (c, [])
    | some s ↦
        if c.connected && c.direct_streaming
        then (if not (is_remote_direct (latest_mode c)) || is_undrivable (latest_state c)
            then (neutralize_desired (record c { direct_streaming = false }), [])
            else stream_of c s)
        else (c, [])
  ]

  -- A command that was sent for the last time is given up, and with it the request it stood for.
  give_up : Controller F → VehicleSession F → ℕ → Controller F
  unfolding clear_outstanding neutralize_desired
  give_up c s seq =
      let c' = record c { session = some (clear_outstanding s) } in
      if is_pending c.pending_remote_mode_seq seq
      then neutralize_desired
          (record c' { pending_remote_mode_seq = none; direct_streaming = false })
      else c'

  resend_of :
      ℕ → Controller F → VehicleSession F → OutstandingCommand F → Controller F × List (Effect F)
  unfolding give_up
  resend_of now c s cmd =
      if ltb (now - cmd.sent_at) cmd.resend_timeout
      then (c, [])
      else (if leb max_resends cmd.resends then (give_up c s cmd.seq, []) else (
        record c {
          session = some (record s {
            outstanding = some (record cmd { resends = cmd.resends + 1; sent_at = now });
          });
        },
        transmit cmd.message ∷ [],
      ))

  outstanding_of :
      ℕ
      → Controller F
      → VehicleSession F
      → Option (OutstandingCommand F)
      → Controller F × List (Effect F)
  unfolding resend_of
  outstanding_of now c s none = (c, [])
  outstanding_of now c s (some cmd) = if c.connected then resend_of now c s cmd else (c, [])

  unfoldable pub reliable_resend_round : ℕ → Controller F → Controller F × List (Effect F)
  unfolding outstanding_of
  reliable_resend_round now c = elim c.session [
    | none ↦ (c, [])
    | some s ↦ outstanding_of now c s s.outstanding
  ]
