-- ===== src/Bridge/Controller/Intents.antt =====
-- controller.py: attaching and detaching the transport, and the driver's commands. A command that
-- awaits the transport while it sends is given in two parts, since other steps may run in between.
use hanium_smart_parkin.Base.{
  ℕ, Bool, true, false, not, ◌&&◌, ◌||◌, Option, none, some, List, [], ◌∷◌, is_some, if◌then◌else◌,
}
use hanium_smart_parkin.Base.Float.{Float, is_nought}
use hanium_smart_parkin.Bridge.Wire.{
  VehicleState, ready, waiting, emergency_stop, syncing, AckResult, clamp,
}
use hanium_smart_parkin.Bridge.Session.{has_outstanding}
use hanium_smart_parkin.Bridge.Controller.State.{
  Controller, Effect, connection, set_mode_remote, stop_command, reset_command, send_reliable,
  latest_state, latest_mode, is_remote_direct, neutralize_desired,
}
use hanium_smart_parkin.Bridge.Controller.Inbound.{is_locked}

abbrev is_ready : VehicleState → Bool
is_ready ready = true
is_ready _ = false

abbrev may_resume : VehicleState → Bool
may_resume ready = true
may_resume waiting = true
may_resume _ = false

abbrev is_emergency : VehicleState → Bool
is_emergency emergency_stop = true
is_emergency _ = false

abbrev is_held_syncing : VehicleState → Option AckResult → Bool
is_held_syncing syncing (some AckResult.hold) = true
is_held_syncing _ _ = false

module _ {F : Type 0} ⦃fl : Float F⦄ where
  unfoldable pub attach : Controller F → Controller F × List (Effect F)
  attach c = (record c { connected = true }, connection true ∷ [])

  unfoldable pub detach : Controller F → Controller F × List (Effect F)
  detach c = (
    record c {
      session = none;
      connected = false;
      direct_streaming = false;
      pending_remote_mode_seq = none;
      hello_result = none;
      hello_reason = none;
      last_encoder_count = none;
    },
    connection false ∷ [],
  )

  -- `self._direct_streaming = False; self._neutralize_desired()`, with the pending request `p`
  abbrev park : Option ℕ → Controller F → Controller F
  park p c = neutralize_desired (record c { direct_streaming = false; pending_remote_mode_seq = p })

  -- `cmd_mode_remote` up to where it awaits; the number is that of the SET_MODE sent, if one was.
  unfoldable pub mode_remote_begin : ℕ → Controller F → Controller F × List (Effect F) × Option ℕ
  unfolding neutralize_desired send_reliable
  mode_remote_begin now c =
      if not (is_some c.session)
        || is_some c.pending_remote_mode_seq
        || not (is_ready (latest_state c))
      then (c, [], none)
      else (if is_remote_direct (latest_mode c)
          then (record (neutralize_desired c) { direct_streaming = true }, [], none)
          else send_reliable set_mode_remote false now c)

  -- `cmd_mode_remote` behind the await
  unfoldable pub mode_remote_end : ℕ → Controller F → Controller F
  unfolding neutralize_desired
  mode_remote_end seq c = park (some seq) c

  -- `cmd_mode_remote` with nothing in between
  unfoldable pub cmd_mode_remote : ℕ → Controller F → Controller F × List (Effect F)
  unfolding mode_remote_begin mode_remote_end
  cmd_mode_remote now c =
      let (c', es, n) = mode_remote_begin now c in
      elim n [ none ↦ (c', es) | some seq ↦ (mode_remote_end seq c', es) ]

  -- `cmd_stop` up to `_send_reliable`; the flag says whether STOP is to be sent.
  unfoldable pub stop_begin : Controller F → Controller F × Bool
  unfolding neutralize_desired
  stop_begin c =
      let idle : Bool = elim c.session [ none ↦ false | some s ↦ not (has_outstanding s) ] in
      (park none c, not (is_emergency (latest_state c) && idle))

  unfoldable pub cmd_stop : ℕ → Controller F → Controller F × List (Effect F)
  unfolding stop_begin send_reliable
  cmd_stop now c =
      let (c', go) = stop_begin c in
      if go
      then (let (c'', es, _) = send_reliable stop_command true now c' in (c'', es))
      else (c', [])

  -- `cmd_reset` up to `_send_reliable`
  unfoldable pub reset_begin : Controller F → Controller F × Bool
  unfolding neutralize_desired
  reset_begin c =
      if is_locked (latest_state c) || is_held_syncing (latest_state c) c.hello_result
      then (park none c, true)
      else (c, false)

  unfoldable pub cmd_reset : ℕ → Controller F → Controller F × List (Effect F)
  unfolding reset_begin send_reliable
  cmd_reset now c =
      let (c', go) = reset_begin c in
      if go
      then (let (c'', es, _) = send_reliable reset_command false now c' in (c'', es))
      else (c', [])

  -- The setters give `none` for a `ProtocolError`, which leaves the controller as it was.
  unfoldable pub set_throttle : F → Controller F → Option (Controller F)
  unfolding clamp
  set_throttle value c = elim c.session [
    | none ↦ some c
    | some s ↦ elim (clamp value fl.neg_one fl.one) [
      | none ↦ none
      | some v ↦
          let kept = if not (is_nought v) && not c.direct_streaming then fl.nought else v in
          some (record c { session = some (record s { desired_throttle = kept }) })
    ]
  ]

  unfoldable pub set_steering : F → Controller F → Option (Controller F)
  unfolding clamp
  set_steering value c = elim c.session [
    | none ↦ some c
    | some s ↦ elim (clamp value fl.neg_one fl.one) [
      | none ↦ none
      | some v ↦
          let kept = if not (is_nought v) && not c.direct_streaming then fl.nought else v in
          some (record c { session = some (record s { desired_steering = kept }) })
    ]
  ]

  unfoldable pub set_drive : F → F → Controller F → Option (Controller F)
  unfolding clamp neutralize_desired
  set_drive throttle steering c = elim c.session [
    | none ↦ some c
    | some s ↦ elim (clamp throttle fl.neg_one fl.one) [
      | none ↦ none
      | some t ↦ elim (clamp steering fl.neg_one fl.one) [
        | none ↦ none
        | some r ↦
            if not c.direct_streaming && (not (is_nought t) || not (is_nought r))
            then some (neutralize_desired c)
            else some (record c {
              session = some (record s { desired_throttle = t; desired_steering = r });
            })
      ]
    ]
  ]

  unfoldable pub nudge_throttle : F → Controller F → Option (Controller F)
  unfolding set_throttle
  nudge_throttle d c = elim c.session [
    | none ↦ some c
    | some s ↦ set_throttle (fl.add s.desired_throttle d) c
  ]

  unfoldable pub nudge_steering : F → Controller F → Option (Controller F)
  unfolding set_steering
  nudge_steering d c = elim c.session [
    | none ↦ some c
    | some s ↦ set_steering (fl.add s.desired_steering d) c
  ]

  -- `cmd_center` and `cmd_neutral`
  unfoldable pub center : Controller F → Controller F
  center c = elim c.session [
    | none ↦ c
    | some s ↦ record c { session = some (record s { desired_steering = fl.nought }) }
  ]

  unfoldable pub neutral : Controller F → Controller F
  neutral c = elim c.session [
    | none ↦ c
    | some s ↦ record c { session = some (record s { desired_throttle = fl.nought }) }
  ]

  unfoldable pub pause_direct_stream : Controller F → Controller F
  unfolding neutralize_desired
  pause_direct_stream c = neutralize_desired (record c { direct_streaming = false })

  unfoldable pub resume_direct_stream : Controller F → Controller F
  unfolding neutralize_desired
  resume_direct_stream c =
      if is_remote_direct (latest_mode c) && may_resume (latest_state c)
      then record (neutralize_desired c) { direct_streaming = true }
      else c
