-- ===== src/Bridge/Controller/Snapshot.antt =====
-- controller.py: the snapshots of the car, whatever happens to the controller.
use hanium_smart_parkin.Base.{
  ℕ, ◌≡◌, ◌∙◌, is_some, ◌∷◌, ap, sym, refl, if_both, List, true, Option, none, some, [], arith,
}
use hanium_smart_parkin.Base.Float.{Float}
use hanium_smart_parkin.Bridge.Wire.{Status, as_int}
use hanium_smart_parkin.Bridge.Session.{VehicleSession, consume_terminal_result, is_stale_snapshot}
use hanium_smart_parkin.Bridge.Controller.State.{
  Effect, publish, latest_of, Controller, latest_state, latest_mode,
}
use hanium_smart_parkin.Bridge.Controller.Inbound.{status_of, on_status, finish_pending_mode}
use hanium_smart_parkin.Base.Int.{ℤ, ◌≤ℤ◌}

module _ {F : Type 0} ⦃fl : Float F⦄ where
  -- The session goes on, with a snapshot at least as new.
  abbrev pub GoesOn : VehicleSession F → Option (VehicleSession F) → Type 0
  GoesOn s none = ⊥
  GoesOn s (some s') = (s'.session_id ≡ s.session_id) × (s.last_status_seq ≤ℤ s'.last_status_seq)

  finish-latest :
      (m : Status F) (c : Controller F)
      → latest_of (finish_pending_mode m c).session ≡ latest_of c.session
  unfolding finish_pending_mode
  finish-latest m c = ground arith

  consume-latest :
      (m : Status F) (s : VehicleSession F)
      → latest_of (some (consume_terminal_result m s)) ≡ latest_of (some s)
  unfolding consume_terminal_result
  consume-latest m s = ground arith

  -- Nothing is sent, and the snapshot is that of s.
  abbrev Keeps : VehicleSession F → Controller F × List (Effect F) → Type 0
  Keeps s (c, out) = (out ≡ []) × (latest_of c.session ≡ latest_of (some s))

  stale_status :
      (now : ℕ) (m : Status F) (c : Controller F) (s : VehicleSession F)
      → is_stale_snapshot m s ≡ true
      → Keeps s (status_of now m c s)
  unfolding status_of
  stale_status now m c s old =
      let c1 = record c { session = some (consume_terminal_result m s) } in
      rw old (refl, finish-latest m c1 ∙ consume-latest m s)

  stale_on_status :
      (now : ℕ) (m : Status F) (c : Controller F) (s : VehicleSession F)
      → c.session ≡ some s
      → is_stale_snapshot m s ≡ true
      → Keeps s (on_status now m c)
  unfolding on_status
  stale_on_status now m c s e old =
      rw e (if_both (Keeps s) _ (stale_status now m c s old) (refl, refl))

  -- A STATUS that is not newer than the latest snapshot of the session publishes nothing, sends nothing
  -- and leaves the state and the mode that the driver sees, even if it answers a command.
  pub stale_keeps :
      (now : ℕ) (m : Status F) (c : Controller F) (s : VehicleSession F)
      → c.session ≡ some s
      → is_stale_snapshot m s ≡ true
      → ((on_status now m c).1 ≡ [])
        × (latest_state (on_status now m c).0 ≡ latest_state c)
        × (latest_mode (on_status now m c).0 ≡ latest_mode c)
  stale_keeps now m c s e old =
      let (silent, same) = stale_on_status now m c s e old in
      let back = same ∙ ap latest_of (sym e) in (silent, ap (λ r. r.0) back, ap (λ r. r.1) back)

  -- The number of a STATUS, if it has one, is not above that of the latest snapshot.
  abbrev pub IsOld : Status F → VehicleSession F → Type 0
  IsOld m s = (n : ℤ) × (as_int m.status_seq ≡ some n) × (n ≤ℤ s.last_status_seq)

  -- The STATUS is published as the latest snapshot.
  abbrev pub IsTaken : Status F → Controller F × List (Effect F) → Type 0
  IsTaken m (c, out) =
      (s' : VehicleSession F) × (m' : Status F) × (c.session ≡ some s')
      × (s'.last_status ≡ some m')
      × (out ≡ publish m' c.direct_streaming c.pending_remote_mode_seq ∷ [])
      × (m'.state ≡ m.state)
      × (m'.mode ≡ m.mode)
      × (m'.status_seq ≡ m.status_seq)

  -- What a STATUS of the session does with its snapshots.
  abbrev pub Renews : ℕ → Status F → Controller F → VehicleSession F → Type 0
  Renews now m c s =
      GoesOn s (on_status now m c).0.session
      × (IsOld m s
          → ((on_status now m c).1 ≡ [])
            × (latest_state (on_status now m c).0 ≡ latest_state c)
            × (latest_mode (on_status now m c).0 ≡ latest_mode c))
      × (¬ IsOld m s → IsTaken m (on_status now m c))

  abbrev HasSession : Controller F → Type 0
  HasSession c = is_some c.session ≡ true
