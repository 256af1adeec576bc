-- ===== src/Fleet/Orchestrator/Failure.antt =====
-- orchestrator.py: what a call leaves behind if the server has raised.
use hanium_smart_parkin.Base.{
  ℕ, ◌+◌, ◌≡◌, refl, true, Option, none, some, [], ◌∷◌, ◌∙◌, ap, arith, get_elem?,
}
use hanium_smart_parkin.Base.Float.{Float}
use hanium_smart_parkin.Base.Arithmetic.{Arithmetic}
use hanium_smart_parkin.Bridge.Wire.{waiting}
use hanium_smart_parkin.Fleet.Waypoints.{Waypoint, to_wire}
use hanium_smart_parkin.Fleet.Mission.{
  MissionState, switching, loading, Mission, Report, waypoint_sent, refused, returned, raised, Link,
  current, in_state, is_waiting, turn, sending,
}
use hanium_smart_parkin.Fleet.Orchestrator.{
  load_at, load_current, next_target, status_in, status_mission,
}

-- The mission with its index further on.
abbrev pub advanced : {F : Type 0} → ℕ → Mission F → Mission F
advanced n m = record m { index = m.index + n }

module _ {F V E : Type 0} ⦃fl : Float F⦄ ⦃ar : Arithmetic F⦄ (link : Link F V E) (car : ℕ) where
  next_target-some :
      (o : Option (Waypoint F)) (m : Mission F) (v : V) (w : Waypoint F)
      → o ≡ some w
      → current m ≡ some w
      → next_target link o m v
        ≡ sending m
            (in_state loading m)
            (waypoint_sent m.car_id w)
            (link.send_waypoint m.car_id (to_wire w) v)
  unfolding next_target load_current load_at
  next_target-some none m v w e c = cc
  next_target-some (some w') m v w e c = rw c refl

  next_at :
      (k : MissionState) (r : Report) (m : Mission F) (v : V) (w : Waypoint F)
      → k ≡ switching
      → is_waiting r.state ≡ true
      → get_elem? m.waypoints (m.index + 1) ≡ some w
      → status_in link k car r m v
        ≡ sending
            (advanced 1 m)
            (in_state loading (advanced 1 m))
            (waypoint_sent m.car_id w)
            (link.send_waypoint m.car_id (to_wire w) v)
  unfolding status_in
  next_at switching r m v w s q e =
      rw q (next_target-some (current (advanced 1 m)) (advanced 1 m) v w e e)
  next_at _ r m v w s q e = cc

  next_sent :
      (r : Report) (m : Mission F) (v : V) (w : Waypoint F)
      → m.state ≡ switching
      → is_waiting r.state ≡ true
      → get_elem? m.waypoints (m.index + 1) ≡ some w
      → status_mission link car r m v
        ≡ sending
            (advanced 1 m)
            (in_state loading (advanced 1 m))
            (waypoint_sent m.car_id w)
            (link.send_waypoint m.car_id (to_wire w) v)
  unfolding status_mission
  next_sent r m v w s q e = next_at m.state r m v w s q e

  pub sending_refused :
      (before after : Mission F) (p : V × Option E) (w : Waypoint F) (x : E)
      → p.1 ≡ some x
      → sending before after (waypoint_sent before.car_id w) p
        ≡ turn before p.0 (raised (refused x))
  sending_refused before after (v, none) w x e = cc
  sending_refused before after (v, some y) w x e = ground (arith, e)

  sending_returned :
      (before after : Mission F) (p : V × Option E) (w : Waypoint F)
      → p.1 ≡ none
      → sending before after (waypoint_sent before.car_id w) p
        ≡ turn after p.0 (returned (waypoint_sent before.car_id w ∷ []))
  sending_returned before after (v, none) w e = refl
  sending_returned before after (v, some y) w e = cc

  -- A mission that is to send its next waypoint, but whose call of the server raises, has passed that
  -- waypoint over: it stays in SWITCHING with its index moved on, so that the next report of a waiting
  -- car, if the server takes the call then, sends the waypoint after it.
  pub refused_skips :
      (r r' : Report) (m : Mission F) (v v' : V) (w w' : Waypoint F) (x : E)
      → m.state ≡ switching
      → r.state ≡ waiting
      → r'.state ≡ waiting
      → get_elem? m.waypoints (m.index + 1) ≡ some w
      → get_elem? m.waypoints (m.index + 1 + 1) ≡ some w'
      → (link.send_waypoint m.car_id (to_wire w) v).1 ≡ some x
      → (link.send_waypoint m.car_id (to_wire w') v').1 ≡ none
      → let t = status_mission link car r m v in
        let t' = status_mission link car r' t.mission v' in
        (t.reply ≡ raised (refused x))
        × (t.mission ≡ advanced 1 m)
        × (t'.reply ≡ returned (waypoint_sent m.car_id w' ∷ []))
        × (t'.mission ≡ in_state loading (advanced 1 (advanced 1 m)))
  refused_skips r r' m v v' w w' x s q q' e e' f f' =
      let first = next_sent r m v w s (rw q refl) e ∙ sending_refused _ _ _ w x f in
      let second =
        next_sent r' (advanced 1 m) v' w' s (rw q' refl) e' ∙ sending_returned _ _ _ w' f' in
      rw first (refl, refl, ap (λ t. t.reply) second, ap (λ t. t.mission) second)
