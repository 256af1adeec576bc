-- ===== src/Fleet/Orchestrator/Cycle.antt =====
-- orchestrator.py: the states of a mission, and which call leads from which to which.
use hanium_smart_parkin.Base.{Bool, ◌⊎◌, ◌+◌, ◌≡◌, ◌≢◌, true, false, Option, none, some, List, ◌∷◌}
use hanium_smart_parkin.Base.Float.{Float}
use hanium_smart_parkin.Base.Arithmetic.{Arithmetic}
use hanium_smart_parkin.Bridge.Wire.{waiting, moving, CommandResult}
use hanium_smart_parkin.Fleet.Waypoints.{Waypoint, is_waypoint_reached}
use hanium_smart_parkin.Fleet.Mission.{
  MissionState, driving, switching, loading, resuming, held, parked_check, done, WaitReason,
  Mission, Report, current, is_over, no_recovery, recovery_of, Reply, returned, raised,
}
use hanium_smart_parkin.Base.Int.{pos}
use hanium_smart_parkin.Fleet.Orchestrator.{reached}
use hanium_smart_parkin.Fleet.Orchestrator.Calls.{
  Call, start_call, hold_call, link_lost_call, resume_call, regenerate_call, pose_call, status_call,
  rejected_call,
}

-- The report says that the car has the current target of this route.
abbrev pub Loaded : {F : Type 0} → Mission F → Report → Type 0
Loaded {F} m r =
    (w : Waypoint F) × (current m ≡ some w)
    × (r.target_loaded ≡ true)
    × (r.route_id ≡ some (pos m.route_id))
    × (r.waypoint_id ≡ some (pos w.waypoint_id))

abbrev pub advanced : {F : Type 0} → Mission F → Mission F
advanced m = record m { index = m.index + 1 }

module _ {F : Type 0} ⦃fl : Float F⦄ ⦃ar : Arithmetic F⦄ where
  -- When a call makes nothing of a mission.
  abbrev pub Rests : F → Call F → Mission F → Type 0
  Rests lead (start_call _ _) m = ⊥
  Rests lead (regenerate_call _) m = ⊥
  Rests lead (hold_call _) m = is_over m.state ≡ true
  Rests lead link_lost_call m = is_over m.state ≡ true
  Rests lead resume_call m = (m.state ≢ held) ⊎ (current m ≡ none)
  Rests lead (pose_call p h) m =
      (w : Waypoint F)
      → current m ≡ some w
      → ((m.state ≡ driving) → reached lead w p h ≡ false)
        × ((m.state ≡ parked_check) → is_waypoint_reached w p h ≡ false)
  Rests lead (status_call r) m =
      ((m.state ≡ switching) → r.state ≢ waiting)
      × ((m.state ≡ loading) → (r.state ≢ moving) × ¬ ((r.state ≡ waiting) × Loaded m r))
      × ((m.state ≡ resuming) → r.state ≢ moving)
  Rests lead (rejected_call result) m = recovery_of result ≡ no_recovery

-- What a call makes of a mission: whether it raises, and the state after it. An exception leaves the
-- state as it is; without one, a call that does not rest moves.
pub data Move {F : Type 0} ⦃fl : Float F⦄ ⦃ar : Arithmetic F⦄ (lead : F)
    : Call F → Mission F → Bool → MissionState → Type 0 where
  fails : {c : Call F} {m : Mission F} → Move lead c m true m.state
  rests : {c : Call F} {m : Mission F} → Rests lead c m → Move lead c m false m.state
  -- The cycle WAIT, WAYPOINT, GO
  arrives :
      {m : Mission F} {p : F × F} {h : Option F} {w : Waypoint F}
      → m.state ≡ driving
      → current m ≡ some w
      → reached lead w p h ≡ true
      → w.is_final ≡ false
      → Move lead (pose_call p h) m false switching
  loads_next :
      {m : Mission F} {r : Report} {w : Waypoint F}
      → m.state ≡ switching
      → r.state ≡ waiting
      → current (advanced m) ≡ some w
      → Move lead (status_call r) m false loading
  goes :
      {m : Mission F} {r : Report}
      → m.state ≡ loading
      → r.state ≡ waiting
      → Loaded m r
      → Move lead (status_call r) m false resuming
  departs :
      {m : Mission F} {r : Report}
      → (m.state ≡ resuming) ⊎ (m.state ≡ loading)
      → r.state ≡ moving
      → Move lead (status_call r) m false driving
  -- The end of the route
  arrives_at_end :
      {m : Mission F} {p : F × F} {h : Option F} {w : Waypoint F}
      → m.state ≡ driving
      → current m ≡ some w
      → reached lead w p h ≡ true
      → w.is_final ≡ true
      → Move lead (pose_call p h) m false parked_check
  parks :
      {m : Mission F} {p : F × F} {h : Option F} {w : Waypoint F}
      → m.state ≡ parked_check
      → current m ≡ some w
      → is_waypoint_reached w p h ≡ true
      → Move lead (pose_call p h) m false done
  runs_out :
      {m : Mission F} {r : Report}
      → m.state ≡ switching
      → r.state ≡ waiting
      → current (advanced m) ≡ none
      → Move lead (status_call r) m false done
  -- Holding and going on
  holds :
      {m : Mission F} {reason : WaitReason}
      → is_over m.state ≡ false
      → Move lead (hold_call reason) m false held
  loses_link : {m : Mission F} → is_over m.state ≡ false → Move lead link_lost_call m false held
  resumes :
      {m : Mission F} {w : Waypoint F}
      → m.state ≡ held
      → current m ≡ some w
      → Move lead resume_call m false resuming
  changes_route :
      {m : Mission F} {w : Waypoint F} {ws : List (Waypoint F)}
      → Move lead (regenerate_call (w ∷ ws)) m false loading
  is_turned_down :
      {m : Mission F} {result : CommandResult}
      → recovery_of result ≢ no_recovery
      → Move lead (rejected_call result) m false held

module _ {F E : Type 0} where
  abbrev pub is_raised : Reply F E → Bool
  is_raised (returned _) = false
  is_raised (raised _) = true
