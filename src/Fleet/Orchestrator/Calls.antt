-- ===== src/Fleet/Orchestrator/Calls.antt =====
-- orchestrator.py: series of its calls. Between two calls other threads may change the server, so each
-- call comes with the server as it is then.
use hanium_smart_parkin.Base.{
  ℕ, ◌≡◌, inl, inr, Bool-cases, false, Option, none, some, List, [], ◌∷◌, ◌++◌, ◌==◌, if◌then◌else◌,
  arith,
}
use hanium_smart_parkin.Base.Float.{Float}
use hanium_smart_parkin.Base.Arithmetic.{Arithmetic}
use hanium_smart_parkin.Bridge.Wire.{CommandResult}
use hanium_smart_parkin.Fleet.Graph.{Slot}
use hanium_smart_parkin.Fleet.Waypoints.{Waypoint}
use hanium_smart_parkin.Fleet.Mission.{
  WaitReason, held, in_state, is_over, write, Mission, Report, Event, Reply, returned, raised, Link,
  Turn, MissionOrchestrator, store, with_mission,
}
use hanium_smart_parkin.Fleet.Orchestrator.{
  start_mission, hold, resume, regenerate, update_pose, on_vehicle_status, on_command_rejected,
  mark_link_lost,
}

pub data Call (F : Type 0) : Type 0 where
  start_call : List (Waypoint F) → Option Slot → Call F
  hold_call : WaitReason → Call F
  link_lost_call resume_call : Call F
  regenerate_call : List (Waypoint F) → Call F
  pose_call : F × F → Option F → Call F
  status_call : Report → Call F
  rejected_call : CommandResult → Call F

module _ {F V E : Type 0} ⦃fl : Float F⦄ ⦃ar : Arithmetic F⦄ (link : Link F V E) (lead : F) where
  -- A call for a car, at a state of the server.
  unfoldable pub step :
      ℕ → Call F → V → MissionOrchestrator F V → MissionOrchestrator F V × Reply F E
  step car (start_call ws slot) v o = start_mission link car ws slot (record o { server = v })
  step car (hold_call reason) v o = hold link car reason (record o { server = v })
  step car link_lost_call v o = ((mark_link_lost car (record o { server = v })).0, returned [])
  step car resume_call v o = resume link car (record o { server = v })
  step car (regenerate_call ws) v o = regenerate link car ws (record o { server = v })
  step car (pose_call p h) v o = update_pose link lead car p h (record o { server = v })
  step car (status_call r) v o = on_vehicle_status link car r (record o { server = v })
  step car (rejected_call result) v o =
      on_command_rejected link car result (record o { server = v })

  unfoldable pub run :
      List (ℕ × Call F × V) → MissionOrchestrator F V → MissionOrchestrator F V × List (Reply F E)
  run [] o = (o, [])
  run ((car, c, v) ∷ cs) o =
      let (o', r) = step car c v o in let (last, rs) = run cs o' in (last, r ∷ rs)

module _ {F E : Type 0} where
  abbrev pub events_of : Reply F E → List (Event F)
  events_of (returned es) = es
  events_of (raised e) = []

  abbrev pub events : List (Reply F E) → List (Event F)
  events [] = []
  events (r ∷ rs) = events_of r ++ events rs

module _ {F V : Type 0} where
  -- Before the first call.
  abbrev pub new : V → MissionOrchestrator F V
  new v = record { server = v; missions = λ c. none; route_counter = 0 }

  -- What holds of the mission of each car.
  abbrev pub AllMissions : (ℕ → Mission F → Type 0) → MissionOrchestrator F V → Type 0
  AllMissions P o = (c : ℕ) (m : Mission F) → o.missions c ≡ some m → P c m

  pub AllMissions-write :
      (P : ℕ → Mission F → Type 0) (o : MissionOrchestrator F V) (car : ℕ) (m : Mission F) (v : V)
      → AllMissions P o
      → P car m
      → AllMissions P (record o { server = v; missions = write car (some m) o.missions })
  AllMissions-write P o car m v h p c m' e = elim (Bool-cases (c == car)) [
    | inl t ↦ ground (arith, t, e, p)
    | inr f ↦ h c m' (ground (arith, f, e))
  ]

  pub link_none :
      (car : ℕ) (o : MissionOrchestrator F V)
      → o.missions car ≡ none
      → mark_link_lost car o ≡ (o, false)
  unfolding mark_link_lost
  link_none car o e = ground (arith, e)

  pub link_some :
      (car : ℕ) (o : MissionOrchestrator F V) (m : Mission F)
      → o.missions car ≡ some m
      → (mark_link_lost car o).0 ≡ (
          if is_over m.state
          then o
          else (record o { missions = write car (some (in_state held m)) o.missions }))
  unfolding mark_link_lost
  link_some car o m e = ground (arith, e)

module _ {F V E : Type 0} where
  pub with_mission-none :
      (car : ℕ) (f : Mission F → V → Turn F V E) (o : MissionOrchestrator F V)
      → o.missions car ≡ none
      → with_mission car f o ≡ (o, returned [])
  unfolding with_mission
  with_mission-none car f o e = ground (arith, e)

  pub with_mission-some :
      (car : ℕ) (f : Mission F → V → Turn F V E) (o : MissionOrchestrator F V) (m : Mission F)
      → o.missions car ≡ some m
      → with_mission car f o ≡ store car o (f m o.server)
  unfolding with_mission
  with_mission-some car f o m e = ground (arith, e)
