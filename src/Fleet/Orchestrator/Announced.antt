-- ===== src/Fleet/Orchestrator/Announced.antt =====
-- orchestrator.py: GO goes only to a target that the car has been sent.
use hanium_smart_parkin.Base.{
  ℕ, refl, inl, inr, Option-cases, Option, some, List, [], ◌∷◌, ◌++◌, All, if_both,
}
use hanium_smart_parkin.Base.Float.{Float}
use hanium_smart_parkin.Base.Arithmetic.{Arithmetic}
use hanium_smart_parkin.Fleet.Graph.{Slot}
use hanium_smart_parkin.Fleet.Waypoints.{Waypoint}
use hanium_smart_parkin.Fleet.Mission.{
  held, idle, Mission, Event, Reply, returned, raised, Link, Turn, MissionOrchestrator, current,
  in_state, is_over, recovery_of, write, store, with_mission,
}
use hanium_smart_parkin.Fleet.Orchestrator.{
  hold_mission, resume_mission, regenerate_mission, update_mission, status_mission, reject_mission,
  start_with, start_mission, hold, resume, regenerate, update_pose, on_vehicle_status,
  on_command_rejected, mark_link_lost, load_current,
}
use hanium_smart_parkin.Fleet.Orchestrator.Calls.{
  Call, start_call, hold_call, link_lost_call, resume_call, regenerate_call, pose_call, status_call,
  rejected_call, step, run, events_of, events, new, AllMissions, AllMissions-write,
  with_mission-none, with_mission-some, link_none, link_some,
}
use hanium_smart_parkin.Fleet.Orchestrator.Loaded.{
  IsUniform, AreAnnounced, grow, AreAnnounced-append, IsLoaded, IsLoaded-grow, Continues,
  ContinuesTurn, load_at-Continues, hold_mission-Continues, resume_in-Continues,
  regenerate_with-Continues, pose_in-Continues, status_in-Continues, recover-Continues,
}

module _ {F V E : Type 0} where
  -- After a call that has returned, its events are announced and the mission of each car is loaded.
  abbrev Goes : List (Event F) → MissionOrchestrator F V → Reply F E → Type 0
  Goes seen o (raised e) = Unit
  Goes seen o (returned es) = AreAnnounced seen es × AllMissions (IsLoaded (grow es seen)) o

  written-Goes :
      (seen : List (Event F)) (car : ℕ) (o : MissionOrchestrator F V) (m : Mission F) (v : V)
      (r : Reply F E)
      → AllMissions (IsLoaded seen) o
      → Continues seen car m r
      → Goes seen (record o { server = v; missions = write car (some m) o.missions }) r
  written-Goes seen car o m v (raised x) h k = tt
  written-Goes seen car o m v (returned es) h k = (
    k.0,
    AllMissions-write (IsLoaded (grow es seen)) o car m v
        (λ c n e. IsLoaded-grow es seen c n (h c n e)) k.1,
  )

  store-Goes :
      (seen : List (Event F)) (car : ℕ) (o : MissionOrchestrator F V) (t : Turn F V E)
      → AllMissions (IsLoaded seen) o
      → ContinuesTurn seen car t
      → Goes seen (store car o t).0 (store car o t).1
  store-Goes seen car o t h k = written-Goes seen car o t.mission t.server t.reply h k

  with_mission-Goes :
      (seen : List (Event F)) (car : ℕ) (f : Mission F → V → Turn F V E)
      (o : MissionOrchestrator F V)
      → AllMissions (IsLoaded seen) o
      → ((m : Mission F) → IsLoaded seen car m → ContinuesTurn seen car (f m o.server))
      → Goes seen (with_mission car f o).0 (with_mission car f o).1
  with_mission-Goes seen car f o h k = elim (Option-cases (o.missions car)) [
    | inl e ↦ rw (with_mission-none car f o e) (tt, h)
    | inr (m, e) ↦
        rw (with_mission-some car f o m e)
          (store-Goes seen car o (f m o.server) h (k m (h car m e)))
  ]

module _ {F V : Type 0} where
  mark_link_lost-keeps :
      (seen : List (Event F)) (car : ℕ) (o : MissionOrchestrator F V)
      → AllMissions (IsLoaded seen) o
      → AllMissions (IsLoaded seen) (mark_link_lost car o).0
  mark_link_lost-keeps seen car o h = elim (Option-cases (o.missions car)) [
    | inl e ↦ rw (link_none car o e) h
    | inr (m, e) ↦ rw (link_some car o m e) (
        if_both (AllMissions (IsLoaded seen)) (is_over m.state) h
          (AllMissions-write (IsLoaded seen) o car (in_state held m) o.server h (h car m e)))
  ]

-- A route is of waypoints that bear one route's id.
abbrev pub IsProper : {F : Type 0} → Call F → Type 0
IsProper (start_call ws slot) = IsUniform ws
IsProper (regenerate_call ws) = IsUniform ws
IsProper (hold_call _) = Unit
IsProper link_lost_call = Unit
IsProper resume_call = Unit
IsProper (pose_call _ _) = Unit
IsProper (status_call _) = Unit
IsProper (rejected_call _) = Unit

abbrev pub IsReturned : {F E : Type 0} → Reply F E → Type 0
IsReturned (returned es) = Unit
IsReturned (raised e) = ⊥

module _ {F V E : Type 0} ⦃fl : Float F⦄ ⦃ar : Arithmetic F⦄ (link : Link F V E) (lead : F) where
  start_with-Goes :
      (seen : List (Event F)) (car : ℕ) (ws : List (Waypoint F)) (slot : Option Slot)
      (o : MissionOrchestrator F V)
      → IsUniform ws
      → AllMissions (IsLoaded seen) o
      → Goes seen (start_with link car ws slot o).0 (start_with link car ws slot o).1
  unfolding start_with load_current
  start_with-Goes seen car [] slot o u h = tt
  start_with-Goes seen car (w ∷ ws) slot o u h =
      let m : Mission F = record {
        car_id = car;
        route_id = w.route_id;
        waypoints = w ∷ ws;
        index = 0;
        state = idle;
        slot_id = slot;
      } in
      store-Goes seen car o (load_current link m o.server) h
        (load_at-Continues link seen car (some w) m o.server refl refl u)

  step-Goes :
      (seen : List (Event F)) (car : ℕ) (c : Call F) (v : V) (o : MissionOrchestrator F V)
      → IsProper c
      → AllMissions (IsLoaded seen) o
      → Goes seen (step link lead car c v o).0 (step link lead car c v o).1
  unfolding step start_mission hold resume regenerate update_pose on_vehicle_status
      on_command_rejected resume_mission regenerate_mission update_mission status_mission
      reject_mission
  step-Goes seen car (start_call ws slot) v o u h =
      start_with-Goes seen car ws slot (record o { server = v }) u h
  step-Goes seen car (hold_call reason) v o u h =
      with_mission-Goes seen car (hold_mission link car reason) (record o { server = v }) h
        (λ m. hold_mission-Continues link seen car reason m v)
  step-Goes seen car link_lost_call v o u h =
      (tt, mark_link_lost-keeps seen car (record o { server = v }) h)
  step-Goes seen car resume_call v o u h =
      with_mission-Goes seen car (resume_mission link car) (record o { server = v }) h
        (λ m. resume_in-Continues link seen car m.state (current m) m v refl)
  step-Goes seen car (regenerate_call ws) v o u h =
      with_mission-Goes seen car (regenerate_mission link car ws) (record o { server = v }) h
        (λ m. regenerate_with-Continues link seen car ws m v u)
  step-Goes seen car (pose_call p d) v o u h =
      with_mission-Goes seen car (update_mission link lead car p d) (record o { server = v }) h
        (λ m. pose_in-Continues link seen car lead m.state (current m) p d m v)
  step-Goes seen car (status_call r) v o u h =
      with_mission-Goes seen car (status_mission link car r) (record o { server = v }) h
        (λ m. status_in-Continues link seen car m.state r m v)
  step-Goes seen car (rejected_call result) v o u h =
      with_mission-Goes seen car (reject_mission link car result) (record o { server = v }) h
        (λ m. recover-Continues link seen car (recovery_of result) result m v)

  reply-Goes :
      (seen : List (Event F)) (car : ℕ) (c : Call F) (v : V) (cs : List (ℕ × Call F × V))
      (o : MissionOrchestrator F V) (r : Reply F E)
      → IsReturned r
      → Goes seen o r
      → ((seen' : List (Event F))
          → AllMissions (IsLoaded seen') o
          → AreAnnounced seen' (events (run link lead cs o).1))
      → AreAnnounced seen (events_of r ++ events (run link lead cs o).1)
  reply-Goes seen car c v cs o (raised x) i g k = absurd i
  reply-Goes seen car c v cs o (returned es) i g k =
      AreAnnounced-append es (events (run link lead cs o).1) seen g.0 (k (grow es seen) g.1)

  run-Goes :
      (cs : List (ℕ × Call F × V)) (o : MissionOrchestrator F V) (seen : List (Event F))
      → All (λ (car, c, v). IsProper c) cs
      → AllMissions (IsLoaded seen) o
      → All IsReturned (run link lead cs o).1
      → AreAnnounced seen (events (run link lead cs o).1)
  unfolding run
  run-Goes [] o seen u h i = tt
  run-Goes ((car, c, v) ∷ cs) o seen u h i =
      let o' = (step link lead car c v o).0 in
      reply-Goes seen car c v cs o' (step link lead car c v o).1 i.0
        (step-Goes seen car c v o u.0 h) (λ seen' h'. run-Goes cs o' seen' u.1 h' i.1)

  -- As long as no call of the server raises, every GO of the orchestrator, for a car, a route and a
  -- waypoint, comes after a WAYPOINT that sent the car that waypoint of that route, whatever the
  -- server, the reports and the poses are, and however holds, rejections, lost links and new routes
  -- come between. The waypoints of one route are to bear one route's id.
  pub run-AreAnnounced :
      (cs : List (ℕ × Call F × V)) (v : V)
      → All (λ (car, c, v'). IsProper c) cs
      → All IsReturned (run link lead cs (new v)).1
      → AreAnnounced [] (events (run link lead cs (new v)).1)
  run-AreAnnounced cs v u i = run-Goes cs (new v) [] u (λ c m e. cc) i
