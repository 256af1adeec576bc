-- ===== src/Host/Mission.antt =====
-- integrated/host/host_control/mission.py: `HostWaypointMission`, the progress along a route.
pub mod Progress
use hanium_smart_parkin.Base.{
  ℕ, ◌+◌, ◌-◌, Bool, true, false, ◌||◌, Option, none, some, List, [], ◌∷◌, length, get_elem?, ◌==◌,
  if◌then◌else◌,
}
use hanium_smart_parkin.Host.Model.{
  MissionStatus, empty, running, replan_required, done, parked, Waypoint, ControlMode, align,
  ControlCommand,
}

pub record HostWaypointMission (F : Type 0) : Type 0 where
  pub waypoints : List (Waypoint F)
  pub index : ℕ
  pub status : MissionStatus

-- `is_active`
abbrev pub is_active : MissionStatus → Bool
is_active running = true
is_active _ = false

abbrev is_align : ControlMode → Bool
is_align align = true
is_align _ = false

module _ {F : Type 0} where
  abbrev status_of : List (Waypoint F) → MissionStatus
  status_of [] = empty
  status_of (_ ∷ _) = running

  -- `HostWaypointMission(waypoints)`
  unfoldable pub new : List (Waypoint F) → HostWaypointMission F
  new ws = record { waypoints = ws; index = 0; status = status_of ws }

  unfoldable pub load : List (Waypoint F) → HostWaypointMission F → HostWaypointMission F
  load ws m = record { waypoints = ws; index = 0; status = status_of ws }

  unfoldable pub reset : HostWaypointMission F → HostWaypointMission F
  reset m = record m { index = 0; status = status_of m.waypoints }

  unfoldable pub current_target : HostWaypointMission F → Option (Waypoint F)
  current_target m = if is_active m.status then get_elem? m.waypoints m.index else none

  abbrev is_final_waypoint : Option (Waypoint F) → Bool
  is_final_waypoint none = false
  is_final_waypoint (some w) = w.is_final

  -- `_is_final_index`; the index is that of a waypoint whenever the mission is running.
  unfoldable pub is_final_index : HostWaypointMission F → Bool
  is_final_index m =
      is_final_waypoint (get_elem? m.waypoints m.index) || (m.index + 1 == length m.waypoints)

  -- `notify_result`; the returned status is that of the new mission.
  unfoldable pub notify_result : ControlCommand F → HostWaypointMission F → HostWaypointMission F
  unfolding is_final_index
  notify_result cmd m =
      if is_active m.status
      then (if is_align cmd.mode
          then record m { status = replan_required }
          else (if cmd.arrived
              then (if is_final_index m
                  then record m { status = done }
                  else record m { index = m.index + 1 })
              else m))
      else m

  confirm : HostWaypointMission F → MissionStatus → HostWaypointMission F
  confirm m done = record m { status = parked }
  confirm m _ = m

  unfoldable pub confirm_parked : HostWaypointMission F → HostWaypointMission F
  unfolding confirm
  confirm_parked m = confirm m m.status
