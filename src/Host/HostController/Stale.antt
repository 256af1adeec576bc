-- ===== src/Host/HostController/Stale.antt =====
-- host_controller.py: a pose that is stale or invalid, while the car drives itself.
use hanium_smart_parkin.Base.{
  ◌≡◌, refl, Bool, true, false, not, ◌&&◌, Option, none, some, is_some, arith, if◌then◌else◌,
}
use hanium_smart_parkin.Base.Float.{Float}
use hanium_smart_parkin.Base.Arithmetic.{Arithmetic}
use hanium_smart_parkin.Host.Model.{
  ControllerConfig, ControlCommand, mission_reason, Pose, Waypoint, Reason,
}
use hanium_smart_parkin.Host.Authority.{
  Authority, ControlAuthority, disarmed, manual, auto_host, faulted, fault,
}
use hanium_smart_parkin.Host.Mission.{HostWaypointMission, is_active, current_target}
use hanium_smart_parkin.Host.Pursuit.{Memory, compute, halt, stopped}
use hanium_smart_parkin.Host.Producers.{ManualInput, compute_auto, observe_pose, zero_command}
use hanium_smart_parkin.Host.HostController.{
  HostController, TickResult, tick_in, tick, finish, observe, settle, auto_tick, is_stale_reason,
}
use hanium_smart_parkin.Host.HostController.Latch.{IsZero}
use hanium_smart_parkin.Host.HostController.Permit.{finish_stopped}

pub fault-state : (a : ControlAuthority) (r : Reason) → (fault r a).state ≡ faulted
unfolding fault
fault-state a r = ground arith

pub active_of_target :
    {F : Type 0} (m : HostWaypointMission F) (w : Waypoint F)
    → current_target m ≡ some w
    → is_active m.status ≡ true
unfolding current_target
active_of_target m w e = ground arith

module _ {F : Type 0} ⦃fl : Float F⦄ ⦃ar : Arithmetic F⦄ (cfg : ControllerConfig F) where
  -- The gates of `compute` as one test.
  abbrev pub is_fresh : Pose F → F → Bool
  is_fresh p now =
      p.valid && (is_some p.heading_deg && not (fl.lt cfg.max_pose_age_s (ar.sub now p.timestamp)))

  pub compute-stale :
      (p : Pose F) (w : Waypoint F) (now : F) (mem : Memory F)
      → is_fresh p now ≡ false
      → is_stale_reason (compute cfg p w true now mem).0.reason ≡ true
  unfolding compute halt stopped
  compute-stale p w now mem e = ground arith

  settle-stale :
      (r : ControlCommand F × Memory F) (h : HostController F)
      → h.fault_on_stale ≡ true
      → is_stale_reason r.0.reason ≡ true
      → let (h', t) = settle cfg true r h in
        (h'.authority.state ≡ faulted) × IsZero t.payload × (h'.mission ≡ h.mission)
  unfolding settle finish
  settle-stale (cmd, mem) h f s =
      rw (s, f)
        (fault-state h.authority cmd.reason, finish_stopped (zero_command cmd.reason) h, refl)

  -- The result of a tick with a stale pose.
  abbrev pub IsFault : HostController F → HostController F × TickResult F → Type 0
  IsFault h (h', t) = (h'.authority.state ≡ faulted) × IsZero t.payload × (h'.mission ≡ h.mission)

  auto_tick-stale :
      (now : F) (p : Pose F) (h : HostController F) (w : Waypoint F) (o : Option (Pose F))
      → h.fault_on_stale ≡ true
      → is_fresh p now ≡ false
      → o ≡ some p
      → IsFault h (settle cfg (is_some o) (compute_auto cfg o (some w) true now h.memory) h)
  unfolding compute_auto
  auto_tick-stale now p h w none f s e = ground arith
  auto_tick-stale now p h w (some q) f s e =
      settle-stale (compute cfg q w true now h.memory) h f
        (compute-stale q w now h.memory (ground arith))

  branch-stale :
      (b : Bool) (o : Option (Waypoint F)) (now : F) (p : Pose F) (h : HostController F)
      (w : Waypoint F)
      → h.fault_on_stale ≡ true
      → is_fresh p now ≡ false
      → h.pose_source.pose ≡ some p
      → b ≡ true
      → o ≡ some w
      → IsFault h (
          if b
          then auto_tick cfg now h o
          else finish (zero_command (mission_reason h.mission.status)) true h)
  unfolding auto_tick
  branch-stale true (some v) now p h w f k e active e' = auto_tick-stale now p h v _ f k e
  branch-stale true none now p h w f k e active e' = ground arith
  branch-stale false o now p h w f k e active e' = ground arith

  tick_in-stale :
      (s : Authority) (now : F) (p : Pose F) (input : Option (ManualInput F)) (h : HostController F)
      (w : Waypoint F)
      → s ≡ auto_host
      → h.fault_on_stale ≡ true
      → current_target h.mission ≡ some w
      → is_fresh p now ≡ false
      → h.pose_source.pose ≡ some p
      → IsFault h (tick_in cfg s now input h)
  unfolding tick_in
  tick_in-stale auto_host now p input h w a f e k q =
      branch-stale _ _ now p h w f k q (active_of_target h.mission w e) e
  tick_in-stale disarmed now p input h w a f e k q = ground arith
  tick_in-stale manual now p input h w a f e k q = ground arith
  tick_in-stale faulted now p input h w a f e k q = ground arith

  -- While AUTO_HOST has a waypoint to go to and `fault_on_stale` is set, a pose observed with the tick
  -- that is invalid, without a heading or too old makes the controller FAULTED. The message sent has
  -- throttle and steering zero, and the mission stays as it was.
  pub stale_faults :
      (now : F) (p : Pose F) (input : Option (ManualInput F)) (h : HostController F)
      (w : Waypoint F)
      → h.authority.state ≡ auto_host
      → h.fault_on_stale ≡ true
      → current_target h.mission ≡ some w
      → is_fresh p now ≡ false
      → let (h', t) = tick cfg now (some p) input h in
        (h'.authority.state ≡ faulted) × IsZero t.payload × (h'.mission ≡ h.mission)
  unfolding tick observe observe_pose
  stale_faults now p input h w a f e s =
      tick_in-stale _ now p input (observe (some p) h) w a f e s refl
