-- ===== src/Host/Hybrid.antt =====
-- integrated/host/control/hybrid_control.py: `HybridControlMux`, which hands the car of a host
-- controller from the driver's keys to the autopilot and back, with the loops of
-- integrated/host/integration/control_scheduler.py. The driver's loop takes no more round once it is
-- stopped. A stop of the scheduler before its thread has begun is lost, as in the code, and a later one
-- is not. The sender is that of `HostController`, and does not raise. `cfg` is `host.config`.
pub mod Calls
pub mod Alone
pub mod Prompt
pub mod Resume
pub mod Locked
mod Tests
use hanium_smart_parkin.Base.{
  Bool, true, false, not, ◌&&◌, ◌||◌, Option, none, some, List, [], ◌∷◌, ◌++◌, if◌then◌else◌,
}
use hanium_smart_parkin.Base.Float.{Float, min_f, max_f}
use hanium_smart_parkin.Base.Arithmetic.{Arithmetic}
use hanium_smart_parkin.Host.Model.{Reason, Pose, Waypoint, ControllerConfig}
use hanium_smart_parkin.Host.Authority.{Authority, manual}
use hanium_smart_parkin.Host.Mission
use hanium_smart_parkin.Host.Producers.{ManualInput}
use hanium_smart_parkin.Host.HostController
use hanium_smart_parkin.Host.HostController.{HostController, TickResult}

pub data HybridMode : Type 0 where
  auto_host auto_pending manual_wasd : HybridMode

pub record HybridControlMux (F : Type 0) : Type 0 where
  pub host : HostController F
  pub mode : HybridMode
  -- `_manual`
  pub held : ManualInput F
  -- Whether the thread of `_manual_loop` and that of `runner.scheduler` run
  pub manual_running : Bool
  pub scheduler_running : Bool
  -- Whether that thread has begun, which clears its stop flag, and whether the thread of a scheduler goes
  -- on that another one has replaced, so that nothing stops it
  pub scheduler_begun : Bool
  pub stray : Bool
  -- The configuration of `host.manual_producer`
  pub manual_config : ControllerConfig F

-- What reaches the server: `stop_control`, a tick with the driver's input, a tick of the scheduler.
pub data Sent (F : Type 0) : Type 0 where
  zeroed : Sent F
  driven : TickResult F → Sent F
  steered : TickResult F → Sent F

-- The new state, what is sent, and whether an `AuthorityError` comes out.
abbrev pub Effect : Type 0 → Type 0
Effect F = HybridControlMux F × List (Sent F) × Bool

abbrev pub is_manual_wasd : HybridMode → Bool
is_manual_wasd manual_wasd = true
is_manual_wasd _ = false

abbrev pub is_pending : HybridMode → Bool
is_pending auto_pending = true
is_pending _ = false

module _ {F : Type 0} where
  -- A tick with the driver's input, and what is sent after it
  by_driver : List (Sent F) → HybridControlMux F × TickResult F → Effect F
  by_driver out (m, t) = (m, driven t ∷ out, false)

  by_scheduler : HybridControlMux F × TickResult F → Effect F
  by_scheduler (m, t) = (m, steered t ∷ [], false)

  -- `runner.scheduler.stop()`: a flag that is set before the thread has begun is cleared by the thread,
  -- which then goes on.
  unfoldable pub stop_scheduler : HybridControlMux F → HybridControlMux F
  stop_scheduler m = record m { scheduler_running = m.scheduler_running && not m.scheduler_begun }

  -- Both loops are stopped.
  halt : Effect F → Effect F
  unfolding stop_scheduler
  halt (m, out, raised) = (stop_scheduler (record m { manual_running = false }), out, raised)

-- `HybridControlMux.__init__`
unfoldable pub new :
    {F : Type 0} ⦃fl : Float F⦄ → ControllerConfig F → HostController F → Bool → HybridControlMux F
new ⦃fl⦄ cfg host scheduler_running = record {
  host = host;
  mode = auto_host;
  held = record { throttle = fl.nought; steering = fl.nought };
  manual_running = false;
  scheduler_running = scheduler_running;
  scheduler_begun = false;
  stray = false;
  manual_config = cfg;
}

-- `on_camera_pose`
unfoldable pub on_camera_pose : {F : Type 0} → Pose F → HybridControlMux F → HybridControlMux F
on_camera_pose p m =
    let m' = record m { host = HostController.observe (some p) m.host } in
    if is_pending m.mode
    then record m' {
      scheduler_running = true;
      scheduler_begun = false;
      stray = m.stray || m.scheduler_running;
      mode = auto_host;
    }
    else m'

module _ {F : Type 0} ⦃fl : Float F⦄ where
  -- `ManualInput(0.0, 0.0)`
  abbrev pub neutral : ManualInput F
  neutral = record { throttle = fl.nought; steering = fl.nought }

  -- The limits of MANUAL_WASD
  manual_limits : ControllerConfig F → ControllerConfig F
  manual_limits cfg = record cfg { max_throttle = fl.one; allow_reverse = true }

  -- `switch_to_manual` behind `host.arm_manual()`
  begin_manual : HostController F × Bool → HybridControlMux F → Effect F
  begin_manual (h, true) m = (record m { host = h }, zeroed ∷ [], true)
  begin_manual (h, false) m = (
    record m { host = h; held = neutral; manual_running = true; mode = manual_wasd },
    zeroed ∷ [],
    false,
  )

  -- `switch_to_manual` behind `host.disarm()`
  take_over : ControllerConfig F → HostController F × Bool → HybridControlMux F → Effect F
  unfolding begin_manual manual_limits
  take_over cfg (h, true) m = (record m { host = h }, zeroed ∷ [], true)
  take_over cfg (h, false) m =
      begin_manual (HostController.arm_manual h) (record m { manual_config = manual_limits cfg })

  unfoldable pub switch_to_manual : ControllerConfig F → HybridControlMux F → Effect F
  unfolding take_over stop_scheduler
  switch_to_manual cfg m =
      if is_manual_wasd m.mode
      then (m, [], false)
      else take_over cfg (HostController.disarm m.host) (stop_scheduler m)

  -- `switch_to_auto` behind `host.arm_auto()` and what was sent before it
  await_pose : List (Sent F) → HostController F × Bool → HybridControlMux F → Effect F
  await_pose out (h, true) m = (record m { host = h }, out, true)
  await_pose out (h, false) m = (record m { host = h; mode = auto_pending }, out, false)

  -- `switch_to_auto` behind `host.disarm()`
  give_back : List (Sent F) → HostController F × Bool → HybridControlMux F → Effect F
  unfolding await_pose
  give_back out (h, true) m = (record m { host = h }, out, true)
  give_back out (h, false) m = await_pose out (HostController.arm_auto h) m

  -- `switch_to_auto` behind its tick
  quit_manual : HybridControlMux F × TickResult F → Effect F
  unfolding give_back
  quit_manual (m, t) =
      give_back (driven t ∷ zeroed ∷ []) (HostController.disarm m.host)
        (record m { manual_running = false })

module _ {F : Type 0} ⦃fl : Float F⦄ ⦃ar : Arithmetic F⦄ where
  unfoldable pub set_manual_wire : F → F → HybridControlMux F → HybridControlMux F
  set_manual_wire throttle wire m =
      if is_manual_wasd m.mode
      then record m {
        held = record {
          throttle = max_f fl.neg_one (min_f fl.one throttle);
          steering = ar.neg (max_f fl.neg_one (min_f fl.one wire));
        };
      }
      else m

module _ {F : Type 0} ⦃fl : Float F⦄ ⦃ar : Arithmetic F⦄ (cfg : ControllerConfig F) where
  -- The configuration that a tick reads: the manual producer has its own.
  config_for : Authority → HybridControlMux F → ControllerConfig F
  config_for manual m = m.manual_config
  config_for _ m = cfg

  -- `host.tick(time.monotonic(), manual_input=…)`
  unfoldable pub tick_host :
      F → Option (ManualInput F) → HybridControlMux F → HybridControlMux F × TickResult F
  unfolding config_for
  tick_host now input m =
      let (h, t) =
        HostController.tick (config_for m.host.authority.state m) now none input m.host in
      (record m { host = h }, t)

  -- One round of `_manual_loop`
  unfoldable pub manual_round : F → HybridControlMux F → Effect F
  unfolding tick_host by_driver
  manual_round now m =
      if m.manual_running then by_driver [] (tick_host now (some m.held) m) else (m, [], false)

  -- `ControlScheduler.step`, without a manual input since nothing sets one
  unfoldable pub step : F → HybridControlMux F → Effect F
  unfolding tick_host by_scheduler
  step now m =
      if (m.scheduler_running && m.scheduler_begun) || m.stray
      then by_scheduler (tick_host now none m)
      else (m, [], false)

  unfoldable pub switch_to_auto : F → HybridControlMux F → Effect F
  unfolding tick_host quit_manual
  switch_to_auto now m =
      if is_manual_wasd m.mode
      then quit_manual (tick_host now (some neutral) (record m { held = neutral }))
      else (m, [], false)

  unfoldable pub stop : F → HybridControlMux F → Effect F
  unfolding tick_host by_driver halt
  stop now m = halt (
      if is_manual_wasd m.mode
      then by_driver (zeroed ∷ []) (tick_host now (some neutral) (record m { held = neutral }))
      else (m, zeroed ∷ [], false))
