-- ===== src/Host.antt =====
-- integrated/host/controller and integrated/host/host_control: the laptop's control loop. `Model` is
-- models.py, config.py and geometry.py, `Pursuit` is pose_controller.py, `Producers` is producers.py,
-- pose_source.py and direct_control.py, and `Authority`, `Mission` and `HostController` are the files
-- of host_control of these names. `Calls` puts the calls of a driver program in a row. `Hybrid` is
-- control/hybrid_control.py, which gives the car to a driver and back, and `RemoteSession` is
-- integration/remote_direct_session.py, which arms the autopilot.
pub mod Model
pub mod Pursuit
pub mod Authority
pub mod Mission
pub mod Producers
pub mod HostController
pub mod Calls
pub mod Hybrid
pub mod RemoteSession
mod Tests
