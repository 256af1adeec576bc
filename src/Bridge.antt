-- ===== src/Bridge.antt =====
-- remote-direct-bridge/: the notebook's bridge to one car, by which a person drives it.
-- `Framing` is server.py, `Keys` is wasd_logic.py, `Wire` is protocol.py, `Session` is session.py, `Controller` is controller.py.
pub mod Wire
pub mod Session
pub mod Controller
pub mod Keys
pub mod Framing
mod Tests
