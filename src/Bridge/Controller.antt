-- ===== src/Bridge/Controller.antt =====
-- remote-direct-bridge/controller.py: `Controller`, which owns the session of the car and turns what
-- the driver wants into messages. `State` is the object, `Inbound` handles what the car sends,
-- `Intents` are the driver's commands, `Loops` the bodies of the three periodic tasks, and `Run` any
-- interleaving of all these. The other children prove what holds of it.
pub mod State
pub mod Inbound
pub mod Intents
pub mod Loops
pub mod Run
pub mod Safety
pub mod Tracking
pub mod Streaming
pub mod Arming
pub mod Stop
pub mod Emergency
pub mod Resend
pub mod Greeting
pub mod Snapshot
