-- ===== src/Fleet.antt =====
-- integrated/host/parking/waypoints.py and integrated/host/comm: the routes into the parking slots, and
-- the side of the host that takes the cars along them over TCP.
pub mod Graph
pub mod Waypoints
pub mod Mission
pub mod Protocol
pub mod Session
pub mod Server
pub mod Orchestrator
mod Tests
