-- ===== src/Lib.antt =====
-- Verification of the host side of the smart parking system: the programs that send commands to a
-- small car. The car itself (C firmware) is on the other end of the wire and is not modelled.
--
-- Parts, and the files that model them (paths from the repository's root):
--   Base         numbers, options, lists, signed integers; Python's floats as an interface
--   Reliability  integrated/host/comm/reliability.py: `ReliableSender`, one outstanding command per car
--   Bridge       remote-direct-bridge/: protocol.py (`Bridge.Wire`), session.py (`Bridge.Session`) and
--                controller.py (`Bridge.Controller`), by which a person drives one car
--   Host         integrated/host/controller/ (`Host.Model`, `Host.Pursuit`) and
--                integrated/host/host_control/ (`Host.Authority`, `Host.Mission`, `Host.Producers`,
--                `Host.HostController`), the control loop of the laptop; integrated/host/control/
--                hybrid_control.py and auto_host_runner.py (`Host.Hybrid`), and
--                integrated/host/integration/remote_direct_session.py (`Host.RemoteSession`)
--   Bridge.Framing, Bridge.Keys  remote-direct-bridge/server.py (the framing of received bytes) and
--                wasd_logic.py (the keyboard of the bridge's window)
--   Collision    integrated/host/parking/safety.py: `CollisionMonitor`, which car has to wait
--   Fleet        integrated/host/parking/waypoints.py (`Fleet.Waypoints`, with the layout of the lot of
--                integrated/host/rl/parking_env.py in `Fleet.Graph`) and integrated/host/comm/:
--                orchestrator.py (`Fleet.Mission`, `Fleet.Orchestrator`), protocol.py
--                (`Fleet.Protocol`) and server.py (`Fleet.Session`, `Fleet.Server`)
--   Parking      integrated/host/parking/services.py over the tables of models.py
--
-- The bridge's controller owns a session, builds its messages with Wire and is driven by the messages
-- of the car, the commands of the driver and three periodic tasks. The host controller asks its
-- mission for a waypoint and a producer for a command, and sends one message per tick; the hybrid
-- control owns one and decides which of two loops ticks it. The orchestrator
-- of a fleet takes routes from Waypoints and calls the server, an interface that `Fleet.Server.link`
-- meets; the server holds a session per car, each with a reliable sender, and calls back with the
-- reports of the cars. The parking services decide which spot a car is given and keep the database.
--
-- How the model corresponds to the code:
--   * An object is a record with the code's attributes, a method is a function from the state to the
--     next one, with its result and what it sends. Each definition carries the code's name without
--     leading underscores, or a comment with that name.
--   * Exceptions that the code raises and handles are results (`Option`, `Outcome`, a flag). An
--     exception that would end a task of the bridge is the effect `crash`.
--   * asyncio: a handler runs to its next await without interruption. A handler that goes on after an
--     await is cut there (`mode_remote_begin` and `mode_remote_end`, `stop_begin` and `send_reliable`),
--     and `Bridge.Controller.Run.run` takes any sequence of such parts. The handshake of a remote
--     session is cut at its waiting likewise. A method of the
--     reliable sender is its step under the lock; `send_raw` and `on_fail` come after the lock is released.
--   * Clock readings are natural numbers of nanoseconds, or floats in the host controller, and come in
--     as arguments. Identifiers of boots and sessions are natural numbers, since they are only compared.
--     The id that `new_session_id` draws is an argument.
--   * Python's ints are `ℤ`, or ℕ where the code never goes below zero. Floats are any type with the
--     comparison laws of `Base.Float`, which floats meet; the arithmetic of `Base.Arithmetic` has no
--     laws. `Base.Decimal` is an instance to compute with.
--   * A string of a fixed set is a data type, with a last constructor for any other text.
--   * A loop that never ends is modelled by its round, and recursion is over lists of calls or events. Only
--     `Bridge.Framing.drain` recurs on a number of rounds, one more than the buffer has bytes, which is
--     enough because each round takes a byte away.
--
--   * A callback of the fleet's server and orchestrator is an event of the call's result. What other
--     threads do to the server between two calls is in the arguments: each call of the orchestrator
--     comes with the server as it is then.
--   * A service of the parking application is one step on the tables, since `transaction.atomic` makes
--     it one; an error leaves them as they were.
--   * A thread of the hybrid control is whether it runs, with its round as a step; the driver's loop
--     makes no more rounds once it is told to stop, a scheduler only if its thread has begun by then.
--
-- Not modelled: logging, listeners beyond what is published to them, the printed lines, the
-- fingerprint of a command, which nothing reads; JSON text, `parse_line` (a parameter of Framing), the
-- text of car ids and sockets; POSE_UPDATE, which a constant of the server turns off; demo data, cameras
-- and broadcasts of the parking application; its web interface, vision, the planner, reinforcement
-- learning, user interfaces and the firmware.
pub mod Base
pub mod Reliability
pub mod Bridge
pub mod Host
pub mod Fleet
pub mod Parking
pub mod Collision
