-- ===== src/Server.antt =====
-- server.cpp, from its state to its main loop.
pub mod State
pub mod Commands
pub mod Delivery
pub mod Handler
pub mod Main
pub mod Entry
pub mod Wire
pub mod Auth
pub mod Linked
pub mod Kept
pub mod Processing
pub mod Subscribing
pub mod Abstract
pub mod Refines
pub mod Deliveries
pub mod Reconnect
pub mod Returning
pub mod History
pub mod Requests
pub mod Redelivery
pub mod Receiving
pub mod Awaiting
pub mod Simulation
pub mod Session
pub mod Declining
pub mod Invariants
pub mod Safety
pub mod Rounds
pub mod Exit
pub mod Tests
