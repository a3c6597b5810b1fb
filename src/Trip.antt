-- ===== src/Trip.antt =====
-- TripController (src/gateway_bridge): its state, its operations and what they guarantee.
pub mod State
pub mod Query
pub mod Commands
pub mod Tick
pub mod Events
pub mod Laws
pub mod Phases
pub mod Invariant
pub mod Diagram
pub mod Progress
pub mod Safety
