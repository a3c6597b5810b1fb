-- ===== src/Trip/Diagram.antt =====
-- The state diagram of a trip (TripStates.h, and the switch, the guards and the transitions of
-- TripController.cc), that the controller follows it, and what it tells of the order of commands.
pub mod Spots
pub mod Query
pub mod Commands
pub mod Tick
pub mod Refines
pub mod Orders
pub mod Order
pub mod Stages
pub mod Lookups
pub mod Journey
