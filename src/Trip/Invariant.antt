-- ===== src/Trip/Invariant.antt =====
-- The invariant of Trip.Phases is kept by every event, and no event raises an exception.
pub mod Query
pub mod Commands
pub mod Tick
pub mod Steps
