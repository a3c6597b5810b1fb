-- ===== src/Lanelets.antt =====
-- LaneletMap (src/map_routes): lane lookups over the loaded map, with the cache of their results.
pub mod Geometry
pub mod Map
pub mod Drivable
pub mod Nearest
pub mod Cache
pub mod Lookups
pub mod Closest
pub mod Laws
pub mod Components
pub mod Debug
