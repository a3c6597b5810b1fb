-- ===== src/Geometry.antt =====
-- Floating point and coordinates: the structs of map_routes/LaneletMap.h, and what the trip
-- controller asks of the lanelet map.
use autoware_agent.Base.{ℕ, Bool, Option, Text, ℤ, Result}

-- double and its operations, which the language gives and the proofs leave open.
pub record Floats (F : Type 0) : Type 0 where
  -- `literal m k` is the constant m / 10^k
  pub literal : ℕ → ℕ → F
  pub add : F → F → F
  pub sub : F → F → F
  pub mul : F → F → F
  pub div : F → F → F
  pub sqrt : F → F
  pub sin : F → F
  pub cos : F → F
  pub atan2 : F → F → F
  pub lt : F → F → Bool
  pub eq : F → F → Bool

pub record GpsCoordinate (F : Type 0) : Type 0 where
  pub latitude : F
  pub longitude : F

pub record LocalCoordinate (F : Type 0) : Type 0 where
  pub x : F
  pub y : F
  pub z : F

pub record Orientation (F : Type 0) : Type 0 where
  pub x : F
  pub y : F
  pub z : F
  pub w : F
  pub yaw_degrees : F

pub record LaneInfo (F : Type 0) : Type 0 where
  pub lane_id : ℤ
  pub gps : GpsCoordinate F
  pub local : LocalCoordinate F
  pub orientation : Orientation F

pub record FixedStartPosition (F : Type 0) : Type 0 where
  pub name : Text
  pub gps : GpsCoordinate F
  pub local : LocalCoordinate F
  pub orientation : Orientation F

-- The public interface of LaneletMap that the trip controller uses. `M` is the map with its cache,
-- which the lookups extend; the component LaneletMap fills this record.
pub record Lanes (F M : Type 0) : Type 0 where
  pub floats : Floats F
  pub open floats use *
  pub gps_to_local : GpsCoordinate F → LocalCoordinate F
  pub local_to_gps : LocalCoordinate F → GpsCoordinate F
  pub find_nearest_lane : M → GpsCoordinate F → Result (Option (LaneInfo F) × M)
  pub get_lane_by_id : M → ℤ → Result (Option (LaneInfo F) × M)
  pub find_nearest_connected_lane :
      M → GpsCoordinate F → ℤ → Bool → Result (Option (LaneInfo F) × M)
  pub get_default_start : M → Option (FixedStartPosition F)
