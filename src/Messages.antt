-- ===== src/Messages.antt =====
-- The Autoware messages, as far as the code reads them. A status code is the constant that the
-- source names for it, and `other` is any value it has no name for.
use autoware_agent.Base.{ℕ, Bool, true, false, List, Option, some, Text, ℤ}
use autoware_agent.Geometry.{LocalCoordinate}

-- LocalizationInitializationState
pub data LocState : Type 0 where
  uninitialized initializing initialized : LocState
  other : ℕ → LocState

-- RouteState
pub data RouteState : Type 0 where
  unset set arrived changing : RouteState
  other : ℕ → RouteState

-- `msg && msg->state == INITIALIZED`
abbrev pub is_initialized : Option LocState → Bool
is_initialized (some initialized) = true
is_initialized _ = false

-- `msg && msg->state == SET`
abbrev pub is_set : Option RouteState → Bool
is_set (some set) = true
is_set _ = false

-- `msg && msg->state == ARRIVED`
abbrev pub is_arrived : Option RouteState → Bool
is_arrived (some arrived) = true
is_arrived _ = false

-- `msg && !msg->is_autonomous_mode_available`
abbrev pub is_unavailable : Option Bool → Bool
is_unavailable (some false) = true
is_unavailable _ = false

pub record LaneletPrimitive : Type 0 where
  pub id : ℤ
  pub primitive_type : Text

pub record LaneletSegment : Type 0 where
  pub preferred_primitive : LaneletPrimitive
  pub primitives : List LaneletPrimitive

-- autoware_planning_msgs::msg::LaneletRoute; of a pose the position is read
pub record LaneletRoute (F : Type 0) : Type 0 where
  pub start_pose : LocalCoordinate F
  pub goal_pose : LocalCoordinate F
  pub segments : List LaneletSegment
