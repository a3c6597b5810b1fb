-- ===== src/Examples.antt =====
-- A small map, its platform with natural numbers for doubles, and a trip on it.
pub mod TripWitnesses
pub mod RoadWitnesses
pub mod FrameWitnesses
pub mod AgentWitnesses
pub mod StartupWitnesses
pub mod BridgeWitnesses
pub mod SortWitnesses
pub mod JourneyWitnesses
use autoware_agent.Base.{
  ℕ, zero, suc, ◌-◌, ◌+◌, ◌*◌, ◌/◌, ltb, ◌==◌, ◌≡◌, refl, true, false, List, [], ◌∷◌, All, subst,
  ap, Option, none, some, ℤ, pos, ok, arith,
}
use autoware_agent.Decimal.{to_string}
use autoware_agent.Geometry.{Floats, GpsCoordinate, LocalCoordinate, Lanes}
use autoware_agent.Lanelets.Geometry.{Lanelet, Platform, get_lanelet, midpoint}
use autoware_agent.Lanelets.Map.{LaneletMap, RoutingGraph, lanes}
use autoware_agent.Lanelets.Nearest.{IsOrdered}
use autoware_agent.Lanelets.Laws.{Keyed, KnownLane, IsLoadedMap, SoundMap, lanes-LawfulLanes}
use autoware_agent.Trip.Laws.{LawfulLanes}
use autoware_agent.Trip.State.{
  query_publishing_initial_pose, engaging, waiting_for_move, HeldRoute, default_route,
  TripController,
}
use autoware_agent.Trip.Phases.{Inv}
use autoware_agent.Controller.{AutowareController, new_trip_controller}

-- m / 10^k, rounded down
abbrev pub scaled : ℕ → ℕ → ℕ
scaled m zero = m
scaled m (suc k) = scaled (m / 10) k

abbrev pub whole : Floats ℕ
whole = record {
  literal = scaled;
  add = λ a b. a + b;
  sub = λ a b. a - b;
  mul = λ a b. a * b;
  div = λ a b. a;
  sqrt = λ a. a;
  sin = λ a. a;
  cos = λ a. a;
  atan2 = λ a b. a;
  lt = λ a b. ltb a b;
  eq = λ a b. a == b;
}

abbrev pub platform : Platform ℕ
platform = record {
  floats = whole;
  forward = λ g. record { x = g.latitude; y = g.longitude; z = 0 };
  reverse = λ l. record { latitude = l.x; longitude = l.y };
  invalid_id = pos 0;
  max_double = 1000000;
  pi = 3;
  unwritten = record { x = 0; y = 0; z = 0 };
}

abbrev pub point : ℕ → ℕ → LocalCoordinate ℕ
point x y = record { x = x; y = y; z = 0 }

abbrev pub north : Lanelet ℕ
north = record { id = pos 7; subtype = none; centerline = point 36 139 ∷ point 36 140 ∷ [] }

abbrev pub south : Lanelet ℕ
south = record { id = pos 9; subtype = none; centerline = point 35 139 ∷ point 35 140 ∷ [] }

abbrev pub layer : List (Lanelet ℕ)
layer = north ∷ south ∷ []

abbrev pub graph : RoutingGraph ℕ
graph = record { reachable_set = λ ll radius. layer }

abbrev pub town : LaneletMap ℕ
town = record {
  layer = layer;
  routing_graph = some graph;
  offset_x = 0;
  offset_y = 0;
  cache = [];
  capacity = 2;
  default_start = none;
}

graph_of : Option (RoutingGraph ℕ) → RoutingGraph ℕ
graph_of none = graph
graph_of (some g) = g

pub order : IsOrdered platform
order = record { lt_irrefl = λ a. ground arith; lt_trans = λ a b c h k. ground arith }

pub keyed : (Keyed layer north) × (Keyed layer south)
unfolding get_lanelet
keyed = ((refl, refl), (refl, refl))

pub loaded : IsLoadedMap layer (some graph)
unfolding graph_of
loaded = record {
  keyed = (keyed.0, (keyed.1, tt));
  reachable_keyed = λ g same ll radius.
      subst (λ (h : RoutingGraph ℕ). All (Keyed layer) (h.reachable_set ll radius))
        (ap graph_of same) (keyed.0, (keyed.1, tt));
}

abbrev pub Known : ℤ → Type 0
Known = KnownLane layer

abbrev pub Sound : LaneletMap ℕ → Type 0
Sound = SoundMap platform order layer (some graph) loaded

abbrev pub roads : Lanes ℕ (LaneletMap ℕ)
roads = lanes platform

pub laws : LawfulLanes roads Known Sound
laws = lanes-LawfulLanes platform order layer (some graph) loaded

pub town-Sound : Sound town
town-Sound = record { same_layer = refl; same_graph = refl; cached_known = tt }

pub north-Known : Known (pos 7)
unfolding get_lanelet midpoint
north-Known = (north, refl, refl, (point 36 140, refl))

pub south-Known : Known (pos 9)
unfolding get_lanelet midpoint
south-Known = (south, refl, refl, (point 35 140, refl))

-- A controller before `initialize`, and the trip controller at three points of a trip.
abbrev pub parked : AutowareController ℕ (LaneletMap ℕ)
parked = record {
  lanelet_map = town;
  trip_ctrl = none;
  trip_state_callback = true;
  arrival_callback = true;
  replies = [];
}

abbrev pub fresh : TripController ℕ (LaneletMap ℕ)
fresh = new_trip_controller roads town

abbrev pub asked : TripController ℕ (LaneletMap ℕ)
asked = record fresh {
  status = record (fresh.status) {
    state = query_publishing_initial_pose;
    start_lanelet_id = to_string (pos 7);
    goal_lanelet_id = to_string (pos 9);
  };
  querying = true;
  query_cb = some 5;
}

pub asked-Inv : Inv Known Sound asked
unfolding new_trip_controller
asked-Inv = (town-Sound, (refl, (pos 7, north-Known, refl), (pos 9, south-Known, refl), tt))

abbrev pub held : HeldRoute ℕ
held = record {
  route = default_route roads;
  eta_seconds = 60;
  distance_m = 500;
  goal_gps = record { latitude = 35; longitude = 140 };
  goal_lane_id = pos 9;
}

abbrev pub at_pickup_lane : TripController ℕ (LaneletMap ℕ)
at_pickup_lane = record fresh {
  status = record (fresh.status) { state = waiting_for_move; start_lanelet_id = to_string (pos 7) };
  pickup_route = some held;
  trip_route = some held;
}

abbrev pub engaged_for_trip : TripController ℕ (LaneletMap ℕ)
engaged_for_trip = record at_pickup_lane {
  status = record (at_pickup_lane.status) { state = engaging };
  engaging_for_pickup = false;
}
