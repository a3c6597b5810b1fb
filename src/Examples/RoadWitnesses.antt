-- ===== src/Examples/RoadWitnesses.antt =====
-- The theorems on lane ids and lookups at work on the small map.
use autoware_agent.Base.{none, ℕ, refl, ok, ◌≡◌, some, pos, negsuc, ◌≤◌, [], ◌∷◌, true}
use autoware_agent.Decimal.{to_string, stoll}
use autoware_agent.Decimal.RoundTrip.{stoll-to_string}
use autoware_agent.Lanelets.Map.{
  LaneletMap, find_nearest_lane, get_lane_by_id, find_nearest_connected_lane, is_loaded, resolve,
  nearest, connected_candidates, consider, lane_distance, cached_or, cached_lane, build_lane,
  contains_id, find_connected, predecessors_of, remember,
}
use autoware_agent.Lanelets.Components.{Neighbours, connected_components}
use autoware_agent.Lanelets.Components.Connected.{Connected, connected_components-Connected}
use autoware_agent.Lanelets.Components.Flooding.{IsClosed}
use autoware_agent.Lanelets.Components.Partition.{Partitioned}
use autoware_agent.Examples.{
  north, south, platform, layer, graph, town, order, loaded, Known, Sound, roads,
}
use autoware_agent.Lanelets.Geometry.{
  get_lanelet, is_drivable, midpoint, distance, gps_to_local, closer_point, lane_info_at,
  lanelet_yaw, local_to_gps, make_lane_info, project_onto_centerline, project_onto_lane_centerline,
  project_onto_segment, project_segments, yaw_to_quat,
}
use autoware_agent.Trip.Laws.{LawfulLanes}
use autoware_agent.Geometry.{GpsCoordinate, LaneInfo}
use autoware_agent.Lanelets.Map.{RoutingGraph}
use autoware_agent.Lanelets.Geometry.{Lanelet}
use autoware_agent.Lanelets.Cache.{IsWellFormed}
use autoware_agent.Lanelets.Closest.{Closest, find_nearest_lane-Closest, find_connected-Closest}
use autoware_agent.Lanelets.Lookups.{get-find_nearest, find_nearest-same_lane}
use autoware_agent.Lanelets.Laws.{lanes-LawfulLanes}

stoll-to_string_example : stoll (to_string (negsuc 41)) ≡ ok (negsuc 41)
stoll-to_string_example = stoll-to_string (negsuc 41) refl

lanes-LawfulLanes_example : LawfulLanes roads Known Sound
lanes-LawfulLanes_example = lanes-LawfulLanes platform order layer (some graph) loaded

-- Queries on the map: the nearest lane to a point beside the northern one.
abbrev beside : GpsCoordinate ℕ
beside = record { latitude = 36; longitude = 139 }

abbrev north_lane : LaneInfo ℕ
north_lane = record {
  lane_id = pos 7;
  gps = beside;
  local = record { x = 36; y = 139; z = 0 };
  orientation = record { x = 0; y = 0; z = 0; w = 0; yaw_degrees = 180 };
}

abbrev seen : LaneletMap ℕ
seen = record town { cache = north_lane ∷ [] }

abbrev further : GpsCoordinate ℕ
further = record { latitude = 36; longitude = 140 }

town-IsWellFormed : IsWellFormed town
town-IsWellFormed = record { reserved = refl; distinct = tt; within = tt }

nearest_lane : find_nearest_lane platform town beside ≡ ok (some north_lane, seen)
unfolding find_nearest_lane find_nearest_connected_lane is_loaded resolve nearest
    connected_candidates consider lane_distance cached_or cached_lane build_lane contains_id
    find_connected predecessors_of remember get_lanelet is_drivable midpoint distance gps_to_local
    closer_point lane_info_at lanelet_yaw local_to_gps make_lane_info project_onto_centerline
    project_onto_lane_centerline project_onto_segment project_segments yaw_to_quat
nearest_lane = refl

nearest_lane_again : find_nearest_lane platform seen further ≡ ok (some north_lane, seen)
unfolding find_nearest_lane find_nearest_connected_lane is_loaded resolve nearest
    connected_candidates consider lane_distance cached_or cached_lane build_lane contains_id
    find_connected predecessors_of remember get_lanelet is_drivable midpoint distance gps_to_local
    closer_point lane_info_at lanelet_yaw local_to_gps make_lane_info project_onto_centerline
    project_onto_lane_centerline project_onto_segment project_segments yaw_to_quat
nearest_lane_again = refl

connected_lane :
    find_nearest_connected_lane platform town beside (pos 9) true ≡ ok (some north_lane, seen)
unfolding find_nearest_connected_lane is_loaded resolve nearest connected_candidates consider
    lane_distance cached_or cached_lane build_lane contains_id find_connected predecessors_of
    remember get_lanelet is_drivable midpoint distance gps_to_local closer_point lane_info_at
    lanelet_yaw local_to_gps make_lane_info project_onto_centerline project_onto_lane_centerline
    project_onto_segment project_segments yaw_to_quat
connected_lane = refl

find_nearest_lane-Closest_example : Closest platform order town beside layer north_lane
find_nearest_lane-Closest_example =
    find_nearest_lane-Closest platform order town seen beside north_lane nearest_lane

find_connected-Closest_example :
    (g : RoutingGraph ℕ) × (ll : Lanelet ℕ) × (town.routing_graph ≡ some g)
    × (get_lanelet town.layer (pos 9) ≡ ok ll)
    × Closest platform order town beside
        (connected_candidates platform town g ll (pos 9) true)
        north_lane
find_connected-Closest_example =
    find_connected-Closest platform order town seen beside (pos 9) true north_lane connected_lane

get-find_nearest_example :
    (get_lane_by_id platform seen (pos 7) ≡ ok (some north_lane, seen))
    × IsWellFormed seen
    × (1 ≤ 2)
    × (layer ≡ layer)
get-find_nearest_example =
    get-find_nearest platform town seen beside north_lane town-IsWellFormed nearest_lane

find_nearest-same_lane_example : (north_lane ≡ north_lane) × (seen ≡ seen)
find_nearest-same_lane_example =
    find_nearest-same_lane platform town seen seen beside further north_lane north_lane
      town-IsWellFormed nearest_lane nearest_lane_again refl

-- Each lane has the northern one behind it and the southern one on its left.
abbrev beside_each_other : Neighbours ℕ
beside_each_other = record {
  following = λ l. [];
  previous = λ l. north ∷ [];
  left = λ l. some south;
  right = λ l. none;
}

beside-IsClosed : IsClosed layer beside_each_other
beside-IsClosed = record {
  following_within = λ l. tt;
  previous_within = λ l. (refl, tt);
  left_within = λ l. refl;
  right_within = λ l. tt;
}

connected_components-Connected_example :
    Partitioned layer beside_each_other beside-IsClosed [] layer
      (connected_components beside_each_other layer)
    × Connected beside_each_other (connected_components beside_each_other layer)
connected_components-Connected_example =
    connected_components-Connected layer beside_each_other beside-IsClosed
