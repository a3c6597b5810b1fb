-- ===== src/Examples/JourneyWitnesses.antt =====
-- A whole trip on the small map.
use autoware_agent.Base.{ℕ, ◌*◌, refl, ◌≡◌, some, Returns, arith}
use autoware_agent.Lanelets.Map.{
  LaneletMap, find_nearest_connected_lane, get_lane_by_id, get_uncached, build_by_id, is_loaded,
  resolve, nearest, connected_candidates, consider, lane_distance, cached_or, cached_lane,
  build_lane, contains_id, find_connected, predecessors_of, remember,
}
use autoware_agent.Lanelets.Geometry.{
  get_lanelet, exists_lanelet, is_drivable, midpoint, distance, gps_to_local, closer_point,
  lane_info_at, lanelet_yaw, local_to_gps, make_lane_info, project_onto_centerline,
  project_onto_lane_centerline, project_onto_segment, project_segments, yaw_to_quat,
}
use autoware_agent.Examples.{roads, town, fresh, held}
use autoware_agent.Controller.{new_trip_controller}
use autoware_agent.Trip.State.{TripController, routes_ready, completed}
use autoware_agent.Trip.Diagram.Lookups.{Found}
use autoware_agent.Trip.Diagram.Journey.{whole_trip, passes_through, whole_trip-completed}

abbrev with_routes : TripController ℕ (LaneletMap ℕ)
with_routes = record fresh {
  status = record (fresh.status) { state = routes_ready };
  pickup_route = some held;
  trip_route = some held;
}

-- Both lookups of the map find the lane at the south.
on_map : Found roads town held held
unfolding find_nearest_connected_lane get_lane_by_id get_uncached build_by_id is_loaded resolve
    nearest connected_candidates consider lane_distance cached_or cached_lane build_lane contains_id
    find_connected predecessors_of remember get_lanelet exists_lanelet is_drivable midpoint distance
    gps_to_local closer_point lane_info_at lanelet_yaw local_to_gps make_lane_info
    project_onto_centerline project_onto_lane_centerline project_onto_segment project_segments
    yaw_to_quat
on_map = record {
  lane = _;
  map = _;
  at_pickup = refl;
  lane_in_int64 = refl;
  goal_lane = _;
  last_map = _;
  at_goal = refl;
}

whole_trip-completed_example :
    Returns
      (λ c'. c'.status.state ≡ completed)
      (passes_through roads with_routes (whole_trip (λ n. 1000000000 * n)))
unfolding new_trip_controller
whole_trip-completed_example =
    whole_trip-completed roads held held town on_map with_routes (λ n. 1000000000 * n)
      (refl, refl, refl, refl) (omega arith) (omega arith)
