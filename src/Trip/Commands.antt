-- ===== src/Trip/Commands.antt =====
-- The commands of TripController.cc: initializeInMap, startTrip, goToPickup, move,
-- handleMoveCommand and cancel, and what arrives from Autoware.
use autoware_agent.Base.{
  ℕ, Bool, true, false, ◌&&◌, Option, none, some, ◌==◌, not, if◌then◌else◌, Result, ok, ◌>>=◌,
}
use autoware_agent.Decimal.{to_string, stoll}
use autoware_agent.Messages.{LocState, RouteState, LaneletRoute}
use autoware_agent.Geometry.{GpsCoordinate, LaneInfo, FixedStartPosition, Lanes}
use autoware_agent.Trip.State.{
  idle, initializing_in_map, routes_ready, waiting_for_pickup_start, publishing_initial_pose,
  engaging, waiting_for_move, failed, query_reading_eta, state_eq, driving_to_pickup, running,
  HeldRoute, TripController, engage_request, send, transition_to, default_status,
  do_publish_initial_pose, do_publish_goal,
}

module _ {F M : Type 0} where
  unfoldable pub go_to_pickup : TripController F M → ℕ → TripController F M × Bool
  go_to_pickup c now =
      if not (state_eq c.status.state waiting_for_pickup_start) then (c, false) else (
        transition_to (record c { current_route_state = none; route_received = false })
            publishing_initial_pose now,
        true,
      )

  unfoldable pub inject_eta : TripController F M → F → F → TripController F M
  inject_eta c distance_m time_seconds =
      if not (state_eq c.status.state query_reading_eta)
      then c
      else record c { eta_distance_m = distance_m; eta_seconds = time_seconds; eta_received = true }

  unfoldable pub on_route_received : TripController F M → LaneletRoute F → TripController F M
  on_route_received c msg = record c { last_route = some msg; route_received = true }

  unfoldable pub on_loc_state : TripController F M → LocState → TripController F M
  on_loc_state c msg = record c { current_loc_state = some msg }

  unfoldable pub on_route_state : TripController F M → RouteState → TripController F M
  on_route_state c msg = record c { current_route_state = some msg }

  unfoldable pub on_mode_state : TripController F M → Bool → TripController F M
  on_mode_state c available = record c { current_mode_state = some available }

  unfoldable pub set_current_gps : TripController F M → GpsCoordinate F → TripController F M
  set_current_gps c gps = record c { status = record (c.status) { current_gps = gps } }

  -- The answer to the mode change asks for the engagement.
  unfoldable pub on_mode_response : TripController F M → Bool → TripController F M
  on_mode_response c success = if success then send c engage_request else c

  -- The answer to the engagement; the code 1 is success.
  unfoldable pub on_engage_response : TripController F M → ℕ → ℕ → TripController F M
  on_engage_response c code now =
      if code == 1
      then (if state_eq c.status.state engaging
          then (if c.engaging_for_pickup
              then transition_to c driving_to_pickup now
              else transition_to c running now)
          else c)
      else c

module _ {F M : Type 0} (e : Lanes F M) where
  unfoldable pub initialize_at : TripController F M → ℕ → FixedStartPosition F → TripController F M
  initialize_at c now start =
      transition_to
        (do_publish_initial_pose e
          (record c {
            init_x = start.local.x;
            init_y = start.local.y;
            init_z = start.local.z;
            init_qz = start.orientation.z;
            init_qw = start.orientation.w;
          })
          start.local.x start.local.y start.local.z start.orientation.z start.orientation.w now)
        initializing_in_map now

  unfoldable pub initialize_in_map : TripController F M → ℕ → TripController F M
  unfolding initialize_at
  initialize_in_map c now = elim (e.get_default_start c.lanelet_map) [
    | none ↦ c
    | some start ↦ initialize_at c now start
  ]

  -- What `startTrip` does once the pickup lane is looked up.
  unfoldable pub start_at :
      TripController F M → HeldRoute F → ℕ → Option (LaneInfo F) → TripController F M × Bool
  start_at c held now none = (transition_to c failed now, false)
  start_at c held now (some start_lane) = (
    transition_to
        (record c {
          status = record (c.status) {
            start_lanelet_id = to_string start_lane.lane_id;
            start_x = start_lane.local.x;
            start_y = start_lane.local.y;
            start_z = start_lane.local.z;
            start_qw = start_lane.orientation.w;
            start_qz = start_lane.orientation.z;
            start_gps = held.goal_gps;
          };
        })
        waiting_for_pickup_start now,
    true,
  )

  unfoldable pub start_held :
      TripController F M
      → Option (HeldRoute F)
      → Option (HeldRoute F)
      → ℕ
      → Result (TripController F M × Bool)
  start_held c (some held) (some later) now =
      if not (state_eq c.status.state routes_ready) && not (state_eq c.status.state idle)
      then ok (c, false)
      else do
        found ← e.get_lane_by_id c.lanelet_map held.goal_lane_id
        ok (start_at (record c { lanelet_map = found.1 }) held now found.0)
  start_held c _ _ now = ok (c, false)

  -- The flag and the route state are changed before the guards.
  unfoldable pub start_trip : TripController F M → ℕ → Result (TripController F M × Bool)
  unfolding start_held
  start_trip c now =
      start_held (record c { engaging_for_pickup = true; current_route_state = none })
        c.pickup_route c.trip_route now

  unfoldable pub move_to :
      TripController F M → HeldRoute F → ℕ → Option (LaneInfo F) → TripController F M × Bool
  move_to c held now none = (transition_to c failed now, false)
  move_to c held now (some goal_lane) =
      let c' = record c {
        status = record (c.status) {
          goal_lanelet_id = to_string goal_lane.lane_id;
          goal_x = goal_lane.local.x;
          goal_y = goal_lane.local.y;
          goal_z = goal_lane.local.z;
          goal_qw = goal_lane.orientation.w;
          goal_qz = goal_lane.orientation.z;
          goal_gps = held.goal_gps;
          goal_distance_m = held.distance_m;
        };
        current_route_state = none;
      } in
      (
        transition_to
            (record (do_publish_goal e c' goal_lane.local.x goal_lane.local.y goal_lane.local.z
              goal_lane.orientation.z goal_lane.orientation.w now) { engaging_for_pickup = false })
            engaging now,
        true,
      )

  unfoldable pub move_held :
      TripController F M → Option (HeldRoute F) → ℕ → Result (TripController F M × Bool)
  move_held c none now = ok (transition_to c failed now, false)
  move_held c (some held) now = do
    current_lane_id ← stoll c.status.start_lanelet_id
    found ← e.find_nearest_connected_lane c.lanelet_map held.goal_gps current_lane_id true
    ok (move_to (record c { lanelet_map = found.1 }) held now found.0)

  unfoldable pub move : TripController F M → ℕ → Result (TripController F M × Bool)
  unfolding move_held
  move c now =
      if not (state_eq c.status.state waiting_for_move)
      then ok (c, false)
      else move_held c c.trip_route now

  unfoldable pub handle_move_command : TripController F M → ℕ → Result (TripController F M × Bool)
  handle_move_command c now =
      if state_eq c.status.state waiting_for_pickup_start
      then ok (go_to_pickup c now)
      else if state_eq c.status.state waiting_for_move
      then move c now
      else ok (c, false)

  unfoldable pub publish_start :
      Option (FixedStartPosition F) → TripController F M → ℕ → TripController F M
  publish_start none c now = c
  publish_start (some start) c now =
      do_publish_initial_pose e c start.local.x start.local.y start.local.z start.orientation.z
        start.orientation.w now

  unfoldable pub cancel : TripController F M → ℕ → TripController F M
  cancel c now =
      transition_to
        (publish_start (e.get_default_start c.lanelet_map)
          (record c {
            querying = false;
            query_cb = none;
            pickup_route = none;
            trip_route = none;
            status = default_status e;
            route_received = false;
            engaging_for_pickup = false;
            current_route_state = none;
          })
          now)
        idle now
