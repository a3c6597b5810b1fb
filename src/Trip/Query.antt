-- ===== src/Trip/Query.antt =====
-- The ETA query of TripController.cc: startQueryLeg, finishQueryLeg, failQuery, queryEta and
-- getCurrentVehiclePose.
use autoware_agent.Base.{
  ℕ, Bool, true, false, ◌||◌, [], ◌++◌, Option, none, some, Text, codes, not, if◌then◌else◌, ℤ, pos,
  negsuc, Result, ok, ◌>>=◌,
}
use autoware_agent.Decimal.{to_string, stoll}
use autoware_agent.Messages.{LaneletRoute}
use autoware_agent.Geometry.{GpsCoordinate, LocalCoordinate, LaneInfo, Lanes}
use autoware_agent.Trip.State.{
  idle, query_publishing_initial_pose, routes_ready, state_code, state_eq, TripStatus, LegEta,
  EtaQueryResult, HeldRoute, QueryLeg, pickup, trip, answered, TripController, send, transition_to,
  default_status, default_result, default_route,
}

-- std::optional's `last_route_ ? *last_route_ : LaneletRoute{}`
abbrev pub route_or : {F : Type 0} → Option (LaneletRoute F) → LaneletRoute F → LaneletRoute F
route_or (some r) d = r
route_or none d = d

-- `if (cb) cb(result)`
abbrev pub answer :
    {F M : Type 0} → Option ℕ → EtaQueryResult F → TripController F M → TripController F M
answer none r c = c
answer (some k) r c = send c (answered k r)

abbrev pub leg_name : QueryLeg → Text → Text → Text
leg_name pickup a b = a
leg_name trip a b = b

module _ {F M : Type 0} (e : Lanes F M) where
  -- `if (query_cb_) { … }` of failQuery
  unfoldable pub answer_failure : Option ℕ → Text → TripController F M → TripController F M
  answer_failure none reason c = c
  answer_failure (some k) reason c =
      let r = record (c.query_result) { success = false; error_message = reason } in
      record (send c (answered k r)) { query_result = r; query_cb = none }

  unfoldable pub fail_query : TripController F M → Text → ℕ → TripController F M
  unfolding answer_failure
  fail_query c reason now =
      transition_to
        (record (answer_failure c.query_cb reason c) {
          querying = false;
          pickup_route = none;
          trip_route = none;
          status = default_status e;
          route_received = false;
        })
        idle now

  -- The lane that the leg starts from, with the map after the lookup.
  unfoldable pub leg_origin :
      TripController F M → QueryLeg → GpsCoordinate F → Result (Option (LaneInfo F) × M)
  leg_origin c pickup from_gps = e.find_nearest_lane c.lanelet_map from_gps
  leg_origin c trip from_gps = do
    id ← stoll c.status.goal_lanelet_id
    e.get_lane_by_id c.lanelet_map id

  -- The fields of the status that a resolved leg sets.
  unfoldable pub leg_status :
      TripStatus F → LaneInfo F → LaneInfo F → GpsCoordinate F → TripStatus F
  leg_status s from_lane to_lane to_gps =
      let raw = e.gps_to_local to_gps in
      let dx = e.sub to_lane.local.x raw.x in
      let dy = e.sub to_lane.local.y raw.y in
      record s {
        start_x = from_lane.local.x;
        start_y = from_lane.local.y;
        start_z = from_lane.local.z;
        start_qw = from_lane.orientation.w;
        start_qz = from_lane.orientation.z;
        start_lanelet_id = to_string from_lane.lane_id;
        goal_x = to_lane.local.x;
        goal_y = to_lane.local.y;
        goal_z = to_lane.local.z;
        goal_qw = to_lane.orientation.w;
        goal_qz = to_lane.orientation.z;
        goal_lanelet_id = to_string to_lane.lane_id;
        goal_gps = to_gps;
        goal_distance_m = e.sqrt (e.add (e.mul dx dx) (e.mul dy dy));
      }

  -- `to_lane ? to_lane->lane_id : -1`
  abbrev id_or_minus_one : Option (LaneInfo F) → ℤ
  id_or_minus_one none = negsuc 0
  id_or_minus_one (some l) = l.lane_id

  unfoldable pub unreachable :
      TripController F M → LaneInfo F → GpsCoordinate F → ℕ → Result (TripController F M)
  unreachable c from_lane to_gps now = do
    found ← e.find_nearest_lane c.lanelet_map to_gps
    ok (
        fail_query (record c { lanelet_map = found.1 })
          (codes "destination lane "
            ++ (to_string (id_or_minus_one found.0)
                ++ (codes " not reachable from start lane " ++ to_string from_lane.lane_id)))
          now)

  unfoldable pub leg_destination :
      TripController F M
      → LaneInfo F
      → GpsCoordinate F
      → ℕ
      → Option (LaneInfo F)
      → Result (TripController F M)
  leg_destination c from_lane to_gps now none = unreachable c from_lane to_gps now
  leg_destination c from_lane to_gps now (some to_lane) = ok (
      transition_to (record c { status = leg_status c.status from_lane to_lane to_gps })
        query_publishing_initial_pose now)

  unfoldable pub resolve_leg :
      TripController F M → GpsCoordinate F → ℕ → Option (LaneInfo F) → Result (TripController F M)
  resolve_leg c to_gps now none = ok (
      fail_query c
        (codes "cannot resolve lane for "
          ++ leg_name c.current_leg (codes "pickup origin") (codes "trip start"))
        now)
  resolve_leg c to_gps now (some from_lane) = do
    found ← e.find_nearest_connected_lane c.lanelet_map to_gps from_lane.lane_id true
    leg_destination (record c { lanelet_map = found.1 }) from_lane to_gps now found.0

  unfoldable pub start_query_leg :
      TripController F M → GpsCoordinate F → GpsCoordinate F → ℕ → Result (TripController F M)
  start_query_leg c from_gps to_gps now = do
    found ← leg_origin c c.current_leg from_gps
    resolve_leg (record c { lanelet_map = found.1 }) to_gps now found.0

  abbrev pub leg_eta : TripController F M → LegEta F
  leg_eta c = record {
    success = true;
    distance_m = c.eta_distance_m;
    eta_seconds = c.eta_seconds;
    start_lane_id = c.status.start_lanelet_id;
    goal_lane_id = c.status.goal_lanelet_id;
    error_message = [];
  }

  -- The result that a finished query is answered with.
  abbrev pub query_success : TripController F M → EtaQueryResult F
  query_success c = record (c.query_result) { trip_leg = leg_eta c; success = true }

  -- The local coordinates that the trip leg resolves at its end are only logged.
  unfoldable pub finish_leg : QueryLeg → TripController F M → ℕ → Result (TripController F M)
  finish_leg pickup c now = do
    id ← stoll c.status.goal_lanelet_id
    let held : HeldRoute F = record {
      route = route_or c.last_route (default_route e);
      eta_seconds = c.eta_seconds;
      distance_m = c.eta_distance_m;
      goal_gps = c.query_start_gps;
      goal_lane_id = id;
    }
    start_query_leg
        (record c {
          query_result = record (c.query_result) { pickup_leg = leg_eta c };
          pickup_route = some held;
          current_leg = trip;
          current_route_state = none;
          route_received = false;
        })
        c.query_start_gps c.query_goal_gps now
  finish_leg trip c now =
      let result = query_success c in
      ok (
        transition_to
          (record (answer c.query_cb result c) {
            query_result = result;
            trip_route = some (record {
              route = route_or c.last_route (default_route e);
              eta_seconds = c.eta_seconds;
              distance_m = c.eta_distance_m;
              goal_gps = c.query_goal_gps;
              goal_lane_id = pos 0;
            });
            querying = false;
            query_cb = none;
            status = default_status e;
          })
          routes_ready now)

  unfoldable pub finish_query_leg : TripController F M → ℕ → Result (TripController F M)
  unfolding finish_leg
  finish_query_leg c now = finish_leg c.current_leg c now

  -- `none` is a tf2::TransformException.
  unfoldable pub get_current_vehicle_pose : Option (LocalCoordinate F) → Option (GpsCoordinate F)
  get_current_vehicle_pose none = none
  get_current_vehicle_pose (some local) =
      let gps = e.local_to_gps local in
      if e.lt gps.latitude (e.literal 35 0)
        || (e.lt (e.literal 36 0) gps.latitude
            || (e.lt gps.longitude (e.literal 139 0) || e.lt (e.literal 140 0) gps.longitude))
      then none
      else some (e.local_to_gps local)

  -- The result that a rejected query is answered with.
  abbrev pub rejection : Text → EtaQueryResult F
  rejection reason = record (default_result e) { success = false; error_message = reason }

  unfoldable pub accept_query :
      TripController F M
      → GpsCoordinate F
      → GpsCoordinate F
      → GpsCoordinate F
      → Option ℕ
      → ℕ
      → Result (TripController F M)
  accept_query c vehicle start_gps goal_gps cb now =
      start_query_leg
        (record c {
          querying = true;
          current_leg = pickup;
          query_start_gps = start_gps;
          query_goal_gps = goal_gps;
          query_cb = cb;
          query_result = default_result e;
          pickup_route = none;
          trip_route = none;
        })
        vehicle start_gps now

  unfoldable pub query_idle :
      TripController F M
      → Option (GpsCoordinate F)
      → GpsCoordinate F
      → GpsCoordinate F
      → Option ℕ
      → ℕ
      → Result (TripController F M × Bool)
  query_idle c none start_gps goal_gps cb now = ok (
    answer cb (rejection (codes "vehicle not localized — call after IDLE (post map init)")) c,
    false,
  )
  query_idle c (some vehicle) start_gps goal_gps cb now = do
    c' ← accept_query c vehicle start_gps goal_gps cb now
    ok (c', true)

  -- `tf` is what the transform lookup gives at the time of the call.
  unfoldable pub query_eta :
      TripController F M
      → Option (LocalCoordinate F)
      → GpsCoordinate F
      → GpsCoordinate F
      → Option ℕ
      → ℕ
      → Result (TripController F M × Bool)
  query_eta c tf start_gps goal_gps cb now =
      if not (state_eq c.status.state idle)
      then ok (
        answer cb
            (rejection (
              codes "not idle (state="
              ++ (to_string (pos (state_code c.status.state)) ++ codes ")")))
            c,
        false,
      )
      else query_idle c (get_current_vehicle_pose tf) start_gps goal_gps cb now
