-- ===== src/Trip/Tick.antt =====
-- TripController::tick and doEngage of TripController.cc, one function for each case of the switch.
use autoware_agent.Base.{
  ℕ, Bool, false, ◌||◌, ◌++◌, Text, codes, leb, not, none, if◌then◌else◌, Result, ok,
}
use autoware_agent.Messages.{is_initialized, is_set, is_arrived, is_unavailable}
use autoware_agent.Geometry.{Lanes}
use autoware_agent.Trip.State.{
  TripState, idle, initializing_in_map, query_publishing_initial_pose, query_waiting_localisation,
  query_publishing_goal, query_waiting_route, query_reading_eta, publishing_initial_pose,
  waiting_localisation, engaging, driving_to_pickup, waiting_for_move, running, completed,
  TripController, mode_request, pickup_arrived, dropoff_arrived, elapsed_ms, send, transition_to,
  zero_of, do_publish_initial_pose, do_publish_goal,
}
use autoware_agent.Trip.Query.{leg_name, fail_query, finish_query_leg}

-- What a tick reads from outside: the steady clock, once, and whether the services are ready.
pub record Surroundings : Type 0 where
  pub now : ℕ
  pub mode_service_ready : Bool
  pub engage_service_ready : Bool

module _ {F M : Type 0} where
  unfoldable pub do_engage : TripController F M → Surroundings → TripController F M
  do_engage c s =
      if not s.mode_service_ready || not s.engage_service_ready
      then c
      else if is_unavailable c.current_mode_state
      then c
      else send c mode_request

  unfoldable pub tick_engaging : TripController F M → Surroundings → TripController F M
  unfolding do_engage
  tick_engaging c s =
      if leb 2000 (elapsed_ms s.now c.last_publish_time)
      then record (do_engage c s) { last_publish_time = s.now }
      else c

  unfoldable pub tick_driving_to_pickup : TripController F M → ℕ → TripController F M
  tick_driving_to_pickup c now =
      if is_arrived c.current_route_state
      then transition_to
          (record (if c.on_pickup_arrived then send c pickup_arrived else c) {
            current_route_state = none;
          })
          waiting_for_move now
      else c

  unfoldable pub tick_running : TripController F M → ℕ → TripController F M
  tick_running c now =
      if is_arrived c.current_route_state
      then transition_to
          (record (if c.on_dropoff_arrived then send c dropoff_arrived else c) {
            current_route_state = none;
          })
          completed now
      else c

module _ {F M : Type 0} (e : Lanes F M) where
  -- Publish the pose that initializeInMap has stored.
  abbrev pub publish_init : TripController F M → ℕ → TripController F M
  publish_init c now =
      do_publish_initial_pose e c c.init_x c.init_y c.init_z c.init_qz c.init_qw now

  abbrev pub publish_start_pose : TripController F M → ℕ → TripController F M
  publish_start_pose c now =
      do_publish_initial_pose e c c.status.start_x c.status.start_y c.status.start_z
        c.status.start_qz c.status.start_qw now

  abbrev pub publish_goal_pose : TripController F M → ℕ → TripController F M
  publish_goal_pose c now =
      do_publish_goal e c c.status.goal_x c.status.goal_y c.status.goal_z c.status.goal_qz
        c.status.goal_qw now

  unfoldable pub tick_initializing : TripController F M → ℕ → TripController F M
  tick_initializing c now =
      if not (is_initialized c.current_loc_state)
      then (if leb 1000 (elapsed_ms now c.last_publish_time)
          then record (publish_init c now) { last_publish_time = now }
          else c)
      else transition_to c idle now

  unfoldable pub tick_query_pose : TripController F M → ℕ → TripController F M
  tick_query_pose c now = transition_to (publish_start_pose c now) query_waiting_localisation now

  abbrev pub loc_timeout_reason : TripController F M → Text
  loc_timeout_reason c =
      codes "timeout waiting for localisation on "
      ++ (leg_name c.current_leg (codes "pickup") (codes "trip") ++ codes " leg")

  unfoldable pub tick_query_localisation : TripController F M → ℕ → TripController F M
  tick_query_localisation c now =
      if not (is_initialized c.current_loc_state)
      then (let c' =
            if leb 1000 (elapsed_ms now c.last_publish_time)
            then record (publish_start_pose c now) { last_publish_time = now }
            else c in
          if leb c.timings.loc_timeout_ms (elapsed_ms now c.state_entered_at)
          then fail_query e c' (loc_timeout_reason c) now
          else c')
      else transition_to c query_publishing_goal now

  unfoldable pub tick_query_goal : TripController F M → ℕ → TripController F M
  tick_query_goal c now =
      transition_to
        (record (publish_goal_pose c now) { route_received = false; current_route_state = none })
        query_waiting_route now

  abbrev pub route_timeout_reason : TripController F M → Text
  route_timeout_reason c =
      codes "timeout waiting for route on "
      ++ (leg_name c.current_leg (codes "pickup") (codes "trip")
          ++ (codes " leg (lanes "
              ++ (c.status.start_lanelet_id
                  ++ (codes " → "
                      ++ (c.status.goal_lanelet_id ++ codes " may not be connected)")))))

  unfoldable pub tick_query_route : TripController F M → ℕ → TripController F M
  tick_query_route c now =
      if not (is_set c.current_route_state)
      then (let c' =
            if leb 2000 (elapsed_ms now c.last_publish_time)
            then record (publish_goal_pose c now) { last_publish_time = now }
            else c in
          if leb c.timings.route_timeout_ms (elapsed_ms now c.state_entered_at)
          then fail_query e c' (route_timeout_reason c) now
          else c')
      else transition_to (record c { eta_received = false }) query_reading_eta now

  unfoldable pub tick_query_eta : TripController F M → ℕ → Result (TripController F M)
  tick_query_eta c now =
      if c.eta_received
      then finish_query_leg e c now
      else if leb c.timings.eta_settle_ms (elapsed_ms now c.state_entered_at)
      then finish_query_leg e (record c { eta_distance_m = zero_of e; eta_seconds = zero_of e }) now
      else ok c

  unfoldable pub tick_pose : TripController F M → ℕ → TripController F M
  tick_pose c now = transition_to (publish_init c now) waiting_localisation now

  unfoldable pub tick_localisation : TripController F M → ℕ → TripController F M
  tick_localisation c now =
      if not (is_initialized c.current_loc_state)
      then (if leb 1000 (elapsed_ms now c.last_publish_time)
          then record (publish_init c now) { last_publish_time = now }
          else c)
      else transition_to
          (do_publish_goal e c c.status.start_x c.status.start_y c.status.start_z c.status.start_qz
            c.status.start_qw now)
          engaging now

  unfoldable pub tick_in :
      TripState → TripController F M → Surroundings → Result (TripController F M)
  tick_in initializing_in_map c s = ok (tick_initializing c s.now)
  tick_in query_publishing_initial_pose c s = ok (tick_query_pose c s.now)
  tick_in query_waiting_localisation c s = ok (tick_query_localisation c s.now)
  tick_in query_publishing_goal c s = ok (tick_query_goal c s.now)
  tick_in query_waiting_route c s = ok (tick_query_route c s.now)
  tick_in query_reading_eta c s = tick_query_eta c s.now
  tick_in publishing_initial_pose c s = ok (tick_pose c s.now)
  tick_in waiting_localisation c s = ok (tick_localisation c s.now)
  tick_in engaging c s = ok (tick_engaging c s)
  tick_in driving_to_pickup c s = ok (tick_driving_to_pickup c s.now)
  tick_in running c s = ok (tick_running c s.now)
  -- IDLE, ROUTES_READY, WAITING_FOR_MOVE, COMPLETED, CANCELLED and FAILED break at once, and
  -- WAITING_FOR_PICKUP_START has no case.
  tick_in _ c s = ok c

  unfoldable pub tick : TripController F M → Surroundings → Result (TripController F M)
  unfolding tick_in
  tick c s = tick_in c.status.state c s
