-- ===== src/Trip/State.antt =====
-- TripStates.h, TripStatus.h, TripTimings.h and the members of TripController.h, with the helpers
-- of TripController.cc that every operation shares.
use autoware_agent.Base.{
  ℕ, ◌-◌, ◌/◌, Bool, false, List, [], ◌∷◌, Option, Text, codes, ◌==◌, if◌then◌else◌, ℤ, set,
  replicate,
}
use autoware_agent.Messages.{LocState, RouteState, LaneletRoute}
use autoware_agent.Geometry.{GpsCoordinate, LocalCoordinate, Lanes}

pub data TripState : Type 0 where
  idle initializing_in_map : TripState
  query_publishing_initial_pose query_waiting_localisation query_publishing_goal : TripState
  query_waiting_route query_reading_eta routes_ready waiting_for_pickup_start : TripState
  publishing_initial_pose waiting_localisation engaging driving_to_pickup : TripState
  waiting_for_move running completed cancelled failed : TripState

-- static_cast<int>
abbrev pub state_code : TripState → ℕ
state_code idle = 0
state_code initializing_in_map = 1
state_code query_publishing_initial_pose = 2
state_code query_waiting_localisation = 3
state_code query_publishing_goal = 4
state_code query_waiting_route = 5
state_code query_reading_eta = 6
state_code routes_ready = 7
state_code waiting_for_pickup_start = 8
state_code publishing_initial_pose = 9
state_code waiting_localisation = 10
state_code engaging = 11
state_code driving_to_pickup = 12
state_code waiting_for_move = 13
state_code running = 14
state_code completed = 15
state_code cancelled = 16
state_code failed = 17

abbrev pub state_eq : TripState → TripState → Bool
state_eq a b = state_code a == state_code b

pub record TripTimings : Type 0 where
  pub initial_pose_delay_ms : ℕ
  pub goal_delay_ms : ℕ
  pub route_poll_interval_ms : ℕ
  pub route_timeout_ms : ℕ
  pub loc_timeout_ms : ℕ
  pub eta_settle_ms : ℕ

abbrev pub default_timings : TripTimings
default_timings = record {
  initial_pose_delay_ms = 15000;
  goal_delay_ms = 9000;
  route_poll_interval_ms = 500;
  route_timeout_ms = 30000;
  loc_timeout_ms = 30000;
  eta_settle_ms = 2000;
}

-- Time points are nanoseconds of the steady clock; time_point{} is 0.
pub record TripStatus (F : Type 0) : Type 0 where
  pub state : TripState
  pub start_lanelet_id : Text
  pub start_x : F
  pub start_y : F
  pub start_z : F
  pub start_qw : F
  pub start_qz : F
  pub start_gps : GpsCoordinate F
  pub goal_gps : GpsCoordinate F
  pub goal_lanelet_id : Text
  pub goal_x : F
  pub goal_y : F
  pub goal_z : F
  pub goal_qw : F
  pub goal_qz : F
  pub goal_distance_m : F
  pub current_gps : GpsCoordinate F
  pub trip_started_at : ℕ
  pub last_state_change : ℕ

pub record LegEta (F : Type 0) : Type 0 where
  pub success : Bool
  pub distance_m : F
  pub eta_seconds : F
  pub start_lane_id : Text
  pub goal_lane_id : Text
  pub error_message : Text

pub record EtaQueryResult (F : Type 0) : Type 0 where
  pub success : Bool
  pub pickup_leg : LegEta F
  pub trip_leg : LegEta F
  pub error_message : Text
  pub fare : F

pub record HeldRoute (F : Type 0) : Type 0 where
  pub route : LaneletRoute F
  pub eta_seconds : F
  pub distance_m : F
  pub goal_gps : GpsCoordinate F
  pub goal_lane_id : ℤ

pub data QueryLeg : Type 0 where
  pickup trip : QueryLeg

-- geometry_msgs::msg::Pose and the two stamped messages; the covariance of a goal is empty.
pub record PoseMessage (F : Type 0) : Type 0 where
  pub frame_id : Text
  pub stamp : ℕ
  pub position : LocalCoordinate F
  pub orientation_x : F
  pub orientation_y : F
  pub orientation_z : F
  pub orientation_w : F
  pub covariance : List F

-- What the controller sends: publications, service requests and calls of the callbacks. A callback
-- of queryEta is known by a number.
pub data Output (F : Type 0) : Type 0 where
  initial_pose goal_pose : PoseMessage F → Output F
  mode_request engage_request : Output F
  state_changed : TripState → TripState → Output F
  answered : ℕ → EtaQueryResult F → Output F
  pickup_arrived dropoff_arrived : Output F

-- `on_…` tells whether the std::function holds a target. Of a status message only the field that
-- is read is kept. `sent` is the history of the outputs, newest first.
pub record TripController (F M : Type 0) : Type 0 where
  pub lanelet_map : M
  pub timings : TripTimings
  pub engaging_for_pickup : Bool
  pub current_loc_state : Option LocState
  pub current_route_state : Option RouteState
  pub current_mode_state : Option Bool
  pub last_route : Option (LaneletRoute F)
  pub last_publish_time : ℕ
  pub status : TripStatus F
  pub on_state_change : Bool
  pub on_pickup_arrived : Bool
  pub on_dropoff_arrived : Bool
  pub state_entered_at : ℕ
  pub route_received : Bool
  pub init_x : F
  pub init_y : F
  pub init_z : F
  pub init_qz : F
  pub init_qw : F
  pub querying : Bool
  pub current_leg : QueryLeg
  pub query_start_gps : GpsCoordinate F
  pub query_goal_gps : GpsCoordinate F
  pub query_cb : Option ℕ
  pub query_result : EtaQueryResult F
  pub eta_received : Bool
  pub eta_distance_m : F
  pub eta_seconds : F
  pub pickup_route : Option (HeldRoute F)
  pub trip_route : Option (HeldRoute F)
  pub sent : List (Output F)

abbrev pub elapsed_ms : ℕ → ℕ → ℕ
elapsed_ms now since = (now - since) / 1000000

module _ {F M : Type 0} where
  abbrev pub state_of : TripController F M → TripState
  state_of c = c.status.state

  unfoldable pub send : TripController F M → Output F → TripController F M
  send c o = record c { sent = o ∷ c.sent }

  unfoldable pub enter : TripController F M → TripState → ℕ → TripController F M
  enter c next now = record c {
    status = record (c.status) { state = next; last_state_change = now };
    state_entered_at = now;
    last_publish_time = 0;
    sent = if c.on_state_change then state_changed c.status.state next ∷ c.sent else c.sent;
  }

  unfoldable pub transition_to : TripController F M → TripState → ℕ → TripController F M
  transition_to c next now = if state_eq c.status.state next then c else enter c next now

module _ {F M : Type 0} (e : Lanes F M) where
  abbrev pub zero_of : F
  zero_of = e.literal 0 0

  abbrev pub zero_gps : GpsCoordinate F
  zero_gps = record { latitude = zero_of; longitude = zero_of }

  -- TripStatus{}
  unfoldable pub default_status : TripStatus F
  default_status = record {
    state = idle;
    start_lanelet_id = [];
    start_x = zero_of;
    start_y = zero_of;
    start_z = zero_of;
    start_qw = zero_of;
    start_qz = zero_of;
    start_gps = zero_gps;
    goal_gps = zero_gps;
    goal_lanelet_id = [];
    goal_x = zero_of;
    goal_y = zero_of;
    goal_z = zero_of;
    goal_qw = zero_of;
    goal_qz = zero_of;
    goal_distance_m = zero_of;
    current_gps = zero_gps;
    trip_started_at = 0;
    last_state_change = 0;
  }

  unfoldable pub default_leg : LegEta F
  default_leg = record {
    success = false;
    distance_m = zero_of;
    eta_seconds = zero_of;
    start_lane_id = [];
    goal_lane_id = [];
    error_message = [];
  }

  -- EtaQueryResult{}
  unfoldable pub default_result : EtaQueryResult F
  default_result = record {
    success = false;
    pickup_leg = default_leg;
    trip_leg = default_leg;
    error_message = [];
    fare = zero_of;
  }

  unfoldable pub default_route : LaneletRoute F
  default_route = record {
    start_pose = record { x = zero_of; y = zero_of; z = zero_of };
    goal_pose = record { x = zero_of; y = zero_of; z = zero_of };
    segments = [];
  }

  pose_covariance : List F
  pose_covariance =
      set (set (set (replicate 36 zero_of) 0 (e.literal 25 2)) 7 (e.literal 25 2)) 35
        (e.literal 6853891909122467 17)

  unfoldable pub do_publish_initial_pose :
      TripController F M → F → F → F → F → F → ℕ → TripController F M
  unfolding send pose_covariance
  do_publish_initial_pose c x y z qz qw now = send c (
      initial_pose (record {
        frame_id = codes "map";
        stamp = now;
        position = record { x = x; y = y; z = z };
        orientation_x = zero_of;
        orientation_y = zero_of;
        orientation_z = qz;
        orientation_w = qw;
        covariance = pose_covariance;
      }))

  unfoldable pub do_publish_goal : TripController F M → F → F → F → F → F → ℕ → TripController F M
  unfolding send
  do_publish_goal c x y z qz qw now = send c (
      goal_pose (record {
        frame_id = codes "map";
        stamp = now;
        position = record { x = x; y = y; z = z };
        orientation_x = zero_of;
        orientation_y = zero_of;
        orientation_z = qz;
        orientation_w = qw;
        covariance = [];
      }))
