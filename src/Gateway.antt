-- ===== src/Gateway.antt =====
-- The gateway side of the agent: the messages of VehicleCommandStream, the reports of
-- VehicleGatewayStreamClient.h, and the adapters that it asks (AutowareControllerProvider.h,
-- ClusterBridgeProvider.h, Providers.h).
pub mod Stream
pub mod Delivery
use autoware_agent.Base.{ℕ, Bool, true, List, [], ◌∷◌, ◌++◌, Text, codes, ℤ, pos}
use autoware_agent.Geometry.{GpsCoordinate, Lanes}
use autoware_agent.Trip.State.{
  TripState, idle, initializing_in_map, query_publishing_initial_pose, query_waiting_localisation,
  query_publishing_goal, query_waiting_route, query_reading_eta, routes_ready,
  waiting_for_pickup_start, publishing_initial_pose, waiting_localisation, engaging,
  driving_to_pickup, waiting_for_move, running, completed, cancelled, failed, TripStatus, zero_of,
}
use autoware_agent.Controller.{AutowareController, get_trip_status_sync}

-- GatewayCommand, with the fields that are read; `no_command` is an empty oneof.
pub data GatewayCommand (F : Type 0) : Type 0 where
  trip_init : Text → ℤ → GpsCoordinate F → GpsCoordinate F → GatewayCommand F
  trip_move trip_cancel : Text → ℤ → GatewayCommand F
  trip_park order_update_location order_update_status : Text → GatewayCommand F
  no_command : GatewayCommand F

-- VehicleEvent, as far as the client fills it.
pub data VehicleEvent (F : Type 0) : Type 0 where
  trip_init_ack trip_cancel_ack order_update_location_ack : Bool → Text → VehicleEvent F
  -- vin, latitude, longitude
  location : Text → F → F → VehicleEvent F
  -- vin, request id, time, fare, status
  eta : Text → ℤ → F → F → Text → VehicleEvent F
  -- vin, trip id, status
  status : Text → ℤ → Text → VehicleEvent F
  -- vin, trip id, latitude, longitude
  arrive : Text → ℤ → F → F → VehicleEvent F

-- What the client and its adapters keep: the write queue, the id of AutowareControllerTripAdapter
-- and the request id that ClusterBridge owns.
pub record Gateway (F : Type 0) : Type 0 where
  pub vin : Text
  pub active_trip_id : ℤ
  pub request_id : ℤ
  pub write_queue : List (VehicleEvent F)

pub record EtaData (F : Type 0) : Type 0 where
  pub request_id : ℤ
  pub time_seconds : F
  pub fare : F

pub record LocationData (F : Type 0) : Type 0 where
  pub longitude : F
  pub latitude : F

pub record TripInitData (F : Type 0) : Type 0 where
  pub request_id : ℤ
  pub start_long : F
  pub start_lat : F
  pub end_long : F
  pub end_lat : F

-- TripMoveData and ArriveData
pub record PlaceData (F : Type 0) : Type 0 where
  pub trip_id : ℤ
  pub longitude : F
  pub latitude : F

-- GetCurrentStatus
abbrev pub current_status : TripState → Text
current_status idle = codes "idle"
current_status query_publishing_initial_pose = codes "planning"
current_status query_waiting_localisation = codes "planning"
current_status query_publishing_goal = codes "planning"
current_status query_waiting_route = codes "planning"
current_status query_reading_eta = codes "planning"
current_status routes_ready = codes "routes_ready"
current_status publishing_initial_pose = codes "preparing"
current_status waiting_localisation = codes "preparing"
current_status engaging = codes "accepted"
current_status driving_to_pickup = codes "driving_to_pickup"
current_status waiting_for_move = codes "waiting_for_move"
current_status running = codes "in_progress"
current_status completed = codes "completed"
current_status cancelled = codes "cancelled"
current_status failed = codes "error"
current_status _ = codes "unknown"

-- The vin that the read loop finds in a command.
abbrev pub vin_of : {F : Type 0} → GatewayCommand F → Text
vin_of (trip_init vin id start goal) = vin
vin_of (trip_move vin id) = vin
vin_of (trip_cancel vin id) = vin
vin_of (trip_park vin) = vin
vin_of (order_update_location vin) = vin
vin_of (order_update_status vin) = vin
vin_of no_command = []

module _ {F : Type 0} where
  unfoldable pub enqueue : Gateway F → VehicleEvent F → Gateway F
  enqueue g ev = record g { write_queue = g.write_queue ++ ev ∷ [] }

  unfoldable pub report_trip_init_ack : Gateway F → Gateway F
  unfolding enqueue
  report_trip_init_ack g = enqueue g (trip_init_ack true (codes "accepted"))

  unfoldable pub report_trip_cancel_ack : Gateway F → Bool → Text → Gateway F
  unfolding enqueue
  report_trip_cancel_ack g success message = enqueue g (trip_cancel_ack success message)

  unfoldable pub report_order_update_location_ack : Gateway F → Bool → Text → Gateway F
  unfolding enqueue
  report_order_update_location_ack g success message =
      enqueue g (order_update_location_ack success message)

  unfoldable pub report_location : Gateway F → F → F → Gateway F
  unfolding enqueue
  report_location g latitude longitude = enqueue g (location g.vin latitude longitude)

  -- ReportLocation() of the location provider
  unfoldable pub report_current_location : Gateway F → LocationData F → Gateway F
  report_current_location g d = report_location g d.latitude d.longitude

  -- ReportEta(distance_m, time_seconds, fare): the distance is only logged. The id is what GetEta()
  -- of the ETA adapter reads, as long as the adapter is alive.
  unfoldable pub report_eta : Gateway F → F → F → F → Gateway F
  unfolding enqueue
  report_eta g distance_m time_seconds fare =
      enqueue g (eta g.vin g.request_id time_seconds fare (codes "COMPLETED"))

  -- ReportEta() of the ETA provider
  unfoldable pub report_current_eta : Gateway F → EtaData F → Gateway F
  unfolding enqueue
  report_current_eta g d =
      enqueue g (eta g.vin d.request_id d.time_seconds d.fare (codes "COMPLETED"))

  unfoldable pub report_status : Gateway F → Text → Gateway F
  unfolding enqueue
  report_status g text = enqueue g (status g.vin g.active_trip_id text)

  unfoldable pub report_arrive : Gateway F → PlaceData F → Gateway F
  unfolding enqueue
  report_arrive g d = enqueue g (arrive g.vin d.trip_id d.latitude d.longitude)

  unfoldable pub set_active_trip_id : Gateway F → ℤ → Gateway F
  set_active_trip_id g id = record g { active_trip_id = id }

module _ {F M : Type 0} (e : Lanes F M) where
  unfoldable pub get_trip_init_data : Gateway F → AutowareController F M → TripInitData F
  get_trip_init_data g a =
      let s = get_trip_status_sync e a in
      record {
        request_id = g.active_trip_id;
        start_long = s.start_gps.longitude;
        start_lat = s.start_gps.latitude;
        end_long = s.goal_gps.longitude;
        end_lat = s.goal_gps.latitude;
      }

  -- GetTripMoveData and GetArriveData
  unfoldable pub get_place_data : Gateway F → AutowareController F M → PlaceData F
  get_place_data g a =
      let s = get_trip_status_sync e a in
      record {
        trip_id = g.active_trip_id;
        longitude = s.current_gps.longitude;
        latitude = s.current_gps.latitude;
      }

  unfoldable pub get_current_status : AutowareController F M → Text
  get_current_status a = current_status (get_trip_status_sync e a).state

  -- ClusterEtaAdapter::GetEta
  unfoldable pub get_eta : Gateway F → F → EtaData F
  get_eta g remaining_time_s = record {
    request_id = g.request_id;
    time_seconds = remaining_time_s;
    fare = zero_of e;
  }
