-- ===== src/Controller.antt =====
-- AutowareController.cc: what it posts to the strand, around the trip controller that `initialize`
-- makes. The answers of the callbacks are a history, newest first.
pub mod Requests
pub mod Served
pub mod Refused
pub mod Log
use autoware_agent.Base.{
  ℕ, Bool, true, false, List, [], ◌∷◌, Option, none, some, Text, codes, if◌then◌else◌, Result, ok,
  ◌>>=◌,
}
use autoware_agent.Geometry.{GpsCoordinate, LocalCoordinate, Lanes}
use autoware_agent.Trip.State.{
  TripState, idle, TripStatus, EtaQueryResult, pickup, default_timings, Output, state_changed,
  pickup_arrived, dropoff_arrived, TripController, zero_of, zero_gps, default_status,
  default_result,
}
use autoware_agent.Trip.Query.{get_current_vehicle_pose, query_eta}
use autoware_agent.Trip.Commands.{
  go_to_pickup, set_current_gps, initialize_in_map, start_trip, move, handle_move_command, cancel,
}
use autoware_agent.Trip.Tick.{Surroundings, tick}

pub data ArrivalKind : Type 0 where
  at_pickup at_dropoff : ArrivalKind

-- A call of a callback that came with a request, known by its number.
pub data Reply (F : Type 0) : Type 0 where
  replied : ℕ → Bool → Reply F
  status_replied : ℕ → TripStatus F → Reply F
  eta_replied : ℕ → EtaQueryResult F → Reply F

-- A call of the callbacks that are set once, trip_state_callback_ and arrival_callback_.
pub data Notice : Type 0 where
  trip_state : TripState → TripState → Notice
  arrival : ArrivalKind → Notice

-- The trip controller holds a reference to the lanelet map; from `initialize` on, the map is the
-- one in it.
pub record AutowareController (F M : Type 0) : Type 0 where
  pub lanelet_map : M
  pub trip_ctrl : Option (TripController F M)
  pub trip_state_callback : Bool
  pub arrival_callback : Bool
  pub replies : List (Reply F)

module _ {F M : Type 0} where
  -- `if (callback) callback(value)`
  abbrev pub reply : Option ℕ → (ℕ → Reply F) → AutowareController F M → AutowareController F M
  reply none r a = a
  reply (some k) r a = record a { replies = r k ∷ a.replies }

  -- What startTripImpl, moveImpl, goToPickupImpl and handleMoveCommandImpl share.
  unfoldable pub command :
      AutowareController F M
      → Option ℕ
      → (TripController F M → Result (TripController F M × Bool))
      → Option (TripController F M)
      → Result (AutowareController F M)
  command a callback f none = ok (reply callback (λ k. replied k false) a)
  command a callback f (some t) = do
    r ← f t
    ok (reply callback (λ k. replied k r.1) (record a { trip_ctrl = some r.0 }))

  -- The map, which a trip controller that there is has worked on.
  abbrev pub map_after : M → Option (TripController F M) → M
  map_after m none = m
  map_after m (some t) = t.lanelet_map

  -- The callbacks that `initialize` gives to the trip controller, called with one of its outputs.
  unfoldable pub on_output : AutowareController F M → Output F → Option Notice
  on_output a (state_changed prev next) =
      if a.trip_state_callback then some (trip_state prev next) else none
  on_output a pickup_arrived = if a.arrival_callback then some (arrival at_pickup) else none
  on_output a dropoff_arrived = if a.arrival_callback then some (arrival at_dropoff) else none
  on_output a _ = none

module _ {F M : Type 0} (e : Lanes F M) where
  -- The constructor of TripController; state_entered_at_ is time_point{}.
  unfoldable pub new_trip_controller : M → TripController F M
  new_trip_controller m = record {
    lanelet_map = m;
    timings = default_timings;
    engaging_for_pickup = true;
    current_loc_state = none;
    current_route_state = none;
    current_mode_state = none;
    last_route = none;
    last_publish_time = 0;
    status = default_status e;
    on_state_change = false;
    on_pickup_arrived = false;
    on_dropoff_arrived = false;
    state_entered_at = 0;
    route_received = false;
    init_x = zero_of e;
    init_y = zero_of e;
    init_z = zero_of e;
    init_qz = zero_of e;
    init_qw = e.literal 1 0;
    querying = false;
    current_leg = pickup;
    query_start_gps = zero_gps e;
    query_goal_gps = zero_gps e;
    query_cb = none;
    query_result = default_result e;
    eta_received = false;
    eta_distance_m = zero_of e;
    eta_seconds = zero_of e;
    pickup_route = none;
    trip_route = none;
    sent = [];
  }

  -- What `initialize` posts. A second call makes a new trip controller on the same map; that it
  -- also assigns a thread that runs, which ends the program, is outside of the strand.
  unfoldable pub initialize : AutowareController F M → ℕ → AutowareController F M
  initialize a now = record a {
    trip_ctrl = some (
        initialize_in_map e
          (record (new_trip_controller (map_after a.lanelet_map a.trip_ctrl)) {
            on_state_change = true;
            on_pickup_arrived = true;
            on_dropoff_arrived = true;
          })
          now);
  }

  unfoldable pub start_trip_impl :
      AutowareController F M → Option ℕ → ℕ → Result (AutowareController F M)
  start_trip_impl a callback now = command a callback (λ t. start_trip e t now) a.trip_ctrl

  unfoldable pub move_impl : AutowareController F M → Option ℕ → ℕ → Result (AutowareController F M)
  move_impl a callback now = command a callback (λ t. move e t now) a.trip_ctrl

  unfoldable pub go_to_pickup_impl :
      AutowareController F M → Option ℕ → ℕ → Result (AutowareController F M)
  go_to_pickup_impl a callback now = command a callback (λ t. ok (go_to_pickup t now)) a.trip_ctrl

  unfoldable pub handle_move_command_impl :
      AutowareController F M → Option ℕ → ℕ → Result (AutowareController F M)
  handle_move_command_impl a callback now =
      command a callback (λ t. handle_move_command e t now) a.trip_ctrl

  unfoldable pub cancel_with :
      AutowareController F M → ℕ → Option (TripController F M) → AutowareController F M
  cancel_with a now none = a
  cancel_with a now (some t) = record a { trip_ctrl = some (cancel e t now) }

  unfoldable pub cancel_trip_impl : AutowareController F M → ℕ → AutowareController F M
  cancel_trip_impl a now = cancel_with a now a.trip_ctrl

  -- `trip_ctrl_ ? trip_ctrl_->status() : TripStatus{}`
  unfoldable pub status_with : Option (TripController F M) → TripStatus F
  status_with none = default_status e
  status_with (some t) = t.status

  unfoldable pub get_trip_status_sync : AutowareController F M → TripStatus F
  get_trip_status_sync a = status_with a.trip_ctrl

  unfoldable pub get_trip_status_impl : AutowareController F M → Option ℕ → AutowareController F M
  get_trip_status_impl a callback =
      reply callback (λ k. status_replied k (status_with a.trip_ctrl)) a

  abbrev pub located : Option (GpsCoordinate F) → TripController F M → TripController F M
  located none t = t
  located (some gps) t = set_current_gps t gps

  unfoldable pub tick_with :
      AutowareController F M
      → Option (LocalCoordinate F)
      → Surroundings
      → Option (TripController F M)
      → Result (AutowareController F M)
  tick_with a tf s none = ok a
  tick_with a tf s (some t) = do
    t' ← tick e (located (get_current_vehicle_pose e tf) t) s
    ok (record a { trip_ctrl = some t' })

  -- `tf` is what the transform lookup gives.
  unfoldable pub on_tick_timer :
      AutowareController F M
      → Option (LocalCoordinate F)
      → Surroundings
      → Result (AutowareController F M)
  on_tick_timer a tf s = tick_with a tf s a.trip_ctrl

  unfoldable pub query_with :
      AutowareController F M
      → Option (LocalCoordinate F)
      → GpsCoordinate F
      → GpsCoordinate F
      → Option ℕ
      → ℕ
      → Option (TripController F M)
      → Result (AutowareController F M)
  query_with a tf from to cb now none = ok (
      reply cb
        (λ k.
          eta_replied k (record (default_result e) {
            success = false;
            error_message = codes "not initialized";
          }))
        a)
  query_with a tf from to cb now (some t) = do
    r ← query_eta e t tf from to cb now
    ok (record a { trip_ctrl = some r.0 })

  -- The post of AutowareController::queryEta.
  unfoldable pub query_eta_impl :
      AutowareController F M
      → Option (LocalCoordinate F)
      → GpsCoordinate F
      → GpsCoordinate F
      → Option ℕ
      → ℕ
      → Result (AutowareController F M)
  query_eta_impl a tf from to cb now = query_with a tf from to cb now a.trip_ctrl
