-- ===== src/Agent.antt =====
-- AutowareApp.cpp: the handlers and callbacks that startAutowareApp connects, around the controller,
-- the gateway client and the location bridge, and the order in which their threads run them.
pub mod Keeps
pub mod Foreign
pub mod Stamped
pub mod Sane
pub mod Heard
pub mod Quotes
pub mod Reports
use autoware_agent.Base.{
  ◌==◌, ℕ, ◌+◌, Bool, true, false, not, ◌&&◌, List, [], ◌∷◌, ◌++◌, Option, none, some, Text, codes,
  ℤ, if◌then◌else◌, Result, ok, ◌>>=◌,
}
use autoware_agent.Geometry.{GpsCoordinate, LocalCoordinate, Lanes}
use autoware_agent.Lanelets.Geometry.{text_eq}
use autoware_agent.Trip.State.{
  TripState, waiting_for_move, driving_to_pickup, running, completed, failed, EtaQueryResult,
  TripStatus, TripController, Output, answered, zero_of,
}
use autoware_agent.Controller.{
  AutowareController, Reply, replied, status_replied, eta_replied, Notice, trip_state, arrival,
  on_output, get_trip_status_sync,
}
use autoware_agent.Controller.Requests.{
  Request, start_trips, handle_moves, cancels, get_statuses, query_etas, serve,
}
use autoware_agent.Gateway.{
  GatewayCommand, trip_init, trip_move, trip_cancel, trip_park, order_update_location,
  order_update_status, no_command, Gateway, vin_of, report_trip_init_ack, report_trip_cancel_ack,
  report_order_update_location_ack, report_location, report_eta, report_status, report_arrive,
  set_active_trip_id, get_place_data,
}
use autoware_agent.Location
use autoware_agent.Location.{LocationBridge, set_streaming_enabled}

-- What the handlers post to the strand of the controller. The callbacks are known by their
-- numbers: 0 is queryEta's, 1 startTrip's, 2 handleMoveCommand's, 3 getTripStatus's.
pub data Job (F : Type 0) : Type 0 where
  post_query : GpsCoordinate F → GpsCoordinate F → Job F
  post_start post_move_command post_cancel post_status : Job F

-- `posted` and `location_posted` are what waits on the two strands, oldest first. The client reads
-- from its construction on, and its handlers are set later.
pub record Agent (F M : Type 0) : Type 0 where
  pub controller : AutowareController F M
  pub gateway : Gateway F
  pub handlers_set : Bool
  pub location : LocationBridge F
  pub posted : List (Job F)
  pub location_posted : List Bool

pub data AgentEvent (F : Type 0) : Type 0 where
  -- Read gives a command
  receives : GatewayCommand F → AgentEvent F
  -- the strand runs the oldest job, with what the transform lookup gives
  runs : ℕ → Option (LocalCoordinate F) → AgentEvent F
  -- the strand runs what somebody else has posted
  serves : ℕ → Request F → AgentEvent F
  -- the strand of the location bridge
  location_runs : AgentEvent F
  location_ticks : ℕ → AgentEvent F

abbrev pub request : {F : Type 0} → Job F → Option (LocalCoordinate F) → Request F
request (post_query from to) tf = query_etas tf from to (some 0)
request post_start tf = start_trips (some 1)
request post_move_command tf = handle_moves (some 2)
request post_cancel tf = cancels
request post_status tf = get_statuses (some 3)

module _ {F M : Type 0} where
  unfoldable pub post : Agent F M → Job F → Agent F M
  post a job = record a { posted = a.posted ++ job ∷ [] }

  unfoldable pub set_streaming : Agent F M → Bool → Agent F M
  set_streaming a enabled = record a { location_posted = a.location_posted ++ enabled ∷ [] }

  unfoldable pub on_trip_init : Agent F M → GpsCoordinate F → GpsCoordinate F → Agent F M
  unfolding post
  on_trip_init a start goal = post a (post_query start goal)

  unfoldable pub on_trip_move : Agent F M → Agent F M
  unfolding post
  on_trip_move a = post a post_move_command

  unfoldable pub on_order_update_location : Agent F M → Agent F M
  unfolding post report_order_update_location_ack
  on_order_update_location a =
      post (record a { gateway = report_order_update_location_ack a.gateway true [] }) post_status

  unfoldable pub on_trip_cancel : Agent F M → Agent F M
  unfolding post report_trip_cancel_ack report_status
  on_trip_cancel a =
      let b = post a post_cancel in
      record b {
        gateway = report_status (report_trip_cancel_ack b.gateway true []) (codes "CANCELLED");
      }

  -- The handlers, by the kind of the command, if they are set; the ids are taken in any case.
  unfoldable pub dispatch : Agent F M → GatewayCommand F → Agent F M
  unfolding set_active_trip_id
  dispatch a (trip_init vin id start goal) =
      let g = set_active_trip_id a.gateway id in
      let a' = record a { gateway = record g { request_id = id } } in
      if a'.handlers_set then on_trip_init a' start goal else a'
  dispatch a (trip_move vin id) =
      let a' = record a { gateway = set_active_trip_id a.gateway id } in
      if a'.handlers_set then on_trip_move a' else a'
  dispatch a (order_update_location vin) = if a.handlers_set then on_order_update_location a else a
  dispatch a (trip_cancel vin id) = if a.handlers_set then on_trip_cancel a else a
  dispatch a (trip_park vin) = a
  dispatch a (order_update_status vin) = a
  dispatch a no_command = a

  -- A round of the read loop, with the test `cmd_vin != vin_`.
  unfoldable pub on_command : Agent F M → GatewayCommand F → Agent F M
  on_command a cmd = if text_eq (vin_of cmd) a.gateway.vin then dispatch a cmd else a

  abbrev pub sent_of : Option (TripController F M) → List (Output F)
  sent_of none = []
  sent_of (some t) = t.sent

  abbrev pub without_sent : Option (TripController F M) → Option (TripController F M)
  without_sent none = none
  without_sent (some t) = some (record t { sent = [] })

  -- The controller with empty histories, so that they show what one request adds.
  abbrev pub listening : AutowareController F M → AutowareController F M
  listening c = record c { trip_ctrl = without_sent c.trip_ctrl; replies = [] }

  abbrev pub run_location : Agent F M → List Bool → Agent F M
  run_location a [] = a
  run_location a (enabled ∷ rest) = record a {
    location = set_streaming_enabled a.location enabled;
    location_posted = rest;
  }

module _ {F M : Type 0} (e : Lanes F M) where
  unfoldable pub calculate_fare : F → F → F
  calculate_fare distance_m time_seconds =
      let distance_km = e.div distance_m (e.literal 1000 0) in
      let time_min = e.div time_seconds (e.literal 60 0) in
      e.add (e.add (e.literal 5 0) (e.mul distance_km (e.literal 2 0)))
        (e.mul time_min (e.literal 5 1))

  -- The callback of queryEta.
  unfoldable pub on_eta_result : Agent F M → EtaQueryResult F → Agent F M
  on_eta_result a r =
      if r.success
      then post
          (record a {
            gateway =
                report_eta a.gateway (e.add r.pickup_leg.distance_m r.trip_leg.distance_m)
                  (e.add r.pickup_leg.eta_seconds r.trip_leg.eta_seconds)
                  (calculate_fare r.trip_leg.distance_m r.trip_leg.eta_seconds);
          })
          post_start
      else a

  -- The callback of setTripStateCallback, by the state that is entered.
  unfoldable pub on_trip_state : Agent F M → TripState → Agent F M
  on_trip_state a waiting_for_move =
      let g = report_trip_init_ack a.gateway in
      set_streaming
        (record a {
          gateway =
              report_status (report_arrive g (get_place_data e g a.controller))
                (codes "ARRIVED_AT_PICKUP");
        })
        false
  on_trip_state a driving_to_pickup = set_streaming a true
  on_trip_state a running = record a { gateway = report_status a.gateway (codes "IN_PROGRESS") }
  on_trip_state a completed = record a {
    gateway =
        report_status (report_arrive a.gateway (get_place_data e a.gateway a.controller))
          (codes "COMPLETED");
  }
  on_trip_state a failed = record a { gateway = report_status a.gateway (codes "ERROR") }
  on_trip_state a _ = a

  abbrev pub on_notice : Agent F M → Option Notice → Agent F M
  on_notice a none = a
  on_notice a (some (trip_state prev next)) = on_trip_state a next
  on_notice a (some (arrival kind)) = a

  -- What follows one output of the trip controller.
  abbrev pub on_sent : Agent F M → Output F → Agent F M
  on_sent a (answered k r) = if k == 0 then on_eta_result a r else a
  on_sent a o = on_notice a (on_output a.controller o)

  -- The callbacks of startTrip and handleMoveCommand only log.
  abbrev pub on_reply : Agent F M → Reply F → Agent F M
  on_reply a (replied k b) = a
  on_reply a (status_replied k s) =
      if k == 3
      then record a {
        gateway = report_location a.gateway s.current_gps.latitude s.current_gps.longitude;
      }
      else a
  on_reply a (eta_replied k r) = if k == 0 then on_eta_result a r else a

  -- The newest is first in the histories.
  abbrev pub on_all_sent : Agent F M → List (Output F) → Agent F M
  on_all_sent a [] = a
  on_all_sent a (o ∷ os) = on_sent (on_all_sent a os) o

  abbrev pub on_all_replies : Agent F M → List (Reply F) → Agent F M
  on_all_replies a [] = a
  on_all_replies a (r ∷ rs) = on_reply (on_all_replies a rs) r

  abbrev pub settle : Agent F M → AutowareController F M → Agent F M
  settle a c =
      on_all_replies (on_all_sent (record a { controller = c }) (sent_of c.trip_ctrl)) c.replies

  -- The strand runs a request, and the callbacks with what it sends and answers.
  unfoldable pub on_request : Agent F M → ℕ → Request F → Result (Agent F M)
  on_request a now r = serve e (listening a.controller) now r >>= λ c. ok (settle a c)

  abbrev pub run_posted :
      Agent F M → ℕ → Option (LocalCoordinate F) → List (Job F) → Result (Agent F M)
  run_posted a now tf [] = ok a
  run_posted a now tf (job ∷ jobs) = on_request (record a { posted = jobs }) now (request job tf)

  -- The GpsProvider of the location bridge.
  unfoldable pub gps_provider : AutowareController F M → Option (GpsCoordinate F)
  gps_provider c =
      let gps = (get_trip_status_sync e c).current_gps in
      if e.eq gps.latitude (zero_of e) && e.eq gps.longitude (zero_of e) then none else some gps

  unfoldable pub on_event : Agent F M → AgentEvent F → Result (Agent F M)
  on_event a (receives cmd) = ok (on_command a cmd)
  on_event a (runs now tf) = run_posted a now tf a.posted
  on_event a (serves now r) = on_request a now r
  on_event a location_runs = ok (run_location a a.location_posted)
  on_event a (location_ticks now) = ok (record a {
    location = Location.on_tick a.location (gps_provider a.controller) a.gateway.active_trip_id now;
  })

  unfoldable pub on_events : Agent F M → List (AgentEvent F) → Result (Agent F M)
  on_events a [] = ok a
  on_events a (ev ∷ rest) = on_event a ev >>= λ a'. on_events a' rest
