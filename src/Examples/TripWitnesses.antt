-- ===== src/Examples/TripWitnesses.antt =====
-- The theorems on the trip and the controller at work on the small map.
use autoware_agent.Base.{
  zero, suc, ◌+◌, ℕ, refl, ok, ◌≡◌, some, pos, List, Bool, codes, Result, err, [], ◌∷◌, arith, true,
  false, none, ◌≤◌, Returns,
}
use autoware_agent.Decimal.RoundTrip.{stoll-to_string}
use autoware_agent.Lanelets.Map.{
  LaneletMap, find_nearest_connected_lane, is_loaded, resolve, nearest, connected_candidates,
  consider, lane_distance, cached_or, cached_lane, build_lane, contains_id, find_connected,
  predecessors_of, remember,
}
use autoware_agent.Examples.{
  Known, Sound, roads, laws, town-Sound, parked, fresh, asked, asked-Inv, held, at_pickup_lane,
  engaged_for_trip,
}
use autoware_agent.Controller.{new_trip_controller}
use autoware_agent.Lanelets.Geometry.{
  get_lanelet, is_drivable, midpoint, distance, gps_to_local, closer_point, lane_info_at,
  lanelet_yaw, local_to_gps, make_lane_info, project_onto_centerline, project_onto_lane_centerline,
  project_onto_segment, project_segments, yaw_to_quat,
}
use autoware_agent.Controller.Refused.{Refusing, serve_all-Refusing}
use autoware_agent.Geometry.{GpsCoordinate}
use autoware_agent.Controller.Requests.{
  initializes, start_trips, query_etas, cancels, serve_all, serve, moves, go_to_pickups,
  handle_moves,
}
use autoware_agent.Controller.Served.{ControllerInv, Served, serve_all-Inv, commands-answered}
use autoware_agent.Trip.Progress.Timer.{Ends, Uncommanded, timer-Ends}
use autoware_agent.Trip.Tick.{Surroundings}
use autoware_agent.Trip.State.{
  TripController, idle, running, driving_to_pickup, do_publish_goal, send, transition_to, enter,
  default_status, state_changed, routes_ready, query_reading_eta, trip,
}
use autoware_agent.Trip.Events.{Event, timer, loc_state, run}
use autoware_agent.Trip.Events
use autoware_agent.Trip.Phases.{Inv}
use autoware_agent.Messages.{initialized}
use autoware_agent.Trip.Query.{fail_query, finish_query_leg, answer, query_success}
use autoware_agent.Controller.Log.{on_trip_state_changed, info, finish_query_leg-log}
use autoware_agent.Trip.Invariant.Steps.{run-Inv}
use autoware_agent.Trip.Commands.{move, move_held, move_to, on_engage_response, start_trip}
use autoware_agent.Trip.Tick.{tick}
use autoware_agent.Trip.Safety.{
  Told, fail_query-silent, accepted_move-waits, refused_start-turns_leg,
}
use autoware_agent.Controller.{AutowareController}
use autoware_agent.Trip.Diagram.Spots.{spot, Trace}
use autoware_agent.Trip.Diagram.Refines.{kinds, run-Trace}
use autoware_agent.Trip.Diagram.Orders.{needed, given_all}
use autoware_agent.Trip.Diagram.Order.{run-needed_orders}

serve_all-Inv_example : Returns (ControllerInv roads Known Sound laws) (
    serve_all roads parked (
      (1, initializes)
      ∷ (
        2,
        query_etas
            (some (record { x = 35; y = 139; z = 0 }))
            (record { latitude = 36; longitude = 139 })
            (record { latitude = 35; longitude = 140 })
            (some 4),
      )
      ∷ (3, start_trips (some 6))
      ∷ (4, cancels)
      ∷ []))
serve_all-Inv_example = serve_all-Inv roads Known Sound laws parked _ (town-Sound, tt)

abbrev tick_at : ℕ → Surroundings
tick_at s = record { now = s; mode_service_ready = true; engage_service_ready = true }

-- So many ticks at 10 Hz.
every_100_ms : ℕ → ℕ → List (ℕ × Event ℕ)
every_100_ms now zero = []
every_100_ms now (suc n) = (now, timer true true) ∷ every_100_ms (now + 100000000) n

Uncommanded-later :
    (t u : ℕ) (history : List (ℕ × Event ℕ)) → t ≤ u → Uncommanded u history → Uncommanded t history
Uncommanded-later t u [] h q = tt
Uncommanded-later t u ((now, ev) ∷ rest) h q = (omega (arith, h, q.0), q.1, q.2)

every_100_ms-Uncommanded : (n now : ℕ) → Uncommanded now (every_100_ms now n)
unfolding every_100_ms
every_100_ms-Uncommanded zero now = tt
every_100_ms-Uncommanded (suc n) now = (
  omega arith,
  tt,
  Uncommanded-later now (now + 100000000) _ (omega arith)
      (every_100_ms-Uncommanded n (now + 100000000)),
)

timer-Ends_example : Ends roads Known Sound laws asked (every_100_ms 0 3100)
unfolding new_trip_controller every_100_ms
timer-Ends_example =
    timer-Ends roads Known Sound laws asked 30000 (every_100_ms 0 3100) asked-Inv
      (omega arith, omega arith, omega arith) (every_100_ms-Uncommanded 3100 0) (omega arith)

-- The controller while a query runs.
abbrev busy : AutowareController ℕ (LaneletMap ℕ)
busy = record parked { trip_ctrl = some asked }

commands-answered_example :
    Returns
      (Served roads Known Sound laws busy (some 3))
      (serve roads busy 9 (start_trips (some 3)))
    × (Returns (Served roads Known Sound laws busy (some 3)) (serve roads busy 9 (moves (some 3)))
        × (Returns
              (Served roads Known Sound laws busy (some 3))
              (serve roads busy 9 (go_to_pickups (some 3)))
            × Returns
                (Served roads Known Sound laws busy (some 3))
                (serve roads busy 9 (handle_moves (some 3)))))
commands-answered_example =
    commands-answered roads Known Sound laws busy 3 9 (town-Sound, asked-Inv)

run-Inv_example :
    Returns (Inv Known Sound) (
      run roads asked
        ((7, timer true true) ∷ (8, loc_state initialized) ∷ (9, Events.cancels) ∷ []))
run-Inv_example = run-Inv roads Known Sound laws asked _ asked-Inv

-- The state that a command leaves.
abbrev left :
    TripController ℕ (LaneletMap ℕ)
    → Result (TripController ℕ (LaneletMap ℕ) × Bool)
    → TripController ℕ (LaneletMap ℕ)
left c (ok (c', b)) = c'
left c (err x) = c

abbrev moved : TripController ℕ (LaneletMap ℕ)
moved = left at_pickup_lane (move roads at_pickup_lane 20)

accepted : move roads at_pickup_lane 20 ≡ ok (moved, true)
unfolding move move_held move_to new_trip_controller find_nearest_connected_lane is_loaded resolve
    nearest connected_candidates consider lane_distance cached_or cached_lane build_lane contains_id
    find_connected predecessors_of remember get_lanelet is_drivable midpoint distance gps_to_local
    closer_point lane_info_at lanelet_yaw local_to_gps make_lane_info project_onto_centerline
    project_onto_lane_centerline project_onto_segment project_segments yaw_to_quat do_publish_goal
    send transition_to enter
accepted = rw (stoll-to_string (pos 7) refl) refl

accepted_move-waits_example :
    ((on_engage_response moved 1 30).status.state ≡ running)
    × (tick roads (on_engage_response moved 1 30) (tick_at 40) ≡ ok (on_engage_response moved 1 30))
accepted_move-waits_example =
    accepted_move-waits roads at_pickup_lane moved 20 30 (tick_at 40) accepted

refused_start-turns_leg_example :
    (c' : TripController ℕ (LaneletMap ℕ)) × (start_trip roads engaged_for_trip 50 ≡ ok (c', false))
    × ((on_engage_response c' 1 60).status.state ≡ driving_to_pickup)
    × ((on_engage_response engaged_for_trip 1 60).status.state ≡ running)
refused_start-turns_leg_example =
    refused_start-turns_leg roads engaged_for_trip held held 50 60 refl refl refl refl

fail_query-silent_example :
    ((fail_query roads asked (codes "late") 70).status.state ≡ idle)
    × ((fail_query roads asked (codes "late") 70).pickup_route ≡ none)
    × ((fail_query roads asked (codes "late") 70).trip_route ≡ none)
    × Told (some 5) asked.sent (fail_query roads asked (codes "late") 70).sent
fail_query-silent_example = fail_query-silent roads asked (codes "late") 70

abbrev beside_road : GpsCoordinate ℕ
beside_road = record { latitude = 36; longitude = 139 }

serve_all-Refusing_example : Returns (Refusing roads) (
    serve_all roads parked (
      (1, start_trips (some 2))
      ∷ (2, query_etas none beside_road beside_road (some 3))
      ∷ (3, cancels)
      ∷ []))
serve_all-Refusing_example =
    serve_all-Refusing roads parked
      ((1, start_trips (some 2))
        ∷ (2, query_etas none beside_road beside_road (some 3))
        ∷ (3, cancels)
        ∷ [])
      (refl, tt) (tt, (tt, (tt, tt)))

-- A query, its first tick, and a start that comes too early.
abbrev early_start : List (ℕ × Event ℕ)
early_start =
    (1, Events.query (some (record { x = 35; y = 139; z = 0 })) beside_road beside_road (some 2))
    ∷ (2, timer true true)
    ∷ (3, Events.start)
    ∷ (4, Events.go_to)
    ∷ []

fresh-Inv : Inv Known Sound fresh
unfolding new_trip_controller default_status
fresh-Inv = (town-Sound, ((refl, refl), refl, refl))

run-Trace_example :
    Returns (λ c'. Trace (kinds early_start) (spot fresh) (spot c')) (run roads fresh early_start)
run-Trace_example = run-Trace roads Known Sound laws fresh early_start fresh-Inv

run-needed_orders_example :
    Returns
      (λ c'. needed c'.status.state c'.engaging_for_pickup ≤ given_all 0 (kinds early_start))
      (run roads fresh early_start)
unfolding new_trip_controller default_status
run-needed_orders_example =
    run-needed_orders roads Known Sound laws fresh early_start fresh-Inv refl

-- The trip leg of a query, at its end.
abbrev last_leg : TripController ℕ (LaneletMap ℕ)
last_leg = record asked {
  status = record (asked.status) { state = query_reading_eta };
  current_leg = trip;
  on_state_change = true;
}

finish_query_leg-log_example :
    (c' : TripController ℕ (LaneletMap ℕ)) × (finish_query_leg roads last_leg 100 ≡ ok c')
    × (c'.sent
        ≡ state_changed idle routes_ready
          ∷ (answer (some 5) (query_success roads last_leg) last_leg).sent)
    × ((on_trip_state_changed parked (some c'.status) idle routes_ready).0
        ≡ info (codes "[AutowareAgent] IDLE -> ROUTES_READY")
          ∷ info (codes "[AutowareAgent] Routes ready: pickup= goal=")
          ∷ [])
finish_query_leg-log_example = finish_query_leg-log roads last_leg parked 100 refl refl
