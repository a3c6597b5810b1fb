-- ===== src/TripFrames/Alive.antt =====
-- The strand of TripBridge, and what its frames tell of the heartbeat and the trip.
use autoware_agent.Base.{ℕ, ◌-◌, ◌≡◌, refl, ap, List, [], ◌∷◌, ltb}
use autoware_agent.Messages.{LocState}
use autoware_agent.Trip.State.{
  TripStatus, TripState, idle, initializing_in_map, query_publishing_initial_pose,
  query_waiting_localisation, query_publishing_goal, query_waiting_route, query_reading_eta,
  routes_ready, waiting_for_pickup_start, publishing_initial_pose, waiting_localisation, engaging,
  driving_to_pickup, waiting_for_move, running, completed, cancelled, failed,
}
use autoware_agent.TripFrames.{
  Mode, Mrm, Behavior, Diag, TripFrame, TripFrameState, FrameTripState, trip_idle,
  trip_publishing_initial_pose, trip_waiting_localisation, trip_publishing_goal, trip_waiting_route,
  trip_engaging, trip_running, trip_completed, trip_failed, TripBridge, to_trip_state,
  on_localization_state, on_operation_mode, on_mrm_state, on_heartbeat, on_diag_state, build_frame,
  refresh, on_tick,
}

-- The state that a frame gives for a trip: the nine that the schema lacks are given as IDLE.
pub data Stands : TripState → FrameTripState → Type 0 where
  as_idle : Stands idle trip_idle
  as_publishing_initial_pose : Stands publishing_initial_pose trip_publishing_initial_pose
  as_waiting_localisation : Stands waiting_localisation trip_waiting_localisation
  as_publishing_goal : Stands query_publishing_goal trip_publishing_goal
  as_waiting_route : Stands query_waiting_route trip_waiting_route
  as_engaging : Stands engaging trip_engaging
  as_running : Stands running trip_running
  as_completed : Stands completed trip_completed
  as_failed : Stands failed trip_failed
  no_initializing : Stands initializing_in_map trip_idle
  no_query_pose : Stands query_publishing_initial_pose trip_idle
  no_query_localisation : Stands query_waiting_localisation trip_idle
  no_query_eta : Stands query_reading_eta trip_idle
  no_routes_ready : Stands routes_ready trip_idle
  no_pickup_start : Stands waiting_for_pickup_start trip_idle
  no_pickup_drive : Stands driving_to_pickup trip_idle
  no_wait_for_move : Stands waiting_for_move trip_idle
  no_cancelled : Stands cancelled trip_idle

to_trip_state-Stands : (s : TripState) → Stands s (to_trip_state s)
to_trip_state-Stands idle = as_idle
to_trip_state-Stands publishing_initial_pose = as_publishing_initial_pose
to_trip_state-Stands waiting_localisation = as_waiting_localisation
to_trip_state-Stands query_publishing_goal = as_publishing_goal
to_trip_state-Stands query_waiting_route = as_waiting_route
to_trip_state-Stands engaging = as_engaging
to_trip_state-Stands running = as_running
to_trip_state-Stands completed = as_completed
to_trip_state-Stands failed = as_failed
to_trip_state-Stands initializing_in_map = no_initializing
to_trip_state-Stands query_publishing_initial_pose = no_query_pose
to_trip_state-Stands query_waiting_localisation = no_query_localisation
to_trip_state-Stands query_reading_eta = no_query_eta
to_trip_state-Stands routes_ready = no_routes_ready
to_trip_state-Stands waiting_for_pickup_start = no_pickup_start
to_trip_state-Stands driving_to_pickup = no_pickup_drive
to_trip_state-Stands waiting_for_move = no_wait_for_move
to_trip_state-Stands cancelled = no_cancelled

-- The start and the goal of a frame are those of the status.
abbrev pub Places : {F : Type 0} → TripStatus F → TripFrameState F → Type 0
Places t s =
    (s.start_lanelet_id ≡ t.start_lanelet_id)
    × (s.start_x ≡ t.start_x)
    × (s.start_y ≡ t.start_y)
    × (s.start_z ≡ t.start_z)
    × (s.goal_lanelet_id ≡ t.goal_lanelet_id)
    × (s.goal_x ≡ t.goal_x)
    × (s.goal_y ≡ t.goal_y)
    × (s.goal_z ≡ t.goal_z)
    × (s.goal_distance_m ≡ t.goal_distance_m)

pub data BridgeEvent (F : Type 0) : Type 0 where
  localization : LocState → BridgeEvent F
  operation : Mode → BridgeEvent F
  mrm : Mrm → Behavior → BridgeEvent F
  heartbeat : BridgeEvent F
  diag : List Diag → BridgeEvent F
  ticked : TripStatus F → BridgeEvent F

module _ {F : Type 0} where
  unfoldable pub handle : TripBridge F → ℕ → BridgeEvent F → TripBridge F
  handle b now (localization m) = on_localization_state b m
  handle b now (operation m) = on_operation_mode b m
  handle b now (mrm s r) = on_mrm_state b s r
  handle b now heartbeat = on_heartbeat b now
  handle b now (diag ds) = on_diag_state b ds
  handle b now (ticked status) = on_tick b now status

  unfoldable pub handle_all : TripBridge F → List (ℕ × BridgeEvent F) → TripBridge F
  handle_all b [] = b
  handle_all b ((now, ev) ∷ rest) = handle_all (handle b now ev) rest

  -- The time of the last heartbeat of a history; `t` if it has none.
  abbrev pub last_heartbeat : ℕ → List (ℕ × BridgeEvent F) → ℕ
  last_heartbeat t [] = t
  last_heartbeat t ((now, heartbeat) ∷ rest) = last_heartbeat now rest
  last_heartbeat t ((now, _) ∷ rest) = last_heartbeat t rest

  handle_all_lem :
      (b : TripBridge F) (history : List (ℕ × BridgeEvent F))
      → (handle_all b history).last_heartbeat_time ≡ last_heartbeat b.last_heartbeat_time history
  unfolding handle_all handle on_localization_state on_operation_mode on_mrm_state on_heartbeat
      on_diag_state on_tick build_frame refresh
  handle_all_lem b [] = refl
  handle_all_lem b ((now, localization m) ∷ rest) =
      handle_all_lem (handle b now (localization m)) rest
  handle_all_lem b ((now, operation m) ∷ rest) = handle_all_lem (handle b now (operation m)) rest
  handle_all_lem b ((now, mrm s r) ∷ rest) = handle_all_lem (handle b now (mrm s r)) rest
  handle_all_lem b ((now, heartbeat) ∷ rest) = handle_all_lem (handle b now heartbeat) rest
  handle_all_lem b ((now, diag ds) ∷ rest) = handle_all_lem (handle b now (diag ds)) rest
  handle_all_lem b ((now, ticked status) ∷ rest) =
      handle_all_lem (handle b now (ticked status)) rest

  -- Whatever messages and ticks a TripBridge has handled: a tick publishes one frame, with the
  -- time of the tick, which says that the system is alive exactly if the last heartbeat of this
  -- history (or the one before it) is less than a second old. It gives the state of the trip by
  -- the name that the frame has for it, and as IDLE where it has none, and the lane, the point and
  -- the distance of start and goal are those of the status at that tick.
  pub tick-alive :
      (b : TripBridge F) (history : List (ℕ × BridgeEvent F)) (now : ℕ) (status : TripStatus F)
      → (f : TripFrame F) × ((on_tick (handle_all b history) now status).published
          ≡ f ∷ (handle_all b history).published)
        × (f.state.system_alive
            ≡ ltb (now - last_heartbeat b.last_heartbeat_time history) 1000000000)
        × (f.stamp_ns ≡ now)
        × Stands status.state f.state.trip_state
        × Places status f.state
  unfolding on_tick build_frame refresh
  tick-alive b history now status = (
    _,
    refl,
    ap (λ t. ltb (now - t) 1000000000) (handle_all_lem b history),
    refl,
    to_trip_state-Stands status.state,
    (refl, refl, refl, refl, refl, refl, refl, refl, refl),
  )
