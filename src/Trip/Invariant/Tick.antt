-- ===== src/Trip/Invariant/Tick.antt =====
-- The timer keeps the invariant, in every state.
use autoware_agent.Base.{
  ℕ, ◌≡◌, refl, inl, inr, Bool, true, false, not, leb, none, Text, Bool-cases, ℤ, ok, Returns,
  if◌then◌else◌, if_both, ◌||◌, ◌∷◌,
}
use autoware_agent.Messages.{is_initialized, is_set, is_arrived, is_unavailable}
use autoware_agent.Geometry.{Lanes}
use autoware_agent.Trip.State.{
  TripState, idle, initializing_in_map, query_publishing_initial_pose, query_waiting_localisation,
  query_publishing_goal, query_waiting_route, query_reading_eta, publishing_initial_pose,
  waiting_localisation, engaging, driving_to_pickup, waiting_for_move, running, completed,
  TripController, zero_of, Output, mode_request, pickup_arrived, dropoff_arrived, elapsed_ms, send,
  transition_to, do_publish_initial_pose, do_publish_goal,
}
use autoware_agent.Trip.Query.{fail_query}
use autoware_agent.Trip.Tick.{
  Surroundings, do_engage, tick_engaging, tick_driving_to_pickup, tick_running, tick_initializing,
  tick_query_pose, tick_query_localisation, tick_query_goal, tick_query_route, tick_query_eta,
  tick_pose, tick_localisation, tick_in, tick, loc_timeout_reason, route_timeout_reason,
  publish_init, publish_start_pose, publish_goal_pose,
}
use autoware_agent.Trip.Laws.{LawfulLanes}
use autoware_agent.Trip.Phases.{
  phase, facts, InPhase, Inv, transition_to-Inv, asking, resting, under_way,
}
use autoware_agent.Trip.Invariant.Query.{fail_query-Inv, finish_query_leg-Inv}

module _ {F M : Type 0} (e : Lanes F M) (Known : ℤ → Type 0) (Sound : M → Type 0)
    (laws : LawfulLanes e Known Sound) where
  tick_initializing-Inv :
      (c : TripController F M) (now : ℕ)
      → Sound c.lanelet_map
      → InPhase Known resting (facts c)
      → c.status.state ≡ initializing_in_map
      → Inv Known Sound (tick_initializing e c now)
  unfolding tick_initializing do_publish_initial_pose send
  tick_initializing-Inv c now s h st = elim (Bool-cases (is_initialized c.current_loc_state)) [
    | inl yes_init ↦ rw yes_init (transition_to-Inv Known Sound c idle now s h)
    | inr not_init ↦ rw not_init (
        if_both (Inv Known Sound) (leb 1000 (elapsed_ms now c.last_publish_time))
          (record (publish_init e c now) { last_publish_time = now }) c (s, rw st h) (s, rw st h))
  ]

  tick_query_pose-Inv :
      (c : TripController F M) (now : ℕ)
      → Sound c.lanelet_map
      → InPhase Known asking (facts c)
      → Inv Known Sound (tick_query_pose e c now)
  unfolding tick_query_pose do_publish_initial_pose send
  tick_query_pose-Inv c now s h = transition_to-Inv Known Sound _ query_waiting_localisation now s h

  -- A wait either fails the query or goes on.
  waiting-Inv :
      (late again : Bool) (c published : TripController F M) (reason : Text) (now : ℕ)
      → Inv Known Sound c
      → Inv Known Sound published
      → Inv Known Sound (
          let c' = if again then published else c in
          if late then fail_query e c' reason now else c')
  waiting-Inv late true c published reason now h k =
      if_both (Inv Known Sound) late _ published
        (fail_query-Inv e Known Sound laws published reason now k.0) k
  waiting-Inv late false c published reason now h k =
      if_both (Inv Known Sound) late _ c (fail_query-Inv e Known Sound laws c reason now h.0) h

  tick_query_localisation-Inv :
      (c : TripController F M) (now : ℕ)
      → Sound c.lanelet_map
      → InPhase Known asking (facts c)
      → c.status.state ≡ query_waiting_localisation
      → Inv Known Sound (tick_query_localisation e c now)
  unfolding tick_query_localisation do_publish_initial_pose send
  tick_query_localisation-Inv c now s h st =
      elim (Bool-cases (is_initialized c.current_loc_state)) [
        | inl yes_init ↦ rw yes_init (transition_to-Inv Known Sound c query_publishing_goal now s h)
        | inr not_init ↦ rw not_init (
            waiting-Inv (leb c.timings.loc_timeout_ms (elapsed_ms now c.state_entered_at))
              (leb 1000 (elapsed_ms now c.last_publish_time)) c
              (record (publish_start_pose e c now) { last_publish_time = now })
              (loc_timeout_reason e c) now (s, rw st h) (s, rw st h))
      ]

  tick_query_goal-Inv :
      (c : TripController F M) (now : ℕ)
      → Sound c.lanelet_map
      → InPhase Known asking (facts c)
      → Inv Known Sound (tick_query_goal e c now)
  unfolding tick_query_goal do_publish_goal send
  tick_query_goal-Inv c now s h = transition_to-Inv Known Sound _ query_waiting_route now s h

  tick_query_route-Inv :
      (c : TripController F M) (now : ℕ)
      → Sound c.lanelet_map
      → InPhase Known asking (facts c)
      → c.status.state ≡ query_waiting_route
      → Inv Known Sound (tick_query_route e c now)
  unfolding tick_query_route do_publish_goal send
  tick_query_route-Inv c now s h st = elim (Bool-cases (is_set c.current_route_state)) [
    | inl yes_set ↦ rw yes_set (transition_to-Inv Known Sound _ query_reading_eta now s h)
    | inr not_set ↦ rw not_set (
        waiting-Inv (leb c.timings.route_timeout_ms (elapsed_ms now c.state_entered_at))
          (leb 2000 (elapsed_ms now c.last_publish_time)) c
          (record (publish_goal_pose e c now) { last_publish_time = now })
          (route_timeout_reason e c) now (s, rw st h) (s, rw st h))
  ]

  tick_query_eta-Inv :
      (c : TripController F M) (now : ℕ)
      → Sound c.lanelet_map
      → InPhase Known asking (facts c)
      → c.status.state ≡ query_reading_eta
      → Returns (Inv Known Sound) (tick_query_eta e c now)
  unfolding tick_query_eta
  tick_query_eta-Inv c now s h st =
      if_both (Returns (Inv Known Sound)) c.eta_received _ _
        (finish_query_leg-Inv e Known Sound laws c now s h)
        (if_both (Returns (Inv Known Sound))
          (leb c.timings.eta_settle_ms (elapsed_ms now c.state_entered_at)) _ (ok c)
          (finish_query_leg-Inv e Known Sound laws
            (record c { eta_distance_m = zero_of e; eta_seconds = zero_of e }) now s h)
          (s, rw st h))

  tick_pose-Inv :
      (c : TripController F M) (now : ℕ)
      → Sound c.lanelet_map
      → InPhase Known under_way (facts c)
      → Inv Known Sound (tick_pose e c now)
  unfolding tick_pose do_publish_initial_pose send
  tick_pose-Inv c now s h = transition_to-Inv Known Sound _ waiting_localisation now s h

  tick_localisation-Inv :
      (c : TripController F M) (now : ℕ)
      → Sound c.lanelet_map
      → InPhase Known under_way (facts c)
      → c.status.state ≡ waiting_localisation
      → Inv Known Sound (tick_localisation e c now)
  unfolding tick_localisation do_publish_initial_pose do_publish_goal send
  tick_localisation-Inv c now s h st = elim (Bool-cases (is_initialized c.current_loc_state)) [
    | inl yes_init ↦ rw yes_init (transition_to-Inv Known Sound _ engaging now s h)
    | inr not_init ↦ rw not_init (
        if_both (Inv Known Sound) (leb 1000 (elapsed_ms now c.last_publish_time))
          (record (publish_init e c now) { last_publish_time = now }) c (s, rw st h) (s, rw st h))
  ]

  do_engage-Inv :
      (c : TripController F M) (r : Surroundings)
      → Inv Known Sound c
      → Inv Known Sound (do_engage c r)
  unfolding do_engage send
  do_engage-Inv c r h =
      if_both (Inv Known Sound) (not r.mode_service_ready || not r.engage_service_ready) c _ h (
        if_both (Inv Known Sound) (is_unavailable c.current_mode_state) c
          (record c { sent = mode_request ∷ c.sent }) h h)

  tick_engaging-Inv :
      (c : TripController F M) (r : Surroundings)
      → Inv Known Sound c
      → Inv Known Sound (tick_engaging c r)
  unfolding tick_engaging
  tick_engaging-Inv c r h =
      if_both (Inv Known Sound) (leb 2000 (elapsed_ms r.now c.last_publish_time))
        (record (do_engage c r) { last_publish_time = r.now }) c (do_engage-Inv c r h) h

  arrive-Inv :
      (announced : Bool) (o : Output F) (c : TripController F M) (next : TripState) (now : ℕ)
      → Sound c.lanelet_map
      → InPhase Known (phase next) (facts c)
      → Inv Known Sound (
          transition_to
            (record (if announced then send c o else c) { current_route_state = none })
            next
            now)
  unfolding send
  arrive-Inv true o c next now s h = transition_to-Inv Known Sound _ next now s h
  arrive-Inv false o c next now s h = transition_to-Inv Known Sound _ next now s h

  tick_driving_to_pickup-Inv :
      (c : TripController F M) (now : ℕ)
      → Inv Known Sound c
      → InPhase Known under_way (facts c)
      → Inv Known Sound (tick_driving_to_pickup c now)
  unfolding tick_driving_to_pickup
  tick_driving_to_pickup-Inv c now v h =
      if_both (Inv Known Sound) (is_arrived c.current_route_state) _ c
        (arrive-Inv c.on_pickup_arrived pickup_arrived c waiting_for_move now v.0 h) v

  tick_running-Inv :
      (c : TripController F M) (now : ℕ)
      → Inv Known Sound c
      → InPhase Known under_way (facts c)
      → Inv Known Sound (tick_running c now)
  unfolding tick_running
  tick_running-Inv c now v h =
      if_both (Inv Known Sound) (is_arrived c.current_route_state) _ c
        (arrive-Inv c.on_dropoff_arrived dropoff_arrived c completed now v.0 h.0) v

  tick_in-Inv :
      (st : TripState) (c : TripController F M) (r : Surroundings)
      → c.status.state ≡ st
      → Sound c.lanelet_map
      → InPhase Known (phase st) (facts c)
      → Returns (Inv Known Sound) (tick_in e st c r)
  unfolding tick_in
  tick_in-Inv initializing_in_map c r st s h = tick_initializing-Inv c r.now s h st
  tick_in-Inv query_publishing_initial_pose c r st s h = tick_query_pose-Inv c r.now s h
  tick_in-Inv query_waiting_localisation c r st s h = tick_query_localisation-Inv c r.now s h st
  tick_in-Inv query_publishing_goal c r st s h = tick_query_goal-Inv c r.now s h
  tick_in-Inv query_waiting_route c r st s h = tick_query_route-Inv c r.now s h st
  tick_in-Inv query_reading_eta c r st s h = tick_query_eta-Inv c r.now s h st
  tick_in-Inv publishing_initial_pose c r st s h = tick_pose-Inv c r.now s h
  tick_in-Inv waiting_localisation c r st s h = tick_localisation-Inv c r.now s h st
  tick_in-Inv engaging c r st s h = tick_engaging-Inv c r (s, rw st h)
  tick_in-Inv driving_to_pickup c r st s h = tick_driving_to_pickup-Inv c r.now (s, rw st h) h
  tick_in-Inv running c r st s h = tick_running-Inv c r.now (s, rw st h) h
  tick_in-Inv _ c r st s h = (s, rw st h)

  pub tick-Inv :
      (c : TripController F M) (r : Surroundings)
      → Inv Known Sound c
      → Returns (Inv Known Sound) (tick e c r)
  unfolding tick
  tick-Inv c r h = tick_in-Inv c.status.state c r refl h.0 h.1
