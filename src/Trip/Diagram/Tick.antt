-- ===== src/Trip/Diagram/Tick.antt =====
-- Where the timer leads in the state diagram.
use autoware_agent.Base.{
  ℕ, ◌≡◌, refl, inl, inr, Bool, true, false, not, leb, Text, ap, ◌∙◌, Bool-cases, ok, Ensures,
  if◌then◌else◌, if_both, ◌||◌, ◌∷◌, none, [],
}
use autoware_agent.Messages.{is_initialized, is_set, is_arrived, is_unavailable}
use autoware_agent.Geometry.{Lanes}
use autoware_agent.Trip.State.{
  TripState, idle, initializing_in_map, query_publishing_initial_pose, query_waiting_localisation,
  query_publishing_goal, query_waiting_route, query_reading_eta, publishing_initial_pose,
  waiting_localisation, engaging, driving_to_pickup, waiting_for_move, running, completed,
  TripController, zero_of, Output, mode_request, pickup_arrived, dropoff_arrived, elapsed_ms, send,
  transition_to, do_publish_initial_pose, do_publish_goal,
}
use autoware_agent.Trip.Query.{fail_query}
use autoware_agent.Trip.Tick.{
  Surroundings, do_engage, tick_engaging, tick_driving_to_pickup, tick_running, tick_initializing,
  tick_query_pose, tick_query_localisation, tick_query_goal, tick_query_route, tick_query_eta,
  tick_pose, tick_localisation, tick_in, tick, loc_timeout_reason, route_timeout_reason,
}
use autoware_agent.Trip.Diagram.Spots.{Spot, spot, Moves, Among, ticked, spot-transition_to}
use autoware_agent.Trip.Diagram.Query.{spot-fail_query, finish_query_leg-AtLegEnd}

module _ {F M : Type 0} where
  -- The moves of the timer from a state, with the flag of a controller.
  abbrev Goes : TripState → Bool → TripController F M → Type 0
  Goes s leg c = Moves ticked s leg (spot c)

  stays :
      (c : TripController F M) (s : TripState)
      → c.status.state ≡ s
      → spot c ≡ (s, c.engaging_for_pickup)
  stays c s st = ap (λ (q : TripState). (q, c.engaging_for_pickup)) st

  spot-do_engage : (c : TripController F M) (r : Surroundings) → spot (do_engage c r) ≡ spot c
  unfolding do_engage send
  spot-do_engage c r =
      if_both (λ c'. spot c' ≡ spot c) (not r.mode_service_ready || not r.engage_service_ready) c _
        refl
        (if_both (λ c'. spot c' ≡ spot c) (is_unavailable c.current_mode_state) c
          (record c { sent = mode_request ∷ c.sent }) refl refl)

  tick_engaging-Goes :
      (c : TripController F M) (r : Surroundings)
      → c.status.state ≡ engaging
      → Goes engaging c.engaging_for_pickup (tick_engaging c r)
  unfolding tick_engaging
  tick_engaging-Goes c r st =
      if_both (Goes engaging c.engaging_for_pickup)
        (leb 2000 (elapsed_ms r.now c.last_publish_time))
        (record (do_engage c r) { last_publish_time = r.now }) c
        (inl (spot-do_engage c r ∙ stays c engaging st)) (inl (stays c engaging st))

  spot-arrive :
      (announced : Bool) (o : Output F) (c : TripController F M) (next : TripState) (now : ℕ)
      → spot (
          transition_to
            (record (if announced then send c o else c) { current_route_state = none })
            next
            now)
        ≡ (next, c.engaging_for_pickup)
  unfolding send
  spot-arrive true o c next now = spot-transition_to _ next now
  spot-arrive false o c next now = spot-transition_to _ next now

  tick_driving_to_pickup-Goes :
      (c : TripController F M) (now : ℕ)
      → c.status.state ≡ driving_to_pickup
      → Goes driving_to_pickup c.engaging_for_pickup (tick_driving_to_pickup c now)
  unfolding tick_driving_to_pickup
  tick_driving_to_pickup-Goes c now st =
      if_both (Goes driving_to_pickup c.engaging_for_pickup) (is_arrived c.current_route_state) _ c
        (inr (inl (spot-arrive c.on_pickup_arrived pickup_arrived c waiting_for_move now)))
        (inl (stays c driving_to_pickup st))

  tick_running-Goes :
      (c : TripController F M) (now : ℕ)
      → c.status.state ≡ running
      → Goes running c.engaging_for_pickup (tick_running c now)
  unfolding tick_running
  tick_running-Goes c now st =
      if_both (Goes running c.engaging_for_pickup) (is_arrived c.current_route_state) _ c
        (inr (inl (spot-arrive c.on_dropoff_arrived dropoff_arrived c completed now)))
        (inl (stays c running st))

module _ {F M : Type 0} (e : Lanes F M) where
  -- A wait for the localisation publishes its pose again, or does nothing.
  waits :
      (s : TripState) (c published : TripController F M) (again : Bool)
      → spot c ≡ (s, c.engaging_for_pickup)
      → spot published ≡ (s, c.engaging_for_pickup)
      → spot (if again then published else c) ≡ (s, c.engaging_for_pickup)
  waits s c published again h k =
      if_both (λ c'. spot c' ≡ (s, c.engaging_for_pickup)) again published c k h

  tick_initializing-Goes :
      (c : TripController F M) (now : ℕ)
      → c.status.state ≡ initializing_in_map
      → Goes initializing_in_map c.engaging_for_pickup (tick_initializing e c now)
  unfolding tick_initializing do_publish_initial_pose send
  tick_initializing-Goes c now st = elim (Bool-cases (is_initialized c.current_loc_state)) [
    | inl yes_init ↦ rw yes_init (inr (inl (spot-transition_to c idle now)))
    | inr not_init ↦ rw not_init (
        inl (
          waits initializing_in_map c _ (leb 1000 (elapsed_ms now c.last_publish_time))
            (stays c initializing_in_map st) (stays c initializing_in_map st)))
  ]

  -- A wait of a query that is late fails it.
  waits_or_fails :
      (s next : TripState) (c c' : TripController F M) (late : Bool) (reason : Text) (now : ℕ)
      → spot c' ≡ (s, c.engaging_for_pickup)
      → Among
          (s ∷ idle ∷ next ∷ [])
          c.engaging_for_pickup
          (spot (if late then fail_query e c' reason now else c'))
  waits_or_fails s next c c' true reason now h =
      inr (inl (spot-fail_query e c' reason now ∙ ap (λ (b : Spot). (idle, b.1)) h))
  waits_or_fails s next c c' false reason now h = inl h

  tick_query_localisation-Goes :
      (c : TripController F M) (now : ℕ)
      → c.status.state ≡ query_waiting_localisation
      → Goes query_waiting_localisation c.engaging_for_pickup (tick_query_localisation e c now)
  unfolding tick_query_localisation do_publish_initial_pose send
  tick_query_localisation-Goes c now st = elim (Bool-cases (is_initialized c.current_loc_state)) [
    | inl yes_init ↦ rw yes_init (inr (inr (inl (spot-transition_to c query_publishing_goal now))))
    | inr not_init ↦ rw not_init (
        waits_or_fails query_waiting_localisation query_publishing_goal c _
          (leb c.timings.loc_timeout_ms (elapsed_ms now c.state_entered_at))
          (loc_timeout_reason e c) now
          (waits query_waiting_localisation c _ (leb 1000 (elapsed_ms now c.last_publish_time))
            (stays c query_waiting_localisation st) (stays c query_waiting_localisation st)))
  ]

  tick_query_route-Goes :
      (c : TripController F M) (now : ℕ)
      → c.status.state ≡ query_waiting_route
      → Goes query_waiting_route c.engaging_for_pickup (tick_query_route e c now)
  unfolding tick_query_route do_publish_goal send
  tick_query_route-Goes c now st = elim (Bool-cases (is_set c.current_route_state)) [
    | inl yes_set ↦ rw yes_set (inr (inr (inl (spot-transition_to _ query_reading_eta now))))
    | inr not_set ↦ rw not_set (
        waits_or_fails query_waiting_route query_reading_eta c _
          (leb c.timings.route_timeout_ms (elapsed_ms now c.state_entered_at))
          (route_timeout_reason e c) now
          (waits query_waiting_route c _ (leb 2000 (elapsed_ms now c.last_publish_time))
            (stays c query_waiting_route st) (stays c query_waiting_route st)))
  ]

  tick_query_eta-Goes :
      (c : TripController F M) (now : ℕ)
      → c.status.state ≡ query_reading_eta
      → Ensures (Goes query_reading_eta c.engaging_for_pickup) (tick_query_eta e c now)
  unfolding tick_query_eta
  tick_query_eta-Goes c now st =
      if_both (Ensures (Goes query_reading_eta c.engaging_for_pickup)) c.eta_received _ _
        (finish_query_leg-AtLegEnd e c now)
        (if_both (Ensures (Goes query_reading_eta c.engaging_for_pickup))
          (leb c.timings.eta_settle_ms (elapsed_ms now c.state_entered_at)) _ (ok c)
          (finish_query_leg-AtLegEnd e
            (record c { eta_distance_m = zero_of e; eta_seconds = zero_of e }) now)
          (inr (inr (inl (stays c query_reading_eta st)))))

  tick_localisation-Goes :
      (c : TripController F M) (now : ℕ)
      → c.status.state ≡ waiting_localisation
      → Goes waiting_localisation c.engaging_for_pickup (tick_localisation e c now)
  unfolding tick_localisation do_publish_initial_pose do_publish_goal send
  tick_localisation-Goes c now st = elim (Bool-cases (is_initialized c.current_loc_state)) [
    | inl yes_init ↦ rw yes_init (inr (inl (spot-transition_to _ engaging now)))
    | inr not_init ↦ rw not_init (
        inl (
          waits waiting_localisation c _ (leb 1000 (elapsed_ms now c.last_publish_time))
            (stays c waiting_localisation st) (stays c waiting_localisation st)))
  ]

  tick_in-Goes :
      (s : TripState) (c : TripController F M) (r : Surroundings)
      → c.status.state ≡ s
      → Ensures (Goes s c.engaging_for_pickup) (tick_in e s c r)
  unfolding tick_in tick_query_pose tick_query_goal tick_pose do_publish_initial_pose
      do_publish_goal send
  tick_in-Goes initializing_in_map c r st = tick_initializing-Goes c r.now st
  tick_in-Goes query_publishing_initial_pose c r st =
      inl (spot-transition_to _ query_waiting_localisation r.now)
  tick_in-Goes query_waiting_localisation c r st = tick_query_localisation-Goes c r.now st
  tick_in-Goes query_publishing_goal c r st = inl (spot-transition_to _ query_waiting_route r.now)
  tick_in-Goes query_waiting_route c r st = tick_query_route-Goes c r.now st
  tick_in-Goes query_reading_eta c r st = tick_query_eta-Goes c r.now st
  tick_in-Goes publishing_initial_pose c r st =
      inl (spot-transition_to _ waiting_localisation r.now)
  tick_in-Goes waiting_localisation c r st = tick_localisation-Goes c r.now st
  tick_in-Goes engaging c r st = tick_engaging-Goes c r st
  tick_in-Goes driving_to_pickup c r st = tick_driving_to_pickup-Goes c r.now st
  tick_in-Goes running c r st = tick_running-Goes c r.now st
  tick_in-Goes s c r st = inl (stays c s st)

  pub tick-Moves :
      (c : TripController F M) (r : Surroundings)
      → Ensures (λ c'. Moves ticked c.status.state c.engaging_for_pickup (spot c')) (tick e c r)
  unfolding tick
  tick-Moves c r = tick_in-Goes c.status.state c r refl
