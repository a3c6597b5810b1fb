-- ===== src/Trip/Progress/Late.antt =====
-- A tick that comes after the timeouts moves an ETA query on.
use autoware_agent.Base.{
  ℕ, ◌≤◌, ◌<◌, ◌≡◌, refl, inl, inr, true, leb, Bool-cases, if_both, arith, Ensures,
}
use autoware_agent.Messages.{is_initialized, is_set}
use autoware_agent.Geometry.{Lanes}
use autoware_agent.Trip.State.{
  TripState, query_publishing_initial_pose, query_waiting_localisation, query_publishing_goal,
  query_waiting_route, query_reading_eta, TripController, elapsed_ms, send, zero_of,
  do_publish_initial_pose, do_publish_goal,
}
use autoware_agent.Trip.Query.{fail_query, finish_query_leg}
use autoware_agent.Trip.Tick.{
  Surroundings, tick_query_pose, tick_query_localisation, tick_query_goal, tick_query_route,
  tick_query_eta, tick_in, publish_start_pose, publish_goal_pose, loc_timeout_reason,
  route_timeout_reason,
}
use autoware_agent.Trip.Progress.{
  rank, Falls, leg_ranks, transition-Falls, fail_query-Falls, finish_leg-Falls,
}

module _ {F M : Type 0} (e : Lanes F M) where
  -- Every wait of the query has reached its bound.
  abbrev pub Late : TripController F M → ℕ → Type 0
  Late c now =
      (c.state_entered_at ≤ now)
      × (leb c.timings.loc_timeout_ms (elapsed_ms now c.state_entered_at) ≡ true)
      × (leb c.timings.route_timeout_ms (elapsed_ms now c.state_entered_at) ≡ true)
      × (leb c.timings.eta_settle_ms (elapsed_ms now c.state_entered_at) ≡ true)

  tick_query_localisation-Falls :
      (c : TripController F M) (now bound : ℕ)
      → Late c now
      → rank c.current_leg query_publishing_goal < bound
      → Falls c now bound (tick_query_localisation e c now)
  unfolding tick_query_localisation do_publish_initial_pose send
  tick_query_localisation-Falls c now bound late h =
      elim (Bool-cases (is_initialized c.current_loc_state)) [
        | inl here ↦ rw here (transition-Falls c c query_publishing_goal now bound (late.0, refl) h)
        | inr not_here ↦
            rw (not_here, late.1)
              (if_both (λ c'. Falls c now bound (fail_query e c' (loc_timeout_reason e c) now))
                (leb 1000 (elapsed_ms now c.last_publish_time))
                (record (publish_start_pose e c now) { last_publish_time = now }) c
                (fail_query-Falls e c _ _ now bound (late.0, refl) (omega arith))
                (fail_query-Falls e c c _ now bound (late.0, refl) (omega arith)))
      ]

  tick_query_route-Falls :
      (c : TripController F M) (now bound : ℕ)
      → Late c now
      → rank c.current_leg query_reading_eta < bound
      → Falls c now bound (tick_query_route e c now)
  unfolding tick_query_route do_publish_goal send
  tick_query_route-Falls c now bound late h = elim (Bool-cases (is_set c.current_route_state)) [
    | inl here ↦ rw here (transition-Falls c _ query_reading_eta now bound (late.0, refl) h)
    | inr not_here ↦
        rw (not_here, late.2)
          (if_both (λ c'. Falls c now bound (fail_query e c' (route_timeout_reason e c) now))
            (leb 2000 (elapsed_ms now c.last_publish_time))
            (record (publish_goal_pose e c now) { last_publish_time = now }) c
            (fail_query-Falls e c _ _ now bound (late.0, refl) (omega arith))
            (fail_query-Falls e c c _ now bound (late.0, refl) (omega arith)))
  ]

  tick_query_eta-Falls :
      (c : TripController F M) (now : ℕ)
      → Late c now
      → Ensures (Falls c now (rank c.current_leg query_reading_eta)) (tick_query_eta e c now)
  unfolding tick_query_eta finish_query_leg
  tick_query_eta-Falls c now late = rw (late.3) (
      if_both (Ensures (Falls c now (rank c.current_leg query_reading_eta))) c.eta_received
        (finish_query_leg e c now)
        (finish_query_leg e (record c { eta_distance_m = zero_of e; eta_seconds = zero_of e }) now)
        (finish_leg-Falls e c c c.current_leg now (late.0, refl) refl)
        (finish_leg-Falls e c _ c.current_leg now (late.0, refl) refl))

  -- A late tick in a state of a query moves the query on.
  pub tick_in-Falls :
      (st : TripState) (c : TripController F M) (s : Surroundings)
      → Late c s.now
      → 0 < rank c.current_leg st
      → Ensures (Falls c s.now (rank c.current_leg st)) (tick_in e st c s)
  unfolding tick_in tick_query_pose tick_query_goal do_publish_initial_pose do_publish_goal send
  tick_in-Falls query_publishing_initial_pose c s late h =
      transition-Falls c _ query_waiting_localisation s.now _ (late.0, refl)
        (omega (arith, leg_ranks c.current_leg))
  tick_in-Falls query_waiting_localisation c s late h =
      tick_query_localisation-Falls c s.now _ late (omega (arith, leg_ranks c.current_leg))
  tick_in-Falls query_publishing_goal c s late h =
      transition-Falls c _ query_waiting_route s.now _ (late.0, refl)
        (omega (arith, leg_ranks c.current_leg))
  tick_in-Falls query_waiting_route c s late h =
      tick_query_route-Falls c s.now _ late (omega (arith, leg_ranks c.current_leg))
  tick_in-Falls query_reading_eta c s late h = tick_query_eta-Falls c s.now late
  tick_in-Falls _ c s late h = absurd (omega arith)
