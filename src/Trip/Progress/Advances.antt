-- ===== src/Trip/Progress/Advances.antt =====
-- A tick or a message that comes before the timeouts moves an ETA query on or leaves its clock.
use autoware_agent.Base.{
  Bool, ◌==◌, if◌then◌else◌, Text, Ensures-weaken, ℕ, ◌≤◌, ◌<◌, ◌≡◌, refl, ◌⊎◌, inl, inr, leb,
  Bool-cases, if_both, subst, arith, ok, Ensures,
}
use autoware_agent.Messages.{is_initialized, is_set}
use autoware_agent.Geometry.{Lanes}
use autoware_agent.Trip.State.{
  TripState, query_publishing_initial_pose, query_waiting_localisation, query_publishing_goal,
  query_waiting_route, query_reading_eta, TripController, elapsed_ms, send, zero_of,
  do_publish_initial_pose, do_publish_goal,
}
use autoware_agent.Trip.Query.{fail_query, finish_leg, finish_query_leg}
use autoware_agent.Trip.Tick.{
  Surroundings, tick_query_pose, tick_query_localisation, tick_query_goal, tick_query_route,
  tick_query_eta, tick_in, tick, publish_start_pose, publish_goal_pose, loc_timeout_reason,
  route_timeout_reason,
}
use autoware_agent.Trip.Progress.{
  rank, query_rank, Kept, Falls, leg_ranks, transition-Falls, fail_query-Falls, finish_leg-Falls,
}
use autoware_agent.Trip.State.{engaging, state_eq}
use autoware_agent.Trip.Commands.{
  inject_eta, on_route_received, on_loc_state, on_route_state, on_mode_state, set_current_gps,
  on_mode_response, on_engage_response,
}
use autoware_agent.Trip.Events.{
  Event, query, start, go_to, move_on, move_command, cancels, timer, loc_state, route_state,
  mode_state, route, eta, mode_answer, engage_answer, gps, step,
}
use autoware_agent.Trip.Phases.{state_eq_sound}

-- The timer and whatever comes from Autoware, as opposed to the commands.
abbrev pub Outside : {F : Type 0} → Event F → Type 0
Outside (query tf from to cb) = ⊥
Outside start = ⊥
Outside go_to = ⊥
Outside move_on = ⊥
Outside move_command = ⊥
Outside cancels = ⊥
Outside _ = Unit {0}

module _ {F M : Type 0} where
  -- The query stays where it is, and its clock runs on.
  abbrev pub Stays : TripController F M → TripController F M → Type 0
  Stays c c' =
      (query_rank c' ≡ query_rank c)
      × (c'.state_entered_at ≡ c.state_entered_at)
      × (c'.timings ≡ c.timings)

  abbrev pub Advances : TripController F M → ℕ → ℕ → TripController F M → Type 0
  Advances c now bound c' = Falls c now bound c' ⊎ Stays c c'

  resting : (c : TripController F M) → Stays c c
  resting c = (refl, refl, refl)

module _ {F M : Type 0} (e : Lanes F M) where
  -- A wait that fails once it is late, and may publish again before.
  waiting-Advances :
      (c published : TripController F M) (again late : Bool) (reason : Text) (now bound : ℕ)
      → c.state_entered_at ≤ now
      → 0 < bound
      → Kept c now published
      → Stays c published
      → Advances c now bound (
          let c' = if again then published else c in
          if late then fail_query e c' reason now else c')
  waiting-Advances c published again late reason now bound entered under_way kept same =
      if_both
        (λ (c' : TripController F M).
          Advances c now bound (if late then fail_query e c' reason now else c'))
        again published c (from published kept same) (from c (entered, refl) (resting c))
    where
      from :
          (c' : TripController F M)
          → Kept c now c'
          → Stays c c'
          → Advances c now bound (if late then fail_query e c' reason now else c')
      from c' k h =
          if_both (Advances c now bound) late (fail_query e c' reason now) c'
            (inl (fail_query-Falls e c c' reason now bound k under_way)) (inr h)

  tick_query_localisation-Advances :
      (c : TripController F M) (now bound : ℕ)
      → c.state_entered_at ≤ now
      → rank c.current_leg query_publishing_goal < bound
      → Advances c now bound (tick_query_localisation e c now)
  unfolding tick_query_localisation do_publish_initial_pose send
  tick_query_localisation-Advances c now bound entered h =
      elim (Bool-cases (is_initialized c.current_loc_state)) [
        | inl here ↦
            rw here (inl (transition-Falls c c query_publishing_goal now bound (entered, refl) h))
        | inr not_here ↦ rw not_here (
            waiting-Advances c (record (publish_start_pose e c now) { last_publish_time = now })
              (leb 1000 (elapsed_ms now c.last_publish_time))
              (leb c.timings.loc_timeout_ms (elapsed_ms now c.state_entered_at))
              (loc_timeout_reason e c) now bound entered (omega arith) (entered, refl)
              (refl, refl, refl))
      ]

  tick_query_route-Advances :
      (c : TripController F M) (now bound : ℕ)
      → c.state_entered_at ≤ now
      → rank c.current_leg query_reading_eta < bound
      → Advances c now bound (tick_query_route e c now)
  unfolding tick_query_route do_publish_goal send
  tick_query_route-Advances c now bound entered h =
      elim (Bool-cases (is_set c.current_route_state)) [
        | inl here ↦
            rw here (inl (transition-Falls c _ query_reading_eta now bound (entered, refl) h))
        | inr not_here ↦ rw not_here (
            waiting-Advances c (record (publish_goal_pose e c now) { last_publish_time = now })
              (leb 2000 (elapsed_ms now c.last_publish_time))
              (leb c.timings.route_timeout_ms (elapsed_ms now c.state_entered_at))
              (route_timeout_reason e c) now bound entered (omega arith) (entered, refl)
              (refl, refl, refl))
      ]

  tick_query_eta-Advances :
      (c : TripController F M) (now : ℕ)
      → c.state_entered_at ≤ now
      → Ensures (Advances c now (rank c.current_leg query_reading_eta)) (tick_query_eta e c now)
  unfolding tick_query_eta finish_query_leg
  tick_query_eta-Advances c now entered =
      let bound = rank c.current_leg query_reading_eta in
      if_both (Ensures (Advances c now bound)) c.eta_received (finish_query_leg e c now) _
        (falls c refl (entered, refl))
        (if_both (Ensures (Advances c now bound))
          (leb c.timings.eta_settle_ms (elapsed_ms now c.state_entered_at))
          (finish_query_leg e (record c { eta_distance_m = zero_of e; eta_seconds = zero_of e })
            now)
          (ok c)
          (falls (record c { eta_distance_m = zero_of e; eta_seconds = zero_of e }) refl
            (entered, refl))
          (inr (resting c)))
    where
      falls :
          (c' : TripController F M)
          → c'.current_leg ≡ c.current_leg
          → Kept c now c'
          → Ensures
              (Advances c now (rank c.current_leg query_reading_eta))
              (finish_leg e c.current_leg c' now)
      falls c' same k =
          Ensures-weaken (Falls c now (rank c.current_leg query_reading_eta))
            (Advances c now (rank c.current_leg query_reading_eta))
            (finish_leg e c.current_leg c' now) (λ c'' h. inl h)
            (finish_leg-Falls e c c' c.current_leg now k same)

  tick_in-Advances :
      (st : TripState) (c : TripController F M) (s : Surroundings)
      → c.state_entered_at ≤ s.now
      → 0 < rank c.current_leg st
      → Ensures (Advances c s.now (rank c.current_leg st)) (tick_in e st c s)
  unfolding tick_in tick_query_pose tick_query_goal do_publish_initial_pose do_publish_goal send
  tick_in-Advances query_publishing_initial_pose c s entered h = inl (
      transition-Falls c _ query_waiting_localisation s.now _ (entered, refl)
        (omega (arith, leg_ranks c.current_leg)))
  tick_in-Advances query_waiting_localisation c s entered h =
      tick_query_localisation-Advances c s.now _ entered (omega (arith, leg_ranks c.current_leg))
  tick_in-Advances query_publishing_goal c s entered h = inl (
      transition-Falls c _ query_waiting_route s.now _ (entered, refl)
        (omega (arith, leg_ranks c.current_leg)))
  tick_in-Advances query_waiting_route c s entered h =
      tick_query_route-Advances c s.now _ entered (omega (arith, leg_ranks c.current_leg))
  tick_in-Advances query_reading_eta c s entered h = tick_query_eta-Advances c s.now entered
  tick_in-Advances _ c s entered h = absurd (omega arith)

  -- An engagement is none of a query's states.
  on_engage_response-Stays :
      (c : TripController F M) (code now : ℕ)
      → 0 < query_rank c
      → Stays c (on_engage_response c code now)
  unfolding on_engage_response
  on_engage_response-Stays c code now under_way =
      elim (Bool-cases (state_eq c.status.state engaging)) [
        | inl same ↦ absurd (
            not_engaging (
              subst (λ (q : TripState). 0 < rank c.current_leg q)
                (state_eq_sound c.status.state engaging same) under_way))
        | inr other ↦ rw other (if_both (Stays c) (code == 1) c c (resting c) (resting c))
      ]
    where
      not_engaging : 0 < rank c.current_leg engaging → ⊥
      not_engaging h = omega (arith, h)

  -- In a query, the timer and the messages move it on or leave its clock.
  pub step-Advances :
      (c : TripController F M) (now : ℕ) (ev : Event F)
      → Outside ev
      → c.state_entered_at ≤ now
      → 0 < query_rank c
      → Ensures (Advances c now (query_rank c)) (step e c now ev)
  unfolding step tick on_route_received on_loc_state on_route_state on_mode_state set_current_gps
      inject_eta on_mode_response send
  step-Advances c now (timer mode engage) o entered h =
      tick_in-Advances c.status.state c _ entered h
  step-Advances c now (loc_state m) o entered h = inr (resting c)
  step-Advances c now (route_state m) o entered h = inr (resting c)
  step-Advances c now (mode_state m) o entered h = inr (resting c)
  step-Advances c now (route m) o entered h = inr (resting c)
  step-Advances c now (eta d t) o entered h =
      if_both (Advances c now (query_rank c)) _ c _ (inr (resting c)) (inr (resting c))
  step-Advances c now (mode_answer b) o entered h =
      if_both (Advances c now (query_rank c)) b _ c (inr (resting c)) (inr (resting c))
  step-Advances c now (engage_answer code) o entered h = inr (on_engage_response-Stays c code now h)
  step-Advances c now (gps g) o entered h = inr (resting c)
  step-Advances c now (query tf from to cb) o entered h = absurd o
  step-Advances c now start o entered h = absurd o
  step-Advances c now go_to o entered h = absurd o
  step-Advances c now move_on o entered h = absurd o
  step-Advances c now move_command o entered h = absurd o
  step-Advances c now cancels o entered h = absurd o
