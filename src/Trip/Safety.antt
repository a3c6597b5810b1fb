-- ===== src/Trip/Safety.antt =====
-- What the commands of TripController.cc do to a trip that is under way.
use autoware_agent.Base.{
  ℕ, ◌≡◌, refl, ◌⊎◌, inl, inr, Bool, true, false, not, ◌∷◌, Option, none, some, Text, Bool-cases,
  if◌then◌else◌, if_both, subst, ap, ◌∙◌, List, ok, Ensures, Ensures->>=,
}
use autoware_agent.Decimal.{stoll}
use autoware_agent.Messages.{is_arrived, RouteState}
use autoware_agent.Geometry.{LaneInfo, Lanes}
use autoware_agent.Trip.State.{
  TripState, idle, engaging, driving_to_pickup, waiting_for_move, running, completed,
  dropoff_arrived, state_eq, HeldRoute, EtaQueryResult, Output, PoseMessage, initial_pose, answered,
  TripController, send, transition_to, enter, default_status, do_publish_goal,
}
use autoware_agent.Trip.Query.{answer_failure, fail_query}
use autoware_agent.Trip.Commands.{
  on_engage_response, start_held, start_trip, move_to, move_held, move,
}
use autoware_agent.Trip.Tick.{Surroundings, tick_running, tick_in, tick}
use autoware_agent.Trip.Phases.{state_eq_sound, state-transition_to}

-- No callback, or one call that says that the query failed.
abbrev pub Told : {F : Type 0} → Option ℕ → List (Output F) → List (Output F) → Type 0
Told none sent sent' = sent' ≡ sent
Told {F = F} (some k) sent sent' =
    (r : EtaQueryResult F) × (sent' ≡ answered k r ∷ sent) × (r.success ≡ false)

module _ {F M : Type 0} where
  -- Nothing or one pose was sent.
  abbrev pub OnlyPose : TripController F M → TripController F M → Type 0
  OnlyPose c c' = (c'.sent ≡ c.sent) ⊎ ((p : PoseMessage F) × (c'.sent ≡ initial_pose p ∷ c.sent))

  -- The answer 1 in ENGAGING enters the state that the flag of the leg names.
  pub engaged-enters :
      (c : TripController F M) (now : ℕ) (leg : Bool)
      → c.status.state ≡ engaging
      → c.engaging_for_pickup ≡ leg
      → on_engage_response c 1 now
        ≡ (if leg then transition_to c driving_to_pickup now else transition_to c running now)
  unfolding on_engage_response
  engaged-enters c now leg st flag =
      ap
        (λ (q : TripState).
          if state_eq q engaging
          then (if c.engaging_for_pickup
              then transition_to c driving_to_pickup now
              else transition_to c running now)
          else c)
        st
      ∙ ap
          (λ (b : Bool).
            if b then transition_to c driving_to_pickup now else transition_to c running now)
          flag

  transition_to-route_state :
      (c : TripController F M) (next : TripState) (now : ℕ)
      → (transition_to c next now).current_route_state ≡ c.current_route_state
  unfolding transition_to enter
  transition_to-route_state c next now =
      if_both (λ c'. c'.current_route_state ≡ c.current_route_state) (state_eq c.status.state next)
        c (enter c next now) refl refl

module _ {F M : Type 0} (e : Lanes F M) where
  -- A failed query ends in IDLE with both routes gone. Its callback, if there is one, is called
  -- once, with a result that is no success; nothing else is sent, so the change of the state is
  -- not told.
  pub fail_query-silent :
      (c : TripController F M) (reason : Text) (now : ℕ)
      → ((fail_query e c reason now).status.state ≡ idle)
        × ((fail_query e c reason now).pickup_route ≡ none)
        × ((fail_query e c reason now).trip_route ≡ none)
        × Told c.query_cb c.sent (fail_query e c reason now).sent
  unfolding fail_query transition_to default_status answer_failure send
  fail_query-silent c reason now = (refl, refl, refl, told c.query_cb)
    where
      told : (cb : Option ℕ) → Told cb c.sent (answer_failure e cb reason c).sent
      told none = refl
      told (some k) = (_, refl, refl)

  -- In ENGAGING for the trip leg with both routes held, a startTrip is refused, yet it turns the
  -- flag of the leg: the answer to the engagement then enters DRIVING_TO_PICKUP, where without the
  -- refused command it enters RUNNING.
  pub refused_start-turns_leg :
      (c : TripController F M) (held later : HeldRoute F) (now then' : ℕ)
      → c.status.state ≡ engaging
      → c.engaging_for_pickup ≡ false
      → c.pickup_route ≡ some held
      → c.trip_route ≡ some later
      → (c' : TripController F M) × (start_trip e c now ≡ ok (c', false))
        × ((on_engage_response c' 1 then').status.state ≡ driving_to_pickup)
        × ((on_engage_response c 1 then').status.state ≡ running)
  unfolding start_trip start_held on_engage_response
  refused_start-turns_leg c held later now then' st flag p t = (
    record c { engaging_for_pickup = true; current_route_state = none },
    rw (p, t, st) refl,
    ap (λ x. x.status.state) (engaged-enters _ then' true st refl)
        ∙ state-transition_to _ driving_to_pickup then',
    ap (λ x. x.status.state) (engaged-enters c then' false st flag)
        ∙ state-transition_to c running then',
  )

  -- What holds once a move is accepted.
  abbrev pub Moving : TripController F M → Type 0
  Moving c =
      (c.status.state ≡ engaging) × (c.engaging_for_pickup ≡ false) × (c.current_route_state ≡ none)

  transition_to-engaging :
      (c : TripController F M) (now : ℕ)
      → c.engaging_for_pickup ≡ false
      → c.current_route_state ≡ none
      → Moving (transition_to c engaging now)
  unfolding transition_to enter
  transition_to-engaging c now flag fresh = elim (Bool-cases (state_eq c.status.state engaging)) [
    | inl same ↦ rw same (state_eq_sound c.status.state engaging same, flag, fresh)
    | inr other ↦ rw other (refl, flag, fresh)
  ]

  abbrev Accepts : TripController F M × Bool → Type 0
  Accepts r = (r.1 ≡ true) → Moving r.0

  move-Accepts : (c : TripController F M) (now : ℕ) → Ensures Accepts (move e c now)
  unfolding move move_held move_to do_publish_goal send
  move-Accepts c now =
      if_both (Ensures Accepts) (not (state_eq c.status.state waiting_for_move)) (ok (c, false))
        (move_held e c c.trip_route now) (λ h. absurd (cc h)) (held c.trip_route)
    where
      found :
          (m : M) (h : HeldRoute F) (o : Option (LaneInfo F))
          → Accepts (move_to e (record c { lanelet_map = m }) h now o)
      found m h none = λ k. absurd (cc k)
      found m h (some l) = λ k. transition_to-engaging _ now refl refl

      held : (o : Option (HeldRoute F)) → Ensures Accepts (move_held e c o now)
      held none = λ h. absurd (cc h)
      held (some h) = Ensures->>= Accepts (stoll c.status.start_lanelet_id) _ (λ i.
          Ensures->>= Accepts (e.find_nearest_connected_lane c.lanelet_map h.goal_gps i true) _
            (λ f. found f.1 h f.0))

  running-waits :
      (c : TripController F M) (s : Surroundings)
      → c.status.state ≡ running
      → c.current_route_state ≡ none
      → tick e c s ≡ ok c
  unfolding tick tick_in tick_running
  running-waits c s st fresh =
      ap (λ (q : TripState). tick_in e q c s) st
      ∙ ap
          (λ (r : Option RouteState). ok (
            if is_arrived r
            then transition_to
                (record (if c.on_dropoff_arrived then send c dropoff_arrived else c) {
                  current_route_state = none;
                })
                completed s.now
            else c))
          fresh

  -- After a move that was accepted, the success of the engagement enters RUNNING, and a tick of
  -- the timer then changes nothing: an arrival that was seen before the move does not end the
  -- trip.
  pub accepted_move-waits :
      (c c' : TripController F M) (now then' : ℕ) (s : Surroundings)
      → move e c now ≡ ok (c', true)
      → ((on_engage_response c' 1 then').status.state ≡ running)
        × (tick e (on_engage_response c' 1 then') s ≡ ok (on_engage_response c' 1 then'))
  accepted_move-waits c c' now then' s h =
      let moving : Moving c' = subst (Ensures Accepts) h (move-Accepts c now) refl in
      let enters = engaged-enters c' then' false moving.0 moving.1 in
      let st = ap (λ x. x.status.state) enters ∙ state-transition_to c' running then' in
      (
        st,
        running-waits _ s st (
            ap (λ x. x.current_route_state) enters
            ∙ transition_to-route_state c' running then'
            ∙ moving.2),
      )
