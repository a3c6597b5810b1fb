-- ===== src/Trip/Diagram/Stages.antt =====
-- The stages of a trip: what goToPickup, the answer to the engagement and the timer do in the state
-- that awaits them.
use autoware_agent.Base.{
  List, ◌∷◌, ℕ, ◌≡◌, refl, inl, inr, sym, ap, ◌∙◌, subst, Bool, true, false, Option, none, Text,
  Returns, leb, arith, ◌≤◌, if◌then◌else◌, Bool-cases,
}
use autoware_agent.Messages.{is_unavailable, is_initialized, is_arrived}
use autoware_agent.Geometry.{Lanes}
use autoware_agent.Trip.State.{
  TripState, waiting_for_pickup_start, publishing_initial_pose, waiting_localisation, engaging,
  driving_to_pickup, waiting_for_move, running, completed, state_eq, HeldRoute, Output,
  TripController, pickup_arrived, dropoff_arrived, mode_request, engage_request, elapsed_ms, send,
  transition_to, enter, do_publish_initial_pose, do_publish_goal,
}
use autoware_agent.Trip.Commands.{on_mode_response, go_to_pickup, on_engage_response}
use autoware_agent.Trip.Tick.{
  Surroundings, tick_driving_to_pickup, tick_running, tick_pose, tick_localisation, tick_engaging,
  do_engage, tick_in, tick,
}
use autoware_agent.Trip.Phases.{state_eq_sound, state_eq_refl}
use autoware_agent.Trip.Safety.{engaged-enters}

-- What a trip takes along: the route of the trip, the map, and the lane it starts from.
pub record Luggage (F M : Type 0) : Type 0 where
  pub route : Option (HeldRoute F)
  pub lanes : M
  pub from : Text

abbrev pub luggage : {F M : Type 0} → TripController F M → Luggage F M
luggage c = record { route = c.trip_route; lanes = c.lanelet_map; from = c.status.start_lanelet_id }

-- The state, the flag of the leg and the luggage.
abbrev pub Mark : Type 0 → Type 0 → Type 0
Mark F M = TripState × Bool × Luggage F M

abbrev pub mark : {F M : Type 0} → TripController F M → Mark F M
mark c = (c.status.state, c.engaging_for_pickup, luggage c)

two_seconds :
    (now since : ℕ) → since ≡ 0 → 2000000000 ≤ now → leb 2000 (elapsed_ms now since) ≡ true
two_seconds now since last late = ground (arith, last, late)

module _ {F M : Type 0} where
  pub mark-transition_to :
      (c : TripController F M) (next : TripState) (now : ℕ)
      → mark (transition_to c next now) ≡ (next, c.engaging_for_pickup, luggage c)
  unfolding transition_to enter
  mark-transition_to c next now = elim (Bool-cases (state_eq c.status.state next)) [
    | inl same ↦ rw same (
        ap (λ (s : TripState). (s, c.engaging_for_pickup, luggage c))
          (state_eq_sound c.status.state next same))
    | inr other ↦ rw other refl
  ]

  -- The controller is in a state, with a flag and some luggage.
  abbrev pub At : TripState → Bool → Luggage F M → TripController F M → Type 0
  At s leg goal c = mark c ≡ (s, leg, goal)

  pub state-At :
      (c : TripController F M) (s : TripState) (leg : Bool) (goal : Luggage F M)
      → At s leg goal c
      → c.status.state ≡ s
  state-At c s leg goal at = ap (λ (k : Mark F M). k.0) at

  pub flag-At :
      (c : TripController F M) (s : TripState) (leg : Bool) (goal : Luggage F M)
      → At s leg goal c
      → c.engaging_for_pickup ≡ leg
  flag-At c s leg goal at = ap (λ (k : Mark F M). k.1) at

  -- A transition keeps the flag and the route.
  pub moved-At :
      (c : TripController F M) (s next : TripState) (leg : Bool) (goal : Luggage F M) (now : ℕ)
      → At s leg goal c
      → At next leg goal (transition_to c next now)
  moved-At c s next leg goal now at =
      mark-transition_to c next now ∙ ap (λ (k : Mark F M). (next, k.1, k.2)) at

  pub state_test :
      (c : TripController F M) (s : TripState)
      → c.status.state ≡ s
      → state_eq c.status.state s ≡ true
  state_test c s st = subst (λ (q : TripState). state_eq q s ≡ true) (sym st) (state_eq_refl s)

  pub go_to_pickup-At :
      (c : TripController F M) (goal : Luggage F M) (now : ℕ)
      → At waiting_for_pickup_start true goal c
      → At publishing_initial_pose true goal (go_to_pickup c now).0
  unfolding go_to_pickup
  go_to_pickup-At c goal now at =
      rw (state_test c waiting_for_pickup_start (state-At c waiting_for_pickup_start true goal at))
        (moved-At _ waiting_for_pickup_start publishing_initial_pose true goal now at)

  pub engage-At :
      (c : TripController F M) (leg : Bool) (goal : Luggage F M) (now : ℕ)
      → At engaging leg goal c
      → At (if leg then driving_to_pickup else running) leg goal (on_engage_response c 1 now)
  engage-At c leg goal now at =
      subst (At (if leg then driving_to_pickup else running) leg goal)
        (sym (
          engaged-enters c now leg (state-At c engaging leg goal at)
            (flag-At c engaging leg goal at)))
        (entered leg at)
    where
      entered :
          (l : Bool)
          → At engaging l goal c
          → At
              (if l then driving_to_pickup else running)
              l
              goal
              (if l then transition_to c driving_to_pickup now else transition_to c running now)
      entered true h = moved-At c engaging driving_to_pickup true goal now h
      entered false h = moved-At c engaging running false goal now h

  told-At :
      (announced : Bool) (o : Output F) (c : TripController F M) (s next : TripState) (leg : Bool)
      (goal : Luggage F M) (now : ℕ)
      → At s leg goal c
      → At next leg goal (
          transition_to
            (record (if announced then send c o else c) { current_route_state = none })
            next
            now)
  unfolding send
  told-At true o c s next leg goal now at = moved-At _ s next leg goal now at
  told-At false o c s next leg goal now at = moved-At _ s next leg goal now at

  -- The engagement is due, and the mode is available.
  abbrev pub Due : Bool → Luggage F M → TripController F M → Type 0
  Due leg goal c = At engaging leg goal c × (c.last_publish_time ≡ 0)

  abbrev pub Available : Bool → Luggage F M → TripController F M → Type 0
  Available leg goal c = Due leg goal c × (is_unavailable c.current_mode_state ≡ false)

  -- A request of the engagement is the newest output.
  abbrev pub Requested : Bool → Luggage F M → Output F → TripController F M → Type 0
  Requested leg goal request c =
      At engaging leg goal c × ((older : List (Output F)) × (c.sent ≡ request ∷ older))

  cleared :
      (c : TripController F M) (now : ℕ)
      → state_eq c.status.state engaging ≡ false
      → (transition_to c engaging now).last_publish_time ≡ 0
  unfolding transition_to enter
  cleared c now h = rw h refl

  -- Entering ENGAGING makes the engagement due.
  pub moved-Due :
      (c : TripController F M) (s : TripState) (leg : Bool) (goal : Luggage F M) (now : ℕ)
      → At s leg goal c
      → state_eq s engaging ≡ false
      → Due leg goal (transition_to c engaging now)
  moved-Due c s leg goal now at other = (
    moved-At c s engaging leg goal now at,
    cleared c now (
        subst (λ (q : TripState). state_eq q engaging ≡ false) (sym (state-At c s leg goal at))
          other),
  )

  -- The answer to the mode change asks for the engagement.
  pub on_mode_response-Requested :
      (c : TripController F M) (leg : Bool) (goal : Luggage F M)
      → At engaging leg goal c
      → Requested leg goal engage_request (on_mode_response c true)
  unfolding on_mode_response send
  on_mode_response-Requested c leg goal at = (at, (c.sent, refl))

  -- The route state that arrived last says ARRIVED.
  abbrev pub Arrives : TripState → Bool → Luggage F M → TripController F M → Type 0
  Arrives s leg goal c = At s leg goal c × (is_arrived c.current_route_state ≡ true)

  abbrev pub Localised : TripState → Bool → Luggage F M → TripController F M → Type 0
  Localised s leg goal c = At s leg goal c × (is_initialized c.current_loc_state ≡ true)

module _ {F M : Type 0} (e : Lanes F M) where
  -- A tick in a state that is known.
  tick-At :
      (Q : TripController F M → Type 0) (c : TripController F M) (r : Surroundings) (s : TripState)
      → c.status.state ≡ s
      → Returns Q (tick_in e s c r)
      → Returns Q (tick e c r)
  unfolding tick
  tick-At Q c r s st h = subst (λ (q : TripState). Returns Q (tick_in e q c r)) (sym st) h

  pub tick_to_pose :
      (c : TripController F M) (goal : Luggage F M) (r : Surroundings)
      → At publishing_initial_pose true goal c
      → Returns (At waiting_localisation true goal) (tick e c r)
  unfolding tick_in tick_pose do_publish_initial_pose send
  tick_to_pose c goal r at =
      tick-At (At waiting_localisation true goal) c r publishing_initial_pose
        (state-At c publishing_initial_pose true goal at)
        (moved-At _ publishing_initial_pose waiting_localisation true goal r.now at)

  pub tick_to_engaging :
      (c : TripController F M) (goal : Luggage F M) (r : Surroundings)
      → Localised waiting_localisation true goal c
      → Returns (Due true goal) (tick e c r)
  unfolding tick_in tick_localisation do_publish_goal send
  tick_to_engaging c goal r (at, yes_init) =
      tick-At (Due true goal) c r waiting_localisation
        (state-At c waiting_localisation true goal at)
        (rw yes_init (moved-Due _ waiting_localisation true goal r.now at refl))

  pub tick_to_pickup :
      (c : TripController F M) (goal : Luggage F M) (r : Surroundings)
      → Arrives driving_to_pickup true goal c
      → Returns (At waiting_for_move true goal) (tick e c r)
  unfolding tick_in tick_driving_to_pickup
  tick_to_pickup c goal r (at, there) =
      tick-At (At waiting_for_move true goal) c r driving_to_pickup
        (state-At c driving_to_pickup true goal at)
        (rw there (
          told-At c.on_pickup_arrived pickup_arrived c driving_to_pickup waiting_for_move true goal
            r.now at))

  pub tick_to_goal :
      (c : TripController F M) (goal : Luggage F M) (r : Surroundings)
      → Arrives running false goal c
      → Returns (At completed false goal) (tick e c r)
  unfolding tick_in tick_running
  tick_to_goal c goal r (at, there) =
      tick-At (At completed false goal) c r running (state-At c running false goal at) (
        rw there
          (told-At c.on_dropoff_arrived dropoff_arrived c running completed false goal r.now at))

  -- The engagement is tried once the services are ready, the mode is available, and the clock has
  -- run for two seconds.
  pub tick_to_request :
      (c : TripController F M) (leg : Bool) (goal : Luggage F M) (now : ℕ)
      → Available leg goal c
      → 2000000000 ≤ now
      → Returns
          (Requested leg goal mode_request)
          (tick e c (record { now = now; mode_service_ready = true; engage_service_ready = true }))
  unfolding tick_in tick_engaging do_engage send
  tick_to_request c leg goal now ((at, last), available) late =
      tick-At (Requested leg goal mode_request) c _ engaging (state-At c engaging leg goal at)
        (rw (two_seconds now c.last_publish_time last late, available) (at, (c.sent, refl)))
