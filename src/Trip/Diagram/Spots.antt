-- ===== src/Trip/Diagram/Spots.antt =====
-- The state diagram of a trip: the states, with the flag that tells for which leg ENGAGING engages,
-- and where each kind of event may lead. It knows nothing of lanes, poses, routes and clocks.
use autoware_agent.Base.{
  ℕ, ◌≡◌, refl, inl, inr, Bool, true, false, List, [], ◌∷◌, ap, Bool-cases, if◌then◌else◌, Any,
}
use autoware_agent.Trip.State.{
  TripState, idle, initializing_in_map, query_publishing_initial_pose, query_waiting_localisation,
  query_publishing_goal, query_waiting_route, query_reading_eta, routes_ready,
  waiting_for_pickup_start, publishing_initial_pose, waiting_localisation, engaging,
  driving_to_pickup, waiting_for_move, running, completed, failed, state_eq, TripController, enter,
  transition_to,
}
use autoware_agent.Trip.Events.{
  Event, query, start, go_to, move_on, move_command, cancels, timer, loc_state, route_state,
  mode_state, route, eta, mode_answer, engage_answer, gps,
}
use autoware_agent.Trip.Phases.{state_eq_sound}

-- The state, and whether an engagement is one for the pickup leg.
abbrev pub Spot : Type 0
Spot = TripState × Bool

abbrev pub spot : {F M : Type 0} → TripController F M → Spot
spot c = (c.status.state, c.engaging_for_pickup)

-- The kinds of event. What a message brings, apart from the answer to the engagement, is heard and
-- moves nothing.
pub data Kind : Type 0 where
  asked started gone moved commanded withdrawn ticked engaged heard : Kind

abbrev pub kind : {F : Type 0} → Event F → Kind
kind (query tf from to cb) = asked
kind start = started
kind go_to = gone
kind move_on = moved
kind move_command = commanded
kind cancels = withdrawn
kind (timer mode engage) = ticked
kind (loc_state m) = heard
kind (route_state m) = heard
kind (mode_state m) = heard
kind (route m) = heard
kind (eta d t) = heard
kind (mode_answer b) = heard
kind (engage_answer code) = engaged
kind (gps g) = heard

abbrev pub asked_in : TripState → List TripState
asked_in idle = idle ∷ query_publishing_initial_pose ∷ []
asked_in s = s ∷ []

abbrev pub started_in : TripState → List TripState
started_in routes_ready = routes_ready ∷ waiting_for_pickup_start ∷ failed ∷ []
started_in s = s ∷ []

abbrev pub gone_in : TripState → List TripState
gone_in waiting_for_pickup_start = publishing_initial_pose ∷ []
gone_in s = s ∷ []

abbrev pub moved_in : TripState → Bool → List Spot
moved_in waiting_for_move leg = (failed, leg) ∷ (engaging, false) ∷ []
moved_in s leg = (s, leg) ∷ []

-- A move command goes to the pickup or moves on, whichever the state awaits.
abbrev pub commanded_in : TripState → Bool → List Spot
commanded_in waiting_for_pickup_start leg = (publishing_initial_pose, leg) ∷ []
commanded_in s leg = moved_in s leg

abbrev pub ticked_in : TripState → List TripState
ticked_in initializing_in_map = initializing_in_map ∷ idle ∷ []
ticked_in query_publishing_initial_pose = query_waiting_localisation ∷ []
ticked_in query_waiting_localisation =
    query_waiting_localisation ∷ idle ∷ query_publishing_goal ∷ []
ticked_in query_publishing_goal = query_waiting_route ∷ []
ticked_in query_waiting_route = query_waiting_route ∷ idle ∷ query_reading_eta ∷ []
ticked_in query_reading_eta =
    idle ∷ query_publishing_initial_pose ∷ query_reading_eta ∷ routes_ready ∷ []
ticked_in publishing_initial_pose = waiting_localisation ∷ []
ticked_in waiting_localisation = waiting_localisation ∷ engaging ∷ []
ticked_in driving_to_pickup = driving_to_pickup ∷ waiting_for_move ∷ []
ticked_in running = running ∷ completed ∷ []
ticked_in s = s ∷ []

abbrev pub engaged_in : TripState → Bool → List TripState
engaged_in engaging leg = engaging ∷ (if leg then driving_to_pickup else running) ∷ []
engaged_in s leg = s ∷ []

-- One of the states is entered, with the flag as given.
abbrev pub Among : List TripState → Bool → Spot → Type 0
Among states leg b = Any (λ t. b ≡ (t, leg)) states

abbrev pub Moves : Kind → TripState → Bool → Spot → Type 0
Moves asked s leg b = Among (asked_in s) leg b
Moves started s leg b = Among (started_in s) true b
Moves gone s leg b = Among (gone_in s) leg b
Moves moved s leg b = Any (λ t. b ≡ t) (moved_in s leg)
Moves commanded s leg b = Any (λ t. b ≡ t) (commanded_in s leg)
Moves withdrawn s leg b = b ≡ (idle, false)
Moves ticked s leg b = Among (ticked_in s) leg b
Moves engaged s leg b = Among (engaged_in s leg) leg b
Moves heard s leg b = b ≡ (s, leg)

-- A path through the diagram under a list of kinds of event.
abbrev pub Trace : List Kind → Spot → Spot → Type 0
Trace [] a b = b ≡ a
Trace (k ∷ ks) a b = (m : Spot) × Moves k a.0 a.1 m × Trace ks m b

-- A transition keeps the flag.
pub spot-transition_to :
    {F M : Type 0} (c : TripController F M) (next : TripState) (now : ℕ)
    → spot (transition_to c next now) ≡ (next, c.engaging_for_pickup)
unfolding transition_to enter
spot-transition_to c next now = elim (Bool-cases (state_eq c.status.state next)) [
  | inl same ↦
      rw same (
        ap (λ (s : TripState). (s, c.engaging_for_pickup))
          (state_eq_sound c.status.state next same))
  | inr other ↦ rw other refl
]
