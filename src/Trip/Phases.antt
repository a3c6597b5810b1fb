-- ===== src/Trip/Phases.antt =====
-- The phases of a trip, and what holds in each of them between two events.
use autoware_agent.Base.{
  ℕ, ◌≡◌, refl, sym, inl, inr, Bool, true, false, Option, none, some, Text, Bool-cases, ℤ, subst,
  arith,
}
use autoware_agent.Decimal.{to_string}
use autoware_agent.Trip.State.{
  TripState, idle, initializing_in_map, query_publishing_initial_pose, query_waiting_localisation,
  query_publishing_goal, query_waiting_route, query_reading_eta, routes_ready,
  waiting_for_pickup_start, publishing_initial_pose, waiting_localisation, engaging,
  driving_to_pickup, waiting_for_move, running, completed, cancelled, failed, state_eq, HeldRoute,
  QueryLeg, pickup, trip, TripController, enter, transition_to,
}

pub data Phase : Type 0 where
  resting asking ready under_way over unused : Phase

abbrev pub phase : TripState → Phase
phase idle = resting
phase initializing_in_map = resting
phase query_publishing_initial_pose = asking
phase query_waiting_localisation = asking
phase query_publishing_goal = asking
phase query_waiting_route = asking
phase query_reading_eta = asking
phase routes_ready = ready
phase waiting_for_pickup_start = under_way
phase publishing_initial_pose = under_way
phase waiting_localisation = under_way
phase engaging = under_way
phase driving_to_pickup = under_way
phase waiting_for_move = under_way
phase running = under_way
phase completed = over
phase cancelled = unused
phase failed = over

-- The members that the invariant speaks of.
pub record Facts (F : Type 0) : Type 0 where
  pub start_id : Text
  pub goal_id : Text
  pub querying : Bool
  pub leg : QueryLeg
  pub cb : Option ℕ
  pub pickup_route : Option (HeldRoute F)
  pub trip_route : Option (HeldRoute F)

abbrev pub facts : {F M : Type 0} → TripController F M → Facts F
facts c = record {
  start_id = c.status.start_lanelet_id;
  goal_id = c.status.goal_lanelet_id;
  querying = c.querying;
  leg = c.current_leg;
  cb = c.query_cb;
  pickup_route = c.pickup_route;
  trip_route = c.trip_route;
}

pub state_eq_sound : (a b : TripState) → state_eq a b ≡ true → a ≡ b
state_eq_sound idle b h = ground arith
state_eq_sound _ b h = ground arith

pub state_eq_refl : (a : TripState) → state_eq a a ≡ true
state_eq_refl idle = refl
state_eq_refl _ = refl

-- The text of a lane id of the map.
abbrev pub IsLaneText : (ℤ → Type 0) → Text → Type 0
IsLaneText Known t = (i : ℤ) × Known i × (t ≡ to_string i)

abbrev pub HoldsLane : {F : Type 0} → (ℤ → Type 0) → Option (HeldRoute F) → Type 0
HoldsLane Known none = ⊥
HoldsLane Known (some h) = Known h.goal_lane_id

abbrev pub HasValue {ℓ} : {A : Type ℓ} → Option A → Type 0
HasValue none = ⊥
HasValue (some a) = Unit {0}

-- On the trip leg the pickup leg's route is in the bank.
abbrev pub LegHolds : {F : Type 0} → (ℤ → Type 0) → QueryLeg → Option (HeldRoute F) → Type 0
LegHolds Known pickup r = Unit {0}
LegHolds Known trip r = HoldsLane Known r

abbrev pub Quiet : {F : Type 0} → Facts F → Type 0
Quiet f = (f.querying ≡ false) × (f.cb ≡ none)

abbrev pub InPhase : {F : Type 0} → (ℤ → Type 0) → Phase → Facts F → Type 0
InPhase Known resting f = Quiet f × (f.pickup_route ≡ none) × (f.trip_route ≡ none)
InPhase Known asking f =
    (f.querying ≡ true)
    × IsLaneText Known f.start_id
    × IsLaneText Known f.goal_id
    × LegHolds Known f.leg f.pickup_route
InPhase Known ready f = Quiet f × HoldsLane Known f.pickup_route × HasValue f.trip_route
InPhase Known under_way f = Quiet f × IsLaneText Known f.start_id × HasValue f.trip_route
InPhase Known over f = Quiet f
InPhase Known unused f = ⊥

-- The invariant: the map is sound, and the members suit the phase of the state.
abbrev pub Inv : {F M : Type 0} → (ℤ → Type 0) → (M → Type 0) → TripController F M → Type 0
Inv Known Sound c = Sound c.lanelet_map × InPhase Known (phase c.status.state) (facts c)

module _ {F M : Type 0} (Known : ℤ → Type 0) (Sound : M → Type 0) where
  -- A transition needs what holds in the phase that it enters.
  pub transition_to-Inv :
      (c : TripController F M) (next : TripState) (now : ℕ)
      → Sound c.lanelet_map
      → InPhase Known (phase next) (facts c)
      → Inv Known Sound (transition_to c next now)
  unfolding transition_to enter
  transition_to-Inv c next now s h = elim (Bool-cases (state_eq c.status.state next)) [
    | inl same ↦ rw same (
      s,
      subst (λ st. InPhase Known (phase st) (facts c))
          (sym (state_eq_sound c.status.state next same)) h,
    )
    | inr other ↦ rw other (s, h)
  ]

pub state-transition_to :
    {F M : Type 0} (c : TripController F M) (next : TripState) (now : ℕ)
    → (transition_to c next now).status.state ≡ next
unfolding transition_to enter
state-transition_to c next now = elim (Bool-cases (state_eq c.status.state next)) [
  | inl same ↦ rw same (state_eq_sound c.status.state next same)
  | inr other ↦ rw other
]
