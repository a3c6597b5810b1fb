-- ===== src/Planning/Latest.antt =====
-- What a frame of PlanningBridge shows: of each kind of message the last one.
use autoware_agent.Base.{
  ℕ, Text, codes, subst, ◌≡◌, refl, sym, ap, ◌∙◌, List, [], ◌∷◌, ◌++◌, All, map, push_each,
  push_each-map,
}
use autoware_agent.Messages
use autoware_agent.Messages.{
  LaneletSegment, LaneletRoute, RouteState, unset, set, arrived, changing,
}
use autoware_agent.Perception.{Numbers}
use autoware_agent.Planning.{
  FrameSegment, FullRoute, PlanningFrameState, PlanningBridge, PlanningEvent, trajectory, lane,
  route, velocity_reasons, steering_reasons, target_velocity, velocity_limit, remaining,
  route_state, scenario, ticked, frame_segment, velocity_factor, steering_factor, to_route_state,
  on_trajectory_point, on_trajectory_lane, on_full_route, on_velocity_factor, on_steering_factor,
  on_scenario_state, on_tick, build_frame, PlanningFrame, VelocityStatus, factor_approaching,
  factor_stopped, other_velocity_status, Direction, left, right, straight, other_direction,
  TurnStatus, turn_approaching, turning, other_turn_status, VelocityFactorStatus, velocity_unknown,
  velocity_approaching, velocity_stopped, SteeringDirection, steering_unknown, steering_left,
  steering_right, steering_straight, SteeringStatus, steering_status_unknown,
  steering_status_approaching, steering_status_turning, FrameRouteState, route_unknown, route_unset,
  route_set, route_arrived, route_changing, VelocityReason, SteeringReason, VelocityFactor,
  SteeringFactor, to_velocity_factor_status, to_steering_direction, to_steering_status, on_message,
  handle, handle_all,
}

-- The topics that the constructor subscribes to; a tick comes over none.
abbrev pub topic : {F : Type 0} → PlanningEvent F → Text
topic (trajectory msg) = codes "/planning/scenario_planning/trajectory"
topic (lane msg) = codes "/planning/scenario_planning/lane_driving/trajectory"
topic (route msg) = codes "/planning/mission_planning/route"
topic (velocity_reasons msg) = codes "/api/planning/velocity_factors"
topic (steering_reasons msg) = codes "/api/planning/steering_factors"
topic (target_velocity v) = codes "/planning/scenario_planning/velocity_smoother/closest_velocity"
topic (velocity_limit v) = codes "/planning/scenario_planning/current_max_velocity"
topic (remaining distance time) = codes "/planning/mission_remaining_distance_time"
topic (route_state r) = codes "/api/routing/state"
topic (scenario current activating) = codes "/planning/scenario_planning/scenario"
topic (ticked now) = []

-- What the names of the messages become in a frame.
pub data Routed : RouteState → FrameRouteState → Type 0 where
  as_unset : Routed unset route_unset
  as_set : Routed set route_set
  as_arrived : Routed arrived route_arrived
  as_changing : Routed changing route_changing
  no_route_state : (v : ℕ) → Routed (Messages.other v) route_unknown

pub data Slowed : VelocityStatus → VelocityFactorStatus → Type 0 where
  as_approaching : Slowed factor_approaching velocity_approaching
  as_stopped : Slowed factor_stopped velocity_stopped
  no_velocity_status : (v : ℕ) → Slowed (other_velocity_status v) velocity_unknown

pub data Headed : Direction → SteeringDirection → Type 0 where
  as_left : Headed left steering_left
  as_right : Headed right steering_right
  as_straight : Headed straight steering_straight
  no_direction : (v : ℕ) → Headed (other_direction v) steering_unknown

pub data Turned : TurnStatus → SteeringStatus → Type 0 where
  as_turn_ahead : Turned turn_approaching steering_status_approaching
  as_turning : Turned turning steering_status_turning
  no_turn_status : (v : ℕ) → Turned (other_turn_status v) steering_status_unknown

to_route_state-Routed : (r : RouteState) → Routed r (to_route_state r)
to_route_state-Routed unset = as_unset
to_route_state-Routed set = as_set
to_route_state-Routed arrived = as_arrived
to_route_state-Routed changing = as_changing
to_route_state-Routed (Messages.other v) = no_route_state v

to_velocity-Slowed : (v : VelocityStatus) → Slowed v (to_velocity_factor_status v)
to_velocity-Slowed factor_approaching = as_approaching
to_velocity-Slowed factor_stopped = as_stopped
to_velocity-Slowed (other_velocity_status v) = no_velocity_status v

to_steering-Headed : (d : Direction) → Headed d (to_steering_direction d)
to_steering-Headed left = as_left
to_steering-Headed right = as_right
to_steering-Headed straight = as_straight
to_steering-Headed (other_direction v) = no_direction v

to_steering-Turned : (t : TurnStatus) → Turned t (to_steering_status t)
to_steering-Turned turn_approaching = as_turn_ahead
to_steering-Turned turning = as_turning
to_steering-Turned (other_turn_status v) = no_turn_status v

-- Two lists of the same length, related one by one.
abbrev pub Each : {A B : Type 0} → (A → B → Type 0) → List A → List B → Type 0
Each R [] [] = Unit {0}
Each R [] (y ∷ ys) = ⊥
Each R (x ∷ xs) [] = ⊥
Each R (x ∷ xs) (y ∷ ys) = R x y × Each R xs ys

map-Each :
    {A B : Type 0} (R : A → B → Type 0) (f : A → B) (xs : List A)
    → ((a : A) → R a (f a))
    → Each R xs (map f xs)
map-Each R f [] h = tt
map-Each R f (x ∷ xs) h = (h x, map-Each R f xs h)

-- A factor of a frame for one of a message; of the two poses of a turn the first.
abbrev pub VelocityAs : {F : Type 0} → VelocityReason F → VelocityFactor F → Type 0
VelocityAs r f = (f.reason ≡ r.behavior) × (f.pose ≡ r.position) × Slowed r.status f.status

abbrev pub SteeringAs : {F : Type 0} → SteeringReason F → SteeringFactor F → Type 0
SteeringAs r f =
    (f.reason ≡ r.behavior)
    × (f.pose ≡ r.first_position)
    × Headed r.direction f.direction
    × Turned r.status f.status

-- What a frame says, as a state.
abbrev pub said_by : {F : Type 0} → PlanningFrame F → PlanningFrameState F
said_by f = record {
  trajectory_points = f.trajectory_points;
  lane_trajectory = f.lane_trajectory;
  full_route = f.full_route;
  velocity_factors = f.velocity_factors;
  steering_factors = f.steering_factors;
  target_speed_mps = f.target_speed_mps;
  max_speed_mps = f.max_speed_mps;
  eta = f.eta;
  routing_state = f.routing_state;
  scenario_state = f.scenario_state;
}

-- A route as it was before the frame.
abbrev received_segment : FrameSegment → LaneletSegment
received_segment s = record { preferred_primitive = s.preferred; primitives = s.primitives }

abbrev pub received_route : {F : Type 0} → FullRoute F → LaneletRoute F
received_route r = record {
  start_pose = r.start_pose;
  goal_pose = r.goal_pose;
  segments = map received_segment r.segments;
}

map_id {ℓ} : {A : Type ℓ} (xs : List A) → map (λ x. x) xs ≡ xs
map_id [] = refl
map_id (x ∷ xs) = ap (x ∷◌) (map_id xs)

push_each_id {ℓ} : {A : Type ℓ} (xs : List A) → push_each (λ x. x) xs [] ≡ xs
push_each_id xs = push_each-map (λ x. x) xs ∙ map_id xs

received_segments :
    (ss : List LaneletSegment) → map received_segment (push_each frame_segment ss []) ≡ ss
received_segments ss = ap (map received_segment) (push_each-map frame_segment ss) ∙ each ss
  where
    each : (ts : List LaneletSegment) → map received_segment (map frame_segment ts) ≡ ts
    each [] = refl
    each (t ∷ ts) =
        ap
          (λ qs.
            record { preferred_primitive = t.preferred_primitive; primitives = qs }
            ∷ map received_segment (map frame_segment ts))
          (push_each_id t.primitives)
        ∙ ap (t ∷◌) (each ts)

module _ {F : Type 0} (p : Numbers F) where
  -- What a state shows of a message: trajectories, routes and scenarios as they came.
  abbrev pub Shows : PlanningEvent F → PlanningFrameState F → Type 0
  Shows (trajectory msg) s = s.trajectory_points ≡ msg
  Shows (lane msg) s = s.lane_trajectory ≡ msg
  Shows (route msg) s = received_route s.full_route ≡ msg
  Shows (velocity_reasons msg) s = Each VelocityAs msg s.velocity_factors
  Shows (steering_reasons msg) s = Each SteeringAs msg s.steering_factors
  Shows (target_velocity v) s = s.target_speed_mps ≡ v
  Shows (velocity_limit v) s = s.max_speed_mps ≡ v
  Shows (remaining distance time) s =
      (s.eta.remaining_distance_m ≡ p.to_float distance)
      × (s.eta.remaining_time_s ≡ p.to_float time)
  Shows (route_state r) s = Routed r s.routing_state
  Shows (scenario current activating) s =
      (s.scenario_state.current_scenario ≡ current)
      × (s.scenario_state.active_scenarios ≡ activating)
  Shows (ticked now) s = Unit

  on_message-Shows : (s : PlanningFrameState F) (m : PlanningEvent F) → Shows m (on_message p s m)
  unfolding on_message on_trajectory_point on_trajectory_lane on_full_route on_velocity_factor
      on_steering_factor on_scenario_state
  on_message-Shows s (trajectory msg) = push_each_id msg
  on_message-Shows s (lane msg) = push_each_id msg
  on_message-Shows s (route msg) =
      ap (λ l. record { start_pose = msg.start_pose; goal_pose = msg.goal_pose; segments = l })
        (received_segments msg.segments)
  on_message-Shows s (velocity_reasons msg) =
      subst (Each VelocityAs msg) (sym (push_each-map velocity_factor msg))
        (map-Each VelocityAs velocity_factor msg (λ r. (refl, refl, to_velocity-Slowed r.status)))
  on_message-Shows s (steering_reasons msg) =
      subst (Each SteeringAs msg) (sym (push_each-map steering_factor msg)) (
        map-Each SteeringAs steering_factor msg
          (λ r. (refl, refl, to_steering-Headed r.direction, to_steering-Turned r.status)))
  on_message-Shows s (target_velocity v) = refl
  on_message-Shows s (velocity_limit v) = refl
  on_message-Shows s (remaining distance time) = (refl, refl)
  on_message-Shows s (route_state r) = to_route_state-Routed r
  on_message-Shows s (scenario current activating) = (refl, push_each_id activating)
  on_message-Shows s (ticked now) = tt

  -- A message of another topic leaves what is shown.
  Shows-on_message :
      (s : PlanningFrameState F) (m ev : PlanningEvent F)
      → ¬ (topic ev ≡ topic m)
      → Shows m s
      → Shows m (on_message p s ev)
  unfolding on_message on_trajectory_point on_trajectory_lane on_full_route on_velocity_factor
      on_steering_factor on_scenario_state
  Shows-on_message s (trajectory msg) (trajectory new) n h = absurd (n refl)
  Shows-on_message s (trajectory msg) _ n h = h
  Shows-on_message s (lane msg) (lane new) n h = absurd (n refl)
  Shows-on_message s (lane msg) _ n h = h
  Shows-on_message s (route msg) (route new) n h = absurd (n refl)
  Shows-on_message s (route msg) _ n h = h
  Shows-on_message s (velocity_reasons msg) (velocity_reasons new) n h = absurd (n refl)
  Shows-on_message s (velocity_reasons msg) _ n h = h
  Shows-on_message s (steering_reasons msg) (steering_reasons new) n h = absurd (n refl)
  Shows-on_message s (steering_reasons msg) _ n h = h
  Shows-on_message s (target_velocity v) (target_velocity w) n h = absurd (n refl)
  Shows-on_message s (target_velocity v) _ n h = h
  Shows-on_message s (velocity_limit v) (velocity_limit w) n h = absurd (n refl)
  Shows-on_message s (velocity_limit v) _ n h = h
  Shows-on_message s (remaining d t) (remaining d' t') n h = absurd (n refl)
  Shows-on_message s (remaining d t) _ n h = h
  Shows-on_message s (route_state r) (route_state q) n h = absurd (n refl)
  Shows-on_message s (route_state r) _ n h = h
  Shows-on_message s (scenario c a) (scenario c' a') n h = absurd (n refl)
  Shows-on_message s (scenario c a) _ n h = h
  Shows-on_message s (ticked now) ev n h = tt

  handle-state :
      (b : PlanningBridge F) (ev : PlanningEvent F)
      → (handle p b ev).state ≡ on_message p b.state ev
  unfolding handle on_tick on_message
  handle-state b (ticked now) = refl
  handle-state b _ = refl

  keeps_showing :
      (b : PlanningBridge F) (m : PlanningEvent F) (later : List (PlanningEvent F))
      → All (λ ev. ¬ (topic ev ≡ topic m)) later
      → Shows m b.state
      → Shows m (handle_all p b later).state
  unfolding handle_all
  keeps_showing b m [] n h = h
  keeps_showing b m (ev ∷ rest) n h =
      keeps_showing (handle p b ev) m rest n.1
        (subst (Shows m) (sym (handle-state b ev)) (Shows-on_message b.state m ev n.0 h))

  held-Shows :
      (b : PlanningBridge F) (before : List (PlanningEvent F)) (m : PlanningEvent F)
      (later : List (PlanningEvent F))
      → All (λ ev. ¬ (topic ev ≡ topic m)) later
      → Shows m (handle_all p b (before ++ m ∷ later)).state
  unfolding handle_all
  held-Shows b [] m later n =
      keeps_showing (handle p b m) m later n
        (subst (Shows m) (sym (handle-state b m)) (on_message-Shows b.state m))
  held-Shows b (ev ∷ before) m later n = held-Shows (handle p b ev) before m later n

  -- After a message of a PlanningBridge, and whatever follows on other topics, ticks included, the
  -- frame of the next tick shows that message whatever came before it: the trajectories, the route
  -- with its segments and primitives, and the scenarios as they were received; the factors, one by
  -- one and in order, with their reason, their (first) pose and the names that the frame has for
  -- their status and direction; the route state by its name; the speeds and the remaining distance
  -- and time.
  pub handle_all-Shows :
      (b : PlanningBridge F) (before : List (PlanningEvent F)) (m : PlanningEvent F)
      (later : List (PlanningEvent F)) (now : ℕ)
      → All (λ ev. ¬ (topic ev ≡ topic m)) later
      → (f : PlanningFrame F) × ((on_tick (handle_all p b (before ++ m ∷ later)) now).published
          ≡ f ∷ (handle_all p b (before ++ m ∷ later)).published)
        × (f.stamp_ns ≡ now)
        × Shows m (said_by f)
  unfolding on_tick build_frame
  handle_all-Shows b before m later now n = (_, refl, refl, held-Shows b before m later n)
