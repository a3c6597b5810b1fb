-- ===== src/Trip/Progress.antt =====
-- The transitions of an ETA query: each lowers what is left of it.
pub mod Late
pub mod Advances
pub mod Timer
use autoware_agent.Base.{
  ℕ, zero, suc, ◌+◌, ◌≤◌, ◌<◌, ◌≡◌, refl, sym, ap, ◌∙◌, ◌⊎◌, inl, inr, true, leb, List, [], ◌∷◌,
  Option, none, some, Text, Bool-cases, if_both, subst, arith, length, ℤ, le→leb, Result, ok, err,
  Returns, Ensures, Ensures->>=, Returns-both,
}
use autoware_agent.Messages.{is_initialized, is_set}
use autoware_agent.Geometry.{GpsCoordinate, LaneInfo, Lanes}
use autoware_agent.Decimal.{stoll}
use autoware_agent.Trip.State.{
  TripState, idle, query_publishing_initial_pose, query_waiting_localisation, query_publishing_goal,
  query_waiting_route, query_reading_eta, routes_ready, QueryLeg, pickup, trip, TripController,
  elapsed_ms, send, transition_to, enter, state_eq, zero_of, do_publish_initial_pose,
  do_publish_goal, EtaQueryResult, TripTimings,
}
use autoware_agent.Trip.Query.{
  answer, query_success, answer_failure, fail_query, leg_origin, unreachable, leg_destination,
  resolve_leg, start_query_leg, finish_leg, finish_query_leg,
}
use autoware_agent.Trip.Tick.{
  Surroundings, tick_query_pose, tick_query_localisation, tick_query_goal, tick_query_route,
  tick_query_eta, tick_in, tick, publish_start_pose, publish_goal_pose, loc_timeout_reason,
  route_timeout_reason,
}
use autoware_agent.Trip.Phases.{Inv, state_eq_sound}
use autoware_agent.Trip.Laws.{LawfulLanes}
use autoware_agent.Trip.Invariant.Tick.{tick-Inv}

-- What the trip leg adds to a pickup leg.
abbrev pub rest_of : QueryLeg → ℕ
rest_of pickup = 5
rest_of trip = 0

-- How many transitions of the timer are left of a query; 0 if there is none.
abbrev pub rank : QueryLeg → TripState → ℕ
rank leg query_publishing_initial_pose = 5 + rest_of leg
rank leg query_waiting_localisation = 4 + rest_of leg
rank leg query_publishing_goal = 3 + rest_of leg
rank leg query_waiting_route = 2 + rest_of leg
rank leg query_reading_eta = 1 + rest_of leg
rank leg _ = 0

abbrev pub query_rank : {F M : Type 0} → TripController F M → ℕ
query_rank c = rank c.current_leg c.status.state

pub leg_ranks :
    (leg : QueryLeg)
    → (rank leg query_waiting_localisation < rank leg query_publishing_initial_pose)
      × ((rank leg query_publishing_goal < rank leg query_waiting_localisation)
          × ((rank leg query_waiting_route < rank leg query_publishing_goal)
              × ((rank leg query_reading_eta < rank leg query_waiting_route)
                  × ((0 < rank leg query_reading_eta)
                      × ((rank leg idle ≡ 0) × (rank leg routes_ready ≡ 0))))))
leg_ranks pickup = omega arith
leg_ranks trip = omega arith

module _ {F M : Type 0} where
  -- The members that the bound on the waits reads.
  abbrev pub Kept : TripController F M → ℕ → TripController F M → Type 0
  Kept c now c' = (c'.state_entered_at ≤ now) × (c'.timings ≡ c.timings)

  -- A transition to `next`, seen by its rank.
  transition_to-rank :
      (c : TripController F M) (next : TripState) (now : ℕ)
      → c.state_entered_at ≤ now
      → (query_rank (transition_to c next now) ≡ rank c.current_leg next)
        × Kept c now (transition_to c next now)
  unfolding transition_to enter
  transition_to-rank c next now h = elim (Bool-cases (state_eq c.status.state next)) [
    | inl same ↦
        rw same (ap (rank c.current_leg) (state_eq_sound c.status.state next same), (h, refl))
    | inr other ↦ rw other (refl, (omega arith, refl))
  ]

  -- The rank is below that of the state that the tick was made in.
  abbrev pub Falls : TripController F M → ℕ → ℕ → TripController F M → Type 0
  Falls c now bound c' = (query_rank c' < bound) × Kept c now c'

  pub transition-Falls :
      (c₀ c : TripController F M) (next : TripState) (now bound : ℕ)
      → Kept c₀ now c
      → rank c.current_leg next < bound
      → Falls c₀ now bound (transition_to c next now)
  transition-Falls c₀ c next now bound k h =
      let (same, (entered, timings)) = transition_to-rank c next now k.0 in
      (rw same h, (entered, timings ∙ k.1))

module _ {F M : Type 0} (e : Lanes F M) where
  answer_failure-Kept :
      (o : Option ℕ) (reason : Text) (c : TripController F M) (now : ℕ)
      → c.state_entered_at ≤ now
      → Kept c now (answer_failure e o reason c)
  unfolding answer_failure send
  answer_failure-Kept none reason c now h = (h, refl)
  answer_failure-Kept (some k) reason c now h = (h, refl)

  pub fail_query-Falls :
      (c₀ c : TripController F M) (reason : Text) (now bound : ℕ)
      → Kept c₀ now c
      → 0 < bound
      → Falls c₀ now bound (fail_query e c reason now)
  unfolding fail_query
  fail_query-Falls c₀ c reason now bound k h =
      let told = answer_failure-Kept c.query_cb reason c now k.0 in
      transition-Falls c₀ _ idle now bound (told.0, told.1 ∙ k.1)
        (omega (arith, leg_ranks (answer_failure e c.query_cb reason c).current_leg))

  leg_destination-Falls :
      (c₀ c : TripController F M) (l : LaneInfo F) (g : GpsCoordinate F) (now bound : ℕ)
      (to : Option (LaneInfo F))
      → Kept c₀ now c
      → rank c.current_leg query_publishing_initial_pose < bound
      → Ensures (Falls c₀ now bound) (leg_destination e c l g now to)
  unfolding leg_destination unreachable
  leg_destination-Falls c₀ c l g now bound none k h =
      Ensures->>= (Falls c₀ now bound) (e.find_nearest_lane c.lanelet_map g) _
        (λ found. fail_query-Falls c₀ _ _ now bound k (omega arith))
  leg_destination-Falls c₀ c l g now bound (some to) k h =
      transition-Falls c₀ _ query_publishing_initial_pose now bound k h

  start_query_leg-Falls :
      (c₀ c : TripController F M) (from to : GpsCoordinate F) (now bound : ℕ)
      → Kept c₀ now c
      → rank c.current_leg query_publishing_initial_pose < bound
      → Ensures (Falls c₀ now bound) (start_query_leg e c from to now)
  unfolding start_query_leg resolve_leg
  start_query_leg-Falls c₀ c from to now bound k h =
      Ensures->>= (Falls c₀ now bound) (leg_origin e c c.current_leg from) _
        (λ found. resolved found.1 found.0)
    where
      resolved :
          (m : M) (origin : Option (LaneInfo F))
          → Ensures
              (Falls c₀ now bound)
              (resolve_leg e (record c { lanelet_map = m }) to now origin)
      resolved m none = fail_query-Falls c₀ _ _ now bound k (omega arith)
      resolved m (some l) =
          Ensures->>= (Falls c₀ now bound) (e.find_nearest_connected_lane m to l.lane_id true) _
            (λ found. leg_destination-Falls c₀ _ l to now bound found.0 k h)

  answered-Kept :
      (c₀ c : TripController F M) (o : Option ℕ) (r : EtaQueryResult F) (now : ℕ)
      → Kept c₀ now c
      → Kept c₀ now (answer o r c)
  unfolding send
  answered-Kept c₀ c none r now k = k
  answered-Kept c₀ c (some i) r now k = k

  pub finish_leg-Falls :
      (c₀ c : TripController F M) (leg : QueryLeg) (now : ℕ)
      → Kept c₀ now c
      → c.current_leg ≡ leg
      → Ensures (Falls c₀ now (rank leg query_reading_eta)) (finish_leg e leg c now)
  unfolding finish_leg
  finish_leg-Falls c₀ c pickup now k same =
      Ensures->>= (Falls c₀ now 6) (stoll c.status.goal_lanelet_id) _
        (λ i. start_query_leg-Falls c₀ _ c.query_start_gps c.query_goal_gps now 6 k (omega arith))
  finish_leg-Falls c₀ c trip now k same =
      transition-Falls c₀ _ routes_ready now 1
        (answered-Kept c₀ c c.query_cb (query_success e c) now k)
        (omega (arith, leg_ranks (answer c.query_cb (query_success e c) c).current_leg))
