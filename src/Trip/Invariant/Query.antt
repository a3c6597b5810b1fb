-- ===== src/Trip/Invariant/Query.antt =====
-- The ETA query keeps the invariant.
use autoware_agent.Base.{
  ℕ, ◌≡◌, refl, inl, inr, true, Option, none, some, Text, Bool-cases, ℤ, Result, ok, err, ◌>>=◌,
  Returns, Returns->>=,
}
use autoware_agent.Decimal.{stoll}
use autoware_agent.Decimal.RoundTrip.{stoll-to_string}
use autoware_agent.Geometry.{GpsCoordinate, LocalCoordinate, LaneInfo, Lanes}
use autoware_agent.Trip.State.{
  idle, query_publishing_initial_pose, routes_ready, state_eq, QueryLeg, EtaQueryResult, pickup,
  trip, TripController, send,
}
use autoware_agent.Trip.Query.{
  answer, answer_failure, fail_query, leg_origin, leg_status, unreachable, leg_destination,
  resolve_leg, start_query_leg, finish_leg, finish_query_leg, get_current_vehicle_pose, query_idle,
  accept_query, query_eta, query_success,
}
use autoware_agent.Trip.Laws.{Found, LawfulLanes}
use autoware_agent.Trip.Events.{dropped}
use autoware_agent.Trip.Phases.{
  facts, IsLaneText, LegHolds, InPhase, Inv, transition_to-Inv, asking,
}

-- To answer a callback changes no member.
pub answer_lem :
    {F M : Type 0} (o : Option ℕ) (r : EtaQueryResult F) (c : TripController F M)
    → ((answer o r c).lanelet_map ≡ c.lanelet_map)
      × ((answer o r c).pickup_route ≡ c.pickup_route)
      × ((answer o r c).status ≡ c.status)
      × (facts (answer o r c) ≡ facts c)
unfolding send
answer_lem none r c = (refl, refl, refl, refl)
answer_lem (some k) r c = (refl, refl, refl, refl)

module _ {F M : Type 0} (e : Lanes F M) (Known : ℤ → Type 0) (Sound : M → Type 0)
    (laws : LawfulLanes e Known Sound) where
  -- A lane text is read back as a lane of the map.
  pub stoll-lane : (t : Text) → IsLaneText Known t → Returns Known (stoll t)
  stoll-lane t (i, known, eq) = rw (eq, stoll-to_string i (laws.known_in_int64 i known)) known

  answer_failure_lem :
      (o : Option ℕ) (reason : Text) (c : TripController F M)
      → c.query_cb ≡ o
      → ((answer_failure e o reason c).query_cb ≡ none)
        × ((answer_failure e o reason c).lanelet_map ≡ c.lanelet_map)
  unfolding answer_failure send
  answer_failure_lem none reason c h = (h, refl)
  answer_failure_lem (some k) reason c h = (refl, refl)

  pub fail_query-Inv :
      (c : TripController F M) (reason : Text) (now : ℕ)
      → Sound c.lanelet_map
      → Inv Known Sound (fail_query e c reason now)
  unfolding fail_query
  fail_query-Inv c reason now s =
      let (cleared, kept) = answer_failure_lem c.query_cb reason c refl in
      transition_to-Inv Known Sound _ idle now (rw kept s) ((refl, cleared), refl, refl)

  leg_origin-Found :
      (c : TripController F M) (leg : QueryLeg) (g : GpsCoordinate F)
      → Sound c.lanelet_map
      → (leg ≡ trip → IsLaneText Known c.status.goal_lanelet_id)
      → Returns (Found Known Sound) (leg_origin e c leg g)
  unfolding leg_origin
  leg_origin-Found c pickup g s h = laws.nearest c.lanelet_map g s
  leg_origin-Found c trip g s h =
      Returns->>= Known (Found Known Sound) (stoll c.status.goal_lanelet_id) _
        (stoll-lane c.status.goal_lanelet_id (h refl))
        (λ i known. laws.by_id c.lanelet_map i s known)

  pub Found-Sound : (p : Option (LaneInfo F) × M) → Found Known Sound p → Sound p.1
  Found-Sound (none, m) h = h.1
  Found-Sound (some l, m) h = h.1

  unreachable-Inv :
      (c : TripController F M) (l : LaneInfo F) (g : GpsCoordinate F) (now : ℕ)
      → Sound c.lanelet_map
      → Returns (Inv Known Sound) (unreachable e c l g now)
  unfolding unreachable
  unreachable-Inv c l g now s =
      Returns->>= (Found Known Sound) (Inv Known Sound) (e.find_nearest_lane c.lanelet_map g) _
        (laws.nearest c.lanelet_map g s) (λ found h. fail_query-Inv _ _ now (Found-Sound found h))

  leg_destination-Inv :
      (c : TripController F M) (l : LaneInfo F) (g : GpsCoordinate F) (now : ℕ)
      (to : Option (LaneInfo F) × M)
      → c.querying ≡ true
      → LegHolds Known c.current_leg c.pickup_route
      → Known l.lane_id
      → Found Known Sound to
      → Returns (Inv Known Sound) (leg_destination e (record c { lanelet_map = to.1 }) l g now to.0)
  unfolding leg_destination leg_status
  leg_destination-Inv c l g now (none, m) q held known found =
      unreachable-Inv (record c { lanelet_map = m }) l g now found.1
  leg_destination-Inv c l g now (some to, m) q held known found =
      transition_to-Inv Known Sound _ query_publishing_initial_pose now found.1
        (q, (l.lane_id, known, refl), (to.lane_id, found.0, refl), held)

  resolve_leg-Inv :
      (c : TripController F M) (g : GpsCoordinate F) (now : ℕ) (from : Option (LaneInfo F) × M)
      → c.querying ≡ true
      → LegHolds Known c.current_leg c.pickup_route
      → Found Known Sound from
      → Returns (Inv Known Sound) (resolve_leg e (record c { lanelet_map = from.1 }) g now from.0)
  unfolding resolve_leg
  resolve_leg-Inv c g now (none, m) q held found = fail_query-Inv _ _ now found.1
  resolve_leg-Inv c g now (some l, m) q held found =
      Returns->>= (Found Known Sound) (Inv Known Sound)
        (e.find_nearest_connected_lane m g l.lane_id true) _
        (laws.connected m g l.lane_id true found.1 found.0)
        (λ to h. leg_destination-Inv (record c { lanelet_map = m }) l g now to q held found.0 h)

  pub start_query_leg-Inv :
      (c : TripController F M) (from to : GpsCoordinate F) (now : ℕ)
      → Sound c.lanelet_map
      → c.querying ≡ true
      → LegHolds Known c.current_leg c.pickup_route
      → (c.current_leg ≡ trip → IsLaneText Known c.status.goal_lanelet_id)
      → Returns (Inv Known Sound) (start_query_leg e c from to now)
  unfolding start_query_leg
  start_query_leg-Inv c from to now s q held goal =
      Returns->>= (Found Known Sound) (Inv Known Sound) (leg_origin e c c.current_leg from) _
        (leg_origin-Found c c.current_leg from s goal)
        (λ found h. resolve_leg-Inv c to now found q held h)

  finish_leg-Inv :
      (leg : QueryLeg) (c : TripController F M) (now : ℕ)
      → Sound c.lanelet_map
      → InPhase Known asking (record (facts c) { leg = leg })
      → Returns (Inv Known Sound) (finish_leg e leg c now)
  unfolding finish_leg
  finish_leg-Inv pickup c now s (q, _, goal, _) =
      Returns->>= Known (Inv Known Sound) (stoll c.status.goal_lanelet_id) _
        (stoll-lane c.status.goal_lanelet_id goal)
        (λ i known.
          start_query_leg-Inv _ c.query_start_gps c.query_goal_gps now s q known (λ _. goal))
  finish_leg-Inv trip c now s (q, _, _, held) =
      let (same_map, same_route, _, _) = answer_lem c.query_cb (query_success e c) c in
      transition_to-Inv Known Sound _ routes_ready now (rw same_map s)
        ((refl, refl), rw same_route held, tt)

  pub finish_query_leg-Inv :
      (c : TripController F M) (now : ℕ)
      → Sound c.lanelet_map
      → InPhase Known asking (facts c)
      → Returns (Inv Known Sound) (finish_query_leg e c now)
  unfolding finish_query_leg
  finish_query_leg-Inv c now s h = finish_leg-Inv c.current_leg c now s h

  answer-Inv :
      (o : Option ℕ) (r : EtaQueryResult F) (c : TripController F M)
      → Inv Known Sound c
      → Inv Known Sound (answer o r c)
  unfolding send
  answer-Inv none r c h = h
  answer-Inv (some k) r c h = h

  accept_query-Inv :
      (c : TripController F M) (vehicle from to : GpsCoordinate F) (cb : Option ℕ) (now : ℕ)
      → Sound c.lanelet_map
      → Returns (Inv Known Sound) (accept_query e c vehicle from to cb now)
  unfolding accept_query
  accept_query-Inv c vehicle from to cb now s =
      start_query_leg-Inv _ vehicle from now s refl tt (λ p. cc)

  query_idle-Inv :
      (c : TripController F M) (pose : Option (GpsCoordinate F)) (from to : GpsCoordinate F)
      (cb : Option ℕ) (now : ℕ)
      → Inv Known Sound c
      → Returns (Inv Known Sound) (dropped e (query_idle e c pose from to cb now))
  unfolding query_idle
  query_idle-Inv c none from to cb now h = answer-Inv cb _ c h
  query_idle-Inv c (some vehicle) from to cb now h =
      unpair (accept_query e c vehicle from to cb now)
        (accept_query-Inv c vehicle from to cb now h.0)
    where
      unpair :
          (r : Result (TripController F M))
          → Returns (Inv Known Sound) r
          → Returns (Inv Known Sound) (dropped e (r >>= λ c'. ok (c', true)))
      unpair (ok c') k = k
      unpair (err x) k = k

  pub query_eta-Inv :
      (c : TripController F M) (tf : Option (LocalCoordinate F)) (from to : GpsCoordinate F)
      (cb : Option ℕ) (now : ℕ)
      → Inv Known Sound c
      → Returns (Inv Known Sound) (dropped e (query_eta e c tf from to cb now))
  unfolding query_eta
  query_eta-Inv c tf from to cb now h = elim (Bool-cases (state_eq c.status.state idle)) [
    | inl yes_idle ↦ rw yes_idle (query_idle-Inv c (get_current_vehicle_pose e tf) from to cb now h)
    | inr not_idle ↦ rw not_idle (answer-Inv cb _ c h)
  ]
