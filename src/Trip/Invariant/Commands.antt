-- ===== src/Trip/Invariant/Commands.antt =====
-- The commands and the messages keep the invariant.
use autoware_agent.Base.{
  ℕ, ◌≡◌, refl, sym, ◌∙◌, inl, inr, Bool, true, false, Option, none, some, ◌==◌, Bool-cases, ℤ,
  subst, Result, ok, err, ◌>>=◌, Returns, if◌then◌else◌,
}
use autoware_agent.Decimal.{stoll}
use autoware_agent.Geometry.{LaneInfo, FixedStartPosition, Lanes}
use autoware_agent.Trip.State.{
  TripState, idle, initializing_in_map, routes_ready, waiting_for_pickup_start,
  publishing_initial_pose, engaging, waiting_for_move, failed, query_reading_eta, state_eq,
  driving_to_pickup, running, HeldRoute, TripController, send, transition_to, default_status,
  do_publish_initial_pose, do_publish_goal,
}
use autoware_agent.Trip.Commands.{
  go_to_pickup, inject_eta, on_mode_response, on_engage_response, initialize_at, initialize_in_map,
  start_at, start_held, start_trip, move_to, move_held, move, handle_move_command, publish_start,
  cancel,
}
use autoware_agent.Trip.Laws.{Found, LawfulLanes}
use autoware_agent.Trip.Events.{dropped}
use autoware_agent.Trip.Phases.{
  phase, facts, HoldsLane, HasValue, InPhase, Inv, transition_to-Inv, state_eq_sound, resting,
  under_way,
}
use autoware_agent.Trip.Invariant.Query.{stoll-lane}

module _ {F M : Type 0} (Known : ℤ → Type 0) (Sound : M → Type 0) where
  -- What the phase of a known state says.
  pub facts_in_state :
      (c : TripController F M) (st : TripState)
      → state_eq c.status.state st ≡ true
      → Inv Known Sound c
      → InPhase Known (phase st) (facts c)
  facts_in_state c st same h =
      subst (λ t. InPhase Known (phase t) (facts c)) (state_eq_sound c.status.state st same) h.1

  pub go_to_pickup-Inv :
      (c : TripController F M) (now : ℕ)
      → Inv Known Sound c
      → Inv Known Sound (go_to_pickup c now).0
  unfolding go_to_pickup
  go_to_pickup-Inv c now h = elim (Bool-cases (state_eq c.status.state waiting_for_pickup_start)) [
    | inl same ↦ rw same (
        transition_to-Inv Known Sound _ publishing_initial_pose now h.0
          (facts_in_state c waiting_for_pickup_start same h))
    | inr other ↦ rw other h
  ]

  pub inject_eta-Inv :
      (c : TripController F M) (d t : F) → Inv Known Sound c → Inv Known Sound (inject_eta c d t)
  unfolding inject_eta
  inject_eta-Inv c d t h = elim (Bool-cases (state_eq c.status.state query_reading_eta)) [
    | inl same ↦ rw same h
    | inr other ↦ rw other h
  ]

  pub on_mode_response-Inv :
      (c : TripController F M) (success : Bool)
      → Inv Known Sound c
      → Inv Known Sound (on_mode_response c success)
  unfolding on_mode_response send
  on_mode_response-Inv c true h = h
  on_mode_response-Inv c false h = h

  engaged-Inv :
      (c : TripController F M) (for_pickup : Bool) (now : ℕ)
      → Sound c.lanelet_map
      → InPhase Known under_way (facts c)
      → Inv Known Sound (
          if for_pickup then transition_to c driving_to_pickup now else transition_to c running now)
  engaged-Inv c true now s h = transition_to-Inv Known Sound c driving_to_pickup now s h
  engaged-Inv c false now s h = transition_to-Inv Known Sound c running now s h

  pub on_engage_response-Inv :
      (c : TripController F M) (code now : ℕ)
      → Inv Known Sound c
      → Inv Known Sound (on_engage_response c code now)
  unfolding on_engage_response
  on_engage_response-Inv c code now h = elim (Bool-cases (code == 1)) [
    | inl success ↦ elim (Bool-cases (state_eq c.status.state engaging)) [
      | inl same ↦
          rw (success, same)
            (engaged-Inv c c.engaging_for_pickup now h.0 (facts_in_state c engaging same h))
      | inr other ↦ rw (success, other) h
    ]
    | inr failure ↦ rw failure h
  ]

module _ {F M : Type 0} (e : Lanes F M) (Known : ℤ → Type 0) (Sound : M → Type 0)
    (laws : LawfulLanes e Known Sound) where
  start_at-Inv :
      (c : TripController F M) (held : HeldRoute F) (now : ℕ) (found : Option (LaneInfo F) × M)
      → Found Known Sound found
      → (c.querying ≡ false) × (c.query_cb ≡ none)
      → HasValue c.trip_route
      → Inv Known Sound (start_at e (record c { lanelet_map = found.1 }) held now found.0).0
  unfolding start_at
  start_at-Inv c held now (none, m) f quiet banked =
      transition_to-Inv Known Sound _ failed now f.1 quiet
  start_at-Inv c held now (some l, m) f quiet banked =
      transition_to-Inv Known Sound _ waiting_for_pickup_start now f.1
        (quiet, (l.lane_id, f.0, refl), banked)

  -- A start is possible from ROUTES_READY alone: in IDLE the bank is empty.
  start_ready-Inv :
      (c : TripController F M) (held later : HeldRoute F) (now : ℕ)
      → c.pickup_route ≡ some held
      → c.trip_route ≡ some later
      → Inv Known Sound c
      → Returns (Inv Known Sound) (dropped e (start_held e c (some held) (some later) now))
  unfolding start_held
  start_ready-Inv c held later now p t h =
      elim (Bool-cases (state_eq c.status.state routes_ready)) [
        | inl same ↦
            let r = facts_in_state Known Sound c routes_ready same h in
            rw same (
              found_lane held now (e.get_lane_by_id c.lanelet_map held.goal_lane_id)
                (laws.by_id c.lanelet_map held.goal_lane_id h.0 (subst (HoldsLane Known) p r.1)) r.0
                r.2)
        | inr other ↦ elim (Bool-cases (state_eq c.status.state idle)) [
          | inl same ↦ let r = facts_in_state Known Sound c idle same h in cc (sym p ∙ r.1)
          | inr not_idle ↦ rw (other, not_idle) h
        ]
      ]
    where
      found_lane :
          (held : HeldRoute F) (now : ℕ) (r : Result (Option (LaneInfo F) × M))
          → Returns (Found Known Sound) r
          → (c.querying ≡ false) × (c.query_cb ≡ none)
          → HasValue c.trip_route
          → Returns (Inv Known Sound) (
              dropped e (
                r >>= λ found.
                ok (start_at e (record c { lanelet_map = found.1 }) held now found.0)))
      found_lane held now (ok found) f quiet banked = start_at-Inv c held now found f quiet banked
      found_lane held now (err x) f quiet banked = f

  start_held-Inv :
      (c : TripController F M) (p t : Option (HeldRoute F)) (now : ℕ)
      → c.pickup_route ≡ p
      → c.trip_route ≡ t
      → Inv Known Sound c
      → Returns (Inv Known Sound) (dropped e (start_held e c p t now))
  unfolding start_held
  start_held-Inv c (some held) (some later) now p t h = start_ready-Inv c held later now p t h
  start_held-Inv c none t now _ _ h = h
  start_held-Inv c (some held) none now _ _ h = h

  pub start_trip-Inv :
      (c : TripController F M) (now : ℕ)
      → Inv Known Sound c
      → Returns (Inv Known Sound) (dropped e (start_trip e c now))
  unfolding start_trip
  start_trip-Inv c now h = start_held-Inv _ c.pickup_route c.trip_route now refl refl h

  move_to-Inv :
      (c : TripController F M) (held : HeldRoute F) (now : ℕ) (found : Option (LaneInfo F) × M)
      → Found Known Sound found
      → InPhase Known under_way (facts c)
      → Inv Known Sound (move_to e (record c { lanelet_map = found.1 }) held now found.0).0
  unfolding move_to do_publish_goal send
  move_to-Inv c held now (none, m) f h = transition_to-Inv Known Sound _ failed now f.1 h.0
  move_to-Inv c held now (some l, m) f h = transition_to-Inv Known Sound _ engaging now f.1 h

  move_held-Inv :
      (c : TripController F M) (t : Option (HeldRoute F)) (now : ℕ)
      → Sound c.lanelet_map
      → InPhase Known under_way (facts c)
      → Returns (Inv Known Sound) (dropped e (move_held e c t now))
  unfolding move_held
  move_held-Inv c none now s h = transition_to-Inv Known Sound c failed now s h.0
  move_held-Inv c (some held) now s h =
      from_lane (stoll c.status.start_lanelet_id)
        (stoll-lane e Known Sound laws c.status.start_lanelet_id h.1)
    where
      to_lane :
          (r : Result (Option (LaneInfo F) × M))
          → Returns (Found Known Sound) r
          → Returns (Inv Known Sound) (
              dropped e (
                r >>= λ found.
                ok (move_to e (record c { lanelet_map = found.1 }) held now found.0)))
      to_lane (ok found) f = move_to-Inv c held now found f h
      to_lane (err x) f = f

      from_lane :
          (r : Result ℤ)
          → Returns Known r
          → Returns (Inv Known Sound) (
              dropped e (
                r >>= λ id.
                e.find_nearest_connected_lane c.lanelet_map held.goal_gps id true >>= λ found.
                ok (move_to e (record c { lanelet_map = found.1 }) held now found.0)))
      from_lane (ok id) k =
          to_lane (e.find_nearest_connected_lane c.lanelet_map held.goal_gps id true)
            (laws.connected c.lanelet_map held.goal_gps id true s k)
      from_lane (err x) k = k

  pub move-Inv :
      (c : TripController F M) (now : ℕ)
      → Inv Known Sound c
      → Returns (Inv Known Sound) (dropped e (move e c now))
  unfolding move
  move-Inv c now h = elim (Bool-cases (state_eq c.status.state waiting_for_move)) [
    | inl same ↦ rw same (
        move_held-Inv c c.trip_route now h.0 (facts_in_state Known Sound c waiting_for_move same h))
    | inr other ↦ rw other h
  ]

  pub handle_move_command-Inv :
      (c : TripController F M) (now : ℕ)
      → Inv Known Sound c
      → Returns (Inv Known Sound) (dropped e (handle_move_command e c now))
  unfolding handle_move_command
  handle_move_command-Inv c now h =
      elim (Bool-cases (state_eq c.status.state waiting_for_pickup_start)) [
        | inl same ↦ rw same (go_to_pickup-Inv Known Sound c now h)
        | inr other ↦ elim (Bool-cases (state_eq c.status.state waiting_for_move)) [
          | inl same ↦ rw (other, same) (move-Inv c now h)
          | inr neither ↦ rw (other, neither) h
        ]
      ]

  pub cancel-Inv :
      (c : TripController F M) (now : ℕ) → Inv Known Sound c → Inv Known Sound (cancel e c now)
  unfolding cancel publish_start do_publish_initial_pose send
  cancel-Inv c now h = cancelled_at (e.get_default_start c.lanelet_map)
    where
      cancelled_at :
          (start : Option (FixedStartPosition F))
          → Inv Known Sound (
              transition_to
                (publish_start e start
                  (record c {
                    querying = false;
                    query_cb = none;
                    pickup_route = none;
                    trip_route = none;
                    status = default_status e;
                    route_received = false;
                    engaging_for_pickup = false;
                    current_route_state = none;
                  })
                  now)
                idle
                now)
      cancelled_at none = transition_to-Inv Known Sound _ idle now h.0 ((refl, refl), refl, refl)
      cancelled_at (some start) =
          transition_to-Inv Known Sound _ idle now h.0 ((refl, refl), refl, refl)

  pub initialize_in_map-Inv :
      (c : TripController F M) (now : ℕ)
      → InPhase Known resting (facts c)
      → Inv Known Sound c
      → Inv Known Sound (initialize_in_map e c now)
  unfolding initialize_in_map do_publish_initial_pose send
  initialize_in_map-Inv c now r h =
      elim (e.get_default_start c.lanelet_map)
        as (λ o. Inv Known Sound (elim o [ none ↦ c | some start ↦ initialize_at e c now start ])) [
          | none ↦ h
          | some start ↦ transition_to-Inv Known Sound _ initializing_in_map now h.0 r
        ]
