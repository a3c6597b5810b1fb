-- ===== src/Trip/Diagram/Commands.antt =====
-- Where the commands lead in the state diagram.
use autoware_agent.Base.{
  ℕ, ◌≡◌, refl, sym, inl, inr, Bool, true, false, Option, none, some, ap, ◌∙◌, subst, Bool-cases, ℤ,
  Result, ok, err, ◌>>=◌, Ensures, Ensures-weaken, ◌==◌, if◌then◌else◌,
}
use autoware_agent.Decimal.{stoll}
use autoware_agent.Geometry.{LaneInfo, FixedStartPosition, Lanes}
use autoware_agent.Trip.State.{
  TripState, idle, routes_ready, waiting_for_pickup_start, publishing_initial_pose, engaging,
  driving_to_pickup, waiting_for_move, running, failed, state_eq, HeldRoute, TripController, send,
  transition_to, default_status, do_publish_initial_pose, do_publish_goal,
}
use autoware_agent.Trip.Commands.{
  go_to_pickup, on_engage_response, start_at, start_held, start_trip, move_to, move_held, move,
  handle_move_command, publish_start, cancel,
}
use autoware_agent.Trip.Events.{dropped}
use autoware_agent.Trip.Phases.{state_eq_sound, Inv}
use autoware_agent.Trip.Invariant.Commands.{facts_in_state}
use autoware_agent.Trip.Diagram.Spots.{
  Spot, spot, Kind, started, gone, moved, commanded, withdrawn, engaged, Moves, spot-transition_to,
}

-- A kind of event that may leave the spot as it is, or turn the flag on.
stay-gone :
    (s : TripState) (leg : Bool)
    → state_eq s waiting_for_pickup_start ≡ false
    → Moves gone s leg (s, leg)
stay-gone waiting_for_pickup_start leg h = absurd (cc h)
stay-gone _ leg h = inl refl

stay-started : (s : TripState) → Moves started s true (s, true)
stay-started idle = inl refl
stay-started _ = inl refl

stay-moved :
    (s : TripState) (leg : Bool) → state_eq s waiting_for_move ≡ false → Moves moved s leg (s, leg)
stay-moved waiting_for_move leg h = absurd (cc h)
stay-moved _ leg h = inl refl

stay-engaged : (s : TripState) (leg : Bool) → Moves engaged s leg (s, leg)
stay-engaged idle leg = inl refl
stay-engaged _ leg = inl refl

stay-commanded :
    (s : TripState) (leg : Bool)
    → state_eq s waiting_for_pickup_start ≡ false
    → state_eq s waiting_for_move ≡ false
    → Moves commanded s leg (s, leg)
stay-commanded waiting_for_pickup_start leg h k = absurd (cc h)
stay-commanded waiting_for_move leg h k = absurd (cc k)
stay-commanded _ leg h k = inl refl

-- In a state that is known, the moves are read off the diagram.
pub Moves-in :
    (k : Kind) (leg : Bool) (b : Spot) (s t : TripState) → s ≡ t → Moves k t leg b → Moves k s leg b
Moves-in k leg b s t st h = subst (λ (q : TripState). Moves k q leg b) (sym st) h

module _ {F M : Type 0} where
  -- The moves of a kind of event from where the controller stands.
  abbrev pub MovesFrom : Kind → TripController F M → TripController F M → Type 0
  MovesFrom k c c' = Moves k c.status.state c.engaging_for_pickup (spot c')

  pub go_to_pickup-Moves :
      (c : TripController F M) (now : ℕ) → MovesFrom gone c (go_to_pickup c now).0
  unfolding go_to_pickup
  go_to_pickup-Moves c now = elim (Bool-cases (state_eq c.status.state waiting_for_pickup_start)) [
    | inl same ↦ rw same (
        Moves-in gone c.engaging_for_pickup _ c.status.state waiting_for_pickup_start
          (state_eq_sound c.status.state waiting_for_pickup_start same)
          (inl (spot-transition_to _ publishing_initial_pose now)))
    | inr other ↦ rw other (stay-gone c.status.state c.engaging_for_pickup other)
  ]

  engaged_leg :
      (c : TripController F M) (leg : Bool) (now : ℕ)
      → c.engaging_for_pickup ≡ leg
      → Moves engaged engaging leg (
          spot (if leg then transition_to c driving_to_pickup now else transition_to c running now))
  engaged_leg c true now h = inr (
      inl
        (spot-transition_to c driving_to_pickup now ∙ ap (λ (b : Bool). (driving_to_pickup, b)) h))
  engaged_leg c false now h =
      inr (inl (spot-transition_to c running now ∙ ap (λ (b : Bool). (running, b)) h))

  pub on_engage_response-Moves :
      (c : TripController F M) (code now : ℕ) → MovesFrom engaged c (on_engage_response c code now)
  unfolding on_engage_response
  on_engage_response-Moves c code now = elim (Bool-cases (code == 1)) [
    | inl success ↦ elim (Bool-cases (state_eq c.status.state engaging)) [
      | inl same ↦
          rw (success, same)
            (Moves-in engaged c.engaging_for_pickup _ c.status.state engaging
              (state_eq_sound c.status.state engaging same)
              (engaged_leg c c.engaging_for_pickup now refl))
      | inr other ↦ rw (success, other) (stay-engaged c.status.state c.engaging_for_pickup)
    ]
    | inr failure ↦ rw failure (stay-engaged c.status.state c.engaging_for_pickup)
  ]

-- In the two states that await a command, it is the one that they await.
as_command :
    (s : TripState) (leg : Bool) (b : Spot)
    → s ≡ waiting_for_pickup_start
    → Moves gone s leg b
    → Moves commanded s leg b
as_command s leg b st h =
    subst (λ (q : TripState). Moves gone q leg b → Moves commanded q leg b) (sym st) (λ k. k) h

as_move :
    (s : TripState) (leg : Bool) (b : Spot)
    → s ≡ waiting_for_move
    → Moves moved s leg b
    → Moves commanded s leg b
as_move s leg b st h =
    subst (λ (q : TripState). Moves moved q leg b → Moves commanded q leg b) (sym st) (λ k. k) h

module _ {F M : Type 0} (e : Lanes F M) where
  start_at-Moves :
      (c : TripController F M) (held : HeldRoute F) (now : ℕ) (found : Option (LaneInfo F))
      → c.engaging_for_pickup ≡ true
      → Moves started routes_ready true (spot (start_at e c held now found).0)
  unfolding start_at
  start_at-Moves c held now none flag =
      inr (inr (inl (spot-transition_to c failed now ∙ ap (λ (b : Bool). (failed, b)) flag)))
  start_at-Moves c held now (some l) flag = inr (
      inl (
        spot-transition_to _ waiting_for_pickup_start now
        ∙ ap (λ (b : Bool). (waiting_for_pickup_start, b)) flag))

  refused :
      (c : TripController F M)
      → c.engaging_for_pickup ≡ true
      → Moves started c.status.state true (spot c)
  refused c flag =
      subst (λ (b : Bool). Moves started c.status.state true (c.status.state, b)) (sym flag)
        (stay-started c.status.state)

  -- A start looks up the lane in ROUTES_READY alone: in IDLE no route is held.
  start_held-Moves :
      (Known : ℤ → Type 0) (Sound : M → Type 0) (c : TripController F M)
      (p t : Option (HeldRoute F)) (now : ℕ)
      → c.pickup_route ≡ p
      → c.engaging_for_pickup ≡ true
      → Inv Known Sound c
      → Ensures
          (λ c'. Moves started c.status.state true (spot c'))
          (dropped e (start_held e c p t now))
  unfolding start_held
  start_held-Moves Known Sound c none t now p flag h = refused c flag
  start_held-Moves Known Sound c (some held) none now p flag h = refused c flag
  start_held-Moves Known Sound c (some held) (some later) now p flag h =
      elim (Bool-cases (state_eq c.status.state routes_ready)) [
        | inl same ↦
            let st = state_eq_sound c.status.state routes_ready same in
            rw same (found_lane st (e.get_lane_by_id c.lanelet_map held.goal_lane_id))
        | inr other ↦ elim (Bool-cases (state_eq c.status.state idle)) [
          | inl same ↦ cc (sym p ∙ (facts_in_state Known Sound c idle same h).1)
          | inr not_idle ↦ rw (other, not_idle) (refused c flag)
        ]
      ]
    where
      found_lane :
          c.status.state ≡ routes_ready
          → (r : Result (Option (LaneInfo F) × M))
          → Ensures
              (λ c'. Moves started c.status.state true (spot c'))
              (dropped e (
                r >>= λ found.
                ok (start_at e (record c { lanelet_map = found.1 }) held now found.0)))
      found_lane st (ok found) =
          Moves-in started true _ c.status.state routes_ready st
            (start_at-Moves _ held now found.0 flag)
      found_lane st (err x) = tt

  pub start_trip-Moves :
      (Known : ℤ → Type 0) (Sound : M → Type 0) (c : TripController F M) (now : ℕ)
      → Inv Known Sound c
      → Ensures (MovesFrom started c) (dropped e (start_trip e c now))
  unfolding start_trip
  start_trip-Moves Known Sound c now h =
      start_held-Moves Known Sound _ c.pickup_route c.trip_route now refl refl h

  move_to-Moves :
      (c : TripController F M) (held : HeldRoute F) (now : ℕ) (found : Option (LaneInfo F))
      → Moves moved waiting_for_move c.engaging_for_pickup (spot (move_to e c held now found).0)
  unfolding move_to do_publish_goal send
  move_to-Moves c held now none = inl (spot-transition_to c failed now)
  move_to-Moves c held now (some l) = inr (inl (spot-transition_to _ engaging now))

  move_held-Moves :
      (c : TripController F M) (t : Option (HeldRoute F)) (now : ℕ)
      → Ensures
          (λ c'. Moves moved waiting_for_move c.engaging_for_pickup (spot c'))
          (dropped e (move_held e c t now))
  unfolding move_held
  move_held-Moves c none now = inl (spot-transition_to c failed now)
  move_held-Moves c (some held) now = from_lane (stoll c.status.start_lanelet_id)
    where
      to_lane :
          (r : Result (Option (LaneInfo F) × M))
          → Ensures
              (λ c'. Moves moved waiting_for_move c.engaging_for_pickup (spot c'))
              (dropped e (
                r >>= λ found.
                ok (move_to e (record c { lanelet_map = found.1 }) held now found.0)))
      to_lane (ok found) = move_to-Moves (record c { lanelet_map = found.1 }) held now found.0
      to_lane (err x) = tt

      from_lane :
          (r : Result ℤ)
          → Ensures
              (λ c'. Moves moved waiting_for_move c.engaging_for_pickup (spot c'))
              (dropped e (
                r >>= λ id.
                e.find_nearest_connected_lane c.lanelet_map held.goal_gps id true >>= λ found.
                ok (move_to e (record c { lanelet_map = found.1 }) held now found.0)))
      from_lane (ok id) =
          to_lane (e.find_nearest_connected_lane c.lanelet_map held.goal_gps id true)
      from_lane (err x) = tt

  pub move-Moves :
      (c : TripController F M) (now : ℕ) → Ensures (MovesFrom moved c) (dropped e (move e c now))
  unfolding move
  move-Moves c now = elim (Bool-cases (state_eq c.status.state waiting_for_move)) [
    | inl same ↦
        let st = state_eq_sound c.status.state waiting_for_move same in
        rw same (
          subst
            (λ (s : TripState).
              Ensures (λ c'. Moves moved s c.engaging_for_pickup (spot c'))
                (dropped e (move_held e c c.trip_route now)))
            (sym st) (move_held-Moves c c.trip_route now))
    | inr other ↦ rw other (stay-moved c.status.state c.engaging_for_pickup other)
  ]

  pub handle_move_command-Moves :
      (c : TripController F M) (now : ℕ)
      → Ensures (MovesFrom commanded c) (dropped e (handle_move_command e c now))
  unfolding handle_move_command
  handle_move_command-Moves c now =
      elim (Bool-cases (state_eq c.status.state waiting_for_pickup_start)) [
        | inl same ↦ rw same (
            as_command c.status.state c.engaging_for_pickup _
              (state_eq_sound c.status.state waiting_for_pickup_start same)
              (go_to_pickup-Moves c now))
        | inr other ↦ elim (Bool-cases (state_eq c.status.state waiting_for_move)) [
          | inl same ↦
              rw (other, same)
                (Ensures-weaken (MovesFrom moved c) (MovesFrom commanded c) _
                  (λ c' k.
                    as_move c.status.state c.engaging_for_pickup _
                      (state_eq_sound c.status.state waiting_for_move same) k)
                  (move-Moves c now))
          | inr neither ↦
              rw (other, neither)
                (stay-commanded c.status.state c.engaging_for_pickup other neither)
        ]
      ]

  pub cancel-Moves : (c : TripController F M) (now : ℕ) → MovesFrom withdrawn c (cancel e c now)
  unfolding cancel publish_start do_publish_initial_pose send
  cancel-Moves c now = from_start (e.get_default_start c.lanelet_map)
    where
      from_start :
          (start : Option (FixedStartPosition F))
          → spot (
              transition_to
                (publish_start e start
                  (record c {
                    querying = false;
                    query_cb = none;
                    pickup_route = none;
                    trip_route = none;
                    status = default_status e;
                    route_received = false;
                    engaging_for_pickup = false;
                    current_route_state = none;
                  })
                  now)
                idle
                now)
            ≡ (idle, false)
      from_start none = spot-transition_to _ idle now
      from_start (some start) = spot-transition_to _ idle now
