-- ===== src/Trip/Diagram/Query.antt =====
-- Where an ETA query leads in the state diagram.
use autoware_agent.Base.{
  ℕ, ◌≡◌, refl, inl, inr, Bool, true, Option, none, some, Text, ap, ◌∙◌, subst, Bool-cases, Result,
  ok, err, ◌>>=◌, Ensures, Ensures->>=, Ensures-weaken, sym, [], ◌∷◌, List,
}
use autoware_agent.Decimal.{stoll}
use autoware_agent.Geometry.{GpsCoordinate, LocalCoordinate, LaneInfo, Lanes}
use autoware_agent.Trip.State.{
  TripState, idle, query_publishing_initial_pose, query_reading_eta, routes_ready, state_eq,
  QueryLeg, EtaQueryResult, pickup, trip, TripController, send,
}
use autoware_agent.Trip.Query.{
  answer, answer_failure, fail_query, leg_origin, leg_status, unreachable, leg_destination,
  resolve_leg, start_query_leg, finish_leg, finish_query_leg, get_current_vehicle_pose, query_idle,
  accept_query, query_eta, query_success,
}
use autoware_agent.Trip.Events.{dropped}
use autoware_agent.Trip.Phases.{state_eq_sound}
use autoware_agent.Trip.Diagram.Spots.{Spot, spot, Moves, Among, asked, spot-transition_to}

-- The two states in which a leg of a query may leave the controller.
abbrev leg_states : List TripState
leg_states = idle ∷ query_publishing_initial_pose ∷ []

-- The value ends a query leg or begins its next one, with the flag as given.
abbrev pub AtLeg : {F M : Type 0} → Bool → TripController F M → Type 0
AtLeg leg c = Among leg_states leg (spot c)

-- To answer a callback moves nothing.
pub spot-answer :
    {F M : Type 0} (o : Option ℕ) (r : EtaQueryResult F) (c : TripController F M)
    → spot (answer o r c) ≡ spot c
unfolding send
spot-answer none r c = refl
spot-answer (some k) r c = refl

module _ {F M : Type 0} (e : Lanes F M) where
  flag-answer_failure :
      (o : Option ℕ) (reason : Text) (c : TripController F M)
      → (answer_failure e o reason c).engaging_for_pickup ≡ c.engaging_for_pickup
  unfolding answer_failure send
  flag-answer_failure none reason c = refl
  flag-answer_failure (some k) reason c = refl

  pub spot-fail_query :
      (c : TripController F M) (reason : Text) (now : ℕ)
      → spot (fail_query e c reason now) ≡ (idle, c.engaging_for_pickup)
  unfolding fail_query
  spot-fail_query c reason now =
      spot-transition_to _ idle now
      ∙ ap (λ (b : Bool). (idle, b)) (flag-answer_failure c.query_cb reason c)

  leg_destination-AtLeg :
      (c : TripController F M) (l : LaneInfo F) (g : GpsCoordinate F) (now : ℕ)
      (to : Option (LaneInfo F))
      → Ensures (AtLeg c.engaging_for_pickup) (leg_destination e c l g now to)
  unfolding leg_destination unreachable leg_status
  leg_destination-AtLeg c l g now none =
      Ensures->>= (AtLeg c.engaging_for_pickup) (e.find_nearest_lane c.lanelet_map g) _
        (λ found. inl (spot-fail_query _ _ now))
  leg_destination-AtLeg c l g now (some to) =
      inr (inl (spot-transition_to _ query_publishing_initial_pose now))

  resolve_leg-AtLeg :
      (c : TripController F M) (g : GpsCoordinate F) (now : ℕ) (from : Option (LaneInfo F))
      → Ensures (AtLeg c.engaging_for_pickup) (resolve_leg e c g now from)
  unfolding resolve_leg
  resolve_leg-AtLeg c g now none = inl (spot-fail_query c _ now)
  resolve_leg-AtLeg c g now (some l) =
      Ensures->>= (AtLeg c.engaging_for_pickup)
        (e.find_nearest_connected_lane c.lanelet_map g l.lane_id true) _
        (λ found. leg_destination-AtLeg (record c { lanelet_map = found.1 }) l g now found.0)

  start_query_leg-AtLeg :
      (c : TripController F M) (from to : GpsCoordinate F) (now : ℕ)
      → Ensures (AtLeg c.engaging_for_pickup) (start_query_leg e c from to now)
  unfolding start_query_leg
  start_query_leg-AtLeg c from to now =
      Ensures->>= (AtLeg c.engaging_for_pickup) (leg_origin e c c.current_leg from) _
        (λ found. resolve_leg-AtLeg (record c { lanelet_map = found.1 }) to now found.0)

  -- The end of a leg fails the query, begins the next leg or has the routes ready.
  abbrev pub AtLegEnd : Bool → TripController F M → Type 0
  AtLegEnd leg c =
      Among (idle ∷ query_publishing_initial_pose ∷ query_reading_eta ∷ routes_ready ∷ []) leg
        (spot c)

  finish_leg-AtLegEnd :
      (leg : QueryLeg) (c : TripController F M) (now : ℕ)
      → Ensures (AtLegEnd c.engaging_for_pickup) (finish_leg e leg c now)
  unfolding finish_leg
  finish_leg-AtLegEnd pickup c now =
      Ensures->>= (AtLegEnd c.engaging_for_pickup) (stoll c.status.goal_lanelet_id) _ (λ id.
        Ensures-weaken (AtLeg c.engaging_for_pickup) (AtLegEnd c.engaging_for_pickup) _
          (at_end c.engaging_for_pickup)
          (start_query_leg-AtLeg _ c.query_start_gps c.query_goal_gps now))
    where
      at_end : (leg : Bool) (c' : TripController F M) → AtLeg leg c' → AtLegEnd leg c'
      at_end leg c' (inl at_idle) = inl at_idle
      at_end leg c' (inr (inl next_leg)) = inr (inl next_leg)
      at_end leg c' (inr (inr neither)) = absurd neither
  finish_leg-AtLegEnd trip c now = inr (
      inr (
        inr (
          inl (
            spot-transition_to _ routes_ready now
            ∙ ap (λ (a : Spot). (routes_ready, a.1))
                (spot-answer c.query_cb (query_success e c) c)))))

  pub finish_query_leg-AtLegEnd :
      (c : TripController F M) (now : ℕ)
      → Ensures (AtLegEnd c.engaging_for_pickup) (finish_query_leg e c now)
  unfolding finish_query_leg
  finish_query_leg-AtLegEnd c now = finish_leg-AtLegEnd c.current_leg c now

  accept_query-AtLeg :
      (c : TripController F M) (vehicle from to : GpsCoordinate F) (cb : Option ℕ) (now : ℕ)
      → Ensures (AtLeg c.engaging_for_pickup) (accept_query e c vehicle from to cb now)
  unfolding accept_query
  accept_query-AtLeg c vehicle from to cb now = start_query_leg-AtLeg _ vehicle from now

  query_idle-AtLeg :
      (c : TripController F M) (pose : Option (GpsCoordinate F)) (from to : GpsCoordinate F)
      (cb : Option ℕ) (now : ℕ)
      → c.status.state ≡ idle
      → Ensures (AtLeg c.engaging_for_pickup) (dropped e (query_idle e c pose from to cb now))
  unfolding query_idle
  query_idle-AtLeg c none from to cb now st =
      inl (spot-answer cb _ c ∙ ap (λ (s : TripState). (s, c.engaging_for_pickup)) st)
  query_idle-AtLeg c (some vehicle) from to cb now st =
      unpair (accept_query e c vehicle from to cb now) (accept_query-AtLeg c vehicle from to cb now)
    where
      unpair :
          (r : Result (TripController F M))
          → Ensures (AtLeg c.engaging_for_pickup) r
          → Ensures (AtLeg c.engaging_for_pickup) (dropped e (r >>= λ c'. ok (c', true)))
      unpair (ok c') k = k
      unpair (err x) k = k

  asked_may_stay : (s : TripState) (leg : Bool) → Moves asked s leg (s, leg)
  asked_may_stay idle leg = inl refl
  asked_may_stay _ leg = inl refl

  pub query_eta-Moves :
      (c : TripController F M) (tf : Option (LocalCoordinate F)) (from to : GpsCoordinate F)
      (cb : Option ℕ) (now : ℕ)
      → Ensures
          (λ c'. Moves asked c.status.state c.engaging_for_pickup (spot c'))
          (dropped e (query_eta e c tf from to cb now))
  unfolding query_eta
  query_eta-Moves c tf from to cb now = elim (Bool-cases (state_eq c.status.state idle)) [
    | inl same ↦
        let at_idle = state_eq_sound c.status.state idle same in
        rw same (
          subst
            (λ (s : TripState).
              Ensures (λ c'. Moves asked s c.engaging_for_pickup (spot c'))
                (dropped e (query_idle e c (get_current_vehicle_pose e tf) from to cb now)))
            (sym at_idle)
            (query_idle-AtLeg c (get_current_vehicle_pose e tf) from to cb now at_idle))
    | inr other ↦ rw other (
        subst (λ (b : Spot). Moves asked c.status.state c.engaging_for_pickup b)
          (sym (spot-answer cb _ c)) (asked_may_stay c.status.state c.engaging_for_pickup))
  ]
