-- ===== src/Agent/Reports.antt =====
-- What the agent tells the gateway and the location bridge when the trip changes its state.
use autoware_agent.Base.{
  ◌==◌, ℕ, ◌≡◌, refl, sym, ap, ◌∙◌, Bool, true, false, List, [], ◌∷◌, ◌++◌, append_nil, none, some,
  Text, codes, ok, ◌>>=◌, if_both, if◌then◌else◌, subst,
}
use autoware_agent.Geometry.{Lanes}
use autoware_agent.Trip.State.{
  TripState, waiting_for_move, driving_to_pickup, running, completed, failed, EtaQueryResult,
  Output, answered, initial_pose, goal_pose, mode_request, engage_request, state_changed,
  pickup_arrived, dropoff_arrived,
}
use autoware_agent.Controller.{
  AutowareController, Reply, replied, status_replied, eta_replied, trip_state, on_output,
}
use autoware_agent.Controller.Requests.{Request, serve}
use autoware_agent.Gateway.{
  Gateway, PlaceData, VehicleEvent, status, eta, arrive, location, trip_init_ack, trip_cancel_ack,
  order_update_location_ack, enqueue, report_trip_init_ack, report_location, report_eta,
  report_status, report_arrive, get_place_data,
}
use autoware_agent.Agent.{
  Agent, post, set_streaming, on_eta_result, on_trip_state, on_notice, on_sent, on_reply, settle,
  listening, sent_of, on_request,
}
use autoware_agent.Agent.Sane.{settle-controller}
use autoware_agent.Agent.Heard.{over, over_nothing, settle-adds}

-- The texts of the status events, oldest first.
abbrev pub statuses : {F : Type 0} → List (VehicleEvent F) → List Text
statuses [] = []
statuses (status vin id text ∷ evs) = text ∷ statuses evs
statuses (_ ∷ evs) = statuses evs

-- What the gateway is to hear when a state is entered.
abbrev pub announcement : TripState → List Text
announcement waiting_for_move = codes "ARRIVED_AT_PICKUP" ∷ []
announcement running = codes "IN_PROGRESS" ∷ []
announcement completed = codes "COMPLETED" ∷ []
announcement failed = codes "ERROR" ∷ []
announcement _ = []

-- The location is streamed while the vehicle drives to the pickup.
abbrev pub switch : TripState → List Bool
switch driving_to_pickup = true ∷ []
switch waiting_for_move = false ∷ []
switch _ = []

-- What a state change comes to, and another output to nothing.
abbrev pub at_change {ℓ} : {A : Type ℓ} {F : Type 0} → (TripState → List A) → Output F → List A
at_change f (state_changed prev next) = f next
at_change f _ = []

-- Over the state changes of a history, which is newest first.
abbrev pub over_changes {ℓ} :
    {A : Type ℓ} {F : Type 0} → (TripState → List A) → List (Output F) → List A
over_changes f os = over (at_change f) os

module _ {F M : Type 0} where
  -- From one agent to the next, these statuses and switches come on top.
  abbrev Adds : Agent F M → Agent F M → List Text → List Bool → Type 0
  Adds a b texts switches =
      (statuses b.gateway.write_queue ≡ statuses a.gateway.write_queue ++ texts)
      × (b.location_posted ≡ a.location_posted ++ switches)

  Adds-nothing : (a : Agent F M) → Adds a a [] []
  Adds-nothing a = (sym (append_nil _), sym (append_nil _))

module _ {F : Type 0} where
  statuses-append : (q r : List (VehicleEvent F)) → statuses (q ++ r) ≡ statuses q ++ statuses r
  statuses-append [] r = refl
  statuses-append (status vin id text ∷ q) r = ap (text ∷◌) (statuses-append q r)
  statuses-append (eta a b c d f ∷ q) r = statuses-append q r
  statuses-append (arrive a b c d ∷ q) r = statuses-append q r
  statuses-append (location a b c ∷ q) r = statuses-append q r
  statuses-append (trip_init_ack a b ∷ q) r = statuses-append q r
  statuses-append (trip_cancel_ack a b ∷ q) r = statuses-append q r
  statuses-append (order_update_location_ack a b ∷ q) r = statuses-append q r

  statuses-report_status :
      (g : Gateway F) (t : Text)
      → statuses (report_status g t).write_queue ≡ statuses g.write_queue ++ t ∷ []
  unfolding report_status enqueue
  statuses-report_status g t = statuses-append g.write_queue (status g.vin g.active_trip_id t ∷ [])

  -- An event that is not a status.
  statuses-enqueue :
      (g : Gateway F) (ev : VehicleEvent F)
      → statuses (ev ∷ []) ≡ []
      → statuses (enqueue g ev).write_queue ≡ statuses g.write_queue
  unfolding enqueue
  statuses-enqueue g ev h =
      statuses-append g.write_queue (ev ∷ [])
      ∙ ap (λ l. statuses g.write_queue ++ l) h
      ∙ append_nil (statuses g.write_queue)

  statuses-report_arrive :
      (g : Gateway F) (d : PlaceData F)
      → statuses (report_arrive g d).write_queue ≡ statuses g.write_queue
  unfolding report_arrive
  statuses-report_arrive g d = statuses-enqueue g _ refl

  statuses-report_trip_init_ack :
      (g : Gateway F) → statuses (report_trip_init_ack g).write_queue ≡ statuses g.write_queue
  unfolding report_trip_init_ack
  statuses-report_trip_init_ack g = statuses-enqueue g _ refl

module _ {F M : Type 0} (e : Lanes F M) where
  on_eta_result-Adds : (a : Agent F M) (r : EtaQueryResult F) → Adds a (on_eta_result e a r) [] []
  unfolding on_eta_result post report_eta
  on_eta_result-Adds a r =
      if_both (λ b. Adds a b [] []) r.success _ a
        (statuses-enqueue a.gateway _ refl ∙ sym (append_nil _), sym (append_nil _))
        (Adds-nothing a)

  on_trip_state-Adds :
      (a : Agent F M) (s : TripState) → Adds a (on_trip_state e a s) (announcement s) (switch s)
  unfolding on_trip_state set_streaming
  on_trip_state-Adds a waiting_for_move =
      let g = report_trip_init_ack a.gateway in
      let d = get_place_data e g a.controller in
      (
        statuses-report_status (report_arrive g d) (codes "ARRIVED_AT_PICKUP")
            ∙ ap (λ l. l ++ codes "ARRIVED_AT_PICKUP" ∷ [])
                (statuses-report_arrive g d ∙ statuses-report_trip_init_ack a.gateway),
        refl,
      )
  on_trip_state-Adds a driving_to_pickup = (sym (append_nil _), refl)
  on_trip_state-Adds a running =
      (statuses-report_status a.gateway (codes "IN_PROGRESS"), sym (append_nil _))
  on_trip_state-Adds a completed =
      let d = get_place_data e a.gateway a.controller in
      (
        statuses-report_status (report_arrive a.gateway d) (codes "COMPLETED")
            ∙ ap (λ l. l ++ codes "COMPLETED" ∷ []) (statuses-report_arrive a.gateway d),
        sym (append_nil _),
      )
  on_trip_state-Adds a failed =
      (statuses-report_status a.gateway (codes "ERROR"), sym (append_nil _))
  on_trip_state-Adds a _ = Adds-nothing a

  on_sent-Adds :
      (a : Agent F M) (o : Output F)
      → a.controller.trip_state_callback ≡ true
      → Adds a (on_sent e a o) (at_change announcement o) (at_change switch o)
  unfolding on_output
  on_sent-Adds a (answered k r) h =
      if_both (λ b. Adds a b [] []) (k == 0) _ a (on_eta_result-Adds a r) (Adds-nothing a)
  on_sent-Adds a (initial_pose p) h = Adds-nothing a
  on_sent-Adds a (goal_pose p) h = Adds-nothing a
  on_sent-Adds a (state_changed p n) h =
      subst
        (λ b.
          Adds a (on_notice e a (if b then some (trip_state p n) else none)) (announcement n)
            (switch n))
        (sym h) (on_trip_state-Adds a n)
  on_sent-Adds a mode_request h = Adds-nothing a
  on_sent-Adds a engage_request h = Adds-nothing a
  on_sent-Adds a pickup_arrived h =
      if_both (λ n. Adds a (on_notice e a n) [] []) a.controller.arrival_callback _ none
        (Adds-nothing a) (Adds-nothing a)
  on_sent-Adds a dropoff_arrived h =
      if_both (λ n. Adds a (on_notice e a n) [] []) a.controller.arrival_callback _ none
        (Adds-nothing a) (Adds-nothing a)

  on_reply-Adds : (a : Agent F M) (r : Reply F) → Adds a (on_reply e a r) [] []
  unfolding report_location
  on_reply-Adds a (replied k b) = Adds-nothing a
  on_reply-Adds a (status_replied k s) =
      if_both (λ b. Adds a b [] []) (k == 3) _ a
        (statuses-enqueue a.gateway _ refl ∙ sym (append_nil _), sym (append_nil _))
        (Adds-nothing a)
  on_reply-Adds a (eta_replied k r) =
      if_both (λ b. Adds a b [] []) (k == 0) _ a (on_eta_result-Adds a r) (Adds-nothing a)

  -- What the outputs of a request come to; the replies add nothing.
  settle-Adds :
      (a : Agent F M) (c : AutowareController F M)
      → c.trip_state_callback ≡ true
      → Adds
          (record a { controller = c })
          (settle e a c)
          (over_changes announcement (sent_of c.trip_ctrl))
          (over_changes switch (sent_of c.trip_ctrl))
  settle-Adds a c set = (
    settle-adds e (λ (b : Agent F M). statuses b.gateway.write_queue) (at_change announcement)
          (λ r. []) (λ d. d.trip_state_callback ≡ true) (λ b o h. (on_sent-Adds b o h).0)
          (λ b r. (on_reply-Adds b r).0) a c set
        ∙ ap (λ l. statuses a.gateway.write_queue ++ l)
            (ap (λ l. over_changes announcement (sent_of c.trip_ctrl) ++ l) (over_nothing c.replies)
              ∙ append_nil _),
    settle-adds e (λ (b : Agent F M). b.location_posted) (at_change switch) (λ r. [])
          (λ d. d.trip_state_callback ≡ true) (λ b o h. (on_sent-Adds b o h).1)
          (λ b r. (on_reply-Adds b r).1) a c set
        ∙ ap (λ l. a.location_posted ++ l)
            (ap (λ l. over_changes switch (sent_of c.trip_ctrl) ++ l) (over_nothing c.replies)
              ∙ append_nil _),
  )

  -- If the controller, with the state callback set, serves a request without an exception and ends
  -- in `c`, then the agent does too. The status events that this adds to the write queue are, in
  -- the order of the state changes that the request caused, ARRIVED_AT_PICKUP for
  -- WAITING_FOR_MOVE, IN_PROGRESS for RUNNING, COMPLETED for COMPLETED and ERROR for FAILED, and
  -- none for another state; and what is added to the strand of the location bridge is, in the same
  -- order, to start streaming for DRIVING_TO_PICKUP and to stop it for WAITING_FOR_MOVE.
  pub on_request-reports :
      (a : Agent F M) (now : ℕ) (r : Request F) (c : AutowareController F M)
      → serve e (listening a.controller) now r ≡ ok c
      → c.trip_state_callback ≡ true
      → (b : Agent F M) × (on_request e a now r ≡ ok b)
        × (b.controller ≡ c)
        × (statuses b.gateway.write_queue
            ≡ statuses a.gateway.write_queue ++ over_changes announcement (sent_of c.trip_ctrl))
        × (b.location_posted ≡ a.location_posted ++ over_changes switch (sent_of c.trip_ctrl))
  unfolding on_request
  on_request-reports a now r c served set = (
    settle e a c,
    ap (λ m. m >>= λ d. ok (settle e a d)) served,
    settle-controller e a c,
    (settle-Adds a c set).0,
    (settle-Adds a c set).1,
  )
