-- ===== src/Agent/Sane.antt =====
-- The agent around the controller: no history of commands, jobs and ticks raises an exception.
use autoware_agent.Base.{
  ◌==◌, ℕ, ◌≡◌, refl, sym, ◌∙◌, Bool, List, [], ◌∷◌, Option, none, some, ℤ, Returns, Returns->>=,
  subst, if_both,
}
use autoware_agent.Geometry.{Lanes, LocalCoordinate}
use autoware_agent.Lanelets.Geometry.{text_eq}
use autoware_agent.Trip.Laws.{LawfulLanes}
use autoware_agent.Trip.State.{
  TripState, idle, EtaQueryResult, Output, answered, initial_pose, goal_pose, mode_request,
  engage_request, state_changed, pickup_arrived, dropoff_arrived, TripController,
}
use autoware_agent.Controller.{
  AutowareController, Reply, replied, status_replied, eta_replied, Notice, trip_state, arrival,
}
use autoware_agent.Controller.Requests.{Request, serve}
use autoware_agent.Controller.Served.{ControllerInv, TripInv, serve-Inv}
use autoware_agent.Gateway.{
  GatewayCommand, trip_init, trip_move, trip_cancel, trip_park, order_update_location,
  order_update_status, no_command, vin_of,
}
use autoware_agent.Agent.{
  Agent, Job, AgentEvent, receives, runs, serves, location_runs, location_ticks, request, post,
  set_streaming, on_trip_init, on_trip_move, on_order_update_location, on_trip_cancel, dispatch,
  on_command, on_eta_result, on_trip_state, on_notice, on_sent, on_reply, on_all_sent,
  on_all_replies, settle, listening, without_sent, sent_of, on_request, run_posted, run_location,
  on_event, on_events,
}

module _ {F M : Type 0} (e : Lanes F M) where
  on_eta_result-controller :
      (a : Agent F M) (r : EtaQueryResult F) → (on_eta_result e a r).controller ≡ a.controller
  unfolding on_eta_result post
  on_eta_result-controller a r = if_both (λ b. b.controller ≡ a.controller) r.success _ a refl refl

  on_trip_state-controller :
      (a : Agent F M) (s : TripState) → (on_trip_state e a s).controller ≡ a.controller
  unfolding on_trip_state set_streaming
  on_trip_state-controller a idle = refl
  on_trip_state-controller a _ = refl

  on_notice-controller :
      (a : Agent F M) (n : Option Notice) → (on_notice e a n).controller ≡ a.controller
  on_notice-controller a none = refl
  on_notice-controller a (some (trip_state prev next)) = on_trip_state-controller a next
  on_notice-controller a (some (arrival kind)) = refl

  on_sent-controller : (a : Agent F M) (o : Output F) → (on_sent e a o).controller ≡ a.controller
  on_sent-controller a (answered k r) =
      if_both (λ b. b.controller ≡ a.controller) (k == 0) _ a (on_eta_result-controller a r) refl
  on_sent-controller a (initial_pose p) = on_notice-controller a _
  on_sent-controller a (goal_pose p) = on_notice-controller a _
  on_sent-controller a (state_changed p n) = on_notice-controller a _
  on_sent-controller a mode_request = on_notice-controller a _
  on_sent-controller a engage_request = on_notice-controller a _
  on_sent-controller a pickup_arrived = on_notice-controller a _
  on_sent-controller a dropoff_arrived = on_notice-controller a _

  on_reply-controller : (a : Agent F M) (r : Reply F) → (on_reply e a r).controller ≡ a.controller
  on_reply-controller a (replied k b) = refl
  on_reply-controller a (status_replied k s) =
      if_both (λ b. b.controller ≡ a.controller) (k == 3) _ a refl refl
  on_reply-controller a (eta_replied k r) =
      if_both (λ b. b.controller ≡ a.controller) (k == 0) _ a (on_eta_result-controller a r) refl

  pub on_all_sent-controller :
      (a : Agent F M) (os : List (Output F)) → (on_all_sent e a os).controller ≡ a.controller
  on_all_sent-controller a [] = refl
  on_all_sent-controller a (o ∷ os) =
      on_sent-controller (on_all_sent e a os) o ∙ on_all_sent-controller a os

  on_all_replies-controller :
      (a : Agent F M) (rs : List (Reply F)) → (on_all_replies e a rs).controller ≡ a.controller
  on_all_replies-controller a [] = refl
  on_all_replies-controller a (r ∷ rs) =
      on_reply-controller (on_all_replies e a rs) r ∙ on_all_replies-controller a rs

  pub settle-controller :
      (a : Agent F M) (c : AutowareController F M) → (settle e a c).controller ≡ c
  settle-controller a c =
      on_all_replies-controller (on_all_sent e (record a { controller = c }) (sent_of c.trip_ctrl))
        c.replies
      ∙ on_all_sent-controller (record a { controller = c }) (sent_of c.trip_ctrl)

module _ {F M : Type 0} where
  dispatch-controller :
      (a : Agent F M) (cmd : GatewayCommand F) → (dispatch a cmd).controller ≡ a.controller
  unfolding dispatch on_trip_init on_trip_move on_order_update_location on_trip_cancel post
  dispatch-controller a (trip_init vin id start goal) =
      if_both (λ (b : Agent F M). b.controller ≡ a.controller) a.handlers_set _ _ refl refl
  dispatch-controller a (trip_move vin id) =
      if_both (λ (b : Agent F M). b.controller ≡ a.controller) a.handlers_set _ _ refl refl
  dispatch-controller a (trip_cancel vin id) =
      if_both (λ (b : Agent F M). b.controller ≡ a.controller) a.handlers_set _ _ refl refl
  dispatch-controller a (order_update_location vin) =
      if_both (λ (b : Agent F M). b.controller ≡ a.controller) a.handlers_set _ _ refl refl
  dispatch-controller a (trip_park vin) = refl
  dispatch-controller a (order_update_status vin) = refl
  dispatch-controller a no_command = refl

  run_location-controller :
      (a : Agent F M) (l : List Bool) → (run_location a l).controller ≡ a.controller
  run_location-controller a [] = refl
  run_location-controller a (b ∷ rest) = refl

module _ {F M : Type 0} (e : Lanes F M) (Known : ℤ → Type 0) (Sound : M → Type 0)
    (laws : LawfulLanes e Known Sound) where
  abbrev pub AgentInv : Agent F M → Type 0
  AgentInv a = ControllerInv e Known Sound laws a.controller

  without_sent-TripInv :
      (o : Option (TripController F M))
      → TripInv e Known Sound laws o
      → TripInv e Known Sound laws (without_sent o)
  without_sent-TripInv none h = h
  without_sent-TripInv (some t) h = h

  on_request-Inv :
      (a : Agent F M) (now : ℕ) (r : Request F)
      → AgentInv a
      → Returns AgentInv (on_request e a now r)
  unfolding on_request
  on_request-Inv a now r h =
      Returns->>= (ControllerInv e Known Sound laws) AgentInv
        (serve e (listening a.controller) now r) _
        (serve-Inv e Known Sound laws (listening a.controller) now r
          (h.0, without_sent-TripInv a.controller.trip_ctrl h.1))
        (λ c k. subst (ControllerInv e Known Sound laws) (sym (settle-controller e a c)) k)

  run_posted-Inv :
      (a : Agent F M) (now : ℕ) (tf : Option (LocalCoordinate F)) (jobs : List (Job F))
      → AgentInv a
      → Returns AgentInv (run_posted e a now tf jobs)
  run_posted-Inv a now tf [] h = h
  run_posted-Inv a now tf (job ∷ jobs) h =
      on_request-Inv (record a { posted = jobs }) now (request job tf) h

  on_event-Inv :
      (a : Agent F M) (ev : AgentEvent F) → AgentInv a → Returns AgentInv (on_event e a ev)
  unfolding on_event on_command
  on_event-Inv a (receives cmd) h =
      if_both AgentInv (text_eq (vin_of cmd) a.gateway.vin) (dispatch a cmd) a
        (subst (ControllerInv e Known Sound laws) (sym (dispatch-controller a cmd)) h) h
  on_event-Inv a (runs now tf) h = run_posted-Inv a now tf a.posted h
  on_event-Inv a (serves now r) h = on_request-Inv a now r h
  on_event-Inv a location_runs h =
      subst (ControllerInv e Known Sound laws) (sym (run_location-controller a a.location_posted)) h
  on_event-Inv a (location_ticks now) h = h

  -- From an agent whose controller satisfies its invariant, over a map that fills the interface of
  -- the trip controller: whatever commands the gateway sends, in whatever order the posted jobs,
  -- the timer events and messages of the controller and the work of the location bridge then run,
  -- and with whatever transforms and times, no exception is raised, and the controller satisfies
  -- its invariant at the end.
  pub on_events-AgentInv :
      (a : Agent F M) (history : List (AgentEvent F))
      → AgentInv a
      → Returns AgentInv (on_events e a history)
  unfolding on_events
  on_events-AgentInv a [] h = h
  on_events-AgentInv a (ev ∷ rest) h =
      Returns->>= AgentInv AgentInv (on_event e a ev) _ (on_event-Inv a ev h)
        (λ b k. on_events-AgentInv b rest k)
