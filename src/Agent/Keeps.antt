-- ===== src/Agent/Keeps.antt =====
-- What every event of the agent keeps of its gateway client, from what each report keeps.
use autoware_agent.Base.{
  ◌==◌, ℕ, ◌≡◌, refl, Bool, true, false, List, [], ◌∷◌, Option, none, some, Text, All, ℤ,
  if◌then◌else◌, Ensures, Ensures->>=, Ensures-then, if_both, subst,
}
use autoware_agent.Geometry.{Lanes, LocalCoordinate}
use autoware_agent.Lanelets.Geometry.{text_eq}
use autoware_agent.Trip.State.{
  TripState, waiting_for_move, running, completed, failed, EtaQueryResult, Output, answered,
  initial_pose, goal_pose, mode_request, engage_request, state_changed, pickup_arrived,
  dropoff_arrived,
}
use autoware_agent.Controller.{
  AutowareController, Reply, replied, status_replied, eta_replied, Notice, trip_state, arrival,
}
use autoware_agent.Controller.Requests.{Request, serve}
use autoware_agent.Gateway.{
  GatewayCommand, trip_init, trip_move, trip_cancel, trip_park, order_update_location,
  order_update_status, no_command, Gateway, PlaceData, vin_of, report_trip_init_ack,
  report_trip_cancel_ack, report_order_update_location_ack, report_location, report_eta,
  report_status, report_arrive, set_active_trip_id, get_place_data,
}
use autoware_agent.Agent.{
  Agent, Job, AgentEvent, receives, runs, serves, location_runs, location_ticks, request, post,
  set_streaming, on_trip_init, on_trip_move, on_order_update_location, on_trip_cancel, dispatch,
  on_command, on_eta_result, on_trip_state, on_notice, on_sent, on_reply, on_all_sent,
  on_all_replies, settle, listening, sent_of, on_request, run_posted, run_location, on_event,
  on_events,
}

-- A property of the client that its reports keep, and that new ids keep if they are allowed.
pub record Kept {F : Type 0} (Allowed : ℤ → Type 0) (vin : Text) (P : Gateway F → Type 0)
    : Type 0 where
  pub same_vin : (g : Gateway F) → P g → g.vin ≡ vin
  pub keeps_id : (g : Gateway F) (id : ℤ) → Allowed id → P g → P (set_active_trip_id g id)
  pub keeps_request : (g : Gateway F) (id : ℤ) → Allowed id → P g → P (record g { request_id = id })
  pub keeps_init_ack : (g : Gateway F) → P g → P (report_trip_init_ack g)
  pub keeps_cancel_ack :
      (g : Gateway F) (b : Bool) (t : Text) → P g → P (report_trip_cancel_ack g b t)
  pub keeps_update_ack :
      (g : Gateway F) (b : Bool) (t : Text) → P g → P (report_order_update_location_ack g b t)
  pub keeps_location : (g : Gateway F) (x y : F) → P g → P (report_location g x y)
  pub keeps_eta : (g : Gateway F) (d t f : F) → P g → P (report_eta g d t f)
  pub keeps_status : (g : Gateway F) (t : Text) → P g → P (report_status g t)
  pub keeps_arrive :
      (g : Gateway F) (d : PlaceData F) → d.trip_id ≡ g.active_trip_id → P g → P (report_arrive g d)

-- The ids that come with the vehicle's own vin are allowed.
abbrev pub Authorised : {F : Type 0} → (ℤ → Type 0) → Text → AgentEvent F → Type 0
Authorised Allowed v (receives (trip_init vin id start goal)) = text_eq vin v ≡ true → Allowed id
Authorised Allowed v (receives (trip_move vin id)) = text_eq vin v ≡ true → Allowed id
Authorised Allowed v _ = Unit {0}

module _ {F M : Type 0} (e : Lanes F M) (Allowed : ℤ → Type 0) (v : Text) (P : Gateway F → Type 0)
    (kept : Kept Allowed v P) where
  on_eta_result-keeps :
      (a : Agent F M) (r : EtaQueryResult F) → P a.gateway → P (on_eta_result e a r).gateway
  unfolding on_eta_result post
  on_eta_result-keeps a r h =
      if_both (λ b. P b.gateway) r.success _ a (kept.keeps_eta a.gateway _ _ _ h) h

  on_trip_state-keeps :
      (a : Agent F M) (s : TripState) → P a.gateway → P (on_trip_state e a s).gateway
  unfolding on_trip_state set_streaming get_place_data
  on_trip_state-keeps a waiting_for_move h =
      kept.keeps_status _ _ (kept.keeps_arrive _ _ refl (kept.keeps_init_ack a.gateway h))
  on_trip_state-keeps a running h = kept.keeps_status _ _ h
  on_trip_state-keeps a completed h = kept.keeps_status _ _ (kept.keeps_arrive _ _ refl h)
  on_trip_state-keeps a failed h = kept.keeps_status _ _ h
  on_trip_state-keeps a _ h = h

  on_notice-keeps : (a : Agent F M) (n : Option Notice) → P a.gateway → P (on_notice e a n).gateway
  on_notice-keeps a none h = h
  on_notice-keeps a (some (trip_state prev next)) h = on_trip_state-keeps a next h
  on_notice-keeps a (some (arrival kind)) h = h

  on_sent-keeps : (a : Agent F M) (o : Output F) → P a.gateway → P (on_sent e a o).gateway
  on_sent-keeps a (answered k r) h =
      if_both (λ b. P b.gateway) (k == 0) _ a (on_eta_result-keeps a r h) h
  on_sent-keeps a (initial_pose p) h = on_notice-keeps a _ h
  on_sent-keeps a (goal_pose p) h = on_notice-keeps a _ h
  on_sent-keeps a (state_changed p n) h = on_notice-keeps a _ h
  on_sent-keeps a mode_request h = on_notice-keeps a _ h
  on_sent-keeps a engage_request h = on_notice-keeps a _ h
  on_sent-keeps a pickup_arrived h = on_notice-keeps a _ h
  on_sent-keeps a dropoff_arrived h = on_notice-keeps a _ h

  on_reply-keeps : (a : Agent F M) (r : Reply F) → P a.gateway → P (on_reply e a r).gateway
  on_reply-keeps a (replied k b) h = h
  on_reply-keeps a (status_replied k s) h =
      if_both (λ b. P b.gateway) (k == 3) _ a (kept.keeps_location _ _ _ h) h
  on_reply-keeps a (eta_replied k r) h =
      if_both (λ b. P b.gateway) (k == 0) _ a (on_eta_result-keeps a r h) h

  on_all_sent-keeps :
      (a : Agent F M) (os : List (Output F)) → P a.gateway → P (on_all_sent e a os).gateway
  on_all_sent-keeps a [] h = h
  on_all_sent-keeps a (o ∷ os) h = on_sent-keeps _ o (on_all_sent-keeps a os h)

  on_all_replies-keeps :
      (a : Agent F M) (rs : List (Reply F)) → P a.gateway → P (on_all_replies e a rs).gateway
  on_all_replies-keeps a [] h = h
  on_all_replies-keeps a (r ∷ rs) h = on_reply-keeps _ r (on_all_replies-keeps a rs h)

  settle-keeps :
      (a : Agent F M) (c : AutowareController F M) → P a.gateway → P (settle e a c).gateway
  settle-keeps a c h =
      on_all_replies-keeps (on_all_sent e (record a { controller = c }) (sent_of c.trip_ctrl))
        c.replies (on_all_sent-keeps (record a { controller = c }) (sent_of c.trip_ctrl) h)

  on_request-keeps :
      (a : Agent F M) (now : ℕ) (r : Request F)
      → P a.gateway
      → Ensures (λ b. P b.gateway) (on_request e a now r)
  unfolding on_request
  on_request-keeps a now r h =
      Ensures->>= (λ b. P b.gateway) (serve e (listening a.controller) now r) _
        (λ c. settle-keeps a c h)

  dispatch-keeps :
      (a : Agent F M) (cmd : GatewayCommand F)
      → Authorised Allowed v (receives cmd)
      → text_eq (vin_of cmd) v ≡ true
      → P a.gateway
      → P (dispatch a cmd).gateway
  unfolding dispatch on_trip_init on_trip_move on_order_update_location on_trip_cancel post
  dispatch-keeps a (trip_init vin id start goal) allowed own h =
      let k = kept.keeps_request _ id (allowed own) (kept.keeps_id a.gateway id (allowed own) h) in
      if_both (λ (b : Agent F M). P b.gateway) a.handlers_set _ _ k k
  dispatch-keeps a (trip_move vin id) allowed own h =
      let k = kept.keeps_id a.gateway id (allowed own) h in
      if_both (λ (b : Agent F M). P b.gateway) a.handlers_set _ _ k k
  dispatch-keeps a (trip_cancel vin id) allowed own h =
      if_both (λ (b : Agent F M). P b.gateway) a.handlers_set _ a
        (kept.keeps_status _ _ (kept.keeps_cancel_ack a.gateway true [] h)) h
  dispatch-keeps a (order_update_location vin) allowed own h =
      if_both (λ (b : Agent F M). P b.gateway) a.handlers_set _ a
        (kept.keeps_update_ack a.gateway true [] h) h
  dispatch-keeps a (trip_park vin) allowed own h = h
  dispatch-keeps a (order_update_status vin) allowed own h = h
  dispatch-keeps a no_command allowed own h = h

  on_command-keeps :
      (a : Agent F M) (cmd : GatewayCommand F)
      → Authorised Allowed v (receives cmd)
      → P a.gateway
      → P (on_command a cmd).gateway
  unfolding on_command
  on_command-keeps a cmd allowed h = tested (text_eq (vin_of cmd) a.gateway.vin) refl
    where
      tested :
          (b : Bool)
          → text_eq (vin_of cmd) a.gateway.vin ≡ b
          → P (if b then dispatch a cmd else a).gateway
      tested true same =
          dispatch-keeps a cmd allowed
            (subst (λ w. text_eq (vin_of cmd) w ≡ true) (kept.same_vin a.gateway h) same) h
      tested false same = h

  run_posted-keeps :
      (a : Agent F M) (now : ℕ) (tf : Option (LocalCoordinate F)) (jobs : List (Job F))
      → P a.gateway
      → Ensures (λ b. P b.gateway) (run_posted e a now tf jobs)
  run_posted-keeps a now tf [] h = h
  run_posted-keeps a now tf (job ∷ jobs) h =
      on_request-keeps (record a { posted = jobs }) now (request job tf) h

  run_location-keeps : (a : Agent F M) (l : List Bool) → P a.gateway → P (run_location a l).gateway
  run_location-keeps a [] h = h
  run_location-keeps a (b ∷ rest) h = h

  pub on_event-keeps :
      (a : Agent F M) (ev : AgentEvent F)
      → Authorised Allowed v ev
      → P a.gateway
      → Ensures (λ b. P b.gateway) (on_event e a ev)
  unfolding on_event
  on_event-keeps a (receives cmd) allowed h = on_command-keeps a cmd allowed h
  on_event-keeps a (runs now tf) allowed h = run_posted-keeps a now tf a.posted h
  on_event-keeps a (serves now r) allowed h = on_request-keeps a now r h
  on_event-keeps a location_runs allowed h = run_location-keeps a a.location_posted h
  on_event-keeps a (location_ticks now) allowed h = h

  pub on_events-keeps :
      (a : Agent F M) (history : List (AgentEvent F))
      → All (Authorised Allowed v) history
      → P a.gateway
      → Ensures (λ b. P b.gateway) (on_events e a history)
  unfolding on_events
  on_events-keeps a [] all h = h
  on_events-keeps a (ev ∷ rest) all h =
      Ensures-then (λ b. P b.gateway) (λ b. P b.gateway) (on_event e a ev) _
        (on_event-keeps a ev all.0 h) (λ b k. on_events-keeps b rest all.1 k)
