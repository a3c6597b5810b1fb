-- ===== src/Controller/Log.antt =====
-- onTripStateChanged of AutowareController.cc: what spdlog is told of a change of the state, and
-- the callback; with the setters of the callbacks and the period of the timer.
use autoware_agent.Base.{
  ◌≡◌, refl, ap, ◌∙◌, Bool, true, ◌||◌, List, [], ◌∷◌, ◌++◌, Option, none, some, ℤ, Text, codes,
  if◌then◌else◌, ok, ℕ,
}
use autoware_agent.Geometry.{Floats, Lanes}
use autoware_agent.Trip.State.{
  TripState, idle, initializing_in_map, query_publishing_initial_pose, query_waiting_localisation,
  query_publishing_goal, query_waiting_route, query_reading_eta, routes_ready,
  waiting_for_pickup_start, publishing_initial_pose, waiting_localisation, engaging,
  driving_to_pickup, waiting_for_move, running, completed, cancelled, failed, state_eq, TripStatus,
  EtaQueryResult, QueryLeg, trip, TripController, state_changed, send, transition_to, enter,
  default_status,
}
use autoware_agent.Trip.Query.{answer, query_success, finish_leg, finish_query_leg}
use autoware_agent.Controller.{AutowareController, Notice, trip_state}

pub data Line : Type 0 where
  info error : Text → Line

-- The lambda `name`; `default` is for values that are no enumerator.
abbrev pub state_name : TripState → Text
state_name idle = codes "IDLE"
state_name initializing_in_map = codes "INITIALIZING_IN_MAP"
state_name query_publishing_initial_pose = codes "QUERY_PUBLISHING_INITIAL_POSE"
state_name query_waiting_localisation = codes "QUERY_WAITING_LOCALISATION"
state_name query_publishing_goal = codes "QUERY_PUBLISHING_GOAL"
state_name query_waiting_route = codes "QUERY_WAITING_ROUTE"
state_name query_reading_eta = codes "QUERY_READING_ETA"
state_name routes_ready = codes "ROUTES_READY"
state_name waiting_for_pickup_start = codes "WAITING_FOR_PICKUP_START"
state_name publishing_initial_pose = codes "PUBLISHING_INITIAL_POSE"
state_name waiting_localisation = codes "WAITING_LOCALISATION"
state_name engaging = codes "ENGAGING"
state_name driving_to_pickup = codes "DRIVING_TO_PICKUP"
state_name waiting_for_move = codes "WAITING_FOR_MOVE"
state_name running = codes "RUNNING"
state_name completed = codes "COMPLETED"
state_name cancelled = codes "CANCELLED"
state_name failed = codes "FAILED"

module _ {F : Type 0} where
  abbrev live_lines : Option (TripStatus F) → List Line
  live_lines none = []
  live_lines (some st) =
      info (
        codes "[AutowareAgent] Trip live: lane "
        ++ (st.start_lanelet_id ++ (codes " → lane " ++ st.goal_lanelet_id)))
      ∷ []

  abbrev ready_lines : Option (TripStatus F) → List Line
  ready_lines none = []
  ready_lines (some st) =
      info (
        codes "[AutowareAgent] Routes ready: pickup="
        ++ (st.start_lanelet_id ++ (codes " goal=" ++ st.goal_lanelet_id)))
      ∷ []

  -- `st` is trip_ctrl_->status() at the time of the call, if there is a trip_ctrl_.
  unfoldable pub log_lines : Option (TripStatus F) → TripState → TripState → List Line
  log_lines st prev next =
      info (codes "[AutowareAgent] " ++ (state_name prev ++ (codes " -> " ++ state_name next)))
      ∷ ((if state_eq next failed then error (codes "[AutowareAgent] Trip FAILED") ∷ [] else [])
          ++ ((if state_eq next running || state_eq next driving_to_pickup
                then live_lines st
                else [])
              ++ (if state_eq next routes_ready then ready_lines st else [])))

module _ {F M : Type 0} where
  unfoldable pub on_trip_state_changed :
      AutowareController F M
      → Option (TripStatus F)
      → TripState
      → TripState
      → List Line × Option Notice
  unfolding log_lines
  on_trip_state_changed a st prev next =
      (log_lines st prev next, if a.trip_state_callback then some (trip_state prev next) else none)

  unfoldable pub set_trip_state_callback : AutowareController F M → Bool → AutowareController F M
  set_trip_state_callback a cb = record a { trip_state_callback = cb }

  unfoldable pub set_arrival_callback : AutowareController F M → Bool → AutowareController F M
  set_arrival_callback a cb = record a { arrival_callback = cb }

-- static_cast<int>(1000.0 / tick_hz_), the period of the timer that posts onTickTimer; `truncate`
-- is the conversion.
abbrev pub tick_period_ms : {F : Type 0} → Floats F → (F → ℤ) → F → ℤ
tick_period_ms f truncate tick_hz = truncate (f.div (f.literal 1000 0) tick_hz)

callback-answer :
    {F M : Type 0} (o : Option ℕ) (r : EtaQueryResult F) (c : TripController F M)
    → (answer o r c).on_state_change ≡ c.on_state_change
unfolding send
callback-answer none r c = refl
callback-answer (some k) r c = refl

module _ {F M : Type 0} (e : Lanes F M) where
  -- On the trip leg, with the callback for state changes set, the end of a query returns in every
  -- state, and the newest output tells a change from IDLE to ROUTES_READY, whatever the state was.
  -- What onTripStateChanged then logs is this change, and a line on the ready routes in which both
  -- lane ids are empty.
  pub finish_query_leg-log :
      (c : TripController F M) (a : AutowareController F M) (now : ℕ)
      → c.current_leg ≡ trip
      → c.on_state_change ≡ true
      → (c' : TripController F M) × (finish_query_leg e c now ≡ ok c')
        × (c'.sent
            ≡ state_changed idle routes_ready ∷ (answer c.query_cb (query_success e c) c).sent)
        × ((on_trip_state_changed a (some c'.status) idle routes_ready).0
            ≡ info (codes "[AutowareAgent] IDLE -> ROUTES_READY")
              ∷ info (codes "[AutowareAgent] Routes ready: pickup= goal=")
              ∷ [])
  unfolding finish_query_leg finish_leg transition_to enter default_status on_trip_state_changed
      log_lines
  finish_query_leg-log c a now leg set = (
    _,
    ap (λ (l : QueryLeg). finish_leg e l c now) leg,
    ap
        (λ (b : Bool).
          if b
          then state_changed idle routes_ready ∷ (answer c.query_cb (query_success e c) c).sent
          else (answer c.query_cb (query_success e c) c).sent)
        (callback-answer c.query_cb (query_success e c) c ∙ set),
    refl,
  )
