-- ===== src/Trip/Diagram/Refines.antt =====
-- The trip controller follows the state diagram, event by event.
use autoware_agent.Base.{
  ℕ, ◌≡◌, refl, List, [], ◌∷◌, ℤ, Returns, Returns->>=, Returns-weaken, Ensures, Returns-both,
  Bool-cases, true, false, Bool, inl, inr,
}
use autoware_agent.Geometry.{Lanes}
use autoware_agent.Trip.State.{TripController, send, state_eq, query_reading_eta}
use autoware_agent.Trip.Commands.{
  inject_eta, on_mode_response, on_route_received, on_loc_state, on_route_state, on_mode_state,
  set_current_gps,
}
use autoware_agent.Trip.Laws.{LawfulLanes}
use autoware_agent.Trip.Events.{
  Event, query, start, go_to, move_on, move_command, cancels, timer, loc_state, route_state,
  mode_state, route, eta, mode_answer, engage_answer, gps, step, run,
}
use autoware_agent.Trip.Phases.{Inv}
use autoware_agent.Trip.Invariant.Steps.{step-Inv}
use autoware_agent.Trip.Diagram.Spots.{spot, Kind, kind, Trace}
use autoware_agent.Trip.Diagram.Query.{query_eta-Moves}
use autoware_agent.Trip.Diagram.Commands.{
  go_to_pickup-Moves, on_engage_response-Moves, start_trip-Moves, move-Moves,
  handle_move_command-Moves, cancel-Moves, MovesFrom,
}
use autoware_agent.Trip.Diagram.Tick.{tick-Moves}

-- The kinds of a history of events.
abbrev pub kinds : {F : Type 0} → List (ℕ × Event F) → List Kind
kinds [] = []
kinds ((now, ev) ∷ rest) = kind ev ∷ kinds rest

module _ {F M : Type 0} where
  spot-inject_eta : (c : TripController F M) (d t : F) → spot (inject_eta c d t) ≡ spot c
  unfolding inject_eta
  spot-inject_eta c d t = elim (Bool-cases (state_eq c.status.state query_reading_eta)) [
    | inl same ↦ rw same refl
    | inr other ↦ rw other refl
  ]

  spot-on_mode_response :
      (c : TripController F M) (success : Bool) → spot (on_mode_response c success) ≡ spot c
  unfolding on_mode_response send
  spot-on_mode_response c true = refl
  spot-on_mode_response c false = refl

module _ {F M : Type 0} (e : Lanes F M) (Known : ℤ → Type 0) (Sound : M → Type 0)
    (laws : LawfulLanes e Known Sound) where
  step-Moves :
      (c : TripController F M) (now : ℕ) (ev : Event F)
      → Inv Known Sound c
      → Ensures (MovesFrom (kind ev) c) (step e c now ev)
  unfolding step on_route_received on_loc_state on_route_state on_mode_state set_current_gps
  step-Moves c now (query tf from to cb) h = query_eta-Moves e c tf from to cb now
  step-Moves c now start h = start_trip-Moves e Known Sound c now h
  step-Moves c now go_to h = go_to_pickup-Moves c now
  step-Moves c now move_on h = move-Moves e c now
  step-Moves c now move_command h = handle_move_command-Moves e c now
  step-Moves c now cancels h = cancel-Moves e c now
  step-Moves c now (timer mode engage) h = tick-Moves e c _
  step-Moves c now (loc_state m) h = refl
  step-Moves c now (route_state m) h = refl
  step-Moves c now (mode_state m) h = refl
  step-Moves c now (route m) h = refl
  step-Moves c now (eta d t) h = spot-inject_eta c d t
  step-Moves c now (mode_answer b) h = spot-on_mode_response c b
  step-Moves c now (engage_answer code) h = on_engage_response-Moves c code now
  step-Moves c now (gps g) h = refl

  -- For a lanelet map with lawful lookups: every history of events of a trip controller that
  -- satisfies the invariant ends without an exception, and it is a path through the state diagram
  -- (`Moves`). From the state and the leg flag before each event to those after it there is an
  -- edge of the event's kind; so what a command, the timer or an answer to the engagement may do
  -- depends on these two alone, and a message moves nothing. In IDLE a start moves no state, and a
  -- cancel leads to IDLE from everywhere.
  pub run-Trace :
      (c : TripController F M) (history : List (ℕ × Event F))
      → Inv Known Sound c
      → Returns (λ c'. Trace (kinds history) (spot c) (spot c')) (run e c history)
  unfolding run
  run-Trace c [] h = refl
  run-Trace c ((now, ev) ∷ rest) h =
      Returns->>= (λ c'. Inv Known Sound c' × MovesFrom (kind ev) c c')
        (λ c'. Trace (kind ev ∷ kinds rest) (spot c) (spot c')) (step e c now ev) _
        (Returns-both (Inv Known Sound) (MovesFrom (kind ev) c) (step e c now ev)
          (step-Inv e Known Sound laws c now ev h) (step-Moves c now ev h))
        (λ c' k.
          Returns-weaken (λ c''. Trace (kinds rest) (spot c') (spot c''))
            (λ c''. Trace (kind ev ∷ kinds rest) (spot c) (spot c'')) (run e c' rest)
            (λ c'' t. (spot c', k.1, t)) (run-Trace c' rest k.0))
