-- ===== src/Trip/Invariant/Steps.antt =====
-- Every event keeps the invariant, and so does every history from the boot on.
use autoware_agent.Base.{ℕ, List, [], ◌∷◌, ℤ, Returns, Returns->>=}
use autoware_agent.Geometry.{Lanes}
use autoware_agent.Trip.State.{TripController}
use autoware_agent.Trip.Commands.{
  on_route_received, on_loc_state, on_route_state, on_mode_state, set_current_gps,
}
use autoware_agent.Trip.Laws.{LawfulLanes}
use autoware_agent.Trip.Events.{
  Event, query, start, go_to, move_on, move_command, cancels, timer, loc_state, route_state,
  mode_state, route, eta, mode_answer, engage_answer, gps, step, run,
}
use autoware_agent.Trip.Phases.{Inv}
use autoware_agent.Trip.Invariant.Query.{query_eta-Inv}
use autoware_agent.Trip.Invariant.Commands.{
  go_to_pickup-Inv, inject_eta-Inv, on_mode_response-Inv, on_engage_response-Inv, start_trip-Inv,
  move-Inv, handle_move_command-Inv, cancel-Inv,
}
use autoware_agent.Trip.Invariant.Tick.{tick-Inv}

module _ {F M : Type 0} (e : Lanes F M) (Known : ℤ → Type 0) (Sound : M → Type 0)
    (laws : LawfulLanes e Known Sound) where
  -- No event raises an exception, and each keeps the invariant.
  pub step-Inv :
      (c : TripController F M) (now : ℕ) (ev : Event F)
      → Inv Known Sound c
      → Returns (Inv Known Sound) (step e c now ev)
  unfolding step on_route_received on_loc_state on_route_state on_mode_state set_current_gps
  step-Inv c now (query tf from to cb) h = query_eta-Inv e Known Sound laws c tf from to cb now h
  step-Inv c now start h = start_trip-Inv e Known Sound laws c now h
  step-Inv c now go_to h = go_to_pickup-Inv Known Sound c now h
  step-Inv c now move_on h = move-Inv e Known Sound laws c now h
  step-Inv c now move_command h = handle_move_command-Inv e Known Sound laws c now h
  step-Inv c now cancels h = cancel-Inv e Known Sound laws c now h
  step-Inv c now (timer mode engage) h = tick-Inv e Known Sound laws c _ h
  step-Inv c now (loc_state m) h = h
  step-Inv c now (route_state m) h = h
  step-Inv c now (mode_state m) h = h
  step-Inv c now (route m) h = h
  step-Inv c now (eta d t) h = inject_eta-Inv Known Sound c d t h
  step-Inv c now (mode_answer b) h = on_mode_response-Inv Known Sound c b h
  step-Inv c now (engage_answer code) h = on_engage_response-Inv Known Sound c code now h
  step-Inv c now (gps g) h = h

  -- For a lanelet map with lawful lookups: every history of events of a trip controller that
  -- satisfies the invariant ends without an exception, in the invariant. In particular CANCELLED
  -- is never entered, and outside of a query no callback of one is kept.
  pub run-Inv :
      (c : TripController F M) (history : List (ℕ × Event F))
      → Inv Known Sound c
      → Returns (Inv Known Sound) (run e c history)
  unfolding run
  run-Inv c [] h = h
  run-Inv c ((now, ev) ∷ rest) h =
      Returns->>= (Inv Known Sound) (Inv Known Sound) (step e c now ev) _ (step-Inv c now ev h)
        (λ c' k. run-Inv c' rest k)
