-- ===== src/Trip/Events.antt =====
-- What reaches a TripController on its strand, one event at a time: the commands that
-- AutowareController posts, its timer, and the posted messages and service answers.
use autoware_agent.Base.{ℕ, Bool, List, [], ◌∷◌, Option, Result, ok, ◌>>=◌}
use autoware_agent.Messages.{LocState, RouteState, LaneletRoute}
use autoware_agent.Geometry.{GpsCoordinate, LocalCoordinate, Lanes}
use autoware_agent.Trip.State.{TripController}
use autoware_agent.Trip.Query.{query_eta}
use autoware_agent.Trip.Commands.{
  go_to_pickup, inject_eta, on_route_received, on_loc_state, on_route_state, on_mode_state,
  set_current_gps, on_mode_response, on_engage_response, start_trip, move, handle_move_command,
  cancel,
}
use autoware_agent.Trip.Tick.{tick}

pub data Event (F : Type 0) : Type 0 where
  query : Option (LocalCoordinate F) → GpsCoordinate F → GpsCoordinate F → Option ℕ → Event F
  start go_to move_on move_command cancels : Event F
  -- whether the mode service and the engage service are ready
  timer : Bool → Bool → Event F
  loc_state : LocState → Event F
  route_state : RouteState → Event F
  mode_state : Bool → Event F
  route : LaneletRoute F → Event F
  eta : F → F → Event F
  mode_answer : Bool → Event F
  engage_answer : ℕ → Event F
  gps : GpsCoordinate F → Event F

module _ {F M : Type 0} (e : Lanes F M) where
  -- Drop the flag that a command returns.
  abbrev pub dropped : Result (TripController F M × Bool) → Result (TripController F M)
  dropped r = r >>= λ p. ok (p.0)

  unfoldable pub step : TripController F M → ℕ → Event F → Result (TripController F M)
  step c now (query tf from to cb) = dropped (query_eta e c tf from to cb now)
  step c now start = dropped (start_trip e c now)
  step c now go_to = ok (go_to_pickup c now).0
  step c now move_on = dropped (move e c now)
  step c now move_command = dropped (handle_move_command e c now)
  step c now cancels = ok (cancel e c now)
  step c now (timer mode engage) =
      tick e c (record { now = now; mode_service_ready = mode; engage_service_ready = engage })
  step c now (loc_state m) = ok (on_loc_state c m)
  step c now (route_state m) = ok (on_route_state c m)
  step c now (mode_state m) = ok (on_mode_state c m)
  step c now (route m) = ok (on_route_received c m)
  step c now (eta d t) = ok (inject_eta c d t)
  step c now (mode_answer b) = ok (on_mode_response c b)
  step c now (engage_answer code) = ok (on_engage_response c code now)
  step c now (gps g) = ok (set_current_gps c g)

  unfoldable pub run : TripController F M → List (ℕ × Event F) → Result (TripController F M)
  run c [] = ok c
  run c ((now, ev) ∷ rest) = step c now ev >>= λ c'. run c' rest
