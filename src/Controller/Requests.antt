-- ===== src/Controller/Requests.antt =====
-- What the strand of AutowareController runs: the posted requests, one after the other.
use autoware_agent.Base.{ℕ, Bool, List, [], ◌∷◌, Option, none, some, Result, ok, ◌>>=◌}
use autoware_agent.Geometry.{GpsCoordinate, LocalCoordinate, Lanes}
use autoware_agent.Trip.State.{TripController}
use autoware_agent.Trip.Events.{Event, step}
use autoware_agent.Controller.{
  AutowareController, initialize, start_trip_impl, move_impl, go_to_pickup_impl,
  handle_move_command_impl, cancel_trip_impl, get_trip_status_impl, on_tick_timer, query_eta_impl,
}

pub data Request (F : Type 0) : Type 0 where
  initializes : Request F
  start_trips moves go_to_pickups handle_moves : Option ℕ → Request F
  cancels : Request F
  get_statuses : Option ℕ → Request F
  query_etas : Option (LocalCoordinate F) → GpsCoordinate F → GpsCoordinate F → Option ℕ → Request F
  ticks : Option (LocalCoordinate F) → Bool → Bool → Request F
  -- A message or a service answer that the trip controller's own subscriptions have posted.
  arrives : Event F → Request F

module _ {F M : Type 0} (e : Lanes F M) where
  abbrev pub arrive_with :
      AutowareController F M
      → ℕ
      → Event F
      → Option (TripController F M)
      → Result (AutowareController F M)
  arrive_with a now ev none = ok a
  arrive_with a now ev (some t) = do t' ← step e t now ev; ok (record a { trip_ctrl = some t' })

  unfoldable pub serve : AutowareController F M → ℕ → Request F → Result (AutowareController F M)
  serve a now initializes = ok (initialize e a now)
  serve a now (start_trips cb) = start_trip_impl e a cb now
  serve a now (moves cb) = move_impl e a cb now
  serve a now (go_to_pickups cb) = go_to_pickup_impl e a cb now
  serve a now (handle_moves cb) = handle_move_command_impl e a cb now
  serve a now cancels = ok (cancel_trip_impl e a now)
  serve a now (get_statuses cb) = ok (get_trip_status_impl e a cb)
  serve a now (query_etas tf from to cb) = query_eta_impl e a tf from to cb now
  serve a now (ticks tf mode engage) =
      on_tick_timer e a tf
        (record { now = now; mode_service_ready = mode; engage_service_ready = engage })
  serve a now (arrives ev) = arrive_with a now ev a.trip_ctrl

  unfoldable pub serve_all :
      AutowareController F M → List (ℕ × Request F) → Result (AutowareController F M)
  serve_all a [] = ok a
  serve_all a ((now, r) ∷ rest) = serve a now r >>= λ a'. serve_all a' rest
