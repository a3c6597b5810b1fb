-- ===== src/Controller/Refused.antt =====
-- The requests that reach AutowareController before `initialize`.
use autoware_agent.Base.{
  ℕ, ◌≡◌, refl, sym, Bool, false, List, [], ◌∷◌, Option, none, some, All, Result, Returns,
  Returns->>=, subst,
}
use autoware_agent.Geometry.{Lanes}
use autoware_agent.Trip.State.{TripController, default_status, default_result}
use autoware_agent.Controller.{
  AutowareController, Reply, replied, status_replied, eta_replied, reply, command, start_trip_impl,
  move_impl, go_to_pickup_impl, handle_move_command_impl, cancel_with, cancel_trip_impl,
  status_with, get_trip_status_impl, tick_with, on_tick_timer, query_with, query_eta_impl,
}
use autoware_agent.Controller.Requests.{
  Request, initializes, start_trips, moves, go_to_pickups, handle_moves, cancels, get_statuses,
  query_etas, ticks, arrives, arrive_with, serve, serve_all,
}

module _ {F M : Type 0} (e : Lanes F M) where
  -- An answer that grants nothing.
  abbrev pub Refusal : Reply F → Type 0
  Refusal (replied k b) = b ≡ false
  Refusal (status_replied k s) = s ≡ default_status e
  Refusal (eta_replied k r) = r.success ≡ false

  abbrev pub IsNotInitialize : Request F → Type 0
  IsNotInitialize initializes = ⊥
  IsNotInitialize _ = Unit {0}

  -- No trip controller, and only refusals so far.
  abbrev pub Refusing : AutowareController F M → Type 0
  Refusing a = (a.trip_ctrl ≡ none) × All Refusal a.replies

  reply-Refusing :
      (a : AutowareController F M) (cb : Option ℕ) (r : ℕ → Reply F)
      → ((k : ℕ) → Refusal (r k))
      → Refusing a
      → Refusing (reply cb r a)
  reply-Refusing a none r f h = h
  reply-Refusing a (some k) r f h = (h.0, (f k, h.1))

  command-Refusing :
      (a : AutowareController F M) (cb : Option ℕ)
      (f : TripController F M → Result (TripController F M × Bool))
      → Refusing a
      → Returns Refusing (command a cb f a.trip_ctrl)
  unfolding command
  command-Refusing a cb f h =
      subst (λ o. Returns Refusing (command a cb f o)) (sym h.0)
        (reply-Refusing a cb (λ k. replied k false) (λ k. refl) h)

  serve-Refusing :
      (a : AutowareController F M) (now : ℕ) (r : Request F)
      → IsNotInitialize r
      → Refusing a
      → Returns Refusing (serve e a now r)
  unfolding serve start_trip_impl move_impl go_to_pickup_impl handle_move_command_impl
      cancel_trip_impl cancel_with get_trip_status_impl status_with on_tick_timer tick_with
      query_eta_impl query_with default_result
  serve-Refusing a now initializes n h = absurd n
  serve-Refusing a now (start_trips cb) n h = command-Refusing a cb _ h
  serve-Refusing a now (moves cb) n h = command-Refusing a cb _ h
  serve-Refusing a now (go_to_pickups cb) n h = command-Refusing a cb _ h
  serve-Refusing a now (handle_moves cb) n h = command-Refusing a cb _ h
  serve-Refusing a now cancels n h = subst (λ o. Refusing (cancel_with e a now o)) (sym h.0) h
  serve-Refusing a now (get_statuses cb) n h =
      reply-Refusing a cb _ (λ k. subst (λ o. status_with e o ≡ default_status e) (sym h.0) refl) h
  serve-Refusing a now (query_etas tf from to cb) n h =
      subst (λ o. Returns Refusing (query_with e a tf from to cb now o)) (sym h.0)
        (reply-Refusing a cb _ (λ k. refl) h)
  serve-Refusing a now (ticks tf mode engage) n h =
      subst
        (λ o. Returns Refusing (
          tick_with e a tf
            (record { now = now; mode_service_ready = mode; engage_service_ready = engage }) o))
        (sym h.0) h
  serve-Refusing a now (arrives ev) n h =
      subst (λ o. Returns Refusing (arrive_with e a now ev o)) (sym h.0) h

  -- Before `initialize`: as long as there is no trip controller, every history of other requests
  -- ends without an exception and without a trip controller, and all that it answers is a refusal:
  -- false to a command, the status of an idle trip, and a failed ETA result.
  pub serve_all-Refusing :
      (a : AutowareController F M) (history : List (ℕ × Request F))
      → Refusing a
      → All (λ q. IsNotInitialize q.1) history
      → Returns Refusing (serve_all e a history)
  unfolding serve_all
  serve_all-Refusing a [] h n = h
  serve_all-Refusing a ((now, r) ∷ rest) h n =
      Returns->>= Refusing Refusing (serve e a now r) _ (serve-Refusing a now r n.0 h)
        (λ a' k. serve_all-Refusing a' rest k n.1)
