-- ===== src/Controller/Served.antt =====
-- The requests of AutowareController: none raises an exception, and each command is answered.
use autoware_agent.Base.{
  ℕ, ◌≡◌, refl, sym, Bool, false, List, [], ◌∷◌, Option, none, some, ℤ, Result, ok, err, ◌>>=◌,
  Returns, Returns->>=, subst,
}
use autoware_agent.Geometry.{GpsCoordinate, LocalCoordinate, Lanes}
use autoware_agent.Trip.State.{TripController, default_status}
use autoware_agent.Trip.Query.{get_current_vehicle_pose, query_eta}
use autoware_agent.Trip.Commands.{set_current_gps}
use autoware_agent.Trip.Tick.{Surroundings}
use autoware_agent.Trip.Laws.{LawfulLanes}
use autoware_agent.Trip.Phases.{Inv}
use autoware_agent.Trip.Events.{Event, dropped}
use autoware_agent.Trip.Invariant.Query.{query_eta-Inv}
use autoware_agent.Trip.Invariant.Commands.{
  go_to_pickup-Inv, start_trip-Inv, move-Inv, handle_move_command-Inv, cancel-Inv,
  initialize_in_map-Inv,
}
use autoware_agent.Trip.Invariant.Steps.{step-Inv}
use autoware_agent.Trip.Invariant.Tick.{tick-Inv}
use autoware_agent.Controller.{
  AutowareController, replied, reply, command, new_trip_controller, map_after, initialize,
  start_trip_impl, move_impl, go_to_pickup_impl, handle_move_command_impl, cancel_with,
  cancel_trip_impl, get_trip_status_impl, located, tick_with, on_tick_timer, query_with,
  query_eta_impl,
}
use autoware_agent.Controller.Requests.{
  Request, initializes, start_trips, moves, go_to_pickups, handle_moves, cancels, get_statuses,
  query_etas, ticks, arrives, arrive_with, serve, serve_all,
}

module _ {F M : Type 0} (e : Lanes F M) (Known : ℤ → Type 0) (Sound : M → Type 0)
    (laws : LawfulLanes e Known Sound) where
  abbrev pub TripInv : Option (TripController F M) → Type 0
  TripInv none = Unit {0}
  TripInv (some t) = Inv Known Sound t

  -- The map is sound, and the trip controller, if there is one, satisfies its invariant.
  abbrev pub ControllerInv : AutowareController F M → Type 0
  ControllerInv a = Sound a.lanelet_map × TripInv a.trip_ctrl

  -- What follows a command: the invariant, and one more answer.
  abbrev pub Served : AutowareController F M → Option ℕ → AutowareController F M → Type 0
  Served a none a' = ControllerInv a' × (a'.replies ≡ a.replies)
  Served a (some k) a' = ControllerInv a' × ((b : Bool) × (a'.replies ≡ replied k b ∷ a.replies))

  reply-Served :
      (a : AutowareController F M) (o : Option (TripController F M)) (cb : Option ℕ) (b : Bool)
      → Sound a.lanelet_map
      → TripInv o
      → Served a cb (reply cb (λ k. replied k b) (record a { trip_ctrl = o }))
  reply-Served a o none b s h = ((s, h), refl)
  reply-Served a o (some k) b s h = ((s, h), (b, refl))

  command-Served :
      (a : AutowareController F M) (cb : Option ℕ)
      (f : TripController F M → Result (TripController F M × Bool))
      (o : Option (TripController F M))
      → a.trip_ctrl ≡ o
      → Sound a.lanelet_map
      → TripInv o
      → ((t : TripController F M) → Inv Known Sound t → Returns (Inv Known Sound) (dropped e (f t)))
      → Returns (Served a cb) (command a cb f o)
  unfolding command
  command-Served a cb f none same s h k =
      subst (λ o. Served a cb (reply cb (λ i. replied i false) (record a { trip_ctrl = o })))
        (sym same) (reply-Served a none cb false s h)
  command-Served a cb f (some t) same s h k = done (f t) (k t h)
    where
      done :
          (r : Result (TripController F M × Bool))
          → Returns (Inv Known Sound) (dropped e r)
          → Returns
              (Served a cb)
              (r >>= λ p. ok (reply cb (λ i. replied i p.1) (record a { trip_ctrl = some p.0 })))
      done (ok (t', b)) i = reply-Served a (some t') cb b s i
      done (err x) i = absurd i

  cancel_with-Inv :
      (a : AutowareController F M) (now : ℕ) (o : Option (TripController F M))
      → ControllerInv a
      → TripInv o
      → ControllerInv (cancel_with e a now o)
  unfolding cancel_with
  cancel_with-Inv a now none h k = h
  cancel_with-Inv a now (some t) h k = (h.0, cancel-Inv e Known Sound laws t now k)

  arrive_with-Inv :
      (a : AutowareController F M) (now : ℕ) (ev : Event F) (o : Option (TripController F M))
      → ControllerInv a
      → TripInv o
      → Returns ControllerInv (arrive_with e a now ev o)
  arrive_with-Inv a now ev none h k = h
  arrive_with-Inv a now ev (some t) h k =
      Returns->>= (Inv Known Sound) ControllerInv _ _ (step-Inv e Known Sound laws t now ev k)
        (λ t' i. (h.0, i))

  located-Inv :
      (o : Option (GpsCoordinate F)) (t : TripController F M)
      → Inv Known Sound t
      → Inv Known Sound (located e o t)
  unfolding set_current_gps
  located-Inv none t h = h
  located-Inv (some g) t h = h

  tick_with-Inv :
      (a : AutowareController F M) (tf : Option (LocalCoordinate F)) (s : Surroundings)
      (o : Option (TripController F M))
      → ControllerInv a
      → TripInv o
      → Returns ControllerInv (tick_with e a tf s o)
  unfolding tick_with
  tick_with-Inv a tf s none h k = h
  tick_with-Inv a tf s (some t) h k =
      Returns->>= (Inv Known Sound) ControllerInv _ _
        (tick-Inv e Known Sound laws _ s (located-Inv (get_current_vehicle_pose e tf) t k))
        (λ t' i. (h.0, i))

  query_with-Inv :
      (a : AutowareController F M) (tf : Option (LocalCoordinate F)) (from to : GpsCoordinate F)
      (cb : Option ℕ) (now : ℕ) (o : Option (TripController F M))
      → ControllerInv a
      → TripInv o
      → Returns ControllerInv (query_with e a tf from to cb now o)
  unfolding query_with
  query_with-Inv a tf from to none now none h k = h
  query_with-Inv a tf from to (some i) now none h k = h
  query_with-Inv a tf from to cb now (some t) h k =
      kept (query_eta e t tf from to cb now)
        (query_eta-Inv e Known Sound laws t tf from to cb now k)
    where
      kept :
          (r : Result (TripController F M × Bool))
          → Returns (Inv Known Sound) (dropped e r)
          → Returns ControllerInv (r >>= λ p. ok (record a { trip_ctrl = some p.0 }))
      kept (ok (t', b)) i = (h.0, i)
      kept (err x) i = absurd i

  statuses-Inv :
      (a : AutowareController F M) (cb : Option ℕ)
      → ControllerInv a
      → ControllerInv (get_trip_status_impl e a cb)
  unfolding get_trip_status_impl
  statuses-Inv a none h = h
  statuses-Inv a (some k) h = h

  Sound-map_after :
      (m : M) (o : Option (TripController F M)) → Sound m → TripInv o → Sound (map_after m o)
  Sound-map_after m none s h = s
  Sound-map_after m (some t) s h = h.0

  initialize-Inv :
      (a : AutowareController F M) (now : ℕ) → ControllerInv a → ControllerInv (initialize e a now)
  unfolding initialize new_trip_controller default_status
  initialize-Inv a now h = (
    h.0,
    initialize_in_map-Inv e Known Sound laws _ now ((refl, refl), refl, refl)
        (Sound-map_after a.lanelet_map a.trip_ctrl h.0 h.1, ((refl, refl), refl, refl)),
  )

  -- What a command gives, without the answer.
  Served-Inv :
      (a : AutowareController F M) (cb : Option ℕ) (m : Result (AutowareController F M))
      → Returns (Served a cb) m
      → Returns ControllerInv m
  Served-Inv a none (ok a') h = h.0
  Served-Inv a (some k) (ok a') h = h.0
  Served-Inv a cb (err x) h = absurd h

  pub start_trip_impl-Served :
      (a : AutowareController F M) (cb : Option ℕ) (now : ℕ)
      → ControllerInv a
      → Returns (Served a cb) (start_trip_impl e a cb now)
  unfolding start_trip_impl
  start_trip_impl-Served a cb now h =
      command-Served a cb _ a.trip_ctrl refl h.0 h.1
        (λ t i. start_trip-Inv e Known Sound laws t now i)

  pub move_impl-Served :
      (a : AutowareController F M) (cb : Option ℕ) (now : ℕ)
      → ControllerInv a
      → Returns (Served a cb) (move_impl e a cb now)
  unfolding move_impl
  move_impl-Served a cb now h =
      command-Served a cb _ a.trip_ctrl refl h.0 h.1 (λ t i. move-Inv e Known Sound laws t now i)

  pub go_to_pickup_impl-Served :
      (a : AutowareController F M) (cb : Option ℕ) (now : ℕ)
      → ControllerInv a
      → Returns (Served a cb) (go_to_pickup_impl e a cb now)
  unfolding go_to_pickup_impl
  go_to_pickup_impl-Served a cb now h =
      command-Served a cb _ a.trip_ctrl refl h.0 h.1 (λ t i. go_to_pickup-Inv Known Sound t now i)

  pub handle_move_command_impl-Served :
      (a : AutowareController F M) (cb : Option ℕ) (now : ℕ)
      → ControllerInv a
      → Returns (Served a cb) (handle_move_command_impl e a cb now)
  unfolding handle_move_command_impl
  handle_move_command_impl-Served a cb now h =
      command-Served a cb _ a.trip_ctrl refl h.0 h.1
        (λ t i. handle_move_command-Inv e Known Sound laws t now i)

  -- Every request of an object that satisfies the invariant ends without an exception, and keeps
  -- the invariant.
  pub serve-Inv :
      (a : AutowareController F M) (now : ℕ) (r : Request F)
      → ControllerInv a
      → Returns ControllerInv (serve e a now r)
  unfolding serve on_tick_timer cancel_trip_impl query_eta_impl
  serve-Inv a now initializes h = initialize-Inv a now h
  serve-Inv a now (start_trips cb) h = Served-Inv a cb _ (start_trip_impl-Served a cb now h)
  serve-Inv a now (moves cb) h = Served-Inv a cb _ (move_impl-Served a cb now h)
  serve-Inv a now (go_to_pickups cb) h = Served-Inv a cb _ (go_to_pickup_impl-Served a cb now h)
  serve-Inv a now (handle_moves cb) h =
      Served-Inv a cb _ (handle_move_command_impl-Served a cb now h)
  serve-Inv a now cancels h = cancel_with-Inv a now a.trip_ctrl h h.1
  serve-Inv a now (get_statuses cb) h = statuses-Inv a cb h
  serve-Inv a now (query_etas tf from to cb) h =
      query_with-Inv a tf from to cb now a.trip_ctrl h h.1
  serve-Inv a now (ticks tf mode engage) h = tick_with-Inv a tf _ a.trip_ctrl h h.1
  serve-Inv a now (arrives ev) h = arrive_with-Inv a now ev a.trip_ctrl h h.1

  -- For a lanelet map with lawful lookups: whatever requests, timer events, messages and service
  -- answers reach an AutowareController that satisfies the invariant (one that is not initialised
  -- yet, over a sound map, does), in whatever order and at whatever times, no exception leaves the
  -- strand, and the invariant holds at the end.
  pub serve_all-Inv :
      (a : AutowareController F M) (history : List (ℕ × Request F))
      → ControllerInv a
      → Returns ControllerInv (serve_all e a history)
  unfolding serve_all
  serve_all-Inv a [] h = h
  serve_all-Inv a ((now, r) ∷ rest) h =
      Returns->>= ControllerInv ControllerInv (serve e a now r) _ (serve-Inv a now r h)
        (λ a' k. serve_all-Inv a' rest k)

  -- For a lanelet map with lawful lookups and an AutowareController in the invariant: each of
  -- startTrip, move, goToPickup and handleMoveCommand with a callback ends without an exception,
  -- keeps the invariant, and calls the callback exactly once, also before `initialize`.
  pub commands-answered :
      (a : AutowareController F M) (k now : ℕ)
      → ControllerInv a
      → Returns (Served a (some k)) (serve e a now (start_trips (some k)))
        × (Returns (Served a (some k)) (serve e a now (moves (some k)))
            × (Returns (Served a (some k)) (serve e a now (go_to_pickups (some k)))
                × Returns (Served a (some k)) (serve e a now (handle_moves (some k)))))
  unfolding serve
  commands-answered a k now h = (
    start_trip_impl-Served a (some k) now h,
    (
      move_impl-Served a (some k) now h,
      (go_to_pickup_impl-Served a (some k) now h, handle_move_command_impl-Served a (some k) now h),
    ),
  )
