-- ===== src/Trip/Diagram/Journey.antt =====
-- A whole trip: the commands, the messages, the timer events and the answers of the services that
-- take it from the held routes to its end.
use autoware_agent.Base.{
  if◌then◌else◌, sym, ℕ, ◌≤◌, ◌≡◌, refl, subst, Bool, true, false, List, [], ◌∷◌, Option, none,
  some, ok, ◌>>=◌, Result, Returns, Returns->>=, Returns-weaken,
}
use autoware_agent.Messages.{initialized, arrived}
use autoware_agent.Geometry.{Lanes}
use autoware_agent.Trip.State.{
  waiting_for_pickup_start, publishing_initial_pose, waiting_localisation, driving_to_pickup,
  waiting_for_move, running, completed, HeldRoute, Output, mode_request, engage_request,
  TripController,
}
use autoware_agent.Trip.Commands.{on_loc_state, on_route_state, on_mode_state}
use autoware_agent.Trip.Events.{
  Event, start, go_to, move_on, timer, loc_state, route_state, mode_state, mode_answer,
  engage_answer, step,
}
use autoware_agent.Trip.Diagram.Stages.{
  Luggage, At, Due, Available, Requested, Arrives, Localised, state-At, go_to_pickup-At, engage-At,
  on_mode_response-Requested, tick_to_pose, tick_to_engaging, tick_to_request, tick_to_pickup,
  tick_to_goal,
}
use autoware_agent.Trip.Diagram.Lookups.{Found, Ready, packed, arrived_with, start-At, move-Due}

-- An event, or the answer of a service to the request that was sent last.
pub data Moment (F : Type 0) : Type 0 where
  occurs : Event F → Moment F
  answers : Moment F

-- Both services succeed; nothing else that is sent is answered.
abbrev pub success_of : {F : Type 0} → List (Output F) → Option (Event F)
success_of (mode_request ∷ older) = some (mode_answer true)
success_of (engage_request ∷ older) = some (engage_answer 1)
success_of _ = none

-- The engagement: the mode is available, the timer asks, and each request is answered.
abbrev pub engagement : {F : Type 0} → ℕ → ℕ → ℕ → ℕ → List (ℕ × Moment F) → List (ℕ × Moment F)
engagement heard asked mode engaged later =
    (heard, occurs (mode_state true))
    ∷ (asked, occurs (timer true true))
    ∷ (mode, answers)
    ∷ (engaged, answers)
    ∷ later

-- The moments from the drive to the pickup on.
abbrev pub from_pickup : {F : Type 0} → (ℕ → ℕ) → List (ℕ × Moment F)
from_pickup at =
    (at 9, occurs (route_state arrived))
    ∷ (at 10, occurs (timer true true))
    ∷ (at 11, occurs move_on)
    ∷ engagement (at 12) (at 13) (at 14) (at 15)
        ((at 16, occurs (route_state arrived)) ∷ (at 17, occurs (timer true true)) ∷ [])

-- The moments of a trip without a mishap, and their times.
abbrev pub whole_trip : {F : Type 0} → (ℕ → ℕ) → List (ℕ × Moment F)
whole_trip at =
    (at 0, occurs start)
    ∷ (at 1, occurs go_to)
    ∷ (at 2, occurs (timer true true))
    ∷ (at 3, occurs (loc_state initialized))
    ∷ (at 4, occurs (timer true true))
    ∷ engagement (at 5) (at 6) (at 7) (at 8) (from_pickup at)

module _ {F M : Type 0} (e : Lanes F M) where
  abbrev pub answered_with : TripController F M → ℕ → Option (Event F) → Result (TripController F M)
  answered_with c now none = ok c
  answered_with c now (some ev) = step e c now ev

  abbrev pub happens : TripController F M → ℕ → Moment F → Result (TripController F M)
  happens c now (occurs ev) = step e c now ev
  happens c now answers = answered_with c now (success_of c.sent)

  unfoldable pub passes_through :
      TripController F M → List (ℕ × Moment F) → Result (TripController F M)
  passes_through c [] = ok c
  passes_through c ((now, m) ∷ rest) = happens c now m >>= λ c'. passes_through c' rest

  -- A history leads every controller from one stage to another, without an exception.
  abbrev Leads :
      (TripController F M → Type 0) → List (ℕ × Moment F) → (TripController F M → Type 0) → Type 0
  Leads P history Q = (c : TripController F M) → P c → Returns Q (passes_through c history)

  leads_on :
      (P Q R : TripController F M → Type 0) (now : ℕ) (m : Moment F) (rest : List (ℕ × Moment F))
      → ((c : TripController F M) → P c → Returns Q (happens c now m))
      → Leads Q rest R
      → Leads P ((now, m) ∷ rest) R
  unfolding passes_through
  leads_on P Q R now m rest goes on c p = Returns->>= Q R (happens c now m) _ (goes c p) on

  leads_nowhere : (P : TripController F M → Type 0) → Leads P [] P
  unfolding passes_through
  leads_nowhere P c p = p

  answers_mode :
      (c : TripController F M) (leg : Bool) (g : Luggage F M) (now : ℕ)
      → Requested leg g mode_request c
      → Returns (Requested leg g engage_request) (happens c now answers)
  unfolding step
  answers_mode c leg g now (at, (older, newest)) =
      subst
        (λ (l : List (Output F)).
          Returns (Requested leg g engage_request) (answered_with c now (success_of l)))
        (sym newest) (on_mode_response-Requested c leg g at)

  answers_engage :
      (c : TripController F M) (leg : Bool) (g : Luggage F M) (now : ℕ)
      → Requested leg g engage_request c
      → Returns (At (if leg then driving_to_pickup else running) leg g) (happens c now answers)
  unfolding step
  answers_engage c leg g now (at, (older, newest)) =
      subst
        (λ (l : List (Output F)).
          Returns (At (if leg then driving_to_pickup else running) leg g)
            (answered_with c now (success_of l)))
        (sym newest) (engage-At c leg g now at)

  engagement-Leads :
      (leg : Bool) (g : Luggage F M) (heard asked mode engaged : ℕ) (later : List (ℕ × Moment F))
      (R : TripController F M → Type 0)
      → 2000000000 ≤ asked
      → Leads (At (if leg then driving_to_pickup else running) leg g) later R
      → Leads (Due leg g) (engagement heard asked mode engaged later) R
  unfolding step on_mode_state
  engagement-Leads leg g heard asked mode engaged later R late on =
      leads_on _ (Available leg g) R heard (occurs (mode_state true)) _ (λ c p. (p, refl))
        (leads_on _ (Requested leg g mode_request) R asked (occurs (timer true true)) _
          (λ c p. tick_to_request e c leg g asked p late)
          (leads_on _ (Requested leg g engage_request) R mode answers _
            (λ c p. answers_mode c leg g mode p)
            (leads_on _ (At (if leg then driving_to_pickup else running) leg g) R engaged answers
              later (λ c p. answers_engage c leg g engaged p) on)))

module _ {F M : Type 0} (e : Lanes F M) (pickup goal : HeldRoute F) (m : M)
    (f : Found e m pickup goal) where
  from_pickup-Leads :
      (at : ℕ → ℕ)
      → 2000000000 ≤ at 13
      → Leads e
          (At driving_to_pickup true (packed e pickup goal m f))
          (from_pickup at)
          (At completed false (arrived_with e pickup goal m f))
  unfolding step on_route_state
  from_pickup-Leads at late =
      let g = packed e pickup goal m f in
      let h = arrived_with e pickup goal m f in
      leads_on e _ (Arrives driving_to_pickup true g) _ _ (occurs (route_state arrived)) _
        (λ c p. (p, refl))
        (leads_on e _ (At waiting_for_move true g) _ _ (occurs (timer true true)) _
          (λ c p. tick_to_pickup e c g _ p)
          (leads_on e _ (Due false h) _ _ (occurs move_on) _
            (λ c p. move-Due e pickup goal c m f _ p)
            (engagement-Leads e false h (at 12) (at 13) (at 14) (at 15) _ _ late (
              leads_on e _ (Arrives running false h) _ _ (occurs (route_state arrived)) _
                (λ c p. (p, refl))
                (leads_on e _ (At completed false h) _ _ (occurs (timer true true)) _
                  (λ c p. tick_to_goal e c h _ p) (leads_nowhere e (At completed false h)))))))

  -- From ROUTES_READY with both routes held, where the map finds the lane of the pickup and, from
  -- this lane, one at the goal: a start, a go and a move end in COMPLETED, if between them the
  -- timer fires, the localisation and both arrivals are heard, and in ENGAGING the mode is
  -- available, the timer fires with the services ready and the clock past two seconds, and each of
  -- the two requests that are then sent is answered with success. An answer comes only to a
  -- request that is the newest output, and nothing raises an exception.
  pub whole_trip-completed :
      (c : TripController F M) (at : ℕ → ℕ)
      → Ready e pickup goal m c
      → 2000000000 ≤ at 6
      → 2000000000 ≤ at 13
      → Returns (λ c'. c'.status.state ≡ completed) (passes_through e c (whole_trip at))
  unfolding step on_loc_state
  whole_trip-completed c at ready late later =
      let g = packed e pickup goal m f in
      Returns-weaken (At completed false (arrived_with e pickup goal m f))
        (λ c'. c'.status.state ≡ completed) _
        (λ c' k. state-At c' completed false (arrived_with e pickup goal m f) k)
        (leads_on e (Ready e pickup goal m) (At waiting_for_pickup_start true g)
          (At completed false (arrived_with e pickup goal m f)) (at 0) (occurs start) _
          (λ c' p. start-At e pickup goal c' m f _ p)
          (leads_on e _ (At publishing_initial_pose true g) _ _ (occurs go_to) _
            (λ c' p. go_to_pickup-At c' g _ p)
            (leads_on e _ (At waiting_localisation true g) _ _ (occurs (timer true true)) _
              (λ c' p. tick_to_pose e c' g _ p)
              (leads_on e _ (Localised waiting_localisation true g) _ _
                (occurs (loc_state initialized)) _ (λ c' p. (p, refl))
                (leads_on e _ (Due true g) _ _ (occurs (timer true true)) _
                  (λ c' p. tick_to_engaging e c' g _ p)
                  (engagement-Leads e true g (at 5) (at 6) (at 7) (at 8) _ _ late
                    (from_pickup-Leads at later))))))
          c ready)
