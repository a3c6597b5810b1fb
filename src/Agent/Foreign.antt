-- ===== src/Agent/Foreign.antt =====
-- The read loop's test of the vin, over whole histories of the agent.
use autoware_agent.Base.{
  ◌≡◌, refl, sym, ap, ◌∙◌, Bool, true, false, List, [], ◌∷◌, Text, ℤ, if◌then◌else◌, Result, ok,
  err, ◌>>=◌, Ensures, subst,
}
use autoware_agent.Geometry.{Lanes}
use autoware_agent.Lanelets.Geometry.{text_eq}
use autoware_agent.Gateway.{
  trip_init, trip_move, trip_cancel, trip_park, order_update_location, order_update_status,
  no_command, vin_of, enqueue, report_trip_init_ack, report_trip_cancel_ack,
  report_order_update_location_ack, report_location, report_eta, report_status, report_arrive,
  set_active_trip_id,
}
use autoware_agent.Agent.{
  Agent, AgentEvent, receives, runs, serves, location_runs, location_ticks, dispatch, on_command,
  on_event, on_events,
}
use autoware_agent.Agent.Keeps.{Kept, Authorised, on_event-keeps}

abbrev is_addressed : {F : Type 0} → Text → AgentEvent F → Bool
is_addressed v (receives cmd) = text_eq (vin_of cmd) v
is_addressed v _ = true

-- Without the commands for other vehicles.
abbrev pub addressed : {F : Type 0} → Text → List (AgentEvent F) → List (AgentEvent F)
addressed v [] = []
addressed v (ev ∷ rest) =
    let kept = addressed v rest in if is_addressed v ev then ev ∷ kept else kept

abbrev Anything : ℤ → Type 0
Anything id = Unit {0}

vin-Kept : {F : Type 0} (v : Text) → Kept {F = F} Anything v (λ g. g.vin ≡ v)
unfolding enqueue report_trip_init_ack report_trip_cancel_ack report_order_update_location_ack
    report_location report_eta report_status report_arrive set_active_trip_id
vin-Kept v = record {
  same_vin = λ g h. h;
  keeps_id = λ g id k h. h;
  keeps_request = λ g id k h. h;
  keeps_init_ack = λ g h. h;
  keeps_cancel_ack = λ g b t h. h;
  keeps_update_ack = λ g b t h. h;
  keeps_location = λ g x y h. h;
  keeps_eta = λ g d t f h. h;
  keeps_status = λ g t h. h;
  keeps_arrive = λ g d k h. h;
}

anything : {F : Type 0} (v : Text) (ev : AgentEvent F) → Authorised Anything v ev
anything v (receives (trip_init vin id start goal)) = λ _. tt
anything v (receives (trip_move vin id)) = λ _. tt
anything v (receives (trip_cancel vin id)) = tt
anything v (receives (trip_park vin)) = tt
anything v (receives (order_update_location vin)) = tt
anything v (receives (order_update_status vin)) = tt
anything v (receives no_command) = tt
anything v (runs now tf) = tt
anything v (serves now r) = tt
anything v location_runs = tt
anything v (location_ticks now) = tt

module _ {F M : Type 0} (e : Lanes F M) where
  foreign-ignored :
      (a : Agent F M) (ev : AgentEvent F)
      → is_addressed a.gateway.vin ev ≡ false
      → on_event e a ev ≡ ok a
  unfolding on_event on_command
  foreign-ignored a (receives cmd) h = ap (λ b. ok (if b then dispatch a cmd else a)) h
  foreign-ignored a (runs now tf) h = cc
  foreign-ignored a (serves now r) h = cc
  foreign-ignored a location_runs h = cc
  foreign-ignored a (location_ticks now) h = cc

  same_rest :
      (v : Text) (rest kept : List (AgentEvent F)) (m : Result (Agent F M))
      → Ensures (λ b. b.gateway.vin ≡ v) m
      → ((b : Agent F M) → b.gateway.vin ≡ v → on_events e b kept ≡ on_events e b rest)
      → (m >>= λ b. on_events e b kept) ≡ (m >>= λ b. on_events e b rest)
  same_rest v rest kept (ok b) h k = k b h
  same_rest v rest kept (err x) h k = refl

  -- If the client's vin is `v`, a history ends in the same result, exception or state, as the
  -- history without the commands whose vin is not `v`.
  pub on_events-addressed :
      (v : Text) (a : Agent F M) (history : List (AgentEvent F))
      → a.gateway.vin ≡ v
      → on_events e a (addressed v history) ≡ on_events e a history
  unfolding on_events
  on_events-addressed v a [] h = refl
  on_events-addressed v a (ev ∷ rest) h =
      tested (is_addressed v ev) refl (on_events-addressed v a rest h)
        (λ b. on_events-addressed v b rest)
    where
      tested :
          (t : Bool)
          → is_addressed v ev ≡ t
          → on_events e a (addressed v rest) ≡ on_events e a rest
          → ((b : Agent F M)
              → b.gateway.vin ≡ v
              → on_events e b (addressed v rest) ≡ on_events e b rest)
          → on_events e a (if t then ev ∷ addressed v rest else addressed v rest)
            ≡ (on_event e a ev >>= λ b. on_events e b rest)
      tested true same skipped k =
          same_rest v rest (addressed v rest) (on_event e a ev)
            (on_event-keeps e Anything v (λ g. g.vin ≡ v) (vin-Kept v) a ev (anything v ev) h) k
      tested false same skipped k =
          skipped
          ∙ sym (
              ap (λ m. m >>= λ b. on_events e b rest)
                (foreign-ignored a ev (subst (λ w. is_addressed w ev ≡ false) (sym h) same)))
