-- ===== src/Agent/Quotes.antt =====
-- What follows the answer of an ETA query: the quote to the gateway, and the start of the trip.
use autoware_agent.Base.{◌==◌, ℕ, ◌≡◌, List, [], ◌∷◌, ◌++◌, if◌then◌else◌}
use autoware_agent.Geometry.{Lanes}
use autoware_agent.Trip.State.{EtaQueryResult, Output, answered}
use autoware_agent.Controller.{AutowareController, Reply, eta_replied}
use autoware_agent.Gateway.{Gateway, VehicleEvent, eta}
use autoware_agent.Agent.{Agent, Job, sent_of}
use autoware_agent.Agent.Heard.{over}

-- The ETA events of a queue: the seconds and the fare.
abbrev pub quotes : {F : Type 0} → List (VehicleEvent F) → List (F × F)
quotes [] = []
quotes (eta vin id time fare text ∷ evs) = (time, fare) ∷ quotes evs
quotes (_ ∷ evs) = quotes evs

-- One entry for a successful answer to the callback 0, and none for another.
abbrev pub for_success : {A F : Type 0} → (EtaQueryResult F → A) → ℕ → EtaQueryResult F → List A
for_success f k r = if k == 0 then (if r.success then f r ∷ [] else []) else []

abbrev pub sent_success : {A F : Type 0} → (EtaQueryResult F → A) → Output F → List A
sent_success f (answered k r) = for_success f k r
sent_success f _ = []

abbrev pub replied_success : {A F : Type 0} → (EtaQueryResult F → A) → Reply F → List A
replied_success f (eta_replied k r) = for_success f k r
replied_success f _ = []

-- Over what a request sends, and then over what it answers.
abbrev pub successes : {A F M : Type 0} → (EtaQueryResult F → A) → AutowareController F M → List A
successes f c = over (sent_success f) (sent_of c.trip_ctrl) ++ over (replied_success f) c.replies

module _ {F M : Type 0} (e : Lanes F M) where
  -- The quote of a result: the seconds of both legs, and as the fare 5, and for the trip leg 2 for
  -- a kilometre and a half for a minute.
  abbrev pub quote : EtaQueryResult F → F × F
  quote r = (
    e.add r.pickup_leg.eta_seconds r.trip_leg.eta_seconds,
    e.add
        (e.add (e.literal 5 0)
          (e.mul (e.div r.trip_leg.distance_m (e.literal 1000 0)) (e.literal 2 0)))
        (e.mul (e.div r.trip_leg.eta_seconds (e.literal 60 0)) (e.literal 5 1)),
  )

  abbrev quotes_of : Agent F M → List (F × F)
  quotes_of a = quotes a.gateway.write_queue

  abbrev jobs_of : Agent F M → List (Job F)
  jobs_of a = a.posted

  -- A change of the state quotes nothing and posts nothing.
  abbrev Same : Agent F M → Agent F M → Type 0
  Same a b = (quotes_of b ≡ quotes_of a) × (b.posted ≡ a.posted)

  -- One output and one reply, for both lists.
  abbrev Adds : Agent F M → Agent F M → List (F × F) → List (Job F) → Type 0
  Adds a b qs js = (quotes_of b ≡ quotes_of a ++ qs) × (b.posted ≡ a.posted ++ js)
