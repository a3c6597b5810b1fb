-- ===== src/Agent/Stamped.antt =====
-- What the events of the agent carry: the vin of the vehicle, and ids that the gateway gave it.
use autoware_agent.Base.{List, [], ◌∷◌, ◌++◌, ◌≡◌, sym, subst, Text, All, ℤ, Returns, Returns-both}
use autoware_agent.Geometry.{Lanes}
use autoware_agent.Trip.Laws.{LawfulLanes}
use autoware_agent.Gateway.{
  VehicleEvent, location, eta, status, arrive, Gateway, enqueue, report_trip_init_ack,
  report_trip_cancel_ack, report_order_update_location_ack, report_location, report_eta,
  report_status, report_arrive, set_active_trip_id,
}
use autoware_agent.Agent.{Agent, AgentEvent, on_events}
use autoware_agent.Agent.Keeps.{Kept, Authorised, on_events-keeps}
use autoware_agent.Agent.Sane.{AgentInv, on_events-AgentInv}

module _ {F : Type 0} (Allowed : ℤ → Type 0) (v : Text) where
  abbrev pub Carries : VehicleEvent F → Type 0
  Carries (location vin latitude longitude) = vin ≡ v
  Carries (eta vin id time fare text) = (vin ≡ v) × Allowed id
  Carries (status vin id text) = (vin ≡ v) × Allowed id
  Carries (arrive vin id latitude longitude) = (vin ≡ v) × Allowed id
  Carries _ = Unit {0}

  abbrev pub Stamped : Gateway F → Type 0
  Stamped g =
      (g.vin ≡ v) × (Allowed g.active_trip_id × (Allowed g.request_id × All Carries g.write_queue))

  All-snoc :
      (q : List (VehicleEvent F)) (ev : VehicleEvent F)
      → All Carries q
      → Carries ev
      → All Carries (q ++ ev ∷ [])
  All-snoc [] ev h k = (k, tt)
  All-snoc (x ∷ q) ev h k = (h.0, All-snoc q ev h.1 k)

  enqueue-Stamped :
      (g : Gateway F) (ev : VehicleEvent F) → Carries ev → Stamped g → Stamped (enqueue g ev)
  unfolding enqueue
  enqueue-Stamped g ev k (same, (trip, (asked, all))) =
      (same, (trip, (asked, All-snoc g.write_queue ev all k)))

  Stamped-Kept : Kept Allowed v Stamped
  unfolding report_trip_init_ack report_trip_cancel_ack report_order_update_location_ack
      report_location report_eta report_status report_arrive set_active_trip_id
  Stamped-Kept = record {
    same_vin = λ g h. h.0;
    keeps_id = λ g id k h. (h.0, (k, h.1.1));
    keeps_request = λ g id k h. (h.0, (h.1.0, (k, h.1.1.1)));
    keeps_init_ack = λ g h. enqueue-Stamped g _ tt h;
    keeps_cancel_ack = λ g b t h. enqueue-Stamped g _ tt h;
    keeps_update_ack = λ g b t h. enqueue-Stamped g _ tt h;
    keeps_location = λ g x y h. enqueue-Stamped g _ h.0 h;
    keeps_eta = λ g d t f h. enqueue-Stamped g _ (h.0, h.1.1.0) h;
    keeps_status = λ g t h. enqueue-Stamped g _ (h.0, h.1.0) h;
    keeps_arrive = λ g d k h. enqueue-Stamped g _ (h.0, subst Allowed (sym k) h.1.0) h;
  }

module _ {F M : Type 0} (e : Lanes F M) (Known : ℤ → Type 0) (Sound : M → Type 0)
    (laws : LawfulLanes e Known Sound) where
  -- Let some ids be allowed, and the agent's controller satisfy its invariant. If the client has
  -- the vin `v`, its trip id and request id are allowed and its queued events carry `v` and
  -- allowed ids, and if each TripInit and TripMove of the history that has the vin `v` comes with
  -- an allowed id, then the history raises no exception, and afterwards the same holds of the
  -- client: every location, ETA, status and arrival event that is queued carries `v`, and every
  -- trip or request id in them is allowed. So no id of a command for another vehicle is ever
  -- reported.
  pub on_events-Stamped :
      (Allowed : ℤ → Type 0) (v : Text) (a : Agent F M) (history : List (AgentEvent F))
      → AgentInv e Known Sound laws a
      → Stamped Allowed v a.gateway
      → All (Authorised Allowed v) history
      → Returns
          (λ b. AgentInv e Known Sound laws b × Stamped Allowed v b.gateway)
          (on_events e a history)
  on_events-Stamped Allowed v a history h k all =
      Returns-both (AgentInv e Known Sound laws) (λ b. Stamped Allowed v b.gateway) _
        (on_events-AgentInv e Known Sound laws a history h)
        (on_events-keeps e Allowed v (Stamped Allowed v) (Stamped-Kept Allowed v) a history all k)
