-- ===== src/Examples/AgentWitnesses.antt =====
-- The theorems on the agent and its gateway client at work.
use autoware_agent.Base.{
  ℕ, ◌≡◌, refl, ◌≤◌, inl, inr, ◌⊎◌, true, false, List, [], ◌∷◌, ◌++◌, none, some, codes, ℤ, pos, ok,
  err, Result, Returns, All,
}
use autoware_agent.Geometry.{GpsCoordinate}
use autoware_agent.Lanelets.Map.{LaneletMap}
use autoware_agent.Trip.Events.{step, engage_answer, timer}
use autoware_agent.Trip.Commands.{on_engage_response}
use autoware_agent.Controller.{AutowareController, new_trip_controller}
use autoware_agent.Controller.Requests.{arrives, serve}
use autoware_agent.Gateway.{trip_init, trip_move, trip_cancel}
use autoware_agent.Gateway.Stream.{
  Client, reports, opens, pops, write_fails, stopped, start, later, Reach,
}
use autoware_agent.Gateway.Delivery.{firsts, held as held_event, losses, delivery}
use autoware_agent.Agent.{
  Agent, AgentEvent, receives, runs, location_runs, location_ticks, sent_of, on_request, on_events,
  listening,
}
use autoware_agent.Agent.Keeps.{Authorised}
use autoware_agent.Agent.Foreign.{addressed, on_events-addressed}
use autoware_agent.Agent.Sane.{AgentInv, on_events-AgentInv}
use autoware_agent.Agent.Stamped.{Stamped, on_events-Stamped}
use autoware_agent.Trip.State.{query_reading_eta, trip}
use autoware_agent.Agent.Reports.{statuses, announcement, switch, over_changes, on_request-reports}
use autoware_agent.Examples.{
  roads, Known, Sound, laws, town-Sound, parked, asked, asked-Inv, engaged_for_trip, held,
}

abbrev place : GpsCoordinate ℕ
place = record { latitude = 36; longitude = 139 }

abbrev agent : Agent ℕ (LaneletMap ℕ)
agent = record {
  controller = record parked { trip_ctrl = some asked };
  gateway = record {
    vin = codes "ORIN";
    active_trip_id = pos 0;
    request_id = pos 0;
    write_queue = [];
  };
  handlers_set = true;
  location = record {
    frame_seq = 0;
    current_lat = 0;
    current_lon = 0;
    streaming_enabled = false;
    published = [];
  };
  posted = [];
  location_posted = [];
}

-- A cancellation, another vehicle's move, and a new trip.
abbrev commands : List (AgentEvent ℕ)
commands =
    receives (trip_cancel (codes "ORIN") (pos 3))
    ∷ runs 60 none
    ∷ receives (trip_move (codes "OTHER") (pos 9))
    ∷ receives (trip_init (codes "ORIN") (pos 4) place place)
    ∷ runs 70 none
    ∷ location_runs
    ∷ location_ticks 80
    ∷ []

on_events-AgentInv_example :
    Returns (AgentInv roads Known Sound laws) (on_events roads agent commands)
on_events-AgentInv_example =
    on_events-AgentInv roads Known Sound laws agent commands (town-Sound, asked-Inv)

abbrev Given : ℤ → Type 0
Given id = (id ≡ pos 0) ⊎ (id ≡ pos 4)

authorised : All (Authorised Given (codes "ORIN")) commands
authorised = (tt, (tt, ((λ own. cc), ((λ own. inr refl), (tt, (tt, (tt, tt)))))))

on_events-Stamped_example :
    Returns
      (λ b. AgentInv roads Known Sound laws b × Stamped Given (codes "ORIN") b.gateway)
      (on_events roads agent commands)
on_events-Stamped_example =
    on_events-Stamped roads Known Sound laws Given (codes "ORIN") agent commands
      (town-Sound, asked-Inv) (refl, (inl refl, (inl refl, tt))) authorised

on_events-addressed_example :
    on_events roads agent (addressed (codes "ORIN") commands) ≡ on_events roads agent commands
on_events-addressed_example = on_events-addressed roads (codes "ORIN") agent commands refl

-- The engagement for the trip leg is answered.
abbrev setting_off : Agent ℕ (LaneletMap ℕ)
setting_off = record agent {
  controller = record parked {
    trip_ctrl = some (record engaged_for_trip { on_state_change = true });
  };
}

abbrev set_off : AutowareController ℕ (LaneletMap ℕ)
set_off = record parked {
  trip_ctrl = some (on_engage_response (record engaged_for_trip { on_state_change = true }) 1 90);
}

on_request-reports_example :
    (b : Agent ℕ (LaneletMap ℕ)) × (on_request roads setting_off 90 (arrives (engage_answer 1))
      ≡ ok b)
    × (b.controller ≡ set_off)
    × (statuses b.gateway.write_queue ≡ [] ++ over_changes announcement (sent_of set_off.trip_ctrl))
    × (b.location_posted ≡ [] ++ over_changes switch (sent_of set_off.trip_ctrl))
unfolding serve step new_trip_controller
on_request-reports_example =
    on_request-reports roads setting_off 90 (arrives (engage_answer 1)) set_off refl refl

-- The ETA of the trip leg has come, and the query is the agent's.
abbrev quoting : Agent ℕ (LaneletMap ℕ)
quoting = record agent {
  controller = record parked {
    trip_ctrl = some (record asked {
      status = record (asked.status) { state = query_reading_eta };
      current_leg = trip;
      query_cb = some 0;
      eta_received = true;
      eta_distance_m = 3000;
      eta_seconds = 120;
      pickup_route = some held;
    });
  };
}

-- What serving a request leaves.
abbrev served_or :
    AutowareController ℕ (LaneletMap ℕ)
    → Result (AutowareController ℕ (LaneletMap ℕ))
    → AutowareController ℕ (LaneletMap ℕ)
served_or a (ok c) = c
served_or a (err x) = a

abbrev quoted : AutowareController ℕ (LaneletMap ℕ)
quoted =
    served_or parked (serve roads (listening quoting.controller) 95 (arrives (timer true true)))

-- Two reports, and a stream that breaks at the first.
abbrev broken : Client ℕ
broken = record {
  shutdown = false;
  write_queue = 8 ∷ [];
  reconnecting = true;
  in_stream = true;
  stream_dead = true;
  read_received = false;
  reading = true;
  writer = stopped;
  enqueued = 7 ∷ 8 ∷ [];
  popped = (7, false) ∷ [];
  streams = 1;
}

broken-Reach : Reach broken
broken-Reach =
    later
      (later (later (later (later start (reports 7)) (reports 8)) (opens refl refl refl))
        (pops 7 (8 ∷ []) refl refl refl refl refl))
      (write_fails 7 refl refl)

delivery_example :
    (firsts broken.popped ++ (held_event broken.writer ++ broken.write_queue) ≡ broken.enqueued)
    × (losses broken.popped ≤ broken.streams)
delivery_example = delivery broken broken-Reach
