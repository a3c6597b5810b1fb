-- ===== src/Trip/Diagram/Order.antt =====
-- What the state diagram tells of the order in which the commands of a trip were given.
use autoware_agent.Base.{ℕ, ◌≤◌, ◌≡◌, sym, List, [], ◌∷◌, ℤ, subst, arith, Returns, Returns-weaken}
use autoware_agent.Geometry.{Lanes}
use autoware_agent.Trip.State.{TripState, idle, TripController}
use autoware_agent.Trip.Laws.{LawfulLanes}
use autoware_agent.Trip.Events.{Event, run}
use autoware_agent.Trip.Phases.{Inv}
use autoware_agent.Trip.Diagram.Spots.{Spot, spot, Kind, Trace}
use autoware_agent.Trip.Diagram.Refines.{kinds, run-Trace}
use autoware_agent.Trip.Diagram.Orders.{given_all, given, needed, Covered, Covered-Moves}

Covered-Trace :
    (ks : List Kind) (n : ℕ) (a b : Spot) → Covered n a → Trace ks a b → Covered (given_all n ks) b
Covered-Trace [] n a b h t = subst (λ (d : Spot). Covered n d) (sym t) h
Covered-Trace (k ∷ ks) n a b h (m, moves, rest) =
    Covered-Trace ks (given n k) m b (Covered-Moves k n a.0 a.1 m h moves) rest

module _ {F M : Type 0} (e : Lanes F M) (Known : ℤ → Type 0) (Sound : M → Type 0)
    (laws : LawfulLanes e Known Sound) where
  -- For a lanelet map with lawful lookups, from a trip controller in IDLE that satisfies the
  -- invariant: every history ends without an exception, in a state for which the orders that it
  -- needs were given. RUNNING and COMPLETED need a query, a start, a go and a move in this order
  -- since the last cancel, where a move command stands for the go or for the move; ENGAGING for
  -- the trip leg needs these four too, DRIVING_TO_PICKUP, WAITING_FOR_MOVE and the two
  -- localisation states before them the first three, WAITING_FOR_PICKUP_START the first two, and
  -- ROUTES_READY and the states of a query the first.
  pub run-needed_orders :
      (c : TripController F M) (history : List (ℕ × Event F))
      → Inv Known Sound c
      → c.status.state ≡ idle
      → Returns
          (λ c'. needed c'.status.state c'.engaging_for_pickup ≤ given_all 0 (kinds history))
          (run e c history)
  run-needed_orders c history h st =
      let from =
        subst (λ (s : TripState). Covered 0 (s, c.engaging_for_pickup)) (sym st)
          (omega arith, tt) in
      Returns-weaken (λ c'. Trace (kinds history) (spot c) (spot c')) _ (run e c history)
        (λ c' t. (Covered-Trace (kinds history) 0 (spot c) (spot c') from t).0)
        (run-Trace e Known Sound laws c history h)
