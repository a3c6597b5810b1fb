-- ===== src/Trip/Diagram/Orders.antt =====
-- Which commands each state of the diagram needs to have been given, and that every move of the
-- diagram respects it.
use autoware_agent.Base.{
  ℕ, ◌≤◌, ◌≡◌, refl, sym, inl, inr, Bool, true, false, List, [], ◌∷◌, ◌==◌, if◌then◌else◌, subst,
  arith, Any, All,
}
use autoware_agent.Trip.State.{
  TripState, idle, initializing_in_map, query_publishing_initial_pose, query_waiting_localisation,
  query_publishing_goal, query_waiting_route, query_reading_eta, routes_ready,
  waiting_for_pickup_start, publishing_initial_pose, waiting_localisation, engaging,
  driving_to_pickup, waiting_for_move, running, completed, cancelled, failed,
}
use autoware_agent.Trip.Diagram.Spots.{
  Spot, Kind, asked, started, gone, moved, commanded, withdrawn, ticked, engaged, heard, Moves,
  Among, asked_in, started_in, gone_in, moved_in, commanded_in, ticked_in, engaged_in,
}

-- How many of the orders `ask, start, go, move` were given, in this order, since the last cancel; a
-- move command stands for the go and for the move.
abbrev pub given : ℕ → Kind → ℕ
given n asked = if n == 0 then 1 else n
given n started = if n == 1 then 2 else n
given n gone = if n == 2 then 3 else n
given n moved = if n == 3 then 4 else n
given n commanded = if n == 2 then 3 else if n == 3 then 4 else n
given n withdrawn = 0
given n ticked = n
given n engaged = n
given n heard = n

abbrev pub given_all : ℕ → List Kind → ℕ
given_all n [] = n
given_all n (k ∷ ks) = given_all (given n k) ks

-- The orders that a state needs; ENGAGING needs the move when it engages for the trip.
abbrev pub needed : TripState → Bool → ℕ
needed idle leg = 0
needed initializing_in_map leg = 0
needed query_publishing_initial_pose leg = 1
needed query_waiting_localisation leg = 1
needed query_publishing_goal leg = 1
needed query_waiting_route leg = 1
needed query_reading_eta leg = 1
needed routes_ready leg = 1
needed waiting_for_pickup_start leg = 2
needed publishing_initial_pose leg = 3
needed waiting_localisation leg = 3
needed engaging leg = if leg then 3 else 4
needed driving_to_pickup leg = 3
needed waiting_for_move leg = 3
needed running leg = 4
needed completed leg = 4
needed cancelled leg = 0
needed failed leg = 2

-- On the way to the pickup the flag of the pickup leg is up.
abbrev pub Flagged : TripState → Bool → Type 0
Flagged waiting_for_pickup_start leg = leg ≡ true
Flagged publishing_initial_pose leg = leg ≡ true
Flagged waiting_localisation leg = leg ≡ true
Flagged _ leg = Unit {0}

abbrev pub Covered : ℕ → Spot → Type 0
Covered n b = (needed b.0 b.1 ≤ n) × Flagged b.0 b.1

pickup_needs : (n : ℕ) (leg : Bool) → (if leg then 3 else 4) ≤ n → 3 ≤ n
pickup_needs n leg h = ground arith

-- Every state of the list is covered, so the one that is entered is.
among :
    (n : ℕ) (leg : Bool) (states : List TripState) (b : Spot)
    → All (λ t. Covered n (t, leg)) states
    → Among states leg b
    → Covered n b
among n leg [] b h at = absurd at
among n leg (s ∷ rest) b h (inl at) = subst (λ (d : Spot). Covered n d) (sym at) h.0
among n leg (s ∷ rest) b h (inr later) = among n leg rest b h.1 later

among_spots :
    (n : ℕ) (spots : List Spot) (b : Spot)
    → All (λ t. Covered n t) spots
    → Any (λ t. b ≡ t) spots
    → Covered n b
among_spots n [] b h at = absurd at
among_spots n (s ∷ rest) b h (inl at) = subst (λ (d : Spot). Covered n d) (sym at) h.0
among_spots n (s ∷ rest) b h (inr later) = among_spots n rest b h.1 later

keeps-asked : (n : ℕ) → (n ≤ given n asked) × (1 ≤ given n asked)
keeps-asked n = (ground arith, ground arith)

keeps-started : (n : ℕ) → (n ≤ given n started) × (1 ≤ n → 2 ≤ given n started)
keeps-started n = (ground arith, λ h. ground arith)

keeps-gone : (n : ℕ) → (n ≤ given n gone) × (2 ≤ n → 3 ≤ given n gone)
keeps-gone n = (ground arith, λ h. ground arith)

keeps-moved : (n : ℕ) → (n ≤ given n moved) × (3 ≤ n → 4 ≤ given n moved)
keeps-moved n = (ground arith, λ h. ground arith)

keeps-commanded :
    (n : ℕ)
    → (n ≤ given n commanded) × (2 ≤ n → 3 ≤ given n commanded) × (3 ≤ n → 4 ≤ given n commanded)
keeps-commanded n = (ground arith, λ h. ground arith, λ h. ground arith)

asked-Covered :
    (n : ℕ) (s : TripState) (leg : Bool)
    → Covered n (s, leg)
    → All (λ t. Covered (given n asked) (t, leg)) (asked_in s)
asked-Covered n idle leg h = ((omega arith, tt), (((keeps-asked n).1, tt), tt))
asked-Covered n _ leg h = ((omega (arith, h.0, (keeps-asked n).0), h.1), tt)

started-Covered :
    (n : ℕ) (s : TripState) (leg : Bool)
    → Covered n (s, leg)
    → All (λ t. Covered (given n started) (t, true)) (started_in s)
started-Covered n routes_ready leg h = (
  (omega (arith, h.0, (keeps-started n).0), tt),
  (((keeps-started n).1 h.0, refl), (((keeps-started n).1 h.0, tt), tt)),
)
started-Covered n engaging leg h =
    ((omega (arith, pickup_needs n leg h.0, (keeps-started n).0), tt), tt)
started-Covered n waiting_for_pickup_start leg h =
    ((omega (arith, h.0, (keeps-started n).0), refl), tt)
started-Covered n publishing_initial_pose leg h =
    ((omega (arith, h.0, (keeps-started n).0), refl), tt)
started-Covered n waiting_localisation leg h = ((omega (arith, h.0, (keeps-started n).0), refl), tt)
started-Covered n _ leg h = ((omega (arith, h.0, (keeps-started n).0), tt), tt)

gone-Covered :
    (n : ℕ) (s : TripState) (leg : Bool)
    → Covered n (s, leg)
    → All (λ t. Covered (given n gone) (t, leg)) (gone_in s)
gone-Covered n waiting_for_pickup_start leg h = (((keeps-gone n).1 h.0, h.1), tt)
gone-Covered n _ leg h = ((omega (arith, h.0, (keeps-gone n).0), h.1), tt)

moved-Covered :
    (n : ℕ) (s : TripState) (leg : Bool)
    → Covered n (s, leg)
    → All (λ t. Covered (given n moved) t) (moved_in s leg)
moved-Covered n waiting_for_move leg h =
    ((omega (arith, h.0, (keeps-moved n).0), tt), (((keeps-moved n).1 h.0, tt), tt))
moved-Covered n _ leg h = ((omega (arith, h.0, (keeps-moved n).0), h.1), tt)

commanded-Covered :
    (n : ℕ) (s : TripState) (leg : Bool)
    → Covered n (s, leg)
    → All (λ t. Covered (given n commanded) t) (commanded_in s leg)
commanded-Covered n waiting_for_pickup_start leg h = (((keeps-commanded n).1 h.0, h.1), tt)
commanded-Covered n waiting_for_move leg h =
    ((omega (arith, h.0, (keeps-commanded n).0), tt), (((keeps-commanded n).2 h.0, tt), tt))
commanded-Covered n _ leg h = ((omega (arith, h.0, (keeps-commanded n).0), h.1), tt)

ticked-Covered :
    (n : ℕ) (s : TripState) (leg : Bool)
    → Covered n (s, leg)
    → All (λ t. Covered n (t, leg)) (ticked_in s)
ticked-Covered n query_waiting_localisation leg h = (h, ((omega arith, tt), (h, tt)))
ticked-Covered n query_waiting_route leg h = (h, ((omega arith, tt), (h, tt)))
ticked-Covered n query_reading_eta leg h = ((omega arith, tt), (h, (h, (h, tt))))
ticked-Covered n waiting_localisation leg h =
    (h, ((subst (λ (b : Bool). (if b then 3 else 4) ≤ n) (sym h.1) h.0, tt), tt))
ticked-Covered n initializing_in_map leg h = (h, (h, tt))
ticked-Covered n driving_to_pickup leg h = (h, (h, tt))
ticked-Covered n running leg h = (h, (h, tt))
ticked-Covered n _ leg h = (h, tt)

engaged-Covered :
    (n : ℕ) (s : TripState) (leg : Bool)
    → Covered n (s, leg)
    → All (λ t. Covered n (t, leg)) (engaged_in s leg)
engaged-Covered n engaging true h = (h, (h, tt))
engaged-Covered n engaging false h = (h, (h, tt))
engaged-Covered n _ leg h = (h, tt)

-- The orders cover every move of the diagram.
pub Covered-Moves :
    (k : Kind) (n : ℕ) (s : TripState) (leg : Bool) (b : Spot)
    → Covered n (s, leg)
    → Moves k s leg b
    → Covered (given n k) b
Covered-Moves asked n s leg b h m = among _ leg (asked_in s) b (asked-Covered n s leg h) m
Covered-Moves started n s leg b h m = among _ true (started_in s) b (started-Covered n s leg h) m
Covered-Moves gone n s leg b h m = among _ leg (gone_in s) b (gone-Covered n s leg h) m
Covered-Moves moved n s leg b h m = among_spots _ (moved_in s leg) b (moved-Covered n s leg h) m
Covered-Moves commanded n s leg b h m =
    among_spots _ (commanded_in s leg) b (commanded-Covered n s leg h) m
Covered-Moves withdrawn n s leg b h m = subst (λ (d : Spot). Covered 0 d) (sym m) (omega arith, tt)
Covered-Moves ticked n s leg b h m = among n leg (ticked_in s) b (ticked-Covered n s leg h) m
Covered-Moves engaged n s leg b h m = among n leg (engaged_in s leg) b (engaged-Covered n s leg h) m
Covered-Moves heard n s leg b h m = subst (λ (d : Spot). Covered n d) (sym m) h
