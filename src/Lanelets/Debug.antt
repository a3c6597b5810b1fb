-- ===== src/Lanelets/Debug.antt =====
-- What the debug functions of LaneletMap.cc log: debugRouteConnectivity, debugConnectedComponents
-- once the components are found, and debugFindBestStartingLane.
pub mod Prefixes
pub mod Starts
use autoware_agent.Base.{
  ℕ, zero, suc, ◌≡◌, ◌+◌, ◌-◌, ◌^◌, ◌≤◌, Bool, true, false, List, [], ◌∷◌, ◌++◌, map, Option, none,
  some, All, Text, codes, length, get_elem?, leb, ltb, if◌then◌else◌, ℤ, eq_ℤ, Result, ok, err,
  ◌>>=◌, out_of_bounds,
}
use mathlib.Core.List.{Permᴰ}
use autoware_agent.Decimal.{to_string}
use autoware_agent.Lanelets.Geometry.{Lanelet, Platform, is_drivable}
use autoware_agent.Lanelets.Map.{RoutingGraph, contains_id}
use autoware_agent.Lanelets.Components.{Neighbours, connected_components}

-- What std::sort asks of a comparison: a strict weak order.
pub record IsStrictWeak {A : Type 0} (before : A → A → Bool) : Type 0 where
  pub asym : (a b : A) → before a b ≡ true → before b a ≡ false
  pub not_trans : (a b c : A) → before a b ≡ false → before b c ≡ false → before a c ≡ false

-- No entry comes before an earlier one.
abbrev pub Sorted : {A : Type 0} → (A → A → Bool) → List A → Type 0
Sorted before [] = Unit {0}
Sorted before (x ∷ xs) = All (λ y. before y x ≡ false) xs × Sorted before xs

-- std::sort with a comparison: a permutation in its order; equals come in any order.
pub record Sorting : Type 1 where
  pub sort : {A : Type 0} → (A → A → Bool) → List A → List A
  pub sort_perm : {A : Type 0} (before : A → A → Bool) (xs : List A) → Permᴰ (sort before xs) xs
  pub sort_order :
      {A : Type 0} (before : A → A → Bool)
      → IsStrictWeak before
      → (xs : List A) → Sorted before (sort before xs)

-- `a.first > b.first`
abbrev pub more_reach : ℕ × ℤ → ℕ × ℤ → Bool
more_reach a b = ltb b.0 a.0

-- `a.size() > b.size()`
abbrev pub larger : List ℤ → List ℤ → Bool
larger a b = ltb (length b) (length a)

-- lanelet::routing::RoutingGraph, as far as these functions ask it.
pub record DebugGraph (F : Type 0) : Type 0 where
  pub routing : RoutingGraph F
  pub neighbours : Neighbours F
  -- the shortest path of getRoute
  pub get_route : Lanelet F → Lanelet F → Option (List (Lanelet F))

-- A line of the log, with what is formatted into it.
pub data DebugLine : Type 0 where
  graph_not_built : DebugLine
  invalid_ids no_route : ℤ → ℤ → DebugLine
  route_exists : ℤ → ℤ → ℕ → DebugLine
  followers predecessors reachable : ℤ → ℕ → DebugLine
  follower predecessor : ℤ → DebugLine
  within_200m : ℤ → Bool → ℤ → DebugLine
  components_total : ℕ → DebugLine
  component : ℕ → ℕ → DebugLine
  members : Text → DebugLine
  top_heading bottom_heading : DebugLine
  -- rank, lane, reach
  top : ℕ → ℤ → ℕ → DebugLine
  bottom : ℤ → ℕ → DebugLine

-- `ids += std::to_string(id) + " "`
abbrev member_text : List ℤ → Text → Text
member_text [] text = text
member_text (i ∷ is) text = member_text is (text ++ (to_string i ++ codes " "))

abbrev component_lines : ℕ → List (List ℤ) → List DebugLine
component_lines i [] = []
component_lines i (c ∷ cs) =
    component i (length c)
    ∷ ((if leb (length c) 30 then members (member_text c []) ∷ [] else [])
        ++ component_lines (suc i) cs)

-- std::vector::operator[]
abbrev at : {A : Type 0} → List A → ℕ → Result A
at xs i = elim (get_elem? xs i) [ none ↦ err out_of_bounds | some a ↦ ok a ]

-- The difference of two values of size_t, of 64 bits.
abbrev pub size_minus : ℕ → ℕ → ℕ
size_minus a b = if ltb a b then a + 2 ^ 64 - b else a - b

-- The two loops, from `i` on for so many rounds.
abbrev pub top_lines : List (ℕ × ℤ) → ℕ → ℕ → Result (List DebugLine)
top_lines counts i zero = ok []
top_lines counts i (suc rounds) = do
  entry ← at counts i
  rest ← top_lines counts (suc i) rounds
  ok (top i entry.1 entry.0 ∷ rest)

abbrev pub bottom_lines : List (ℕ × ℤ) → ℕ → ℕ → Result (List DebugLine)
bottom_lines counts i zero = ok []
bottom_lines counts i (suc rounds) = do
  entry ← at counts (size_minus (size_minus (length counts) 1) i)
  rest ← bottom_lines counts (suc i) rounds
  ok (bottom entry.1 entry.0 ∷ rest)

-- std::min<size_t>(10, reach_counts.size())
abbrev pub at_most_ten : ℕ → ℕ
at_most_ten n = if ltb n 10 then n else 10

-- What is logged of the sorted counts.
unfoldable pub rank_lines : List (ℕ × ℤ) → Result (List DebugLine)
rank_lines counts = do
  tops ← top_lines counts 0 (at_most_ten (length counts))
  bottoms ← bottom_lines counts 0 (at_most_ten (length counts))
  ok (top_heading ∷ (tops ++ bottom_heading ∷ bottoms))

module _ {F : Type 0} where
  -- laneletLayer.find
  abbrev find_lane : List (Lanelet F) → ℤ → Option (Lanelet F)
  find_lane [] i = none
  find_lane (l ∷ ls) i = if eq_ℤ l.id i then some l else find_lane ls i

  abbrev route_line : ℤ → ℤ → Option (List (Lanelet F)) → DebugLine
  route_line from_id to_id none = no_route from_id to_id
  route_line from_id to_id (some path) = route_exists from_id to_id (length path)

module _ {F : Type 0} (p : Platform F) where
  abbrev between : DebugGraph F → ℤ → ℤ → Option (Lanelet F) → Option (Lanelet F) → List DebugLine
  between g from_id to_id (some from_ll) (some to_ll) =
      let near = g.routing.reachable_set from_ll (p.literal 200 0) in
      route_line from_id to_id (g.get_route from_ll to_ll)
      ∷ (followers from_id (length (g.neighbours.following from_ll))
          ∷ (map (λ f. follower f.id) (g.neighbours.following from_ll)
              ++ (predecessors to_id (length (g.neighbours.previous to_ll))
                  ∷ (map (λ q. predecessor q.id) (g.neighbours.previous to_ll)
                      ++ (reachable from_id (length near)
                          ∷ within_200m to_id (contains_id p near to_id) from_id
                          ∷ [])))))
  between g from_id to_id _ _ = invalid_ids from_id to_id ∷ []

  unfoldable pub debug_route_connectivity :
      List (Lanelet F) → Option (DebugGraph F) → ℤ → ℤ → List DebugLine
  debug_route_connectivity layer none from_id to_id = graph_not_built ∷ []
  debug_route_connectivity layer (some g) from_id to_id =
      between g from_id to_id (find_lane layer from_id) (find_lane layer to_id)

  -- What debugConnectedComponents logs of the components.
  unfoldable pub debug_connected_components :
      Sorting → List (Lanelet F) → Option (DebugGraph F) → Option (List DebugLine)
  debug_connected_components s layer none = some (graph_not_built ∷ [])
  debug_connected_components s layer (some g) =
      elim (connected_components g.neighbours layer) as (λ _. Option (List DebugLine)) [
        | none ↦ none
        | some (components, visited) ↦ some (
            components_total (length (s.sort larger components))
            ∷ component_lines 0 (s.sort larger components))
      ]

  -- A round of the loop that fills reach_counts.
  abbrev pub count_lane : RoutingGraph F → List (ℕ × ℤ) → Lanelet F → List (ℕ × ℤ)
  count_lane g counts ll =
      if is_drivable ll.subtype
      then counts ++ (length (g.reachable_set ll (p.literal 1000000 0)), ll.id) ∷ []
      else counts

  unfoldable pub reach_counts : RoutingGraph F → List (ℕ × ℤ) → List (Lanelet F) → List (ℕ × ℤ)
  reach_counts g counts [] = counts
  reach_counts g counts (ll ∷ lls) = reach_counts g (count_lane g counts ll) lls

  unfoldable pub debug_find_best_starting_lane :
      Sorting → List (Lanelet F) → Option (DebugGraph F) → Result (List DebugLine)
  debug_find_best_starting_lane s layer none = ok (graph_not_built ∷ [])
  debug_find_best_starting_lane s layer (some g) =
      rank_lines (s.sort more_reach (reach_counts g.routing [] layer))
