-- ===== src/Lanelets/Components.antt =====
-- debugConnectedComponents of LaneletMap.cc: the flood fill over the routing graph, up to the list
-- of components that is then sorted and logged.
pub mod Visited
pub mod Flooding
pub mod Partition
pub mod Connected
use autoware_agent.Base.{
  ℕ, zero, suc, Bool, true, false, ◌||◌, List, [], ◌∷◌, ◌++◌, Option, none, some, length,
  if◌then◌else◌, ℤ, eq_ℤ,
}
use autoware_agent.Lanelets.Geometry.{Lanelet, is_drivable}

-- lanelet::routing::RoutingGraph: the lanelets beside, before and behind one.
pub record Neighbours (F : Type 0) : Type 0 where
  pub following : Lanelet F → List (Lanelet F)
  pub previous : Lanelet F → List (Lanelet F)
  pub left : Lanelet F → Option (Lanelet F)
  pub right : Lanelet F → Option (Lanelet F)

-- visited.count; the set is the list of its ids in the order in which they came.
abbrev pub has_id : List ℤ → ℤ → Bool
has_id [] i = false
has_id (j ∷ js) i = eq_ℤ j i || has_id js i

pub record Flood (F : Type 0) : Type 0 where
  pub visited : List ℤ
  pub to_visit : List (Lanelet F)

module _ {F : Type 0} where
  -- insert and push
  abbrev pub visit : Flood F → Lanelet F → Flood F
  visit s f = record { visited = s.visited ++ f.id ∷ []; to_visit = s.to_visit ++ f ∷ [] }

  abbrev pub offer : Flood F → Lanelet F → Flood F
  offer s f = if has_id s.visited f.id then s else visit s f

  abbrev pub offer_all : Flood F → List (Lanelet F) → Flood F
  offer_all s [] = s
  offer_all s (f ∷ fs) = offer_all (offer s f) fs

  abbrev pub offer_side : Flood F → Option (Lanelet F) → Flood F
  offer_side s none = s
  offer_side s (some f) = offer s f

module _ {F : Type 0} (g : Neighbours F) where
  -- A round of the while loop, after `current` has left the queue.
  unfoldable pub expand : Flood F → Lanelet F → Flood F
  expand s current =
      offer_side
        (offer_side (offer_all (offer_all s (g.following current)) (g.previous current))
          (g.left current))
        (g.right current)

  -- The while loop: the component and the visited ids, or none when the fuel is used up.
  unfoldable pub flood : ℕ → List ℤ → Flood F → Option (List ℤ × List ℤ)
  flood zero component s = elim (s.to_visit) as (λ _. Option (List ℤ × List ℤ)) [
    | [] ↦ some (component, s.visited)
    | current ∷ rest ↦ none
  ]
  flood (suc fuel) component s = elim (s.to_visit) as (λ _. Option (List ℤ × List ℤ)) [
    | [] ↦ some (component, s.visited)
    | current ∷ rest ↦
        flood fuel (component ++ current.id ∷ []) (expand (record s { to_visit = rest }) current)
  ]

  -- A round of the for loop.
  unfoldable pub place_lane :
      ℕ → Lanelet F → List (List ℤ) × List ℤ → Option (List (List ℤ) × List ℤ)
  place_lane fuel ll (components, visited) =
      if is_drivable ll.subtype
      then (if has_id visited ll.id
          then some (components, visited)
          else elim (flood fuel [] (visit (record { visited = visited; to_visit = [] }) ll))
              as (λ _. Option (List (List ℤ) × List ℤ)) [
                | none ↦ none
                | some (component, visited') ↦ some (components ++ component ∷ [], visited')
              ])
      else some (components, visited)

  unfoldable pub place_lanes :
      ℕ → List (Lanelet F) → List (List ℤ) × List ℤ → Option (List (List ℤ) × List ℤ)
  place_lanes fuel [] found = some found
  place_lanes fuel (ll ∷ lls) found =
      elim (place_lane fuel ll found) as (λ _. Option (List (List ℤ) × List ℤ)) [
        | none ↦ none
        | some found' ↦ place_lanes fuel lls found'
      ]

  -- The fuel of each while loop is the number of the lanelets.
  unfoldable pub connected_components : List (Lanelet F) → Option (List (List ℤ) × List ℤ)
  connected_components layer = place_lanes (length layer) layer ([], [])
