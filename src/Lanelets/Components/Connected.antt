-- ===== src/Lanelets/Components/Connected.antt =====
-- Each component of the flood fill is what is reached from one lanelet.
use autoware_agent.Base.{
  ℕ, zero, suc, ◌≡◌, refl, ◌⊎◌, inl, inr, List, [], ◌∷◌, ◌++◌, length, All, Any, Option, none, some,
  if_both, ℤ,
}
use autoware_agent.Lanelets.Geometry.{Lanelet, is_drivable}
use autoware_agent.Lanelets.Components.{
  Neighbours, has_id, Flood, visit, offer, offer_all, offer_side, expand, flood, place_lane,
  place_lanes, connected_components,
}
use autoware_agent.Lanelets.Components.Flooding.{IsClosed}
use autoware_agent.Lanelets.Components.Partition.{Partitioned, connected_components-Partitioned}

All-snoc :
    {A : Type 0} (P : A → Type 0) (xs : List A) (x : A) → All P xs → P x → All P (xs ++ x ∷ [])
All-snoc P [] x h k = (k, tt)
All-snoc P (y ∷ xs) x h k = (h.0, All-snoc P xs x h.1 k)

All-listed :
    {A : Type 0} (P : A → Type 0) (xs : List A) → ((x : A) → Any (λ y. y ≡ x) xs → P x) → All P xs
All-listed P [] h = tt
All-listed P (x ∷ xs) h = (h x (inl refl), All-listed P xs (λ y k. h y (inr k)))

module _ {F : Type 0} (g : Neighbours F) where
  -- `m` is a neighbour of `l`.
  abbrev pub Beside : Lanelet F → Lanelet F → Type 0
  Beside l m =
      (Any (λ y. y ≡ m) (g.following l) ⊎ Any (λ y. y ≡ m) (g.previous l))
      ⊎ ((g.left l ≡ some m) ⊎ (g.right l ≡ some m))

  pub data Linked (first : Lanelet F) : Lanelet F → Type 0 where
    itself : Linked first first
    onward : {l m : Lanelet F} → Linked first l → Beside l m → Linked first m

  abbrev pub LinkedId : Lanelet F → ℤ → Type 0
  LinkedId first i = (l : Lanelet F) × (l.id ≡ i) × Linked first l

  -- Every component has a lanelet from which neighbours lead to each of its members.
  abbrev pub Connected : Option (List (List ℤ) × List ℤ) → Type 0
  Connected none = Unit {0}
  Connected (some (components, visited)) =
      All (λ c. (first : Lanelet F) × All (LinkedId first) c) components

  abbrev Members : Lanelet F → Option (List ℤ × List ℤ) → Type 0
  Members first none = Unit {0}
  Members first (some (component, visited)) = All (LinkedId first) component

  module _ (first : Lanelet F) where
    abbrev Waiting : Flood F → Type 0
    Waiting s = All (Linked first) s.to_visit

    offer-Waiting : (s : Flood F) (f : Lanelet F) → Linked first f → Waiting s → Waiting (offer s f)
    offer-Waiting s f k h =
        if_both Waiting (has_id s.visited f.id) s (visit s f) h
          (All-snoc (Linked first) s.to_visit f h k)

    offer_all-Waiting :
        (s : Flood F) (fs : List (Lanelet F))
        → All (Linked first) fs
        → Waiting s
        → Waiting (offer_all s fs)
    offer_all-Waiting s [] k h = h
    offer_all-Waiting s (f ∷ fs) k h =
        offer_all-Waiting (offer s f) fs k.1 (offer-Waiting s f k.0 h)

    offer_side-Waiting :
        (s : Flood F) (o : Option (Lanelet F))
        → ((m : Lanelet F) → o ≡ some m → Linked first m)
        → Waiting s
        → Waiting (offer_side s o)
    offer_side-Waiting s none k h = h
    offer_side-Waiting s (some m) k h = offer-Waiting s m (k m refl) h

    expand-Waiting :
        (s : Flood F) (l : Lanelet F) → Linked first l → Waiting s → Waiting (expand g s l)
    unfolding expand
    expand-Waiting s l k h =
        offer_side-Waiting _ (g.right l) (λ m e. onward k (inr (inr e)))
          (offer_side-Waiting _ (g.left l) (λ m e. onward k (inr (inl e)))
            (offer_all-Waiting _ (g.previous l)
              (All-listed (Linked first) (g.previous l) (λ m e. onward k (inl (inr e))))
              (offer_all-Waiting s (g.following l)
                (All-listed (Linked first) (g.following l) (λ m e. onward k (inl (inl e)))) h)))

    flood-Members :
        (fuel : ℕ) (component visited : List ℤ) (to_visit : List (Lanelet F))
        → All (LinkedId first) component
        → All (Linked first) to_visit
        → Members first (flood g fuel component (record { visited = visited; to_visit = to_visit }))
    unfolding flood
    flood-Members zero component visited [] c h = c
    flood-Members (suc fuel) component visited [] c h = c
    flood-Members zero component visited (l ∷ rest) c h = tt
    flood-Members (suc fuel) component visited (l ∷ rest) c h =
        let s = expand g (record { visited = visited; to_visit = rest }) l in
        flood-Members fuel (component ++ l.id ∷ []) s.visited s.to_visit
          (All-snoc (LinkedId first) component l.id c (l, refl, h.0))
          (expand-Waiting (record { visited = visited; to_visit = rest }) l h.0 h.1)

  place_lane-Connected :
      (fuel : ℕ) (l : Lanelet F) (components : List (List ℤ)) (visited : List ℤ)
      → Connected (some (components, visited))
      → Connected (place_lane g fuel l (components, visited))
  unfolding place_lane
  place_lane-Connected fuel l components visited h =
      if_both Connected (is_drivable l.subtype) _ (some (components, visited))
        (if_both Connected (has_id visited l.id) (some (components, visited)) _ h (
          placed (flood g fuel [] (visit (record { visited = visited; to_visit = [] }) l))
            (flood-Members l fuel [] (visited ++ l.id ∷ []) (l ∷ []) tt (itself, tt))))
        h
    where
      placed :
          (o : Option (List ℤ × List ℤ))
          → Members l o
          → Connected (elim o as (λ _. Option (List (List ℤ) × List ℤ)) [
            | none ↦ none
            | some (component, visited') ↦ some (components ++ component ∷ [], visited')
          ])
      placed none k = tt
      placed (some (component, visited')) k = All-snoc _ components component h (l, k)

  place_lanes-Connected :
      (fuel : ℕ) (lanes : List (Lanelet F)) (found : List (List ℤ) × List ℤ)
      → Connected (some found)
      → Connected (place_lanes g fuel lanes found)
  unfolding place_lanes
  place_lanes-Connected fuel [] found h = h
  place_lanes-Connected fuel (l ∷ ls) found h =
      continued (place_lane g fuel l found) (place_lane-Connected fuel l found.0 found.1 h)
        (λ found' k. place_lanes-Connected fuel ls found' k)
    where
      continued :
          (o : Option (List (List ℤ) × List ℤ))
          → Connected o
          → ((found' : List (List ℤ) × List ℤ)
              → Connected (some found')
              → Connected (place_lanes g fuel ls found'))
          → Connected (elim o as (λ _. Option (List (List ℤ) × List ℤ)) [
            | none ↦ none
            | some found' ↦ place_lanes g fuel ls found'
          ])
      continued none k each = tt
      continued (some found') k each = each found' k

-- If the neighbours that the routing graph gives are lanelets of the layer, then with as much fuel
-- for each flood as there are lanelets, none runs out: every while loop ends. The ids of the
-- components, one component after the other, are the visited ids in the order of the visits, no id
-- stands in them twice, and every drivable lane of the layer is in one of them. Each component has
-- a lanelet from which neighbours, followers, predecessors and the lanes beside, lead to each of
-- its members.
pub connected_components-Connected :
    {F : Type 0} (layer : List (Lanelet F)) (g : Neighbours F) (closed : IsClosed layer g)
    → Partitioned layer g closed [] layer (connected_components g layer)
      × Connected g (connected_components g layer)
unfolding connected_components
connected_components-Connected layer g closed = (
  connected_components-Partitioned layer g closed,
  place_lanes-Connected g (length layer) layer ([], []) tt,
)
