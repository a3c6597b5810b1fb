-- ===== src/Lanelets/Components/Partition.antt =====
-- The components that the flood fill gives: they hold each drivable lane once.
use autoware_agent.Base.{
  ◌||◌, eq_ℤ, ◌≡◌, refl, sym, ap, ◌∙◌, Bool, true, false, List, [], ◌∷◌, ◌++◌, append_assoc,
  append_nil, length, All, Option, none, some, if◌then◌else◌, ℤ, arith,
}
use autoware_agent.Lanelets.Geometry.{Lanelet, is_drivable}
use autoware_agent.Lanelets.Components.{
  Neighbours, has_id, visit, flood, place_lane, place_lanes, connected_components,
}
use autoware_agent.Lanelets.Components.Visited.{
  Distinct, ids, fresh-bounded, fresh-visit, has_id-snoc_old, has_id-snoc_last, Distinct-snoc,
  eq_ℤ_refl,
}
use autoware_agent.Lanelets.Components.Flooding.{Within, IsClosed, Ends, flood-Ends}

abbrev pub joined : List (List ℤ) → List ℤ
joined [] = []
joined (c ∷ cs) = c ++ joined cs

joined-snoc : (cs : List (List ℤ)) (c : List ℤ) → joined (cs ++ c ∷ []) ≡ joined cs ++ c
joined-snoc [] c = append_nil c
joined-snoc (k ∷ cs) c = ap (λ l. k ++ l) (joined-snoc cs c) ∙ sym (append_assoc k (joined cs) c)

or_right : (a b : Bool) → b ≡ true → (a || b) ≡ true
or_right true b h = refl
or_right false b h = h

module _ {F : Type 0} where
  -- The lanes of a list that the loop is to place are visited.
  abbrev pub Placed : List ℤ → Lanelet F → Type 0
  Placed visited l = is_drivable l.subtype ≡ true → has_id visited l.id ≡ true

  layer-Within : (layer : List (Lanelet F)) → All (Within layer) layer
  layer-Within [] = tt
  layer-Within (l ∷ ls) =
      (ap (λ b. b || has_id (ids ls) l.id) (eq_ℤ_refl l.id), weaken ls (layer-Within ls))
    where
      weaken : (ks : List (Lanelet F)) → All (Within ls) ks → All (Within (l ∷ ls)) ks
      weaken [] h = tt
      weaken (k ∷ ks) h = (or_right (eq_ℤ l.id k.id) (has_id (ids ls) k.id) h.0, weaken ks h.1)

module _ {F : Type 0} (layer : List (Lanelet F)) (g : Neighbours F)
    (closed : IsClosed layer g) where
  -- From the ids `old`, the loop has placed the lanes.
  abbrev pub Partitioned : List ℤ → List (Lanelet F) → Option (List (List ℤ) × List ℤ) → Type 0
  Partitioned old lanes none = ⊥
  Partitioned old lanes (some (components, visited)) =
      (joined components ≡ visited)
      × Distinct visited
      × ((i : ℤ) → has_id old i ≡ true → has_id visited i ≡ true)
      × All (Placed visited) lanes

  new_component :
      (l : Lanelet F) (components : List (List ℤ)) (visited : List ℤ)
      → Within layer l
      → joined components ≡ visited
      → Distinct visited
      → has_id visited l.id ≡ false
      → Ends layer g closed
          (joined components)
          (visited ++ l.id ∷ [])
          (flood g (length layer) [] (visit (record { visited = visited; to_visit = [] }) l))
  new_component l components visited w same d new =
      flood-Ends layer g closed (length layer) (joined components) [] (visited ++ l.id ∷ [])
        (visited ++ l.id ∷ []) (l ∷ [])
        (record {
          listed = ap (λ k. k ++ l.id ∷ []) (append_nil (joined components) ∙ same);
          distinct = Distinct-snoc visited l.id d new;
          bounded =
              omega (arith, fresh-visit layer visited l.id w new, fresh-bounded layer visited);
          kept = λ i k. k;
        })

  place_lane-Partitioned :
      (l : Lanelet F) (components : List (List ℤ)) (visited : List ℤ)
      → Within layer l
      → joined components ≡ visited
      → Distinct visited
      → Partitioned visited (l ∷ []) (place_lane g (length layer) l (components, visited))
  unfolding place_lane
  place_lane-Partitioned l components visited w same d =
      tested (is_drivable l.subtype) (has_id visited l.id) refl refl
    where
      kept :
          (i : ℤ) (visited' : List ℤ)
          → ((j : ℤ) → has_id (visited ++ l.id ∷ []) j ≡ true → has_id visited' j ≡ true)
          → has_id visited i ≡ true
          → has_id visited' i ≡ true
      kept i visited' k h = k i (has_id-snoc_old visited l.id i h)

      placed :
          (o : Option (List ℤ × List ℤ))
          → Ends layer g closed (joined components) (visited ++ l.id ∷ []) o
          → Partitioned visited (l ∷ []) (elim o as (λ _. Option (List (List ℤ) × List ℤ)) [
            | none ↦ none
            | some (component, visited') ↦ some (components ++ component ∷ [], visited')
          ])
      placed none h = absurd h
      placed (some (component, visited')) h = (
        joined-snoc components component ∙ h.0,
        h.1,
        (λ i k. kept i visited' h.2 k),
        ((λ _. h.2 l.id (has_id-snoc_last visited l.id)), tt),
      )

      tested :
          (b c : Bool)
          → is_drivable l.subtype ≡ b
          → has_id visited l.id ≡ c
          → Partitioned visited (l ∷ []) (
              if b
              then (if c
                  then some (components, visited)
                  else elim (flood g
                        (length layer)
                        []
                        (visit (record { visited = visited; to_visit = [] }) l))
                      as (λ _. Option (List (List ℤ) × List ℤ)) [
                        | none ↦ none
                        | some (component, visited') ↦ some (components ++ component ∷ [], visited')
                      ])
              else some (components, visited))
      tested true true e f = (same, d, (λ i k. k), ((λ _. f), tt))
      tested true false e f = placed _ (new_component l components visited w same d f)
      tested false c e f = (same, d, (λ i k. k), ((λ h. cc), tt))

  kept-Placed :
      (lanes : List (Lanelet F)) (old new : List ℤ)
      → ((i : ℤ) → has_id old i ≡ true → has_id new i ≡ true)
      → All (Placed old) lanes
      → All (Placed new) lanes
  kept-Placed [] old new k h = tt
  kept-Placed (l ∷ ls) old new k h = ((λ d. k l.id (h.0 d)), kept-Placed ls old new k h.1)

  place_lanes-Partitioned :
      (lanes : List (Lanelet F)) (components : List (List ℤ)) (visited : List ℤ)
      → All (Within layer) lanes
      → joined components ≡ visited
      → Distinct visited
      → Partitioned visited lanes (place_lanes g (length layer) lanes (components, visited))
  unfolding place_lanes
  place_lanes-Partitioned [] components visited w same d = (same, d, (λ i k. k), tt)
  place_lanes-Partitioned (l ∷ ls) components visited w same d =
      continued (place_lane g (length layer) l (components, visited))
        (place_lane-Partitioned l components visited w.0 same d)
        (λ cs v e k. place_lanes-Partitioned ls cs v w.1 e k)
    where
      joined_up :
          (v : List ℤ) (o : Option (List (List ℤ) × List ℤ))
          → ((i : ℤ) → has_id visited i ≡ true → has_id v i ≡ true)
          → Placed v l
          → Partitioned v ls o
          → Partitioned visited (l ∷ ls) o
      joined_up v none k p h = absurd h
      joined_up v (some (cs, u)) k p h =
          (h.0, h.1, (λ i e. h.2 i (k i e)), ((λ e. h.2 l.id (p e)), h.3))

      continued :
          (o : Option (List (List ℤ) × List ℤ))
          → Partitioned visited (l ∷ []) o
          → ((cs : List (List ℤ)) (v : List ℤ)
              → joined cs ≡ v
              → Distinct v
              → Partitioned v ls (place_lanes g (length layer) ls (cs, v)))
          → Partitioned visited (l ∷ ls) (elim o as (λ _. Option (List (List ℤ) × List ℤ)) [
            | none ↦ none
            | some found' ↦ place_lanes g (length layer) ls found'
          ])
      continued none h k = absurd h
      continued (some (cs, v)) h k = joined_up v _ h.2 h.3.0 (k cs v h.0 h.1)

  -- If the neighbours that the routing graph gives are lanelets of the layer, then with as much
  -- fuel for each flood as there are lanelets, none runs out: every while loop ends. The ids of
  -- the components, one component after the other, are the visited ids in the order of the visits,
  -- no id stands in them twice, and every drivable lane of the layer is in one of them.
  pub connected_components-Partitioned : Partitioned [] layer (connected_components g layer)
  unfolding connected_components
  connected_components-Partitioned =
      place_lanes-Partitioned layer [] [] (layer-Within layer) refl tt
