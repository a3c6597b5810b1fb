-- ===== src/Lanelets/Components/Flooding.antt =====
-- The while loop of the flood fill: it ends, and visits each id once.
use autoware_agent.Base.{
  ℕ, zero, suc, ◌+◌, ◌≤◌, ◌≡◌, refl, sym, ap, ◌∙◌, subst, inl, inr, true, false, Bool-cases, List,
  [], ◌∷◌, ◌++◌, append_assoc, append_nil, length, length-append, All, Option, none, some,
  if◌then◌else◌, ℤ, arith,
}
use autoware_agent.Lanelets.Geometry.{Lanelet}
use autoware_agent.Lanelets.Components.{
  Neighbours, has_id, Flood, visit, offer, offer_all, offer_side, expand, flood,
}
use autoware_agent.Lanelets.Components.Visited.{
  Distinct, ids, fresh, fresh-visit, has_id-snoc_old, Distinct-snoc,
}

module _ {F : Type 0} where
  abbrev pub Within : List (Lanelet F) → Lanelet F → Type 0
  Within layer l = has_id (ids layer) l.id ≡ true

  abbrev pub SideWithin : List (Lanelet F) → Option (Lanelet F) → Type 0
  SideWithin layer none = Unit {0}
  SideWithin layer (some l) = Within layer l

  -- The routing graph is built from the layer: its lanelets are the layer's.
  pub record IsClosed (layer : List (Lanelet F)) (g : Neighbours F) : Type 0 where
    pub following_within : (l : Lanelet F) → All (Within layer) (g.following l)
    pub previous_within : (l : Lanelet F) → All (Within layer) (g.previous l)
    pub left_within : (l : Lanelet F) → SideWithin layer (g.left l)
    pub right_within : (l : Lanelet F) → SideWithin layer (g.right l)

  pub ids-append : (xs ys : List (Lanelet F)) → ids (xs ++ ys) ≡ ids xs ++ ids ys
  ids-append [] ys = refl
  ids-append (x ∷ xs) ys = ap (x.id ∷◌) (ids-append xs ys)

module _ {F : Type 0} (layer : List (Lanelet F)) where
  -- What was left before, with what waits, is what is visited, without duplicates and in order;
  -- the rounds that are left are bounded; and `old` is still visited.
  pub record Filling (left : List ℤ) (rounds : ℕ) (old : List ℤ) (s : Flood F) : Type 0 where
    pub listed : left ++ ids s.to_visit ≡ s.visited
    pub distinct : Distinct s.visited
    pub bounded : fresh layer s.visited + length s.to_visit ≤ rounds
    pub kept : (i : ℤ) → has_id old i ≡ true → has_id s.visited i ≡ true

  pub visit-Filling :
      (left : List ℤ) (rounds : ℕ) (old : List ℤ) (s : Flood F) (f : Lanelet F)
      → Within layer f
      → has_id s.visited f.id ≡ false
      → Filling left rounds old s
      → Filling left rounds old (visit s f)
  visit-Filling left rounds old s f w new h = record {
    listed =
        ap (λ l. left ++ l) (ids-append s.to_visit (f ∷ []))
        ∙ sym (append_assoc left (ids s.to_visit) (f.id ∷ []))
        ∙ ap (λ l. l ++ f.id ∷ []) h.listed;
    distinct = Distinct-snoc s.visited f.id h.distinct new;
    bounded = omega (
      arith,
      h.bounded,
      fresh-visit layer s.visited f.id w new,
      length-append s.to_visit (f ∷ []),
    );
    kept = λ i k. has_id-snoc_old s.visited f.id i (h.kept i k);
  }

  offer-Filling :
      (left : List ℤ) (rounds : ℕ) (old : List ℤ) (s : Flood F) (f : Lanelet F)
      → Within layer f
      → Filling left rounds old s
      → Filling left rounds old (offer s f)
  offer-Filling left rounds old s f w h = elim (Bool-cases (has_id s.visited f.id)) [
    | inl seen ↦ subst (λ b. Filling left rounds old (if b then s else visit s f)) (sym seen) h
    | inr new ↦
        subst (λ b. Filling left rounds old (if b then s else visit s f)) (sym new)
          (visit-Filling left rounds old s f w new h)
  ]

  offer_all-Filling :
      (left : List ℤ) (rounds : ℕ) (old : List ℤ) (s : Flood F) (fs : List (Lanelet F))
      → All (Within layer) fs
      → Filling left rounds old s
      → Filling left rounds old (offer_all s fs)
  offer_all-Filling left rounds old s [] w h = h
  offer_all-Filling left rounds old s (f ∷ fs) w h =
      offer_all-Filling left rounds old (offer s f) fs w.1 (offer-Filling left rounds old s f w.0 h)

  offer_side-Filling :
      (left : List ℤ) (rounds : ℕ) (old : List ℤ) (s : Flood F) (o : Option (Lanelet F))
      → SideWithin layer o
      → Filling left rounds old s
      → Filling left rounds old (offer_side s o)
  offer_side-Filling left rounds old s none w h = h
  offer_side-Filling left rounds old s (some f) w h = offer-Filling left rounds old s f w h

module _ {F : Type 0} (layer : List (Lanelet F)) (g : Neighbours F)
    (closed : IsClosed layer g) where
  expand-Filling :
      (left : List ℤ) (rounds : ℕ) (old : List ℤ) (s : Flood F) (l : Lanelet F)
      → Filling layer left rounds old s
      → Filling layer left rounds old (expand g s l)
  unfolding expand
  expand-Filling left rounds old s l h =
      offer_side-Filling layer left rounds old _ (g.right l) (closed.right_within l) (
        offer_side-Filling layer left rounds old _ (g.left l) (closed.left_within l) (
          offer_all-Filling layer left rounds old _ (g.previous l) (closed.previous_within l) (
            offer_all-Filling layer left rounds old s (g.following l) (closed.following_within l)
              h)))

  -- The loop ends with a component that completes what is visited.
  abbrev pub Ends : List ℤ → List ℤ → Option (List ℤ × List ℤ) → Type 0
  Ends earlier old none = ⊥
  Ends earlier old (some (component, visited)) =
      (earlier ++ component ≡ visited)
      × Distinct visited
      × ((i : ℤ) → has_id old i ≡ true → has_id visited i ≡ true)

  pub flood-Ends :
      (fuel : ℕ) (earlier component old visited : List ℤ) (to_visit : List (Lanelet F))
      → Filling layer
          (earlier ++ component)
          fuel
          old
          (record { visited = visited; to_visit = to_visit })
      → Ends earlier old
          (flood g fuel component (record { visited = visited; to_visit = to_visit }))
  unfolding flood
  flood-Ends zero earlier component old visited [] h =
      (sym (append_nil _) ∙ h.listed, h.distinct, h.kept)
  flood-Ends (suc fuel) earlier component old visited [] h =
      (sym (append_nil _) ∙ h.listed, h.distinct, h.kept)
  flood-Ends zero earlier component old visited (l ∷ rest) h = omega (arith, h.bounded)
  flood-Ends (suc fuel) earlier component old visited (l ∷ rest) h =
      let s = expand g (record { visited = visited; to_visit = rest }) l in
      flood-Ends fuel earlier (component ++ l.id ∷ []) old s.visited s.to_visit (
        expand-Filling (earlier ++ (component ++ l.id ∷ [])) fuel old
          (record { visited = visited; to_visit = rest }) l
          (record {
            listed =
                ap (λ k. k ++ ids rest) (sym (append_assoc earlier component (l.id ∷ [])))
                ∙ append_assoc (earlier ++ component) (l.id ∷ []) (ids rest)
                ∙ h.listed;
            distinct = h.distinct;
            bounded = omega (arith, h.bounded);
            kept = h.kept;
          }))
