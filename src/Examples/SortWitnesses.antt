-- ===== src/Examples/SortWitnesses.antt =====
-- A sort that gives what is asked of std::sort, and the ranking of the lanes of the small map.
use autoware_agent.Base.{
  Bool, false, ◌≡◌, ℕ, refl, inl, inr, List, [], ◌∷◌, none, some, All, Bool-cases, if◌then◌else◌,
  Returns,
}
use mathlib.Core.List.{Permᴰ}
use mathlib.Core.List.Permᴰ
use mathlib.Core.List.Permᴰ.{nil, cons, swap, trans}
use autoware_agent.Lanelets.Debug.{
  IsStrictWeak, Sorted, Sorting, DebugGraph, debug_find_best_starting_lane,
}
use autoware_agent.Lanelets.Debug.Starts.{Ranks, debug_find_best_starting_lane-Ranks}
use autoware_agent.Examples.{platform, layer, graph}

module _ {A : Type 0} where
  insert_by : (A → A → Bool) → A → List A → List A
  insert_by before x [] = x ∷ []
  insert_by before x (y ∷ ys) =
      let rest = insert_by before x ys in if before y x then y ∷ rest else x ∷ y ∷ ys

  sort_by : (A → A → Bool) → List A → List A
  unfolding insert_by
  sort_by before [] = []
  sort_by before (x ∷ xs) = insert_by before x (sort_by before xs)

  perm-insert_by :
      (before : A → A → Bool) (x : A) (ys : List A) → Permᴰ (insert_by before x ys) (x ∷ ys)
  unfolding insert_by
  perm-insert_by before x [] = cons refl nil
  perm-insert_by before x (y ∷ ys) = elim (Bool-cases (before y x)) [
    | inl first ↦ rw first (trans (cons refl (perm-insert_by before x ys)) (swap refl refl))
    | inr later ↦ rw later (Permᴰ.refl (x ∷ y ∷ ys))
  ]

  perm-sort_by : (before : A → A → Bool) (xs : List A) → Permᴰ (sort_by before xs) xs
  unfolding sort_by
  perm-sort_by before [] = nil
  perm-sort_by before (x ∷ xs) =
      trans (perm-insert_by before x (sort_by before xs)) (cons refl (perm-sort_by before xs))

  All-insert_by :
      (P : A → Type 0) (before : A → A → Bool) (x : A) (ys : List A)
      → P x
      → All P ys
      → All P (insert_by before x ys)
  unfolding insert_by
  All-insert_by P before x [] h k = (h, tt)
  All-insert_by P before x (y ∷ ys) h k = elim (Bool-cases (before y x)) [
    | inl first ↦ rw first (k.0, All-insert_by P before x ys h k.1)
    | inr later ↦ rw later (h, k)
  ]

module _ {A : Type 0} (before : A → A → Bool) (weak : IsStrictWeak before) where
  -- What does not come before `a` does not come before `b`, if `a` does not.
  none_before :
      (a b : A) (ys : List A)
      → before a b ≡ false
      → All (λ y. before y a ≡ false) ys
      → All (λ y. before y b ≡ false) ys
  none_before a b [] h k = tt
  none_before a b (y ∷ ys) h k = (weak.not_trans y a b k.0 h, none_before a b ys h k.1)

  insert_by-Sorted :
      (x : A) (ys : List A) → Sorted before ys → Sorted before (insert_by before x ys)
  unfolding insert_by
  insert_by-Sorted x [] h = (tt, tt)
  insert_by-Sorted x (y ∷ ys) h = elim (Bool-cases (before y x)) [
    | inl first ↦ rw first (
      All-insert_by (λ z. before z y ≡ false) before x ys (weak.asym y x first) h.0,
      insert_by-Sorted x ys h.1,
    )
    | inr later ↦ rw later ((later, none_before y x ys later h.0), h)
  ]

  sort_by-Sorted : (xs : List A) → Sorted before (sort_by before xs)
  unfolding sort_by
  sort_by-Sorted [] = tt
  sort_by-Sorted (x ∷ xs) = insert_by-Sorted x (sort_by before xs) (sort_by-Sorted xs)

abbrev sorting : Sorting
sorting = record {
  sort = λ before xs. sort_by before xs;
  sort_perm = λ before xs. perm-sort_by before xs;
  sort_order = λ before weak xs. sort_by-Sorted before weak xs;
}

abbrev debug_graph : DebugGraph ℕ
debug_graph = record {
  routing = graph;
  neighbours = record {
    following = λ l. [];
    previous = λ l. [];
    left = λ l. none;
    right = λ l. none;
  };
  get_route = λ a b. some (a ∷ b ∷ []);
}

debug_find_best_starting_lane-Ranks_example :
    Returns
      (Ranks platform graph layer)
      (debug_find_best_starting_lane platform sorting layer (some debug_graph))
debug_find_best_starting_lane-Ranks_example =
    debug_find_best_starting_lane-Ranks platform sorting layer debug_graph
