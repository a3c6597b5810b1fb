-- ===== src/Lanelets/Debug/Starts.antt =====
-- What debugFindBestStartingLane ranks, and that it reads no entry out of range.
use autoware_agent.Base.{
  ◌-◌, ◌⊎◌, inl, inr, Bool-cases, false, ltb, append_nil, append_assoc, ℕ, zero, suc, ◌+◌, ◌≤◌, ◌<◌,
  ◌≡◌, refl, sym, ap, ◌∙◌, subst, arith, List, [], ◌∷◌, ◌++◌, Option, none, some, All, length,
  get_elem?, ℤ, ok, err, out_of_bounds, Result, ◌>>=◌, Returns,
}
use mathlib.Core.List.{Permᴰ}
use mathlib.Core.List.Permᴰ.{trans}
use autoware_agent.Lanelets.Geometry.{Lanelet, Platform, is_drivable}
use autoware_agent.Lanelets.Drivable.{ForCars, is_drivable-ForCars, ForCars-is_drivable}
use autoware_agent.Lanelets.Map.{RoutingGraph}
use autoware_agent.Lanelets.Debug.{
  bottom, IsStrictWeak, Sorted, Sorting, more_reach, DebugGraph, DebugLine, top, top_heading,
  bottom_heading, at, size_minus, top_lines, bottom_lines, at_most_ten, rank_lines, reach_counts,
  debug_find_best_starting_lane,
}
use autoware_agent.Lanelets.Debug.Prefixes.{
  firsts, others, firsts-others, rev, length-rev, get_elem?-rev, perm-rev, Chain, Chain-others,
  Chain-rev, length-firsts, length-Permᴰ,
}

-- The ranked lanes, from a rank on.
abbrev pub ranked : ℕ → List (ℕ × ℤ) → List DebugLine
ranked i [] = []
ranked i (c ∷ cs) = top i c.1 c.0 ∷ ranked (suc i) cs

at-found : {A : Type 0} (xs : List A) (i : ℕ) (a : A) → get_elem? xs i ≡ some a → at xs i ≡ ok a
at-found {A = A} xs i a h =
    ap (λ (o : Option A). elim o as (λ _. Result A) [ none ↦ err out_of_bounds | some b ↦ ok b ]) h

-- The first loop, where the counts from `i` on are `xs`.
top_lines_from :
    (counts : List (ℕ × ℤ)) (i : ℕ) (xs : List (ℕ × ℤ)) (n : ℕ)
    → n ≤ length xs
    → ((j : ℕ) → get_elem? counts (j + i) ≡ get_elem? xs j)
    → top_lines counts i n ≡ ok (ranked i (firsts n xs))
top_lines_from counts i xs zero len h = refl
top_lines_from counts i [] (suc n) len h = absurd (omega (arith, len))
top_lines_from counts i (x ∷ xs) (suc n) len h =
    ap
      (λ r. r >>= λ entry. top_lines counts (suc i) n >>= λ rest. ok (top i entry.1 entry.0 ∷ rest))
      (at-found counts i x (ap (λ k. get_elem? counts k) (omega arith) ∙ h 0))
    ∙ ap (λ r. r >>= λ rest. ok (top i x.1 x.0 ∷ rest))
        (top_lines_from counts (suc i) xs n (omega (arith, len))
          (λ j. ap (λ k. get_elem? counts k) (omega arith) ∙ h (suc j)))

-- The lanes of the second list.
abbrev pub listed : List (ℕ × ℤ) → List DebugLine
listed [] = []
listed (c ∷ cs) = bottom c.1 c.0 ∷ listed cs

from_end :
    (size i j : ℕ) → i + j < size → size_minus (size_minus size 1) (j + i) ≡ size - 1 - (j + i)
from_end size i j h = ground arith

-- The second loop, where the counts from the `i`-th last on, backwards, are `ys`.
bottom_lines_from :
    (counts : List (ℕ × ℤ)) (i : ℕ) (ys : List (ℕ × ℤ)) (n : ℕ)
    → n ≤ length ys
    → i + length ys ≤ length counts
    → ((j : ℕ) → j < length ys → get_elem? counts (length counts - 1 - (j + i)) ≡ get_elem? ys j)
    → bottom_lines counts i n ≡ ok (listed (firsts n ys))
bottom_lines_from counts i ys zero len room h = refl
bottom_lines_from counts i [] (suc n) len room h = absurd (omega (arith, len))
bottom_lines_from counts i (y ∷ ys) (suc n) len room h =
    ap
      (λ r.
        r >>= λ entry. bottom_lines counts (suc i) n >>= λ rest. ok (bottom entry.1 entry.0 ∷ rest))
      (at-found counts _ y (
        ap (λ k. get_elem? counts k)
          (ap (λ k. size_minus (size_minus (length counts) 1) k) (omega arith)
            ∙ from_end (length counts) i 0 (omega (arith, room)))
        ∙ h 0 (omega arith)))
    ∙ ap (λ r. r >>= λ rest. ok (bottom y.1 y.0 ∷ rest))
        (bottom_lines_from counts (suc i) ys n (omega (arith, len)) (omega (arith, room))
          (λ j k. ap (λ q. get_elem? counts q) (omega arith) ∙ h (suc j) (omega (arith, k))))

more_reach-IsStrictWeak : IsStrictWeak more_reach
more_reach-IsStrictWeak = record {
  asym = λ a b h. ground arith;
  not_trans = λ a b c h k. ground arith;
}

abbrev NoMore : ℕ × ℤ → ℕ × ℤ → Type 0
NoMore x y = y.0 ≤ x.0

All-NoMore :
    (x : ℕ × ℤ) (xs : List (ℕ × ℤ)) → All (λ y. more_reach y x ≡ false) xs → All (NoMore x) xs
All-NoMore x [] h = tt
All-NoMore x (y ∷ ys) h = (ground (arith, h.0), All-NoMore x ys h.1)

Sorted-Chain : (xs : List (ℕ × ℤ)) → Sorted more_reach xs → Chain NoMore xs
Sorted-Chain [] h = tt
Sorted-Chain (x ∷ xs) h = (All-NoMore x xs h.0, Sorted-Chain xs h.1)

at_most_ten_bound : (n : ℕ) → at_most_ten n ≤ n
at_most_ten_bound n = ground arith

at_most_ten_cases : (n : ℕ) → ((at_most_ten n ≡ 10) ⊎ (at_most_ten n ≡ n)) × (at_most_ten n ≤ 10)
at_most_ten_cases n = elim (Bool-cases (ltb n 10)) [
  | inl few ↦ rw few (inr refl, ground (arith, few))
  | inr many ↦ rw many (inl refl, omega arith)
]

either_way : (m n s c : ℕ) → m ≡ n → s ≡ c → (n ≡ 10) ⊎ (n ≡ s) → (m ≡ 10) ⊎ (m ≡ c)
either_way m n s c e f (inl k) = inl (e ∙ k)
either_way m n s c e f (inr k) = inr (e ∙ k ∙ f)

-- The lanes for cars of a layer, in order, each with how many lanelets it reaches.
pub data Tallied {F : Type 0} (p : Platform F) (g : RoutingGraph F)
    : List (Lanelet F) → List (ℕ × ℤ) → Type 0 where
  no_more : Tallied p g [] []
  passed_over :
      {ll : Lanelet F} {lls : List (Lanelet F)} {cs : List (ℕ × ℤ)}
      → ¬ ForCars ll.subtype
      → Tallied p g lls cs
      → Tallied p g (ll ∷ lls) cs
  tallied :
      {ll : Lanelet F} {lls : List (Lanelet F)} {cs : List (ℕ × ℤ)}
      → ForCars ll.subtype
      → Tallied p g lls cs
      → Tallied p g (ll ∷ lls) ((length (g.reachable_set ll (p.literal 1000000 0)), ll.id) ∷ cs)

-- The lanes of `best` are reported first, and then those of `worst`; each with the others, `rest`
-- and `above`, are all the lanes that were tallied.
pub record Ranks {F : Type 0} (p : Platform F) (g : RoutingGraph F) (layer : List (Lanelet F))
    (lines : List DebugLine) : Type 0 where
  pub counts : List (ℕ × ℤ)
  pub counted : Tallied p g layer counts
  pub best : List (ℕ × ℤ)
  pub rest : List (ℕ × ℤ)
  pub worst : List (ℕ × ℤ)
  pub above : List (ℕ × ℤ)
  pub reported : lines ≡ top_heading ∷ (ranked 0 best ++ bottom_heading ∷ listed worst)
  pub ten_or_all :
      ((length best ≡ 10) ⊎ (length best ≡ length counts))
      × (length best ≤ 10)
      × (length worst ≡ length best)
  pub all_best : Permᴰ (best ++ rest) counts
  pub all_worst : Permᴰ (worst ++ above) counts
  pub dominated : All (λ y. All (λ x. y.0 ≤ x.0) best) rest
  pub surpassing : All (λ y. All (λ x. x.0 ≤ y.0) worst) above

module _ {F : Type 0} (p : Platform F) (g : RoutingGraph F) where
  abbrev Appends : List (Lanelet F) → List (ℕ × ℤ) → List (ℕ × ℤ) → Type 0
  Appends layer has r = (cs : List (ℕ × ℤ)) × (r ≡ has ++ cs) × Tallied p g layer cs

  reach_counts-Appends :
      (layer : List (Lanelet F)) (has : List (ℕ × ℤ))
      → Appends layer has (reach_counts p g has layer)
  unfolding reach_counts
  reach_counts-Appends [] has = ([], sym (append_nil has), no_more)
  reach_counts-Appends (ll ∷ lls) has = elim (Bool-cases (is_drivable ll.subtype)) [
    | inl for_cars ↦
        let entry : ℕ × ℤ = (length (g.reachable_set ll (p.literal 1000000 0)), ll.id) in
        let (cs, same, t) = reach_counts-Appends lls (has ++ entry ∷ []) in
        rw for_cars (
          entry ∷ cs,
          same ∙ append_assoc has (entry ∷ []) cs,
          tallied (is_drivable-ForCars ll.subtype for_cars) t,
        )
    | inr not_so ↦
        let (cs, same, t) = reach_counts-Appends lls has in
        rw not_so
          (cs, same, passed_over (λ h. cc (sym not_so ∙ ForCars-is_drivable ll.subtype h)) t)
  ]

  rank_lines-Ranks :
      (layer : List (Lanelet F)) (counts sorted : List (ℕ × ℤ))
      → Tallied p g layer counts
      → Permᴰ sorted counts
      → Chain NoMore sorted
      → Returns (Ranks p g layer) (rank_lines sorted)
  unfolding rank_lines
  rank_lines-Ranks layer counts sorted t same order =
      let n = at_most_ten (length sorted) in
      let le = at_most_ten_bound (length sorted) in
      let le' : n ≤ length (rev sorted) = omega (arith, le, length-rev sorted) in
      let many = length-Permᴰ same in
      rw
        (
          top_lines_from sorted 0 sorted n le (λ j. ap (λ k. get_elem? sorted k) (omega arith)),
          bottom_lines_from sorted 0 (rev sorted) n le' (omega (arith, length-rev sorted)) (λ j k.
              ap (λ q. get_elem? sorted q) (omega arith)
              ∙ get_elem?-rev sorted j (omega (arith, k, length-rev sorted))),
        )
        (record {
          counts = counts;
          counted = t;
          best = firsts n sorted;
          rest = others n sorted;
          worst = firsts n (rev sorted);
          above = others n (rev sorted);
          reported = refl;
          ten_or_all = (
            either_way _ n (length sorted) (length counts) (length-firsts n sorted le) many
                (at_most_ten_cases (length sorted)).0,
            subst (λ k. k ≤ 10) (sym (length-firsts n sorted le))
                (at_most_ten_cases (length sorted)).1,
            length-firsts n (rev sorted) le' ∙ sym (length-firsts n sorted le),
          );
          all_best = subst (λ l. Permᴰ l counts) (sym (firsts-others n sorted)) same;
          all_worst =
              subst (λ l. Permᴰ l counts) (sym (firsts-others n (rev sorted)))
                (trans (perm-rev sorted) same);
          dominated = Chain-others NoMore n sorted order;
          surpassing =
              Chain-others (λ x y. NoMore y x) n (rev sorted) (Chain-rev NoMore sorted order);
        })

module _ {F : Type 0} (p : Platform F) where
  -- For every layer and routing graph, and a sort that permutes into the order of any strict weak
  -- comparison that it is given, debugFindBestStartingLane reads no entry out of range. It tallies
  -- the lanes for cars, each with the number of lanelets that it reaches. Both lists that it
  -- reports have ten of these lanes, or all if there are fewer: no other lane reaches more
  -- lanelets than one of the first list, and none fewer than one of the second.
  pub debug_find_best_starting_lane-Ranks :
      (s : Sorting) (layer : List (Lanelet F)) (g : DebugGraph F)
      → Returns (Ranks p g.routing layer) (debug_find_best_starting_lane p s layer (some g))
  unfolding debug_find_best_starting_lane
  debug_find_best_starting_lane-Ranks s layer g =
      let (cs, same, t) = reach_counts-Appends p g.routing layer [] in
      rank_lines-Ranks p g.routing layer (reach_counts p g.routing [] layer) _
        (subst (Tallied p g.routing layer) (sym same) t) (s.sort_perm _ _)
        (Sorted-Chain _ (s.sort_order more_reach more_reach-IsStrictWeak _))
