-- ===== src/Lanelets/Components/Visited.antt =====
-- Lists of ids without duplicates, and how many lanelets of a layer are not yet visited.
use autoware_agent.Base.{
  if_both, ℕ, suc, ◌+◌, ◌≤◌, ◌≡◌, refl, sym, ap, ◌∙◌, subst, inl, inr, true, false, Bool-cases,
  ◌||◌, List, [], ◌∷◌, ◌++◌, length, if◌then◌else◌, ℤ, eq_ℤ, eq_ℤ_iff, arith,
}
use autoware_agent.Lanelets.Geometry.{Lanelet}
use autoware_agent.Lanelets.Components.{has_id}

-- No id stands in the list twice.
abbrev pub Distinct : List ℤ → Type 0
Distinct [] = Unit {0}
Distinct (i ∷ is) = (has_id is i ≡ false) × Distinct is

pub has_id-append : (is js : List ℤ) (i : ℤ) → has_id (is ++ js) i ≡ (has_id is i || has_id js i)
has_id-append [] js i = refl
has_id-append (k ∷ is) js i = elim (Bool-cases (eq_ℤ k i)) [
  | inl same ↦ rw same refl
  | inr other ↦ rw other (has_id-append is js i)
]

pub eq_ℤ_swap : (i j : ℤ) → eq_ℤ i j ≡ false → eq_ℤ j i ≡ false
eq_ℤ_swap i j h = elim (Bool-cases (eq_ℤ j i)) [
  | inl same ↦ absurd (cc (h, (eq_ℤ_iff i j).1 (sym ((eq_ℤ_iff j i).0 same))))
  | inr other ↦ other
]

pub eq_ℤ_refl : (i : ℤ) → eq_ℤ i i ≡ true
eq_ℤ_refl i = (eq_ℤ_iff i i).1 refl

pub has_id-snoc_new :
    (is : List ℤ) (i j : ℤ)
    → has_id is j ≡ false
    → eq_ℤ i j ≡ false
    → has_id (is ++ i ∷ []) j ≡ false
has_id-snoc_new is i j h k = has_id-append is (i ∷ []) j ∙ (rw (h, k) refl)

pub has_id-snoc_old : (is : List ℤ) (i j : ℤ) → has_id is j ≡ true → has_id (is ++ i ∷ []) j ≡ true
has_id-snoc_old is i j h = has_id-append is (i ∷ []) j ∙ (rw h refl)

pub has_id-snoc_last : (is : List ℤ) (i : ℤ) → has_id (is ++ i ∷ []) i ≡ true
has_id-snoc_last [] i = rw (eq_ℤ_refl i) refl
has_id-snoc_last (k ∷ is) i = elim (Bool-cases (eq_ℤ k i)) [
  | inl same ↦ rw same refl
  | inr other ↦ rw other (has_id-snoc_last is i)
]

pub Distinct-snoc :
    (is : List ℤ) (i : ℤ) → Distinct is → has_id is i ≡ false → Distinct (is ++ i ∷ [])
Distinct-snoc [] i d h = (refl, tt)
Distinct-snoc (k ∷ is) i d h = elim (Bool-cases (eq_ℤ k i)) [
  | inl same ↦ absurd (cc (h, ap (λ b. b || has_id is i) same))
  | inr other ↦ (
    has_id-snoc_new is i k d.0 (eq_ℤ_swap k i other),
    Distinct-snoc is i d.1 (sym (ap (λ b. b || has_id is i) other) ∙ h),
  )
]

one-snoc :
    (v : List ℤ) (i j : ℤ)
    → (if has_id (v ++ i ∷ []) j then 0 else 1) ≤ (if has_id v j then 0 else 1)
one-snoc v i j = elim (Bool-cases (has_id v j)) [
  | inl old ↦ rw (has_id-snoc_old v i j old) (omega arith)
  | inr new ↦ rw new (if_both (λ n. n ≤ 1) (has_id (v ++ i ∷ []) j) 0 1 (omega arith) (omega arith))
]

module _ {F : Type 0} where
  abbrev pub ids : List (Lanelet F) → List ℤ
  ids [] = []
  ids (l ∷ ls) = l.id ∷ ids ls

  -- The lanelets of a layer that are not visited.
  abbrev pub fresh : List (Lanelet F) → List ℤ → ℕ
  fresh [] visited = 0
  fresh (l ∷ ls) visited = (if has_id visited l.id then 0 else 1) + fresh ls visited

  pub fresh-bounded : (ls : List (Lanelet F)) (v : List ℤ) → fresh ls v ≤ length ls
  fresh-bounded [] v = omega arith
  fresh-bounded (l ∷ ls) v =
      if_both (λ n. n + fresh ls v ≤ suc (length ls)) (has_id v l.id) 0 1
        (omega (arith, fresh-bounded ls v)) (omega (arith, fresh-bounded ls v))

  pub fresh-snoc :
      (ls : List (Lanelet F)) (v : List ℤ) (i : ℤ) → fresh ls (v ++ i ∷ []) ≤ fresh ls v
  fresh-snoc [] v i = omega arith
  fresh-snoc (l ∷ ls) v i = omega (arith, one-snoc v i l.id, fresh-snoc ls v i)

  pub fresh-visit :
      (ls : List (Lanelet F)) (v : List ℤ) (i : ℤ)
      → has_id (ids ls) i ≡ true
      → has_id v i ≡ false
      → fresh ls (v ++ i ∷ []) + 1 ≤ fresh ls v
  fresh-visit [] v i h n = cc
  fresh-visit (l ∷ ls) v i h n = elim (Bool-cases (eq_ℤ l.id i)) [
    | inl same ↦
        let here = (eq_ℤ_iff l.id i).0 same in
        let was = subst (λ k. has_id v k ≡ false) (sym here) n in
        let becomes =
          subst (λ k. has_id (v ++ i ∷ []) k ≡ true) (sym here) (has_id-snoc_last v i) in
        rw (was, becomes) (omega (arith, fresh-snoc ls v i))
    | inr other ↦ omega (
      arith,
      one-snoc v i l.id,
      fresh-visit ls v i (sym (ap (λ b. b || has_id (ids ls) i) other) ∙ h) n,
    )
  ]
