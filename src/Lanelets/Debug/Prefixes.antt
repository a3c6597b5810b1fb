-- ===== src/Lanelets/Debug/Prefixes.antt =====
-- The first and the last entries of a list, and lists in which each entry is related to all after it:
-- what the two loops over the ranked lanes read.
use autoware_agent.Base.{
  ◌-◌, inl, inr, Bool-cases, ltb, ℕ, zero, suc, ◌≤◌, ◌<◌, ◌≡◌, refl, sym, ap, ◌∙◌, arith, List, [],
  ◌∷◌, ◌++◌, some, All, length, get_elem?,
}
use mathlib.Core.List.{Permᴰ}
use mathlib.Core.List.Permᴰ
use mathlib.Core.List.Permᴰ.{nil, cons, swap, trans}

abbrev pub firsts {ℓ} : {A : Type ℓ} → ℕ → List A → List A
firsts zero xs = []
firsts (suc n) [] = []
firsts (suc n) (x ∷ xs) = x ∷ firsts n xs

abbrev pub others {ℓ} : {A : Type ℓ} → ℕ → List A → List A
others zero xs = xs
others (suc n) [] = []
others (suc n) (x ∷ xs) = others n xs

pub firsts-others : {A : Type 0} (n : ℕ) (xs : List A) → firsts n xs ++ others n xs ≡ xs
firsts-others zero xs = refl
firsts-others (suc n) [] = refl
firsts-others (suc n) (x ∷ xs) = ap (x ∷◌) (firsts-others n xs)

pub rev : {A : Type 0} → List A → List A
rev [] = []
rev (x ∷ xs) = rev xs ++ x ∷ []

pub length-append_one : {A : Type 0} (xs : List A) (x : A) → length (xs ++ x ∷ []) ≡ suc (length xs)
length-append_one [] x = refl
length-append_one (y ∷ ys) x = ap (λ k. suc k) (length-append_one ys x)

pub length-rev : {A : Type 0} (xs : List A) → length (rev xs) ≡ length xs
unfolding rev
length-rev [] = refl
length-rev (x ∷ xs) = length-append_one (rev xs) x ∙ ap (λ k. suc k) (length-rev xs)

pub get_elem?-before :
    {A : Type 0} (xs : List A) (x : A) (j : ℕ)
    → j < length xs
    → get_elem? (xs ++ x ∷ []) j ≡ get_elem? xs j
get_elem?-before [] x j h = absurd (omega (arith, h))
get_elem?-before (y ∷ ys) x zero h = refl
get_elem?-before (y ∷ ys) x (suc j) h = get_elem?-before ys x j (omega (arith, h))

pub get_elem?-at_end :
    {A : Type 0} (xs : List A) (x : A) → get_elem? (xs ++ x ∷ []) (length xs) ≡ some x
get_elem?-at_end [] x = refl
get_elem?-at_end (y ∷ ys) x = get_elem?-at_end ys x

pub get_elem?-rev :
    {A : Type 0} (xs : List A) (j : ℕ)
    → j < length xs
    → get_elem? xs (length xs - 1 - j) ≡ get_elem? (rev xs) j
unfolding rev
get_elem?-rev [] j h = absurd (omega (arith, h))
get_elem?-rev (x ∷ xs) j h = elim (Bool-cases (ltb j (length xs))) [
  | inl inside ↦
      let inner : j < length xs = ground (arith, inside) in
      let i : length (x ∷ xs) - 1 - j ≡ suc (length xs - 1 - j) = omega (arith, inner) in
      ap (λ k. get_elem? (x ∷ xs) k) i
      ∙ get_elem?-rev xs j inner
      ∙ sym (get_elem?-before (rev xs) x j (omega (arith, inner, length-rev xs)))
  | inr last ↦
      let same : j ≡ length xs = ground (arith, last, h) in
      let i : length (x ∷ xs) - 1 - j ≡ 0 = omega (arith, same) in
      ap (λ k. get_elem? (x ∷ xs) k) i
      ∙ sym (get_elem?-at_end (rev xs) x)
      ∙ ap (λ k. get_elem? (rev xs ++ x ∷ []) k) (omega (arith, length-rev xs, same))
]

pub perm-rev : {A : Type 0} (xs : List A) → Permᴰ (rev xs) xs
unfolding rev
perm-rev [] = nil
perm-rev (x ∷ xs) = trans (Permᴰ.append_comm (rev xs) (x ∷ [])) (cons refl (perm-rev xs))

pub All-others :
    {A : Type 0} (P : A → Type 0) (n : ℕ) (xs : List A) → All P xs → All P (others n xs)
All-others P zero xs h = h
All-others P (suc n) [] h = h
All-others P (suc n) (x ∷ xs) h = All-others P n xs h.1

pub All-both :
    {A : Type 0} (P Q R : A → Type 0) (xs : List A)
    → ((a : A) → P a → Q a → R a)
    → All P xs
    → All Q xs
    → All R xs
All-both P Q R [] k h g = tt
All-both P Q R (x ∷ xs) k h g = (k x h.0 g.0, All-both P Q R xs k h.1 g.1)

pub All-trivial : {A : Type 0} (xs : List A) → All (λ y. Unit {0}) xs
All-trivial [] = tt
All-trivial (x ∷ xs) = (tt, All-trivial xs)

-- Every entry is so related to all after it.
abbrev pub Chain : {A : Type 0} → (A → A → Type 0) → List A → Type 0
Chain R [] = Unit {0}
Chain R (x ∷ xs) = All (R x) xs × Chain R xs

pub Chain-others :
    {A : Type 0} (R : A → A → Type 0) (n : ℕ) (xs : List A)
    → Chain R xs
    → All (λ y. All (λ x. R x y) (firsts n xs)) (others n xs)
Chain-others R zero xs h = All-trivial xs
Chain-others R (suc n) [] h = tt
Chain-others R (suc n) (x ∷ xs) h =
    All-both (R x) (λ y. All (λ z. R z y) (firsts n xs)) (λ y. All (λ z. R z y) (x ∷ firsts n xs))
      (others n xs) (λ y a b. (a, b)) (All-others (R x) n xs h.0) (Chain-others R n xs h.1)

pub All-append_one :
    {A : Type 0} (P : A → Type 0) (xs : List A) (x : A) → All P xs → P x → All P (xs ++ x ∷ [])
All-append_one P [] x h k = (k, tt)
All-append_one P (y ∷ ys) x h k = (h.0, All-append_one P ys x h.1 k)

pub All-rev : {A : Type 0} (P : A → Type 0) (xs : List A) → All P xs → All P (rev xs)
unfolding rev
All-rev P [] h = tt
All-rev P (x ∷ xs) h = All-append_one P (rev xs) x (All-rev P xs h.1) h.0

pub Chain-append_one :
    {A : Type 0} (R : A → A → Type 0) (xs : List A) (x : A)
    → Chain R xs
    → All (λ y. R y x) xs
    → Chain R (xs ++ x ∷ [])
Chain-append_one R [] x h k = (tt, tt)
Chain-append_one R (y ∷ ys) x h k =
    (All-append_one (R y) ys x h.0 k.0, Chain-append_one R ys x h.1 k.1)

pub Chain-rev :
    {A : Type 0} (R : A → A → Type 0) (xs : List A) → Chain R xs → Chain (λ x y. R y x) (rev xs)
unfolding rev
Chain-rev R [] h = tt
Chain-rev R (x ∷ xs) h =
    Chain-append_one (λ a b. R b a) (rev xs) x (Chain-rev R xs h.1) (All-rev (R x) xs h.0)

pub length-firsts : {A : Type 0} (n : ℕ) (xs : List A) → n ≤ length xs → length (firsts n xs) ≡ n
length-firsts zero xs h = refl
length-firsts (suc n) [] h = omega (arith, h)
length-firsts (suc n) (x ∷ xs) h = ap (λ k. suc k) (length-firsts n xs (omega (arith, h)))

pub length-Permᴰ : {A : Type 0} {xs ys : List A} → Permᴰ xs ys → length xs ≡ length ys
length-Permᴰ nil = refl
length-Permᴰ (cons e p) = ap (λ k. suc k) (length-Permᴰ p)
length-Permᴰ (swap e f) = refl
length-Permᴰ (trans p q) = length-Permᴰ p ∙ length-Permᴰ q
