-- ===== src/Base/Results.antt =====
-- Exceptions as values. An exception that nothing catches ends the strand's thread.
use mathlib.Core.Path.{◌≡◌, refl}

pub data Exception : Type 0 where
  -- std::stoll: no conversion, or a value outside of long long
  invalid_argument out_of_range : Exception
  -- lanelet::NoSuchPrimitiveError of laneletLayer.get
  no_such_primitive : Exception
  -- undefined in C++: the first element of an empty line string
  out_of_bounds : Exception
  -- std::runtime_error of the constructors
  runtime_error : Exception

pub data Result {ℓ} (A : Type ℓ) : Type ℓ where
  ok : A → Result A
  err : Exception → Result A

infixl 5 ◌>>=◌
abbrev pub ◌>>=◌ {ℓ κ} : {A : Type ℓ} {B : Type κ} → Result A → (A → Result B) → Result B
ok a >>= f = f a
err e >>= f = err e

-- The result is a value, and it satisfies the predicate: no exception is raised.
abbrev pub Returns {ℓ} : {A : Type ℓ} → (A → Type 0) → Result A → Type 0
Returns P (ok a) = P a
Returns P (err e) = ⊥

pub Returns->>= {ℓ κ} :
    {A : Type ℓ} {B : Type κ} (P : A → Type 0) (Q : B → Type 0) (m : Result A) (f : A → Result B)
    → Returns P m
    → ((a : A) → P a → Returns Q (f a))
    → Returns Q (m >>= f)
Returns->>= P Q (ok a) f h k = k a h
Returns->>= P Q (err e) f h k = absurd h

pub Returns-weaken {ℓ} :
    {A : Type ℓ} (P Q : A → Type 0) (m : Result A)
    → ((a : A) → P a → Q a)
    → Returns P m
    → Returns Q m
Returns-weaken P Q (ok a) k h = k a h
Returns-weaken P Q (err x) k h = h

-- A chain that returns a value has returned one at its first step.
pub first-eq-ok {ℓ κ} :
    {A : Type ℓ} {B : Type κ} (m : Result A) (f : A → Result B) (b : B)
    → (m >>= f) ≡ ok b
    → (a : A) × (m ≡ ok a) × (f a ≡ ok b)
first-eq-ok (ok a) f b h = (a, refl, h)
first-eq-ok (err x) f b h = cc

-- If the result is a value, it satisfies the predicate.
abbrev pub Ensures {ℓ} : {A : Type ℓ} → (A → Type 0) → Result A → Type 0
Ensures P (ok a) = P a
Ensures P (err x) = Unit {0}

pub Ensures->>= {ℓ κ} :
    {A : Type ℓ} {B : Type κ} (Q : B → Type 0) (m : Result A) (f : A → Result B)
    → ((a : A) → Ensures Q (f a))
    → Ensures Q (m >>= f)
Ensures->>= Q (ok a) f h = h a
Ensures->>= Q (err x) f h = tt

pub Ensures-weaken {ℓ} :
    {A : Type ℓ} (P Q : A → Type 0) (m : Result A)
    → ((a : A) → P a → Q a)
    → Ensures P m
    → Ensures Q m
Ensures-weaken P Q (ok a) k h = k a h
Ensures-weaken P Q (err x) k h = tt

pub Ensures-then {ℓ κ} :
    {A : Type ℓ} {B : Type κ} (P : A → Type 0) (Q : B → Type 0) (m : Result A) (f : A → Result B)
    → Ensures P m
    → ((a : A) → P a → Ensures Q (f a))
    → Ensures Q (m >>= f)
Ensures-then P Q (ok a) f h k = k a h
Ensures-then P Q (err x) f h k = tt

-- No exception, and the predicate of every value.
pub Returns-both {ℓ} :
    {A : Type ℓ} (P Q : A → Type 0) (m : Result A)
    → Returns P m
    → Ensures Q m
    → Returns (λ a. P a × Q a) m
Returns-both P Q (ok a) h k = (h, k)
Returns-both P Q (err x) h k = h
