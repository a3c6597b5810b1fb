-- ===== src/Lanelets/Drivable.antt =====
-- Which lanelets of LaneletMap.cc are for cars: the filter on the subtype against its meaning.
use autoware_agent.Base.{
  ◌≡◌, ◌==◌, ◌∷◌, refl, sym, ◌∙◌, subst, true, false, [], Option, none, some, Text, codes, ap,
  Bool-cases, inl, inr, arith,
}
use autoware_agent.Lanelets.Geometry.{is_drivable, text_eq}

-- A lanelet without a subtype, or with none of the four for people on foot.
abbrev pub ForCars : Option Text → Type 0
ForCars none = Unit {0}
ForCars (some t) =
    ¬ (t ≡ codes "crosswalk")
    × ¬ (t ≡ codes "walkway")
    × ¬ (t ≡ codes "stairs")
    × ¬ (t ≡ codes "pedestrian")

text_eq_refl : (a : Text) → text_eq a a ≡ true
text_eq_refl [] = refl
text_eq_refl (x ∷ xs) = ground (arith, text_eq_refl xs)

pub text_eq_apart : (a b : Text) → text_eq a b ≡ false → ¬ (a ≡ b)
text_eq_apart a b f h = cc (sym f ∙ subst (λ t. text_eq a t ≡ true) h (text_eq_refl a))

text_eq_sound : (a b : Text) → text_eq a b ≡ true → a ≡ b
text_eq_sound [] [] h = refl
text_eq_sound [] (y ∷ ys) h = cc h
text_eq_sound (x ∷ xs) [] h = cc h
text_eq_sound (x ∷ xs) (y ∷ ys) h = elim (Bool-cases (x == y)) [
  | inl same ↦
      ap (λ n. n ∷ xs) (ground (arith, same)) ∙ ap (y ∷◌) (text_eq_sound xs ys (rw same at h))
  | inr other ↦ cc (rw other at h)
]

text_eq_other : (a b : Text) → ¬ (a ≡ b) → text_eq a b ≡ false
text_eq_other a b n = elim (Bool-cases (text_eq a b)) [
  | inl same ↦ absurd (n (text_eq_sound a b same))
  | inr other ↦ other
]

pub is_drivable-ForCars : (t : Option Text) → is_drivable t ≡ true → ForCars t
unfolding is_drivable
is_drivable-ForCars none h = tt
is_drivable-ForCars (some t) h = (
  text_eq_apart t _ (ground (arith, h)),
  text_eq_apart t _ (ground (arith, h)),
  text_eq_apart t _ (ground (arith, h)),
  text_eq_apart t _ (ground (arith, h)),
)

pub ForCars-is_drivable : (t : Option Text) → ForCars t → is_drivable t ≡ true
unfolding is_drivable
ForCars-is_drivable none h = refl
ForCars-is_drivable (some t) h =
    rw (text_eq_other t _ h.0, text_eq_other t _ h.1, text_eq_other t _ h.2, text_eq_other t _ h.3)
      refl
