-- ===== src/Cluster/Signals.antt =====
-- The traffic light flags of the vehicle frame.
use autoware_agent.Base.{
  ◌≡◌, refl, sym, ◌⊎◌, inl, inr, Bool, true, false, List, [], ◌∷◌, Any, subst,
}
use autoware_agent.Perception.{
  LightColor, color_red, color_amber, color_green, LightElement, LightGroup,
}
use autoware_agent.Cluster.State.{FrameState}
use autoware_agent.Cluster.Strand.{Lit, see, see_elements, see_groups, on_traffic_signals}

-- Some element of some group has the colour.
abbrev pub Lights : {F : Type 0} → LightColor → List (LightGroup F) → Type 0
Lights c msg = Any (λ g. Any (λ el. el.color ≡ c) g.elements) msg

-- A flag of the loops, which one colour sets and nothing resets.
record Flag : Type 0 where
  flag : Lit → Bool
  colour : LightColor
  sets : (c : LightColor) (l : Lit) → c ≡ colour → flag (see c l) ≡ true
  keeps : (c : LightColor) (l : Lit) → flag l ≡ true → flag (see c l) ≡ true
  only : (c : LightColor) (l : Lit) → flag (see c l) ≡ true → (c ≡ colour) ⊎ (flag l ≡ true)

red_flag : Flag
red_flag = record {
  flag = λ l. l.red;
  colour = color_red;
  sets = λ c l h. subst (λ k. (see k l).red ≡ true) (sym h) refl;
  keeps = kept;
  only = by;
}
  where
    kept : (c : LightColor) (l : Lit) → l.red ≡ true → (see c l).red ≡ true
    kept color_red l h = refl
    kept _ l h = h

    by : (c : LightColor) (l : Lit) → (see c l).red ≡ true → (c ≡ color_red) ⊎ (l.red ≡ true)
    by color_red l h = inl refl
    by _ l h = inr h

green_flag : Flag
green_flag = record {
  flag = λ l. l.green;
  colour = color_green;
  sets = λ c l h. subst (λ k. (see k l).green ≡ true) (sym h) refl;
  keeps = kept;
  only = by;
}
  where
    kept : (c : LightColor) (l : Lit) → l.green ≡ true → (see c l).green ≡ true
    kept color_green l h = refl
    kept _ l h = h

    by : (c : LightColor) (l : Lit) → (see c l).green ≡ true → (c ≡ color_green) ⊎ (l.green ≡ true)
    by color_green l h = inl refl
    by _ l h = inr h

yellow_flag : Flag
yellow_flag = record {
  flag = λ l. l.yellow;
  colour = color_amber;
  sets = λ c l h. subst (λ k. (see k l).yellow ≡ true) (sym h) refl;
  keeps = kept;
  only = by;
}
  where
    kept : (c : LightColor) (l : Lit) → l.yellow ≡ true → (see c l).yellow ≡ true
    kept color_amber l h = refl
    kept _ l h = h

    by :
        (c : LightColor) (l : Lit) → (see c l).yellow ≡ true → (c ≡ color_amber) ⊎ (l.yellow ≡ true)
    by color_amber l h = inl refl
    by _ l h = inr h

module _ {F : Type 0} (f : Flag) where
  elements_keep :
      (els : List (LightElement F)) (l : Lit) → f.flag l ≡ true → f.flag (see_elements els l) ≡ true
  elements_keep [] l h = h
  elements_keep (el ∷ els) l h = elements_keep els (see el.color l) (f.keeps el.color l h)

  elements_set :
      (els : List (LightElement F)) (l : Lit)
      → Any (λ el. el.color ≡ f.colour) els
      → f.flag (see_elements els l) ≡ true
  elements_set [] l h = absurd h
  elements_set (el ∷ els) l (inl here) = elements_keep els (see el.color l) (f.sets el.color l here)
  elements_set (el ∷ els) l (inr there) = elements_set els (see el.color l) there

  elements_only :
      (els : List (LightElement F)) (l : Lit)
      → f.flag (see_elements els l) ≡ true
      → Any (λ el. el.color ≡ f.colour) els ⊎ (f.flag l ≡ true)
  elements_only [] l h = inr h
  elements_only (el ∷ els) l h = elim (elements_only els (see el.color l) h) [
    | inl there ↦ inl (inr there)
    | inr before ↦ elim (f.only el.color l before) [ inl here ↦ inl (inl here) | inr old ↦ inr old ]
  ]

  groups_keep :
      (gs : List (LightGroup F)) (l : Lit) → f.flag l ≡ true → f.flag (see_groups gs l) ≡ true
  groups_keep [] l h = h
  groups_keep (g ∷ gs) l h = groups_keep gs _ (elements_keep g.elements l h)

  groups_set :
      (gs : List (LightGroup F)) (l : Lit) → Lights f.colour gs → f.flag (see_groups gs l) ≡ true
  groups_set [] l h = absurd h
  groups_set (g ∷ gs) l (inl here) = groups_keep gs _ (elements_set g.elements l here)
  groups_set (g ∷ gs) l (inr there) = groups_set gs (see_elements g.elements l) there

  groups_only :
      (gs : List (LightGroup F)) (l : Lit)
      → f.flag (see_groups gs l) ≡ true
      → Lights f.colour gs ⊎ (f.flag l ≡ true)
  groups_only [] l h = inr h
  groups_only (g ∷ gs) l h = elim (groups_only gs (see_elements g.elements l) h) [
    | inl there ↦ inl (inr there)
    | inr before ↦ elim (elements_only g.elements l before) [
      | inl here ↦ inl (inl here)
      | inr old ↦ inr old
    ]
  ]

  flagged :
      (gs : List (LightGroup F)) (l : Lit)
      → f.flag l ≡ false
      → ((f.flag (see_groups gs l) ≡ true) → Lights f.colour gs)
        × (Lights f.colour gs → f.flag (see_groups gs l) ≡ true)
  flagged gs l h = (
    (λ on. elim (groups_only gs l on) [
      | inl some_light ↦ some_light
      | inr old ↦ absurd (cc (h, old))
    ]),
    groups_set gs l,
  )

-- The flags of a state are those of a message.
abbrev pub Flagged : {F : Type 0} → List (LightGroup F) → FrameState F → Type 0
Flagged msg s =
    ((s.traffic_light_red ≡ true → Lights color_red msg)
      × (Lights color_red msg → s.traffic_light_red ≡ true))
    × ((s.traffic_light_green ≡ true → Lights color_green msg)
        × (Lights color_green msg → s.traffic_light_green ≡ true))
    × ((s.traffic_light_yellow ≡ true → Lights color_amber msg)
        × (Lights color_amber msg → s.traffic_light_yellow ≡ true))

pub on_traffic_signals-Flagged :
    {F : Type 0} (s : FrameState F) (msg : List (LightGroup F))
    → Flagged msg (on_traffic_signals s msg)
unfolding on_traffic_signals red_flag green_flag yellow_flag
on_traffic_signals-Flagged s msg =
    (flagged red_flag msg _ refl, flagged green_flag msg _ refl, flagged yellow_flag msg _ refl)
