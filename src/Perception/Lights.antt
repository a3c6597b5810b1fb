-- ===== src/Perception/Lights.antt =====
-- The traffic lights of a message in the frame.
use autoware_agent.Base.{ℕ, ◌≡◌, ◌⊎◌, true, false, List, [], ◌∷◌, ◌++◌, All, Any}
use autoware_agent.Perception.{
  Numbers, LightElement, LightGroup, TrafficLight, to_traffic_light_color, max_element, light_of,
}

-- What max_element relies on in the comparison of floats; both hold with NaN too.
pub record IsStrict {F : Type 0} (p : Numbers F) : Type 0 where
  pub lt_irrefl : (a : F) → p.lt a a ≡ false
  pub lt_trans : (a b c : F) → p.lt a b ≡ true → p.lt b c ≡ true → p.lt a c ≡ true

module _ {F : Type 0} (p : Numbers F) (order : IsStrict p) where
  abbrev Reached : LightElement F → LightElement F → Type 0
  Reached best m = (m ≡ best) ⊎ (p.lt best.confidence m.confidence ≡ true)

  abbrev Largest : LightElement F → List (LightElement F) → LightElement F → Type 0
  Largest best es m =
      Reached best m
      × Any (λ e. m ≡ e) (best ∷ es)
      × All (λ (e : LightElement F). p.lt m.confidence e.confidence ≡ false) es

  -- A light of the frame, for a group: an element of the group, and none has a higher confidence.
  abbrev pub Shows : ℕ → List (LightElement F) → TrafficLight F → Type 0
  Shows id es l =
      (l.traffic_id ≡ id)
      × Any
          (λ (e : LightElement F).
            (l.confidence ≡ e.confidence)
            × (l.traffic_light_color ≡ to_traffic_light_color e.color))
          es
      × All (λ (e : LightElement F). p.lt l.confidence e.confidence ≡ false) es

  -- One light for each group that has elements, in order.
  pub data Shown : List (LightGroup F) → List (TrafficLight F) → Type 0 where
    shown_none : Shown [] []
    shown_skip :
        (g : LightGroup F) (gs : List (LightGroup F)) (ls : List (TrafficLight F))
        → g.elements ≡ []
        → Shown gs ls
        → Shown (g ∷ gs) ls
    shown_one :
        (g : LightGroup F) (gs : List (LightGroup F)) (l : TrafficLight F)
        (ls : List (TrafficLight F))
        → Shows g.traffic_light_group_id g.elements l
        → Shown gs ls
        → Shown (g ∷ gs) (l ∷ ls)

  abbrev lights_for : ℕ → List (LightElement F) → List (TrafficLight F)
  lights_for id [] = []
  lights_for id (e ∷ es) = light_of p id (max_element p e es) ∷ []

  abbrev lights_of : List (LightGroup F) → List (TrafficLight F)
  lights_of [] = []
  lights_of (g ∷ gs) = lights_for g.traffic_light_group_id g.elements ++ lights_of gs
