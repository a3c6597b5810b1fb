-- ===== src/Perception/Objects.antt =====
-- The objects of a message in the frame.
use autoware_agent.Base.{ℕ, suc, List, [], ◌∷◌, ◌++◌, if◌then◌else◌}
use autoware_agent.Perception.{
  Numbers, Label, DetectedObject, SurroundingObject, surrounding_object,
}

module _ {F : Type 0} (p : Numbers F) where
  -- The objects that are reported, with their first labels.
  abbrev pub reported_with : DetectedObject F → List Label → List (DetectedObject F × Label)
  reported_with o [] = []
  reported_with o (label ∷ labels) =
      if p.lt o.existence_probability (p.literal 5 1) then [] else (o, label) ∷ []

  abbrev pub reported : List (DetectedObject F) → List (DetectedObject F × Label)
  reported [] = []
  reported (o ∷ os) = reported_with o o.classification ++ reported os

  abbrev pub numbered : ℕ → List (DetectedObject F × Label) → List (SurroundingObject F)
  numbered n [] = []
  numbered n ((o, label) ∷ rest) = surrounding_object p o label n ∷ numbered (suc n) rest
