-- ===== src/Cluster/Counts.antt =====
-- The counters and the surround objects of the vehicle frame, from one object message.
use autoware_agent.Base.{
  ℕ, ◌+◌, ◌%◌, ◌<◌, ◌≡◌, refl, sym, ap, ◌∙◌, inl, inr, Bool, true, Bool-cases, List, [], ◌∷◌,
  if◌then◌else◌, arith, Text,
}
use autoware_agent.Lanelets.Geometry.{text_eq}
use autoware_agent.Perception.{Label, label_car, DetectedObject}
use autoware_agent.Cluster.State.{SurroundObject, FrameState}
use autoware_agent.Cluster.Strand.{
  Tally, is_vehicle, is_pedestrian, next_count, tally_label, tally_first, tally_objects, on_objects,
}

abbrev hit : (Label → Bool) → List Label → ℕ
hit f [] = 0
hit f (label ∷ labels) = if f label then 1 else 0

abbrev any_label : Label → Bool
any_label label = true

module _ {F : Type 0} where
  -- The objects of a message whose first label passes a test.
  abbrev pub count : (Label → Bool) → List (DetectedObject F) → ℕ
  count f [] = 0
  count f (o ∷ os) = hit f o.classification + count f os

  abbrev pub shown : (Text → Bool) → List (SurroundObject F) → ℕ
  shown f [] = 0
  shown f (o ∷ os) = (if f o.kind then 1 else 0) + shown f os

-- A counter of onObjectsImpl, with the labels that it counts.
record Counter : Type 0 where
  get : Tally → ℕ
  test : Label → Bool
  counts :
      (l : Label) (t : Tally)
      → get (tally_label l t) ≡ (if test l then next_count (get t) else get t)

obstacle_counter : Counter
obstacle_counter = record { get = λ t. t.obstacles; test = any_label; counts = law }
  where
    law : (l : Label) (t : Tally) → (tally_label l t).obstacles ≡ next_count t.obstacles
    law label_car t = refl
    law _ t = refl

pedestrian_counter : Counter
pedestrian_counter = record { get = λ t. t.pedestrians; test = is_pedestrian; counts = law }
  where
    law :
        (l : Label) (t : Tally)
        → (tally_label l t).pedestrians
          ≡ (if is_pedestrian l then next_count t.pedestrians else t.pedestrians)
    law label_car t = refl
    law _ t = refl

vehicle_counter : Counter
vehicle_counter = record { get = λ t. t.vehicles; test = is_vehicle; counts = law }
  where
    law :
        (l : Label) (t : Tally)
        → (tally_label l t).vehicles ≡ (if is_vehicle l then next_count t.vehicles else t.vehicles)
    law label_car t = refl
    law _ t = refl

module _ (c : Counter) where
  tally_first-hit :
      (labels : List Label) (t : Tally)
      → c.get t < 4294967296
      → c.get (tally_first labels t) ≡ (c.get t + hit c.test labels) % 4294967296
  tally_first-hit [] t h = omega (arith, h)
  tally_first-hit (label ∷ labels) t h = elim (Bool-cases (c.test label)) [
    | inl passes ↦
        c.counts label t
        ∙ ap (λ b. if b then next_count (c.get t) else c.get t) passes
        ∙ ap (λ b. (c.get t + (if b then 1 else 0)) % 4294967296) (sym passes)
    | inr fails ↦
        c.counts label t
        ∙ ap (λ b. if b then next_count (c.get t) else c.get t) fails
        ∙ omega (arith, h)
        ∙ ap (λ b. (c.get t + (if b then 1 else 0)) % 4294967296) (sym fails)
  ]

module _ {F : Type 0} (c : Counter) where
  tally_objects-count :
      (os : List (DetectedObject F)) (t : Tally)
      → c.get t < 4294967296
      → c.get (tally_objects os t) ≡ (c.get t + count c.test os) % 4294967296
  tally_objects-count [] t h = omega (arith, h)
  tally_objects-count (o ∷ os) t h =
      let first = tally_first-hit c o.classification t h in
      let rest = tally_objects-count os (tally_first o.classification t) (omega (arith, first)) in
      omega (arith, first, rest)

abbrev unseen : Tally
unseen = record { obstacles = 0; pedestrians = 0; vehicles = 0 }

-- The counters of a state are those of a message, modulo 2^32.
abbrev pub Counted : {F : Type 0} → List (DetectedObject F) → FrameState F → Type 0
Counted msg s =
    (s.obstacle_count ≡ count any_label msg % 4294967296)
    × (s.pedestrian_count ≡ count is_pedestrian msg % 4294967296)
    × (s.vehicle_count ≡ count is_vehicle msg % 4294967296)

pub on_objects-Counted :
    {F : Type 0} (s : FrameState F) (msg : List (DetectedObject F)) → Counted msg (on_objects s msg)
unfolding on_objects obstacle_counter pedestrian_counter vehicle_counter
on_objects-Counted s msg =
    let o = tally_objects-count obstacle_counter msg unseen (omega arith) in
    let q = tally_objects-count pedestrian_counter msg unseen (omega arith) in
    let v = tally_objects-count vehicle_counter msg unseen (omega arith) in
    (omega (arith, o), omega (arith, q), omega (arith, v))

abbrev pub is_kind : Text → Text → Bool
is_kind t k = text_eq k t
