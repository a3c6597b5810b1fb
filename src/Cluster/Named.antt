-- ===== src/Cluster/Named.antt =====
-- What the names in the messages of ClusterBridge.cc become in a frame, and which objects it shows.
use autoware_agent.Base.{
  ℕ, ◌≡◌, refl, sym, ◌∙◌, subst, Bool, true, false, List, [], ◌∷◌, ◌++◌, append_assoc, append_nil,
  Text, codes, Bool-cases, inl, inr, arith,
}
use autoware_agent.Perception.{
  Numbers, Label, label_car, label_truck, label_bus, label_trailer, label_motorcycle, label_bicycle,
  label_pedestrian, label_animal, other_label, DetectedObject,
}
use autoware_agent.TripFrames.{
  Mrm, mrm_normal, mrm_unknown, mrm_operating, mrm_succeeded, mrm_failed, other_mrm, Behavior,
  does_emergency_stop, does_pull_over, other_behavior, MrmBehavior, mrm_none, mrm_emergency_stop,
  mrm_pull_over, mrm_is_active, mrm_description, to_mrm_behavior,
}
use autoware_agent.Cluster.State.{
  Control, ControlMode, Gear, GearState, Indicators, Motion, MotionState, SurroundObject,
  TurnSignal, autonomous, drive, enable_left, enable_right, gear_drive, gear_neutral, gear_park,
  gear_reverse, gear_unknown, mode_auto, mode_manual, motion_decelerating, motion_moving,
  motion_stopped, motion_unknown, moving, neutral, other_control, other_gear, other_indicators,
  other_motion, park, reverse, starting, stopped, turn_left, turn_none, turn_right,
}
use autoware_agent.Cluster.Strand.{
  to_gear, to_turn, to_ctrl_mode, to_motion_state, to_hazard, kind_of, surround_object,
  add_surround, add_surrounds,
}

pub data Geared : Gear → GearState → Type 0 where
  as_park : Geared park gear_park
  as_reverse : Geared reverse gear_reverse
  as_neutral : Geared neutral gear_neutral
  as_drive : Geared drive gear_drive
  no_gear : (v : ℕ) → Geared (other_gear v) gear_unknown

pub data Signalled : Indicators → TurnSignal → Type 0 where
  as_left : Signalled enable_left turn_left
  as_right : Signalled enable_right turn_right
  no_signal : (v : ℕ) → Signalled (other_indicators v) turn_none

pub data Controlled : Control → ControlMode → Type 0 where
  as_auto : Controlled autonomous mode_auto
  as_manual : (v : ℕ) → Controlled (other_control v) mode_manual

-- The frame has no name for STARTING; it is given as decelerating.
pub data Moved : Motion → MotionState → Type 0 where
  as_stopped : Moved stopped motion_stopped
  as_moving : Moved moving motion_moving
  as_starting : Moved starting motion_decelerating
  no_motion : (v : ℕ) → Moved (other_motion v) motion_unknown

-- The state of a minimum risk manoeuvre: whether it is active, and its description.
pub data Described : Mrm → Bool → Text → Type 0 where
  as_normal : Described mrm_normal false (codes "Normal")
  as_unknown : Described mrm_unknown false (codes "Unknown")
  as_operating : Described mrm_operating true (codes "MRM Operating")
  as_succeeded : Described mrm_succeeded true (codes "MRM Succeeded")
  as_failed : Described mrm_failed true (codes "MRM Failed")
  no_mrm : (v : ℕ) → Described (other_mrm v) true (codes "Unknown")

pub data Behaves : Behavior → MrmBehavior → Type 0 where
  as_emergency_stop : Behaves does_emergency_stop mrm_emergency_stop
  as_pull_over : Behaves does_pull_over mrm_pull_over
  no_behavior : (v : ℕ) → Behaves (other_behavior v) mrm_none

pub data Kinded : Label → Text → Type 0 where
  as_pedestrian : Kinded label_pedestrian (codes "PEDESTRIAN")
  as_car : Kinded label_car (codes "VEHICLE")
  as_truck : Kinded label_truck (codes "VEHICLE")
  as_bus : Kinded label_bus (codes "VEHICLE")
  as_trailer : Kinded label_trailer (codes "VEHICLE")
  as_motorcycle : Kinded label_motorcycle (codes "VEHICLE")
  no_bicycle : Kinded label_bicycle (codes "UNKNOWN")
  no_animal : Kinded label_animal (codes "UNKNOWN")
  no_label : (v : ℕ) → Kinded (other_label v) (codes "UNKNOWN")

pub to_gear-Geared : (g : Gear) → Geared g (to_gear g)
to_gear-Geared park = as_park
to_gear-Geared reverse = as_reverse
to_gear-Geared neutral = as_neutral
to_gear-Geared drive = as_drive
to_gear-Geared (other_gear v) = no_gear v

pub to_turn-Signalled : (i : Indicators) → Signalled i (to_turn i)
to_turn-Signalled enable_left = as_left
to_turn-Signalled enable_right = as_right
to_turn-Signalled (other_indicators v) = no_signal v

pub to_ctrl_mode-Controlled : (c : Control) → Controlled c (to_ctrl_mode c)
to_ctrl_mode-Controlled autonomous = as_auto
to_ctrl_mode-Controlled (other_control v) = as_manual v

pub to_motion_state-Moved : (m : Motion) → Moved m (to_motion_state m)
to_motion_state-Moved stopped = as_stopped
to_motion_state-Moved moving = as_moving
to_motion_state-Moved starting = as_starting
to_motion_state-Moved (other_motion v) = no_motion v

pub mrm-Described : (m : Mrm) → Described m (mrm_is_active m) (mrm_description m)
mrm-Described mrm_normal = as_normal
mrm-Described mrm_unknown = as_unknown
mrm-Described mrm_operating = as_operating
mrm-Described mrm_succeeded = as_succeeded
mrm-Described mrm_failed = as_failed
mrm-Described (other_mrm v) = no_mrm v

pub to_mrm_behavior-Behaves : (b : Behavior) → Behaves b (to_mrm_behavior b)
to_mrm_behavior-Behaves does_emergency_stop = as_emergency_stop
to_mrm_behavior-Behaves does_pull_over = as_pull_over
to_mrm_behavior-Behaves (other_behavior v) = no_behavior v

kind_of-Kinded : (l : Label) → Kinded l (kind_of l)
kind_of-Kinded label_pedestrian = as_pedestrian
kind_of-Kinded label_car = as_car
kind_of-Kinded label_truck = as_truck
kind_of-Kinded label_bus = as_bus
kind_of-Kinded label_trailer = as_trailer
kind_of-Kinded label_motorcycle = as_motorcycle
kind_of-Kinded label_bicycle = no_bicycle
kind_of-Kinded label_animal = no_animal
kind_of-Kinded (other_label v) = no_label v

-- The lights blink exactly for the value 2, ENABLE.
pub to_hazard_iff : (v : ℕ) → (to_hazard v ≡ true → v ≡ 2) × (v ≡ 2 → to_hazard v ≡ true)
to_hazard_iff v = (λ h. ground arith, λ h. ground arith)

module _ {F : Type 0} (p : Numbers F) where
  -- An object and how it is shown: its place, its speed and the kind of its first label.
  abbrev pub ShownAs : DetectedObject F → Label → SurroundObject F → Type 0
  ShownAs o label q =
      (q.x ≡ p.to_float o.position.x)
      × (q.y ≡ p.to_float o.position.y)
      × (q.vx ≡ p.to_float o.velocity_x)
      × (q.vy ≡ p.to_float o.velocity_y)
      × Kinded label q.kind

  -- The objects with a label whose probability is not below one half, in their order.
  pub data Around : List (DetectedObject F) → List (SurroundObject F) → Type 0 where
    nobody : Around [] []
    unlabelled :
        {o : DetectedObject F} {os : List (DetectedObject F)} {qs : List (SurroundObject F)}
        → o.classification ≡ []
        → Around os qs
        → Around (o ∷ os) qs
    unlikely :
        {o : DetectedObject F} {os : List (DetectedObject F)} {qs : List (SurroundObject F)}
        → p.lt o.existence_probability (p.literal 5 1) ≡ true
        → Around os qs
        → Around (o ∷ os) qs
    shown :
        {o : DetectedObject F} {os : List (DetectedObject F)} {q : SurroundObject F}
        {qs : List (SurroundObject F)} {label : Label} {labels : List Label}
        → o.classification ≡ label ∷ labels
        → p.lt o.existence_probability (p.literal 5 1) ≡ false
        → ShownAs o label q
        → Around os qs
        → Around (o ∷ os) (q ∷ qs)

  -- What the loop appends to what it has.
  abbrev Appends :
      List (DetectedObject F) → List (SurroundObject F) → List (SurroundObject F) → Type 0
  Appends os has r = (qs : List (SurroundObject F)) × (r ≡ has ++ qs) × Around os qs

  add_surrounds-Appends :
      (os : List (DetectedObject F)) (has : List (SurroundObject F))
      → Appends os has (add_surrounds p os has)
  unfolding add_surrounds add_surround surround_object
  add_surrounds-Appends [] has = ([], sym (append_nil has), nobody)
  add_surrounds-Appends (o ∷ os) has = labelled o.classification refl (add_surrounds-Appends os)
    where
      labelled :
          (ls : List Label)
          → o.classification ≡ ls
          → ((more : List (SurroundObject F)) → Appends os more (add_surrounds p os more))
          → Appends (o ∷ os) has (add_surrounds p os (add_surround p o ls has))
      labelled [] e further =
          let (qs, same, around) = further has in (qs, same, unlabelled e around)
      labelled (l ∷ ls) e further =
          elim (Bool-cases (p.lt o.existence_probability (p.literal 5 1))) [
            | inl low ↦
                let (qs, same, around) = further has in rw low (qs, same, unlikely low around)
            | inr high ↦
                let (qs, same, around) = further (has ++ surround_object p o l ∷ []) in
                rw high (
                  surround_object p o l ∷ qs,
                  same ∙ append_assoc has (surround_object p o l ∷ []) qs,
                  shown e high (refl, refl, refl, refl, kind_of-Kinded l) around,
                )
          ]

  pub add_surrounds-Around : (os : List (DetectedObject F)) → Around os (add_surrounds p os [])
  add_surrounds-Around os =
      let (qs, same, around) = add_surrounds-Appends os [] in subst (Around os) (sym same) around
