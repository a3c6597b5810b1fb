-- ===== src/Cluster/Strand.antt =====
-- The handlers, conversions and the tick of ClusterBridge.cc, and the strand that runs them.
use autoware_agent.Base.{
  ℕ, ◌+◌, ◌%◌, Bool, true, false, List, [], ◌∷◌, ◌++◌, ◌==◌, if◌then◌else◌, Text, codes,
}
use autoware_agent.Perception.{
  Numbers, Label, label_car, label_truck, label_bus, label_trailer, label_motorcycle,
  label_pedestrian, LightColor, color_red, color_amber, color_green, other_color, DetectedObject,
  LightElement, LightGroup,
}
use autoware_agent.TripFrames.{Mrm, Behavior, mrm_is_active, mrm_description, to_mrm_behavior}
use autoware_agent.Cluster.State.{
  ClusterBridge, ClusterEvent, Control, ControlMode, FrameState, Gear, GearState, Indicators,
  Kinematics, Motion, MotionState, SurroundObject, TurnSignal, VehicleFrame, autonomous, battery,
  control, drive, enable_left, enable_right, eta, gear_drive, gear_neutral, gear_park, gear_report,
  gear_reverse, gear_unknown, hazard_lights, kinematics, mode_auto, mode_manual, motion,
  motion_decelerating, motion_moving, motion_stopped, motion_unknown, moving, mrm_state, neutral,
  objects, other_control, other_gear, other_indicators, other_motion, park, reverse, signals,
  starting, steering, stopped, target_velocity, ticked, turn_indicators, turn_left, turn_none,
  turn_right, velocity, velocity_limit,
}

abbrev pub to_gear : Gear → GearState
to_gear park = gear_park
to_gear reverse = gear_reverse
to_gear neutral = gear_neutral
to_gear drive = gear_drive
to_gear (other_gear v) = gear_unknown

abbrev pub to_turn : Indicators → TurnSignal
to_turn enable_left = turn_left
to_turn enable_right = turn_right
to_turn (other_indicators v) = turn_none

abbrev pub to_ctrl_mode : Control → ControlMode
to_ctrl_mode autonomous = mode_auto
to_ctrl_mode (other_control v) = mode_manual

abbrev pub to_motion_state : Motion → MotionState
to_motion_state stopped = motion_stopped
to_motion_state moving = motion_moving
to_motion_state starting = motion_decelerating
to_motion_state (other_motion v) = motion_unknown

abbrev pub to_hazard : ℕ → Bool
to_hazard v = if v == 1 then false else if v == 2 then true else false

abbrev pub is_vehicle : Label → Bool
is_vehicle label_car = true
is_vehicle label_truck = true
is_vehicle label_bus = true
is_vehicle label_trailer = true
is_vehicle label_motorcycle = true
is_vehicle _ = false

abbrev pub is_pedestrian : Label → Bool
is_pedestrian label_pedestrian = true
is_pedestrian _ = false

-- The type of a surround object, by the tests in the code's order.
abbrev pub kind_of : Label → Text
kind_of label =
    if is_pedestrian label
    then codes "PEDESTRIAN"
    else if is_vehicle label
    then codes "VEHICLE"
    else codes "UNKNOWN"

-- The three flags of the loops in onTrafficSignalsImpl, and the three uint32_t counters of
-- onObjectsImpl.
pub record Lit : Type 0 where
  pub red : Bool
  pub green : Bool
  pub yellow : Bool

pub record Tally : Type 0 where
  pub obstacles : ℕ
  pub pedestrians : ℕ
  pub vehicles : ℕ

abbrev pub see : LightColor → Lit → Lit
see color_red l = record l { red = true }
see color_green l = record l { green = true }
see color_amber l = record l { yellow = true }
see (other_color v) l = l

-- `++` on a uint32_t
abbrev pub next_count : ℕ → ℕ
next_count n = (n + 1) % 4294967296

abbrev pub tally_label : Label → Tally → Tally
tally_label label t =
    if is_vehicle label
    then record t { vehicles = next_count t.vehicles; obstacles = next_count t.obstacles }
    else if is_pedestrian label
    then record t { pedestrians = next_count t.pedestrians; obstacles = next_count t.obstacles }
    else record t { obstacles = next_count t.obstacles }

abbrev pub tally_first : List Label → Tally → Tally
tally_first [] t = t
tally_first (label ∷ labels) t = tally_label label t

module _ {F : Type 0} where
  abbrev pub see_elements : List (LightElement F) → Lit → Lit
  see_elements [] l = l
  see_elements (el ∷ els) l = see_elements els (see el.color l)

  abbrev pub see_groups : List (LightGroup F) → Lit → Lit
  see_groups [] l = l
  see_groups (g ∷ gs) l = see_groups gs (see_elements g.elements l)

  unfoldable pub on_traffic_signals : FrameState F → List (LightGroup F) → FrameState F
  on_traffic_signals s msg =
      let l = see_groups msg (record { red = false; green = false; yellow = false }) in
      record s {
        traffic_light_red = l.red;
        traffic_light_green = l.green;
        traffic_light_yellow = l.yellow;
      }

  abbrev pub tally_objects : List (DetectedObject F) → Tally → Tally
  tally_objects [] t = t
  tally_objects (o ∷ os) t = tally_objects os (tally_first o.classification t)

  unfoldable pub on_objects : FrameState F → List (DetectedObject F) → FrameState F
  on_objects s msg =
      let t = tally_objects msg (record { obstacles = 0; pedestrians = 0; vehicles = 0 }) in
      record s {
        obstacle_count = t.obstacles;
        pedestrian_count = t.pedestrians;
        vehicle_count = t.vehicles;
      }

  unfoldable pub on_mrm_state : FrameState F → Mrm → Behavior → FrameState F
  on_mrm_state s m b = record s {
    is_active = mrm_is_active m;
    mrm_behavior = to_mrm_behavior b;
    description = mrm_description m;
  }

  -- The obstacle count of the frame keeps its default.
  unfoldable pub build_frame : ClusterBridge F → ℕ → VehicleFrame F
  build_frame b now =
      let s = b.state in
      record {
        stamp_ns = now;
        seq = b.frame_seq;
        speed_mps = s.speed_mps;
        speed_kmh = s.speed_kmh;
        gear = s.gear;
        steering_angle_deg = s.steering_angle_deg;
        hazard_on = s.hazard_on;
        turn_signal = s.turn_signal;
        control_mode = s.control_mode;
        battery_pct = s.battery_pct;
        accel_mps2 = s.accel_mps2;
        yaw_rate = s.yaw_rate;
        motion_state = s.motion_state;
        target_speed_mps = s.target_speed_mps;
        speed_limit_mps = s.speed_limit_mps;
        remaining_distance_m = s.remaining_distance_m;
        remaining_time_s = s.remaining_time_s;
        adas = record {
          obstacle_count = 0;
          traffic_light_red = s.traffic_light_red;
          traffic_light_yellow = s.traffic_light_yellow;
          traffic_light_green = s.traffic_light_green;
          pedestrian_count = s.pedestrian_count;
          vehicle_count = s.vehicle_count;
        };
        surround_objects = s.surround_objects;
        mrm = record {
          is_active = s.is_active;
          behavior = s.mrm_behavior;
          description = s.description;
        };
      }

  unfoldable pub on_tick : ClusterBridge F → ℕ → ClusterBridge F
  unfolding build_frame
  on_tick b now = record b {
    frame_seq = (b.frame_seq + 1) % 18446744073709551616;
    published = build_frame b now ∷ b.published;
  }

module _ {F : Type 0} (p : Numbers F) where
  -- The constant is computed in float.
  unfoldable pub deg_per_rad : F
  deg_per_rad =
      p.to_float (p.div (p.literal 180 0) (p.to_float (p.literal 314159265358979323846 20)))

  unfoldable pub on_velocity : FrameState F → F → FrameState F
  on_velocity s v = record s {
    speed_mps = v;
    speed_kmh = p.to_float (p.mul v (p.to_float (p.literal 36 1)));
  }

  unfoldable pub on_kinematics_status : FrameState F → Kinematics F → FrameState F
  on_kinematics_status s k = record s {
    accel_mps2 = p.to_float k.accel_x;
    yaw_rate = p.to_float k.twist_z;
    longitude = k.longitude;
    latitude = k.latitude;
  }

  unfoldable pub surround_object : DetectedObject F → Label → SurroundObject F
  surround_object o label = record {
    x = p.to_float o.position.x;
    y = p.to_float o.position.y;
    vx = p.to_float o.velocity_x;
    vy = p.to_float o.velocity_y;
    kind = kind_of label;
  }

  unfoldable pub add_surround :
      DetectedObject F → List Label → List (SurroundObject F) → List (SurroundObject F)
  add_surround o [] surrounds = surrounds
  add_surround o (label ∷ labels) surrounds =
      if p.lt o.existence_probability (p.literal 5 1)
      then surrounds
      else surrounds ++ surround_object o label ∷ []

  unfoldable pub add_surrounds :
      List (DetectedObject F) → List (SurroundObject F) → List (SurroundObject F)
  add_surrounds [] surrounds = surrounds
  add_surrounds (o ∷ os) surrounds = add_surrounds os (add_surround o o.classification surrounds)

  unfoldable pub on_surround_objects : FrameState F → List (DetectedObject F) → FrameState F
  on_surround_objects s msg = record s { surround_objects = add_surrounds msg [] }

  -- The state after a message; a tick leaves it.
  unfoldable pub on_message : FrameState F → ClusterEvent F → FrameState F
  on_message s (velocity v) = on_velocity s v
  on_message s (gear_report g) = record s { gear = to_gear g }
  on_message s (steering angle) = record s {
    steering_angle_deg = p.to_float (p.mul angle deg_per_rad);
  }
  on_message s (hazard_lights v) = record s { hazard_on = to_hazard v }
  on_message s (turn_indicators i) = record s { turn_signal = to_turn i }
  on_message s (control c) = record s { control_mode = to_ctrl_mode c }
  on_message s (battery level) = record s {
    battery_pct = p.to_float (p.mul level (p.literal 100 0));
  }
  on_message s (kinematics k) = on_kinematics_status s k
  on_message s (motion m) = record s { motion_state = to_motion_state m }
  on_message s (target_velocity v) = record s { target_speed_mps = v }
  on_message s (velocity_limit v) = record s { speed_limit_mps = v }
  on_message s (eta distance time) = record s {
    remaining_distance_m = p.to_float distance;
    remaining_time_s = p.to_float time;
  }
  on_message s (signals msg) = on_traffic_signals s msg
  on_message s (objects msg) = on_objects (on_surround_objects s msg) msg
  on_message s (mrm_state m b) = on_mrm_state s m b
  on_message s (ticked now) = s

  unfoldable pub handle : ClusterBridge F → ClusterEvent F → ClusterBridge F
  handle b (ticked now) = on_tick b now
  handle b ev = record b { state = on_message b.state ev }

  unfoldable pub handle_all : ClusterBridge F → List (ClusterEvent F) → ClusterBridge F
  handle_all b [] = b
  handle_all b (ev ∷ rest) = handle_all (handle b ev) rest
