-- ===== src/Cluster/Latest.antt =====
-- What a state of ClusterBridge shows: of each kind of message the last one.
use autoware_agent.Base.{
  ℕ, true, Text, codes, ◌≡◌, refl, sym, subst, List, [], ◌∷◌, ◌++◌, All, ◌%◌, length, arith,
}
use autoware_agent.Perception.{Numbers}
use autoware_agent.Cluster.State.{
  FrameState, VehicleFrame, ClusterBridge, ClusterEvent, velocity, gear_report, steering,
  hazard_lights, turn_indicators, control, battery, kinematics, motion, target_velocity,
  velocity_limit, eta, signals, objects, mrm_state, ticked,
}
use autoware_agent.Cluster.Strand.{
  deg_per_rad, on_velocity, on_kinematics_status, on_traffic_signals, on_objects,
  on_surround_objects, on_mrm_state, on_message, build_frame, on_tick, handle, handle_all,
}
use autoware_agent.Cluster.Named.{
  Geared, Signalled, Controlled, Moved, Described, Behaves, Around, to_gear-Geared,
  to_turn-Signalled, to_ctrl_mode-Controlled, to_motion_state-Moved, mrm-Described,
  to_mrm_behavior-Behaves, to_hazard_iff, add_surrounds-Around,
}
use autoware_agent.Cluster.Signals.{Flagged, on_traffic_signals-Flagged}
use autoware_agent.Cluster.Counts.{Counted, on_objects-Counted}

-- The topics that the constructor subscribes to; a tick comes over none.
abbrev pub topic : {F : Type 0} → ClusterEvent F → Text
topic (velocity v) = codes "/vehicle/status/velocity_status"
topic (gear_report g) = codes "/vehicle/status/gear_status"
topic (steering a) = codes "/vehicle/status/steering_status"
topic (hazard_lights v) = codes "/vehicle/status/hazard_lights_status"
topic (turn_indicators i) = codes "/vehicle/status/turn_indicators_status"
topic (control c) = codes "/vehicle/status/control_mode"
topic (battery l) = codes "/vehicle/status/battery_charge"
topic (kinematics k) = codes "/api/vehicle/kinematics"
topic (motion m) = codes "/api/motion/state"
topic (target_velocity v) = codes "/planning/scenario_planning/velocity_smoother/closest_velocity"
topic (velocity_limit v) = codes "/planning/scenario_planning/current_max_velocity"
topic (eta d t) = codes "/planning/mission_remaining_distance_time"
topic (signals msg) = codes "/perception/traffic_light_recognition/traffic_signals"
topic (objects msg) = codes "/perception/object_recognition/objects"
topic (mrm_state m b) = codes "/api/fail_safe/mrm_state"
topic (ticked now) = []

-- What a frame says, as a state: the place and the count of the obstacles are in no frame.
abbrev pub said_by : {F : Type 0} → VehicleFrame F → FrameState F → FrameState F
said_by f s = record {
  speed_mps = f.speed_mps;
  speed_kmh = f.speed_kmh;
  gear = f.gear;
  steering_angle_deg = f.steering_angle_deg;
  hazard_on = f.hazard_on;
  turn_signal = f.turn_signal;
  control_mode = f.control_mode;
  battery_pct = f.battery_pct;
  accel_mps2 = f.accel_mps2;
  yaw_rate = f.yaw_rate;
  motion_state = f.motion_state;
  target_speed_mps = f.target_speed_mps;
  speed_limit_mps = f.speed_limit_mps;
  remaining_distance_m = f.remaining_distance_m;
  remaining_time_s = f.remaining_time_s;
  traffic_light_red = f.adas.traffic_light_red;
  traffic_light_yellow = f.adas.traffic_light_yellow;
  traffic_light_green = f.adas.traffic_light_green;
  obstacle_count = s.obstacle_count;
  pedestrian_count = f.adas.pedestrian_count;
  vehicle_count = f.adas.vehicle_count;
  surround_objects = f.surround_objects;
  mrm_behavior = f.mrm.behavior;
  is_active = f.mrm.is_active;
  description = f.mrm.description;
  longitude = s.longitude;
  latitude = s.latitude;
}

module _ {F : Type 0} (p : Numbers F) where
  abbrev pub Reflects : ClusterEvent F → FrameState F → Type 0
  Reflects (velocity v) s =
      (s.speed_mps ≡ v) × (s.speed_kmh ≡ p.to_float (p.mul v (p.to_float (p.literal 36 1))))
  Reflects (gear_report g) s = Geared g s.gear
  Reflects (steering a) s = s.steering_angle_deg ≡ p.to_float (p.mul a (deg_per_rad p))
  Reflects (hazard_lights v) s = (s.hazard_on ≡ true → v ≡ 2) × (v ≡ 2 → s.hazard_on ≡ true)
  Reflects (turn_indicators i) s = Signalled i s.turn_signal
  Reflects (control c) s = Controlled c s.control_mode
  Reflects (battery l) s = s.battery_pct ≡ p.to_float (p.mul l (p.literal 100 0))
  Reflects (kinematics k) s =
      (s.accel_mps2 ≡ p.to_float k.accel_x)
      × (s.yaw_rate ≡ p.to_float k.twist_z)
      × (s.longitude ≡ k.longitude)
      × (s.latitude ≡ k.latitude)
  Reflects (motion m) s = Moved m s.motion_state
  Reflects (target_velocity v) s = s.target_speed_mps ≡ v
  Reflects (velocity_limit v) s = s.speed_limit_mps ≡ v
  Reflects (eta d t) s =
      (s.remaining_distance_m ≡ p.to_float d) × (s.remaining_time_s ≡ p.to_float t)
  Reflects (signals msg) s = Flagged msg s
  Reflects (objects msg) s = Counted msg s × Around p msg s.surround_objects
  Reflects (mrm_state m b) s = Described m s.is_active s.description × Behaves b s.mrm_behavior
  Reflects (ticked now) s = Unit

  on_message-Reflects : (s : FrameState F) (m : ClusterEvent F) → Reflects m (on_message p s m)
  unfolding on_message on_velocity on_kinematics_status on_mrm_state on_objects on_surround_objects
  on_message-Reflects s (velocity v) = (refl, refl)
  on_message-Reflects s (gear_report g) = to_gear-Geared g
  on_message-Reflects s (steering a) = refl
  on_message-Reflects s (hazard_lights v) = to_hazard_iff v
  on_message-Reflects s (turn_indicators i) = to_turn-Signalled i
  on_message-Reflects s (control c) = to_ctrl_mode-Controlled c
  on_message-Reflects s (battery l) = refl
  on_message-Reflects s (kinematics k) = (refl, refl, refl, refl)
  on_message-Reflects s (motion m) = to_motion_state-Moved m
  on_message-Reflects s (target_velocity v) = refl
  on_message-Reflects s (velocity_limit v) = refl
  on_message-Reflects s (eta d t) = (refl, refl)
  on_message-Reflects s (signals msg) = on_traffic_signals-Flagged s msg
  on_message-Reflects s (objects msg) =
      (on_objects-Counted (on_surround_objects p s msg) msg, add_surrounds-Around p msg)
  on_message-Reflects s (mrm_state m b) = (mrm-Described m, to_mrm_behavior-Behaves b)
  on_message-Reflects s (ticked now) = tt

  Reflects-on_message :
      (s : FrameState F) (m ev : ClusterEvent F)
      → ¬ (topic ev ≡ topic m)
      → Reflects m s
      → Reflects m (on_message p s ev)
  unfolding on_message on_velocity on_kinematics_status on_mrm_state on_traffic_signals on_objects
      on_surround_objects
  Reflects-on_message s (velocity v) (velocity w) n h = absurd (n refl)
  Reflects-on_message s (velocity v) _ n h = h
  Reflects-on_message s (gear_report v) (gear_report w) n h = absurd (n refl)
  Reflects-on_message s (gear_report v) _ n h = h
  Reflects-on_message s (steering v) (steering w) n h = absurd (n refl)
  Reflects-on_message s (steering v) _ n h = h
  Reflects-on_message s (hazard_lights v) (hazard_lights w) n h = absurd (n refl)
  Reflects-on_message s (hazard_lights v) _ n h = h
  Reflects-on_message s (turn_indicators v) (turn_indicators w) n h = absurd (n refl)
  Reflects-on_message s (turn_indicators v) _ n h = h
  Reflects-on_message s (control v) (control w) n h = absurd (n refl)
  Reflects-on_message s (control v) _ n h = h
  Reflects-on_message s (battery v) (battery w) n h = absurd (n refl)
  Reflects-on_message s (battery v) _ n h = h
  Reflects-on_message s (kinematics v) (kinematics w) n h = absurd (n refl)
  Reflects-on_message s (kinematics v) _ n h = h
  Reflects-on_message s (motion v) (motion w) n h = absurd (n refl)
  Reflects-on_message s (motion v) _ n h = h
  Reflects-on_message s (target_velocity v) (target_velocity w) n h = absurd (n refl)
  Reflects-on_message s (target_velocity v) _ n h = h
  Reflects-on_message s (velocity_limit v) (velocity_limit w) n h = absurd (n refl)
  Reflects-on_message s (velocity_limit v) _ n h = h
  Reflects-on_message s (eta d t) (eta d' t') n h = absurd (n refl)
  Reflects-on_message s (eta d t) _ n h = h
  Reflects-on_message s (signals v) (signals w) n h = absurd (n refl)
  Reflects-on_message s (signals v) _ n h = h
  Reflects-on_message s (objects v) (objects w) n h = absurd (n refl)
  Reflects-on_message s (objects v) _ n h = h
  Reflects-on_message s (mrm_state m b) (mrm_state m' b') n h = absurd (n refl)
  Reflects-on_message s (mrm_state m b) _ n h = h
  Reflects-on_message s (ticked now) ev n h = tt

  handle-state :
      (b : ClusterBridge F) (ev : ClusterEvent F) → (handle p b ev).state ≡ on_message p b.state ev
  unfolding handle on_tick on_message
  handle-state b (ticked now) = refl
  handle-state b _ = refl

  keeps_showing :
      (b : ClusterBridge F) (m : ClusterEvent F) (later : List (ClusterEvent F))
      → All (λ ev. ¬ (topic ev ≡ topic m)) later
      → Reflects m b.state
      → Reflects m (handle_all p b later).state
  unfolding handle_all
  keeps_showing b m [] n h = h
  keeps_showing b m (ev ∷ rest) n h =
      keeps_showing (handle p b ev) m rest n.1
        (subst (Reflects m) (sym (handle-state b ev)) (Reflects-on_message b.state m ev n.0 h))

  held-Reflects :
      (b : ClusterBridge F) (before : List (ClusterEvent F)) (m : ClusterEvent F)
      (later : List (ClusterEvent F))
      → All (λ ev. ¬ (topic ev ≡ topic m)) later
      → Reflects m (handle_all p b (before ++ m ∷ later)).state
  unfolding handle_all
  held-Reflects b [] m later n =
      keeps_showing (handle p b m) m later n
        (subst (Reflects m) (sym (handle-state b m)) (on_message-Reflects b.state m))
  held-Reflects b (ev ∷ before) m later n = held-Reflects (handle p b ev) before m later n

  -- After a message of a ClusterBridge, and whatever follows on other topics, ticks included, the
  -- frame of the next tick reflects that message whatever came before it. For traffic lights: each
  -- of the three flags is set exactly if some element of some group has its colour. For objects:
  -- the two counters are the numbers, modulo 2^32, of the objects whose first label is a
  -- pedestrian, and of those whose first label is a vehicle, and the objects around are those with
  -- a label and a probability not below one half, in order, each with its place, its speed and the
  -- kind of its first label. For the others: the names that the frame has for what the message
  -- says, and its numbers. The number of all labelled objects and the place of the vehicle, which
  -- no frame has, are so in the state.
  pub handle_all-Reflects :
      (b : ClusterBridge F) (before : List (ClusterEvent F)) (m : ClusterEvent F)
      (later : List (ClusterEvent F)) (now : ℕ)
      → All (λ ev. ¬ (topic ev ≡ topic m)) later
      → (f : VehicleFrame F) × ((on_tick (handle_all p b (before ++ m ∷ later)) now).published
          ≡ f ∷ (handle_all p b (before ++ m ∷ later)).published)
        × (f.stamp_ns ≡ now)
        × Reflects m (said_by f (handle_all p b (before ++ m ∷ later)).state)
  unfolding on_tick build_frame
  handle_all-Reflects b before m later now n = (_, refl, refl, held-Reflects b before m later n)

  -- The frames are numbered from 0 without a gap, and none has an obstacle count.
  abbrev pub Blind : List (VehicleFrame F) → Type 0
  Blind [] = Unit {0}
  Blind (f ∷ fs) =
      (f.seq ≡ length fs % 18446744073709551616) × (f.adas.obstacle_count ≡ 0) × Blind fs

  abbrev pub Sequenced : ClusterBridge F → Type 0
  Sequenced b = (b.frame_seq ≡ length b.published % 18446744073709551616) × Blind b.published

  handle-Sequenced :
      (b : ClusterBridge F) (ev : ClusterEvent F) → Sequenced b → Sequenced (handle p b ev)
  unfolding handle on_tick build_frame
  handle-Sequenced b (ticked now) h = (omega (arith, h.0), (h.0, refl, h.1))
  handle-Sequenced b _ h = h

  -- If the frames that a ClusterBridge has published are numbered from 0 without a gap (modulo
  -- 2^64), its counter is the next number and their obstacle counts are 0, as at the start, then
  -- all this holds after any messages and ticks: the obstacle count that the object messages
  -- compute is in no frame.
  pub handle_all-Sequenced :
      (b : ClusterBridge F) (history : List (ClusterEvent F))
      → Sequenced b
      → Sequenced (handle_all p b history)
  unfolding handle_all
  handle_all-Sequenced b [] h = h
  handle_all-Sequenced b (ev ∷ rest) h =
      handle_all-Sequenced (handle p b ev) rest (handle-Sequenced b ev h)
