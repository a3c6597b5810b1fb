-- ===== src/Examples/BridgeWitnesses.antt =====
-- The theorems on the vehicle frame and the planning frame at work.
use autoware_agent.Lanelets.Geometry.{text_eq}
use autoware_agent.Bridge.{
  Io, Pending, waiting, expired, cancel_timer, on_timer, ticks_on, done, later,
}
use autoware_agent.Bridge.Shutdown.{CanReturn, shutdown-hangs, shutdown-ends}
use autoware_agent.Base.{
  Text, true, ◌≡◌, sym, subst, ◌∙◌, inr, none, some, ℕ, refl, false, List, [], ◌∷◌, ◌++◌, codes,
  pos, arith,
}
use autoware_agent.Geometry.{LocalCoordinate}
use autoware_agent.Messages.{LaneletRoute, set, arrived}
use autoware_agent.TripFrames.{mrm_none}
use autoware_agent.Perception.{DetectedObject}
use autoware_agent.Location
use autoware_agent.Location.Silence.{Muted, handle_all-Muted}
use autoware_agent.Cluster.State
use autoware_agent.Cluster.Strand
use autoware_agent.Cluster.State.{
  VehicleFrame, FrameState, ClusterBridge, ClusterEvent, gear_unknown, turn_none, mode_unknown,
  motion_unknown, motion, starting, signals, objects,
}
use autoware_agent.Cluster
use autoware_agent.Cluster.Latest.{Reflects, Sequenced, handle_all-Reflects, handle_all-Sequenced}
use autoware_agent.Planning
use autoware_agent.Planning.{
  PlanningBridge, PlanningFrame, PlanningEvent, route_unknown, route, route_state, scenario,
}
use autoware_agent.Planning.Latest.{Shows, said_by, handle_all-Shows}
use autoware_agent.Examples.FrameWitnesses.{reading, crossing, walker}

abbrev still : FrameState ℕ
still = record {
  speed_mps = 0;
  speed_kmh = 0;
  gear = gear_unknown;
  steering_angle_deg = 0;
  hazard_on = false;
  turn_signal = turn_none;
  control_mode = mode_unknown;
  battery_pct = 0;
  accel_mps2 = 0;
  yaw_rate = 0;
  motion_state = motion_unknown;
  target_speed_mps = 0;
  speed_limit_mps = 0;
  remaining_distance_m = 0;
  remaining_time_s = 0;
  traffic_light_red = false;
  traffic_light_yellow = false;
  traffic_light_green = false;
  obstacle_count = 0;
  pedestrian_count = 0;
  vehicle_count = 0;
  surround_objects = [];
  mrm_behavior = mrm_none;
  is_active = false;
  description = [];
  longitude = 0;
  latitude = 0;
}

abbrev pub dashboard : ClusterBridge ℕ
dashboard = record { state = still; frame_seq = 0; current_request_id = pos 0; published = [] }

text_eq_refl : (a : Text) → text_eq a a ≡ true
text_eq_refl [] = refl
text_eq_refl (x ∷ xs) = ground (arith, text_eq_refl xs)

-- Two texts that the test tells apart.
apart : (a b : Text) → text_eq a b ≡ false → ¬ (a ≡ b)
apart a b f h = cc (sym f ∙ subst (λ t. text_eq a t ≡ true) h (text_eq_refl a))

abbrev walkers : List (DetectedObject ℕ)
walkers = walker ∷ walker ∷ []

abbrev drive : List (ClusterEvent ℕ)
drive = State.ticked 5 ∷ motion starting ∷ State.ticked 6 ∷ []

abbrev driven : ClusterBridge ℕ
driven = Strand.handle_all reading dashboard ((objects walkers ∷ []) ++ signals crossing ∷ drive)

handle_all-Reflects_example :
    (f : VehicleFrame ℕ) × ((Strand.on_tick driven 700).published ≡ f ∷ driven.published)
    × (f.stamp_ns ≡ 700)
    × Reflects reading (signals crossing) (Cluster.Latest.said_by f driven.state)
handle_all-Reflects_example =
    handle_all-Reflects reading dashboard (objects walkers ∷ []) (signals crossing) drive 700
      (apart _ _ refl, (apart _ _ refl, (apart _ _ refl, tt)))

handle_all-Sequenced_example : Sequenced reading (Strand.handle_all reading dashboard drive)
handle_all-Sequenced_example = handle_all-Sequenced reading dashboard drive (refl, tt)

abbrev origin : LocalCoordinate ℕ
origin = record { x = 0; y = 0; z = 0 }

abbrev pub planner : PlanningBridge ℕ
planner = record {
  state = record {
    trajectory_points = [];
    lane_trajectory = [];
    full_route = record { start_pose = origin; goal_pose = origin; segments = [] };
    velocity_factors = [];
    steering_factors = [];
    target_speed_mps = 0;
    max_speed_mps = 0;
    eta = record { remaining_distance_m = 0; remaining_time_s = 0 };
    routing_state = route_unknown;
    scenario_state = record { current_scenario = []; active_scenarios = [] };
  };
  frame_seq = 0;
  published = [];
}

abbrev two_lanes : LaneletRoute ℕ
two_lanes = record {
  start_pose = origin;
  goal_pose = record { x = 4; y = 5; z = 0 };
  segments =
      record {
        preferred_primitive = record { id = pos 7; primitive_type = codes "lane" };
        primitives = record { id = pos 9; primitive_type = codes "lane" } ∷ [];
      }
      ∷ [];
}

abbrev afterwards : List (PlanningEvent ℕ)
afterwards = Planning.ticked 5 ∷ route_state arrived ∷ scenario (codes "parking") [] ∷ []

abbrev planned : PlanningBridge ℕ
planned =
    Planning.handle_all reading planner ((route_state set ∷ []) ++ route two_lanes ∷ afterwards)

handle_all-Shows_example :
    (f : PlanningFrame ℕ) × ((Planning.on_tick planned 500).published ≡ f ∷ planned.published)
    × (f.stamp_ns ≡ 500)
    × Shows reading (route two_lanes) (said_by f)
handle_all-Shows_example =
    handle_all-Shows reading planner (route_state set ∷ []) (route two_lanes) afterwards 500
      (apart _ _ refl, (apart _ _ refl, (apart _ _ refl, tt)))

abbrev still_here : Location.LocationBridge ℕ
still_here = record {
  frame_seq = 0;
  current_lat = 0;
  current_lon = 0;
  streaming_enabled = false;
  published = [];
}

abbrev unheard : List (Location.LocationEvent ℕ)
unheard =
    Location.ticks (some (record { latitude = 36; longitude = 139 })) (pos 4) 10
    ∷ Location.switches false
    ∷ Location.ticks none (pos 4) 20
    ∷ []

handle_all-Muted_example : Muted [] 0 (Location.handle_all still_here unheard)
handle_all-Muted_example = handle_all-Muted still_here unheard refl (tt, (refl, (tt, tt)))

-- The vehicle frame's bridge, by what its timer waits for.
abbrev timed : Pending → Io (ClusterBridge ℕ)
timed p = record {
  bridge = dashboard;
  pending = p;
  work_guard = true;
  ticks = 3;
  shut = false;
  running = true;
}

abbrev frame : ClusterBridge ℕ → ℕ → ClusterBridge ℕ
frame b now = Strand.on_tick b now

shutdown-hangs_example : (on_timer frame (cancel_timer (timed expired)) false 20).running ≡ true
unfolding cancel_timer
shutdown-hangs_example =
    shutdown-hangs frame (timed expired) _ refl (inr refl) (later done (ticks_on 20 refl refl))

shutdown-ends_example :
    ((cancel_timer (timed waiting)).ticks ≡ 3) × CanReturn frame (cancel_timer (timed waiting))
unfolding cancel_timer
shutdown-ends_example = shutdown-ends frame (timed waiting) _ refl done
