-- ===== src/Examples/FrameWitnesses.antt =====
-- The theorems on the frames at work.
use autoware_agent.Base.{ℕ, refl, ◌≡◌, List, ltb, ◌-◌, [], ◌∷◌, true, false}
use autoware_agent.Perception.{
  Numbers, DetectedObject, LightGroup, PerceptionFrameState, color_red, color_green,
  label_pedestrian,
}
use autoware_agent.Perception.Frames.{
  PerceptionBridge, InStep, handle_all, ticked, signals, handle_all-InStep,
}
use autoware_agent.TripFrames
use autoware_agent.TripFrames.Alive
use autoware_agent.TripFrames.{
  TripBridge, TripFrame, localization_unknown, operation_unknown, mrm_none, trip_idle,
}
use autoware_agent.TripFrames.Alive.{
  BridgeEvent, heartbeat, localization, Stands, Places, tick-alive,
}
use autoware_agent.Examples.{whole, asked}
use autoware_agent.Controller.{new_trip_controller}
use autoware_agent.Messages.{initialized}

pub reading : Numbers ℕ
reading = record { floats = whole; to_float = λ a. a; is_finite = λ a. true }

abbrev nothing_seen : PerceptionFrameState ℕ
nothing_seen = record {
  surrounding_objects = [];
  points_cloud = [];
  occupancy_grid = record {
    info = record { resolution = 0; width = 0; height = 0; origin_x = 0; origin_y = 0 };
    grid_data = [];
  };
  traffic_lights = [];
}

abbrev pub crossing : List (LightGroup ℕ)
crossing =
    record {
      traffic_light_group_id = 3;
      elements =
          record { color = color_red; confidence = 4 }
          ∷ record { color = color_green; confidence = 9 }
          ∷ [];
    }
    ∷ record { traffic_light_group_id = 8; elements = [] }
    ∷ []

abbrev pub walker : DetectedObject ℕ
walker = record {
  classification = label_pedestrian ∷ [];
  existence_probability = 1;
  dimensions = record { x = 1; y = 1; z = 2 };
  velocity_x = 1;
  velocity_y = 0;
  position = record { x = 5; y = 6; z = 0 };
  orientation = record { x = 0; y = 0; z = 0; w = 1 };
}

abbrev pub silent_bridge : PerceptionBridge ℕ
silent_bridge = record { state = nothing_seen; frame_seq = 0; published = [] }

handle_all-InStep_example :
    InStep (handle_all reading silent_bridge (ticked 5 ∷ signals crossing ∷ ticked 6 ∷ []))
handle_all-InStep_example =
    handle_all-InStep reading silent_bridge (ticked 5 ∷ signals crossing ∷ ticked 6 ∷ []) (refl, tt)

abbrev pub quiet_bridge : TripBridge ℕ
quiet_bridge = record {
  state = record {
    localization_state = localization_unknown;
    operation_mode = operation_unknown;
    mrm_state = record { is_active = false; behavior = mrm_none; description = [] };
    system_alive = false;
    components = [];
    trip_state = trip_idle;
    start_lanelet_id = [];
    start_x = 0;
    start_y = 0;
    start_z = 0;
    goal_lanelet_id = [];
    goal_x = 0;
    goal_y = 0;
    goal_z = 0;
    goal_distance_m = 0;
  };
  frame_seq = 0;
  last_heartbeat_time = 0;
  published = [];
}

-- A heartbeat, a message, and a tick two seconds later.
abbrev beats : List (ℕ × BridgeEvent ℕ)
beats = (1000000000, heartbeat) ∷ (1500000000, localization initialized) ∷ []

tick-alive_example :
    (f : TripFrame ℕ) × ((TripFrames.on_tick
        (Alive.handle_all quiet_bridge beats)
        3000000000
        asked.status).published
      ≡ f ∷ (Alive.handle_all quiet_bridge beats).published)
    × (f.state.system_alive ≡ ltb (3000000000 - 1000000000) 1000000000)
    × (f.stamp_ns ≡ 3000000000)
    × Stands asked.status.state f.state.trip_state
    × Places asked.status f.state
unfolding new_trip_controller
tick-alive_example = tick-alive quiet_bridge beats 3000000000 asked.status
