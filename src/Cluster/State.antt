-- ===== src/Cluster/State.antt =====
-- The data of ClusterBridge.cc: the messages as far as they are read, the state and the frame.
use autoware_agent.Base.{ℕ, Bool, List, ℤ, Text}
use autoware_agent.Perception.{DetectedObject, LightGroup}
use autoware_agent.TripFrames.{Mrm, Behavior, MrmBehavior, MrmFrame}

-- GearReport, TurnIndicatorsReport, ControlModeReport and MotionState: the constants that the code
-- names.
pub data Gear : Type 0 where
  park reverse neutral drive : Gear
  other_gear : ℕ → Gear

pub data Indicators : Type 0 where
  enable_left enable_right : Indicators
  other_indicators : ℕ → Indicators

pub data Control : Type 0 where
  autonomous : Control
  other_control : ℕ → Control

pub data Motion : Type 0 where
  stopped starting moving : Motion
  other_motion : ℕ → Motion

pub data GearState : Type 0 where
  gear_unknown gear_park gear_reverse gear_neutral gear_drive : GearState

pub data TurnSignal : Type 0 where
  turn_none turn_left turn_right : TurnSignal

pub data ControlMode : Type 0 where
  mode_unknown mode_auto mode_manual : ControlMode

pub data MotionState : Type 0 where
  motion_unknown motion_stopped motion_moving motion_decelerating : MotionState

pub record SurroundObject (F : Type 0) : Type 0 where
  pub x : F
  pub y : F
  pub vx : F
  pub vy : F
  pub kind : Text

pub record FrameState (F : Type 0) : Type 0 where
  pub speed_mps : F
  pub speed_kmh : F
  pub gear : GearState
  pub steering_angle_deg : F
  pub hazard_on : Bool
  pub turn_signal : TurnSignal
  pub control_mode : ControlMode
  pub battery_pct : F
  pub accel_mps2 : F
  pub yaw_rate : F
  pub motion_state : MotionState
  pub target_speed_mps : F
  pub speed_limit_mps : F
  pub remaining_distance_m : F
  pub remaining_time_s : F
  pub traffic_light_red : Bool
  pub traffic_light_yellow : Bool
  pub traffic_light_green : Bool
  pub obstacle_count : ℕ
  pub pedestrian_count : ℕ
  pub vehicle_count : ℕ
  pub surround_objects : List (SurroundObject F)
  pub mrm_behavior : MrmBehavior
  pub is_active : Bool
  pub description : Text
  pub longitude : F
  pub latitude : F

pub record AdasSummary : Type 0 where
  pub obstacle_count : ℕ
  pub traffic_light_red : Bool
  pub traffic_light_yellow : Bool
  pub traffic_light_green : Bool
  pub pedestrian_count : ℕ
  pub vehicle_count : ℕ

pub record VehicleFrame (F : Type 0) : Type 0 where
  pub stamp_ns : ℕ
  pub seq : ℕ
  pub speed_mps : F
  pub speed_kmh : F
  pub gear : GearState
  pub steering_angle_deg : F
  pub hazard_on : Bool
  pub turn_signal : TurnSignal
  pub control_mode : ControlMode
  pub battery_pct : F
  pub accel_mps2 : F
  pub yaw_rate : F
  pub motion_state : MotionState
  pub target_speed_mps : F
  pub speed_limit_mps : F
  pub remaining_distance_m : F
  pub remaining_time_s : F
  pub adas : AdasSummary
  pub surround_objects : List (SurroundObject F)
  pub mrm : MrmFrame

-- `published` is the history of the frames, newest first; frame_seq_ is a uint64_t.
pub record ClusterBridge (F : Type 0) : Type 0 where
  pub state : FrameState F
  pub frame_seq : ℕ
  pub current_request_id : ℤ
  pub published : List (VehicleFrame F)

-- Kinematics
pub record Kinematics (F : Type 0) : Type 0 where
  pub accel_x : F
  pub twist_z : F
  pub longitude : F
  pub latitude : F

-- What reaches the strand.
pub data ClusterEvent (F : Type 0) : Type 0 where
  velocity : F → ClusterEvent F
  gear_report : Gear → ClusterEvent F
  steering : F → ClusterEvent F
  hazard_lights : ℕ → ClusterEvent F
  turn_indicators : Indicators → ClusterEvent F
  control : Control → ClusterEvent F
  battery : F → ClusterEvent F
  kinematics : Kinematics F → ClusterEvent F
  motion : Motion → ClusterEvent F
  target_velocity velocity_limit : F → ClusterEvent F
  eta : F → F → ClusterEvent F
  signals : List (LightGroup F) → ClusterEvent F
  objects : List (DetectedObject F) → ClusterEvent F
  mrm_state : Mrm → Behavior → ClusterEvent F
  ticked : ℕ → ClusterEvent F
