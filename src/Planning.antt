-- ===== src/Planning.antt =====
-- PlanningBridge.cc: the planning frame, from the trajectories, the route and the factors.
pub mod Latest
use autoware_agent.Base.{push_each, ℕ, ◌+◌, ◌%◌, List, [], ◌∷◌, ◌++◌, Text, ℤ}
use autoware_agent.Geometry.{LocalCoordinate}
use autoware_agent.Messages
use autoware_agent.Messages.{
  LaneletPrimitive, LaneletSegment, LaneletRoute, RouteState, unset, set, arrived, changing,
}
use autoware_agent.Perception.{Numbers}

-- VelocityFactor and SteeringFactor: the constants that the code names.
pub data VelocityStatus : Type 0 where
  factor_approaching factor_stopped : VelocityStatus
  other_velocity_status : ℕ → VelocityStatus

pub data Direction : Type 0 where
  left right straight : Direction
  other_direction : ℕ → Direction

pub data TurnStatus : Type 0 where
  turn_approaching turning : TurnStatus
  other_turn_status : ℕ → TurnStatus

pub data VelocityFactorStatus : Type 0 where
  velocity_unknown velocity_approaching velocity_stopped : VelocityFactorStatus

pub data SteeringDirection : Type 0 where
  steering_unknown steering_left steering_right steering_straight : SteeringDirection

pub data SteeringStatus : Type 0 where
  steering_status_unknown steering_status_approaching steering_status_turning : SteeringStatus

-- vehicle_frame::RouteState
pub data FrameRouteState : Type 0 where
  route_unknown route_unset route_set route_arrived route_changing : FrameRouteState

-- TrajectoryPoint, of the message and of the frame
pub record TrajectoryPoint (F : Type 0) : Type 0 where
  pub position : LocalCoordinate F
  pub longitudinal_velocity_mps : F

-- The factors of the messages; a steering factor has an array of two poses.
pub record VelocityReason (F : Type 0) : Type 0 where
  pub behavior : Text
  pub position : LocalCoordinate F
  pub status : VelocityStatus

pub record SteeringReason (F : Type 0) : Type 0 where
  pub behavior : Text
  pub first_position : LocalCoordinate F
  pub second_position : LocalCoordinate F
  pub status : TurnStatus
  pub direction : Direction

pub record VelocityFactor (F : Type 0) : Type 0 where
  pub reason : Text
  pub pose : LocalCoordinate F
  pub status : VelocityFactorStatus

pub record SteeringFactor (F : Type 0) : Type 0 where
  pub direction : SteeringDirection
  pub status : SteeringStatus
  pub reason : Text
  pub pose : LocalCoordinate F

pub record FrameSegment : Type 0 where
  pub preferred : LaneletPrimitive
  pub primitives : List LaneletPrimitive

pub record FullRoute (F : Type 0) : Type 0 where
  pub start_pose : LocalCoordinate F
  pub goal_pose : LocalCoordinate F
  pub segments : List FrameSegment

pub record EtaFrame (F : Type 0) : Type 0 where
  pub remaining_distance_m : F
  pub remaining_time_s : F

pub record ScenarioState : Type 0 where
  pub current_scenario : Text
  pub active_scenarios : List Text

pub record PlanningFrameState (F : Type 0) : Type 0 where
  pub trajectory_points : List (TrajectoryPoint F)
  pub lane_trajectory : List (TrajectoryPoint F)
  pub full_route : FullRoute F
  pub velocity_factors : List (VelocityFactor F)
  pub steering_factors : List (SteeringFactor F)
  pub target_speed_mps : F
  pub max_speed_mps : F
  pub eta : EtaFrame F
  pub routing_state : FrameRouteState
  pub scenario_state : ScenarioState

pub record PlanningFrame (F : Type 0) : Type 0 where
  pub stamp_ns : ℕ
  pub seq : ℕ
  pub trajectory_points : List (TrajectoryPoint F)
  pub lane_trajectory : List (TrajectoryPoint F)
  pub full_route : FullRoute F
  pub velocity_factors : List (VelocityFactor F)
  pub steering_factors : List (SteeringFactor F)
  pub target_speed_mps : F
  pub max_speed_mps : F
  pub eta : EtaFrame F
  pub routing_state : FrameRouteState
  pub scenario_state : ScenarioState

-- `published` is the history of the frames, newest first; frame_seq_ is a uint64_t.
pub record PlanningBridge (F : Type 0) : Type 0 where
  pub state : PlanningFrameState F
  pub frame_seq : ℕ
  pub published : List (PlanningFrame F)

-- What reaches the strand.
pub data PlanningEvent (F : Type 0) : Type 0 where
  trajectory lane : List (TrajectoryPoint F) → PlanningEvent F
  route : LaneletRoute F → PlanningEvent F
  velocity_reasons : List (VelocityReason F) → PlanningEvent F
  steering_reasons : List (SteeringReason F) → PlanningEvent F
  target_velocity velocity_limit : F → PlanningEvent F
  remaining : F → F → PlanningEvent F
  route_state : RouteState → PlanningEvent F
  scenario : Text → List Text → PlanningEvent F
  ticked : ℕ → PlanningEvent F

abbrev pub to_velocity_factor_status : VelocityStatus → VelocityFactorStatus
to_velocity_factor_status factor_approaching = velocity_approaching
to_velocity_factor_status factor_stopped = velocity_stopped
to_velocity_factor_status (other_velocity_status v) = velocity_unknown

abbrev pub to_steering_direction : Direction → SteeringDirection
to_steering_direction left = steering_left
to_steering_direction right = steering_right
to_steering_direction straight = steering_straight
to_steering_direction (other_direction v) = steering_unknown

abbrev pub to_steering_status : TurnStatus → SteeringStatus
to_steering_status turn_approaching = steering_status_approaching
to_steering_status turning = steering_status_turning
to_steering_status (other_turn_status v) = steering_status_unknown

abbrev pub to_route_state : RouteState → FrameRouteState
to_route_state unset = route_unset
to_route_state set = route_set
to_route_state arrived = route_arrived
to_route_state changing = route_changing
to_route_state (Messages.other v) = route_unknown

abbrev pub frame_primitive : LaneletPrimitive → LaneletPrimitive
frame_primitive q = record { id = q.id; primitive_type = q.primitive_type }

abbrev pub frame_segment : LaneletSegment → FrameSegment
frame_segment s = record {
  preferred = frame_primitive s.preferred_primitive;
  primitives = push_each frame_primitive s.primitives [];
}

module _ {F : Type 0} where
  abbrev pub frame_pose : LocalCoordinate F → LocalCoordinate F
  frame_pose q = record { x = q.x; y = q.y; z = q.z }

  abbrev pub frame_point : TrajectoryPoint F → TrajectoryPoint F
  frame_point q = record {
    position = frame_pose q.position;
    longitudinal_velocity_mps = q.longitudinal_velocity_mps;
  }

  abbrev pub velocity_factor : VelocityReason F → VelocityFactor F
  velocity_factor r = record {
    reason = r.behavior;
    pose = frame_pose r.position;
    status = to_velocity_factor_status r.status;
  }

  -- Of the two poses the first is read.
  abbrev pub steering_factor : SteeringReason F → SteeringFactor F
  steering_factor r = record {
    direction = to_steering_direction r.direction;
    status = to_steering_status r.status;
    reason = r.behavior;
    pose = frame_pose r.first_position;
  }

  unfoldable pub on_trajectory_point :
      PlanningFrameState F → List (TrajectoryPoint F) → PlanningFrameState F
  on_trajectory_point s msg = record s { trajectory_points = push_each frame_point msg [] }

  unfoldable pub on_trajectory_lane :
      PlanningFrameState F → List (TrajectoryPoint F) → PlanningFrameState F
  on_trajectory_lane s msg = record s { lane_trajectory = push_each frame_point msg [] }

  unfoldable pub on_full_route : PlanningFrameState F → LaneletRoute F → PlanningFrameState F
  on_full_route s msg = record s {
    full_route = record {
      start_pose = frame_pose msg.start_pose;
      goal_pose = frame_pose msg.goal_pose;
      segments = push_each frame_segment msg.segments [];
    };
  }

  unfoldable pub on_velocity_factor :
      PlanningFrameState F → List (VelocityReason F) → PlanningFrameState F
  on_velocity_factor s msg = record s { velocity_factors = push_each velocity_factor msg [] }

  unfoldable pub on_steering_factor :
      PlanningFrameState F → List (SteeringReason F) → PlanningFrameState F
  on_steering_factor s msg = record s { steering_factors = push_each steering_factor msg [] }

  unfoldable pub on_scenario_state : PlanningFrameState F → Text → List Text → PlanningFrameState F
  on_scenario_state s current activating = record s {
    scenario_state = record {
      current_scenario = current;
      active_scenarios = push_each (λ t. t) activating [];
    };
  }

  unfoldable pub build_frame : PlanningBridge F → ℕ → PlanningFrame F
  build_frame b now =
      let s = b.state in
      record {
        stamp_ns = now;
        seq = b.frame_seq;
        trajectory_points = s.trajectory_points;
        lane_trajectory = s.lane_trajectory;
        full_route = s.full_route;
        velocity_factors = s.velocity_factors;
        steering_factors = s.steering_factors;
        target_speed_mps = s.target_speed_mps;
        max_speed_mps = s.max_speed_mps;
        eta = s.eta;
        routing_state = s.routing_state;
        scenario_state = s.scenario_state;
      }

  unfoldable pub on_tick : PlanningBridge F → ℕ → PlanningBridge F
  unfolding build_frame
  on_tick b now = record b {
    frame_seq = (b.frame_seq + 1) % 18446744073709551616;
    published = build_frame b now ∷ b.published;
  }

module _ {F : Type 0} (p : Numbers F) where
  -- The state after a message; a tick leaves it.
  unfoldable pub on_message : PlanningFrameState F → PlanningEvent F → PlanningFrameState F
  on_message s (trajectory msg) = on_trajectory_point s msg
  on_message s (lane msg) = on_trajectory_lane s msg
  on_message s (route msg) = on_full_route s msg
  on_message s (velocity_reasons msg) = on_velocity_factor s msg
  on_message s (steering_reasons msg) = on_steering_factor s msg
  on_message s (target_velocity v) = record s { target_speed_mps = v }
  on_message s (velocity_limit v) = record s { max_speed_mps = v }
  on_message s (remaining distance time) = record s {
    eta = record { remaining_distance_m = p.to_float distance; remaining_time_s = p.to_float time };
  }
  on_message s (route_state r) = record s { routing_state = to_route_state r }
  on_message s (scenario current activating) = on_scenario_state s current activating
  on_message s (ticked now) = s

  unfoldable pub handle : PlanningBridge F → PlanningEvent F → PlanningBridge F
  handle b (ticked now) = on_tick b now
  handle b ev = record b { state = on_message b.state ev }

  unfoldable pub handle_all : PlanningBridge F → List (PlanningEvent F) → PlanningBridge F
  handle_all b [] = b
  handle_all b (ev ∷ rest) = handle_all (handle b ev) rest
