-- ===== src/TripFrames.antt =====
-- TripBridge.cc: the trip frame, from the messages of Autoware and the status of the trip.
pub mod Alive
use autoware_agent.Base.{
  ◌==◌, if◌then◌else◌, ℕ, ◌+◌, ◌-◌, ◌%◌, Bool, true, false, List, [], ◌∷◌, ◌++◌, Text, codes, ltb,
}
use autoware_agent.Messages.{LocState, uninitialized, initializing, initialized, other}
use autoware_agent.Trip.State.{
  TripState, idle, publishing_initial_pose, waiting_localisation, query_publishing_goal,
  query_waiting_route, engaging, running, completed, failed, TripStatus,
}

-- OperationModeState and MrmState: the constants that the code names.
pub data Mode : Type 0 where
  mode_stop mode_autonomous mode_local mode_remote : Mode
  other_mode : ℕ → Mode

pub data Mrm : Type 0 where
  mrm_normal mrm_unknown mrm_operating mrm_succeeded mrm_failed : Mrm
  other_mrm : ℕ → Mrm

pub data Behavior : Type 0 where
  does_emergency_stop does_pull_over : Behavior
  other_behavior : ℕ → Behavior

pub data LocalizationState : Type 0 where
  localization_unknown localization_uninitialized localization_initializing : LocalizationState
  localization_initialized : LocalizationState

pub data OperationMode : Type 0 where
  operation_unknown operation_stop operation_autonomous operation_local : OperationMode
  operation_remote : OperationMode

pub data DiagLevel : Type 0 where
  diag_ok diag_warn diag_error diag_stale : DiagLevel

pub data MrmBehavior : Type 0 where
  mrm_none mrm_emergency_stop mrm_pull_over : MrmBehavior

-- vehicle_frame::TripState
pub data FrameTripState : Type 0 where
  trip_idle trip_publishing_initial_pose trip_waiting_localisation : FrameTripState
  trip_publishing_goal trip_waiting_route trip_engaging trip_running : FrameTripState
  trip_completed trip_failed : FrameTripState

pub record MrmFrame : Type 0 where
  pub is_active : Bool
  pub behavior : MrmBehavior
  pub description : Text

-- DiagNodeStatus
pub record Diag : Type 0 where
  pub hardware_id : Text
  pub level : ℕ
  pub message : Text

pub record ComponentHealth : Type 0 where
  pub name : Text
  pub level : DiagLevel
  pub message : Text

pub record TripFrameState (F : Type 0) : Type 0 where
  pub localization_state : LocalizationState
  pub operation_mode : OperationMode
  pub mrm_state : MrmFrame
  pub system_alive : Bool
  pub components : List ComponentHealth
  pub trip_state : FrameTripState
  pub start_lanelet_id : Text
  pub start_x : F
  pub start_y : F
  pub start_z : F
  pub goal_lanelet_id : Text
  pub goal_x : F
  pub goal_y : F
  pub goal_z : F
  pub goal_distance_m : F

pub record TripFrame (F : Type 0) : Type 0 where
  pub stamp_ns : ℕ
  pub seq : ℕ
  pub state : TripFrameState F

-- Times are nanoseconds; `published` is the history of the frames, newest first.
pub record TripBridge (F : Type 0) : Type 0 where
  pub state : TripFrameState F
  pub frame_seq : ℕ
  pub last_heartbeat_time : ℕ
  pub published : List (TripFrame F)

abbrev pub to_localization_state : LocState → LocalizationState
to_localization_state uninitialized = localization_uninitialized
to_localization_state initializing = localization_initializing
to_localization_state initialized = localization_initialized
to_localization_state (other v) = localization_unknown

abbrev pub to_operation_mode : Mode → OperationMode
to_operation_mode mode_stop = operation_stop
to_operation_mode mode_autonomous = operation_autonomous
to_operation_mode mode_local = operation_local
to_operation_mode mode_remote = operation_remote
to_operation_mode (other_mode v) = operation_unknown

abbrev pub to_diag_level : ℕ → DiagLevel
to_diag_level v =
    if v == 0
    then diag_ok
    else if v == 1
    then diag_warn
    else if v == 2
    then diag_error
    else diag_stale

abbrev pub to_mrm_behavior : Behavior → MrmBehavior
to_mrm_behavior does_emergency_stop = mrm_emergency_stop
to_mrm_behavior does_pull_over = mrm_pull_over
to_mrm_behavior (other_behavior v) = mrm_none

abbrev pub to_trip_state : TripState → FrameTripState
to_trip_state idle = trip_idle
to_trip_state publishing_initial_pose = trip_publishing_initial_pose
to_trip_state waiting_localisation = trip_waiting_localisation
to_trip_state query_publishing_goal = trip_publishing_goal
to_trip_state query_waiting_route = trip_waiting_route
to_trip_state engaging = trip_engaging
to_trip_state running = trip_running
to_trip_state completed = trip_completed
to_trip_state failed = trip_failed
to_trip_state _ = trip_idle

-- `state != NORMAL && state != UNKNOWN`
abbrev pub mrm_is_active : Mrm → Bool
mrm_is_active mrm_normal = false
mrm_is_active mrm_unknown = false
mrm_is_active _ = true

abbrev pub mrm_description : Mrm → Text
mrm_description mrm_normal = codes "Normal"
mrm_description mrm_operating = codes "MRM Operating"
mrm_description mrm_succeeded = codes "MRM Succeeded"
mrm_description mrm_failed = codes "MRM Failed"
mrm_description _ = codes "Unknown"

-- One round of the loop; a diagnosis without a hardware id is skipped.
abbrev pub add_component : Text → Diag → List ComponentHealth → List ComponentHealth
add_component [] d components = components
add_component (c ∷ cs) d components =
    components
    ++ record { name = d.hardware_id; level = to_diag_level d.level; message = d.message } ∷ []

abbrev pub add_components : List Diag → List ComponentHealth → List ComponentHealth
add_components [] components = components
add_components (d ∷ ds) components = add_components ds (add_component d.hardware_id d components)

module _ {F : Type 0} where
  unfoldable pub on_localization_state : TripBridge F → LocState → TripBridge F
  on_localization_state b msg = record b {
    state = record (b.state) { localization_state = to_localization_state msg };
  }

  unfoldable pub on_operation_mode : TripBridge F → Mode → TripBridge F
  on_operation_mode b msg = record b {
    state = record (b.state) { operation_mode = to_operation_mode msg };
  }

  unfoldable pub on_mrm_state : TripBridge F → Mrm → Behavior → TripBridge F
  on_mrm_state b state behavior = record b {
    state = record (b.state) {
      mrm_state = record {
        is_active = mrm_is_active state;
        behavior = to_mrm_behavior behavior;
        description = mrm_description state;
      };
    };
  }

  unfoldable pub on_heartbeat : TripBridge F → ℕ → TripBridge F
  on_heartbeat b now = record b {
    last_heartbeat_time = now;
    state = record (b.state) { system_alive = true };
  }

  unfoldable pub on_diag_state : TripBridge F → List Diag → TripBridge F
  on_diag_state b diags = record b {
    state = record (b.state) { components = add_components diags [] };
  }

  unfoldable pub build_frame : TripBridge F → ℕ → TripFrame F
  build_frame b now = record { stamp_ns = now; seq = b.frame_seq; state = b.state }

  -- What a tick writes to the state, from the clock and getTripStatusSync.
  unfoldable pub refresh : TripBridge F → ℕ → TripStatus F → TripFrameState F
  refresh b now status = record (b.state) {
    system_alive = ltb (now - b.last_heartbeat_time) 1000000000;
    trip_state = to_trip_state status.state;
    start_lanelet_id = status.start_lanelet_id;
    start_x = status.start_x;
    start_y = status.start_y;
    start_z = status.start_z;
    goal_lanelet_id = status.goal_lanelet_id;
    goal_x = status.goal_x;
    goal_y = status.goal_y;
    goal_z = status.goal_z;
    goal_distance_m = status.goal_distance_m;
  }

  unfoldable pub on_tick : TripBridge F → ℕ → TripStatus F → TripBridge F
  unfolding build_frame refresh
  on_tick b now status =
      let b' = record b { state = refresh b now status } in
      record b' {
        frame_seq = (b'.frame_seq + 1) % 18446744073709551616;
        published = build_frame b' now ∷ b'.published;
      }
