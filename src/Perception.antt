-- ===== src/Perception.antt =====
-- PerceptionBridge.cc: the state that the ROS messages fill, and the frames that the timer sends.
pub mod Objects
pub mod Lights
pub mod Frames
use autoware_agent.Base.{
  ℕ, ◌+◌, ◌%◌, Bool, not, ◌&&◌, List, [], ◌∷◌, ◌++◌, ◌==◌, if◌then◌else◌, length, ℤ, pos, negsuc,
  ltb,
}
use autoware_agent.Geometry.{Floats, LocalCoordinate}

-- What the bridge takes from outside: doubles, the rounding to float, and std::isfinite.
pub record Numbers (F : Type 0) : Type 0 where
  pub floats : Floats F
  pub open floats use *
  pub to_float : F → F
  pub is_finite : F → Bool

-- ObjectClassification and TrafficLightElement: the constants that the code names.
pub data Label : Type 0 where
  label_car label_truck label_bus label_trailer label_motorcycle label_bicycle : Label
  label_pedestrian label_animal : Label
  other_label : ℕ → Label

pub data LightColor : Type 0 where
  color_red color_amber color_green : LightColor
  other_color : ℕ → LightColor

pub data ObjectClass : Type 0 where
  car truck bus trailer motorcycle bicycle pedestrian animal unknown : ObjectClass

pub data TrafficLightColor : Type 0 where
  light_red light_amber light_green light_unknown : TrafficLightColor

pub data Cell : Type 0 where
  cell_unknown cell_free cell_occupied : Cell

pub record Quaternion (F : Type 0) : Type 0 where
  pub x : F
  pub y : F
  pub z : F
  pub w : F

-- PredictedObject
pub record DetectedObject (F : Type 0) : Type 0 where
  pub classification : List Label
  pub existence_probability : F
  pub dimensions : LocalCoordinate F
  pub velocity_x : F
  pub velocity_y : F
  pub position : LocalCoordinate F
  pub orientation : Quaternion F

pub record SurroundingObject (F : Type 0) : Type 0 where
  pub id : ℕ
  pub object_class : ObjectClass
  pub box_length : F
  pub box_height : F
  pub box_width : F
  pub vx_object : F
  pub vy_object : F
  pub pose : LocalCoordinate F
  pub heading : F

-- TrafficLightElement and TrafficLightGroup
pub record LightElement (F : Type 0) : Type 0 where
  pub color : LightColor
  pub confidence : F

pub record LightGroup (F : Type 0) : Type 0 where
  pub traffic_light_group_id : ℕ
  pub elements : List (LightElement F)

pub record TrafficLight (F : Type 0) : Type 0 where
  pub traffic_id : ℕ
  pub confidence : F
  pub traffic_light_color : TrafficLightColor

pub record GridInfo (F : Type 0) : Type 0 where
  pub resolution : F
  pub width : ℕ
  pub height : ℕ
  pub origin_x : F
  pub origin_y : F

pub record OccupancyGrid (F : Type 0) : Type 0 where
  pub info : GridInfo F
  pub grid_data : List Cell

pub record PerceptionFrameState (F : Type 0) : Type 0 where
  pub surrounding_objects : List (SurroundingObject F)
  pub points_cloud : List (LocalCoordinate F)
  pub occupancy_grid : OccupancyGrid F
  pub traffic_lights : List (TrafficLight F)

abbrev pub to_object_class : Label → ObjectClass
to_object_class label_car = car
to_object_class label_truck = truck
to_object_class label_bus = bus
to_object_class label_trailer = trailer
to_object_class label_motorcycle = motorcycle
to_object_class label_bicycle = bicycle
to_object_class label_pedestrian = pedestrian
to_object_class label_animal = animal
to_object_class (other_label v) = unknown

abbrev pub to_traffic_light_color : LightColor → TrafficLightColor
to_traffic_light_color color_red = light_red
to_traffic_light_color color_amber = light_amber
to_traffic_light_color color_green = light_green
to_traffic_light_color (other_color v) = light_unknown

-- -1 is unknown, what is below 50 is free.
abbrev pub to_cell : ℤ → Cell
to_cell (pos n) = if ltb n 50 then cell_free else cell_occupied
to_cell (negsuc n) = if n == 0 then cell_unknown else cell_free

abbrev pub to_cells : List ℤ → List Cell
to_cells [] = []
to_cells (c ∷ cs) = to_cell c ∷ to_cells cs

module _ {F : Type 0} (p : Numbers F) where
  -- The object of the frame; the id is a uint32_t.
  unfoldable pub surrounding_object : DetectedObject F → Label → ℕ → SurroundingObject F
  surrounding_object o label n =
      let h = o.orientation in
      let two = p.literal 2 0 in
      record {
        id = n % 4294967296;
        object_class = to_object_class label;
        box_length = p.to_float o.dimensions.x;
        box_height = p.to_float o.dimensions.z;
        box_width = p.to_float o.dimensions.y;
        vx_object = p.to_float o.velocity_x;
        vy_object = p.to_float o.velocity_y;
        pose = record {
          x = p.to_float o.position.x;
          y = p.to_float o.position.y;
          z = p.to_float o.position.z;
        };
        heading = p.to_float (
            p.atan2 (p.mul two (p.add (p.mul h.w h.z) (p.mul h.x h.y)))
              (p.sub (p.literal 1 0) (p.mul two (p.add (p.mul h.y h.y) (p.mul h.z h.z)))));
      }

  -- One round of the loop; the next id is the number of the objects so far.
  unfoldable pub add_labelled :
      DetectedObject F → List Label → List (SurroundingObject F) → List (SurroundingObject F)
  add_labelled o [] objects = objects
  add_labelled o (label ∷ labels) objects =
      if p.lt o.existence_probability (p.literal 5 1)
      then objects
      else objects ++ surrounding_object o label (length objects) ∷ []

  unfoldable pub add_objects :
      List (DetectedObject F) → List (SurroundingObject F) → List (SurroundingObject F)
  add_objects [] objects = objects
  add_objects (o ∷ os) objects = add_objects os (add_labelled o o.classification objects)

  unfoldable pub on_surrounding_object :
      PerceptionFrameState F → List (DetectedObject F) → PerceptionFrameState F
  on_surrounding_object s msg = record s { surrounding_objects = add_objects msg [] }

  -- The points of the downsampled cloud that are finite.
  unfoldable pub finite_points :
      List (LocalCoordinate F) → List (LocalCoordinate F) → List (LocalCoordinate F)
  finite_points [] points = points
  finite_points (q ∷ qs) points =
      finite_points qs (
        if p.is_finite q.x && (p.is_finite q.y && p.is_finite q.z)
        then points ++ q ∷ []
        else points)

  -- `downsampled` is what the voxel grid of pcl leaves of the message.
  unfoldable pub on_point_cloud :
      PerceptionFrameState F → List (LocalCoordinate F) → PerceptionFrameState F
  on_point_cloud s downsampled = record s { points_cloud = finite_points downsampled [] }

  unfoldable pub on_occupancy_grid :
      PerceptionFrameState F → GridInfo F → List ℤ → PerceptionFrameState F
  on_occupancy_grid s info cells = record s {
    occupancy_grid = record {
      info = record info {
        origin_x = p.to_float info.origin_x;
        origin_y = p.to_float info.origin_y;
      };
      grid_data = to_cells cells;
    };
  }

  -- std::max_element: the first of the largest.
  unfoldable pub max_element : LightElement F → List (LightElement F) → LightElement F
  max_element best [] = best
  max_element best (e ∷ es) = max_element (if p.lt best.confidence e.confidence then e else best) es

  unfoldable pub light_of : ℕ → LightElement F → TrafficLight F
  light_of id e = record {
    traffic_id = id;
    confidence = e.confidence;
    traffic_light_color = to_traffic_light_color e.color;
  }

  unfoldable pub add_light :
      ℕ → List (LightElement F) → List (TrafficLight F) → List (TrafficLight F)
  add_light id [] lights = lights
  add_light id (e ∷ es) lights = lights ++ light_of id (max_element e es) ∷ []

  unfoldable pub add_lights : List (LightGroup F) → List (TrafficLight F) → List (TrafficLight F)
  add_lights [] lights = lights
  add_lights (g ∷ gs) lights = add_lights gs (add_light g.traffic_light_group_id g.elements lights)

  unfoldable pub on_traffic_signal :
      PerceptionFrameState F → List (LightGroup F) → PerceptionFrameState F
  on_traffic_signal s msg = record s { traffic_lights = add_lights msg [] }
