-- ===== src/Examples/StartupWitnesses.antt =====
-- The theorem on the start of the controller at work on the small map.
use autoware_agent.Base.{ℕ, refl, true, List, [], ◌∷◌, ◌++◌, none, some, codes, Returns, ◌>>=◌}
use autoware_agent.Lanelets.Map.{lanes}
use autoware_agent.Lanelets.Laws.{KnownLane, SoundMap, lanes-LawfulLanes}
use autoware_agent.Controller.Requests.{Request, initializes, start_trips, ticks, serve_all}
use autoware_agent.Controller.Served.{ControllerInv}
use autoware_agent.Startup.{Files, MapConfig, Origin, new_controller}
use autoware_agent.Startup.Ready.{new_controller-serves}
use autoware_agent.Examples.{platform, order, layer, north, south, graph, loaded}

abbrev origin : Origin ℕ
origin = record { latitude = some 36; longitude = none; elevation = none }

abbrev config : MapConfig ℕ
config = record {
  projector_type = none;
  map_config = some origin;
  local_offset = some (record { x = some 4; y = none });
  start_position = some (record { name = none; latitude = some 35; longitude = some 140 });
}

abbrev files : Files ℕ
files = record {
  is_absolute = λ path. true;
  exists = λ path. true;
  join = λ base name. base ++ name;
  bases = codes "/maps/" ∷ [];
  config = λ dir. some config;
  load_map = λ path lat lon. (layer, some graph);
}

abbrev morning : List (ℕ × Request ℕ)
morning = (10, initializes) ∷ (20, ticks none true true) ∷ (30, start_trips (some 1)) ∷ []

new_controller-serves_example :
    Returns
      (ControllerInv
        (lanes platform)
        (KnownLane layer)
        (SoundMap platform order layer (some graph) loaded)
        (lanes-LawfulLanes platform order layer (some graph) loaded))
      (new_controller platform files (codes "/maps/town.osm") >>= λ a.
        serve_all (lanes platform) a morning)
new_controller-serves_example =
    new_controller-serves platform order north (south ∷ []) (some graph) loaded files
      (codes "/maps/town.osm") config origin morning refl refl refl refl
