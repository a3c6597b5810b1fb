-- ===== src/Startup.antt =====
-- What the constructor of AutowareController does before `initialize`: the paths, the projector
-- file (MapProjectorInfo.cc), and the constructor of LaneletMap with resolveOsmPath.
pub mod Ready
use autoware_agent.Base.{
  ℕ, ◌-◌, Bool, true, false, ◌&&◌, List, [], ◌∷◌, ◌++◌, Option, none, some, Text, codes, length,
  leb, ◌==◌, if◌then◌else◌, Result, ok, err, ◌>>=◌, runtime_error,
}
use autoware_agent.Geometry.{GpsCoordinate}
use autoware_agent.Lanelets.Geometry.{Lanelet, Platform, text_eq, zero_of}
use autoware_agent.Lanelets.Map.{RoutingGraph, LaneletMap, construct, set_default_start}
use autoware_agent.Controller.{AutowareController}

-- What yaml-cpp reads in map_config.yaml: a key that is missing or has no value of its type is none.
pub record Origin (F : Type 0) : Type 0 where
  pub latitude : Option F
  pub longitude : Option F
  pub elevation : Option F

pub record Offset (F : Type 0) : Type 0 where
  pub x : Option F
  pub y : Option F

pub record StartEntry (F : Type 0) : Type 0 where
  pub name : Option Text
  pub latitude : Option F
  pub longitude : Option F

pub record MapConfig (F : Type 0) : Type 0 where
  pub projector_type : Option Text
  pub map_config : Option (Origin F)
  pub local_offset : Option (Offset F)
  pub start_position : Option (StartEntry F)

pub record MapProjectorInfo (F : Type 0) : Type 0 where
  pub projector_type : Text
  pub origin_lat : F
  pub origin_lon : F
  pub elevation : F
  pub local_offset_x : F
  pub local_offset_y : F
  pub has_start : Bool
  pub start_name : Text
  pub start_lat : F
  pub start_lon : F

-- The file system and the libraries: `join` is operator/ of paths, `bases` are the directories of
-- Config.h, `load_map` gives the lanelets and the routing graph that are built for an origin.
pub record Files (F : Type 0) : Type 0 where
  pub is_absolute : Text → Bool
  pub exists : Text → Bool
  pub join : Text → Text → Text
  pub bases : List Text
  pub config : Text → Option (MapConfig F)
  pub load_map : Text → F → F → List (Lanelet F) × Option (RoutingGraph F)

-- as<T>(fallback)
abbrev pub value_or {ℓ} : {A : Type ℓ} → Option A → A → A
value_or none fallback = fallback
value_or (some a) fallback = a

abbrev drop : ℕ → Text → Text
drop n [] = []
drop n (c ∷ cs) = if n == 0 then c ∷ cs else drop (n - 1) cs

-- substr(0, find_last_of('/')), unless there is no slash
abbrev pub before_last_slash : Text → Option Text
before_last_slash [] = none
before_last_slash (c ∷ cs) = elim (before_last_slash cs) as (λ _. Option Text) [
  | some dir ↦ some (c ∷ dir)
  | none ↦ if c == 47 then some [] else none
]

abbrev pub is_osm : Text → Bool
is_osm path = leb 4 (length path) && text_eq (drop (length path - 4) path) (codes ".osm")

-- dir_path and osm_path
unfoldable pub split_path : Text → Text × Text
split_path path =
    if is_osm path
    then (value_or (before_last_slash path) (codes "."), path)
    else (path, path ++ codes "/lanelet2_map.osm")

module _ {F : Type 0} (p : Platform F) where
  abbrev pub offset_x_of : Option (Offset F) → F
  offset_x_of none = zero_of p
  offset_x_of (some o) = value_or o.x (zero_of p)

  abbrev pub offset_y_of : Option (Offset F) → F
  offset_y_of none = zero_of p
  offset_y_of (some o) = value_or o.y (zero_of p)

  -- The part of the start position, over the info without it.
  abbrev pub with_start : Option (StartEntry F) → MapProjectorInfo F → MapProjectorInfo F
  with_start none info = info
  with_start (some sp) info = record info {
    has_start = true;
    start_name = value_or sp.name (codes "default");
    start_lat = value_or sp.latitude info.origin_lat;
    start_lon = value_or sp.longitude info.origin_lon;
  }

  abbrev pub info_of : MapConfig F → Option (Origin F) → Result (MapProjectorInfo F)
  info_of cfg none = err runtime_error
  info_of cfg (some origin) = ok (
      with_start cfg.start_position (record {
        projector_type = value_or cfg.projector_type (codes "MGRS");
        origin_lat = value_or origin.latitude (zero_of p);
        origin_lon = value_or origin.longitude (zero_of p);
        elevation = value_or origin.elevation (zero_of p);
        local_offset_x = offset_x_of cfg.local_offset;
        local_offset_y = offset_y_of cfg.local_offset;
        has_start = false;
        start_name = [];
        start_lat = zero_of p;
        start_lon = zero_of p;
      }))

  -- MapProjectorInfo::load; none is a file that cannot be read.
  abbrev pub load : Option (MapConfig F) → Result (MapProjectorInfo F)
  load none = err runtime_error
  load (some cfg) = info_of cfg cfg.map_config

  abbrev pub first_existing : Files F → List Text → Text → Text
  first_existing f [] filename = filename
  first_existing f (base ∷ rest) filename =
      let later = first_existing f rest filename in
      if f.exists (f.join base filename) then f.join base filename else later

  unfoldable pub resolve_osm_path : Files F → Text → Text
  resolve_osm_path f filename =
      if f.is_absolute filename && f.exists filename
      then filename
      else first_existing f f.bases filename

  abbrev pub constructed : Option (LaneletMap F) → Result (LaneletMap F)
  constructed none = err runtime_error
  constructed (some m) = ok m

  -- The constructor of LaneletMap.
  unfoldable pub new_map : Files F → Text → MapProjectorInfo F → Result (LaneletMap F)
  new_map f osm_path info =
      let full_path = resolve_osm_path f osm_path in
      let loaded = f.load_map full_path info.origin_lat info.origin_lon in
      if f.exists full_path
      then constructed (construct p loaded.0 loaded.1 info.local_offset_x info.local_offset_y)
      else err runtime_error

  abbrev pub started : Bool → MapProjectorInfo F → LaneletMap F → Result (LaneletMap F)
  started false info m = ok m
  started true info m =
      set_default_start p m info.start_name
        (record { latitude = info.start_lat; longitude = info.start_lon })

  -- The constructor of AutowareController.
  unfoldable pub new_controller : Files F → Text → Result (AutowareController F (LaneletMap F))
  new_controller f map_path =
      let paths = split_path map_path in
      load (f.config paths.0) >>= λ info. new_map f paths.1 info >>= λ m.
      started info.has_start info m >>= λ m'. ok (record {
        lanelet_map = m';
        trip_ctrl = none;
        trip_state_callback = false;
        arrival_callback = false;
        replies = [];
      })
