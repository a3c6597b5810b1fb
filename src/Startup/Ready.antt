-- ===== src/Startup/Ready.antt =====
-- The controller that the constructor makes, and what it then serves.
use autoware_agent.Base.{
  ℕ, ◌≡◌, refl, sym, ap, ◌∙◌, subst, Bool, true, false, List, ◌∷◌, Option, none, some, Text, err,
  ◌>>=◌, Returns, Returns->>=, if◌then◌else◌, runtime_error,
}
use autoware_agent.Geometry.{LaneInfo}
use autoware_agent.Lanelets.Geometry.{Lanelet, Platform, zero_of}
use autoware_agent.Lanelets.Nearest.{IsOrdered}
use autoware_agent.Lanelets.Map.{RoutingGraph, LaneletMap, construct, set_default_start, lanes}
use autoware_agent.Lanelets.Laws.{KnownLane, IsLoadedMap, SoundMap, lanes-LawfulLanes}
use autoware_agent.Trip.Laws.{Found}
use autoware_agent.Controller.{AutowareController}
use autoware_agent.Controller.Requests.{Request, serve_all}
use autoware_agent.Controller.Served.{ControllerInv, serve_all-Inv}
use autoware_agent.Startup.{
  Origin, StartEntry, MapConfig, MapProjectorInfo, Files, value_or, split_path, with_start, info_of,
  load, resolve_osm_path, constructed, new_map, started, new_controller,
}

module _ {F : Type 0} (p : Platform F) where
  -- The origin of the info is what the file says.
  abbrev OriginIs : F → F → MapProjectorInfo F → Type 0
  OriginIs lat lon info = (info.origin_lat ≡ lat) × (info.origin_lon ≡ lon)

  with_start-OriginIs :
      (lat lon : F) (sp : Option (StartEntry F)) (info : MapProjectorInfo F)
      → OriginIs lat lon info
      → OriginIs lat lon (with_start p sp info)
  with_start-OriginIs lat lon none info h = h
  with_start-OriginIs lat lon (some sp) info h = h

  load-OriginIs :
      (read : Option (MapConfig F)) (cfg : MapConfig F) (origin : Origin F)
      → read ≡ some cfg
      → cfg.map_config ≡ some origin
      → Returns
          (OriginIs (value_or origin.latitude (zero_of p)) (value_or origin.longitude (zero_of p)))
          (load p read)
  load-OriginIs read cfg origin same section =
      subst
        (λ r.
          Returns
            (OriginIs (value_or origin.latitude (zero_of p))
              (value_or origin.longitude (zero_of p)))
            (load p r))
        (sym same)
        (subst
          (λ o.
            Returns
              (OriginIs (value_or origin.latitude (zero_of p))
                (value_or origin.longitude (zero_of p)))
              (info_of p cfg o))
          (sym section) (with_start-OriginIs _ _ cfg.start_position _ (refl, refl)))

module _ {F : Type 0} (p : Platform F) (order : IsOrdered p) (first : Lanelet F)
    (others : List (Lanelet F)) (graph : Option (RoutingGraph F))
    (loaded : IsLoadedMap (first ∷ others) graph) where
  abbrev Ready : LaneletMap F → Type 0
  Ready = SoundMap p order (first ∷ others) graph loaded

  new_map-Ready :
      (f : Files F) (path : Text) (info : MapProjectorInfo F)
      → f.exists (resolve_osm_path p f path) ≡ true
      → f.load_map (resolve_osm_path p f path) info.origin_lat info.origin_lon
        ≡ (first ∷ others, graph)
      → Returns Ready (new_map p f path info)
  unfolding new_map construct
  new_map-Ready f path info there built =
      subst
        (λ (b : Bool). Returns Ready (
          if b
          then constructed p (
              construct p (f.load_map (resolve_osm_path p f path) info.origin_lat info.origin_lon).0
                (f.load_map (resolve_osm_path p f path) info.origin_lat info.origin_lon).1
                info.local_offset_x info.local_offset_y)
          else err runtime_error))
        (sym there)
        (subst
          (λ (r : List (Lanelet F) × Option (RoutingGraph F)).
            Returns Ready
              (constructed p (construct p r.0 r.1 info.local_offset_x info.local_offset_y)))
          (sym built) (record { same_layer = refl; same_graph = refl; cached_known = tt }))

  found-Ready :
      (r : Option (LaneInfo F) × LaneletMap F)
      → Found (KnownLane (first ∷ others)) Ready r
      → Ready r.1
  found-Ready (none, m) h = h.1
  found-Ready (some lane, m) h = h.1

  started-Ready :
      (b : Bool) (info : MapProjectorInfo F) (m : LaneletMap F)
      → Ready m
      → Returns Ready (started p b info m)
  unfolding set_default_start
  started-Ready false info m h = h
  started-Ready true info m h =
      Returns->>= (Found (KnownLane (first ∷ others)) Ready) Ready _ _
        ((lanes-LawfulLanes p order (first ∷ others) graph loaded).nearest m _ h)
        (λ r k.
          let s = found-Ready r k in
          record {
            same_layer = s.same_layer;
            same_graph = s.same_graph;
            cached_known = s.cached_known;
          })

  -- Let the comparison of doubles be irreflexive and transitive. If the projector file can be read
  -- and has its map_config section, the map file exists, and it is read as a map that has a
  -- lanelet and whose lanelets are keyed by their ids, then the constructor of AutowareController
  -- raises nothing, with or without a start position, and whatever requests the controller then
  -- serves, no exception is raised and its invariant holds.
  pub new_controller-serves :
      (f : Files F) (path : Text) (cfg : MapConfig F) (origin : Origin F)
      (history : List (ℕ × Request F))
      → f.config (split_path path).0 ≡ some cfg
      → cfg.map_config ≡ some origin
      → f.exists (resolve_osm_path p f (split_path path).1) ≡ true
      → f.load_map
          (resolve_osm_path p f (split_path path).1)
          (value_or origin.latitude (zero_of p))
          (value_or origin.longitude (zero_of p))
        ≡ (first ∷ others, graph)
      → Returns
          (ControllerInv
            (lanes p)
            (KnownLane (first ∷ others))
            Ready
            (lanes-LawfulLanes p order (first ∷ others) graph loaded))
          (new_controller p f path >>= λ a. serve_all (lanes p) a history)
  unfolding new_controller
  new_controller-serves f path cfg origin history read section there built =
      Returns->>= Inv Inv _ _
        (Returns->>= (OriginIs p _ _) Inv _ _ (load-OriginIs p _ cfg origin read section)
          (λ info at.
            Returns->>= Ready Inv _ _
              (new_map-Ready f (split_path path).1 info there (
                ap (λ x. f.load_map (resolve_osm_path p f (split_path path).1) x info.origin_lon)
                  at.0
                ∙ ap (f.load_map (resolve_osm_path p f (split_path path).1) _) at.1
                ∙ built))
              (λ m h.
                Returns->>= Ready Inv _ _ (started-Ready info.has_start info m h)
                  (λ m' h'. (h', tt)))))
        (λ a h.
          serve_all-Inv (lanes p) (KnownLane (first ∷ others)) Ready
            (lanes-LawfulLanes p order (first ∷ others) graph loaded) a history h)
    where
      Inv : AutowareController F (LaneletMap F) → Type 0
      Inv =
          ControllerInv (lanes p) (KnownLane (first ∷ others)) Ready
            (lanes-LawfulLanes p order (first ∷ others) graph loaded)
