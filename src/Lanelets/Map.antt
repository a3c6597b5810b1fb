-- ===== src/Lanelets/Map.antt =====
-- The lookups of LaneletMap.cc: findNearestLane, getLaneById, findNearestConnectedLane and the
-- default start. The cache is the `mutable` member that the const lookups extend.
use autoware_agent.Base.{
  ℕ, Bool, true, false, ◌||◌, not, List, [], ◌∷◌, ◌++◌, Option, none, some, Text, length,
  if◌then◌else◌, ℤ, eq_ℤ, Result, ok, err, ◌>>=◌, out_of_bounds,
}
use autoware_agent.Geometry.{GpsCoordinate, LocalCoordinate, LaneInfo, FixedStartPosition, Lanes}
use autoware_agent.Lanelets.Geometry.{
  Lanelet, Platform, is_drivable, midpoint, get_lanelet, exists_lanelet, zero_of, gps_to_local,
  local_to_gps, distance, make_lane_info,
}

-- lanelet::routing::RoutingGraph: the lanelets that are reachable from one within a cost.
pub record RoutingGraph (F : Type 0) : Type 0 where
  pub reachable_set : Lanelet F → F → List (Lanelet F)

-- `layer` is map_->laneletLayer, which a constructed object always has. `capacity` is what
-- cache_.reserve has set aside: beyond it the entries move in memory.
pub record LaneletMap (F : Type 0) : Type 0 where
  pub layer : List (Lanelet F)
  pub routing_graph : Option (RoutingGraph F)
  pub offset_x : F
  pub offset_y : F
  pub cache : List (LaneInfo F)
  pub capacity : ℕ
  pub default_start : Option (FixedStartPosition F)

module _ {F : Type 0} where
  unfoldable pub is_loaded : LaneletMap F → Bool
  is_loaded m = elim (m.layer) [ [] ↦ false | l ∷ ls ↦ true ]

  unfoldable pub get_lanelet_count : LaneletMap F → ℕ
  get_lanelet_count m = length m.layer

  unfoldable pub cached_lane : List (LaneInfo F) → ℤ → Option (LaneInfo F)
  cached_lane [] i = none
  cached_lane (l ∷ ls) i = if eq_ℤ l.lane_id i then some l else cached_lane ls i

  -- cache_.emplace_back
  unfoldable pub remember : LaneletMap F → LaneInfo F → LaneletMap F
  remember m info = record m { cache = m.cache ++ info ∷ [] }

  unfoldable pub get_default_start : LaneletMap F → Option (FixedStartPosition F)
  get_default_start m = m.default_start

module _ {F : Type 0} (p : Platform F) where
  -- The constructor, once the file is read; a map without lanelets is refused.
  unfoldable pub construct :
      List (Lanelet F) → Option (RoutingGraph F) → F → F → Option (LaneletMap F)
  construct [] graph offset_x offset_y = none
  construct (l ∷ ls) graph offset_x offset_y = some (record {
    layer = l ∷ ls;
    routing_graph = graph;
    offset_x = offset_x;
    offset_y = offset_y;
    cache = [];
    capacity = length (l ∷ ls);
    default_start = none;
  })

  -- The distance from the lane's representative point to the target.
  unfoldable pub lane_distance : F → F → LocalCoordinate F → LocalCoordinate F → F
  lane_distance offset_x offset_y target mid =
      distance p (p.add offset_x mid.x) (p.add offset_y mid.y) target.x target.y

  -- One round of the search loop: (min_dist, best_id).
  unfoldable pub consider : F → F → LocalCoordinate F → Lanelet F → F × ℤ → F × ℤ
  consider offset_x offset_y target ll (min_dist, best_id) =
      if is_drivable ll.subtype
      then elim (midpoint ll.centerline) as (λ _. F × ℤ) [
        | none ↦ (min_dist, best_id)
        | some mid ↦
            let dist = lane_distance offset_x offset_y target mid in
            if p.lt dist min_dist then (dist, ll.id) else (min_dist, best_id)
      ]
      else (min_dist, best_id)

  unfoldable pub nearest : F → F → LocalCoordinate F → List (Lanelet F) → F × ℤ → F × ℤ
  nearest offset_x offset_y target [] best = best
  nearest offset_x offset_y target (ll ∷ lls) best =
      nearest offset_x offset_y target lls (consider offset_x offset_y target ll best)

  unfoldable pub build_lane :
      LaneletMap F → GpsCoordinate F → ℤ → Result (Option (LaneInfo F) × LaneletMap F)
  build_lane m gps best_id = do
    ll ← get_lanelet m.layer best_id
    info ← make_lane_info p m.layer ll gps
    ok (some info, remember m info)

  -- The end of both searches: the cached entry, or a new one that is cached.
  unfoldable pub cached_or :
      LaneletMap F
      → GpsCoordinate F
      → ℤ
      → Option (LaneInfo F)
      → Result (Option (LaneInfo F) × LaneletMap F)
  cached_or m gps best_id (some info) = ok (some info, m)
  cached_or m gps best_id none = build_lane m gps best_id

  unfoldable pub resolve :
      LaneletMap F → GpsCoordinate F → ℤ → Result (Option (LaneInfo F) × LaneletMap F)
  resolve m gps best_id =
      if eq_ℤ best_id p.invalid_id
      then ok (none, m)
      else cached_or m gps best_id (cached_lane m.cache best_id)

  unfoldable pub find_nearest_lane :
      LaneletMap F → GpsCoordinate F → Result (Option (LaneInfo F) × LaneletMap F)
  find_nearest_lane m gps =
      if not (is_loaded m)
      then ok (none, m)
      else resolve m gps
          (nearest m.offset_x m.offset_y (gps_to_local p gps) m.layer
            (p.max_double, p.invalid_id)).1

  -- The lanelet is in the layer and not cached. A centreline with no point has no midpoint: the
  -- read cl[0] is out of bounds.
  unfoldable pub build_by_id :
      LaneletMap F
      → Lanelet F
      → Option (LocalCoordinate F)
      → Result (Option (LaneInfo F) × LaneletMap F)
  build_by_id m ll none = err out_of_bounds
  build_by_id m ll (some mid) = do
    info ← make_lane_info p m.layer ll (local_to_gps p mid)
    ok (some info, remember m info)

  unfoldable pub get_uncached :
      LaneletMap F → ℤ → Option (LaneInfo F) → Result (Option (LaneInfo F) × LaneletMap F)
  get_uncached m lane_id (some info) = ok (some info, m)
  get_uncached m lane_id none =
      if not (exists_lanelet m.layer lane_id)
      then ok (none, m)
      else do ll ← get_lanelet m.layer lane_id; build_by_id m ll (midpoint ll.centerline)

  unfoldable pub get_lane_by_id : LaneletMap F → ℤ → Result (Option (LaneInfo F) × LaneletMap F)
  unfolding get_uncached
  get_lane_by_id m lane_id = get_uncached m lane_id (cached_lane m.cache lane_id)

  unfoldable pub contains_id : List (Lanelet F) → ℤ → Bool
  contains_id [] i = false
  contains_id (l ∷ ls) i = eq_ℤ l.id i || contains_id ls i

  -- The lanelets whose reachable set holds the reference.
  unfoldable pub predecessors_of : RoutingGraph F → ℤ → List (Lanelet F) → List (Lanelet F)
  predecessors_of g i [] = []
  predecessors_of g i (ll ∷ lls) =
      let rest = predecessors_of g i lls in
      if contains_id (g.reachable_set ll (p.literal 8000 0)) i then ll ∷ rest else rest

  unfoldable pub connected_candidates :
      LaneletMap F → RoutingGraph F → Lanelet F → ℤ → Bool → List (Lanelet F)
  connected_candidates m g reference_ll reference_id true =
      g.reachable_set reference_ll (p.literal 8000 0)
  connected_candidates m g reference_ll reference_id false = predecessors_of g reference_id m.layer

  unfoldable pub find_connected :
      LaneletMap F
      → GpsCoordinate F
      → ℤ
      → Bool
      → Option (RoutingGraph F)
      → Result (Option (LaneInfo F) × LaneletMap F)
  find_connected m gps reference_id must_be_reachable_from_ref none = ok (none, m)
  find_connected m gps reference_id must_be_reachable_from_ref (some g) =
      if not (is_loaded m) then ok (none, m) else do
        reference_ll ← get_lanelet m.layer reference_id
        resolve m gps
            (nearest m.offset_x m.offset_y (gps_to_local p gps)
              (connected_candidates m g reference_ll reference_id must_be_reachable_from_ref)
              (p.max_double, p.invalid_id)).1

  unfoldable pub find_nearest_connected_lane :
      LaneletMap F → GpsCoordinate F → ℤ → Bool → Result (Option (LaneInfo F) × LaneletMap F)
  unfolding find_connected
  find_nearest_connected_lane m gps reference_id must_be_reachable_from_ref =
      find_connected m gps reference_id must_be_reachable_from_ref m.routing_graph

  unfoldable pub start_position :
      Text → GpsCoordinate F → Option (LaneInfo F) → FixedStartPosition F
  start_position name gps (some lane) = record {
    name = name;
    gps = gps;
    local = lane.local;
    orientation = lane.orientation;
  }
  start_position name gps none = record {
    name = name;
    gps = gps;
    local = gps_to_local p gps;
    orientation = record {
      x = zero_of p;
      y = zero_of p;
      z = zero_of p;
      w = zero_of p;
      yaw_degrees = zero_of p;
    };
  }

  unfoldable pub set_default_start : LaneletMap F → Text → GpsCoordinate F → Result (LaneletMap F)
  unfolding start_position
  set_default_start m name gps = do
    found ← find_nearest_lane m gps
    ok (record (found.1) { default_start = some (start_position name gps found.0) })

  -- The interface that the trip controller uses.
  abbrev pub lanes : Lanes F (LaneletMap F)
  lanes = record {
    floats = p.floats;
    gps_to_local = gps_to_local p;
    local_to_gps = local_to_gps p;
    find_nearest_lane = find_nearest_lane;
    get_lane_by_id = get_lane_by_id;
    find_nearest_connected_lane = find_nearest_connected_lane;
    get_default_start = get_default_start;
  }
