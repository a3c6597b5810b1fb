-- ===== src/Lanelets/Lookups.antt =====
-- What the lookups of LaneletMap guarantee: findNearestLane, findNearestConnectedLane and
-- getLaneById, with the cache that they share.
use autoware_agent.Base.{
  ◌≤◌, ◌≡◌, refl, sym, ap, ◌∙◌, inl, inr, Bool, false, Option, none, some, ℤ, eq_ℤ, Bool-cases,
  subst, length, ok, first-eq-ok,
}
use autoware_agent.Geometry.{GpsCoordinate, LocalCoordinate, LaneInfo}
use autoware_agent.Lanelets.Geometry.{
  Lanelet, Platform, midpoint, get_lanelet, exists_lanelet, gps_to_local, local_to_gps,
  make_lane_info,
}
use autoware_agent.Lanelets.Map.{
  LaneletMap, RoutingGraph, is_loaded, cached_lane, nearest, cached_or, resolve, find_nearest_lane,
  build_by_id, get_uncached, get_lane_by_id, find_connected,
}
use autoware_agent.Lanelets.Cache.{
  cached_lane-id, IsWellFormed, cache_fits, get-exists, Resolved, build_lane-Built, Built-Resolved,
  make_lane_info-id,
}

module _ {F : Type 0} (p : Platform F) where
  abbrev Lookup : Type 0
  Lookup = Option (LaneInfo F) × LaneletMap F

  hit-Resolved :
      (m : LaneletMap F) (i : ℤ) (info : LaneInfo F) (r : Lookup)
      → IsWellFormed m
      → cached_lane m.cache i ≡ some info
      → r ≡ (some info, m)
      → Resolved p m r
  hit-Resolved m i info r v hit e =
      rw e
        (v, ap (cached_lane m.cache) (cached_lane-id m.cache i info hit) ∙ hit, (refl, refl, refl))

  cached_or-Resolved :
      (m : LaneletMap F) (g : GpsCoordinate F) (i : ℤ) (o : Option (LaneInfo F)) (r : Lookup)
      → IsWellFormed m
      → cached_lane m.cache i ≡ o
      → cached_or p m g i o ≡ ok r
      → Resolved p m r
  unfolding cached_or
  cached_or-Resolved m g i (some info) r v o e = hit-Resolved m i info r v o (cc)
  cached_or-Resolved m g i none r v o e = Built-Resolved p m i r v o (build_lane-Built p m g i r e)

  resolve-Resolved :
      (m : LaneletMap F) (g : GpsCoordinate F) (i : ℤ) (r : Lookup)
      → IsWellFormed m
      → resolve p m g i ≡ ok r
      → Resolved p m r
  unfolding resolve
  resolve-Resolved m g i r v e = elim (Bool-cases (eq_ℤ i p.invalid_id)) [
    | inl invalid ↦ let done : r ≡ (none, m) = cc (rw invalid at e) in rw done refl
    | inr valid ↦ cached_or-Resolved m g i (cached_lane m.cache i) r v refl (rw valid at e)
  ]

  find_nearest_lane-Resolved :
      (m : LaneletMap F) (g : GpsCoordinate F) (r : Lookup)
      → IsWellFormed m
      → find_nearest_lane p m g ≡ ok r
      → Resolved p m r
  unfolding find_nearest_lane
  find_nearest_lane-Resolved m g r v e = elim (Bool-cases (is_loaded m)) [
    | inl loaded ↦ resolve-Resolved m g _ r v (rw loaded at e)
    | inr empty ↦ let done : r ≡ (none, m) = cc (rw empty at e) in rw done refl
  ]

  find_connected-Resolved :
      (m : LaneletMap F) (g : GpsCoordinate F) (i : ℤ) (b : Bool) (graph : Option (RoutingGraph F))
      (r : Lookup)
      → IsWellFormed m
      → find_connected p m g i b graph ≡ ok r
      → Resolved p m r
  unfolding find_connected
  find_connected-Resolved m g i b none r v e = let done : r ≡ (none, m) = cc in rw done refl
  find_connected-Resolved m g i b (some graph) r v e = elim (Bool-cases (is_loaded m)) [
    | inl loaded ↦
        let (ll, got, rest) = first-eq-ok (get_lanelet m.layer i) _ r (rw loaded at e) in
        resolve-Resolved m g _ r v rest
    | inr empty ↦ let done : r ≡ (none, m) = cc (rw empty at e) in rw done refl
  ]

  build_by_id-Resolved :
      (m : LaneletMap F) (ll : Lanelet F) (i : ℤ) (o : Option (LocalCoordinate F)) (r : Lookup)
      → IsWellFormed m
      → cached_lane m.cache i ≡ none
      → get_lanelet m.layer i ≡ ok ll
      → build_by_id p m ll o ≡ ok r
      → Resolved p m r
  unfolding build_by_id
  build_by_id-Resolved m ll i none r v new got e = cc
  build_by_id-Resolved m ll i (some mid) r v new got e =
      let (info, made, done) =
        first-eq-ok (make_lane_info p m.layer ll (local_to_gps p mid)) _ r e in
      let (here, same) = get-exists m.layer i ll got in
      Built-Resolved p m i r v new
        (info, cc, make_lane_info-id p m.layer ll (local_to_gps p mid) info made ∙ same, here)

  get_uncached-Resolved :
      (m : LaneletMap F) (i : ℤ) (o : Option (LaneInfo F)) (r : Lookup)
      → IsWellFormed m
      → cached_lane m.cache i ≡ o
      → get_uncached p m i o ≡ ok r
      → Resolved p m r
  unfolding get_uncached
  get_uncached-Resolved m i (some info) r v o e = hit-Resolved m i info r v o (cc)
  get_uncached-Resolved m i none r v o e = elim (Bool-cases (exists_lanelet m.layer i)) [
    | inl here ↦
        let (ll, got, rest) = first-eq-ok (get_lanelet m.layer i) _ r (rw here at e) in
        build_by_id-Resolved m ll i (midpoint ll.centerline) r v o got rest
    | inr absent ↦ let done : r ≡ (none, m) = cc (rw absent at e) in rw done refl
  ]

  get_lane_by_id-Resolved :
      (m : LaneletMap F) (i : ℤ) (r : Lookup)
      → IsWellFormed m
      → get_lane_by_id p m i ≡ ok r
      → Resolved p m r
  unfolding get_lane_by_id
  get_lane_by_id-Resolved m i r v e = get_uncached-Resolved m i _ r v refl e

  get-cached :
      (m : LaneletMap F) (i : ℤ) (info : LaneInfo F)
      → cached_lane m.cache i ≡ some info
      → get_lane_by_id p m i ≡ ok (some info, m)
  unfolding get_lane_by_id get_uncached
  get-cached m i info hit = rw hit

  -- On a well-formed map, a lane that findNearestLane returns is given again by getLaneById under
  -- its id, with no change of the map; the map stays well formed, its cache within the reserved
  -- capacity, and its lanelets stay.
  pub get-find_nearest :
      (m m' : LaneletMap F) (g : GpsCoordinate F) (l : LaneInfo F)
      → IsWellFormed m
      → find_nearest_lane p m g ≡ ok (some l, m')
      → (get_lane_by_id p m' l.lane_id ≡ ok (some l, m'))
        × IsWellFormed m'
        × (length m'.cache ≤ m'.capacity)
        × (m'.layer ≡ m.layer)
  get-find_nearest m m' g l v e =
      let (v', hit, same) = find_nearest_lane-Resolved m g (some l, m') v e in
      (get-cached m' l.lane_id l hit, v', cache_fits m' v', same.0)

  -- The end of a search gives the lane that was asked for.
  pub resolve-id :
      (m : LaneletMap F) (g : GpsCoordinate F) (i : ℤ) (l : LaneInfo F) (m' : LaneletMap F)
      → resolve p m g i ≡ ok (some l, m')
      → (l.lane_id ≡ i) × (eq_ℤ i p.invalid_id ≡ false)
  unfolding resolve cached_or
  resolve-id m g i l m' e = elim (Bool-cases (eq_ℤ i p.invalid_id)) [
    | inl invalid ↦ cc (rw invalid at e)
    | inr valid ↦ (ending (cached_lane m.cache i) refl (rw valid at e), valid)
  ]
    where
      ending :
          (o : Option (LaneInfo F))
          → cached_lane m.cache i ≡ o
          → cached_or p m g i o ≡ ok (some l, m')
          → l.lane_id ≡ i
      ending (some info) o k =
          let found : info ≡ l = cc in
          subst (λ (q : LaneInfo F). q.lane_id ≡ i) found (cached_lane-id m.cache i info o)
      ending none o k =
          let (info, made, same, _) = build_lane-Built p m g i (some l, m') k in
          let found : info ≡ l = cc in subst (λ (q : LaneInfo F). q.lane_id ≡ i) found same

  resolve-cached :
      (m : LaneletMap F) (g : GpsCoordinate F) (i : ℤ) (l l' : LaneInfo F) (m' : LaneletMap F)
      → cached_lane m.cache i ≡ some l
      → resolve p m g i ≡ ok (some l', m')
      → (l' ≡ l) × (m' ≡ m)
  unfolding resolve cached_or
  resolve-cached m g i l l' m' hit e = elim (Bool-cases (eq_ℤ i p.invalid_id)) [
    | inl invalid ↦ cc (rw invalid at e)
    | inr valid ↦ let k = rw (valid, hit) at e in (cc, cc)
  ]

  -- The id that a search over the loaded map ends at.
  abbrev pub nearest_id : LaneletMap F → GpsCoordinate F → ℤ
  nearest_id m g =
      (nearest p m.offset_x m.offset_y (gps_to_local p g) m.layer (p.max_double, p.invalid_id)).1

  pub find_nearest_lane-resolve :
      (m : LaneletMap F) (g : GpsCoordinate F) (l : LaneInfo F) (m' : LaneletMap F)
      → find_nearest_lane p m g ≡ ok (some l, m')
      → resolve p m g (nearest_id m g) ≡ ok (some l, m')
  unfolding find_nearest_lane
  find_nearest_lane-resolve m g l m' e = elim (Bool-cases (is_loaded m)) [
    | inl loaded ↦ rw loaded at e
    | inr empty ↦ cc (rw empty at e)
  ]

  -- On a well-formed map, if two searches in a row return lanes with the same id, then the second
  -- gives the very entry of the first, with the position that was projected for the first query,
  -- and leaves the map as it is, wherever the second query stands.
  pub find_nearest-same_lane :
      (m m' m'' : LaneletMap F) (g g' : GpsCoordinate F) (l l' : LaneInfo F)
      → IsWellFormed m
      → find_nearest_lane p m g ≡ ok (some l, m')
      → find_nearest_lane p m' g' ≡ ok (some l', m'')
      → l'.lane_id ≡ l.lane_id
      → (l' ≡ l) × (m'' ≡ m')
  find_nearest-same_lane m m' m'' g g' l l' v e e' same =
      let (_, hit, _) = find_nearest_lane-Resolved m g (some l, m') v e in
      let ending = find_nearest_lane-resolve m' g' l' m'' e' in
      let (id, _) = resolve-id m' g' (nearest_id m' g') l' m'' ending in
      resolve-cached m' g' (nearest_id m' g') l l' m''
        (ap (cached_lane m'.cache) (sym id ∙ same) ∙ hit) ending
