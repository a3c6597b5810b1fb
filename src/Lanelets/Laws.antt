-- ===== src/Lanelets/Laws.antt =====
-- LaneletMap fills the interface of the trip controller: over a map whose lanelets are keyed by
-- their ids, no lookup of a known lane raises an exception, and what is found is known.
use autoware_agent.Base.{
  ◌>>=◌, if_both, ◌≡◌, refl, sym, ap, ◌∙◌, ◌⊎◌, inl, inr, Bool, true, false, List, [], ◌∷◌, Option,
  none, some, ℤ, eq_ℤ, eq_ℤ_iff, in_int64, Bool-cases, subst, All, Any, ok, err, Result, Returns,
  Ensures,
}
use autoware_agent.Geometry.{GpsCoordinate, LocalCoordinate, LaneInfo}
use autoware_agent.Lanelets.Geometry.{
  Lanelet, Platform, midpoint, get_lanelet, gps_to_local, local_to_gps, make_lane_info,
  project_onto_lane_centerline, lane_info_at,
}
use autoware_agent.Lanelets.Map.{
  LaneletMap, RoutingGraph, is_loaded, cached_lane, remember, nearest, build_lane, cached_or,
  resolve, find_nearest_lane, build_by_id, get_uncached, get_lane_by_id, connected_candidates,
  predecessors_of, contains_id, find_connected, find_nearest_connected_lane, lanes,
}
use autoware_agent.Lanelets.Nearest.{IsOrdered, Candidate, nearest-Searched}
use autoware_agent.Lanelets.Cache.{get-exists, All-append_one}
use autoware_agent.Trip.Laws.{Found, IsFound, LawfulLanes}

module _ {F : Type 0} (layer : List (Lanelet F)) where
  -- A lanelet of the layer, found under its id; the id is an int64_t.
  abbrev pub Keyed : Lanelet F → Type 0
  Keyed ll = (get_lanelet layer ll.id ≡ ok ll) × (in_int64 ll.id ≡ true)

  -- The id of a lanelet of the layer with a midpoint.
  abbrev pub KnownLane : ℤ → Type 0
  KnownLane i =
      (ll : Lanelet F) × (get_lanelet layer i ≡ ok ll)
      × (in_int64 i ≡ true)
      × ((mid : LocalCoordinate F) × (midpoint ll.centerline ≡ some mid))

-- What lanelet2 promises of a loaded map: the layer is keyed by the ids, and the routing graph is
-- over its lanelets.
pub record IsLoadedMap {F : Type 0} (layer : List (Lanelet F)) (graph : Option (RoutingGraph F))
    : Type 0 where
  pub keyed : All (Keyed layer) layer
  pub reachable_keyed :
      (g : RoutingGraph F)
      → graph ≡ some g
      → (ll : Lanelet F) (radius : F) → All (Keyed layer) (g.reachable_set ll radius)

module _ {F : Type 0} (p : Platform F) (order : IsOrdered p) (layer : List (Lanelet F))
    (graph : Option (RoutingGraph F)) (loaded : IsLoadedMap layer graph) where
  -- The map is the loaded one, and every cached entry is a known lane.
  pub record SoundMap (m : LaneletMap F) : Type 0 where
    pub same_layer : m.layer ≡ layer
    pub same_graph : m.routing_graph ≡ graph
    pub cached_known : All (λ (l : LaneInfo F). KnownLane layer l.lane_id) m.cache

  found_id_in_layer :
      (ox oy : F) (target : LocalCoordinate F) (best : F × ℤ) (lls : List (Lanelet F))
      → All (Keyed layer) lls
      → Any (Candidate p ox oy target best) lls
      → KnownLane layer best.1
  found_id_in_layer ox oy target best [] k found = absurd found
  found_id_in_layer ox oy target best (ll ∷ lls) k (inl (_, same, (mid, at_mid, _))) =
      (ll, rw (← same) k.0.0, rw (← same) k.0.1, (mid, at_mid))
  found_id_in_layer ox oy target best (ll ∷ lls) k (inr later) =
      found_id_in_layer ox oy target best lls k.1 later

  -- A search over keyed lanelets ends at no lane or at a known one.
  search-KnownLane :
      (ox oy : F) (target : LocalCoordinate F) (lls : List (Lanelet F))
      → All (Keyed layer) lls
      → let i = (nearest p ox oy target lls (p.max_double, p.invalid_id)).1 in
        (i ≡ p.invalid_id) ⊎ KnownLane layer i
  search-KnownLane ox oy target lls k =
      ended (nearest p ox oy target lls (p.max_double, p.invalid_id))
        (nearest-Searched p order ox oy target lls (p.max_double, p.invalid_id)).0
    where
      ended :
          (r : F × ℤ)
          → (r ≡ (p.max_double, p.invalid_id))
            ⊎ ((p.lt r.0 p.max_double ≡ true) × Any (Candidate p ox oy target r) lls)
          → (r.1 ≡ p.invalid_id) ⊎ KnownLane layer r.1
      ended r (inl start) = inl (ap (λ (q : F × ℤ). q.1) start)
      ended r (inr (_, found)) = inr (found_id_in_layer ox oy target r lls k found)

  cached-KnownLane :
      (ls : List (LaneInfo F)) (i : ℤ) (l : LaneInfo F)
      → All (λ (q : LaneInfo F). KnownLane layer q.lane_id) ls
      → cached_lane ls i ≡ some l
      → KnownLane layer l.lane_id
  unfolding cached_lane
  cached-KnownLane [] i l k e = cc
  cached-KnownLane (x ∷ ls) i l k e = elim (Bool-cases (eq_ℤ x.lane_id i)) [
    | inl same ↦
        let found : x ≡ l = cc (rw same at e) in
        subst (λ (q : LaneInfo F). KnownLane layer q.lane_id) found k.0
    | inr other ↦ cached-KnownLane ls i l k.1 (rw other at e)
  ]

  -- A new entry for a known lane.
  make_lane_info-Found :
      (m : LaneletMap F) (i : ℤ) (ll : Lanelet F) (g : GpsCoordinate F)
      → SoundMap m
      → KnownLane layer i
      → get_lanelet layer i ≡ ok ll
      → Returns
          (Found (KnownLane layer) SoundMap)
          (make_lane_info p m.layer ll g >>= λ info. ok (some info, remember m info))
  unfolding make_lane_info project_onto_lane_centerline lane_info_at remember
  make_lane_info-Found m i ll g s k got =
      let (_, same) = get-exists layer i ll got in
      let again : get_lanelet m.layer ll.id ≡ ok ll =
        ap (λ q. get_lanelet q ll.id) s.same_layer ∙ ap (get_lanelet layer) same ∙ got in
      let known : KnownLane layer ll.id = rw same k in
      rw again (
        known,
        record {
          same_layer = s.same_layer;
          same_graph = s.same_graph;
          cached_known = All-append_one _ m.cache _ s.cached_known known;
        },
      )

  resolve-Found :
      (m : LaneletMap F) (g : GpsCoordinate F) (i : ℤ)
      → SoundMap m
      → (i ≡ p.invalid_id) ⊎ KnownLane layer i
      → Returns (Found (KnownLane layer) SoundMap) (resolve p m g i)
  unfolding resolve cached_or build_lane
  resolve-Found m g i s (inl invalid) = rw ((eq_ℤ_iff i p.invalid_id).1 invalid) (tt, s)
  resolve-Found m g i s (inr known) = elim (Bool-cases (eq_ℤ i p.invalid_id)) [
    | inl invalid ↦ rw invalid (tt, s)
    | inr valid ↦ rw valid (ending (cached_lane m.cache i) refl)
  ]
    where
      ending :
          (o : Option (LaneInfo F))
          → cached_lane m.cache i ≡ o
          → Returns (Found (KnownLane layer) SoundMap) (cached_or p m g i o)
      ending (some info) o = (cached-KnownLane m.cache i info s.cached_known o, s)
      ending none o =
          let (ll, got, _, _) = known in
          let here : get_lanelet m.layer i ≡ ok ll = rw s.same_layer got in
          rw here (make_lane_info-Found m i ll g s known got)

  nearest-Found :
      (m : LaneletMap F) (g : GpsCoordinate F)
      → SoundMap m
      → Returns (Found (KnownLane layer) SoundMap) (find_nearest_lane p m g)
  unfolding find_nearest_lane
  nearest-Found m g s = elim (Bool-cases (is_loaded m)) [
    | inl yes_loaded ↦ rw yes_loaded (
        resolve-Found m g _ s (
          search-KnownLane m.offset_x m.offset_y (gps_to_local p g) m.layer
            (subst (All (Keyed layer)) (sym s.same_layer) loaded.keyed)))
    | inr empty ↦ rw empty (tt, s)
  ]

  by_id-Found :
      (m : LaneletMap F) (i : ℤ)
      → SoundMap m
      → KnownLane layer i
      → Returns (Found (KnownLane layer) SoundMap) (get_lane_by_id p m i)
  unfolding get_lane_by_id get_uncached build_by_id
  by_id-Found m i s known = ending (cached_lane m.cache i) refl
    where
      ending :
          (o : Option (LaneInfo F))
          → cached_lane m.cache i ≡ o
          → Returns (Found (KnownLane layer) SoundMap) (get_uncached p m i o)
      ending (some info) o = (cached-KnownLane m.cache i info s.cached_known o, s)
      ending none o =
          let (ll, got, _, (mid, at_mid)) = known in
          let here : get_lanelet m.layer i ≡ ok ll = rw s.same_layer got in
          let (listed, _) = get-exists m.layer i ll here in
          rw (listed, here, at_mid) (make_lane_info-Found m i ll (local_to_gps p mid) s known got)

  -- A known lane is found by its id.
  by_id-IsFound :
      (m : LaneletMap F) (i : ℤ)
      → SoundMap m
      → KnownLane layer i
      → Ensures IsFound (get_lane_by_id p m i)
  unfolding get_lane_by_id get_uncached build_by_id
  by_id-IsFound m i s known = ending (cached_lane m.cache i)
    where
      made :
          (r : Result (LaneInfo F))
          → Ensures IsFound (r >>= λ info. ok (some info, remember m info))
      made (ok info) = tt
      made (err x) = tt

      ending : (o : Option (LaneInfo F)) → Ensures IsFound (get_uncached p m i o)
      ending (some info) = tt
      ending none =
          let (ll, got, _, (mid, at_mid)) = known in
          let here : get_lanelet m.layer i ≡ ok ll = rw s.same_layer got in
          let (listed, _) = get-exists m.layer i ll here in
          rw (listed, here, at_mid) (made (make_lane_info p m.layer ll (local_to_gps p mid)))

  predecessors-Keyed :
      (g : RoutingGraph F) (i : ℤ) (lls : List (Lanelet F))
      → All (Keyed layer) lls
      → All (Keyed layer) (predecessors_of p g i lls)
  unfolding predecessors_of
  predecessors-Keyed g i [] k = tt
  predecessors-Keyed g i (ll ∷ lls) k =
      if_both (All (Keyed layer)) (contains_id p (g.reachable_set ll (p.literal 8000 0)) i)
        (ll ∷ predecessors_of p g i lls) (predecessors_of p g i lls)
        (k.0, predecessors-Keyed g i lls k.1) (predecessors-Keyed g i lls k.1)

  candidates-Keyed :
      (m : LaneletMap F) (g : RoutingGraph F) (ll : Lanelet F) (i : ℤ) (b : Bool)
      → SoundMap m
      → m.routing_graph ≡ some g
      → All (Keyed layer) (connected_candidates p m g ll i b)
  unfolding connected_candidates
  candidates-Keyed m g ll i true s e =
      loaded.reachable_keyed g (sym s.same_graph ∙ e) ll (p.literal 8000 0)
  candidates-Keyed m g ll i false s e =
      predecessors-Keyed g i m.layer (subst (All (Keyed layer)) (sym s.same_layer) loaded.keyed)

  connected-Found :
      (m : LaneletMap F) (g : GpsCoordinate F) (i : ℤ) (b : Bool)
      → SoundMap m
      → KnownLane layer i
      → Returns (Found (KnownLane layer) SoundMap) (find_nearest_connected_lane p m g i b)
  unfolding find_nearest_connected_lane find_connected
  connected-Found m g i b s known = ending m.routing_graph refl
    where
      ending :
          (o : Option (RoutingGraph F))
          → m.routing_graph ≡ o
          → Returns (Found (KnownLane layer) SoundMap) (find_connected p m g i b o)
      ending none o = (tt, s)
      ending (some r) o = elim (Bool-cases (is_loaded m)) [
        | inl yes_loaded ↦
            let (ll, got, _, _) = known in
            let here : get_lanelet m.layer i ≡ ok ll = rw s.same_layer got in
            rw (yes_loaded, here)
              (resolve-Found m g _ s (
                search-KnownLane m.offset_x m.offset_y (gps_to_local p g)
                  (connected_candidates p m r ll i b) (candidates-Keyed m r ll i b s o)))
        | inr empty ↦ rw empty (tt, s)
      ]

  -- If the comparison of doubles is irreflexive and transitive, and the loaded lanelets are keyed
  -- by their ids, also those in the routing graph, then the lookups of LaneletMap satisfy what the
  -- trip controller asks of them: on a sound map they raise nothing, a known lane is found by its
  -- id, a lane that they find is a known one, and the map stays sound.
  pub lanes-LawfulLanes : LawfulLanes (lanes p) (KnownLane layer) SoundMap
  lanes-LawfulLanes = record {
    known_in_int64 = λ i k. k.2;
    nearest = nearest-Found;
    by_id = by_id-Found;
    by_id_found = by_id-IsFound;
    connected = connected-Found;
  }
