-- ===== src/Lanelets/Closest.antt =====
-- The lanes that the searches of LaneletMap end at: the closest drivable ones.
use autoware_agent.Base.{
  ◌≡◌, refl, sym, ap, ◌∙◌, inl, inr, Bool, List, Option, none, some, ℤ, eq_ℤ_iff, Bool-cases, All,
  Any, ok, first-eq-ok,
}
use autoware_agent.Geometry.{GpsCoordinate, LaneInfo}
use autoware_agent.Lanelets.Geometry.{Lanelet, Platform, get_lanelet, gps_to_local}
use autoware_agent.Lanelets.Map.{
  LaneletMap, RoutingGraph, is_loaded, nearest, resolve, find_nearest_lane, connected_candidates,
  find_connected, find_nearest_connected_lane,
}
use autoware_agent.Lanelets.Nearest.{IsOrdered, Candidate, NotCloser, Searched, nearest-Searched}
use autoware_agent.Lanelets.Lookups.{resolve-id, find_nearest_lane-resolve}

module _ {F : Type 0} (p : Platform F) (order : IsOrdered p) where
  -- The lanes of a list that a search has looked at, seen from the target.
  abbrev pub Closest : LaneletMap F → GpsCoordinate F → List (Lanelet F) → LaneInfo F → Type 0
  Closest m g lls l =
      (d : F) × Any (Candidate p m.offset_x m.offset_y (gps_to_local p g) (d, l.lane_id)) lls
      × All (NotCloser p m.offset_x m.offset_y (gps_to_local p g) d) lls

  search-Closest :
      (m m' : LaneletMap F) (g : GpsCoordinate F) (lls : List (Lanelet F)) (l : LaneInfo F)
      → resolve p m g
          (nearest p m.offset_x m.offset_y (gps_to_local p g) lls (p.max_double, p.invalid_id)).1
        ≡ ok (some l, m')
      → Closest m g lls l
  search-Closest m m' g lls l e =
      ended (nearest p m.offset_x m.offset_y (gps_to_local p g) lls (p.max_double, p.invalid_id))
        (nearest-Searched p order m.offset_x m.offset_y (gps_to_local p g) lls
          (p.max_double, p.invalid_id))
        e
    where
      ended :
          (r : F × ℤ)
          → Searched p order m.offset_x m.offset_y
              (gps_to_local p g)
              lls
              (p.max_double, p.invalid_id)
              r
          → resolve p m g r.1 ≡ ok (some l, m')
          → Closest m g lls l
      ended (d, i) (inl start, far) k =
          let (_, valid) = resolve-id p m g i l m' k in
          cc (sym valid ∙ (eq_ℤ_iff i p.invalid_id).1 (ap (λ (q : F × ℤ). q.1) start))
      ended (d, i) (inr (_, found), far) k =
          let (same, _) = resolve-id p m g i l m' k in (d, rw same found, far)

  -- If the comparison of doubles is irreflexive and transitive, a lane that findNearestLane
  -- returns has the id of a lane of the map for cars (without a subtype, or with none of the four
  -- for people on foot) that has a midpoint, and no other such lane has a midpoint that is closer
  -- to the projected query. Close is meant along the straight line, from the midpoint as it is
  -- after the offset of the map is added; the query is not moved by the offset.
  pub find_nearest_lane-Closest :
      (m m' : LaneletMap F) (g : GpsCoordinate F) (l : LaneInfo F)
      → find_nearest_lane p m g ≡ ok (some l, m')
      → Closest m g m.layer l
  find_nearest_lane-Closest m m' g l e =
      search-Closest m m' g m.layer l (find_nearest_lane-resolve p m g l m' e)

  -- If the comparison of doubles is irreflexive and transitive, and findNearestConnectedLane
  -- returns a lane, then there is a routing graph, the reference is a lane of the map, and the
  -- result has the id of a lane for cars with a midpoint among those that the graph connects with
  -- the reference, such that none of these has a midpoint that is closer to the projected query,
  -- along the straight line from the midpoint with the offset of the map added.
  pub find_connected-Closest :
      (m m' : LaneletMap F) (g : GpsCoordinate F) (i : ℤ) (b : Bool) (l : LaneInfo F)
      → find_nearest_connected_lane p m g i b ≡ ok (some l, m')
      → (graph : RoutingGraph F) × (ll : Lanelet F) × (m.routing_graph ≡ some graph)
        × (get_lanelet m.layer i ≡ ok ll)
        × Closest m g (connected_candidates p m graph ll i b) l
  unfolding find_nearest_connected_lane
  find_connected-Closest m m' g i b l e = in_graph m.routing_graph refl e
    where
      in_graph :
          (o : Option (RoutingGraph F))
          → m.routing_graph ≡ o
          → find_connected p m g i b o ≡ ok (some l, m')
          → (graph : RoutingGraph F) × (ll : Lanelet F) × (m.routing_graph ≡ some graph)
            × (get_lanelet m.layer i ≡ ok ll)
            × Closest m g (connected_candidates p m graph ll i b) l
      in_graph none o k = cc
      in_graph (some graph) o k = elim (Bool-cases (is_loaded m)) [
        | inl loaded ↦
            let (ll, got, rest) =
              first-eq-ok (get_lanelet m.layer i) _ (some l, m') (rw loaded at k) in
            (
              graph,
              ll,
              o,
              got,
              search-Closest m m' g (connected_candidates p m graph ll i b) l rest,
            )
        | inr empty ↦ cc (rw empty at k)
      ]
