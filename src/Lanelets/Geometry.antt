-- ===== src/Lanelets/Geometry.antt =====
-- The static helpers of LaneletMap.cc and the centreline projection, over the lanelets of the
-- loaded map. What lanelet2 and the projector give are parameters.
use autoware_agent.Base.{
  ◌/◌, Bool, true, false, ◌&&◌, ◌||◌, not, List, [], ◌∷◌, Option, none, some, Text, codes, length,
  get_elem?, ◌==◌, if◌then◌else◌, ℤ, eq_ℤ, Result, ok, err, ◌>>=◌, no_such_primitive,
}
use autoware_agent.Geometry.{Floats, GpsCoordinate, LocalCoordinate, LaneInfo}

-- lanelet::ConstLanelet, as far as the code reads it.
pub record Lanelet (F : Type 0) : Type 0 where
  pub id : ℤ
  pub subtype : Option Text
  pub centerline : List (LocalCoordinate F)

-- What the map takes from outside: doubles, the MGRS projector, lanelet::InvalId, the largest
-- double and pi, and what an Eigen point holds before anything is written to it.
pub record Platform (F : Type 0) : Type 0 where
  pub floats : Floats F
  pub open floats use *
  pub forward : GpsCoordinate F → LocalCoordinate F
  pub reverse : LocalCoordinate F → GpsCoordinate F
  pub invalid_id : ℤ
  pub max_double : F
  pub pi : F
  pub unwritten : LocalCoordinate F

abbrev pub text_eq : Text → Text → Bool
text_eq [] [] = true
text_eq (a ∷ as') (b ∷ bs) = a == b && text_eq as' bs
text_eq _ _ = false

-- `continue` on crosswalks, walkways, stairs and pedestrian areas.
unfoldable pub is_drivable : Option Text → Bool
is_drivable none = true
is_drivable (some st) = not (
    text_eq st (codes "crosswalk")
    || (text_eq st (codes "walkway")
        || (text_eq st (codes "stairs") || text_eq st (codes "pedestrian"))))

-- cl[cl.size() / 2]; there is none exactly if the centreline is empty.
unfoldable pub midpoint : {F : Type 0} → List (LocalCoordinate F) → Option (LocalCoordinate F)
midpoint cl = get_elem? cl (length cl / 2)

-- cl.back()
abbrev pub last_or : {F : Type 0} → LocalCoordinate F → List (LocalCoordinate F) → LocalCoordinate F
last_or p [] = p
last_or p (q ∷ qs) = last_or q qs

-- laneletLayer.get and laneletLayer.exists
unfoldable pub get_lanelet : {F : Type 0} → List (Lanelet F) → ℤ → Result (Lanelet F)
get_lanelet [] i = err no_such_primitive
get_lanelet (l ∷ ls) i = let rest = get_lanelet ls i in if eq_ℤ l.id i then ok l else rest

unfoldable pub exists_lanelet : {F : Type 0} → List (Lanelet F) → ℤ → Bool
exists_lanelet [] i = false
exists_lanelet (l ∷ ls) i = eq_ℤ l.id i || exists_lanelet ls i

module _ {F : Type 0} (p : Platform F) where
  abbrev pub zero_of : F
  zero_of = p.literal 0 0

  unfoldable pub gps_to_local : GpsCoordinate F → LocalCoordinate F
  gps_to_local gps = p.forward gps

  unfoldable pub local_to_gps : LocalCoordinate F → GpsCoordinate F
  local_to_gps local = p.reverse local

  unfoldable pub distance : F → F → F → F → F
  distance ax ay bx by' =
      let dx = p.sub ax bx in let dy = p.sub ay by' in p.sqrt (p.add (p.mul dx dx) (p.mul dy dy))

  unfoldable pub lanelet_yaw : List (LocalCoordinate F) → F
  lanelet_yaw [] = zero_of
  lanelet_yaw (p0 ∷ []) = zero_of
  lanelet_yaw (p0 ∷ p1 ∷ rest) =
      let back = last_or p1 rest in p.atan2 (p.sub back.y p0.y) (p.sub back.x p0.x)

  -- {qz, qw}
  unfoldable pub yaw_to_quat : F → F × F
  yaw_to_quat yaw_rad = let h = p.mul yaw_rad (p.literal 5 1) in (p.sin h, p.cos h)

  -- std::clamp(t, 0.0, 1.0)
  abbrev pub clamp_unit : F → F
  clamp_unit t =
      if p.lt t zero_of then zero_of else if p.lt (p.literal 1 0) t then p.literal 1 0 else t

  -- The point of the segment from `p0` to `p1` that is closest to the target.
  unfoldable pub project_onto_segment :
      LocalCoordinate F → LocalCoordinate F → LocalCoordinate F → LocalCoordinate F
  project_onto_segment target p0 p1 =
      let dx = p.sub p1.x p0.x in
      let dy = p.sub p1.y p0.y in
      let seg_len2 = p.add (p.mul dx dx) (p.mul dy dy) in
      let t =
        if p.lt zero_of seg_len2
        then clamp_unit (
            p.div (p.add (p.mul (p.sub target.x p0.x) dx) (p.mul (p.sub target.y p0.y) dy))
              seg_len2)
        else zero_of in
      record { x = p.add p0.x (p.mul t dx); y = p.add p0.y (p.mul t dy); z = p0.z }

  -- One round of the loop over the segments: (min_dist, best_point).
  unfoldable pub closer_point :
      LocalCoordinate F → LocalCoordinate F → F × LocalCoordinate F → F × LocalCoordinate F
  closer_point target point (min_dist, best_point) =
      let tx = p.sub target.x point.x in
      let ty = p.sub target.y point.y in
      let dist = p.sqrt (p.add (p.mul tx tx) (p.mul ty ty)) in
      if p.lt dist min_dist then (dist, point) else (min_dist, best_point)

  unfoldable pub project_segments :
      LocalCoordinate F → List (LocalCoordinate F) → F × LocalCoordinate F → F × LocalCoordinate F
  project_segments target [] best = best
  project_segments target (p0 ∷ []) best = best
  project_segments target (p0 ∷ p1 ∷ rest) best =
      project_segments target (p1 ∷ rest)
        (closer_point target (project_onto_segment target p0 p1) best)

  unfoldable pub project_onto_centerline :
      GpsCoordinate F → List (LocalCoordinate F) → LocalCoordinate F
  project_onto_centerline gps cl =
      (project_segments (gps_to_local gps) cl (p.max_double, p.unwritten)).1

  unfoldable pub project_onto_lane_centerline :
      List (Lanelet F) → GpsCoordinate F → ℤ → Result (LocalCoordinate F)
  project_onto_lane_centerline layer gps lane_id = do
    ll ← get_lanelet layer lane_id
    ok (project_onto_centerline gps ll.centerline)

  unfoldable pub lane_info_at : Lanelet F → LocalCoordinate F → LaneInfo F
  lane_info_at ll projected =
      let yaw_rad = lanelet_yaw ll.centerline in
      let q = yaw_to_quat yaw_rad in
      record {
        lane_id = ll.id;
        gps = local_to_gps projected;
        local = projected;
        orientation = record {
          x = zero_of;
          y = zero_of;
          z = q.0;
          w = q.1;
          yaw_degrees = p.div (p.mul yaw_rad (p.literal 180 0)) p.pi;
        };
      }

  unfoldable pub make_lane_info :
      List (Lanelet F) → Lanelet F → GpsCoordinate F → Result (LaneInfo F)
  make_lane_info layer ll gps = do
    projected ← project_onto_lane_centerline layer gps ll.id
    ok (lane_info_at ll projected)
