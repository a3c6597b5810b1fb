-- ===== src/Lanelets/Cache.antt =====
-- The cache of LaneletMap: its entries have distinct ids of lanelets of the map, so it never grows
-- over the reserved capacity and the pointers that the lookups hand out stay valid.
use autoware_agent.Base.{
  suc, ◌≤◌, ◌≡◌, refl, sym, ap, ◌∙◌, inl, inr, true, false, List, [], ◌∷◌, ◌++◌, Option, none, some,
  ℤ, eq_ℤ, eq_ℤ_iff, Bool-cases, if◌then◌else◌, subst, arith, All, length, ok, first-eq-ok,
}
use autoware_agent.Geometry.{GpsCoordinate, LaneInfo}
use autoware_agent.Lanelets.Geometry.{
  Lanelet, Platform, get_lanelet, exists_lanelet, make_lane_info, project_onto_lane_centerline,
  lane_info_at,
}
use autoware_agent.Lanelets.Map.{LaneletMap, cached_lane, remember, build_lane}

module _ {F : Type 0} where
  -- No two entries have the same id.
  abbrev pub Distinct : List (LaneInfo F) → Type 0
  Distinct [] = Unit {0}
  Distinct (l ∷ ls) = (cached_lane ls l.lane_id ≡ none) × Distinct ls

  abbrev pub Within : List (Lanelet F) → List (LaneInfo F) → Type 0
  Within layer = All (λ l. exists_lanelet layer l.lane_id ≡ true)

  pub cached_lane-id :
      (ls : List (LaneInfo F)) (i : ℤ) (l : LaneInfo F) → cached_lane ls i ≡ some l → l.lane_id ≡ i
  unfolding cached_lane
  cached_lane-id [] i l e = cc
  cached_lane-id (x ∷ ls) i l e = elim (Bool-cases (eq_ℤ x.lane_id i)) [
    | inl same ↦
        let found : x ≡ l = cc (rw same at e) in
        subst (λ (q : LaneInfo F). q.lane_id ≡ i) found ((eq_ℤ_iff x.lane_id i).0 same)
    | inr other ↦ cached_lane-id ls i l (rw other at e)
  ]

  cached_lane-append_none :
      (ls : List (LaneInfo F)) (y : LaneInfo F) (i : ℤ)
      → cached_lane ls i ≡ none
      → eq_ℤ y.lane_id i ≡ false
      → cached_lane (ls ++ y ∷ []) i ≡ none
  unfolding cached_lane
  cached_lane-append_none [] y i h ne = rw ne
  cached_lane-append_none (x ∷ ls) y i h ne = elim (Bool-cases (eq_ℤ x.lane_id i)) [
    | inl same ↦ cc (rw same at h)
    | inr other ↦ rw other (cached_lane-append_none ls y i (rw other at h) ne)
  ]

  -- The entry that was added is found under its id.
  pub cached_lane-append_self :
      (ls : List (LaneInfo F)) (y : LaneInfo F)
      → cached_lane ls y.lane_id ≡ none
      → cached_lane (ls ++ y ∷ []) y.lane_id ≡ some y
  unfolding cached_lane
  cached_lane-append_self [] y h = rw ((eq_ℤ_iff y.lane_id y.lane_id).1 refl)
  cached_lane-append_self (x ∷ ls) y h = elim (Bool-cases (eq_ℤ x.lane_id y.lane_id)) [
    | inl same ↦ cc (rw same at h)
    | inr other ↦ rw other (cached_lane-append_self ls y (rw other at h))
  ]

  not_same :
      (x : LaneInfo F) (j : ℤ) (ls : List (LaneInfo F))
      → cached_lane (x ∷ ls) j ≡ none
      → eq_ℤ j x.lane_id ≡ false
  unfolding cached_lane
  not_same x j ls h = elim (Bool-cases (eq_ℤ j x.lane_id)) [
    | inl same ↦
        let e : eq_ℤ x.lane_id j ≡ true =
          (eq_ℤ_iff x.lane_id j).1 (sym ((eq_ℤ_iff j x.lane_id).0 same)) in
        cc (rw e at h)
    | inr other ↦ other
  ]

  later_none :
      (x : LaneInfo F) (ls : List (LaneInfo F)) (i : ℤ)
      → cached_lane (x ∷ ls) i ≡ none
      → cached_lane ls i ≡ none
  unfolding cached_lane
  later_none x ls i h = elim (Bool-cases (eq_ℤ x.lane_id i)) [
    | inl same ↦ cc (rw same at h)
    | inr other ↦ rw other at h
  ]

  Distinct-append :
      (ls : List (LaneInfo F)) (y : LaneInfo F)
      → cached_lane ls y.lane_id ≡ none
      → Distinct ls
      → Distinct (ls ++ y ∷ [])
  unfolding cached_lane
  Distinct-append [] y h d = (refl, tt)
  Distinct-append (x ∷ ls) y h d = (
    cached_lane-append_none ls y x.lane_id d.0 (not_same x y.lane_id ls h),
    Distinct-append ls y (later_none x ls y.lane_id h) d.1,
  )

  pub All-append_one :
      (P : LaneInfo F → Type 0) (ls : List (LaneInfo F)) (y : LaneInfo F)
      → All P ls
      → P y
      → All P (ls ++ y ∷ [])
  All-append_one P [] y h k = (k, tt)
  All-append_one P (x ∷ ls) y h k = (h.0, All-append_one P ls y h.1 k)

  remove_id : List (Lanelet F) → ℤ → List (Lanelet F)
  remove_id [] i = []
  remove_id (l ∷ ls) i = if eq_ℤ l.id i then ls else l ∷ remove_id ls i

  length-remove_id :
      (layer : List (Lanelet F)) (i : ℤ)
      → exists_lanelet layer i ≡ true
      → length layer ≡ suc (length (remove_id layer i))
  unfolding exists_lanelet remove_id
  length-remove_id [] i h = cc
  length-remove_id (l ∷ ls) i h = elim (Bool-cases (eq_ℤ l.id i)) [
    | inl same ↦ rw same
    | inr other ↦ rw other (ap suc (length-remove_id ls i (rw other at h)))
  ]

  exists-remove_id :
      (layer : List (Lanelet F)) (i j : ℤ)
      → eq_ℤ j i ≡ false
      → exists_lanelet layer i ≡ true
      → exists_lanelet (remove_id layer j) i ≡ true
  unfolding exists_lanelet remove_id
  exists-remove_id [] i j ne h = h
  exists-remove_id (l ∷ ls) i j ne h = elim (Bool-cases (eq_ℤ l.id j)) [
    | inl same ↦
        let e : eq_ℤ l.id i ≡ false =
          subst (λ q. eq_ℤ q i ≡ false) (sym ((eq_ℤ_iff l.id j).0 same)) ne in
        rw same (rw e at h)
    | inr other ↦ elim (Bool-cases (eq_ℤ l.id i)) [
      | inl here ↦ rw (other, here)
      | inr there ↦ rw (other, there) (exists-remove_id ls i j ne (rw there at h))
    ]
  ]

  Within-remove_id :
      (layer : List (Lanelet F)) (j : ℤ) (ls : List (LaneInfo F))
      → cached_lane ls j ≡ none
      → Within layer ls
      → Within (remove_id layer j) ls
  Within-remove_id layer j [] h w = tt
  Within-remove_id layer j (x ∷ ls) h w = (
    exists-remove_id layer x.lane_id j (not_same x j ls h) w.0,
    Within-remove_id layer j ls (later_none x ls j h) w.1,
  )

  -- Distinct ids of the layer are no more than its lanelets.
  length-Within :
      (layer : List (Lanelet F)) (ls : List (LaneInfo F))
      → Distinct ls
      → Within layer ls
      → length ls ≤ length layer
  length-Within layer [] d w = omega arith
  length-Within layer (x ∷ ls) d w = omega (
    arith,
    length-remove_id layer x.lane_id w.0,
    length-Within (remove_id layer x.lane_id) ls d.1 (Within-remove_id layer x.lane_id ls d.0 w.1),
  )

-- The capacity is the number of lanelets, and the cache holds distinct lanelets of the map.
pub record IsWellFormed {F : Type 0} (m : LaneletMap F) : Type 0 where
  pub reserved : m.capacity ≡ length m.layer
  pub distinct : Distinct m.cache
  pub within : Within m.layer m.cache

module _ {F : Type 0} where
  -- The cache never outgrows what was reserved, so no entry is ever moved.
  pub cache_fits : (m : LaneletMap F) → IsWellFormed m → length m.cache ≤ m.capacity
  cache_fits m v = rw (v.reserved) (length-Within m.layer m.cache v.distinct v.within)

  pub remember-IsWellFormed :
      (m : LaneletMap F) (info : LaneInfo F)
      → IsWellFormed m
      → cached_lane m.cache info.lane_id ≡ none
      → exists_lanelet m.layer info.lane_id ≡ true
      → IsWellFormed (remember m info)
  unfolding remember
  remember-IsWellFormed m info v new here = record {
    reserved = v.reserved;
    distinct = Distinct-append m.cache info new v.distinct;
    within = All-append_one _ m.cache info v.within here;
  }

  pub get-exists :
      (layer : List (Lanelet F)) (i : ℤ) (l : Lanelet F)
      → get_lanelet layer i ≡ ok l
      → (exists_lanelet layer i ≡ true) × (l.id ≡ i)
  unfolding get_lanelet exists_lanelet
  get-exists [] i l e = cc
  get-exists (x ∷ ls) i l e = elim (Bool-cases (eq_ℤ x.id i)) [
    | inl same ↦
        let found : x ≡ l = cc (rw same at e) in
        (rw same, subst (λ (q : Lanelet F). q.id ≡ i) found ((eq_ℤ_iff x.id i).0 same))
    | inr other ↦ let (here, same) = get-exists ls i l (rw other at e) in (rw (other, here), same)
  ]

-- The cached entries of a map, and what the lookups leave alone.
abbrev pub SameMap : {F : Type 0} → LaneletMap F → LaneletMap F → Type 0
SameMap m m' =
    (m'.layer ≡ m.layer)
    × (m'.routing_graph ≡ m.routing_graph)
    × (m'.default_start ≡ m.default_start)

module _ {F : Type 0} (p : Platform F) where
  pub make_lane_info-id :
      (layer : List (Lanelet F)) (ll : Lanelet F) (gps : GpsCoordinate F) (info : LaneInfo F)
      → make_lane_info p layer ll gps ≡ ok info
      → info.lane_id ≡ ll.id
  unfolding make_lane_info project_onto_lane_centerline lane_info_at
  make_lane_info-id layer ll gps info e = ground arith

  -- A lane that a search has resolved is in the cache under its id, whichever branch is taken,
  -- and the cache is still well formed.
  abbrev pub Resolved : LaneletMap F → Option (LaneInfo F) × LaneletMap F → Type 0
  Resolved m (none, m') = (m' ≡ m)
  Resolved m (some info, m') =
      IsWellFormed m' × (cached_lane m'.cache info.lane_id ≡ some info) × SameMap m m'

  -- What a new entry is: it has the id that was asked for, and is appended.
  abbrev pub Built : LaneletMap F → ℤ → Option (LaneInfo F) × LaneletMap F → Type 0
  Built m i r =
      (info : LaneInfo F) × (r ≡ (some info, remember m info))
      × (info.lane_id ≡ i)
      × (exists_lanelet m.layer i ≡ true)

  pub build_lane-Built :
      (m : LaneletMap F) (gps : GpsCoordinate F) (i : ℤ) (r : Option (LaneInfo F) × LaneletMap F)
      → build_lane p m gps i ≡ ok r
      → Built m i r
  unfolding build_lane
  build_lane-Built m gps i r e =
      let (ll, got, rest) = first-eq-ok (get_lanelet m.layer i) _ r e in
      let (info, made, done) = first-eq-ok (make_lane_info p m.layer ll gps) _ r rest in
      let (here, same) = get-exists m.layer i ll got in
      (info, cc, make_lane_info-id m.layer ll gps info made ∙ same, here)

  pub Built-Resolved :
      (m : LaneletMap F) (i : ℤ) (r : Option (LaneInfo F) × LaneletMap F)
      → IsWellFormed m
      → cached_lane m.cache i ≡ none
      → Built m i r
      → Resolved m r
  unfolding remember
  Built-Resolved m i r v new (info, e, same, here) = rw e (
    remember-IsWellFormed m info v (rw same new) (rw same here),
    cached_lane-append_self m.cache info (rw same new),
    (refl, refl, refl),
  )
