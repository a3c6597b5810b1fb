-- ===== src/Trip/Laws.antt =====
-- What the trip controller relies on in the lanelet map. `Known` are the lane ids of the map, and
-- `Sound` is the state of the map that the lookups keep.
use autoware_agent.Base.{Bool, true, ◌≡◌, Option, none, some, ℤ, in_int64, Returns, Ensures}
use autoware_agent.Geometry.{GpsCoordinate, LaneInfo, Lanes}

-- A lane that was found is one of the map's.
abbrev pub Found : {F M : Type 0} → (ℤ → Type 0) → (M → Type 0) → Option (LaneInfo F) × M → Type 0
Found Known Sound (none, m) = Unit {0} × Sound m
Found Known Sound (some l, m) = Known l.lane_id × Sound m

abbrev pub IsFound : {F M : Type 0} → Option (LaneInfo F) × M → Type 0
IsFound (none, m) = ⊥
IsFound (some l, m) = Unit {0}

pub record LawfulLanes {F M : Type 0} (e : Lanes F M) (Known : ℤ → Type 0) (Sound : M → Type 0)
    : Type 0 where
  pub known_in_int64 : (i : ℤ) → Known i → in_int64 i ≡ true
  pub nearest :
      (m : M) (g : GpsCoordinate F)
      → Sound m
      → Returns (Found Known Sound) (e.find_nearest_lane m g)
  pub by_id :
      (m : M) (i : ℤ) → Sound m → Known i → Returns (Found Known Sound) (e.get_lane_by_id m i)
  pub by_id_found : (m : M) (i : ℤ) → Sound m → Known i → Ensures IsFound (e.get_lane_by_id m i)
  pub connected :
      (m : M) (g : GpsCoordinate F) (i : ℤ) (reachable : Bool)
      → Sound m
      → Known i
      → Returns (Found Known Sound) (e.find_nearest_connected_lane m g i reachable)
