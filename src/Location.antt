-- ===== src/Location.antt =====
-- LocationBridge.cc: the location of the vehicle, sent once a second while streaming is enabled.
pub mod Silence
use autoware_agent.Base.{ℕ, ◌+◌, ◌%◌, Bool, List, [], ◌∷◌, Option, none, some, ℤ, if◌then◌else◌}
use autoware_agent.Geometry.{GpsCoordinate}

pub record LocationFrame (F : Type 0) : Type 0 where
  pub stamp_ns : ℕ
  pub seq : ℕ
  pub latitude : F
  pub longitude : F

-- The JSON object that is published.
pub record LocationMessage (F : Type 0) : Type 0 where
  pub latitude : F
  pub longitude : F
  pub trip_id : ℤ

-- `published` is the history of the messages, newest first.
pub record LocationBridge (F : Type 0) : Type 0 where
  pub frame_seq : ℕ
  pub current_lat : F
  pub current_lon : F
  pub streaming_enabled : Bool
  pub published : List (LocationMessage F)

module _ {F : Type 0} where
  -- frame_seq_ is a uint64_t.
  unfoldable pub build_frame : LocationBridge F → ℕ → LocationFrame F × LocationBridge F
  build_frame b now = (
    record {
      stamp_ns = now;
      seq = b.frame_seq;
      latitude = b.current_lat;
      longitude = b.current_lon;
    },
    record b { frame_seq = (b.frame_seq + 1) % 18446744073709551616 },
  )

  -- The frame is not read.
  unfoldable pub broadcast_frame : LocationBridge F → LocationFrame F → ℤ → LocationBridge F
  broadcast_frame b frame trip_id = record b {
    published =
        record { latitude = b.current_lat; longitude = b.current_lon; trip_id = trip_id }
        ∷ b.published;
  }

  -- `gps` and `trip_id` are what the two providers give.
  abbrev pub located : LocationBridge F → Option (GpsCoordinate F) → LocationBridge F
  located b none = b
  located b (some gps) = record b { current_lat = gps.latitude; current_lon = gps.longitude }

  unfoldable pub on_tick : LocationBridge F → Option (GpsCoordinate F) → ℤ → ℕ → LocationBridge F
  on_tick b gps trip_id now =
      let l = located b gps in
      let r = build_frame l now in
      if l.streaming_enabled then broadcast_frame r.1 r.0 trip_id else l

  -- What setStreamingEnabled posts.
  unfoldable pub set_streaming_enabled : LocationBridge F → Bool → LocationBridge F
  set_streaming_enabled b enabled = record b { streaming_enabled = enabled }

-- What the strand runs: ticks, with what the providers give, and the posted switches.
pub data LocationEvent (F : Type 0) : Type 0 where
  ticks : Option (GpsCoordinate F) → ℤ → ℕ → LocationEvent F
  switches : Bool → LocationEvent F

module _ {F : Type 0} where
  unfoldable pub handle : LocationBridge F → LocationEvent F → LocationBridge F
  handle b (ticks gps trip_id now) = on_tick b gps trip_id now
  handle b (switches enabled) = set_streaming_enabled b enabled

  unfoldable pub handle_all : LocationBridge F → List (LocationEvent F) → LocationBridge F
  handle_all b [] = b
  handle_all b (ev ∷ rest) = handle_all (handle b ev) rest
