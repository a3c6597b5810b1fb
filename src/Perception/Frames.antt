-- ===== src/Perception/Frames.antt =====
-- The strand of PerceptionBridge: messages and ticks, and the frames that are published.
use autoware_agent.Base.{ℕ, ◌+◌, ◌%◌, ◌≡◌, List, [], ◌∷◌, length, ℤ, arith}
use autoware_agent.Geometry.{LocalCoordinate}
use autoware_agent.Perception.{
  Numbers, DetectedObject, LightGroup, GridInfo, PerceptionFrameState, on_surrounding_object,
  on_point_cloud, on_occupancy_grid, on_traffic_signal,
}

pub record PerceptionFrame (F : Type 0) : Type 0 where
  pub stamp_ns : ℕ
  pub seq : ℕ
  pub state : PerceptionFrameState F

-- `published` is the history of the frames, newest first; frame_seq_ is a uint64_t.
pub record PerceptionBridge (F : Type 0) : Type 0 where
  pub state : PerceptionFrameState F
  pub frame_seq : ℕ
  pub published : List (PerceptionFrame F)

pub data PerceptionEvent (F : Type 0) : Type 0 where
  objects : List (DetectedObject F) → PerceptionEvent F
  cloud : List (LocalCoordinate F) → PerceptionEvent F
  grid : GridInfo F → List ℤ → PerceptionEvent F
  signals : List (LightGroup F) → PerceptionEvent F
  ticked : ℕ → PerceptionEvent F

module _ {F : Type 0} (p : Numbers F) where
  unfoldable pub build_frame : PerceptionBridge F → ℕ → PerceptionFrame F
  build_frame b now = record { stamp_ns = now; seq = b.frame_seq; state = b.state }

  unfoldable pub on_tick : PerceptionBridge F → ℕ → PerceptionBridge F
  unfolding build_frame
  on_tick b now = record b {
    frame_seq = (b.frame_seq + 1) % 18446744073709551616;
    published = build_frame b now ∷ b.published;
  }

  unfoldable pub handle : PerceptionBridge F → PerceptionEvent F → PerceptionBridge F
  handle b (objects msg) = record b { state = on_surrounding_object p b.state msg }
  handle b (cloud points) = record b { state = on_point_cloud p b.state points }
  handle b (grid info cells) = record b { state = on_occupancy_grid p b.state info cells }
  handle b (signals msg) = record b { state = on_traffic_signal p b.state msg }
  handle b (ticked now) = on_tick b now

  unfoldable pub handle_all : PerceptionBridge F → List (PerceptionEvent F) → PerceptionBridge F
  handle_all b [] = b
  handle_all b (ev ∷ rest) = handle_all (handle b ev) rest

-- The frames are numbered from 0, without a gap, modulo 2^64.
abbrev pub Counted : {F : Type 0} → List (PerceptionFrame F) → Type 0
Counted [] = Unit {0}
Counted (f ∷ fs) = (f.seq ≡ length fs % 18446744073709551616) × Counted fs

abbrev pub InStep : {F : Type 0} → PerceptionBridge F → Type 0
InStep b = (b.frame_seq ≡ length b.published % 18446744073709551616) × Counted b.published

module _ {F : Type 0} (p : Numbers F) where
  handle-InStep :
      (b : PerceptionBridge F) (ev : PerceptionEvent F) → InStep b → InStep (handle p b ev)
  unfolding handle on_tick build_frame
  handle-InStep b (objects msg) h = h
  handle-InStep b (cloud points) h = h
  handle-InStep b (grid info cells) h = h
  handle-InStep b (signals msg) h = h
  handle-InStep b (ticked now) h = (omega (arith, h.0), (h.0, h.1))

  -- Whatever messages and ticks a PerceptionBridge handles, in whatever order: if the frames that
  -- it has published are numbered from 0 without a gap (modulo 2^64) and its counter is the next
  -- number, as it is at the start, then both hold afterwards.
  pub handle_all-InStep :
      (b : PerceptionBridge F) (history : List (PerceptionEvent F))
      → InStep b
      → InStep (handle_all p b history)
  unfolding handle_all
  handle_all-InStep b [] h = h
  handle_all-InStep b (ev ∷ rest) h = handle_all-InStep (handle p b ev) rest (handle-InStep b ev h)
