-- ===== src/Location/Silence.antt =====
-- When LocationBridge sends, and how its counter follows what it sends.
use autoware_agent.Base.{
  ℕ, ◌≡◌, refl, sym, Bool, false, List, [], ◌∷◌, All, Option, none, some, if◌then◌else◌, subst,
}
use autoware_agent.Geometry.{GpsCoordinate}
use autoware_agent.Location.{
  LocationMessage, LocationBridge, build_frame, broadcast_frame, located, on_tick,
  set_streaming_enabled, LocationEvent, ticks, switches, handle, handle_all,
}

module _ {F : Type 0} where
  abbrev pub NotEnabling : LocationEvent F → Type 0
  NotEnabling (ticks gps trip_id now) = Unit {0}
  NotEnabling (switches enabled) = enabled ≡ false

  -- Disabled, with these messages and this counter.
  abbrev pub Muted : List (LocationMessage F) → ℕ → LocationBridge F → Type 0
  Muted messages seq b =
      (b.streaming_enabled ≡ false) × (b.published ≡ messages) × (b.frame_seq ≡ seq)

  located-Muted :
      (messages : List (LocationMessage F)) (seq : ℕ) (b : LocationBridge F)
      (gps : Option (GpsCoordinate F))
      → Muted messages seq b
      → Muted messages seq (located b gps)
  located-Muted messages seq b none h = h
  located-Muted messages seq b (some g) h = h

  handle-Muted :
      (messages : List (LocationMessage F)) (seq : ℕ) (b : LocationBridge F) (ev : LocationEvent F)
      → NotEnabling ev
      → Muted messages seq b
      → Muted messages seq (handle b ev)
  unfolding handle on_tick set_streaming_enabled
  handle-Muted messages seq b (ticks gps trip_id now) n h =
      let l = located b gps in
      let k = located-Muted messages seq b gps h in
      subst
        (λ (t : Bool).
          Muted messages seq
            (if t then broadcast_frame (build_frame l now).1 (build_frame l now).0 trip_id else l))
        (sym k.0) k
  handle-Muted messages seq b (switches enabled) n h = (n, h.1, h.2)

  -- If streaming is disabled, then after any ticks and switches of which none enables it, whatever
  -- the providers give, streaming is still disabled, nothing more has been published and the frame
  -- counter is as before.
  pub handle_all-Muted :
      (b : LocationBridge F) (history : List (LocationEvent F))
      → b.streaming_enabled ≡ false
      → All NotEnabling history
      → Muted b.published b.frame_seq (handle_all b history)
  unfolding handle_all
  handle_all-Muted b history off n = muted b history n (off, refl, refl)
    where
      muted :
          (c : LocationBridge F) (evs : List (LocationEvent F))
          → All NotEnabling evs
          → Muted b.published b.frame_seq c
          → Muted b.published b.frame_seq (handle_all c evs)
      muted c [] m h = h
      muted c (ev ∷ evs) m h =
          muted (handle c ev) evs m.1 (handle-Muted b.published b.frame_seq c ev m.0 h)
