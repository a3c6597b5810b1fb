-- ===== src/Trip/Progress/Timer.antt =====
-- The timer ends an ETA query: the timeouts of tick bound each wait.
use autoware_agent.Base.{
  ◌+◌, ◌*◌, Bool, false, ◌&&◌, if◌then◌else◌, Ensures-weaken, ℕ, zero, suc, ◌≤◌, ◌<◌, ◌≡◌, refl,
  sym, ◌⊎◌, inl, inr, true, leb, List, [], ◌∷◌, subst, arith, ℤ, Returns, Returns-weaken, Ensures,
  Returns-both,
}
use autoware_agent.Geometry.{Lanes}
use autoware_agent.Trip.State.{TripController, elapsed_ms, TripTimings}
use autoware_agent.Trip.Tick.{tick}
use autoware_agent.Trip.Phases.{Inv}
use autoware_agent.Trip.Laws.{LawfulLanes}
use autoware_agent.Trip.Progress.{query_rank, Falls}
use autoware_agent.Trip.Events.{Event, timer, step}
use autoware_agent.Trip.Invariant.Steps.{step-Inv}
use autoware_agent.Trip.Progress.Late.{tick_in-Falls}
use autoware_agent.Trip.Progress.Advances.{Outside, Advances, step-Advances}

-- No timeout is longer.
abbrev pub Bounds : ℕ → TripTimings → Type 0
Bounds limit t =
    (t.loc_timeout_ms ≤ limit) × (t.route_timeout_ms ≤ limit) × (t.eta_settle_ms ≤ limit)

abbrev is_timer : {F : Type 0} → Event F → Bool
is_timer (timer mode engage) = true
is_timer _ = false

-- How many times the limit, in milliseconds, passes in a history, whose times are nanoseconds: the first tick of the timer that is so much later
-- than the start, then the first one so much later than that, and so on.
abbrev pub passes : {F : Type 0} → ℕ → ℕ → List (ℕ × Event F) → ℕ
passes limit since [] = 0
passes limit since ((now, ev) ∷ later) =
    let passed = is_timer ev && leb (since + limit * 1000000) now in
    let rest = passes limit (if passed then now else since) later in
    if passed then suc rest else rest

-- The clock does not go back, and no command comes.
abbrev pub Uncommanded : {F : Type 0} → ℕ → List (ℕ × Event F) → Type 0
Uncommanded since [] = Unit {0}
Uncommanded since ((now, ev) ∷ later) = (since ≤ now) × Outside ev × Uncommanded now later

late_enough :
    (entered since now limit k : ℕ)
    → entered ≤ since
    → leb (since + limit * 1000000) now ≡ true
    → k ≤ limit
    → leb k (elapsed_ms now entered) ≡ true
late_enough entered since now limit k h i j = ground arith

module _ {F M : Type 0} (e : Lanes F M) (Known : ℤ → Type 0) (Sound : M → Type 0)
    (laws : LawfulLanes e Known Sound) where
  -- A state outside of the query is reached after some of the events, without an exception.
  abbrev pub Ends : TripController F M → List (ℕ × Event F) → Type 0
  Ends c [] = query_rank c ≡ 0
  Ends c ((now, ev) ∷ later) = (query_rank c ≡ 0) ⊎ Returns (λ c'. Ends c' later) (step e c now ev)

  -- So many limits are enough: the clock of the state started before the present one, or there is
  -- one to spare.
  abbrev Enough : TripController F M → ℕ → ℕ → ℕ → Type 0
  Enough c since last n =
      ((query_rank c ≤ n) × (c.state_entered_at ≤ since))
      ⊎ ((query_rank c < n) × (c.state_entered_at ≤ last))

  entered_by :
      (c : TripController F M) (since last n : ℕ)
      → since ≤ last
      → Enough c since last n
      → c.state_entered_at ≤ last
  entered_by c since last n h (inl k) = omega arith
  entered_by c since last n h (inr k) = k.1

  -- The limit has not passed, or another event comes.
  Enough-early :
      (c c' : TripController F M) (since last now n : ℕ)
      → last ≤ now
      → Enough c since last n
      → Advances c now (query_rank c) c'
      → Enough c' since now n
  Enough-early c c' since last now n h (inl k) (inl f) = inr (omega (arith, k, f), f.1.0)
  Enough-early c c' since last now n h (inr k) (inl f) = inr (omega (arith, k, f), f.1.0)
  Enough-early c c' since last now n h (inl k) (inr s) =
      inl (omega (arith, k, s), omega (arith, k, s))
  Enough-early c c' since last now n h (inr k) (inr s) =
      inr (omega (arith, k, s), omega (arith, k, s))

  -- A tick after the limit.
  late_step-Falls :
      (c : TripController F M) (since now limit : ℕ) (ev : Event F)
      → (is_timer ev && leb (since + limit * 1000000) now) ≡ true
      → Bounds limit c.timings
      → c.state_entered_at ≤ since
      → since ≤ now
      → 0 < query_rank c
      → Ensures (Falls c now (query_rank c)) (step e c now ev)
  unfolding step tick
  late_step-Falls c since now limit (timer mode engage) passed bounds entered h under_way =
      tick_in-Falls e c.status.state c _
        (
          omega (arith, entered, h),
          late_enough c.state_entered_at since now limit c.timings.loc_timeout_ms entered passed
              bounds.0,
          late_enough c.state_entered_at since now limit c.timings.route_timeout_ms entered passed
              bounds.1,
          late_enough c.state_entered_at since now limit c.timings.eta_settle_ms entered passed
              bounds.2,
        )
        under_way
  late_step-Falls c since now limit _ passed bounds entered h under_way = cc

  abbrev Onward : TripController F M → ℕ → ℕ → ℕ → TripController F M → Type 0
  Onward c since now n c' = (c'.timings ≡ c.timings) × Enough c' since now n

  Advances-timings :
      (c c' : TripController F M) (now : ℕ)
      → Advances c now (query_rank c) c'
      → c'.timings ≡ c.timings
  Advances-timings c c' now (inl f) = f.1.1
  Advances-timings c c' now (inr s) = s.2

  early-Onward :
      (c : TripController F M) (since last now n : ℕ) (ev : Event F)
      → Outside ev
      → since ≤ last
      → last ≤ now
      → 0 < query_rank c
      → Enough c since last n
      → Ensures (Onward c since now n) (step e c now ev)
  early-Onward c since last now n ev o h i under_way enough =
      Ensures-weaken (Advances c now (query_rank c)) (Onward c since now n) (step e c now ev)
        (λ c' k. (Advances-timings c c' now k, Enough-early c c' since last now n i enough k))
        (step-Advances e c now ev o (omega (arith, entered_by c since last n h enough, i))
          under_way)

  late-Onward :
      (c : TripController F M) (since last now limit n : ℕ) (ev : Event F)
      → (is_timer ev && leb (since + limit * 1000000) now) ≡ true
      → Outside ev
      → Bounds limit c.timings
      → since ≤ last
      → last ≤ now
      → 0 < query_rank c
      → Enough c since last (suc n)
      → Ensures (Onward c now now n) (step e c now ev)
  late-Onward c since last now limit n ev passed o bounds h i under_way (inl k) =
      Ensures-weaken (Falls c now (query_rank c)) (Onward c now now n) (step e c now ev)
        (λ c' f. (f.1.1, inl (omega (arith, f.0, k.0), f.1.0)))
        (late_step-Falls c since now limit ev passed bounds k.1 (omega (arith, h, i)) under_way)
  late-Onward c since last now limit n ev passed o bounds h i under_way (inr k) =
      Ensures-weaken (Advances c now (query_rank c)) (Onward c now now n) (step e c now ev)
        (λ c' t. (Advances-timings c c' now t, spare c' t))
        (step-Advances e c now ev o (omega (arith, k.1, i)) under_way)
    where
      spare : (c' : TripController F M) → Advances c now (query_rank c) c' → Enough c' now now n
      spare c' (inl f) = inl (omega (arith, f.0, k.0), f.1.0)
      spare c' (inr t) = inl (omega (arith, t.0, k.0), omega (arith, t.1, k.1, i))

  timer_from-Ends :
      (history : List (ℕ × Event F)) (c : TripController F M) (limit since last : ℕ)
      → Inv Known Sound c
      → Bounds limit c.timings
      → since ≤ last
      → Enough c since last (passes limit since history)
      → Uncommanded last history
      → Ends c history
  timer_from-Ends [] c limit since last i bounds h (inl k) quiet = omega (arith, k.0)
  timer_from-Ends [] c limit since last i bounds h (inr k) quiet = absurd (omega (arith, k.0))
  timer_from-Ends ((now, ev) ∷ later) c limit since last i bounds h enough quiet =
      now_or_later (query_rank c) refl (λ under_way.
        on_counted (is_timer ev && leb (since + limit * 1000000) now) refl
          (λ c' from j same g k.
            timer_from-Ends later c' limit from now j (subst (Bounds limit) (sym same) bounds) g k
              quiet.2)
          under_way enough)
    where
      on_counted :
          (b : Bool)
          → (is_timer ev && leb (since + limit * 1000000) now) ≡ b
          → ((c' : TripController F M) (from : ℕ)
              → Inv Known Sound c'
              → c'.timings ≡ c.timings
              → from ≤ now
              → Enough c' from now (passes limit from later)
              → Ends c' later)
          → 0 < query_rank c
          → Enough c since last (
              if b
              then suc (passes limit (if b then now else since) later)
              else passes limit (if b then now else since) later)
          → Returns (λ c'. Ends c' later) (step e c now ev)
      on_counted true passed further u k =
          Returns-weaken _ (λ c'. Ends c' later) (step e c now ev)
            (λ c' m. further c' now m.0 m.1.0 (omega arith) m.1.1)
            (Returns-both (Inv Known Sound) (Onward c now now (passes limit now later)) _
              (step-Inv e Known Sound laws c now ev i)
              (late-Onward c since last now limit (passes limit now later) ev passed quiet.1 bounds
                h quiet.0 u k))
      on_counted false passed further u k =
          Returns-weaken _ (λ c'. Ends c' later) (step e c now ev)
            (λ c' m. further c' since m.0 m.1.0 (omega (arith, h, quiet.0)) m.1.1)
            (Returns-both (Inv Known Sound) (Onward c since now (passes limit since later)) _
              (step-Inv e Known Sound laws c now ev i)
              (early-Onward c since last now (passes limit since later) ev quiet.1 h quiet.0 u k))

      now_or_later :
          (n : ℕ)
          → query_rank c ≡ n
          → (0 < query_rank c → Returns (λ c'. Ends c' later) (step e c now ev))
          → Ends c ((now, ev) ∷ later)
      now_or_later zero at next = inl at
      now_or_later (suc n) at next = inr (next (omega arith))

  -- For a lanelet map with lawful lookups and a trip controller in the invariant: take a history
  -- of ticks of the timer and messages, as close to each other as they come, with a clock that
  -- does not go back and no command. If at its ticks the longest timeout has passed, one time
  -- after the other, as often as the query has transitions left (ten at most), then after some of
  -- its events the state is none of the query's, and no event up to there raises an exception.
  pub timer-Ends :
      (c : TripController F M) (limit : ℕ) (history : List (ℕ × Event F))
      → Inv Known Sound c
      → Bounds limit c.timings
      → Uncommanded c.state_entered_at history
      → query_rank c ≤ passes limit c.state_entered_at history
      → Ends c history
  timer-Ends c limit history i bounds quiet enough =
      timer_from-Ends history c limit c.state_entered_at c.state_entered_at i bounds (omega arith)
        (inl (enough, omega arith)) quiet
