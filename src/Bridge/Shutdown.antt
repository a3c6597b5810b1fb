-- ===== src/Bridge/Shutdown.antt =====
-- When the shutdown of a bridge ends.
use autoware_agent.Base.{ℕ, ◌≡◌, refl, sym, ◌∙◌, Bool, true, false, ◌⊎◌, inl, inr, subst}
use autoware_agent.Bridge.{
  Io, Pending, first_post, waiting, expired, aborted, nothing, cancelled, schedule_next_tick,
  cancel_timer, on_tick, on_timer, Step, starts, ticks_on, gives_up, handles, expires, shuts_down,
  resets_guard, returns, Steps, done, later,
}

-- What still comes back to the timer.
abbrev pub Live : Pending → Type 0
Live first_post = Unit {0}
Live waiting = Unit {0}
Live expired = Unit {0}
Live _ = ⊥

-- What is about to end.
abbrev pub Ending : Pending → Type 0
Ending aborted = Unit {0}
Ending nothing = Unit {0}
Ending _ = ⊥

module _ {B : Type 0} (tick : B → ℕ → B) where
  abbrev Hanging : Io B → Type 0
  Hanging c = (c.shut ≡ true) × Live c.pending × (c.running ≡ true)

  Hanging-Step : (c d : Io B) → Hanging c → Step tick c d → Hanging d
  unfolding schedule_next_tick on_timer on_tick cancel_timer
  Hanging-Step c d h (starts r p) = (h.0, tt, r)
  Hanging-Step c d h (ticks_on now r p) = (h.0, tt, r)
  Hanging-Step c d h (gives_up now r p) = absurd (subst Live p h.1)
  Hanging-Step c d h (handles b r) = h
  Hanging-Step c d h (expires p) = (h.0, tt, h.2)
  Hanging-Step c d h (shuts_down s) = absurd (cc (sym s ∙ h.0))
  Hanging-Step c d h (resets_guard s) = h
  Hanging-Step c d h (returns p g) = absurd (subst Live p h.1)

  Hanging-Steps : (c d : Io B) → Hanging c → Steps tick c d → Hanging d
  Hanging-Steps c d h done = h
  Hanging-Steps c d h (later {d = m} before s) = Hanging-Step m d (Hanging-Steps c m h before) s

  -- Shut down while the handler of the expired timer is queued, or before the constructor's post
  -- has run, a bridge never gets out of run(): the handler sees no error and arms the timer again,
  -- and no state that can be reached has left run().
  pub shutdown-hangs :
      (c d : Io B)
      → c.running ≡ true
      → (c.pending ≡ first_post) ⊎ (c.pending ≡ expired)
      → Steps tick (cancel_timer c) d
      → d.running ≡ true
  unfolding cancel_timer
  shutdown-hangs c d r late steps =
      (Hanging-Steps (cancel_timer c) d (refl, live c.pending late, r) steps).2
    where
      live : (p : Pending) → (p ≡ first_post) ⊎ (p ≡ expired) → Live (cancelled p)
      live p (inl e) = subst (λ q. Live (cancelled q)) (sym e) tt
      live p (inr e) = subst (λ q. Live (cancelled q)) (sym e) tt

  abbrev Closing : ℕ → Io B → Type 0
  Closing n c = (c.shut ≡ true) × Ending c.pending × (c.ticks ≡ n)

  Closing-Step : (n : ℕ) (c d : Io B) → Closing n c → Step tick c d → Closing n d
  unfolding schedule_next_tick on_timer on_tick cancel_timer
  Closing-Step n c d h (starts r p) = absurd (subst Ending p h.1)
  Closing-Step n c d h (ticks_on now r p) = absurd (subst Ending p h.1)
  Closing-Step n c d h (gives_up now r p) = (h.0, tt, h.2)
  Closing-Step n c d h (handles b r) = h
  Closing-Step n c d h (expires p) = absurd (subst Ending p h.1)
  Closing-Step n c d h (shuts_down s) = absurd (cc (sym s ∙ h.0))
  Closing-Step n c d h (resets_guard s) = h
  Closing-Step n c d h (returns p g) = h

  Closing-Steps : (n : ℕ) (c d : Io B) → Closing n c → Steps tick c d → Closing n d
  Closing-Steps n c d h done = h
  Closing-Steps n c d h (later {d = m} before s) =
      Closing-Step n m d (Closing-Steps n c m h before) s

  -- A state from which run() can still return.
  abbrev pub CanReturn : Io B → Type 0
  CanReturn d = (d' : Io B) × Steps tick d d' × (d'.running ≡ false)

  Closing-CanReturn : (n : ℕ) (d : Io B) → Closing n d → CanReturn d
  unfolding on_timer
  Closing-CanReturn n d h = tested d.running d.pending refl refl h.1
    where
      tested : (r : Bool) (p : Pending) → d.running ≡ r → d.pending ≡ p → Ending p → CanReturn d
      tested false p e f k = (d, done, e)
      tested true nothing e f k = (_, later (later done (resets_guard h.0)) (returns f refl), refl)
      tested true aborted e f k = (
        _,
        later (later (later done (gives_up 0 e f)) (resets_guard h.0)) (returns refl refl),
        refl,
      )
      tested true first_post e f k = absurd k
      tested true waiting e f k = absurd k
      tested true expired e f k = absurd k

  -- Shut down while the wait of the timer has not expired, a bridge makes no further frame, and
  -- from every state that it can then reach, run() can still return.
  pub shutdown-ends :
      (c d : Io B)
      → c.pending ≡ waiting
      → Steps tick (cancel_timer c) d
      → (d.ticks ≡ c.ticks) × CanReturn d
  unfolding cancel_timer
  shutdown-ends c d w steps =
      let h =
        Closing-Steps c.ticks (cancel_timer c) d
          (refl, subst (λ q. Ending (cancelled q)) (sym w) tt, refl) steps in
      (h.2, Closing-CanReturn c.ticks d h)
