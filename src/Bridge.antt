-- ===== src/Bridge.antt =====
-- The timer of a bridge, as ClusterBridge.cc has it and the other bridges repeat it: the io_context
-- of the bridge, scheduleNextTick, the handler of the timer, onTick and shutdown.
pub mod Shutdown
use autoware_agent.Base.{ℕ, suc, ◌≡◌, Bool, true, false}

-- What the io_context has of the timer: the constructor's post, a wait that has not expired, a
-- handler that is queued because the timer expired, one that is queued because the wait was
-- cancelled, or nothing.
pub data Pending : Type 0 where
  first_post waiting expired aborted nothing : Pending

-- `bridge` is what the messages and the ticks work on; `ticks` counts the frames. `shut` tells
-- whether shutdown was called, `running` whether run() of the io_context goes on.
pub record Io (B : Type 0) : Type 0 where
  pub bridge : B
  pub pending : Pending
  pub work_guard : Bool
  pub ticks : ℕ
  pub shut : Bool
  pub running : Bool

-- publisher_timer_.cancel(): a wait that has not expired is aborted; a handler that is queued stays.
abbrev pub cancelled : Pending → Pending
cancelled waiting = aborted
cancelled p = p

module _ {B : Type 0} where
  -- expires_after and async_wait
  unfoldable pub schedule_next_tick : Io B → Io B
  schedule_next_tick c = record c { pending = waiting }

  unfoldable pub cancel_timer : Io B → Io B
  cancel_timer c = record c { pending = cancelled c.pending; shut = true }

module _ {B : Type 0} (tick : B → ℕ → B) where
  -- onTick, where `tick` builds and broadcasts the frame.
  unfoldable pub on_tick : Io B → ℕ → Io B
  unfolding schedule_next_tick
  on_tick c now = schedule_next_tick (record c { bridge = tick c.bridge now; ticks = suc c.ticks })

  -- The handler of the timer; `ec` tells whether it is operation_aborted.
  unfoldable pub on_timer : Io B → Bool → ℕ → Io B
  unfolding on_tick
  on_timer c true now = record c { pending = nothing }
  on_timer c false now = on_tick c now

  pub data Step (c : Io B) : Io B → Type 0 where
    -- the strand runs the constructor's post, or a handler
    starts : c.running ≡ true → c.pending ≡ first_post → Step c (schedule_next_tick c)
    ticks_on : (now : ℕ) → c.running ≡ true → c.pending ≡ expired → Step c (on_timer c false now)
    gives_up : (now : ℕ) → c.running ≡ true → c.pending ≡ aborted → Step c (on_timer c true now)
    -- a message is handled
    handles : (b : B) → c.running ≡ true → Step c (record c { bridge = b })
    -- 16667 microseconds have passed
    expires : c.pending ≡ waiting → Step c (record c { pending = expired })
    -- shutdown, and then its second line
    shuts_down : c.shut ≡ false → Step c (cancel_timer c)
    resets_guard : c.shut ≡ true → Step c (record c { work_guard = false })
    -- run() is out of work, and shutdown joins its thread
    returns : c.pending ≡ nothing → c.work_guard ≡ false → Step c (record c { running = false })

  pub data Steps (c : Io B) : Io B → Type 0 where
    done : Steps c c
    later : {d d' : Io B} → Steps c d → Step d d' → Steps c d'
