-- ===== src/Gateway/Stream.antt =====
-- run_with_reconnect and run_stream of VehicleGatewayStreamClient.h: the threads of one stream, and
-- the write queue that they share with the reports, interleaved in any order.
use autoware_agent.Base.{ℕ, suc, ◌≡◌, Bool, true, false, List, [], ◌∷◌, ◌++◌}

-- The writer waits, has popped an event and not yet called Write, or has left its loop.
pub data Writer (E : Type 0) : Type 0 where
  waiting : Writer E
  holding : E → Writer E
  stopped : Writer E

-- `enqueued` and `popped` are histories, oldest first, `popped` with the result of Write, and
-- `streams` counts the calls of run_stream. `reading` tells whether the read loop
-- goes on, `in_stream` whether run_stream does, and `reconnecting` whether run_with_reconnect does.
pub record Client (E : Type 0) : Type 0 where
  pub shutdown : Bool
  pub write_queue : List E
  pub reconnecting : Bool
  pub in_stream : Bool
  pub stream_dead : Bool
  pub read_received : Bool
  pub reading : Bool
  pub writer : Writer E
  pub enqueued : List E
  pub popped : List (E × Bool)
  pub streams : ℕ

-- What a stream starts with.
abbrev pub opened : {E : Type 0} → Client E → Client E
opened c = record c {
  in_stream = true;
  stream_dead = false;
  read_received = false;
  reading = true;
  writer = waiting;
  streams = suc c.streams;
}

pub data Step {E : Type 0} (c : Client E) : Client E → Type 0 where
  -- `enqueue`, from whichever thread
  reports :
      (ev : E)
      → Step c
          (record c { write_queue = c.write_queue ++ ev ∷ []; enqueued = c.enqueued ++ ev ∷ [] })
  shuts_down : Step c (record c { shutdown = true })
  -- `while (!shutdown_)` of run_with_reconnect
  opens : c.reconnecting ≡ true → c.in_stream ≡ false → c.shutdown ≡ false → Step c (opened c)
  leaves :
      c.reconnecting ≡ true
      → c.in_stream ≡ false
      → c.shutdown ≡ true
      → Step c (record c { reconnecting = false })
  -- Read gives a command, or fails
  reads : c.in_stream ≡ true → c.reading ≡ true → Step c (record c { read_received = true })
  read_fails :
      c.in_stream ≡ true
      → c.reading ≡ true
      → Step c (record c { reading = false; stream_dead = true })
  -- eight seconds without an answer
  watchdog_cancels :
      c.in_stream ≡ true → c.read_received ≡ false → Step c (record c { stream_dead = true })
  -- the writer, under the mutex: it leaves, or pops the front
  stops_on_shutdown :
      c.in_stream ≡ true
      → c.writer ≡ waiting
      → c.shutdown ≡ true
      → Step c (record c { writer = stopped })
  stops_on_death :
      c.in_stream ≡ true
      → c.writer ≡ waiting
      → c.stream_dead ≡ true
      → Step c (record c { writer = stopped })
  pops :
      (ev : E) (rest : List E)
      → c.in_stream ≡ true
      → c.writer ≡ waiting
      → c.shutdown ≡ false
      → c.stream_dead ≡ false
      → c.write_queue ≡ ev ∷ rest
      → Step c (record c { writer = holding ev; write_queue = rest })
  writes :
      (ev : E)
      → c.in_stream ≡ true
      → c.writer ≡ holding ev
      → Step c (record c { writer = waiting; popped = c.popped ++ (ev, true) ∷ [] })
  write_fails :
      (ev : E)
      → c.in_stream ≡ true
      → c.writer ≡ holding ev
      → Step c
          (record c { writer = stopped; stream_dead = true; popped = c.popped ++ (ev, false) ∷ [] })
  -- both threads are joined
  ends :
      c.in_stream ≡ true
      → c.reading ≡ false
      → c.writer ≡ stopped
      → Step c (record c { in_stream = false })

-- The client as its constructor leaves it.
abbrev pub created : {E : Type 0} → Client E
created = record {
  shutdown = false;
  write_queue = [];
  reconnecting = true;
  in_stream = false;
  stream_dead = false;
  read_received = false;
  reading = false;
  writer = stopped;
  enqueued = [];
  popped = [];
  streams = 0;
}

pub data Reach {E : Type 0} : Client E → Type 0 where
  start : Reach created
  later : {c c' : Client E} → Reach c → Step c c' → Reach c'
