-- ===== src/Gateway/Delivery.antt =====
-- What the write queue of VehicleGatewayStreamClient delivers.
use autoware_agent.Base.{
  ℕ, suc, ◌+◌, ◌≤◌, ◌≡◌, refl, sym, ap, ◌∙◌, Bool, true, false, List, [], ◌∷◌, ◌++◌, subst,
  append_assoc, arith,
}
use autoware_agent.Gateway.Stream.{
  Writer, waiting, holding, stopped, Client, Step, reports, shuts_down, opens, leaves, reads,
  read_fails, watchdog_cancels, stops_on_shutdown, stops_on_death, pops, writes, write_fails, ends,
  Reach, start, later,
}

module _ {E : Type 0} where
  abbrev pub firsts : List (E × Bool) → List E
  firsts [] = []
  firsts (p ∷ ps) = p.0 ∷ firsts ps

  -- The number of the failed writes.
  abbrev pub losses : List (E × Bool) → ℕ
  losses [] = 0
  losses ((ev, true) ∷ ps) = losses ps
  losses ((ev, false) ∷ ps) = suc (losses ps)

  -- What the writer has popped and not yet written.
  abbrev pub held : Writer E → List E
  held waiting = []
  held (holding ev) = ev ∷ []
  held stopped = []

  -- A writer in its loop can still lose an event.
  abbrev pub at_risk : Writer E → ℕ
  at_risk stopped = 0
  at_risk _ = 1

  abbrev Conserved : List (E × Bool) → Writer E → List E → List E → Type 0
  Conserved popped w queue enqueued = firsts popped ++ (held w ++ queue) ≡ enqueued

  abbrev Bounded : List (E × Bool) → Writer E → ℕ → Type 0
  Bounded popped w streams = losses popped + at_risk w ≤ streams

  pub record Inv (c : Client E) : Type 0 where
    pub conserved : Conserved c.popped c.writer c.write_queue c.enqueued
    pub bounded : Bounded c.popped c.writer c.streams
    pub between : c.in_stream ≡ false → c.writer ≡ stopped

  firsts-snoc :
      (ps : List (E × Bool)) (p : E × Bool) → firsts (ps ++ p ∷ []) ≡ firsts ps ++ p.0 ∷ []
  firsts-snoc [] p = refl
  firsts-snoc (q ∷ ps) p = ap (q.0 ∷◌) (firsts-snoc ps p)

  losses-written : (ps : List (E × Bool)) (ev : E) → losses (ps ++ (ev, true) ∷ []) ≡ losses ps
  losses-written [] ev = refl
  losses-written ((x, true) ∷ ps) ev = losses-written ps ev
  losses-written ((x, false) ∷ ps) ev = ap suc (losses-written ps ev)

  losses-lost : (ps : List (E × Bool)) (ev : E) → losses (ps ++ (ev, false) ∷ []) ≡ suc (losses ps)
  losses-lost [] ev = refl
  losses-lost ((x, true) ∷ ps) ev = losses-lost ps ev
  losses-lost ((x, false) ∷ ps) ev = ap suc (losses-lost ps ev)

  Conserved-reports :
      (ps : List (E × Bool)) (w : Writer E) (queue enqueued : List E) (ev : E)
      → Conserved ps w queue enqueued
      → Conserved ps w (queue ++ ev ∷ []) (enqueued ++ ev ∷ [])
  Conserved-reports ps w queue enqueued ev h =
      ap (λ l. firsts ps ++ l) (sym (append_assoc (held w) queue (ev ∷ [])))
      ∙ sym (append_assoc (firsts ps) (held w ++ queue) (ev ∷ []))
      ∙ ap (λ l. l ++ ev ∷ []) h

  -- The event that was held is the last one that was popped.
  Conserved-writes :
      (ps : List (E × Bool)) (w w' : Writer E) (queue enqueued : List E) (ev : E) (b : Bool)
      → w ≡ holding ev
      → held w' ≡ []
      → Conserved ps w queue enqueued
      → Conserved (ps ++ (ev, b) ∷ []) w' queue enqueued
  Conserved-writes ps w w' queue enqueued ev b same empty h =
      ap (λ l. firsts (ps ++ (ev, b) ∷ []) ++ (l ++ queue)) empty
      ∙ ap (λ l. l ++ queue) (firsts-snoc ps (ev, b))
      ∙ append_assoc (firsts ps) (ev ∷ []) queue
      ∙ subst (λ v. firsts ps ++ (held v ++ queue) ≡ enqueued) same h

  stops-Inv : (c : Client E) → c.writer ≡ waiting → Inv c → Inv (record c { writer = stopped })
  stops-Inv c w h = record {
    conserved = subst (λ v. Conserved c.popped v c.write_queue c.enqueued) w h.conserved;
    bounded = omega (arith, h.bounded);
    between = λ _. refl;
  }

  pub Step-Inv : {c c' : Client E} → Step c c' → Inv c → Inv c'
  Step-Inv {c = c} (reports ev) h = record {
    conserved = Conserved-reports c.popped c.writer c.write_queue c.enqueued ev h.conserved;
    bounded = h.bounded;
    between = h.between;
  }
  Step-Inv shuts_down h = record {
    conserved = h.conserved;
    bounded = h.bounded;
    between = h.between;
  }
  Step-Inv {c = c} (opens r i s) h =
      let quiet = h.between i in
      record {
        conserved = subst (λ v. Conserved c.popped v c.write_queue c.enqueued) quiet h.conserved;
        bounded = omega (arith, h.bounded);
        between = λ q. cc;
      }
  Step-Inv (leaves r i s) h = record {
    conserved = h.conserved;
    bounded = h.bounded;
    between = h.between;
  }
  Step-Inv (reads i r) h = record {
    conserved = h.conserved;
    bounded = h.bounded;
    between = h.between;
  }
  Step-Inv (read_fails i r) h = record {
    conserved = h.conserved;
    bounded = h.bounded;
    between = h.between;
  }
  Step-Inv (watchdog_cancels i r) h = record {
    conserved = h.conserved;
    bounded = h.bounded;
    between = h.between;
  }
  Step-Inv {c = c} (stops_on_shutdown i w s) h = stops-Inv c w h
  Step-Inv {c = c} (stops_on_death i w s) h = stops-Inv c w h
  Step-Inv {c = c} (pops ev rest i w s d q) h = record {
    conserved =
        subst (λ l. firsts c.popped ++ l ≡ c.enqueued) q
          (subst (λ v. Conserved c.popped v c.write_queue c.enqueued) w h.conserved);
    bounded = subst (λ v. Bounded c.popped v c.streams) w h.bounded;
    between = λ out. cc;
  }
  Step-Inv {c = c} (writes ev i w) h = record {
    conserved =
        Conserved-writes c.popped c.writer waiting c.write_queue c.enqueued ev true w refl
          h.conserved;
    bounded =
        omega (
          arith,
          losses-written c.popped ev,
          subst (λ v. Bounded c.popped v c.streams) w h.bounded,
        );
    between = λ out. cc;
  }
  Step-Inv {c = c} (write_fails ev i w) h = record {
    conserved =
        Conserved-writes c.popped c.writer stopped c.write_queue c.enqueued ev false w refl
          h.conserved;
    bounded =
        omega
          (arith, losses-lost c.popped ev, subst (λ v. Bounded c.popped v c.streams) w h.bounded);
    between = λ out. refl;
  }
  Step-Inv (ends i r w) h = record {
    conserved = h.conserved;
    bounded = h.bounded;
    between = λ _. w;
  }

  Reach-Inv : {c : Client E} → Reach c → Inv c
  Reach-Inv start = record { conserved = refl; bounded = omega arith; between = λ _. refl }
  Reach-Inv (later r st) = Step-Inv st (Reach-Inv r)

  -- In every state that the client reaches, by any interleaving of reports, reads, writes,
  -- reconnections and a shutdown, the events that were popped, the one that the writer holds and
  -- those in the queue are, in this order, exactly the reported ones: none is duplicated,
  -- reordered or dropped from the queue. At most one event for each stream was popped with a
  -- failed write, and so lost.
  pub delivery :
      (c : Client E)
      → Reach c
      → (firsts c.popped ++ (held c.writer ++ c.write_queue) ≡ c.enqueued)
        × (losses c.popped ≤ c.streams)
  delivery c r = let h = Reach-Inv r in (h.conserved, omega (arith, h.bounded))
