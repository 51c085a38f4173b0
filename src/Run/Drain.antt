-- ===== src/Run/Drain.antt =====
-- Draining the transport and running the deliveries to their end: memory-transport.ts and harness.ts of
-- packages/testing/src.
use anyhook.Base.{
  ℕ, zero, suc, ◌+◌, ◌<◌, ◌≤◌, ◌≡◌, refl, ◌∙◌, ap, some, List, [], ◌∷◌, length, arith,
}
use anyhook.Base.Exec.{Exec, ok}
use anyhook.Engine.{EngineConfig, process_message}
use anyhook.Memory.{MemoryState, memory_store}
use anyhook.Memory.Delivery.{memory-Settled, memory-Isolated}
use anyhook.Run.{drain_loop, drain_step, drain}
use anyhook.Types.{Message}
use anyhook.World.{Outside, World, ports}

module _ {S : Type 0} (handler : Message → Exec (World S) (Unit {0})) where
  -- The handler returns, and leaves the queue alone.
  record IsQuiet : Type 0 where
    returns : (m : Message) (w : World S) → (handler m w).0 ≡ ok tt
    queue_kept : (m : Message) (w : World S) → (handler m w).1.queue ≡ w.queue

  -- The world after the handler took each message of a list, in order, with the others waiting.
  abbrev pub handled : List Message → World S → World S
  handled [] w = w
  handled (m ∷ rest) w = handled rest (handler m (record w { queue = rest })).1

  drain_step-empties :
      IsQuiet
      → (fuel count : ℕ) (waiting : List Message) (w : World S) → w.queue ≡ waiting
      → length waiting ≤ fuel
      → let r = drain_step handler (drain_loop handler fuel (count + 1)) count waiting w in
        (r.0 ≡ ok (some (count + length waiting))) × (r.1.queue ≡ []) × (r.1 ≡ handled waiting w)
  unfolding drain_loop
  drain_step-empties q fuel count [] w e h = (ground arith, e, refl)
  drain_step-empties q zero count (m ∷ rest) w e h = absurd (omega (arith, h))
  drain_step-empties q (suc fuel) count (m ∷ rest) w e h =
      let w' : World S = record w { queue = rest } in
      let v : World S = (handler m w').1 in
      let kept : length v.queue ≡ length rest = ap length (q.queue_kept m w') in
      let (r, emptied, all) =
        drain_step-empties q fuel (count + 1) v.queue v refl (omega (arith, h, kept)) in
      rw (q.returns m w') (
        r ∙ ap (λ n. ok (some n)) (omega (arith, kept)),
        emptied,
        all ∙ ap (λ waiting. handled waiting v) (q.queue_kept m w'),
      )

engine_quiet :
    (out : Outside) (cfg : EngineConfig) → IsQuiet (process_message (ports out memory_store) cfg)
engine_quiet out cfg = record {
  returns = λ m w. (memory-Settled out cfg m w).0;
  queue_kept = λ m w. (memory-Isolated out cfg m w).queued;
}

module _ (out : Outside) (cfg : EngineConfig) where
  -- the engine takes each message of a list, in order
  abbrev pub processed : List Message → World MemoryState → World MemoryState
  processed = handled (process_message (ports out memory_store) cfg)

  -- Draining the transport ends: with fuel for more messages than wait, `drain` returns the number of the
  -- messages that waited; the world is then what processMessage makes of it, called on each message that
  -- waited, in order; and the queue is empty.
  pub drain-empties :
      (w : World MemoryState) (fuel : ℕ)
      → length w.queue < fuel
      → let r = drain (some (process_message (ports out memory_store) cfg)) fuel w in
        (r.0 ≡ ok (some (length w.queue))) × (r.1.queue ≡ []) × (r.1 ≡ processed w.queue w)
  unfolding drain drain_loop
  drain-empties w zero h = absurd (omega (arith, h))
  drain-empties w (suc fuel) h =
      let (r, e, all) =
        drain_step-empties _ (engine_quiet out cfg) fuel 0 w.queue w refl (omega (arith, h)) in
      (r ∙ ap (λ n. ok (some n)) (omega arith), e, all)
