-- ===== src/Run.antt =====
-- Running the engine in memory: packages/testing/src/memory-transport.ts (drain),
-- memory-scheduler.ts (advance, nextDueAt), test-clock.ts (tick, set) and harness.ts (runDeliveries).
pub mod Drain
pub mod Rounds
pub mod Advance
use anyhook.Base.{
  ℕ, zero, suc, ◌+◌, min, max, Option, none, some, List, [], ◌∷◌, length, filter, ltb, leb,
}
use anyhook.Base.Exec.{
  Exec, pure, throw, gets, modify, ◌>>=◌, ◌>>◌, for_each, no_handler, max_rounds_exceeded,
}
use anyhook.Types.{Message}
use anyhook.World.{World, Scheduled, transport_send}

-- Math.min(...pending.map((p) => p.at)), and nothing for an empty list
unfoldable pub earliest : List Scheduled → Option ℕ
earliest [] = none
earliest (p ∷ ps) = elim (earliest ps) [ none ↦ some p.at | some t ↦ some (min p.at t) ]

module _ {S : Type 0} where
  -- TestClock.tick, and TestClock.set, which never moves backwards
  unfoldable pub tick : ℕ → Exec (World S) ℕ
  tick by = do modify (λ w. record w { clock = w.clock + by }); gets (λ w. w.clock)

  unfoldable pub set : ℕ → Exec (World S) ℕ
  set to = do modify (λ w. record w { clock = max to w.clock }); gets (λ w. w.clock)

  unfoldable pub next_due_at : Exec (World S) (Option ℕ)
  unfolding earliest
  next_due_at = gets (λ w. earliest w.scheduled)

  -- MemoryScheduler.advance
  unfoldable pub advance : Exec (World S) ℕ
  advance = do
    now ← gets (λ w. w.clock)
    due ← gets (λ w. filter (λ p. leb p.at now) w.scheduled)
    modify (λ w. record w { scheduled = filter (λ p. ltb now p.at) w.scheduled })
    for_each due (λ p. transport_send p.message)
    pure (length due)

  module _ (handler : Message → Exec (World S) (Unit {0})) where
    -- one round of the loop: `next` goes on with the rest
    abbrev pub drain_step : Exec (World S) (Option ℕ) → ℕ → List Message → Exec (World S) (Option ℕ)
    drain_step next count [] = pure (some count)
    drain_step next count (m ∷ rest) = do modify (λ w. record w { queue = rest }); handler m; next

    -- The loop of `drain`, with none where the fuel runs out.
    unfoldable pub drain_loop : ℕ → ℕ → Exec (World S) (Option ℕ)
    drain_loop zero count w = pure none w
    drain_loop (suc fuel) count w = drain_step (drain_loop fuel (count + 1)) count w.queue w

  -- MemoryTransport.drain, for the handler that `subscribe` stored
  unfoldable pub drain :
      Option (Message → Exec (World S) (Unit {0})) → ℕ → Exec (World S) (Option ℕ)
  unfolding drain_loop
  drain none fuel = throw no_handler
  drain (some handler) fuel = drain_loop handler fuel 0

  module _ (handler : Option (Message → Exec (World S) (Unit {0}))) (max_rounds : ℕ) where
    -- if (next !== undefined) clock.set(next)
    unfoldable pub set_if : Option ℕ → Exec (World S) (Unit {0})
    unfolding set
    set_if none = pure tt
    set_if (some t) = do set t; pure tt

    -- the rest of a round, unless nothing is scheduled
    unfoldable pub after_drain :
        Exec (World S) (Unit {0}) → List Scheduled → Exec (World S) (Unit {0})
    unfolding next_due_at set_if advance
    after_drain next [] = pure tt
    after_drain next (p ∷ ps) = do due ← next_due_at; set_if due; advance; next

    unfoldable pub rounds_loop : ℕ → Exec (World S) (Unit {0})
    unfolding after_drain drain
    rounds_loop zero = throw (max_rounds_exceeded max_rounds)
    rounds_loop (suc rounds) = do
      waiting ← gets (λ w. w.queue)
      drain handler (suc (length waiting))
      scheduled ← gets (λ w. w.scheduled)
      after_drain (rounds_loop rounds) scheduled

    -- runDeliveries: a drain has fuel for the messages that wait at its start
    unfoldable pub run_deliveries : Exec (World S) (Unit {0})
    unfolding rounds_loop
    run_deliveries = rounds_loop max_rounds
