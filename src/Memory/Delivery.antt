-- ===== src/Memory/Delivery.antt =====
-- The engine over the in-memory store, by way of the specification (packages/core/src/engine.ts and
-- packages/testing/src/memory-state.ts).
use anyhook.Base.{◌≡◌, ◌∙◌, ap, sym, subst}
use anyhook.Base.Exec.{Result, ok}
use anyhook.Engine.{EngineConfig, process_message, send}
use anyhook.Engine.Simulation.Methods.{process_message-Simulates, send-Simulates}
use anyhook.Memory.{MemoryState, memory_store}
use anyhook.Memory.Refines.{view}
use anyhook.Memory.Refines.Methods.{memory_store-refines}
use anyhook.Spec.{View, view_store}
use anyhook.Spec.Isolation.{Isolated, process_message-Isolated}
use anyhook.Spec.Settled.{Settled}
use anyhook.Spec.Settled.Process.{process_message-Settled}
use anyhook.Spec.Accept.Send.{Sends, send-Sends}
use anyhook.Types.{Message, SendEvent, Receipt}
use anyhook.World.{Outside, World, ports}
use anyhook.World.Refine.{view_world, ports-refine}

module _ (out : Outside) (cfg : EngineConfig) (m : Message) (w : World MemoryState) where
  abbrev after : Result (Unit {0}) × World MemoryState
  after = process_message (ports out memory_store) cfg m w

  seen :
      ◌≡◌ {A = Result (Unit {0}) × World View}
        (after.0, view_world view after.1)
        (process_message (ports out view_store) cfg m (view_world view w))
  seen =
      (process_message-Simulates (view_world view) (ports out memory_store) (ports out view_store)
          cfg (ports-refine view out memory_store view_store memory_store-refines) m).at
        w

  -- Over the in-memory store too, delivering a message always returns, and settles it in one of the
  -- four ways.
  pub memory-Settled :
      (after.0 ≡ ok tt)
      × Settled m (view_world view w) (view_world view after.1) cfg.retry.schedule_ms
  memory-Settled =
      let (o, s) = process_message-Settled out cfg m (view_world view w) in
      (
        ap (λ r. r.0) seen ∙ o,
        subst (λ v. Settled m (view_world view w) v cfg.retry.schedule_ms)
            (sym (ap (λ r. r.1) seen)) s,
      )

  -- Over the in-memory store too, delivering a message leaves alone what belongs to others.
  pub memory-Isolated : Isolated m (view_world view w) (view_world view after.1)
  memory-Isolated =
      subst (Isolated m (view_world view w)) (sym (ap (λ r. r.1) seen))
        (process_message-Isolated out m cfg (view_world view w))

module _ (out : Outside) (cfg : EngineConfig) (event : SendEvent) (w : World MemoryState) where
  abbrev sent : Result Receipt × World MemoryState
  sent = send (ports out memory_store) cfg event w

  sent_seen :
      ◌≡◌ {A = Result Receipt × World View}
        (sent.0, view_world view sent.1)
        (send (ports out view_store) cfg event (view_world view w))
  sent_seen =
      (send-Simulates (view_world view) (ports out memory_store) (ports out view_store) cfg
          (ports-refine view out memory_store view_store memory_store-refines) event).at
        w

  -- Over the in-memory store too, sending an event ends in one of the six ways.
  pub memory-Sends : Sends out cfg event (view_world view w) sent.0 (view_world view sent.1)
  memory-Sends =
      subst (λ (r : Result Receipt × World View). Sends out cfg event (view_world view w) r.0 r.1)
        (sym sent_seen) (send-Sends out cfg event (view_world view w))
