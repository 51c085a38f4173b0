-- ===== src/Portal/Replay.antt =====
-- What a replay does, over the in-memory store (packages/core/src/portal/deliveries.ts).
use anyhook.Base.{
  ℕ, ◌≡◌, refl, sym, subst, Bool, true, false, String, Option, none, some, [], ◌∷◌, ◌++◌,
}
use anyhook.Base.Exec.{Exec, Result, ok, pure, ◌>>=◌, ◌>>◌}
use anyhook.Engine.Simulation.{Simulates, Simulates-bind, Simulates-pure}
use anyhook.Memory.{MemoryState, memory_store, get_message, list_dlq, of_endpoint}
use anyhook.Memory.Refines.{view, read-Simulates}
use anyhook.Memory.Refines.Methods.{memory_store-refines}
use anyhook.Memory.State.{memory_state}
use anyhook.Portal.{reenqueue, replay, replay_found, fresh_chain}
use anyhook.Spec.{View, update, view_store}
use anyhook.Types.{Message, MessageStatus}
use anyhook.World.{Outside, World, ports, transport_send, on_store}
use anyhook.World.Refine.{view_world, ports-refine, Simulates-on_store}

-- The message with no attempt made yet, pending, without a time for the next attempt, and created now.
abbrev pub restarted : Message → ℕ → Message
restarted m now = record m {
  attempt_no = 0;
  status = MessageStatus.pending;
  next_attempt_at = none;
  created_at = now;
}

module _ (out : Outside) where
  abbrev pub now : Exec (World MemoryState) ℕ
  now = (ports out memory_store).now

  abbrev pub Sim : {A : Type 0} → Exec (World MemoryState) A → Exec (World View) A → Type 0
  Sim f g = Simulates (view_world view) f g

  -- the same over the tables of the specification
  abbrev pub again : Message → Exec (World View) (Unit {0})
  again m = do
    at ← (ports out view_store).now
    (ports out view_store).put_message (fresh_chain m at)
    (ports out view_store).transport_send (fresh_chain m at)

  abbrev again_found : Option Message → Exec (World View) Bool
  again_found none = pure false
  again_found (some m) = do again m; pure true

  pub reenqueue-Sim :
      (m : Message) → Sim (reenqueue (memory_state out) transport_send now m) (again m)
  unfolding reenqueue
  reenqueue-Sim m =
      let r = ports-refine view out memory_store view_store memory_store-refines in
      Simulates-bind (view_world view) _ _ _ _ r.now
        λ at. Simulates-bind (view_world view) _ _ _ _ (r.put_message _) λ _. r.transport_send _

  found-Sim :
      (found : Option Message)
      → Sim (replay_found (memory_state out) transport_send now found) (again_found found)
  unfolding replay_found
  found-Sim none = Simulates-pure (view_world view) false
  found-Sim (some m) =
      Simulates-bind (view_world view) _ _ _ _ (reenqueue-Sim m)
        λ _. Simulates-pure (view_world view) true

  get_message-Sim :
      (t id : String) → Sim (on_store (get_message t id)) (λ w. (ok (w.store.message t id), w))
  unfolding get_message
  get_message-Sim t id =
      Simulates-on_store view _ _ (read-Simulates t _ (λ v. v.message t id) λ s. refl)

  pub list_dlq-Sim :
      (t : String) (e : Option String)
      → Sim (on_store (list_dlq t e)) (λ w. (ok (of_endpoint e (w.store.dlq t)), w))
  unfolding list_dlq
  list_dlq-Sim t e =
      Simulates-on_store view _ _ (read-Simulates t _ (λ v. of_endpoint e (v.dlq t)) λ s. refl)

  -- How a replay ends: a message that the tenant does not have is refused and nothing changes, and any
  -- other is stored and queued, restarted.
  pub data Replays (tenant message_id : String) (w v : World View) : Bool → Type 0 where
    refused : w.store.message tenant message_id ≡ none → v ≡ w → Replays tenant message_id w v false
    replayed :
        (m : Message)
        → w.store.message tenant message_id ≡ some m
        → v.queue ≡ w.queue ++ restarted m w.clock ∷ []
        → v.store ≡ record w.store {
          message = update w.store.message m.tenant m.message_id (some (restarted m w.clock));
        }
        → v.scheduled ≡ w.scheduled
        → Replays tenant message_id w v true

  found-Replays :
      (tenant message_id : String) (w : World View) (found : Option Message)
      → w.store.message tenant message_id ≡ found
      → (b : Bool) × ((again_found found w).0 ≡ ok b)
        × Replays tenant message_id w (again_found found w).1 b
  found-Replays tenant message_id w none e = (false, refl, refused e refl)
  found-Replays tenant message_id w (some m) e = (true, refl, replayed m e refl refl refl)

  -- Replaying a message over the in-memory store always returns. A message that the tenant does not have is
  -- refused, and nothing changes; any other is stored and queued again under its id with no attempt made,
  -- pending, without a time for the next attempt and created now, and nothing else changes.
  pub replay-Replays :
      (tenant message_id : String) (w : World MemoryState)
      → let r = replay (memory_state out) transport_send now tenant message_id w in
        (b : Bool) × (r.0 ≡ ok b)
        × Replays tenant message_id (view_world view w) (view_world view r.1) b
  replay-Replays tenant message_id w =
      let u = view_world view w in
      subst
        (λ (r : Result Bool × World View).
          (b : Bool) × (r.0 ≡ ok b) × Replays tenant message_id u r.1 b)
        (sym (seen.at w))
        (found-Replays tenant message_id u (u.store.message tenant message_id) refl)
    where
      seen :
          Sim
            (replay (memory_state out) transport_send now tenant message_id)
            (λ w. again_found (w.store.message tenant message_id) w)
      seen =
          unfold replay in
          Simulates-bind (view_world view) _ (λ w. (ok (w.store.message tenant message_id), w)) _ _
            (get_message-Sim tenant message_id) found-Sim
