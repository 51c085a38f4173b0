-- ===== src/Tests/Stores.antt =====
-- Concrete runs of the in-memory transport, schedule, endpoints and replays.
use anyhook.Base.{ℕ, ◌+◌, ◌<◌, ◌≡◌, Bool, true, Option, none, some, [], ◌∷◌, length, All, arith}
use anyhook.Base.Exec.{Exec, ok}
use anyhook.Engine.{process_message}
use anyhook.Memory.{MemoryState, memory_store, new_tenant}
use anyhook.Memory.Endpoints.{rotate_secret}
use anyhook.Memory.Refines.{view}
use anyhook.Memory.Rewrites.{Modifies, with_new_secret, rotate_secret-Modifies}
use anyhook.Memory.State.{memory_state}
use anyhook.Portal.{replay, replay_endpoint}
use anyhook.Portal.Bulk.{Requeues, selected, replay_endpoint-Requeues}
use anyhook.Portal.Replay.{Replays, replay-Replays}
use anyhook.Ports.{EndpointPatch}
use anyhook.Run.{drain, advance, run_deliveries}
use anyhook.Run.Advance.{advance-counted, counted, messages_of}
use anyhook.Run.Drain.{drain-empties, processed}
use anyhook.Run.Rounds.{Runs, run_deliveries-Runs}
use anyhook.Tests.{outside, config, message, memory, world}
use anyhook.Types.{DlqReason, Message}
use anyhook.World.{World, ports, transport_send}
use anyhook.World.Refine.{view_world}

abbrev handler : Option (Message → Exec (World MemoryState) (Unit {0}))
handler = some (process_message (ports outside memory_store) config)

-- One message waits, one is due and one is not.
abbrev busy : World MemoryState
busy = record world {
  queue = message ∷ [];
  scheduled =
      record { at = 500; message = message }
      ∷ record { at = world.clock + 1; message = record message { attempt_no = 1 } }
      ∷ [];
}

drain-empties_example :
    let r = drain handler 3 busy in
    (r.0 ≡ ok (some 1)) × (r.1.queue ≡ []) × (r.1 ≡ processed outside config busy.queue busy)
drain-empties_example = drain-empties outside config busy 3 (omega arith)

run_deliveries-Runs_example :
    Runs outside config 2 2 busy (run_deliveries handler 2 busy).1 (run_deliveries handler 2 busy).0
run_deliveries-Runs_example = run_deliveries-Runs outside config 2 busy

advance-counted_example :
    let v : World MemoryState = (advance busy).1 in
    (n : ℕ) × ((advance busy).0 ≡ ok n)
    × (length v.queue ≡ 1 + n)
    × (counted (λ m. true) v.queue + counted (λ m. true) (messages_of v.scheduled)
        ≡ counted (λ m. true) busy.queue + counted (λ m. true) (messages_of busy.scheduled))
    × All (λ s. busy.clock < s.at) v.scheduled
advance-counted_example = advance-counted busy (λ m. true)

-- The message is stored, and it is the one dead letter.
abbrev failed : World MemoryState
failed = record world {
  store = record memory {
    tenants =
        (
          "acme",
          record new_tenant {
            messages = ("msg_1", message) ∷ [];
            dlq = record { message = message; reason = DlqReason.exhausted_retries } ∷ [];
          },
        )
        ∷ [];
  };
}

abbrev now : Exec (World MemoryState) ℕ
now = (ports outside memory_store).now

replay-Replays_example :
    let r = replay (memory_state outside) transport_send now "acme" "msg_1" failed in
    (b : Bool) × (r.0 ≡ ok b)
    × Replays outside "acme" "msg_1" (view_world view failed) (view_world view r.1) b
replay-Replays_example = replay-Replays outside "acme" "msg_1" failed

replay_endpoint-Requeues_example :
    let r = replay_endpoint (memory_state outside) transport_send now "acme" "ep_1" none failed in
    (r.0 ≡ ok (length (selected outside "acme" "ep_1" none (view_world view failed))))
    × Requeues
        (selected outside "acme" "ep_1" none (view_world view failed))
        (view_world view failed)
        (view_world view r.1)
replay_endpoint-Requeues_example = replay_endpoint-Requeues outside "acme" "ep_1" none failed

rotate_secret-Modifies_example :
    Modifies "acme" "ep_1"
      (with_new_secret "whsec_new")
      (λ _. "whsec_new")
      memory
      (rotate_secret "whsec_new" "acme" "ep_1" memory).1
      (rotate_secret "whsec_new" "acme" "ep_1" memory).0
rotate_secret-Modifies_example = rotate_secret-Modifies "whsec_new" "acme" "ep_1" memory

abbrev patch : EndpointPatch
patch = record { url = none; event_types = none; disabled = some true }
