-- ===== src/Memory/State.antt =====
-- The whole in-memory StateStore in its world: the clock, and a new secret for each endpoint
-- (packages/testing/src/memory-state.ts).
use anyhook.Base.{ℕ, suc, String}
use anyhook.Base.Exec.{Exec, ok, ◌>>=◌}
use anyhook.Memory.{
  MemoryState, memory_store, list_endpoints, get_message, list_deliveries, list_dlq,
}
use anyhook.Memory.Endpoints.{create_endpoint, update_endpoint, rotate_secret, delete_endpoint}
use anyhook.Ports.{StateStore, NewEndpoint, CreatedEndpoint}
use anyhook.Signing.{generate_secret}
use anyhook.World.{Outside, World, on_store, lift_store}

module _ (out : Outside) where
  -- generateSecret(), from the next random bytes
  abbrev pub mint : Exec (World MemoryState) String
  mint w = (ok (generate_secret (out.random_base64 w.minted)), record w { minted = suc w.minted })

  abbrev now : Exec (World MemoryState) ℕ
  now w = (ok w.clock, w)

  abbrev created : NewEndpoint → Exec (World MemoryState) CreatedEndpoint
  created e = do secret ← mint; at ← now; on_store (create_endpoint at secret e)

  abbrev rotated : String → String → Exec (World MemoryState) String
  rotated t e = do secret ← mint; on_store (rotate_secret secret t e)

  abbrev pub memory_state : StateStore (World MemoryState)
  memory_state = record {
    delivery = lift_store memory_store;
    create_endpoint = created;
    list_endpoints = λ t. on_store (list_endpoints t);
    update_endpoint = λ t e patch. on_store (update_endpoint t e patch);
    rotate_secret = rotated;
    delete_endpoint = λ t e. on_store (delete_endpoint t e);
    get_message = λ t m. on_store (get_message t m);
    list_deliveries = λ q. on_store (list_deliveries q);
    list_dlq = λ t e. on_store (list_dlq t e);
  }
