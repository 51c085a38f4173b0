-- ===== src/Tests.antt =====
-- Concrete runs: each theorem that has hypotheses or parameters at a concrete input.
pub mod Policies
pub mod Stores
pub mod Cloudflare
pub mod Aws
pub mod Sweeps
pub mod Portal
pub mod Security
pub mod Strokes
pub mod Adapter
pub mod Objects
use anyhook.Base.{
  ℕ, suc, ◌+◌, ◌*◌, ◌-◌, ◌%◌, ◌≤◌, ◌<◌, ◌≡◌, ◌≢◌, ◌↔◌, ◌⊎◌, refl, true, false, none, some, [], ◌∷◌,
  arith,
}
use anyhook.Base.Dict
use anyhook.Base.Exec.{Exec, ok}
use anyhook.Engine.{EngineConfig, send, process_message}
use anyhook.Engine.Simulation.{Simulates}
use anyhook.Engine.Simulation.Methods.{process_message-Simulates, send-Simulates}
use anyhook.Fanout.{subscribes, fanout, pattern_matches}
use anyhook.Id.{new_id}
use anyhook.Fanout.Matching.{AnyOf, Matches, subscribes_iff}
use anyhook.Memory.{MemoryState, memory_store, new_tenant}
use anyhook.Memory.Delivery.{memory-Settled, memory-Isolated, memory-Sends}
use anyhook.Memory.Refines.{view}
use anyhook.Memory.Refines.Methods.{memory_store-refines}
use anyhook.Policy.Circuit.{can_attempt, initial_circuit, on_failure}
use anyhook.Policy.Circuit.Runs.{
  IsCircuit, Step, Reach, Reach-IsCircuit, can_attempt_iff, fail_all, fail_all_opens,
}
use anyhook.Policy.Outcome.{Outcome, classify_outcome, classify_outcome_iff}
use anyhook.Policy.RateLimit.{consume_token, token}
use anyhook.Policy.RateLimit.Throughput.{allowed_count, allowed_count-le}
use anyhook.Policy.Retry.{next_delay_ms, next_delay_ms_cases, delay_bound, default_retry_config}
use anyhook.Ports.{HttpResult}
use anyhook.Spec.{View, view_store}
use anyhook.Spec.Accept.Send.{Sends, SameSend, send-Sends, send-send}
use anyhook.Spec.Isolation.{Isolated, process_message-Isolated}
use anyhook.Spec.Settled.{Settled, schedule}
use anyhook.Spec.Settled.Process.{process_message-Settled}
use anyhook.Types.{
  Endpoint, Message, MessageStatus, SendEvent, Receipt, CircuitRecord, CircuitState, AttemptStatus,
  RateBucket, ms,
}
use anyhook.World.{Outside, World, ports}
use anyhook.World.Refine.{view_world, ports-refine}

-- A receiver that is down, and a generator whose draws name the letters in order.
abbrev pub outside : Outside
outside = record {
  respond = λ before call. record { result = HttpResult.response 503 "down" none; elapsed = ms 30 };
  draws = λ n. n % 36 * 250199979298361;
  random_base64 = λ n. "c2VjcmV0";
  sign = λ secrets id payload t. ("webhook-id", id) ∷ [];
  check_url = λ url. record { allowed = true; reason = none };
  sha256_hex = λ s. "9f86d081884c7d659a2feaa0c55ad015a3bf4f1b2b0b822cd15d6c15b0f00a08";
  to_number = λ s. none;
}

abbrev pub config : EngineConfig
config = record {
  retry = record { schedule_ms = ms 5000 ∷ ms 300000 ∷ [] };
  circuit_cfg = record { failure_threshold = 2; cooldown_ms = ms 30000 };
  max_payload_bytes = 1024;
  timeout_ms = ms 15000;
}

abbrev pub endpoint : Endpoint
endpoint = record {
  endpoint_id = "ep_1";
  tenant = "acme";
  url = "https://acme.test/hook";
  event_types = "payment.*" ∷ [];
  description = none;
  disabled = false;
  rate_limit = some 2000;
  created_at = 0;
  secrets = "whsec_c2VjcmV0" ∷ [];
}

abbrev event : SendEvent
event = record {
  type = "payment.settled";
  tenant = "acme";
  payload = some "{}";
  idempotency_key = some "k1";
}

abbrev pub message : Message
message = record {
  message_id = "msg_1";
  tenant = "acme";
  endpoint_id = "ep_1";
  event_id = "evt_1";
  event_type = "payment.settled";
  payload = some "{}";
  attempt_no = 0;
  status = MessageStatus.pending;
  next_attempt_at = none;
  created_at = 0;
}

abbrev pub memory : MemoryState
memory = record {
  tenants = ("acme", record new_tenant { endpoints = ("ep_1", endpoint) ∷ [] }) ∷ [];
  endpoint_counter = 1;
}

abbrev pub world : World MemoryState
world = record {
  store = memory;
  queue = [];
  scheduled = [];
  clock = ms 1000;
  drawn = 0;
  minted = 0;
  calls = [];
  emitted = [];
}

abbrev seen : World View
seen = view_world view world

process_message-Settled_example :
    ((process_message (ports outside view_store) config message seen).0 ≡ ok tt)
    × Settled message seen
        (process_message (ports outside view_store) config message seen).1
        (schedule outside config message)
process_message-Settled_example = process_message-Settled outside config message seen

process_message-Isolated_example :
    Isolated message seen (process_message (ports outside view_store) config message seen).1
process_message-Isolated_example = process_message-Isolated outside message config seen

send-Sends_example :
    Sends outside config event seen
      (send (ports outside view_store) config event seen).0
      (send (ports outside view_store) config event seen).1
send-Sends_example = send-Sends outside config event seen

abbrev receipt : Receipt
receipt = record { event_id = "evt_abcdefghijklmnopqrst"; message_count = 1 }

sent_once : (send (ports outside view_store) config event seen).0 ≡ ok receipt
unfolding send subscribes new_id Dict.get fanout Dict.values pattern_matches
sent_once = refl

send-send_example :
    SameSend outside config receipt
      (send (ports outside view_store) config event seen).1
      (send
        (ports outside view_store)
        config
        event
        (send (ports outside view_store) config event seen).1).0
      (send
        (ports outside view_store)
        config
        event
        (send (ports outside view_store) config event seen).1).1
send-send_example = send-send outside config event seen receipt sent_once

memory-Settled_example :
    ((process_message (ports outside memory_store) config message world).0 ≡ ok tt)
    × Settled message seen
        (view_world view (process_message (ports outside memory_store) config message world).1)
        (ms 5000 ∷ ms 300000 ∷ [])
memory-Settled_example = memory-Settled outside config message world

memory-Isolated_example :
    Isolated message seen
      (view_world view (process_message (ports outside memory_store) config message world).1)
memory-Isolated_example = memory-Isolated outside config message world

memory-Sends_example :
    Sends outside config event seen
      (send (ports outside memory_store) config event world).0
      (view_world view (send (ports outside memory_store) config event world).1)
memory-Sends_example = memory-Sends outside config event world
