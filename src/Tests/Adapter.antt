-- ===== src/Tests/Adapter.antt =====
-- A concrete run of the engine on AWS.
use anyhook.Aws.{tenant_pk}
use anyhook.Aws.Adapter.{Platform, adapter_ports, engine_config}
use anyhook.Aws.Adapter.Isolation.{IsPlatform, process_message-Partitioned}
use anyhook.Aws.Partition.{IsSound}
use anyhook.Base.{◌≡◌, refl, String, none, some, [], ◌==◌, false}
use anyhook.Base.Exec.{ok}
use anyhook.Engine.{process_message}
use anyhook.Fetch.{Fetched}
use anyhook.Tests.{message}
use anyhook.Tests.Aws.{Cloud, cloud, table, held, held_table, send_to_queue}
use anyhook.Types.{ms}

abbrev platform : Platform Cloud
platform = record {
  table = table;
  sqs_send = send_to_queue;
  transport_send = λ m. send_to_queue m 0;
  fetch = λ url body headers timeout_ms w. (ok (Fetched.thrown "TimeoutError"), w);
  new_url = λ url. some (record { protocol = "https:"; hostname = "a.example" });
  to_lower = λ s. s;
  clock_now = λ w. (ok (ms 1000), w);
  rng = λ w. (ok 0, w);
  record_attempt = λ a w. (ok tt, w);
  sign = λ secrets id payload at. [];
  sha256_hex = λ s. s;
  to_number = λ s. none;
  show = λ n. "1";
}

silent_platform : IsPlatform platform held held_table 2
silent_platform = record {
  sqs_silent = λ m d w k. refl;
  fetch_silent = λ url body h d w k. refl;
  clock_silent = λ w k. refl;
  rng_silent = λ w k. refl;
  telemetry_silent = λ a w k. refl;
}

process_message-Partitioned_example :
    let v : Cloud = (process_message (adapter_ports platform 2) engine_config message cloud).1 in
    IsSound table held held_table v
    × ((u sk : String)
        → (u == message.tenant) ≡ false
        → held v (record { pk = tenant_pk u; sk = sk })
          ≡ held cloud (record { pk = tenant_pk u; sk = sk }))
process_message-Partitioned_example =
    process_message-Partitioned platform held held_table 2 silent_platform engine_config message
      cloud (λ k. tt)
