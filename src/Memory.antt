-- ===== src/Memory.antt =====
-- packages/testing/src/memory-state.ts: the in-memory StateStore, tenant first. Its endpoint methods
-- that write are in Memory.Endpoints.
pub mod Endpoints
pub mod Refines
pub mod Delivery
pub mod State
pub mod Rewrites
use Prim.Native.String.{◌++◌ as text_append}
use anyhook.Base.{
  ℕ, zero, suc, ◌+◌, ◌/◌, ◌%◌, Bool, true, false, String, Option, none, some, List, [], ◌∷◌, ◌++◌,
  map, filter, get_or, take, ◌==◌, ltb, if◌then◌else◌,
}
use anyhook.Base.Dict
use anyhook.Base.Dict.{Dict}
use anyhook.Base.Exec.{Exec, pure, throw, ◌>>=◌, ◌>>◌, modify, endpoint_not_found}
use anyhook.Engine.{or_default}
use anyhook.Fanout.{subscribes}
use anyhook.Id.{char_at, alphabet}
use anyhook.Listing.{select_rows}
use anyhook.Policy.Circuit.{initial_circuit, default_cooldown_ms}
use anyhook.Ports.{
  DeliveryStore, RecordedEvent, NewEndpoint, EndpointPatch, CreatedEndpoint, DeliveryQuery,
  DeliveryRow,
}
use anyhook.Types.{
  Endpoint, Message, Attempt, CircuitRecord, RateBucket, DlqRow, DlqReason, EventRecord,
  ticks_per_ms,
}

-- n.toString(36)
base36_loop : ℕ → ℕ → String → String
base36_loop zero n s = s
base36_loop (suc fuel) n s =
    let more = base36_loop fuel (n / 36) (text_append (char_at digits (n % 36)) s) in
    if ltb n 36 then text_append (char_at digits n) s else more
  where
    digits : String
    digits = "0123456789abcdefghijklmnopqrstuvwxyz"

-- A number has fewer digits than it counts.
unfoldable pub base36 : ℕ → String
unfolding base36_loop
base36 n = base36_loop (suc n) n ""

pub record TenantData : Type 0 where
  pub events : Dict EventRecord
  pub endpoints : Dict Endpoint
  pub messages : Dict Message
  pub attempts : Dict (List Attempt)
  pub circuits : Dict CircuitRecord
  pub rate_buckets : Dict RateBucket
  pub dlq : List DlqRow

abbrev pub new_tenant : TenantData
new_tenant = record {
  events = [];
  endpoints = [];
  messages = [];
  attempts = [];
  circuits = [];
  rate_buckets = [];
  dlq = [];
}

-- `endpoint_counter` is the module's own variable.
pub record MemoryState : Type 0 where
  pub tenants : Dict TenantData
  pub endpoint_counter : ℕ

-- the tenant's data, made and stored at the first look
unfoldable pub tenant_data : String → Exec MemoryState TenantData
tenant_data tenant s = elim (Dict.get tenant s.tenants) [
  | some d ↦ pure d s
  | none ↦ pure new_tenant (record s { tenants = Dict.set tenant new_tenant s.tenants })
]

-- The maps of a tenant are changed in place.
unfoldable pub store_tenant : String → TenantData → Exec MemoryState (Unit {0})
store_tenant tenant d = modify (λ s. record s { tenants = Dict.set tenant d s.tenants })

accepted_before :
    String → String → String → TenantData → Option EventRecord → Exec MemoryState RecordedEvent
accepted_before tenant event_id idem_key d (some existing) = pure (record {
  is_new = false;
  event_id = existing.event_id;
  message_count = existing.message_count;
})
accepted_before tenant event_id idem_key d none = do
  store_tenant tenant (record d {
    events = Dict.set idem_key (record { event_id = event_id; message_count = 0 }) d.events;
  })
  pure (record { is_new = true; event_id = event_id; message_count = 0 })

unfoldable pub record_event : String → String → String → Exec MemoryState RecordedEvent
unfolding tenant_data store_tenant accepted_before
record_event tenant event_id idem_key = do
  d ← tenant_data tenant
  accepted_before tenant event_id idem_key d (Dict.get idem_key d.events)

unfoldable pub finalize_event : String → String → String → ℕ → Exec MemoryState (Unit {0})
unfolding tenant_data store_tenant
finalize_event tenant idem_key event_id message_count = do
  d ← tenant_data tenant
  store_tenant tenant (record d {
    events =
        Dict.set idem_key (record { event_id = event_id; message_count = message_count }) d.events;
  })

unfoldable pub get_endpoint : String → String → Exec MemoryState (Option Endpoint)
unfolding tenant_data
get_endpoint tenant endpoint_id = do d ← tenant_data tenant; pure (Dict.get endpoint_id d.endpoints)

unfoldable pub list_endpoints : String → Exec MemoryState (List Endpoint)
unfolding tenant_data
list_endpoints tenant = do d ← tenant_data tenant; pure (Dict.values d.endpoints)

unfoldable pub match_endpoints : String → String → Exec MemoryState (List Endpoint)
unfolding list_endpoints
match_endpoints tenant event_type = do
  all ← list_endpoints tenant
  pure (filter (λ e. subscribes e event_type) all)

unfoldable pub put_message : Message → Exec MemoryState (Unit {0})
unfolding tenant_data store_tenant
put_message m = do
  d ← tenant_data m.tenant
  store_tenant m.tenant (record d { messages = Dict.set m.message_id m d.messages })

unfoldable pub get_message : String → String → Exec MemoryState (Option Message)
unfolding tenant_data
get_message tenant message_id = do d ← tenant_data tenant; pure (Dict.get message_id d.messages)

unfoldable pub append_attempt : Attempt → Exec MemoryState (Unit {0})
unfolding tenant_data store_tenant
append_attempt a = do
  d ← tenant_data a.tenant
  store_tenant a.tenant (record d {
    attempts =
        Dict.set a.message_id (or_default (Dict.get a.message_id d.attempts) [] ++ a ∷ [])
          d.attempts;
  })

unfoldable pub list_deliveries : DeliveryQuery → Exec MemoryState (List DeliveryRow)
unfolding tenant_data
list_deliveries q = do
  d ← tenant_data q.tenant
  pure (
      map (λ m. record { message = m; attempts = or_default (Dict.get m.message_id d.attempts) [] })
        (select_rows q (Dict.values d.messages)))

unfoldable pub get_circuit : String → String → Exec MemoryState CircuitRecord
unfolding tenant_data
get_circuit tenant endpoint_id = do
  d ← tenant_data tenant
  pure (or_default (Dict.get endpoint_id d.circuits) (initial_circuit default_cooldown_ms))

unfoldable pub put_circuit : String → String → CircuitRecord → Exec MemoryState (Unit {0})
unfolding tenant_data store_tenant
put_circuit tenant endpoint_id rec = do
  d ← tenant_data tenant
  store_tenant tenant (record d { circuits = Dict.set endpoint_id rec d.circuits })

unfoldable pub get_rate_bucket : String → String → Exec MemoryState (Option RateBucket)
unfolding tenant_data
get_rate_bucket tenant endpoint_id = do
  d ← tenant_data tenant
  pure (Dict.get endpoint_id d.rate_buckets)

unfoldable pub put_rate_bucket : String → String → RateBucket → Exec MemoryState (Unit {0})
unfolding tenant_data store_tenant
put_rate_bucket tenant endpoint_id bucket = do
  d ← tenant_data tenant
  store_tenant tenant (record d { rate_buckets = Dict.set endpoint_id bucket d.rate_buckets })

unfoldable pub add_to_dlq : Message → DlqReason → Exec MemoryState (Unit {0})
unfolding tenant_data store_tenant
add_to_dlq m reason = do
  d ← tenant_data m.tenant
  store_tenant m.tenant (record d { dlq = d.dlq ++ record { message = m; reason = reason } ∷ [] })

-- if (endpointId) …, where the empty string is no endpoint
abbrev pub of_endpoint : Option String → List DlqRow → List DlqRow
of_endpoint none rows = rows
of_endpoint (some e) rows = if e == "" then rows else filter (λ r. r.message.endpoint_id == e) rows

unfoldable pub list_dlq : String → Option String → Exec MemoryState (List DlqRow)
unfolding tenant_data
list_dlq tenant endpoint_id = do d ← tenant_data tenant; pure (of_endpoint endpoint_id d.dlq)

abbrev pub memory_store : DeliveryStore MemoryState
memory_store = record {
  record_event = record_event;
  finalize_event = finalize_event;
  get_endpoint = get_endpoint;
  match_endpoints = match_endpoints;
  put_message = put_message;
  append_attempt = append_attempt;
  get_circuit = get_circuit;
  put_circuit = put_circuit;
  get_rate_bucket = get_rate_bucket;
  put_rate_bucket = put_rate_bucket;
  add_to_dlq = add_to_dlq;
}
