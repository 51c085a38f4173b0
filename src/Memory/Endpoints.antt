-- ===== src/Memory/Endpoints.antt =====
-- packages/testing/src/memory-state.ts: the methods that write endpoints. The clock and the new
-- secret come in as arguments.
use Prim.Native.String.{◌++◌ as text_append}
use anyhook.Base.{ℕ, ◌+◌, ◌/◌, false, String, Option, none, some, [], ◌∷◌, take}
use anyhook.Base.Dict
use anyhook.Base.Exec.{Exec, pure, throw, ◌>>=◌, ◌>>◌, modify, gets, endpoint_not_found}
use anyhook.Engine.{or_default}
use anyhook.Memory.{MemoryState, TenantData, tenant_data, store_tenant, base36}
use anyhook.Ports.{NewEndpoint, EndpointPatch, CreatedEndpoint}
use anyhook.Types.{Endpoint, ticks_per_ms}

-- ++endpointCounter
next_counter : Exec MemoryState ℕ
next_counter = do
  modify (λ s. record s { endpoint_counter = s.endpoint_counter + 1 })
  gets (λ s. s.endpoint_counter)

abbrev pub new_endpoint : ℕ → String → NewEndpoint → ℕ → Endpoint
new_endpoint now secret e counter = record {
  endpoint_id = text_append "ep_" (text_append (base36 counter) (base36 (now / ticks_per_ms)));
  tenant = e.tenant;
  url = e.url;
  event_types = e.event_types;
  description = e.description;
  disabled = false;
  rate_limit = e.rate_limit;
  created_at = now;
  secrets = secret ∷ [];
}

unfoldable pub create_endpoint : ℕ → String → NewEndpoint → Exec MemoryState CreatedEndpoint
unfolding tenant_data store_tenant next_counter base36
create_endpoint now secret e = do
  d ← tenant_data e.tenant
  counter ← next_counter
  let endpoint = new_endpoint now secret e counter
  store_tenant e.tenant
      (record d { endpoints = Dict.set endpoint.endpoint_id endpoint d.endpoints })
  pure (record { endpoint = endpoint; secret = secret })

-- { ...existing, ...patch }, for the fields that the patch has
abbrev pub patched : Endpoint → EndpointPatch → Endpoint
patched existing patch = record existing {
  url = or_default patch.url existing.url;
  event_types = or_default patch.event_types existing.event_types;
  disabled = or_default patch.disabled existing.disabled;
}

unfoldable pub replace_endpoint :
    String → String → TenantData → Endpoint → Exec MemoryState Endpoint
unfolding store_tenant
replace_endpoint tenant endpoint_id d updated = do
  store_tenant tenant (record d { endpoints = Dict.set endpoint_id updated d.endpoints })
  pure updated

abbrev pub or_not_found : {W : Type 0} → String → Option Endpoint → Exec W Endpoint
or_not_found endpoint_id none = throw (endpoint_not_found endpoint_id)
or_not_found endpoint_id (some existing) = pure existing

unfoldable pub update_endpoint : String → String → EndpointPatch → Exec MemoryState Endpoint
unfolding tenant_data replace_endpoint
update_endpoint tenant endpoint_id patch = do
  d ← tenant_data tenant
  existing ← or_not_found endpoint_id (Dict.get endpoint_id d.endpoints)
  replace_endpoint tenant endpoint_id d (patched existing patch)

-- The new secret in front, and the one that was in front behind it.
abbrev pub rotated : String → Endpoint → Endpoint
rotated secret existing = record existing { secrets = secret ∷ take 1 existing.secrets }

unfoldable pub rotate_secret : String → String → String → Exec MemoryState String
unfolding tenant_data replace_endpoint
rotate_secret secret tenant endpoint_id = do
  d ← tenant_data tenant
  existing ← or_not_found endpoint_id (Dict.get endpoint_id d.endpoints)
  replace_endpoint tenant endpoint_id d (rotated secret existing)
  pure secret

unfoldable pub delete_endpoint : String → String → Exec MemoryState (Unit {0})
unfolding tenant_data store_tenant
delete_endpoint tenant endpoint_id = do
  d ← tenant_data tenant
  store_tenant tenant (record d { endpoints = Dict.delete endpoint_id d.endpoints })
