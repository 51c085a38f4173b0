-- ===== src/Cloudflare/Tenant.antt =====
-- packages/cloudflare/src/tenant-do.ts: the Durable Object of one tenant, with its endpoints, accepted
-- events and the index from messages to endpoints, all in one storage under prefixed keys.
pub mod Events
use Prim.Native.String.{◌++◌}
use anyhook.Base.{ℕ, true, false, String, Option, none, some, List, [], ◌∷◌, filter}
use anyhook.Base.Exec.{Exec, pure, throw, ◌>>=◌, ◌>>◌, endpoint_not_found}
use anyhook.Cloudflare.{Storage}
use anyhook.Fanout.{subscribes}
use anyhook.Memory.Endpoints.{patched, rotated, or_not_found}
use anyhook.Ports.{NewEndpoint, EndpointPatch, CreatedEndpoint, RecordedEvent}
use anyhook.Types.{Endpoint, EventRecord}

-- what the storage holds, by the prefix of the key
pub data Value : Type 0 where
  endpoint : Endpoint → Value
  event : EventRecord → Value
  index : String → Value

-- get<Endpoint>(…), get<EventRecord>(…) and get<string>(…)
abbrev pub as_endpoint : Option Value → Option Endpoint
as_endpoint (some (Value.endpoint e)) = some e
as_endpoint (some (Value.event _)) = none
as_endpoint (some (Value.index _)) = none
as_endpoint none = none

abbrev pub as_event : Option Value → Option EventRecord
as_event (some (Value.endpoint _)) = none
as_event (some (Value.event e)) = some e
as_event (some (Value.index _)) = none
as_event none = none

abbrev pub as_index : Option Value → Option String
as_index (some (Value.endpoint _)) = none
as_index (some (Value.event _)) = none
as_index (some (Value.index id)) = some id
as_index none = none

abbrev pub endpoints_of : List (String × Value) → List Endpoint
endpoints_of [] = []
endpoints_of ((k, Value.endpoint e) ∷ rows) = e ∷ endpoints_of rows
endpoints_of ((k, Value.event _) ∷ rows) = endpoints_of rows
endpoints_of ((k, Value.index _) ∷ rows) = endpoints_of rows

abbrev pub endpoint_key : String → String
endpoint_key endpoint_id = "ep:" ++ endpoint_id

abbrev pub event_key : String → String
event_key idem_key = "evt:" ++ idem_key

abbrev pub index_key : String → String
index_key message_id = "msgidx:" ++ message_id

module _ {W : Type 0} (storage : Storage W Value) where
  -- The new id (crypto.randomUUID), secret and time come in as arguments.
  unfoldable pub create_endpoint : String → String → ℕ → NewEndpoint → Exec W CreatedEndpoint
  create_endpoint endpoint_id secret now e = do
    let made : Endpoint = record {
      endpoint_id = endpoint_id;
      tenant = e.tenant;
      url = e.url;
      event_types = e.event_types;
      description = e.description;
      disabled = false;
      rate_limit = e.rate_limit;
      created_at = now;
      secrets = secret ∷ [];
    }
    storage.put (endpoint_key endpoint_id) (Value.endpoint made)
    pure (record { endpoint = made; secret = secret })

  unfoldable pub get_endpoint : String → Exec W (Option Endpoint)
  get_endpoint endpoint_id = do v ← storage.get (endpoint_key endpoint_id); pure (as_endpoint v)

  unfoldable pub list_endpoints : Exec W (List Endpoint)
  list_endpoints = do rows ← storage.list "ep:"; pure (endpoints_of rows)

  unfoldable pub match_endpoints : String → Exec W (List Endpoint)
  unfolding list_endpoints
  match_endpoints event_type = do
    all ← list_endpoints
    pure (filter (λ e. subscribes e event_type) all)

  unfoldable pub update_endpoint : String → EndpointPatch → Exec W Endpoint
  unfolding get_endpoint
  update_endpoint endpoint_id patch = do
    found ← get_endpoint endpoint_id
    existing ← or_not_found endpoint_id found
    storage.put (endpoint_key endpoint_id) (Value.endpoint (patched existing patch))
    pure (patched existing patch)

  unfoldable pub rotate_secret : String → String → Exec W String
  unfolding get_endpoint
  rotate_secret secret endpoint_id = do
    found ← get_endpoint endpoint_id
    existing ← or_not_found endpoint_id found
    storage.put (endpoint_key endpoint_id) (Value.endpoint (rotated secret existing))
    pure secret

  unfoldable pub delete_endpoint : String → Exec W (Unit {0})
  delete_endpoint endpoint_id = storage.delete (endpoint_key endpoint_id)

  abbrev pub recorded : String → String → Option EventRecord → Exec W RecordedEvent
  recorded event_id idem_key (some existing) = pure (record {
    is_new = false;
    event_id = existing.event_id;
    message_count = existing.message_count;
  })
  recorded event_id idem_key none = do
    storage.put (event_key idem_key)
        (Value.event (record { event_id = event_id; message_count = 0 }))
    pure (record { is_new = true; event_id = event_id; message_count = 0 })

  unfoldable pub record_event : String → String → Exec W RecordedEvent
  record_event event_id idem_key = do
    existing ← storage.get (event_key idem_key)
    recorded event_id idem_key (as_event existing)

  unfoldable pub finalize_event : String → String → ℕ → Exec W (Unit {0})
  finalize_event idem_key event_id message_count =
      storage.put (event_key idem_key)
        (Value.event (record { event_id = event_id; message_count = message_count }))

  unfoldable pub register_message : String → String → Exec W (Unit {0})
  register_message message_id endpoint_id =
      storage.put (index_key message_id) (Value.index endpoint_id)

  unfoldable pub lookup_message_endpoint : String → Exec W (Option String)
  lookup_message_endpoint message_id = do v ← storage.get (index_key message_id); pure (as_index v)
