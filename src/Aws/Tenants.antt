-- ===== src/Aws/Tenants.antt =====
-- packages/aws/src/state-dynamo.ts: the accepted events and the endpoints of DynamoStateStore. The clock, the
-- new ids and the new secrets come in as arguments.
pub mod Receipts
use anyhook.Aws.{Key, tenant_pk, endpoint_sk, idem_sk}
use anyhook.Aws.Table.{Item, Table, absent}
use anyhook.Base.{ℕ, Bool, true, false, String, Option, none, some, List, [], ◌∷◌, filter}
use anyhook.Base.Exec.{Exec, pure, ◌>>=◌, ◌>>◌}
use anyhook.Fanout.{subscribes}
use anyhook.Memory.Endpoints.{patched, rotated, or_not_found}
use anyhook.Ports.{NewEndpoint, EndpointPatch, CreatedEndpoint, RecordedEvent}
use anyhook.Types.{Endpoint, EventRecord}
use anyhook.Aws.Items.{as_event, as_endpoint, strip_all, query_all}

module _ {W : Type 0} (table : Table W) where
  abbrev pub event_of : String → Option EventRecord → RecordedEvent
  event_of event_id none = record { is_new = true; event_id = event_id; message_count = 0 }
  event_of event_id (some item) = record {
    is_new = false;
    event_id = item.event_id;
    message_count = item.message_count;
  }

  -- The write succeeded, or the row that it found is read back.
  unfoldable pub recorded : Key → String → Bool → Exec W RecordedEvent
  recorded key event_id true =
      pure (record { is_new = true; event_id = event_id; message_count = 0 })
  recorded key event_id false = do
    existing ← table.get true key
    pure (event_of event_id (as_event existing))

  unfoldable pub record_event : String → String → String → Exec W RecordedEvent
  unfolding recorded
  record_event tenant event_id idem_key = do
    let key : Key = record { pk = tenant_pk tenant; sk = idem_sk idem_key }
    written ←
        table.put_if absent key (Item.event (record { event_id = event_id; message_count = 0 }))
    recorded key event_id written

  unfoldable pub finalize_event : String → String → String → ℕ → Exec W (Unit {0})
  finalize_event tenant idem_key event_id message_count =
      table.put (record { pk = tenant_pk tenant; sk = idem_sk idem_key })
        (Item.event (record { event_id = event_id; message_count = message_count }))

  unfoldable pub put_endpoint_item : Endpoint → Exec W (Unit {0})
  put_endpoint_item e =
      table.put (record { pk = tenant_pk e.tenant; sk = endpoint_sk e.endpoint_id })
        (Item.endpoint e)

  unfoldable pub create_endpoint : String → String → ℕ → NewEndpoint → Exec W CreatedEndpoint
  unfolding put_endpoint_item
  create_endpoint endpoint_id secret now e = do
    let endpoint : Endpoint = record {
      endpoint_id = endpoint_id;
      tenant = e.tenant;
      url = e.url;
      event_types = e.event_types;
      description = e.description;
      disabled = false;
      rate_limit = e.rate_limit;
      created_at = now;
      secrets = secret ∷ [];
    }
    put_endpoint_item endpoint
    pure (record { endpoint = endpoint; secret = secret })

  unfoldable pub get_endpoint : String → String → Exec W (Option Endpoint)
  get_endpoint tenant endpoint_id = do
    item ← table.get false (record { pk = tenant_pk tenant; sk = endpoint_sk endpoint_id })
    pure (as_endpoint item)

  unfoldable pub list_endpoints : ℕ → String → Exec W (List Endpoint)
  unfolding query_all
  list_endpoints fuel tenant = do
    items ← query_all table fuel (tenant_pk tenant) (endpoint_sk "") [] none
    pure (strip_all as_endpoint items)

  unfoldable pub match_endpoints : ℕ → String → String → Exec W (List Endpoint)
  unfolding list_endpoints
  match_endpoints fuel tenant event_type = do
    all ← list_endpoints fuel tenant
    pure (filter (λ e. subscribes e event_type) all)

  unfoldable pub update_endpoint : String → String → EndpointPatch → Exec W Endpoint
  unfolding get_endpoint put_endpoint_item
  update_endpoint tenant endpoint_id patch = do
    found ← get_endpoint tenant endpoint_id
    existing ← or_not_found endpoint_id found
    put_endpoint_item (patched existing patch)
    pure (patched existing patch)

  unfoldable pub rotate_secret : String → String → String → Exec W String
  unfolding get_endpoint put_endpoint_item
  rotate_secret secret tenant endpoint_id = do
    found ← get_endpoint tenant endpoint_id
    existing ← or_not_found endpoint_id found
    put_endpoint_item (rotated secret existing)
    pure secret

  unfoldable pub delete_endpoint : String → String → Exec W (Unit {0})
  delete_endpoint tenant endpoint_id =
      table.delete (record { pk = tenant_pk tenant; sk = endpoint_sk endpoint_id })
