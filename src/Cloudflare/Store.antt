-- ===== src/Cloudflare/Store.antt =====
-- packages/cloudflare/src/state-do.ts and scheduler-alarms.ts: the routing of the StateStore and the
-- Scheduler to the Durable Objects. The namespaces are parameters: the storage of the tenant's or the
-- endpoint's object of a name. What the objects draw and read from the clock are actions.
pub mod Messages
use anyhook.Base.{
  ℕ, Bool, String, Option, none, some, List, [], ◌∷◌, ◌++◌, map, take, leb, ◌==◌, if◌then◌else◌,
}
use anyhook.Base.Exec.{Exec, pure, ◌>>=◌, ◌>>◌}
use anyhook.Cloudflare.{Storage}
use anyhook.Cloudflare.Endpoint as endpoint_do
use anyhook.Cloudflare.Names.{endpoint_do_name}
use anyhook.Cloudflare.Tenant as tenant_do
use anyhook.Ports.{
  StateStore, NewEndpoint, EndpointPatch, CreatedEndpoint, RecordedEvent, DeliveryQuery,
  DeliveryRow,
}
use anyhook.Types.{Endpoint, Message, Attempt, CircuitRecord, RateBucket, DlqReason, DlqRow}

-- rows.sort((a, b) => b.message.createdAt - a.message.createdAt), which is stable
unfoldable pub insert_delivery : DeliveryRow → List DeliveryRow → List DeliveryRow
insert_delivery r [] = r ∷ []
insert_delivery r (k ∷ rows) =
    let rest = insert_delivery r rows in
    if leb k.message.created_at r.message.created_at then r ∷ k ∷ rows else k ∷ rest

unfoldable pub newest_deliveries : List DeliveryRow → List DeliveryRow
unfolding insert_delivery
newest_deliveries [] = []
newest_deliveries (r ∷ rows) = insert_delivery r (newest_deliveries rows)

abbrev limit_deliveries : Option ℕ → List DeliveryRow → List DeliveryRow
limit_deliveries none rows = rows
limit_deliveries (some n) rows = take n rows

-- Promise.all(es.map(f)) and flat(); the calls only read
unfoldable pub gather :
    {W A : Type 0} → (Endpoint → Exec W (List A)) → List Endpoint → Exec W (List A)
gather f [] = pure []
gather f (e ∷ es) = do xs ← f e; rest ← gather f es; pure (xs ++ rest)

-- `if (k)`: an id that is missing or empty is none
abbrev pub truthy : Option String → Option String
truthy none = none
truthy (some k) = if k == "" then none else some k

module _ {W : Type 0} (tenants : String → Storage W tenant_do.Value)
    (endpoints : String → Storage W endpoint_do.Value) (show : ℕ → String) where
  -- this.tenantStub(tenant) and this.endpointStub(tenant, endpointId)
  abbrev pub tenant_stub : String → Storage W tenant_do.Value
  tenant_stub tenant = tenants tenant

  unfoldable pub endpoint_stub : String → String → Storage W endpoint_do.Value
  unfolding endpoint_do_name
  endpoint_stub tenant endpoint_id = endpoints (endpoint_do_name show tenant endpoint_id)

  unfoldable pub record_event : String → String → String → Exec W RecordedEvent
  record_event tenant event_id idem_key =
      tenant_do.record_event (tenant_stub tenant) event_id idem_key

  unfoldable pub finalize_event : String → String → String → ℕ → Exec W (Unit {0})
  finalize_event tenant idem_key event_id message_count =
      tenant_do.finalize_event (tenant_stub tenant) idem_key event_id message_count

  unfoldable pub create_endpoint :
      Exec W String → Exec W String → Exec W ℕ → NewEndpoint → Exec W CreatedEndpoint
  create_endpoint random_uuid generate_secret date_now e = do
    secret ← generate_secret
    endpoint_id ← random_uuid
    now ← date_now
    tenant_do.create_endpoint (tenant_stub e.tenant) endpoint_id secret now e

  unfoldable pub get_endpoint : String → String → Exec W (Option Endpoint)
  get_endpoint tenant endpoint_id = tenant_do.get_endpoint (tenant_stub tenant) endpoint_id

  unfoldable pub list_endpoints : String → Exec W (List Endpoint)
  list_endpoints tenant = tenant_do.list_endpoints (tenant_stub tenant)

  unfoldable pub match_endpoints : String → String → Exec W (List Endpoint)
  match_endpoints tenant event_type = tenant_do.match_endpoints (tenant_stub tenant) event_type

  unfoldable pub update_endpoint : String → String → EndpointPatch → Exec W Endpoint
  update_endpoint tenant endpoint_id patch =
      tenant_do.update_endpoint (tenant_stub tenant) endpoint_id patch

  unfoldable pub rotate_secret : Exec W String → String → String → Exec W String
  rotate_secret generate_secret tenant endpoint_id = do
    secret ← generate_secret
    tenant_do.rotate_secret (tenant_stub tenant) secret endpoint_id

  unfoldable pub delete_endpoint : String → String → Exec W (Unit {0})
  delete_endpoint tenant endpoint_id = tenant_do.delete_endpoint (tenant_stub tenant) endpoint_id

  unfoldable pub put_message : Message → Exec W (Unit {0})
  unfolding endpoint_stub
  put_message m = do
    endpoint_do.put_message (endpoint_stub m.tenant m.endpoint_id) m
    tenant_do.register_message (tenant_stub m.tenant) m.message_id m.endpoint_id

  -- `if (!endpointId) return null`
  unfoldable pub message_in : String → String → Option String → Exec W (Option Message)
  unfolding endpoint_stub
  message_in tenant message_id none = pure none
  message_in tenant message_id (some endpoint_id) =
      endpoint_do.get_message (endpoint_stub tenant endpoint_id) message_id

  unfoldable pub get_message : String → String → Exec W (Option Message)
  unfolding message_in
  get_message tenant message_id = do
    endpoint_id ← tenant_do.lookup_message_endpoint (tenant_stub tenant) message_id
    message_in tenant message_id (truthy endpoint_id)

  unfoldable pub append_attempt : Attempt → Exec W (Unit {0})
  unfolding endpoint_stub
  append_attempt a = endpoint_do.append_attempt (endpoint_stub a.tenant a.endpoint_id) a

  unfoldable pub deliveries_in : DeliveryQuery → Option String → Exec W (List DeliveryRow)
  unfolding endpoint_stub gather newest_deliveries
  deliveries_in q (some endpoint_id) =
      endpoint_do.list_deliveries (endpoint_stub q.tenant endpoint_id) q
  deliveries_in q none = do
    es ← tenant_do.list_endpoints (tenant_stub q.tenant)
    rows ← gather (λ e. endpoint_do.list_deliveries (endpoint_stub q.tenant e.endpoint_id) q) es
    pure (limit_deliveries q.limit (newest_deliveries rows))

  unfoldable pub list_deliveries : DeliveryQuery → Exec W (List DeliveryRow)
  unfolding deliveries_in
  list_deliveries q = deliveries_in q (truthy q.endpoint_id)

  unfoldable pub get_circuit : String → String → Exec W CircuitRecord
  unfolding endpoint_stub
  get_circuit tenant endpoint_id = endpoint_do.get_circuit (endpoint_stub tenant endpoint_id)

  unfoldable pub put_circuit : String → String → CircuitRecord → Exec W (Unit {0})
  unfolding endpoint_stub
  put_circuit tenant endpoint_id rec =
      endpoint_do.put_circuit (endpoint_stub tenant endpoint_id) rec

  unfoldable pub get_rate_bucket : String → String → Exec W (Option RateBucket)
  unfolding endpoint_stub
  get_rate_bucket tenant endpoint_id =
      endpoint_do.get_rate_bucket (endpoint_stub tenant endpoint_id)

  unfoldable pub put_rate_bucket : String → String → RateBucket → Exec W (Unit {0})
  unfolding endpoint_stub
  put_rate_bucket tenant endpoint_id b =
      endpoint_do.put_rate_bucket (endpoint_stub tenant endpoint_id) b

  unfoldable pub add_to_dlq : Message → DlqReason → Exec W (Unit {0})
  unfolding endpoint_stub
  add_to_dlq m reason = endpoint_do.add_to_dlq (endpoint_stub m.tenant m.endpoint_id) show m reason

  unfoldable pub dlq_in : String → Option String → Exec W (List DlqRow)
  unfolding endpoint_stub gather
  dlq_in tenant (some endpoint_id) = endpoint_do.list_dlq (endpoint_stub tenant endpoint_id) none
  dlq_in tenant none = do
    es ← tenant_do.list_endpoints (tenant_stub tenant)
    gather (λ e. endpoint_do.list_dlq (endpoint_stub tenant e.endpoint_id) none) es

  unfoldable pub list_dlq : String → Option String → Exec W (List DlqRow)
  unfolding dlq_in
  list_dlq tenant endpoint_id = dlq_in tenant (truthy endpoint_id)

  -- DoScheduler.scheduleRetry
  unfoldable pub schedule_retry :
      (ℕ → String) → (String → ℕ) → (Message → Exec W (Unit {0})) → Message → ℕ → Exec W (Unit {0})
  unfolding endpoint_stub
  schedule_retry digits to_number queue_send m at =
      endpoint_do.schedule_retry (endpoint_stub m.tenant m.endpoint_id) digits to_number queue_send
        m at

  -- DoStateStore
  abbrev pub do_state_store : Exec W String → Exec W String → Exec W ℕ → StateStore W
  do_state_store random_uuid generate_secret date_now = record {
    delivery = record {
      record_event = record_event;
      finalize_event = finalize_event;
      get_endpoint = get_endpoint;
      match_endpoints = match_endpoints;
      put_message = put_message;
      append_attempt = append_attempt;
      get_circuit = get_circuit;
      put_circuit = put_circuit;
      get_rate_bucket = get_rate_bucket;
      put_rate_bucket = put_rate_bucket;
      add_to_dlq = add_to_dlq;
    };
    create_endpoint = create_endpoint random_uuid generate_secret date_now;
    list_endpoints = list_endpoints;
    update_endpoint = update_endpoint;
    rotate_secret = rotate_secret generate_secret;
    delete_endpoint = delete_endpoint;
    get_message = get_message;
    list_deliveries = list_deliveries;
    list_dlq = list_dlq;
  }
