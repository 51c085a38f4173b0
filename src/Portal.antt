-- ===== src/Portal.antt =====
-- packages/core/src/portal/endpoints.ts and deliveries.ts: the APIs that a producer mounts for its
-- customers, over any store.
pub mod Replay
pub mod Bulk
pub mod Web
pub mod Http
use anyhook.Base.{
  ℕ, Bool, true, false, String, Option, none, some, List, [], ◌∷◌, map, filter, length, ◌==◌, leb,
  if◌then◌else◌,
}
use anyhook.Base.Exec.{Exec, pure, ◌>>=◌, ◌>>◌, for_each}
use anyhook.Ports.{StateStore, NewEndpoint, EndpointPatch, DeliveryQuery, DeliveryRow}
use anyhook.Types.{Endpoint, Message, MessageStatus, DlqRow}

-- Omit<Endpoint, 'secrets'>
pub record PublicEndpoint : Type 0 where
  pub endpoint_id : String
  pub tenant : String
  pub url : String
  pub event_types : List String
  pub description : Option String
  pub disabled : Bool
  pub rate_limit : Option ℕ
  pub created_at : ℕ

abbrev pub redact : Endpoint → PublicEndpoint
redact e = record {
  endpoint_id = e.endpoint_id;
  tenant = e.tenant;
  url = e.url;
  event_types = e.event_types;
  description = e.description;
  disabled = e.disabled;
  rate_limit = e.rate_limit;
  created_at = e.created_at;
}

-- what `create` returns: the only place where a secret leaves the store beside `rotate_secret`
pub record Created : Type 0 where
  pub endpoint_id : String
  pub secret : String

abbrev pub redact_found : Option Endpoint → Option PublicEndpoint
redact_found none = none
redact_found (some e) = some (redact e)

-- createEndpointApi
module _ {W : Type 0} (state : StateStore W) where
  unfoldable pub create : NewEndpoint → Exec W Created
  create i = do
    made ← state.create_endpoint i
    pure (record { endpoint_id = made.endpoint.endpoint_id; secret = made.secret })

  unfoldable pub list : String → Exec W (List PublicEndpoint)
  list tenant = do es ← state.list_endpoints tenant; pure (map redact es)

  unfoldable pub get : String → String → Exec W (Option PublicEndpoint)
  get tenant endpoint_id = do e ← state.get_endpoint tenant endpoint_id; pure (redact_found e)

  unfoldable pub update : String → String → EndpointPatch → Exec W PublicEndpoint
  update tenant endpoint_id patch = do
    e ← state.update_endpoint tenant endpoint_id patch
    pure (redact e)

  unfoldable pub rotate_secret : String → String → Exec W String
  rotate_secret tenant endpoint_id = state.rotate_secret tenant endpoint_id

  unfoldable pub delete : String → String → Exec W (Unit {0})
  delete tenant endpoint_id = state.delete_endpoint tenant endpoint_id

-- { tenant }, a query with no filter
abbrev pub all_of : String → DeliveryQuery
all_of tenant = record {
  tenant = tenant;
  endpoint_id = none;
  event_type = none;
  status = none;
  before = none;
  after = none;
  limit = none;
}

-- rows.find((r) => r.message.messageId === messageId) ?? null
unfoldable pub find_row : String → List DeliveryRow → Option DeliveryRow
find_row message_id [] = none
find_row message_id (r ∷ rows) =
    let rest = find_row message_id rows in
    if r.message.message_id == message_id then some r else rest

-- since === undefined ? true : createdAt >= since
abbrev pub since_kept : Option ℕ → DlqRow → Bool
since_kept none d = true
since_kept (some since) d = leb since d.message.created_at

abbrev pub fresh_chain : Message → ℕ → Message
fresh_chain m now = record m {
  attempt_no = 0;
  status = MessageStatus.pending;
  next_attempt_at = none;
  created_at = now;
}

-- createDeliveryApi
module _ {W : Type 0} (state : StateStore W) (transport_send : Message → Exec W (Unit {0}))
    (now : Exec W ℕ) where
  unfoldable pub reenqueue : Message → Exec W (Unit {0})
  reenqueue m = do at ← now; state.put_message (fresh_chain m at); transport_send (fresh_chain m at)

  unfoldable pub list_deliveries : DeliveryQuery → Exec W (List DeliveryRow)
  list_deliveries q = state.list_deliveries q

  unfoldable pub get_delivery : String → String → Exec W (Option DeliveryRow)
  unfolding find_row
  get_delivery tenant message_id = do
    rows ← state.list_deliveries (all_of tenant)
    pure (find_row message_id rows)

  unfoldable pub replay_found : Option Message → Exec W Bool
  unfolding reenqueue
  replay_found none = pure false
  replay_found (some m) = do reenqueue m; pure true

  unfoldable pub replay : String → String → Exec W Bool
  unfolding replay_found
  replay tenant message_id = do m ← state.get_message tenant message_id; replay_found m

  unfoldable pub replay_endpoint : String → String → Option ℕ → Exec W ℕ
  unfolding reenqueue
  replay_endpoint tenant endpoint_id since = do
    dead ← state.list_dlq tenant (some endpoint_id)
    for_each (filter (since_kept since) dead) (λ d. reenqueue d.message)
    pure (length (filter (since_kept since) dead))
