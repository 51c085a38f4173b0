-- ===== src/Portal/Http.antt =====
-- packages/core/src/portal/http.ts: the router of the portal. The engine is a parameter: `send`, the store
-- under its endpoint and delivery APIs, the transport and the clock. toUpperCase, Number (as in Ports), the
-- parsing of JSON and the texts of other errors are parameters too. A request comes with its URL parsed
-- and its body read: a field that is there has its declared type, and a status is one of the six.
pub mod Routes
use text.Mathlib.Text.{starts_with}
use Prim.Native.String.{◌∷◌, ◌++◌, count}
use anyhook.Base.{
  ℕ, ◌+◌, ◌/◌, ◌%◌, Bool, true, false, ◌&&◌, ◌||◌, not, String, Option, none, some, List, [],
  ◌∷◌ as cons, filter, ltb, nat_eq, ◌==◌, if◌then◌else◌,
}
use anyhook.Base.Exec.{
  Error, Exec, pure, throw, ◌>>=◌, ◌>>◌, catch_, portal_http, invalid_json, endpoint_not_found,
}
use anyhook.Base.Split.{split}
use anyhook.Base.Text.{drop_chars}
use anyhook.Engine.{or_default}
use anyhook.Portal as portal
use anyhook.Portal.{PublicEndpoint, Created}
use anyhook.Portal.Web.{
  Fields, Body, Request, Content, Response, json_res, PortalRouterOptions, read_json, has_not_found,
  resolved, segments,
}
use anyhook.Ports.{StateStore, NewEndpoint, EndpointPatch, DeliveryQuery, DeliveryRow}
use anyhook.Types.{SendEvent, Receipt, Message, MessageStatus, Payload, ticks_per_ms}

module _ {W : Type 0} (state : StateStore W) (transport_send : Message → Exec W (Unit {0}))
    (now : Exec W ℕ) (send : SendEvent → Exec W Receipt) (to_number : String → Option ℕ)
    (to_upper to_lower : String → String) (other_message : Error → String) where
  -- Number.isInteger(n) && n > 0
  abbrev whole : ℕ → Option ℕ
  whole n = if nat_eq (n % ticks_per_ms) 0 && ltb 0 n then some (n / ticks_per_ms) else none

  abbrev whole_number : Option ℕ → Option ℕ
  whole_number none = none
  whole_number (some n) = whole n

  unfoldable pub parse_limit : Option String → Option ℕ
  parse_limit none = none
  parse_limit (some raw) = if raw == "" then none else whole_number (to_number raw)

  unfoldable pub parse_ts : Option String → Option ℕ
  parse_ts none = none
  parse_ts (some raw) = if raw == "" then none else to_number raw

  unfoldable pub send_event : String → Fields → String → Exec W Response
  send_event tenant body type = do
    accepted ← send (record {
      type = type;
      tenant = tenant;
      payload = body.payload;
      idempotency_key = body.idempotency_key;
    })
    pure (json_res (Content.receipt accepted) 202)

  -- `!body?.type`
  unfoldable pub ingest : String → Option Fields → Exec W Response
  unfolding send_event
  ingest tenant none = throw (portal_http 400 "type is required")
  ingest tenant (some body) =
      let type : String = or_default body.type "" in
      if type == "" then throw (portal_http 400 "type is required") else send_event tenant body type

  unfoldable pub create_endpoint : String → Fields → String → List String → Exec W Response
  create_endpoint tenant body url event_types = do
    made ← portal.create state (record {
      tenant = tenant;
      url = url;
      event_types = event_types;
      description = body.description;
      rate_limit = body.rate_limit;
    })
    pure (json_res (Content.created made) 201)

  -- `!body?.url || !Array.isArray(body?.eventTypes)`
  unfoldable pub create_from : String → Fields → Option (List String) → Exec W Response
  unfolding create_endpoint
  create_from tenant body none = throw (portal_http 400 "url and eventTypes are required")
  create_from tenant body (some event_types) =
      let url : String = or_default body.url "" in
      if url == ""
      then throw (portal_http 400 "url and eventTypes are required")
      else create_endpoint tenant body url event_types

  unfoldable pub create : String → Option Fields → Exec W Response
  unfolding create_from
  create tenant none = throw (portal_http 400 "url and eventTypes are required")
  create tenant (some body) = create_from tenant body body.event_types

  -- engine.endpoints.update({ tenant, endpointId, ...body })
  unfoldable pub update : String → String → Option Fields → Exec W Response
  update tenant endpoint_id none = do
    e ←
        portal.update state tenant endpoint_id
          (record { url = none; event_types = none; disabled = none })
    pure (json_res (Content.endpoint e) 200)
  update tenant endpoint_id (some body) = do
    e ←
        portal.update state (or_default body.tenant tenant)
          (or_default body.endpoint_id endpoint_id)
          (record { url = body.url; event_types = body.event_types; disabled = body.disabled })
    pure (json_res (Content.endpoint e) 200)

  unfoldable pub endpoint_or_404 : Option PublicEndpoint → Exec W Response
  endpoint_or_404 none = throw (portal_http 404 "endpoint not found")
  endpoint_or_404 (some e) = pure (json_res (Content.endpoint e) 200)

  unfoldable pub delivery_or_404 : Option DeliveryRow → Exec W Response
  delivery_or_404 none = throw (portal_http 404 "message not found")
  delivery_or_404 (some row) = pure (json_res (Content.delivery row) 200)

  abbrev not_found : Exec W Response
  not_found = pure (json_res (Content.error "not found") 404)

  unfoldable pub deliveries_query : String → Request → DeliveryQuery
  unfolding parse_ts parse_limit
  deliveries_query tenant req = record {
    tenant = tenant;
    endpoint_id = req.search "endpointId";
    event_type = req.search "eventType";
    status = req.search_status;
    before = parse_ts (req.search "before");
    after = parse_ts (req.search "after");
    limit = parse_limit (req.search "limit");
  }

  unfoldable pub post_event : String → Request → Exec W Response
  unfolding ingest
  post_event tenant req = do body ← read_json req.json; ingest tenant body

  unfoldable pub post_endpoint : String → Request → Exec W Response
  unfolding create
  post_endpoint tenant req = do body ← read_json req.json; create tenant body

  unfoldable pub get_endpoints : String → Exec W Response
  get_endpoints tenant = do
    es ← portal.list state tenant
    pure (json_res (Content.endpoints es) 200)

  unfoldable pub get_deliveries : String → Request → Exec W Response
  unfolding deliveries_query
  get_deliveries tenant req = do
    rows ← portal.list_deliveries state transport_send now (deliveries_query tenant req)
    pure (json_res (Content.deliveries rows) 200)

  -- /events, /endpoints and /deliveries
  unfoldable pub one_segment : String → Request → String → String → Exec W Response
  unfolding post_event post_endpoint get_endpoints get_deliveries
  one_segment tenant req m s =
      if (m == "POST") && (s == "events")
      then post_event tenant req
      else if (s == "endpoints") && (m == "POST")
      then post_endpoint tenant req
      else if (s == "endpoints") && (m == "GET")
      then get_endpoints tenant
      else if (s == "deliveries") && (m == "GET")
      then get_deliveries tenant req
      else not_found

  unfoldable pub get_endpoint : String → String → Exec W Response
  unfolding endpoint_or_404
  get_endpoint tenant id = do e ← portal.get state tenant id; endpoint_or_404 e

  unfoldable pub patch_endpoint : String → Request → String → Exec W Response
  unfolding update
  patch_endpoint tenant req id = do body ← read_json req.json; update tenant id body

  unfoldable pub delete_endpoint : String → String → Exec W Response
  delete_endpoint tenant id = do portal.delete state tenant id; pure (json_res Content.deleted 200)

  unfoldable pub get_delivery : String → String → Exec W Response
  unfolding delivery_or_404
  get_delivery tenant id = do
    row ← portal.get_delivery state transport_send now tenant id
    delivery_or_404 row

  -- /endpoints/:id and /deliveries/:id
  unfoldable pub two_segments : String → Request → String → String → String → Exec W Response
  unfolding get_endpoint patch_endpoint delete_endpoint get_delivery
  two_segments tenant req m s id =
      if (s == "endpoints") && (m == "GET")
      then get_endpoint tenant id
      else if (s == "endpoints") && (m == "PATCH")
      then patch_endpoint tenant req id
      else if (s == "endpoints") && (m == "DELETE")
      then delete_endpoint tenant id
      else if (s == "deliveries") && (m == "GET")
      then get_delivery tenant id
      else not_found

  unfoldable pub post_rotate : String → String → Exec W Response
  post_rotate tenant id = do
    fresh ← portal.rotate_secret state tenant id
    pure (json_res (Content.secret fresh) 200)

  unfoldable pub post_replay_endpoint : String → Request → String → Exec W Response
  unfolding parse_ts
  post_replay_endpoint tenant req id = do
    n ← portal.replay_endpoint state transport_send now tenant id (parse_ts (req.search "since"))
    pure (json_res (Content.requeued n) 202)

  unfoldable pub post_replay : String → String → Exec W Response
  post_replay tenant id = do
    found ← portal.replay state transport_send now tenant id
    pure (json_res (Content.replayed found) (if found then 202 else 404))

  -- /endpoints/:id/rotate-secret, /endpoints/:id/replay and /deliveries/:id/replay
  unfoldable pub three_segments :
      String → Request → String → String → String → String → Exec W Response
  unfolding post_rotate post_replay_endpoint post_replay
  three_segments tenant req m s id action =
      if (s == "endpoints") && ((action == "rotate-secret") && (m == "POST"))
      then post_rotate tenant id
      else if (s == "endpoints") && ((action == "replay") && (m == "POST"))
      then post_replay_endpoint tenant req id
      else if (s == "deliveries") && ((action == "replay") && (m == "POST"))
      then post_replay tenant id
      else not_found

  unfoldable pub route : String → Request → String → List String → Exec W Response
  unfolding one_segment two_segments three_segments
  route tenant req m (cons s []) = one_segment tenant req m s
  route tenant req m (cons s (cons id [])) = two_segments tenant req m s id
  route tenant req m (cons s (cons id (cons action []))) = three_segments tenant req m s id action
  route tenant req m _ = not_found

  -- (err as Error).message
  abbrev message_of : Error → String
  message_of (endpoint_not_found id) = "endpoint not found: " ++ id
  message_of e = other_message e

  unfoldable pub error_response : Error → Response
  error_response (portal_http status message) = json_res (Content.error message) status
  error_response invalid_json = json_res (Content.error "invalid JSON body") 400
  error_response e =
      json_res (Content.error (message_of e))
        (if has_not_found to_lower (message_of e) then 404 else 500)

  unfoldable pub handle : PortalRouterOptions → Request → Exec W Response
  unfolding route error_response split drop_chars
  handle opts req =
      let base : String = or_default opts.base_path "/v1" in
      let tenant : String = resolved opts req in
      if starts_with req.pathname (base ++ "/")
      then if tenant == ""
        then pure (json_res (Content.error "unauthenticated: missing tenant") 401)
        else catch_ (route tenant req (to_upper req.method) (segments base req))
            (λ e. pure (error_response e))
      else not_found
