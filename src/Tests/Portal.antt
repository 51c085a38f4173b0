-- ===== src/Tests/Portal.antt =====
-- Concrete requests to the portal, over a store that logs the tenant of each call.
use anyhook.Base.{
  ◌∙◌, ℕ, suc, ◌≡◌, refl, true, false, String, Option, none, some, List, [], ◌∷◌, ◌==◌,
  if◌then◌else◌,
}
use anyhook.Base.Exec.{Exec, ok}
use anyhook.Engine.Within.{IsPreorder}
use anyhook.Portal as portal
use anyhook.Portal.Web.{Body, Request, Response, PortalRouterOptions}
use anyhook.Portal.Http.{handle, route, two_segments, patch_endpoint, update}
use anyhook.Portal.Http.Routes.{TenantCalls, handle-Answers}
use anyhook.Ports.{StateStore}
use anyhook.Policy.Circuit.{initial_circuit}
use anyhook.Tests.{endpoint}
use anyhook.Types.{SendEvent, Receipt, Message}

abbrev Log : Type 0
Log = List String

abbrev log : {A : Type 0} → String → A → Exec Log A
log tenant a w = (ok a, tenant ∷ w)

abbrev logging : StateStore Log
logging = record {
  delivery = record {
    record_event = λ t e k. log t (record { is_new = true; event_id = e; message_count = 0 });
    finalize_event = λ t k e n. log t tt;
    get_endpoint = λ t e. log t none;
    match_endpoints = λ t y. log t [];
    put_message = λ m. log m.tenant tt;
    append_attempt = λ a. log a.tenant tt;
    get_circuit = λ t e. log t (initial_circuit 0);
    put_circuit = λ t e c. log t tt;
    get_rate_bucket = λ t e. log t none;
    put_rate_bucket = λ t e b. log t tt;
    add_to_dlq = λ m r. log m.tenant tt;
  };
  create_endpoint = λ e. log e.tenant (record { endpoint = endpoint; secret = "whsec_new" });
  list_endpoints = λ t. log t [];
  update_endpoint = λ t e p. log t endpoint;
  rotate_secret = λ t e. log t "whsec_new";
  delete_endpoint = λ t e. log t tt;
  get_message = λ t id. log t none;
  list_deliveries = λ q. log q.tenant [];
  list_dlq = λ t e. log t [];
}

abbrev calls_for : String → Log → ℕ
calls_for u [] = 0
calls_for u (t ∷ w) = let rest = calls_for u w in if u == t then suc rest else rest

-- Other tenants have no new call.
abbrev Only : String → Log → Log → Type 0
Only t w v = (u : String) → (u == t) ≡ false → calls_for u v ≡ calls_for u w

once : (t : String) (w : Log) → Only t w (t ∷ w)
once t w u d = rw d refl

abbrev transport : Message → Exec Log (Unit {0})
transport m = log m.tenant tt

abbrev accept : SendEvent → Exec Log Receipt
accept e = log e.tenant (record { event_id = "evt_1"; message_count = 0 })

Only-preorder : (t : String) → IsPreorder (Only t)
Only-preorder t = record { stay = λ w u d. refl; chain = λ u v w p q x d. q x d ∙ p x d }

logged_calls : TenantCalls logging transport (λ w. (ok 0, w)) accept (Only "t1") "t1"
unfolding portal.create portal.list portal.get portal.update portal.rotate_secret portal.delete
    portal.list_deliveries portal.get_delivery portal.replay portal.replay_found
    portal.replay_endpoint
logged_calls = record {
  pre = Only-preorder "t1";
  send_lem = λ e h. record { at = λ w u d. rw h (once "t1" w u d) };
  create_lem = λ e h. record { at = λ w u d. rw h (once "t1" w u d) };
  list_lem = record { at = once "t1" };
  get_lem = λ id. record { at = once "t1" };
  update_lem = λ id patch. record { at = once "t1" };
  rotate_lem = λ id. record { at = once "t1" };
  delete_lem = λ id. record { at = once "t1" };
  list_deliveries_lem = λ q h. record { at = λ w u d. rw h (once "t1" w u d) };
  get_delivery_lem = λ id. record { at = once "t1" };
  replay_lem = λ id. record { at = once "t1" };
  replay_endpoint_lem = λ id since. record { at = once "t1" };
}

abbrev patching : Option String → Request
patching tenant = record {
  method = "PATCH";
  pathname = "/v1/endpoints/ep_1";
  search = λ k. none;
  search_status = none;
  header = λ k. if k == "x-anyhook-tenant" then some "t1" else none;
  json = Body.object (record {
    type = none;
    payload = none;
    idempotency_key = none;
    url = none;
    event_types = none;
    description = none;
    rate_limit = none;
    disabled = some true;
    tenant = tenant;
    endpoint_id = none;
  });
}

abbrev options : PortalRouterOptions
options = record { resolve_tenant = none; base_path = none }

abbrev run : Request → Exec Log Response
run =
    handle logging transport (λ w. (ok 0, w)) accept (λ s. none) (λ s. s) (λ s. s) (λ e. "") options

handle-Answers_example :
    let q = run (patching none) [] in (a : Response) × (q.0 ≡ ok a) × Only "t1" [] q.1
handle-Answers_example =
    handle-Answers logging transport (λ w. (ok 0, w)) accept (λ s. none) (λ s. s) (λ s. s) (λ e. "")
      (Only "t1") "t1" logged_calls options (patching none) [] refl refl

-- A body that names another tenant reaches that tenant.
patched_other : (run (patching (some "t2")) []).1 ≡ "t2" ∷ []
unfolding handle route two_segments patch_endpoint update portal.update
patched_other = refl
