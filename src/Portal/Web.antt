-- ===== src/Portal/Web.antt =====
-- packages/core/src/portal/http.ts: requests with their URL parsed and their body read, and responses before
-- JSON.stringify.
use text.Mathlib.Text.{starts_with}
use Prim.Native.String.{◌∷◌, count}
use anyhook.Base.{ℕ, ◌+◌, Bool, false, ◌||◌, not, String, Option, none, some, List, filter, ◌==◌}
use anyhook.Base.Exec.{Exec, pure, throw, invalid_json}
use anyhook.Base.Split.{split}
use anyhook.Base.Text.{drop_chars}
use anyhook.Engine.{or_default}
use anyhook.Portal.{PublicEndpoint, Created}
use anyhook.Ports.{DeliveryRow}
use anyhook.Types.{Receipt, MessageStatus, Payload}

-- The fields of a JSON body that the routes read. A PATCH spreads its body over the tenant and the id.
pub record Fields : Type 0 where
  pub type : Option String
  pub payload : Payload
  pub idempotency_key : Option String
  pub url : Option String
  pub event_types : Option (List String)
  pub description : Option String
  pub rate_limit : Option ℕ
  pub disabled : Option Bool
  pub tenant : Option String
  pub endpoint_id : Option String

-- what req.json() gives: a SyntaxError, null, or an object
pub data Body : Type 0 where
  not_json null : Body
  object : Fields → Body

pub record Request : Type 0 where
  pub method : String
  pub pathname : String
  pub search : String → Option String
  pub search_status : Option MessageStatus
  pub header : String → Option String
  pub json : Body

-- The data of a response, before JSON.stringify.
pub data Content : Type 0 where
  receipt : Receipt → Content
  created : Created → Content
  endpoints : List PublicEndpoint → Content
  endpoint : PublicEndpoint → Content
  deleted : Content
  secret : String → Content
  requeued : ℕ → Content
  deliveries : List DeliveryRow → Content
  delivery : DeliveryRow → Content
  replayed : Bool → Content
  error : String → Content

pub record Response : Type 0 where
  pub status : ℕ
  pub content : Content

abbrev pub json_res : Content → ℕ → Response
json_res data_ status = record { status = status; content = data_ }

pub record PortalRouterOptions : Type 0 where
  pub resolve_tenant : Option (Request → Option String)
  pub base_path : Option String

abbrev pub read_json : {W : Type 0} → Body → Exec W (Option Fields)
read_json Body.not_json = throw invalid_json
read_json Body.null = pure none
read_json (Body.object f) = pure (some f)

-- s.toLowerCase() on the letters of "not found", and /not found/i.test(s)
abbrev pub has_not_found : (String → String) → String → Bool
has_not_found to_lower String.[] = false
has_not_found to_lower (c ∷ s) =
    let rest = has_not_found to_lower s in starts_with (to_lower (c ∷ s)) "not found" || rest

-- the tenant of the request, where the empty one is none
abbrev pub resolved : PortalRouterOptions → Request → String
resolved opts req =
    or_default ((or_default opts.resolve_tenant (λ (r : Request). r.header "x-anyhook-tenant")) req)
      ""

abbrev pub segments : String → Request → List String
segments base req =
    filter (λ s. not (s == "")) (split "/" (drop_chars (count base + 1) req.pathname))
