-- ===== src/Portal/Http/Routes.antt =====
-- Whose data a request of the portal reaches (packages/core/src/portal/http.ts): a relation between worlds
-- that the calls for one tenant keep, through every route.
use Prim.Native.String.{◌++◌}
use text.Mathlib.Text.{starts_with}
use anyhook.Base.{
  ℕ, ◌≡◌, refl, ◌&&◌, String, Option, none, some, List, [], ◌∷◌, ◌==◌, Bool-cases, inl, inr,
}
use anyhook.Base.Exec.{Exec, Result, Error, ok, err, pure, throw, caught, ◌>>=◌}
use anyhook.Engine.{or_default}
use anyhook.Engine.Within.{Within, IsPreorder, Within-bind, Within-pure, Within-if}
use anyhook.Portal as portal
use anyhook.Portal.Web.{
  Fields, Body, not_json, null, object, Request, Response, PortalRouterOptions, read_json, resolved,
  segments,
}
use anyhook.Portal.Http.{
  ingest, send_event, create, create_from, create_endpoint, update, endpoint_or_404,
  delivery_or_404, post_event, post_endpoint, get_endpoints, get_deliveries, get_endpoint,
  patch_endpoint, delete_endpoint, get_delivery, post_rotate, post_replay_endpoint, post_replay,
  one_segment, two_segments, three_segments, route, handle,
}
use anyhook.Ports.{StateStore, NewEndpoint, EndpointPatch, DeliveryQuery, DeliveryRow}
use anyhook.Types.{SendEvent, Receipt, Message}

module _ {W : Type 0} (state : StateStore W) (transport_send : Message → Exec W (Unit {0}))
    (now : Exec W ℕ) (send : SendEvent → Exec W Receipt) where
  -- The calls of the engine for one tenant keep the relation.
  pub record TenantCalls (R : W → W → Type 0) (tenant : String) : Type 0 where
    pub pre : IsPreorder R
    pub send_lem : (e : SendEvent) → e.tenant ≡ tenant → Within R (send e)
    pub create_lem : (e : NewEndpoint) → e.tenant ≡ tenant → Within R (portal.create state e)
    pub list_lem : Within R (portal.list state tenant)
    pub get_lem : (id : String) → Within R (portal.get state tenant id)
    pub update_lem :
        (id : String) (patch : EndpointPatch) → Within R (portal.update state tenant id patch)
    pub rotate_lem : (id : String) → Within R (portal.rotate_secret state tenant id)
    pub delete_lem : (id : String) → Within R (portal.delete state tenant id)
    pub list_deliveries_lem :
        (q : DeliveryQuery)
        → q.tenant ≡ tenant
        → Within R (portal.list_deliveries state transport_send now q)
    pub get_delivery_lem :
        (id : String) → Within R (portal.get_delivery state transport_send now tenant id)
    pub replay_lem : (id : String) → Within R (portal.replay state transport_send now tenant id)
    pub replay_endpoint_lem :
        (id : String) (since : Option ℕ)
        → Within R (portal.replay_endpoint state transport_send now tenant id since)

  -- The JSON body names no tenant.
  abbrev pub NoTenant : Body → Type 0
  NoTenant not_json = Unit
  NoTenant null = Unit
  NoTenant (object f) = f.tenant ≡ none

  abbrev NoTenantIn : Option Fields → Type 0
  NoTenantIn none = Unit
  NoTenantIn (some f) = f.tenant ≡ none

  module _ (to_number : String → Option ℕ) (to_upper to_lower : String → String)
      (other_message : Error → String) (R : W → W → Type 0) (tenant : String)
      (c : TenantCalls R tenant) where
    throws : {A : Type 0} (e : Error) → Within R (throw {W = W} {A = A} e)
    throws e = record { at = λ w. c.pre.stay w }

    read_json-Within : (b : Body) → Within R (read_json {W = W} b)
    read_json-Within not_json = throws _
    read_json-Within null = Within-pure c.pre _
    read_json-Within (object f) = Within-pure c.pre _

    then_pure :
        {A : Type 0} (m : Exec W A) (f : A → Response)
        → Within R m
        → Within R (m >>= λ a. pure (f a))
    then_pure m f h = Within-bind c.pre m _ h (λ a. Within-pure c.pre (f a))

    ingest-Within :
        (body : Option Fields)
        → Within R (
            ingest state transport_send now send to_number to_upper to_lower other_message tenant
              body)
    unfolding ingest send_event
    ingest-Within none = throws _
    ingest-Within (some body) =
        Within-if c.pre (or_default body.type "" == "") _ _ (throws _)
          (then_pure _ _ (c.send_lem _ refl))

    create_from-Within :
        (body : Fields) (event_types : Option (List String))
        → Within R (
            create_from state transport_send now send to_number to_upper to_lower other_message
              tenant body event_types)
    unfolding create_from create_endpoint
    create_from-Within body none = throws _
    create_from-Within body (some event_types) =
        Within-if c.pre (or_default body.url "" == "") _ _ (throws _)
          (then_pure _ _ (c.create_lem _ refl))

    create-Within :
        (body : Option Fields)
        → Within R (
            create state transport_send now send to_number to_upper to_lower other_message tenant
              body)
    unfolding create
    create-Within none = throws _
    create-Within (some body) = create_from-Within body body.event_types

    update-Within :
        (id : String) (body : Option Fields)
        → NoTenantIn body
        → Within R (
            update state transport_send now send to_number to_upper to_lower other_message tenant id
              body)
    unfolding update
    update-Within id none own = then_pure _ _ (c.update_lem id _)
    update-Within id (some f) own = then_pure _ _ (rw own (c.update_lem _ _))

    found-Within :
        (e : Option portal.PublicEndpoint)
        → Within R (
            endpoint_or_404 state transport_send now send to_number to_upper to_lower other_message
              e)
    unfolding endpoint_or_404
    found-Within none = throws _
    found-Within (some e) = Within-pure c.pre _

    row-Within :
        (row : Option DeliveryRow)
        → Within R (
            delivery_or_404 state transport_send now send to_number to_upper to_lower other_message
              row)
    unfolding delivery_or_404
    row-Within none = throws _
    row-Within (some row) = Within-pure c.pre _

    body-Within :
        (id : String) (b : Body)
        → NoTenant b
        → Within R (
            read_json b
            >>= update state transport_send now send to_number to_upper to_lower other_message
                tenant id)
    body-Within id not_json own = record { at = λ w. c.pre.stay w }
    body-Within id null own = record { at = (update-Within id none tt).at }
    body-Within id (object f) own = record { at = (update-Within id (some f) own).at }

    patch-Within :
        (req : Request) (id : String)
        → NoTenant req.json
        → Within R (
            patch_endpoint state transport_send now send to_number to_upper to_lower other_message
              tenant req id)
    unfolding patch_endpoint
    patch-Within req id own = body-Within id req.json own

    one_segment-Within :
        (req : Request) (m s : String)
        → Within R (
            one_segment state transport_send now send to_number to_upper to_lower other_message
              tenant req m s)
    unfolding one_segment post_event post_endpoint get_endpoints get_deliveries
    one_segment-Within req m s =
        Within-if c.pre ((m == "POST") && (s == "events")) _ _
          (Within-bind c.pre _ _ (read_json-Within req.json) ingest-Within)
          (Within-if c.pre ((s == "endpoints") && (m == "POST")) _ _
            (Within-bind c.pre _ _ (read_json-Within req.json) create-Within)
            (Within-if c.pre ((s == "endpoints") && (m == "GET")) _ _ (then_pure _ _ c.list_lem) (
              Within-if c.pre ((s == "deliveries") && (m == "GET")) _ _
                (then_pure _ _ (c.list_deliveries_lem _ refl)) (Within-pure c.pre _))))

    two_segments-Within :
        (req : Request) (m s id : String)
        → NoTenant req.json
        → Within R (
            two_segments state transport_send now send to_number to_upper to_lower other_message
              tenant req m s id)
    unfolding two_segments get_endpoint delete_endpoint get_delivery
    two_segments-Within req m s id own =
        Within-if c.pre ((s == "endpoints") && (m == "GET")) _ _
          (Within-bind c.pre _ _ (c.get_lem id) found-Within)
          (Within-if c.pre ((s == "endpoints") && (m == "PATCH")) _ _ (patch-Within req id own) (
            Within-if c.pre ((s == "endpoints") && (m == "DELETE")) _ _
              (then_pure _ _ (c.delete_lem id))
              (Within-if c.pre ((s == "deliveries") && (m == "GET")) _ _
                (Within-bind c.pre _ _ (c.get_delivery_lem id) row-Within) (Within-pure c.pre _))))

    three_segments-Within :
        (req : Request) (m s id action : String)
        → Within R (
            three_segments state transport_send now send to_number to_upper to_lower other_message
              tenant req m s id action)
    unfolding three_segments post_rotate post_replay_endpoint post_replay
    three_segments-Within req m s id action =
        Within-if c.pre ((s == "endpoints") && ((action == "rotate-secret") && (m == "POST"))) _ _
          (then_pure _ _ (c.rotate_lem id))
          (Within-if c.pre ((s == "endpoints") && ((action == "replay") && (m == "POST"))) _ _
            (then_pure _ _ (c.replay_endpoint_lem id _))
            (Within-if c.pre ((s == "deliveries") && ((action == "replay") && (m == "POST"))) _ _
              (then_pure _ _ (c.replay_lem id)) (Within-pure c.pre _)))

    route-Within :
        (req : Request) (m : String) (segs : List String)
        → NoTenant req.json
        → Within R (
            route state transport_send now send to_number to_upper to_lower other_message tenant req
              m segs)
    unfolding route
    route-Within req m [] own = Within-pure c.pre _
    route-Within req m (s ∷ []) own = one_segment-Within req m s
    route-Within req m (s ∷ (id ∷ [])) own = two_segments-Within req m s id own
    route-Within req m (s ∷ (id ∷ (action ∷ []))) own = three_segments-Within req m s id action
    route-Within req m (s ∷ (id ∷ (action ∷ (x ∷ rest)))) own = Within-pure c.pre _

    -- The tenant of the request is resolved, or there is none. The router answers with a response, and the
    -- calls that it made are those for the tenant.
    caught-Answers :
        (u v : W) (r : Result Response) (f : Error → Response)
        → R u v
        → let q = caught r (λ e. pure (f e)) v in (a : Response) × (q.0 ≡ ok a) × R u q.1
    caught-Answers u v (ok a) f h = (a, refl, h)
    caught-Answers u v (err e) f h = (f e, refl, h)

    -- Let a relation between the worlds be kept by every call of the engine for the request's tenant. If the
    -- JSON body names no tenant, the router always answers with a response, whatever the calls throw, and
    -- keeps the relation.
    pub handle-Answers :
        (opts : PortalRouterOptions) (req : Request) (w : W)
        → NoTenant req.json
        → resolved opts req ≡ tenant
        → let q =
            handle state transport_send now send to_number to_upper to_lower other_message opts req
              w in
          (a : Response) × (q.0 ≡ ok a) × R w q.1
    unfolding handle
    handle-Answers opts req w own e =
        elim (Bool-cases (starts_with req.pathname (or_default opts.base_path "/v1" ++ "/"))) [
          | inl h ↦ elim (Bool-cases (resolved opts req == "")) [
            | inl none_resolved ↦ rw (h, none_resolved) (_, refl, c.pre.stay w)
            | inr some_resolved ↦
                rw (h, some_resolved, e)
                  (caught-Answers w _ _ _ (
                    (route-Within req (to_upper req.method)
                        (segments (or_default opts.base_path "/v1") req) own).at
                      w))
          ]
          | inr h ↦ rw h (_, refl, c.pre.stay w)
        ]
