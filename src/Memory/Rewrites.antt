-- ===== src/Memory/Rewrites.antt =====
-- What the methods that change one endpoint leave in the tables (packages/testing/src/memory-state.ts,
-- updateEndpoint and rotateSecret).
use anyhook.Base.{◌≡◌, refl, ◌∙◌, ap, subst, String, Option, none, some, List, [], ◌∷◌, take}
use anyhook.Base.Dict
use anyhook.Base.Exec.{Result, ok, err, endpoint_not_found, continue, Exec, pure, ◌>>=◌, ◌>>◌}
use anyhook.Memory.{MemoryState, TenantData, tenant_data}
use anyhook.Memory.Endpoints.{
  update_endpoint, rotate_secret, patched, rotated, replace_endpoint, or_not_found,
}
use anyhook.Memory.Refines.{
  view, data_of, data_of-tenant_data, data_of-store_tenant, written, row, kept,
}
use anyhook.Ports.{EndpointPatch}
use anyhook.Spec.{update}
use anyhook.Types.{Endpoint}

-- How a change of the endpoint `id` of tenant `t` ends: without such an endpoint it throws and no endpoint
-- changes; otherwise that endpoint alone becomes `f` of what it was, and nothing else changes.
pub data Modifies {A : Type 0} (t id : String) (f : Endpoint → Endpoint) (answer : Endpoint → A)
    (s s' : MemoryState) : Result A → Type 0 where
  missing :
      (view s).endpoint t id ≡ none
      → ((u k : String) → (view s').endpoint u k ≡ (view s).endpoint u k)
      → Modifies t id f answer s s' (err (endpoint_not_found id))
  modified :
      (e : Endpoint)
      → (view s).endpoint t id ≡ some e
      → ((u k : String) → (view s').endpoint u k ≡ update (view s).endpoint t id (some (f e)) u k)
      → ((u k : String) → (view s').message u k ≡ (view s).message u k)
      → ((u k : String) → (view s').event u k ≡ (view s).event u k)
      → Modifies t id f answer s s' (ok (answer (f e)))

module _ (t id : String) (e : Endpoint) (s s' : MemoryState)
    (same : (u : String) → data_of s' u ≡ data_of s u) where
  abbrev change : TenantData → TenantData
  change d = record d { endpoints = Dict.set id e d.endpoints }

  abbrev after : MemoryState
  after = (replace_endpoint t id (data_of s t) e s').1

  replaced : (u : String) → data_of after u ≡ written s t change u
  unfolding replace_endpoint written
  replaced u = data_of-store_tenant t _ s' u ∙ rw (same u) refl

  endpoint-replaced :
      (u k : String) → (view after).endpoint u k ≡ update (view s).endpoint t id (some e) u k
  endpoint-replaced u k =
      ap (λ d. Dict.get k d.endpoints) (replaced u)
      ∙ row s t change (λ d. d.endpoints) (λ o. o) id e refl u k

  replaced-kept :
      {A : Type 0} (part : TenantData → A)
      → part (change (data_of s t)) ≡ part (data_of s t)
      → (u : String) → part (data_of after u) ≡ part (data_of s u)
  replaced-kept part h u = ap part (replaced u) ∙ kept s t change part h u

module _ {A : Type 0} (t id : String) (f : Endpoint → Endpoint) (answer : Endpoint → A) where
  -- look, check, replace and answer
  abbrev changed : TenantData → Option Endpoint → Exec MemoryState A
  changed d found = do
    existing ← or_not_found id found
    replace_endpoint t id d (f existing)
    pure (answer (f existing))

  changed-Modifies :
      (s s' : MemoryState) (found : Option Endpoint)
      → ((u : String) → data_of s' u ≡ data_of s u)
      → (view s).endpoint t id ≡ found
      → Modifies t id f answer s
          (changed (data_of s t) found s').1
          (changed (data_of s t) found s').0
  unfolding replace_endpoint
  changed-Modifies s s' none same e = missing e λ u k. ap (λ d. Dict.get k d.endpoints) (same u)
  changed-Modifies s s' (some old) same e =
      modified old e (endpoint-replaced t id (f old) s s' same)
        (λ u k. replaced-kept t id (f old) s s' same (λ d. Dict.get k d.messages) refl u)
        (λ u k. replaced-kept t id (f old) s s' same (λ d. Dict.get k d.events) refl u)

  looked-Modifies :
      (s : MemoryState)
      → let r = (tenant_data t >>= λ d. changed d (Dict.get id d.endpoints)) s in
        Modifies t id f answer s r.1 r.0
  looked-Modifies s = from (tenant_data t s) (data_of-tenant_data t s)
    where
      from :
          (r : Result TenantData × MemoryState)
          → (r.0 ≡ ok (data_of s t)) × ((u : String) → data_of r.1 u ≡ data_of s u)
          → Modifies t id f answer s
              (continue r.0 (λ d. changed d (Dict.get id d.endpoints)) r.1).1
              (continue r.0 (λ d. changed d (Dict.get id d.endpoints)) r.1).0
      from (r, s') (e, same) = rw e (changed-Modifies s s' ((view s).endpoint t id) same refl)

-- the first of a list, alone
abbrev first_only : List String → List String
first_only [] = []
first_only (secret ∷ secrets) = secret ∷ []

-- The endpoint with the new secret, and after it the one that was first.
abbrev pub with_new_secret : String → Endpoint → Endpoint
with_new_secret secret e = record e { secrets = secret ∷ first_only e.secrets }

rotated_lem : (secret : String) (e : Endpoint) → rotated secret e ≡ with_new_secret secret e
rotated_lem secret e = ap (λ l. record e { secrets = secret ∷ l }) (take_one e.secrets)
  where
    take_one : (l : List String) → take 1 l ≡ first_only l
    take_one [] = refl
    take_one (x ∷ l) = refl

-- Rotating a secret of an endpoint that the tenant does not have throws and changes no endpoint. Else it
-- returns the new secret; the endpoint then has the new secret first and after it the one that was first
-- before, and no other; nothing else of it, no other endpoint, no message and no event changes.
pub rotate_secret-Modifies :
    (secret t id : String) (s : MemoryState)
    → Modifies t id
        (with_new_secret secret)
        (λ _. secret)
        s
        (rotate_secret secret t id s).1
        (rotate_secret secret t id s).0
unfolding rotate_secret
rotate_secret-Modifies secret t id s =
    subst
      (λ f.
        Modifies t id f (λ _. secret) s (rotate_secret secret t id s).1
          (rotate_secret secret t id s).0)
      (λ i e. rotated_lem secret e i) (looked-Modifies t id (rotated secret) (λ _. secret) s)

-- Updating an endpoint that the tenant does not have throws and changes no endpoint. Else it returns the
-- endpoint with the fields of the patch, which is what is stored then; no other endpoint, no message and no
-- event changes.
pub update_endpoint-Modifies :
    (t id : String) (patch : EndpointPatch) (s : MemoryState)
    → Modifies t id
        (λ e. patched e patch)
        (λ e. e)
        s
        (update_endpoint t id patch s).1
        (update_endpoint t id patch s).0
unfolding update_endpoint replace_endpoint
update_endpoint-Modifies t id patch s = looked-Modifies t id (λ e. patched e patch) (λ e. e) s
