-- ===== src/Memory/Refines.antt =====
-- The tables of the specification as a view of the in-memory store (packages/testing/src/memory-state.ts),
-- and lemmas on what reading and writing one tenant does to the view.
pub mod Methods
use anyhook.Base.{
  ℕ, ◌≡◌, refl, ap, fun_ext, String, Bool, true, false, Option, none, some, List, [], ◌∷◌, ◌++◌,
  filter, arith, eq_iff, ◌==◌, ==_refl, Bool-cases, ◌∙◌, inl, inr, if◌then◌else◌,
}
use anyhook.Base.Dict
use anyhook.Base.Dict.{Dict, get-set}
use anyhook.Base.Exec.{Exec, Result, ok, continue, pure, ◌>>=◌}
use anyhook.Engine.{or_default}
use anyhook.Engine.Simulation.{Simulates, StoreRefines}
use anyhook.Fanout.{subscribes}
use anyhook.Memory.{
  MemoryState, TenantData, new_tenant, tenant_data, store_tenant, memory_store, record_event,
  put_message,
}
use anyhook.Policy.Circuit.{initial_circuit, default_cooldown_ms}
use anyhook.Spec.{View, same_key, view_store, update}
use anyhook.Types.{Message, Endpoint, EventRecord, Attempt, CircuitRecord, RateBucket}

-- The tenant's data, empty where there is none yet.
abbrev pub data_of : MemoryState → String → TenantData
data_of s t = or_default (Dict.get t s.tenants) new_tenant

abbrev pub view_of : (String → TenantData) → View
view_of d = record {
  endpoint = λ t e. Dict.get e (d t).endpoints;
  matching = λ t y. filter (λ e. subscribes e y) (Dict.values (d t).endpoints);
  event = λ t k. Dict.get k (d t).events;
  message = λ t i. Dict.get i (d t).messages;
  attempts = λ t i. or_default (Dict.get i (d t).attempts) [];
  circuit = λ t e. or_default (Dict.get e (d t).circuits) (initial_circuit default_cooldown_ms);
  bucket = λ t e. Dict.get e (d t).rate_buckets;
  dlq = λ t. (d t).dlq;
}

abbrev pub view : MemoryState → View
view s = view_of (data_of s)

-- Two views are equal if their tables are, row by row.
pub View-ext :
    (v w : View)
    → ((t k : String) → v.endpoint t k ≡ w.endpoint t k)
    → ((t k : String) → v.matching t k ≡ w.matching t k)
    → ((t k : String) → v.event t k ≡ w.event t k)
    → ((t k : String) → v.message t k ≡ w.message t k)
    → ((t k : String) → v.attempts t k ≡ w.attempts t k)
    → ((t k : String) → v.circuit t k ≡ w.circuit t k)
    → ((t k : String) → v.bucket t k ≡ w.bucket t k)
    → ((t : String) → v.dlq t ≡ w.dlq t)
    → v ≡ w
View-ext v w e m n g a c b d = λ i. record {
  endpoint = λ t k. e t k i;
  matching = λ t k. m t k i;
  event = λ t k. n t k i;
  message = λ t k. g t k i;
  attempts = λ t k. a t k i;
  circuit = λ t k. c t k i;
  bucket = λ t k. b t k i;
  dlq = λ t. d t i;
}

-- Making an empty tenant shows in no table.
pub data_of-tenant_data :
    (t : String) (s : MemoryState)
    → ((tenant_data t s).0 ≡ ok (data_of s t))
      × ((u : String) → data_of (tenant_data t s).1 u ≡ data_of s u)
data_of-tenant_data t s = found (Dict.get t s.tenants) refl
  where
    found :
        (o : Option TenantData)
        → Dict.get t s.tenants ≡ o
        → ((tenant_data t s).0 ≡ ok (data_of s t))
          × ((u : String) → data_of (tenant_data t s).1 u ≡ data_of s u)
    found (some d) e = (
      unfold tenant_data in rw (e, tenant_data) refl,
      λ u. unfold tenant_data in rw (e, tenant_data) refl,
    )
    found none e = (
      unfold tenant_data in rw (e, tenant_data) refl,
      λ u. unfold tenant_data in rw (e, tenant_data) (rw get-set (ground (arith, eq_iff t u))),
    )

-- What a method that writes one tenant leaves in each tenant.
unfoldable pub written :
    (s : MemoryState) (t : String) → (TenantData → TenantData) → String → TenantData
written s t change u = if t == u then change (data_of s t) else data_of s u

pub data_of-store_tenant :
    (t : String) (d : TenantData) (s : MemoryState) (u : String)
    → data_of (store_tenant t d s).1 u ≡ (if t == u then d else data_of s u)
data_of-store_tenant t d s u = unfold store_tenant in rw get-set (ground (arith, eq_iff t u))

-- Look, change and store.
abbrev pub change_tenant : String → (TenantData → TenantData) → Exec MemoryState (Unit {0})
change_tenant t change = tenant_data t >>= λ d. store_tenant t (change d)

pub change_tenant_lem :
    (t : String) (change : TenantData → TenantData) (s : MemoryState)
    → ((change_tenant t change s).0 ≡ ok tt)
      × ((u : String) → data_of (change_tenant t change s).1 u ≡ written s t change u)
unfolding written
change_tenant_lem t change s = stored (tenant_data t s) (data_of-tenant_data t s)
  where
    stored :
        (r : Result TenantData × MemoryState)
        → (r.0 ≡ ok (data_of s t)) × ((u : String) → data_of r.1 u ≡ data_of s u)
        → ((continue r.0 (λ d. store_tenant t (change d)) r.1).0 ≡ ok tt)
          × ((u : String)
              → data_of (continue r.0 (λ d. store_tenant t (change d)) r.1).1 u
                ≡ (if t == u then change (data_of s t) else data_of s u))
    stored (r, s') (e, k) =
        rw e (unfold store_tenant in refl, λ u. data_of-store_tenant t _ s' u ∙ rw (k u) refl)

-- A part that the change leaves alone is as it was in every tenant.
pub kept :
    {A : Type 0} (s : MemoryState) (t : String) (change : TenantData → TenantData)
    (part : TenantData → A)
    → part (change (data_of s t)) ≡ part (data_of s t)
    → (u : String) → part (written s t change u) ≡ part (data_of s u)
unfolding written
kept s t change part e u = elim (Bool-cases (t == u)) [
  | inl h ↦ rw h (e ∙ ap (λ v. part (data_of s v)) ((eq_iff t u).0 h))
  | inr h ↦ rw h refl
]

-- What the view shows of one tenant's data.
abbrev pub endpoint_row : String → TenantData → Option Endpoint
endpoint_row k d = Dict.get k d.endpoints

abbrev pub matching_row : String → TenantData → List Endpoint
matching_row y d = filter (λ e. subscribes e y) (Dict.values d.endpoints)

abbrev pub event_row : String → TenantData → Option EventRecord
event_row k d = Dict.get k d.events

abbrev pub message_row : String → TenantData → Option Message
message_row k d = Dict.get k d.messages

abbrev pub attempts_row : String → TenantData → List Attempt
attempts_row k d = or_default (Dict.get k d.attempts) []

abbrev pub circuit_row : String → TenantData → CircuitRecord
circuit_row k d = or_default (Dict.get k d.circuits) (initial_circuit default_cooldown_ms)

abbrev pub bucket_row : String → TenantData → Option RateBucket
bucket_row k d = Dict.get k d.rate_buckets

-- A table in which the change writes one row.
pub row :
    {A B : Type 0} (s : MemoryState) (t : String) (change : TenantData → TenantData)
    (part : TenantData → Dict A) (read : Option A → B) (id : String) (a : A)
    → part (change (data_of s t)) ≡ Dict.set id a (part (data_of s t))
    → (u k : String)
    → read (Dict.get k (part (written s t change u)))
      ≡ (if same_key t id u k then read (some a) else read (Dict.get k (part (data_of s u))))
unfolding written
row s t change part read id a e u k = elim (Bool-cases (t == u)) [
  | inl h ↦
      rw (h, e, get-set)
        (elim (Bool-cases (id == k)) [
          | inl j ↦ rw j refl
          | inr j ↦ rw j (ap (λ v. read (Dict.get k (part (data_of s v)))) ((eq_iff t u).0 h))
        ])
  | inr h ↦ rw h refl
]

pub write-Simulates :
    (t : String) (change : TenantData → TenantData) (g : View → View)
    → ((s : MemoryState) → view_of (written s t change) ≡ g (view s))
    → Simulates view (change_tenant t change) (λ v. (ok tt, g v))
write-Simulates t change g h = record {
  at = λ s.
      let (e, k) = change_tenant_lem t change s in λ i. (e i, ((ap view_of (fun_ext k)) ∙ h s) i);
}

pub read-Simulates :
    {A : Type 0} (t : String) (f : TenantData → A) (g : View → A)
    → ((s : MemoryState) → f (data_of s t) ≡ g (view s))
    → Simulates view (tenant_data t >>= λ d. pure (f d)) (λ v. (ok (g v), v))
read-Simulates t f g h = record { at = λ s. looked s (tenant_data t s) (data_of-tenant_data t s) }
  where
    looked :
        (s : MemoryState) (r : Result TenantData × MemoryState)
        → (r.0 ≡ ok (data_of s t)) × ((u : String) → data_of r.1 u ≡ data_of s u)
        → ◌≡◌ {A = Result _ × View}
            ((continue r.0 (λ d. pure (f d)) r.1).0, view (continue r.0 (λ d. pure (f d)) r.1).1)
            (ok (g (view s)), view s)
    looked s (r, s') (e, k) = rw e (λ i. (ok (h s i), view_of (fun_ext k i)))
