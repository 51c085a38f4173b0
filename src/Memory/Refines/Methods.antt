-- ===== src/Memory/Refines/Methods.antt =====
-- The methods of the in-memory store against the specification (packages/testing/src/memory-state.ts).
use anyhook.Base.{
  ℕ, ◌≡◌, refl, ap, sym, fun_ext, Option-cases, ◌∙◌, String, true, false, Option, none, some, [],
  ◌∷◌, ◌++◌, eq_iff, ◌==◌, Bool-cases, inl, inr, if◌then◌else◌,
}
use anyhook.Base.Dict
use anyhook.Base.Exec.{Result, ok}
use anyhook.Engine.{or_default}
use anyhook.Engine.Simulation.{Simulates, StoreRefines}
use anyhook.Memory.{
  MemoryState, TenantData, memory_store, record_event, finalize_event, get_endpoint,
  match_endpoints, put_message, append_attempt, get_circuit, put_circuit, get_rate_bucket,
  put_rate_bucket, add_to_dlq,
}
use anyhook.Memory.Refines.{
  data_of, view, view_of, View-ext, written, kept, row, write-Simulates, read-Simulates,
  data_of-tenant_data, endpoint_row, matching_row, event_row, message_row, attempts_row,
  circuit_row, bucket_row,
}
use anyhook.Policy.Circuit.{initial_circuit, default_cooldown_ms}
use anyhook.Ports.{RecordedEvent}
use anyhook.Spec.{View, record_event as spec_record_event, view_store}
use anyhook.Types.{Message, Attempt, CircuitRecord, RateBucket, DlqReason, EventRecord}

put_message-Simulates : (m : Message) → Simulates view (put_message m) (view_store.put_message m)
unfolding put_message
put_message-Simulates m = write-Simulates m.tenant change _ λ s.
    View-ext _ _ (λ u k. kept s m.tenant change (endpoint_row k) refl u)
      (λ u k. kept s m.tenant change (matching_row k) refl u)
      (λ u k. kept s m.tenant change (event_row k) refl u)
      (λ u k. row s m.tenant change (λ d. d.messages) (λ o. o) m.message_id m refl u k)
      (λ u k. kept s m.tenant change (attempts_row k) refl u)
      (λ u k. kept s m.tenant change (circuit_row k) refl u)
      (λ u k. kept s m.tenant change (bucket_row k) refl u)
      (λ u. kept s m.tenant change (λ d. d.dlq) refl u)
  where
    change : TenantData → TenantData
    change d = record d { messages = Dict.set m.message_id m d.messages }

finalize_event-Simulates :
    (t k event_id : String) (n : ℕ)
    → Simulates view (finalize_event t k event_id n) (view_store.finalize_event t k event_id n)
unfolding finalize_event
finalize_event-Simulates t k event_id n = write-Simulates t change _ λ s.
    View-ext _ _ (λ u j. kept s t change (endpoint_row j) refl u)
      (λ u j. kept s t change (matching_row j) refl u)
      (λ u j.
        row s t change (λ d. d.events) (λ o. o) k
          (record { event_id = event_id; message_count = n }) refl u j)
      (λ u j. kept s t change (message_row j) refl u)
      (λ u j. kept s t change (attempts_row j) refl u)
      (λ u j. kept s t change (circuit_row j) refl u) (λ u j. kept s t change (bucket_row j) refl u)
      (λ u. kept s t change (λ d. d.dlq) refl u)
  where
    change : TenantData → TenantData
    change d = record d {
      events = Dict.set k (record { event_id = event_id; message_count = n }) d.events;
    }

append_attempt-Simulates :
    (a : Attempt) → Simulates view (append_attempt a) (view_store.append_attempt a)
unfolding append_attempt
append_attempt-Simulates a = write-Simulates a.tenant change _ λ s.
    View-ext _ _ (λ u k. kept s a.tenant change (endpoint_row k) refl u)
      (λ u k. kept s a.tenant change (matching_row k) refl u)
      (λ u k. kept s a.tenant change (event_row k) refl u)
      (λ u k. kept s a.tenant change (message_row k) refl u)
      (λ u k.
        row s a.tenant change (λ d. d.attempts) (λ o. or_default o []) a.message_id
          (attempts_row a.message_id (data_of s a.tenant) ++ a ∷ []) refl u k)
      (λ u k. kept s a.tenant change (circuit_row k) refl u)
      (λ u k. kept s a.tenant change (bucket_row k) refl u)
      (λ u. kept s a.tenant change (λ d. d.dlq) refl u)
  where
    change : TenantData → TenantData
    change d = record d {
      attempts =
          Dict.set a.message_id (or_default (Dict.get a.message_id d.attempts) [] ++ a ∷ [])
            d.attempts;
    }

put_circuit-Simulates :
    (t e : String) (c : CircuitRecord)
    → Simulates view (put_circuit t e c) (view_store.put_circuit t e c)
unfolding put_circuit
put_circuit-Simulates t e c = write-Simulates t change _ λ s.
    View-ext _ _ (λ u k. kept s t change (endpoint_row k) refl u)
      (λ u k. kept s t change (matching_row k) refl u) (λ u k. kept s t change (event_row k) refl u)
      (λ u k. kept s t change (message_row k) refl u)
      (λ u k. kept s t change (attempts_row k) refl u)
      (λ u k.
        row s t change (λ d. d.circuits) (λ o. or_default o (initial_circuit default_cooldown_ms)) e
          c refl u k)
      (λ u k. kept s t change (bucket_row k) refl u) (λ u. kept s t change (λ d. d.dlq) refl u)
  where
    change : TenantData → TenantData
    change d = record d { circuits = Dict.set e c d.circuits }

put_rate_bucket-Simulates :
    (t e : String) (b : RateBucket)
    → Simulates view (put_rate_bucket t e b) (view_store.put_rate_bucket t e b)
unfolding put_rate_bucket
put_rate_bucket-Simulates t e b = write-Simulates t change _ λ s.
    View-ext _ _ (λ u k. kept s t change (endpoint_row k) refl u)
      (λ u k. kept s t change (matching_row k) refl u) (λ u k. kept s t change (event_row k) refl u)
      (λ u k. kept s t change (message_row k) refl u)
      (λ u k. kept s t change (attempts_row k) refl u)
      (λ u k. kept s t change (circuit_row k) refl u)
      (λ u k. row s t change (λ d. d.rate_buckets) (λ o. o) e b refl u k)
      (λ u. kept s t change (λ d. d.dlq) refl u)
  where
    change : TenantData → TenantData
    change d = record d { rate_buckets = Dict.set e b d.rate_buckets }

dlq_row :
    (s : MemoryState) (m : Message) (r : DlqReason) (u : String)
    → (written s m.tenant
        (λ d. record d { dlq = d.dlq ++ record { message = m; reason = r } ∷ [] })
        u).dlq
      ≡ (if m.tenant == u
          then (data_of s u).dlq ++ record { message = m; reason = r } ∷ []
          else (data_of s u).dlq)
unfolding written
dlq_row s m r u = elim (Bool-cases (m.tenant == u)) [
  | inl h ↦ rw h (
      ap (λ v. (data_of s v).dlq ++ record { message = m; reason = r } ∷ [])
        ((eq_iff m.tenant u).0 h))
  | inr h ↦ rw h refl
]

add_to_dlq-Simulates :
    (m : Message) (r : DlqReason) → Simulates view (add_to_dlq m r) (view_store.add_to_dlq m r)
unfolding add_to_dlq
add_to_dlq-Simulates m r = write-Simulates m.tenant change _ λ s.
    View-ext _ _ (λ u k. kept s m.tenant change (endpoint_row k) refl u)
      (λ u k. kept s m.tenant change (matching_row k) refl u)
      (λ u k. kept s m.tenant change (event_row k) refl u)
      (λ u k. kept s m.tenant change (message_row k) refl u)
      (λ u k. kept s m.tenant change (attempts_row k) refl u)
      (λ u k. kept s m.tenant change (circuit_row k) refl u)
      (λ u k. kept s m.tenant change (bucket_row k) refl u) (λ u. dlq_row s m r u)
  where
    change : TenantData → TenantData
    change d = record d { dlq = d.dlq ++ record { message = m; reason = r } ∷ [] }

match_endpoints-Simulates :
    (t y : String) → Simulates view (match_endpoints t y) (view_store.match_endpoints t y)
unfolding match_endpoints
match_endpoints-Simulates t y = record {
  at = λ s.
      let (e, k) = data_of-tenant_data t s in
      rw e (λ i. (ok (matching_row y (data_of s t)), view_of (fun_ext k i)));
}

-- What the specification answers to an event, by the event that it finds.
recorded : String → String → String → View → Option EventRecord → Result RecordedEvent × View
recorded t event_id k v (some e) =
    (ok (record { is_new = false; event_id = e.event_id; message_count = e.message_count }), v)
recorded t event_id k v none = (
  ok (record { is_new = true; event_id = event_id; message_count = 0 }),
  (view_store.finalize_event t k event_id 0 v).1,
)

record_event-recorded :
    (t event_id k : String) (v : View)
    → view_store.record_event t event_id k v ≡ recorded t event_id k v (v.event t k)
unfolding recorded
record_event-recorded t event_id k v = elim (Option-cases (v.event t k)) [
  | inl e ↦ rw (e, spec_record_event) refl
  | inr (r, e) ↦ rw (e, spec_record_event) refl
]

record_event-Simulates :
    (t event_id k : String)
    → Simulates view (record_event t event_id k) (view_store.record_event t event_id k)
record_event-Simulates t event_id k = record {
  at = λ s.
      found s (event_row k (data_of s t)) refl ∙ sym (record_event-recorded t event_id k (view s));
}
  where
    found :
        (s : MemoryState) (o : Option EventRecord)
        → event_row k (data_of s t) ≡ o
        → ◌≡◌ {A = Result RecordedEvent × View}
            ((record_event t event_id k s).0, view (record_event t event_id k s).1)
            (recorded t event_id k (view s) (event_row k (data_of s t)))
    found s (some r) e =
        let (f, g) = data_of-tenant_data t s in
        unfold record_event recorded in
        rw (f, e)
          (λ i. (
            ok (record { is_new = false; event_id = r.event_id; message_count = r.message_count }),
            view_of (fun_ext g i),
          ))
    found s none e =
        let (f, g) = data_of-tenant_data t s in
        let h = ap (λ r. r.1) ((finalize_event-Simulates t k event_id 0).at s) in
        unfold record_event recorded finalize_event in
        rw (f, e)
          (λ i.
            (ok (record { is_new = true; event_id = event_id; message_count = 0 }), (rw f at h) i))

-- The in-memory store refines the specification of a store.
pub memory_store-refines : StoreRefines view memory_store view_store
memory_store-refines = record {
  record_event = record_event-Simulates;
  finalize_event = finalize_event-Simulates;
  get_endpoint = λ t e. unfold get_endpoint in read-Simulates t _ _ λ s. refl;
  match_endpoints = match_endpoints-Simulates;
  put_message = put_message-Simulates;
  append_attempt = append_attempt-Simulates;
  get_circuit = λ t e. unfold get_circuit in read-Simulates t _ _ λ s. refl;
  put_circuit = put_circuit-Simulates;
  get_rate_bucket = λ t e. unfold get_rate_bucket in read-Simulates t _ _ λ s. refl;
  put_rate_bucket = put_rate_bucket-Simulates;
  add_to_dlq = add_to_dlq-Simulates;
}
