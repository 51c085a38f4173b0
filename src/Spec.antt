-- ===== src/Spec.antt =====
-- What a store promises the engine, with no representation: each part of it as a function of the
-- tenant and the key.
pub mod Isolation
pub mod Settled
pub mod Accept
use anyhook.Base.{
  ℕ, ◌++◌, Bool, true, false, ◌&&◌, String, Option, none, some, List, [], ◌∷◌, ◌==◌, if◌then◌else◌,
}
use anyhook.Base.Exec.{Exec, ok}
use anyhook.Policy.Circuit.{initial_circuit, default_cooldown_ms}
use anyhook.Ports.{DeliveryStore, RecordedEvent}
use anyhook.Types.{Endpoint, Message, Attempt, CircuitRecord, RateBucket, DlqRow, EventRecord}

-- A table with a row for each tenant and key.
abbrev pub Table : Type 0 → Type 0
Table A = String → String → A

abbrev pub same_key : String → String → String → String → Bool
same_key t k u j = (t == u) && (k == j)

abbrev pub update : {A : Type 0} → Table A → String → String → A → Table A
update f t k v u j = if same_key t k u j then v else f u j

pub record View : Type 0 where
  pub endpoint : Table (Option Endpoint)
  pub matching : Table (List Endpoint)
  pub event : Table (Option EventRecord)
  pub message : Table (Option Message)
  pub attempts : Table (List Attempt)
  pub circuit : Table CircuitRecord
  pub bucket : Table (Option RateBucket)
  pub dlq : String → List DlqRow

-- the event stored under the key, or a new one with the count not yet known
abbrev pub reserve : String → String → String → Option EventRecord → Exec View RecordedEvent
reserve t event_id k (some e) v =
    (ok (record { is_new = false; event_id = e.event_id; message_count = e.message_count }), v)
reserve t event_id k none v = (
  ok (record { is_new = true; event_id = event_id; message_count = 0 }),
  record v {
    event = update v.event t k (some (record { event_id = event_id; message_count = 0 }));
  },
)

abbrev pub record_event : String → String → String → Exec View RecordedEvent
record_event t event_id k v = reserve t event_id k (v.event t k) v

-- `store ≡ view_store` up to the view is what a refinement shows.
abbrev pub view_store : DeliveryStore View
view_store = record {
  record_event = record_event;
  finalize_event = λ t k e n v. (
    ok tt,
    record v { event = update v.event t k (some (record { event_id = e; message_count = n })) },
  );
  get_endpoint = λ t e v. (ok (v.endpoint t e), v);
  match_endpoints = λ t e v. (ok (v.matching t e), v);
  put_message =
      λ m v. (ok tt, record v { message = update v.message m.tenant m.message_id (some m) });
  append_attempt = λ a v. (
    ok tt,
    record v {
      attempts =
          update v.attempts a.tenant a.message_id (v.attempts a.tenant a.message_id ++ a ∷ []);
    },
  );
  get_circuit = λ t e v. (ok (v.circuit t e), v);
  put_circuit = λ t e c v. (ok tt, record v { circuit = update v.circuit t e c });
  get_rate_bucket = λ t e v. (ok (v.bucket t e), v);
  put_rate_bucket = λ t e b v. (ok tt, record v { bucket = update v.bucket t e (some b) });
  add_to_dlq = λ m r v. (
    ok tt,
    record v {
      dlq = λ t.
          if m.tenant == t then v.dlq t ++ record { message = m; reason = r } ∷ [] else v.dlq t;
    },
  );
}
