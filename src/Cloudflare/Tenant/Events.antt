-- ===== src/Cloudflare/Tenant/Events.antt =====
-- The accepted events of a tenant's Durable Object (packages/cloudflare/src/tenant-do.ts).
use Prim.Native.String.{String}
use text.Mathlib.TextLemmas.{append_cancel_left, cons-append}
use anyhook.Base.{
  ◌≡◌, refl, ap, sym, ◌∙◌, true, false, Option, none, some, ◌==◌, eq_iff, ==_refl, Bool-cases, inl,
  inr, arith, if◌then◌else◌, ℕ,
}
use anyhook.Base.Exec.{ok}
use anyhook.Cloudflare.{Storage, IsStorage}
use anyhook.Cloudflare.Tenant.{
  Value, as_endpoint, as_event, as_index, endpoint_key, event_key, index_key, record_event,
  recorded, finalize_event,
}
use anyhook.Id.{char_at}
use anyhook.Ports.{RecordedEvent}
use anyhook.Types.{Endpoint, EventRecord}

event_key-eq : (k j : String) → (event_key k == event_key j) ≡ (k == j)
event_key-eq k j = elim (Bool-cases (k == j)) [
  | inl h ↦ rw ((eq_iff k j).0 h) (==_refl (event_key j) ∙ sym (==_refl j))
  | inr h ↦
      ground
        (arith, h, eq_iff k j, eq_iff (event_key k) (event_key j), append_cancel_left "evt:" k j)
]

-- The character at the position tells the prefixes apart.
differ : (i : ℕ) (s t : String) → (char_at s i == char_at t i) ≡ false → (s == t) ≡ false
differ i s t h = elim (Bool-cases (s == t)) [
  | inr e ↦ e
  | inl e ↦
      let same = ap (λ u. char_at u i == char_at t i) ((eq_iff s t).0 e) in
      absurd (ground (arith, h, ==_refl (char_at t i), same))
]

event_key-endpoint : (k j : String) → (event_key k == endpoint_key j) ≡ false
unfolding char_at
event_key-endpoint k j = differ 1 (event_key k) (endpoint_key j) (
    rw
      (
        cons-append "e" "vt:" k,
        cons-append "v" "t:" k,
        cons-append "e" "p:" j,
        cons-append "p" ":" j,
      )
      refl)

event_key-index : (k j : String) → (event_key k == index_key j) ≡ false
unfolding char_at
event_key-index k j =
    differ 0 (event_key k) (index_key j)
      (rw (cons-append "e" "vt:" k, cons-append "m" "sgidx:" j) refl)

module _ {W : Type 0} (storage : Storage W Value) (held : W → String → Option Value)
    (s : IsStorage storage held) where
  abbrev pub events : W → String → Option EventRecord
  events w k = as_event (held w (event_key k))

  abbrev pub endpoints : W → String → Option Endpoint
  endpoints w id = as_endpoint (held w (endpoint_key id))

  abbrev pub indexes : W → String → Option String
  indexes w id = as_index (held w (index_key id))

  -- One event is written, and nothing else.
  pub record Writes (k : String) (e : EventRecord) (w v : W) : Type 0 where
    pub written : (j : String) → events v j ≡ (if k == j then some e else events w j)
    pub endpoints_kept : (id : String) → endpoints v id ≡ endpoints w id
    pub indexes_kept : (id : String) → indexes v id ≡ indexes w id

  put-Writes :
      (k : String) (e : EventRecord) (w : W)
      → Writes k e w (s.put_at (event_key k) (Value.event e) w)
  put-Writes k e w = record {
    written = λ j. elim (Bool-cases (k == j)) [
      | inl h ↦ rw (s.held-put, event_key-eq, h) refl
      | inr h ↦ rw (s.held-put, event_key-eq, h) refl
    ];
    endpoints_kept = λ id. rw (s.held-put, event_key-endpoint) refl;
    indexes_kept = λ id. rw (s.held-put, event_key-index) refl;
  }

  pub data Records (event_id k : String) (w v : W) : RecordedEvent → Type 0 where
    known :
        (e : EventRecord)
        → events w k ≡ some e
        → v ≡ w
        → Records event_id k w v
            (record { is_new = false; event_id = e.event_id; message_count = e.message_count })
    fresh :
        events w k ≡ none
        → Writes k (record { event_id = event_id; message_count = 0 }) w v
        → Records event_id k w v (record { is_new = true; event_id = event_id; message_count = 0 })

  recorded-Records :
      (event_id k : String) (w : W) (found : Option EventRecord)
      → events w k ≡ found
      → let r = recorded storage event_id k found w in
        (a : RecordedEvent) × (r.0 ≡ ok a) × Records event_id k w r.1 a
  recorded-Records event_id k w (some e) h = (_, refl, known e h refl)
  recorded-Records event_id k w none h = rw (s.put_lem) (_, refl, fresh h (put-Writes k _ w))

  -- Over any storage in which a key holds what was put last: recording an event always returns; for a key
  -- that is known it gives the stored record and changes nothing, and for a new key it stores the event
  -- with no message counted yet, and leaves every other event, every endpoint and every index as it was.
  pub record_event-Records :
      (event_id k : String) (w : W)
      → let r = record_event storage event_id k w in
        (a : RecordedEvent) × (r.0 ≡ ok a) × Records event_id k w r.1 a
  unfolding record_event
  record_event-Records event_id k w =
      rw (s.get_lem (event_key k) w) (recorded-Records event_id k w (events w k) refl)

  -- Over any such storage: an event that was finalized is what a later record of its key answers, whatever
  -- id that comes with.
  pub finalize_event-record_event :
      (k event_id later_id : String) (n : ℕ) (w : W)
      → let v : W = (finalize_event storage k event_id n w).1 in
        ((finalize_event storage k event_id n w).0 ≡ ok tt)
        × ((record_event storage later_id k v).0
            ≡ ok (record { is_new = false; event_id = event_id; message_count = n }))
  unfolding finalize_event record_event
  finalize_event-record_event k event_id later_id n w =
      rw (s.put_lem) (refl, rw (s.get_lem, s.held-put, ==_refl (event_key k)) refl)
