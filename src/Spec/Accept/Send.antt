-- ===== src/Spec/Accept/Send.antt =====
-- Every way `send` (packages/core/src/engine.ts) can go, over the abstract store.
use Prim.Native.String.{len}
use anyhook.Base.{
  ℕ, ◌≤◌, ◌<◌, ◌≡◌, ◌≢◌, refl, ◌∙◌, String, Option, none, some, ◌==◌, if◌then◌else◌, ltb, eq_iff,
  Bool-cases, inl, inr, arith,
}
use anyhook.Base.Exec.{
  Result, ok, err, type_required, tenant_required, payload_undefined, payload_too_large, pure,
  ◌>>=◌, Exec,
}
use anyhook.Engine.{EngineConfig, send, accept, record_and_accept, check_size, or_default}
use anyhook.Id.{derive_idempotency_key}
use anyhook.Spec.{View, update}
use anyhook.Spec.Accept.{P, new_id-draws, accept-Accepts, Accepts, wanted}
use anyhook.Types.{SendEvent, Receipt, EventRecord}
use anyhook.World.{Outside, World}

module _ (out : Outside) (cfg : EngineConfig) where
  -- event.idempotencyKey ?? deriveIdempotencyKey(event)
  abbrev pub key_of : SendEvent → String
  key_of event = or_default event.idempotency_key (derive_idempotency_key out.sha256_hex event)

  -- An event that passes the checks.
  pub record IsSendable (event : SendEvent) : Type 0 where
    pub typed : event.type ≢ ""
    pub owned : event.tenant ≢ ""
    pub body : String
    pub has : event.payload ≡ some body
    pub fits : len body ≤ cfg.max_payload_bytes

  -- How `send` ends in a world `w`. The checks leave the world alone; a key that is known gives the
  -- stored receipt, and only draws were made; any other event is accepted.
  pub data Sends (event : SendEvent) (w : World View) : Result Receipt → World View → Type 0 where
    without_type : event.type ≡ "" → Sends event w (err type_required) w
    without_tenant : event.tenant ≡ "" → Sends event w (err tenant_required) w
    without_payload : event.payload ≡ none → Sends event w (err payload_undefined) w
    oversized :
        (body : String)
        → event.payload ≡ some body
        → cfg.max_payload_bytes < len body
        → Sends event w (err (payload_too_large cfg.max_payload_bytes)) w
    repeated :
        (known : EventRecord) (d : ℕ)
        → IsSendable event
        → w.store.event event.tenant (key_of event) ≡ some known
        → Sends event w
            (ok (record { event_id = known.event_id; message_count = known.message_count }))
            (record w { drawn = d })
    accepted :
        (id : String) (receipt : Receipt) (v : World View)
        → IsSendable event
        → w.store.event event.tenant (key_of event) ≡ none
        → Accepts out cfg event (key_of event) id (wanted out cfg event w) w receipt v
        → Sends event w (ok receipt) v

  Ends : (event : SendEvent) (w : World View) → Result Receipt × World View → Type 0
  Ends event w r = Sends event w r.0 r.1

  reserved : SendEvent → String → ℕ → World View → World View
  reserved event id d w = record w {
    drawn = d;
    store = record w.store {
      event =
          update w.store.event event.tenant (key_of event)
            (some (record { event_id = id; message_count = 0 }));
    };
  }

  after_id : SendEvent → String → Exec (World View) Receipt
  after_id event event_id = do
    rec ← (P out cfg).record_event event.tenant event_id (key_of event)
    if rec.is_new
        then accept (P out cfg) cfg event (key_of event) event_id
        else pure (record { event_id = rec.event_id; message_count = rec.message_count })

  after_id-Sends :
      (event : SendEvent) (id : String) (d : ℕ) (w : World View) (found : Option EventRecord)
      → IsSendable event
      → w.store.event event.tenant (key_of event) ≡ found
      → Ends event w (after_id event id (record w { drawn = d }))
  unfolding Ends after_id reserved
  after_id-Sends event id d w (some known) sendable e = rw e (repeated known d sendable e)
  after_id-Sends event id d w none sendable e =
      let (receipt, v, accepts, a) =
        accept-Accepts out cfg event (key_of event) id (reserved event id d w) in
      rw e (
        rw accepts (
          accepted id receipt v sendable e (record {
            messages = a.messages;
            queued = a.queued;
            one_each = a.one_each;
            fresh = a.fresh;
            receipt_id = a.receipt_id;
            receipt_count = a.receipt_count;
            stored = a.stored;
          })))

  recorded-Sends :
      (event : SendEvent) (w : World View)
      → IsSendable event
      → Ends event w (record_and_accept (P out cfg) cfg event w)
  unfolding record_and_accept after_id
  recorded-Sends event w sendable =
      let (id, d, drawn) = new_id-draws out cfg "evt" w in
      rw drawn (after_id-Sends event id d w _ sendable refl)

  -- `send` always returns or throws in exactly one of these ways: without a type, a tenant or a payload,
  -- or with a payload that is too large, it throws and changes nothing; for a key that is recorded it
  -- gives the recorded receipt, and changes nothing but the count of draws; otherwise it stores the event
  -- under its key and queues one fresh message for each enabled endpoint that subscribes, in order.
  pub send-Sends :
      (event : SendEvent) (w : World View)
      → Sends event w (send (P out cfg) cfg event w).0 (send (P out cfg) cfg event w).1
  unfolding send Ends
  send-Sends event w = elim (Bool-cases (event.type == "")) [
    | inl h ↦ rw h (without_type ((eq_iff event.type "").0 h))
    | inr h ↦ elim (Bool-cases (event.tenant == "")) [
      | inl k ↦ rw (h, k) (without_tenant ((eq_iff event.tenant "").0 k))
      | inr k ↦
          rw (h, k)
            (sized event w event.payload (λ e. ground (arith, h, eq_iff event.type ""))
              (λ e. ground (arith, k, eq_iff event.tenant "")) refl)
    ]
  ]
    where
      sized :
          (event : SendEvent) (w : World View) (payload : Option String)
          → event.type ≢ ""
          → event.tenant ≢ ""
          → event.payload ≡ payload
          → Ends event w (check_size (P out cfg) cfg event payload w)
      sized event w none typed owned e = unfold check_size Ends in without_payload e
      sized event w (some body) typed owned e =
          elim (Bool-cases (ltb cfg.max_payload_bytes (len body))) [
            | inl h ↦ unfold check_size Ends in rw h (oversized body e (ground arith))
            | inr h ↦
                unfold check_size in
                rw h (
                  recorded-Sends event w (record {
                    typed = typed;
                    owned = owned;
                    body = body;
                    has = e;
                    fits = ground arith;
                  }))
          ]

  -- An event that was sent is stored with its receipt.
  record Kept (event : SendEvent) (receipt : Receipt) (v : World View) : Type 0 where
    sendable : IsSendable event
    stored :
        v.store.event event.tenant (key_of event)
        ≡ some (record { event_id = receipt.event_id; message_count = receipt.message_count })

  sent-Kept :
      {event : SendEvent} {w v : World View} {receipt : Receipt} {r : Result Receipt}
      → Sends event w r v
      → r ≡ ok receipt
      → Kept event receipt v
  sent-Kept (without_type _) e = absurd (ground arith)
  sent-Kept (without_tenant _) e = absurd (ground arith)
  sent-Kept (without_payload _) e = absurd (ground arith)
  sent-Kept (oversized _ _ _) e = absurd (ground arith)
  sent-Kept (repeated known d sendable found) e = record {
    sendable = sendable;
    stored = found ∙ ground arith;
  }
  sent-Kept (accepted id receipt v sendable _ a) e = record {
    sendable = sendable;
    stored = a.stored ∙ ground (arith, a.receipt_id, a.receipt_count);
  }

  pub record SameSend (receipt : Receipt) (v : World View) (r : Result Receipt) (v' : World View)
      : Type 0 where
    pub same_receipt : r ≡ ok receipt
    pub same_store : v'.store ≡ v.store
    pub same_queue : v'.queue ≡ v.queue

  again-SameSend :
      {event : SendEvent} {v v' : World View} {receipt : Receipt} {r : Result Receipt}
      → Kept event receipt v
      → Sends event v r v'
      → SameSend receipt v r v'
  again-SameSend k (without_type e) = absurd (k.sendable.typed e)
  again-SameSend k (without_tenant e) = absurd (k.sendable.owned e)
  again-SameSend k (without_payload e) = absurd (ground (arith, e, k.sendable.has))
  again-SameSend k (oversized body e long) =
      absurd (ground (arith, e, k.sendable.has, k.sendable.fits))
  again-SameSend k (repeated known d _ found) = record {
    same_receipt = ground (arith, found, k.stored);
    same_store = refl;
    same_queue = refl;
  }
  again-SameSend k (accepted _ _ _ _ e _) = absurd (ground (arith, e, k.stored))

  -- Sending an event again, after a send of it that returned, returns the same receipt, and changes
  -- neither the store nor the queue.
  pub send-send :
      (event : SendEvent) (w : World View) (receipt : Receipt)
      → (send (P out cfg) cfg event w).0 ≡ ok receipt
      → let v : World View = (send (P out cfg) cfg event w).1 in
        SameSend receipt v (send (P out cfg) cfg event v).0 (send (P out cfg) cfg event v).1
  send-send event w receipt e =
      again-SameSend (sent-Kept (send-Sends event w) e) (send-Sends event _)
