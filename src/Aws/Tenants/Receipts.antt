-- ===== src/Aws/Tenants/Receipts.antt =====
-- The idempotency of accepted events (packages/aws/src/state-dynamo.ts).
use anyhook.Aws.{Key, tenant_pk, idem_sk}
use anyhook.Aws.Table.{Item, Table, IsTable, same}
use anyhook.Aws.Tenants.{record_event, recorded, finalize_event}
use anyhook.Base.{ℕ, ◌≡◌, refl, String, Option, none, some, true, false, ==_refl}
use anyhook.Base.Exec.{ok}
use anyhook.Types.{EventRecord}

pub same_refl : (k : Key) → same k k ≡ true
same_refl k = rw (==_refl k.pk, ==_refl k.sk) refl

module _ {W : Type 0} (table : Table W) (held : W → Key → Option Item)
    (t : IsTable table held) where
  abbrev pub idem_key_of : String → String → Key
  idem_key_of tenant idem_key = record { pk = tenant_pk tenant; sk = idem_sk idem_key }

  record_event-known :
      (tenant event_id idem_key : String) (e : EventRecord) (w : W)
      → held w (idem_key_of tenant idem_key) ≡ some (Item.event e)
      → record_event table tenant event_id idem_key w ≡ (
        ok (record { is_new = false; event_id = e.event_id; message_count = e.message_count }),
        w,
      )
  unfolding record_event recorded
  record_event-known tenant event_id idem_key e w h = rw (t.put_if_lem, h, t.get_lem, h) refl

  record_event-fresh :
      (tenant event_id idem_key : String) (w : W)
      → held w (idem_key_of tenant idem_key) ≡ none
      → record_event table tenant event_id idem_key w ≡ (
        ok (record { is_new = true; event_id = event_id; message_count = 0 }),
        t.write
            (idem_key_of tenant idem_key)
            (some (Item.event (record { event_id = event_id; message_count = 0 })))
            w,
      )
  unfolding record_event recorded
  record_event-fresh tenant event_id idem_key w h = rw (t.put_if_lem, h) refl

  finalize_event-write :
      (tenant idem_key event_id : String) (n : ℕ) (w : W)
      → finalize_event table tenant idem_key event_id n w ≡ (
        ok tt,
        t.write
            (idem_key_of tenant idem_key)
            (some (Item.event (record { event_id = event_id; message_count = n })))
            w,
      )
  unfolding finalize_event
  finalize_event-write tenant idem_key event_id n w = rw (t.put_lem) refl

  -- Over any table in which a row holds what was written last, and for a key of the tenant that is not
  -- recorded: recording an event and then finalizing it both return, the first with a new event, and leave
  -- every row but the key's as it was; a later record of the key, with whatever id, answers the first event
  -- and the count that was finalized, and changes nothing.
  pub record_event-finalize_event :
      (tenant event_id later_id idem_key : String) (n : ℕ) (w : W)
      → held w (idem_key_of tenant idem_key) ≡ none
      → let first = record_event table tenant event_id idem_key w in
        let final = finalize_event table tenant idem_key event_id n first.1 in
        (first.0 ≡ ok (record { is_new = true; event_id = event_id; message_count = 0 }))
        × (final.0 ≡ ok tt)
        × ((j : Key) → same (idem_key_of tenant idem_key) j ≡ false → held final.1 j ≡ held w j)
        × (record_event table tenant later_id idem_key final.1
            ≡ (ok (record { is_new = false; event_id = event_id; message_count = n }), final.1))
  record_event-finalize_event tenant event_id later_id idem_key n w h =
      rw (record_event-fresh tenant event_id idem_key w h) (
        rw (finalize_event-write) (
          refl,
          refl,
          λ j d. rw (t.held-write, d, t.held-write, d) refl,
          record_event-known tenant later_id idem_key
              (record { event_id = event_id; message_count = n }) _
              (rw (t.held-write, same_refl) refl),
        ))
