-- ===== src/Aws/Gates/Versions.antt =====
-- The optimistic concurrency of circuits (packages/aws/src/state-dynamo.ts).
use anyhook.Aws.{Key, tenant_pk, circuit_sk}
use anyhook.Aws.Gates.{get_circuit, put_circuit, write_circuit, or_conflict}
use anyhook.Aws.Table.{Item, Table, IsTable, version_of, version_is, same}
use anyhook.Base.{ℕ, suc, ◌≡◌, refl, String, Option, none, some, true, false, arith}
use anyhook.Base.Exec.{ok, err, circuit_write_conflict}
use anyhook.Engine.{or_default}
use anyhook.Types.{CircuitRecord}
use anyhook.Aws.Tenants.Receipts.{same_refl}

version_is_self : (item : Option Item) → version_is (version_of item) item ≡ true
version_is_self none = refl
version_is_self (some (Item.circuit rec v)) = ground arith
version_is_self (some _) = refl

version_is_next :
    (expected : Option ℕ) (rec : CircuitRecord)
    → version_is expected (some (Item.circuit rec (suc (or_default expected 0)))) ≡ false
version_is_next none rec = refl
version_is_next (some n) rec = ground arith

module _ {W : Type 0} (table : Table W) (held : W → Key → Option Item)
    (t : IsTable table held) where
  abbrev pub circuit_key : String → String → Key
  circuit_key tenant endpoint_id = record { pk = tenant_pk tenant; sk = circuit_sk endpoint_id }

  abbrev pub version_at : String → String → W → Option ℕ
  version_at tenant endpoint_id w = version_of (held w (circuit_key tenant endpoint_id))

  write_circuit-current :
      (tenant endpoint_id : String) (rec : CircuitRecord) (w : W)
      → write_circuit table tenant endpoint_id rec (version_at tenant endpoint_id w) w ≡ (
        ok tt,
        t.write
            (circuit_key tenant endpoint_id)
            (some (Item.circuit rec (suc (or_default (version_at tenant endpoint_id w) 0))))
            w,
      )
  unfolding write_circuit or_conflict
  write_circuit-current tenant endpoint_id rec w =
      rw (t.put_if_lem, version_is_self (held w (circuit_key tenant endpoint_id))) refl

  pub put_circuit-write_circuit :
      (tenant endpoint_id : String) (rec : CircuitRecord) (w : W)
      → put_circuit table tenant endpoint_id rec w
        ≡ write_circuit table tenant endpoint_id rec (version_at tenant endpoint_id w) w
  unfolding put_circuit
  put_circuit-write_circuit tenant endpoint_id rec w = rw (t.get_lem) refl

  write_circuit-conflict :
      (tenant endpoint_id : String) (rec : CircuitRecord) (expected : Option ℕ) (v : W)
      → version_is expected (held v (circuit_key tenant endpoint_id)) ≡ false
      → write_circuit table tenant endpoint_id rec expected v
        ≡ (err (circuit_write_conflict tenant endpoint_id), v)
  unfolding write_circuit or_conflict
  write_circuit-conflict tenant endpoint_id rec expected v h = rw (t.put_if_lem, h) refl

  -- Over any table in which a row holds what was written last: a circuit that is put is the one that is
  -- got, and no other row changes; a second writer that read the circuit before that put is refused as a
  -- conflict, and what the first wrote stays.
  pub put_circuit-race :
      (tenant endpoint_id : String) (first second : CircuitRecord) (w : W)
      → let v : W = (put_circuit table tenant endpoint_id first w).1 in
        ((put_circuit table tenant endpoint_id first w).0 ≡ ok tt)
        × (get_circuit table tenant endpoint_id v ≡ (ok first, v))
        × ((j : Key) → same (circuit_key tenant endpoint_id) j ≡ false → held v j ≡ held w j)
        × (write_circuit table tenant endpoint_id second (version_at tenant endpoint_id w) v
            ≡ (err (circuit_write_conflict tenant endpoint_id), v))
  unfolding get_circuit
  put_circuit-race tenant endpoint_id first second w =
      rw
        (
          put_circuit-write_circuit tenant endpoint_id first w,
          write_circuit-current tenant endpoint_id first w,
        )
        (
          refl,
          rw (t.get_lem, t.held-write, same_refl) refl,
          λ j d. rw (t.held-write, d) refl,
          write_circuit-conflict tenant endpoint_id second (version_at tenant endpoint_id w) _ (
              rw (t.held-write, same_refl)
                (version_is_next (version_at tenant endpoint_id w) first)),
        )
