-- ===== src/Aws/Gates.antt =====
-- packages/aws/src/state-dynamo.ts: the circuits and rate buckets of DynamoStateStore.
pub mod Versions
use anyhook.Aws.{tenant_pk, circuit_sk, rate_sk}
use anyhook.Aws.Table.{Item, Table, version_of, version_is}
use anyhook.Base.{ℕ, suc, Bool, true, false, String, Option}
use anyhook.Base.Exec.{Exec, pure, throw, ◌>>=◌, circuit_write_conflict}
use anyhook.Engine.{or_default}
use anyhook.Policy.Circuit.{initial_circuit, default_cooldown_ms}
use anyhook.Types.{CircuitRecord, RateBucket}
use anyhook.Aws.Items.{as_circuit, as_bucket}

module _ {W : Type 0} (table : Table W) where
  unfoldable pub get_circuit : String → String → Exec W CircuitRecord
  get_circuit tenant endpoint_id = do
    item ← table.get true (record { pk = tenant_pk tenant; sk = circuit_sk endpoint_id })
    pure (or_default (as_circuit item) (initial_circuit default_cooldown_ms))

  -- The conditional put was rejected.
  unfoldable pub or_conflict : String → String → Bool → Exec W (Unit {0})
  or_conflict tenant endpoint_id true = pure tt
  or_conflict tenant endpoint_id false = throw (circuit_write_conflict tenant endpoint_id)

  -- What follows the read, for the version that was read.
  unfoldable pub write_circuit : String → String → CircuitRecord → Option ℕ → Exec W (Unit {0})
  unfolding or_conflict
  write_circuit tenant endpoint_id rec expected = do
    written ←
        table.put_if (version_is expected)
          (record { pk = tenant_pk tenant; sk = circuit_sk endpoint_id })
          (Item.circuit rec (suc (or_default expected 0)))
    or_conflict tenant endpoint_id written

  unfoldable pub put_circuit : String → String → CircuitRecord → Exec W (Unit {0})
  unfolding write_circuit
  put_circuit tenant endpoint_id rec = do
    current ← table.get true (record { pk = tenant_pk tenant; sk = circuit_sk endpoint_id })
    write_circuit tenant endpoint_id rec (version_of current)

  unfoldable pub get_rate_bucket : String → String → Exec W (Option RateBucket)
  get_rate_bucket tenant endpoint_id = do
    item ← table.get false (record { pk = tenant_pk tenant; sk = rate_sk endpoint_id })
    pure (as_bucket item)

  unfoldable pub put_rate_bucket : String → String → RateBucket → Exec W (Unit {0})
  put_rate_bucket tenant endpoint_id b =
      table.put (record { pk = tenant_pk tenant; sk = rate_sk endpoint_id }) (Item.bucket b)
