-- ===== src/Aws/Log.antt =====
-- packages/aws/src/state-dynamo.ts: the messages, attempts and dead letters of DynamoStateStore. `show` prints
-- a number.
use anyhook.Aws.{
  tenant_pk, message_sk, message_index_sk, attempt_sk, attempt_sk_prefix, attempt_counter_sk,
  dlq_sk, dlq_counter_sk,
}
use anyhook.Aws.Table.{Item, Table}
use anyhook.Base.{ℕ, false, String, Option, none, List, [], ◌∷◌}
use anyhook.Base.Exec.{Exec, pure, ◌>>=◌, ◌>>◌}
use anyhook.Listing.{select_rows}
use anyhook.Ports.{DeliveryQuery, DeliveryRow}
use anyhook.Types.{Message, Attempt, DlqReason, DlqRow}
use anyhook.Aws.Items.{as_message, as_attempt, as_dlq_row, strip_all, of_endpoint_id, query_all}

module _ {W : Type 0} (table : Table W) where
  unfoldable pub put_message : Message → Exec W (Unit {0})
  put_message m = do
    table.put (record { pk = tenant_pk m.tenant; sk = message_sk m.message_id }) (Item.message m)
    table.put (record { pk = tenant_pk m.tenant; sk = message_index_sk m.message_id })
        (Item.message_index m.endpoint_id)

  unfoldable pub get_message : String → String → Exec W (Option Message)
  get_message tenant message_id = do
    item ← table.get false (record { pk = tenant_pk tenant; sk = message_sk message_id })
    pure (as_message item)

  unfoldable pub next_seq : String → String → Exec W ℕ
  next_seq tenant sk = table.add_one (record { pk = tenant_pk tenant; sk = sk })

  unfoldable pub append_attempt : (ℕ → String) → Attempt → Exec W (Unit {0})
  unfolding next_seq
  append_attempt show a = do
    seq ← next_seq a.tenant (attempt_counter_sk a.message_id)
    table.put (record { pk = tenant_pk a.tenant; sk = attempt_sk show a.message_id seq })
        (Item.attempt a)

  unfoldable pub list_attempts : ℕ → String → String → Exec W (List Attempt)
  unfolding query_all
  list_attempts fuel tenant message_id = do
    items ← query_all table fuel (tenant_pk tenant) (attempt_sk_prefix message_id) [] none
    pure (strip_all as_attempt items)

  -- for (const m of rows) out.push({ message: m, attempts: … })
  unfoldable pub with_attempts : ℕ → String → List Message → Exec W (List DeliveryRow)
  unfolding list_attempts
  with_attempts fuel tenant [] = pure []
  with_attempts fuel tenant (m ∷ rows) = do
    attempts ← list_attempts fuel tenant m.message_id
    out ← with_attempts fuel tenant rows
    pure (record { message = m; attempts = attempts } ∷ out)

  unfoldable pub list_deliveries : ℕ → DeliveryQuery → Exec W (List DeliveryRow)
  unfolding query_all with_attempts select_rows
  list_deliveries fuel q = do
    items ← query_all table fuel (tenant_pk q.tenant) (message_sk "") [] none
    with_attempts fuel q.tenant (select_rows q (strip_all as_message items))

  unfoldable pub add_to_dlq : (ℕ → String) → Message → DlqReason → Exec W (Unit {0})
  unfolding next_seq
  add_to_dlq show m reason = do
    seq ← next_seq m.tenant dlq_counter_sk
    table.put (record { pk = tenant_pk m.tenant; sk = dlq_sk show seq })
        (Item.dlq_row (record { message = m; reason = reason }))

  unfoldable pub list_dlq : ℕ → String → Option String → Exec W (List DlqRow)
  unfolding query_all of_endpoint_id
  list_dlq fuel tenant endpoint_id = do
    items ← query_all table fuel (tenant_pk tenant) "DLQ#" [] none
    pure (of_endpoint_id endpoint_id (strip_all as_dlq_row items))
