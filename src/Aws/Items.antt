-- ===== src/Aws/Items.antt =====
-- packages/aws/src/state-dynamo.ts: the reading of items, with their keys stripped, and the pages of a
-- query. `query_all` is given a number of rounds.
pub mod Pages
use anyhook.Aws.{Key}
use anyhook.Aws.Table.{Item, Table}
use anyhook.Base.{
  ℕ, zero, suc, String, Option, none, some, List, [], ◌∷◌, ◌++◌, filter, ◌==◌, if◌then◌else◌,
}
use anyhook.Base.Exec.{Exec, pure, throw, ◌>>=◌, out_of_fuel}
use anyhook.Types.{Endpoint, Message, Attempt, CircuitRecord, RateBucket, DlqRow, EventRecord}

-- stripKeys, at each type of item, and the casts
abbrev pub as_event : Option Item → Option EventRecord
as_event (some (Item.event e)) = some e
as_event _ = none

abbrev pub as_endpoint : Option Item → Option Endpoint
as_endpoint (some (Item.endpoint e)) = some e
as_endpoint _ = none

abbrev pub as_message : Option Item → Option Message
as_message (some (Item.message m)) = some m
as_message _ = none

abbrev pub as_attempt : Option Item → Option Attempt
as_attempt (some (Item.attempt a)) = some a
as_attempt _ = none

abbrev pub as_circuit : Option Item → Option CircuitRecord
as_circuit (some (Item.circuit rec version)) = some rec
as_circuit _ = none

abbrev pub as_bucket : Option Item → Option RateBucket
as_bucket (some (Item.bucket b)) = some b
as_bucket _ = none

abbrev pub as_dlq_row : Option Item → Option DlqRow
as_dlq_row (some (Item.dlq_row r)) = some r
as_dlq_row _ = none

-- items.map((i) => stripKeys(i))
abbrev pub strip_all : {A : Type 0} → (Option Item → Option A) → List Item → List A
strip_all strip [] = []
strip_all strip (i ∷ items) =
    let rest = strip_all strip items in elim (strip (some i)) [ none ↦ rest | some a ↦ a ∷ rest ]

-- `endpointId ? rows.filter(…) : rows`, where the empty string is no id
unfoldable pub of_endpoint_id : Option String → List DlqRow → List DlqRow
of_endpoint_id none rows = rows
of_endpoint_id (some id) rows =
    if id == "" then rows else filter (λ r. r.message.endpoint_id == id) rows

module _ {W : Type 0} (table : Table W) where
  -- The rows so far, and the key to go on from.
  unfoldable pub query_all : ℕ → String → String → List Item → Option Key → Exec W (List Item)
  query_all zero pk sk_prefix items start = throw out_of_fuel
  query_all (suc fuel) pk sk_prefix items start = do
    page ← table.query pk sk_prefix start
    elim page.last [
      | none ↦ pure (items ++ page.items)
      | some last ↦ query_all fuel pk sk_prefix (items ++ page.items) (some last)
    ]
