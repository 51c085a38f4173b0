-- ===== src/Listing.antt =====
-- The filters, the order and the limit of a delivery-log query, which each store applies in the same
-- words: packages/testing/src/memory-state.ts, packages/cloudflare/src/endpoint-do.ts and
-- packages/aws/src/state-dynamo.ts.
use anyhook.Base.{
  ℕ, Bool, String, Option, none, some, List, [], ◌∷◌, filter, take, ltb, leb, nat_eq, ◌==◌,
  if◌then◌else◌,
}
use anyhook.Ports.{DeliveryQuery}
use anyhook.Types.{Message, MessageStatus, pending, delivering, delivered, retrying, blocked, dead}

-- `===` on statuses
abbrev status_code : MessageStatus → ℕ
status_code pending = 0
status_code delivering = 1
status_code delivered = 2
status_code retrying = 3
status_code blocked = 4
status_code dead = 5

abbrev pub status_eq : MessageStatus → MessageStatus → Bool
status_eq s t = nat_eq (status_code s) (status_code t)

-- if (k) rows = rows.filter((m) => field(m) === k), where the empty string is no key
abbrev pub by_text : (Message → String) → Option String → List Message → List Message
by_text field none rows = rows
by_text field (some k) rows = if k == "" then rows else filter (λ m. field m == k) rows

abbrev pub by_status : Option MessageStatus → List Message → List Message
by_status none rows = rows
by_status (some s) rows = filter (λ m. status_eq m.status s) rows

abbrev pub created_before : Option ℕ → List Message → List Message
created_before none rows = rows
created_before (some t) rows = filter (λ m. ltb m.created_at t) rows

abbrev pub created_after : Option ℕ → List Message → List Message
created_after none rows = rows
created_after (some t) rows = filter (λ m. ltb t m.created_at) rows

-- rows.sort((a, b) => b.createdAt - a.createdAt), which is stable
unfoldable pub insert_row : Message → List Message → List Message
insert_row m [] = m ∷ []
insert_row m (k ∷ rows) =
    let rest = insert_row m rows in if leb k.created_at m.created_at then m ∷ k ∷ rows else k ∷ rest

unfoldable pub newest_first : List Message → List Message
unfolding insert_row
newest_first [] = []
newest_first (m ∷ rows) = insert_row m (newest_first rows)

abbrev pub limit_rows : Option ℕ → List Message → List Message
limit_rows none rows = rows
limit_rows (some n) rows = take n rows

unfoldable pub select_rows : DeliveryQuery → List Message → List Message
unfolding newest_first
select_rows q rows = limit_rows q.limit (
    newest_first (
      created_after q.after (
        created_before q.before (
          by_status q.status (
            by_text (λ m. m.event_type) q.event_type
              (by_text (λ m. m.endpoint_id) q.endpoint_id rows))))))
