-- ===== src/Tests/Aws.antt =====
-- Concrete runs of the AWS adapter, over a table that is the list of its writes and a queue that is a
-- list of messages.
use mathlib.Core.Option.{none-ne-some}
use text.Mathlib.Text.{starts_with}
use anyhook.Aws.{Key, tenant_pk, sched_sk}
use anyhook.Aws.Calls.{Call, after}
use anyhook.Aws.Gates.{get_circuit, put_circuit, write_circuit}
use anyhook.Aws.Gates.Versions.{put_circuit-race, version_at, circuit_key}
use anyhook.Aws.Isolation.{after-Isolated}
use anyhook.Aws.Items.{query_all}
use anyhook.Aws.Items.Pages.{IsPaged, query_all-all}
use anyhook.Aws.Partition.{IsSound}
use anyhook.Aws.Scheduler.{schedule_retry}
use anyhook.Aws.Scheduler.Times.{Planned, schedule_retry-Planned}
use anyhook.Aws.Table.{Item, Table, Page, IsTable, Schedule, same, count_of}
use anyhook.Aws.Tenants.{record_event, finalize_event}
use anyhook.Aws.Tenants.Receipts.{record_event-finalize_event, idem_key_of}
use anyhook.Base.{
  sym, ℕ, suc, ◌<◌, ◌≡◌, refl, true, false, ◌&&◌, not, String, Option, none, some, List, [], ◌∷◌,
  ◌++◌, length, filter, leb, ◌==◌, if◌then◌else◌, arith,
}
use anyhook.Base.Exec.{Exec, ok, err, circuit_write_conflict}
use anyhook.Tests.{message}
use anyhook.Types.{Message, CircuitRecord, CircuitState, ms}

pub record Cloud : Type 0 where
  pub writes : List (Key × Option Item)
  pub queue : List Message

abbrev lookup : Key → List (Key × Option Item) → Option Item
lookup j [] = none
lookup j ((k, v) ∷ rows) = let rest = lookup j rows in if same k j then v else rest

abbrev pub held : Cloud → Key → Option Item
held w k = lookup k w.writes

abbrev pub write : Key → Option Item → Cloud → Cloud
write k v w = record w { writes = (k, v) ∷ w.writes }

-- the rows as they are, in the order of the last write
abbrev current : List (Key × Option Item) → List (Key × Item)
current [] = []
current ((k, v) ∷ rows) =
    let rest = filter (λ r. not (same k r.0)) (current rows) in
    elim v [ none ↦ rest | some i ↦ (k, i) ∷ rest ]

abbrev items_under : String → String → List (Key × Item) → List Item
items_under pk prefix [] = []
items_under pk prefix ((k, i) ∷ rows) =
    let rest = items_under pk prefix rows in
    if (k.pk == pk) && starts_with k.sk prefix then i ∷ rest else rest

abbrev due_under : ℕ → List (Key × Item) → List (Key × Schedule)
due_under now [] = []
due_under now ((k, Item.schedule s) ∷ rows) =
    let rest = due_under now rows in if leb s.gsi1sk now then (k, s) ∷ rest else rest
due_under now (_ ∷ rows) = due_under now rows

abbrev pub table : Table Cloud
table = record {
  get = λ consistent k w. (ok (held w k), w);
  put = λ k v w. (ok tt, write k (some v) w);
  put_if = λ c k v w. if c (held w k) then (ok true, write k (some v) w) else (ok false, w);
  update_if =
      λ c f k w. if c (held w k) then (ok true, write k (f (held w k)) w) else (ok false, w);
  delete = λ k w. (ok tt, write k none w);
  add_one = λ k w.
      (ok (suc (count_of (held w k))), write k (some (Item.counter (suc (count_of (held w k))))) w);
  query = λ pk prefix start w.
      (ok (record { items = items_under pk prefix (current w.writes); last = none }), w);
  query_due =
      λ pk now start w. (ok (record { items = due_under now (current w.writes); last = none }), w);
}

pub held_table : IsTable table held
held_table = record {
  write = write;
  held-write = λ k j v w. refl;
  get_lem = λ consistent k w. refl;
  put_lem = λ k v w. refl;
  put_if_lem = λ c k v w. refl;
  update_if_lem = λ c f k w. refl;
  delete_lem = λ k w. refl;
  add_one_lem = λ k w. refl;
  query_keeps = λ pk prefix start w. refl;
  query_due_keeps = λ pk now start w. refl;
}

abbrev pub cloud : Cloud
cloud = record { writes = []; queue = [] }

abbrev pub send_to_queue : Message → ℕ → Exec Cloud (Unit {0})
send_to_queue m delay w = (ok tt, record w { queue = w.queue ++ m ∷ [] })

record_event-finalize_event_example :
    let first = record_event table "t1" "evt_1" "k1" cloud in
    let final = finalize_event table "t1" "k1" "evt_1" 2 first.1 in
    (first.0 ≡ ok (record { is_new = true; event_id = "evt_1"; message_count = 0 }))
    × (final.0 ≡ ok tt)
    × ((j : Key)
        → same (idem_key_of table held held_table "t1" "k1") j ≡ false
        → held final.1 j ≡ held cloud j)
    × (record_event table "t1" "evt_2" "k1" final.1
        ≡ (ok (record { is_new = false; event_id = "evt_1"; message_count = 2 }), final.1))
record_event-finalize_event_example =
    record_event-finalize_event table held held_table "t1" "evt_1" "evt_2" "k1" 2 cloud refl

abbrev failed_once : ℕ → CircuitRecord
failed_once n = record {
  state = CircuitState.closed;
  consecutive_failures = n;
  opened_at = none;
  cooldown_ms = ms 1000;
}

put_circuit-race_example :
    let v : Cloud = (put_circuit table "t1" "ep_1" (failed_once 1) cloud).1 in
    ((put_circuit table "t1" "ep_1" (failed_once 1) cloud).0 ≡ ok tt)
    × (get_circuit table "t1" "ep_1" v ≡ (ok (failed_once 1), v))
    × ((j : Key)
        → same (circuit_key table held held_table "t1" "ep_1") j ≡ false
        → held v j ≡ held cloud j)
    × (write_circuit table "t1" "ep_1"
          (failed_once 2)
          (version_at table held held_table "t1" "ep_1" cloud)
          v
        ≡ (err (circuit_write_conflict "t1" "ep_1"), v))
put_circuit-race_example =
    put_circuit-race table held held_table "t1" "ep_1" (failed_once 1) (failed_once 2) cloud

after-Isolated_example :
    IsSound table held held_table (after table (λ n. "1") 2 "t1" (Call.put_message message) cloud)
    × ((u sk : String)
        → (u == "t1") ≡ false
        → held
            (after table (λ n. "1") 2 "t1" (Call.put_message message) cloud)
            (record { pk = tenant_pk u; sk = sk })
          ≡ held cloud (record { pk = tenant_pk u; sk = sk }))
after-Isolated_example =
    after-Isolated table held held_table "t1" (λ n. "1") 2 (Call.put_message message) cloud
      (λ k. tt)

schedule_retry-Planned_example :
    Planned send_to_queue held message
      (ms 2000000)
      (ms 1000)
      cloud
      (schedule_retry table send_to_queue (λ v. (ok (ms 1000), v)) message (ms 2000000) cloud)
schedule_retry-Planned_example =
    schedule_retry-Planned table held held_table send_to_queue (ms 1000) message (ms 2000000) cloud

abbrev page_key : Key
page_key = record { pk = tenant_pk "t1"; sk = sched_sk "msg_1" }

-- A query of two items, one to a page.
abbrev two_pages : Option Key → Page Item
two_pages none = record { items = Item.message message ∷ []; last = some page_key }
two_pages (some k) = record { items = Item.counter 7 ∷ []; last = none }

abbrev paged_table : Table Cloud
paged_table = record table { query = λ pk prefix start w. (ok (two_pages start), w) }

abbrev still_to_read : Option Key → List Item
still_to_read none = Item.message message ∷ Item.counter 7 ∷ []
still_to_read (some k) = Item.counter 7 ∷ []

last_of :
    (start : Option Key)
    → (two_pages start).last ≡ none
    → still_to_read start ≡ (two_pages start).items
last_of none e = absurd (none-ne-some _ (sym e))
last_of (some k) e = refl

next_of :
    (start : Option Key) (k : Key)
    → (two_pages start).last ≡ some k
    → (still_to_read start ≡ (two_pages start).items ++ still_to_read (some k))
      × (length (still_to_read (some k)) < length (still_to_read start))
next_of none k e = (refl, omega arith)
next_of (some j) k e = absurd (none-ne-some _ e)

two_pages-IsPaged : IsPaged paged_table (tenant_pk "t1") "MSG#" cloud still_to_read
two_pages-IsPaged = record {
  page = two_pages;
  page_lem = λ start. refl;
  last_page = last_of;
  next_page = next_of;
}

query_all-all_example :
    query_all paged_table 3 (tenant_pk "t1") "MSG#" [] none cloud
    ≡ (ok (Item.message message ∷ Item.counter 7 ∷ []), cloud)
query_all-all_example =
    query_all-all paged_table (tenant_pk "t1") "MSG#" cloud still_to_read two_pages-IsPaged 3 []
      none (omega arith)
