-- ===== src/Tests/Sweeps.antt =====
-- Concrete sweeps of the rows of a table.
use anyhook.Aws.{Key, tenant_pk, sched_sk}
use anyhook.Aws.Sweeper.{
  SweeperResult, sweep_item, claim_item, after_claim, claimable, claim, lease_held,
}
use anyhook.Aws.Sweeper.Lease.{Skips, Swept, Guarded, Free, sweep_item-Skips, sweep_item-Swept}
use anyhook.Aws.Table.{Item, Table, Page, IsTable, Schedule}
use anyhook.Base.{ℕ, ◌≡◌, refl, Option, none, some, List, [], ◌∷◌, leb, if◌then◌else◌, arith}
use anyhook.Base.Exec.{Exec, ok}
use anyhook.Tests.{message}
use anyhook.Types.{Message}
use anyhook.Tests.Aws.{Cloud, held, write, table, held_table, cloud, send_to_queue}

abbrev row : Option ℕ → Schedule
row claimed_at = record {
  message = message;
  due_at = 2000;
  ttl = 606800;
  gsi1pk = "SCHED";
  gsi1sk = 2000;
  claimed_at = claimed_at;
}

abbrev row_key : Key
row_key = record { pk = tenant_pk "t1"; sk = sched_sk "msg_1" }

abbrev no_sweep : SweeperResult
no_sweep = record { due = 0; claimed = 0; sent = 0 }

-- The listing shows the row unclaimed, and another sweep has claimed it since.
sweep_item-Skips_example :
    Skips table held held_table send_to_queue 2010
      (row_key, row none)
      no_sweep
      (write row_key (some (Item.schedule (row (some 2005)))) cloud)
sweep_item-Skips_example =
    sweep_item-Skips table held held_table send_to_queue 2010 row_key (row none) no_sweep
      (write row_key (some (Item.schedule (row (some 2005)))) cloud)
      (Guarded.leased (row (some 2005)) 2005 refl refl (omega arith))

-- The lease of the first sweep, whose send failed, is over.
sweep_item-Swept_example :
    Swept table held held_table send_to_queue 2400 row_key
      (row (some 2005))
      no_sweep
      (write row_key (some (Item.schedule (row (some 2005)))) cloud)
      (sweep_item table send_to_queue 2400
        (row_key, row (some 2005))
        no_sweep
        (write row_key (some (Item.schedule (row (some 2005)))) cloud))
sweep_item-Swept_example =
    sweep_item-Swept table held held_table send_to_queue (λ m d u k. refl) 2400 row_key
      (row (some 2005)) no_sweep (write row_key (some (Item.schedule (row (some 2005)))) cloud) refl
      (Free.over 2005 refl (omega arith))

abbrev second_key : Key
second_key = record { pk = tenant_pk "t1"; sk = sched_sk "msg_2" }

-- An index of two rows, with a page for each.
abbrev due_row : ℕ → Key → Option Item → List (Key × Schedule)
due_row now k (some (Item.schedule s)) = if leb s.gsi1sk now then (k, s) ∷ [] else []
due_row now k _ = []

abbrev due_pages : ℕ → Option Key → Cloud → Page (Key × Schedule)
due_pages now none w = record { items = due_row now row_key (held w row_key); last = some row_key }
due_pages now (some k) w = record {
  items = due_row now second_key (held w second_key);
  last = none;
}

abbrev due_table : Table Cloud
due_table = record table { query_due = λ pk now start w. (ok (due_pages now start w), w) }

abbrev held_due_table : IsTable due_table held
held_due_table = record {
  write = write;
  held-write = λ k j v w. refl;
  get_lem = λ consistent k w. refl;
  put_lem = λ k v w. refl;
  put_if_lem = λ c k v w. refl;
  update_if_lem = λ c f k w. refl;
  delete_lem = λ k w. refl;
  add_one_lem = λ k w. refl;
  query_keeps = λ pk prefix start w. refl;
  query_due_keeps = λ pk now start w. refl;
}

abbrev rows_left : Option Key → Cloud → ℕ
rows_left none w = 1
rows_left (some k) w = 0

-- both rows are due
abbrev two_due : Cloud
two_due =
    write second_key (some (Item.schedule (row none)))
      (write row_key (some (Item.schedule (row none))) cloud)

-- The message is delivered before the sweep deletes its row, and fails: the consumer has written the next
-- retry of the message under the same key.
abbrev send_and_reschedule : Message → ℕ → Exec Cloud (Unit {0})
send_and_reschedule m delay w = (
  ok tt,
  write row_key
      (some (Item.schedule (record (row none) { due_at = 9000; ttl = 613800; gsi1sk = 9000 }))) w,
)

-- The sweep then deletes the new row.
rescheduled_lost :
    held
      (sweep_item table send_and_reschedule 2010
        (row_key, row none)
        no_sweep
        (write row_key (some (Item.schedule (row none))) cloud)).1
      row_key
    ≡ none
unfolding sweep_item claim_item after_claim claimable claim lease_held
rescheduled_lost = refl
