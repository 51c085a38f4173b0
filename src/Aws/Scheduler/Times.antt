-- ===== src/Aws/Scheduler/Times.antt =====
-- When a retry that DynamoScheduler takes comes back (packages/aws/src/scheduler.ts).
use anyhook.Aws.{Key, tenant_pk, sched_sk}
use anyhook.Aws.Scheduler.{delay_seconds, schedule_row, schedule_retry}
use anyhook.Aws.Table.{Item, Table, IsTable, Schedule, same}
use anyhook.Base.{
  ◌⊎◌, ℕ, ◌+◌, ◌*◌, ◌≤◌, ◌<◌, ◌≡◌, refl, Bool-cases, inl, inr, none, some, Option, leb, arith,
  leb→le, leb→gt, false,
}
use anyhook.Base.Exec.{Exec, Result, ok}
use anyhook.Aws.Tenants.Receipts.{same_refl}
use anyhook.Types.{Message, ms}

-- The delay in whole seconds, rounded up.
pub record IsDelay (now at seconds : ℕ) : Type 0 where
  pub within_cap : seconds ≤ 900
  pub not_early : at ≤ now + ms 1000 * seconds
  pub not_late : now + ms 1000 * seconds < at + ms 1000 ⊎ seconds ≡ 0

delay_seconds-IsDelay : (now at : ℕ) → at ≤ now + ms 900000 → IsDelay now at (delay_seconds now at)
unfolding delay_seconds
delay_seconds-IsDelay now at h = record {
  within_cap = ground arith;
  not_early = ground (arith, h);
  not_late = ground (arith, h);
}

-- A row for the sweeper, due in the second of the retry, and not reclaimed before it.
pub record IsRow (m : Message) (at : ℕ) (v : Option Item) : Type 0 where
  pub row : Schedule
  pub row_at : v ≡ some (Item.schedule row)
  pub of_message : row.message ≡ m
  pub indexed : (row.gsi1pk ≡ "SCHED") × (row.gsi1sk ≡ row.due_at)
  pub free : row.claimed_at ≡ none
  pub due : (ms 1000 * row.due_at ≤ at) × (at < ms 1000 * row.due_at + ms 1000)
  pub kept : row.due_at < row.ttl

schedule_row-IsRow :
    (m : Message) (at : ℕ) (v : Option Item)
    → v ≡ some (Item.schedule (schedule_row m at))
    → IsRow m at v
unfolding schedule_row
schedule_row-IsRow m at v e = record {
  row = _;
  row_at = e;
  of_message = refl;
  indexed = (refl, refl);
  free = refl;
  due = (ground arith, ground arith);
  kept = ground arith;
}

-- What becomes of a retry at a time: it is sent with a delay, or written as a row.
pub data Planned {W : Type 0} (sqs_send : Message → ℕ → Exec W (Unit {0}))
    (held : W → Key → Option Item) (m : Message) (at now : ℕ) (w : W)
    : Result (Unit {0}) × W → Type 0 where
  delayed :
      (seconds : ℕ)
      → at ≤ now + ms 900000
      → IsDelay now at seconds
      → Planned sqs_send held m at now w (sqs_send m seconds w)
  stored :
      (v : W)
      → now + ms 900000 < at
      → IsRow m at (held v (record { pk = tenant_pk m.tenant; sk = sched_sk m.message_id }))
      → ((j : Key)
          → same (record { pk = tenant_pk m.tenant; sk = sched_sk m.message_id }) j ≡ false
          → held v j ≡ held w j)
      → Planned sqs_send held m at now w (ok tt, v)

-- Over any table in which a row holds what was written last, at a clock that shows `now`: a retry at a
-- time at most 900 seconds away is sent once to the queue, with a delay of whole seconds, at most 900,
-- that ends at or after the time and less than a second after it (or is 0); one further away is written as
-- a row of the tenant that is due in the second of the time, nothing is sent and no other row changes.
pub schedule_retry-Planned :
    {W : Type 0} (table : Table W) (held : W → Key → Option Item) (t : IsTable table held)
    (sqs_send : Message → ℕ → Exec W (Unit {0})) (now : ℕ) (m : Message) (at : ℕ) (w : W)
    → Planned sqs_send held m at now w (schedule_retry table sqs_send (λ v. (ok now, v)) m at w)
unfolding schedule_retry
schedule_retry-Planned table held t sqs_send now m at w =
    elim (Bool-cases (leb at (now + ms 900000))) [
      | inl h ↦ rw h (
          delayed (delay_seconds now at) (leb→le at (now + ms 900000) h)
            (delay_seconds-IsDelay now at (leb→le at (now + ms 900000) h)))
      | inr h ↦
          rw (h, t.put_lem)
            (stored _ (leb→gt at (now + ms 900000) h)
              (schedule_row-IsRow m at _ (rw (t.held-write, same_refl) refl))
              (λ j d. rw (t.held-write, d) refl))
    ]
