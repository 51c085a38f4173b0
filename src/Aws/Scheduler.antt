-- ===== src/Aws/Scheduler.antt =====
-- packages/aws/src/scheduler.ts: DynamoScheduler. The queue is a parameter: `sqs_send` takes a message and
-- DelaySeconds.
pub mod Times
use anyhook.Aws.{Key, tenant_pk, sched_sk, sched_gsi_pk, sqs_max_delay_ms, sched_ttl_grace_seconds}
use anyhook.Aws.Table.{Item, Table, Schedule}
use anyhook.Base.{ℕ, ◌+◌, ◌-◌, ◌/◌, min, none, leb, if◌then◌else◌}
use anyhook.Base.Exec.{Exec, ◌>>=◌, ◌>>◌}
use anyhook.Types.{Message, ms}

-- Math.min(900, Math.max(0, Math.ceil((at - now) / 1000)))
unfoldable pub delay_seconds : ℕ → ℕ → ℕ
delay_seconds now at = min 900 ((at - now + (ms 1000 - 1)) / ms 1000)

unfoldable pub schedule_row : Message → ℕ → Schedule
schedule_row m at =
    let due_at_sec = at / ms 1000 in
    record {
      message = m;
      due_at = due_at_sec;
      ttl = due_at_sec + sched_ttl_grace_seconds;
      gsi1pk = sched_gsi_pk;
      gsi1sk = due_at_sec;
      claimed_at = none;
    }

module _ {W : Type 0} (table : Table W) (sqs_send : Message → ℕ → Exec W (Unit {0}))
    (clock_now : Exec W ℕ) where
  unfoldable pub schedule_retry : Message → ℕ → Exec W (Unit {0})
  unfolding delay_seconds schedule_row
  schedule_retry m at = do
    now ← clock_now
    if leb at (now + sqs_max_delay_ms)
        then sqs_send m (delay_seconds now at)
        else table.put (record { pk = tenant_pk m.tenant; sk = sched_sk m.message_id })
            (Item.schedule (schedule_row m at))
