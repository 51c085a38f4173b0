-- ===== src/Tests/Cloudflare.antt =====
-- Concrete runs of the Durable Objects, over a storage that is a map and an alarm.
use text.Mathlib.Text.{starts_with}
use anyhook.Base.{
  ℕ, ◌-◌, ◌++◌, arith, ◌<◌, ◌≡◌, refl, String, Option, none, some, List, [], ◌∷◌, filter, ◌==◌, All,
  if◌then◌else◌,
}
use anyhook.Base.Dict
use anyhook.Base.Dict.{Dict}
use anyhook.Base.Exec.{Exec, ok, pure}
use anyhook.Cloudflare.{Storage, IsStorage}
use anyhook.Cloudflare.Endpoint.{sched_key, parse_sched_at, schedule_retry, process_due_schedules}
use anyhook.Cloudflare.Endpoint as endpoint_do
use anyhook.Cloudflare.Endpoint.Schedule.{IsAlarm, RingsBy, NoLater, schedule_retry-covers}
use anyhook.Cloudflare.Endpoint.Release.{IsListing, without, process_due_schedules-Releases}
use anyhook.Cloudflare.Tenant as tenant_do
use anyhook.Cloudflare.Tenant.{record_event, finalize_event}
use anyhook.Cloudflare.Tenant.Events.{Records, record_event-Records}
use anyhook.Ports.{RecordedEvent}
use anyhook.Tests.{message}
use anyhook.Tests.Strokes.{strokes, count-strokes, strokes-IsDigits}
use Prim.Native.String.{count}
use anyhook.Types.{Message}

record Held (V : Type 0) : Type 0 where
  kv : Dict V
  alarm : Option ℕ

abbrev storage : {V : Type 0} → Storage (Held V) V
storage = record {
  get = λ k w. (ok (Dict.get k w.kv), w);
  put = λ k v w. (ok tt, record w { kv = Dict.set k v w.kv });
  delete = λ k w. (ok tt, record w { kv = Dict.delete k w.kv });
  list = λ prefix w. (ok (filter (λ r. starts_with r.0 prefix) w.kv), w);
  get_alarm = λ w. (ok w.alarm, w);
  set_alarm = λ t w. (ok tt, record w { alarm = some t });
}

held_storage : {V : Type 0} → IsStorage {V = V} storage (λ w k. Dict.get k w.kv)
held_storage = record {
  get_lem = λ k w. refl;
  put_at = λ k v w. record w { kv = Dict.set k v w.kv };
  put_lem = λ k v w. refl;
  held-put = λ k j v w. Dict.get-set k j v w.kv;
}

held_alarm : IsAlarm storage (λ w. w.alarm)
held_alarm = record {
  get_alarm_lem = λ w. refl;
  armed = λ t w. record w { alarm = some t };
  set_alarm_lem = λ t w. refl;
  alarm-armed = λ t w. refl;
  put_at = λ k v w. record w { kv = Dict.set k v w.kv };
  put_lem = λ k v w. refl;
  alarm-put_at = λ k v w. refl;
}

abbrev tenant_world : Held tenant_do.Value
tenant_world = record {
  kv = ("evt:k1", tenant_do.Value.event (record { event_id = "evt_1"; message_count = 2 })) ∷ [];
  alarm = none;
}

record_event-Records_example :
    let r = record_event storage "evt_2" "k1" tenant_world in
    (a : RecordedEvent) × (r.0 ≡ ok a)
    × Records storage (λ w k. Dict.get k w.kv) held_storage "evt_2" "k1" tenant_world r.1 a
record_event-Records_example =
    record_event-Records storage (λ w k. Dict.get k w.kv) held_storage "evt_2" "k1" tenant_world

-- times that print as one digit
abbrev digits : ℕ → String
digits n = "7"

abbrev to_number : String → ℕ
to_number s = if s == "7" then 7 else 3

abbrev queue_send : {V : Type 0} → Message → Exec (Held V) (Unit {0})
queue_send m = pure tt

abbrev endpoint_world : Held endpoint_do.Value
endpoint_world = record { kv = []; alarm = some 9 }

schedule_retry-covers_example :
    let r = schedule_retry storage digits to_number queue_send message 7 endpoint_world in
    (r.0 ≡ ok tt) × RingsBy 7 r.1.alarm × NoLater r.1.alarm (some 9)
schedule_retry-covers_example =
    schedule_retry-covers storage digits to_number queue_send (λ w. w.alarm) held_alarm message 7
      endpoint_world

-- a storage of the retries alone, and what was sent
record Plan : Type 0 where
  rows : List (String × endpoint_do.Value)
  alarm : Option ℕ
  sent : List Message

abbrev plan_storage : Storage Plan endpoint_do.Value
plan_storage = record {
  get = λ k w. (ok none, w);
  put = λ k v w. (ok tt, record w { rows = (k, v) ∷ w.rows });
  delete = λ k w. (ok tt, record w { rows = without k w.rows });
  list = λ prefix w. (ok (if prefix == "sched:" then w.rows else []), w);
  get_alarm = λ w. (ok w.alarm, w);
  set_alarm = λ t w. (ok tt, record w { alarm = some t });
}

abbrev send : Message → Exec Plan (Unit {0})
send m w = (ok tt, record w { sent = w.sent ++ m ∷ [] })

plan-IsListing : IsListing plan_storage send (λ w. w.rows) (λ w. w.alarm) (λ w. w.sent)
plan-IsListing = record {
  list_lem = λ w. refl;
  deleted = λ k w. record w { rows = without k w.rows };
  delete_lem = λ k w. refl;
  rows-deleted = λ k w. refl;
  alarm-deleted = λ k w. refl;
  sent-deleted = λ k w. refl;
  queued = λ m w. record w { sent = w.sent ++ m ∷ [] };
  send_lem = λ m w. refl;
  rows-queued = λ m w. refl;
  alarm-queued = λ m w. refl;
  sent-queued = λ m w. refl;
  armed = λ t w. record w { alarm = some t };
  set_alarm_lem = λ t w. refl;
  rows-armed = λ t w. refl;
  alarm-armed = λ t w. refl;
  sent-armed = λ t w. refl;
}

-- the number that strokes print
abbrev of_strokes : String → ℕ
of_strokes s = count s - 1

of_strokes_lem : (n : ℕ) → of_strokes (strokes n) ≡ n
of_strokes_lem n = rw (count-strokes n) (omega arith)

-- one retry is due at 5, and one is not
abbrev retries : List (ℕ × Message)
retries = (3, message) ∷ (7, record message { message_id = "msg_2" }) ∷ []

abbrev planned : Plan
planned = record {
  rows =
      ("sched:xxxx:msg_1", endpoint_do.Value.message message)
      ∷ (
        "sched:xxxxxxxx:msg_2",
        endpoint_do.Value.message (record message { message_id = "msg_2" }),
      )
      ∷ [];
  alarm = some 3;
  sent = [];
}

process_due_schedules-Releases_example :
    let r = process_due_schedules plan_storage strokes of_strokes send 5 planned in
    (r.0 ≡ ok 1)
    × (r.1.sent ≡ message ∷ [])
    × (r.1.rows ≡ without "sched:xxxx:msg_1" planned.rows)
    × All (λ e. 5 < e.0 → RingsBy e.0 r.1.alarm) retries
unfolding strokes
process_due_schedules-Releases_example =
    process_due_schedules-Releases plan_storage strokes of_strokes send (λ w. w.rows) (λ w. w.alarm)
      (λ w. w.sent) plan-IsListing strokes-IsDigits.no_colon of_strokes_lem 5 retries planned refl
