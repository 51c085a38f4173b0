-- ===== src/Cloudflare/Endpoint.antt =====
-- packages/cloudflare/src/endpoint-do.ts: the Durable Object of one endpoint, with its messages, attempts,
-- circuit, rate bucket, dead letters and schedule, all in one storage under prefixed keys.
-- `digits` prints a number (String(n)) and `to_number` reads one, the runtime's; Date.now() comes in as
-- an argument, and the queue is an action.
pub mod Schedule
pub mod Release
use Prim.Native.String.{count, ◌++◌ as text_append}
use anyhook.Base.{
  ℕ, zero, suc, ◌+◌, ◌-◌, Bool, true, false, String, Option, none, some, List, [], ◌∷◌, ◌++◌,
  filter, map, length, ltb, leb, ◌==◌, if◌then◌else◌,
}
use anyhook.Base.Exec.{Exec, pure, ◌>>=◌, ◌>>◌, for_each}
use anyhook.Base.Text.{ends_with}
use anyhook.Base.Text.{drop_chars, drop_last, has_colon, before_colon, pad_start}
use anyhook.Cloudflare.{Storage}
use anyhook.Engine.{or_default}
use anyhook.Listing.{select_rows}
use anyhook.Memory.{of_endpoint}
use anyhook.Policy.Circuit.{initial_circuit, default_cooldown_ms}
use anyhook.Ports.{DeliveryQuery, DeliveryRow}
use anyhook.Types.{Message, Attempt, CircuitRecord, RateBucket, DlqReason, DlqRow}

-- what the storage holds, by the key or its prefix
pub data Value : Type 0 where
  message : Message → Value
  attempts : List Attempt → Value
  circuit : CircuitRecord → Value
  bucket : RateBucket → Value
  dlq_row : DlqRow → Value
  seq : ℕ → Value

-- get<T>(…) at each type of value: another kind of value is never under such a key
abbrev pub as_message : Option Value → Option Message
as_message (some (Value.message m)) = some m
as_message _ = none

abbrev pub as_attempts : Option Value → List Attempt
as_attempts (some (Value.attempts l)) = l
as_attempts _ = []

abbrev pub as_circuit : Option Value → CircuitRecord
as_circuit (some (Value.circuit c)) = c
as_circuit _ = initial_circuit default_cooldown_ms

abbrev pub as_bucket : Option Value → Option RateBucket
as_bucket (some (Value.bucket b)) = some b
as_bucket _ = none

abbrev pub as_seq : Option Value → ℕ
as_seq (some (Value.seq n)) = n
as_seq _ = 0

abbrev pub rows_of {ℓ} :
    {A : Type ℓ} → (Value → Option A) → List (String × Value) → List (String × A)
rows_of as_row [] = []
rows_of as_row ((k, v) ∷ rows) =
    let rest = rows_of as_row rows in elim (as_row v) [ none ↦ rest | some a ↦ (k, a) ∷ rest ]

abbrev pub dlq_row_of : Value → Option DlqRow
dlq_row_of (Value.dlq_row r) = some r
dlq_row_of _ = none

abbrev pub message_of : Value → Option Message
message_of (Value.message m) = some m
message_of _ = none

abbrev pub message_key : String → String
message_key message_id = text_append "msg:" message_id

abbrev pub attempts_key : String → String
attempts_key message_id = text_append "att:" message_id

module _ {W : Type 0} (storage : Storage W Value) where
  unfoldable pub put_message : Message → Exec W (Unit {0})
  put_message m = storage.put (message_key m.message_id) (Value.message m)

  unfoldable pub get_message : String → Exec W (Option Message)
  get_message message_id = do v ← storage.get (message_key message_id); pure (as_message v)

  unfoldable pub append_attempt : Attempt → Exec W (Unit {0})
  append_attempt a = do
    list ← storage.get (attempts_key a.message_id)
    storage.put (attempts_key a.message_id) (Value.attempts (as_attempts list ++ a ∷ []))

  -- for (const m of rows) …
  unfoldable pub with_attempts : List Message → Exec W (List DeliveryRow)
  with_attempts [] = pure []
  with_attempts (m ∷ rows) = do
    list ← storage.get (attempts_key m.message_id)
    out ← with_attempts rows
    pure (record { message = m; attempts = as_attempts list } ∷ out)

  -- This object is one endpoint, so `endpoint_id` of the query is not looked at.
  unfoldable pub list_deliveries : DeliveryQuery → Exec W (List DeliveryRow)
  unfolding with_attempts
  list_deliveries q = do
    all ← storage.list "msg:"
    with_attempts
        (select_rows (record q { endpoint_id = none }) (map (λ r. r.1) (rows_of message_of all)))

  unfoldable pub get_circuit : Exec W CircuitRecord
  get_circuit = do v ← storage.get "circuit"; pure (as_circuit v)

  unfoldable pub put_circuit : CircuitRecord → Exec W (Unit {0})
  put_circuit rec = storage.put "circuit" (Value.circuit rec)

  unfoldable pub get_rate_bucket : Exec W (Option RateBucket)
  get_rate_bucket = do v ← storage.get "rate"; pure (as_bucket v)

  unfoldable pub put_rate_bucket : RateBucket → Exec W (Unit {0})
  put_rate_bucket b = storage.put "rate" (Value.bucket b)

  unfoldable pub list_dlq : Option String → Exec W (List DlqRow)
  list_dlq endpoint_id = do
    all ← storage.list "dlq:"
    pure (of_endpoint endpoint_id (map (λ r. r.1) (rows_of dlq_row_of all)))

  -- `show` is String(n) of a whole number.
  unfoldable pub add_to_dlq : (ℕ → String) → Message → DlqReason → Exec W (Unit {0})
  add_to_dlq show m reason = do
    last ← storage.get "dlqSeq"
    let seq : ℕ = as_seq last + 1
    storage.put "dlqSeq" (Value.seq seq)
    storage.put
        (text_append "dlq:" (text_append (pad_start 16 (show seq)) (text_append ":" m.message_id)))
        (Value.dlq_row (record { message = m; reason = reason }))

-- currentAlarm === null || at < currentAlarm
abbrev pub before_alarm : ℕ → Option ℕ → Bool
before_alarm at none = true
before_alarm at (some alarm) = ltb at alarm

-- the earlier of a time and the earliest so far
abbrev pub earlier : ℕ → Option ℕ → Option ℕ
earlier at none = some at
earlier at (some t) = if ltb at t then some at else some t

-- rest.slice(0, rest.indexOf(':')), where the index of no colon is -1 and slice drops the last character
abbrev pub up_to_colon : String → String
up_to_colon rest = if has_colon rest then before_colon rest else drop_last rest

-- `digits` is String(at), and `to_number` is Number(s) on what it prints, back in ticks.
unfoldable pub parse_sched_at : (String → ℕ) → String → ℕ
unfolding drop_chars drop_last
parse_sched_at to_number key = to_number (up_to_colon (drop_chars 6 key))

module _ {W : Type 0} (storage : Storage W Value) (digits : ℕ → String) (to_number : String → ℕ)
    (queue_send : Message → Exec W (Unit {0})) where
  abbrev pub sched_key : ℕ → String → String
  sched_key at message_id =
      text_append "sched:" (text_append (digits at) (text_append ":" message_id))

  unfoldable pub arm : ℕ → Option ℕ → Exec W (Unit {0})
  arm at current = if before_alarm at current then storage.set_alarm at else pure tt

  unfoldable pub schedule_retry : Message → ℕ → Exec W (Unit {0})
  unfolding arm
  schedule_retry m at = do
    storage.put (sched_key at m.message_id) (Value.message m)
    current ← storage.get_alarm
    arm at current

  -- the entries that are due
  abbrev pub due_of : ℕ → List (String × Message) → List (String × Message)
  due_of now rows = filter (λ r. leb (parse_sched_at to_number r.0) now) rows

  -- the earliest time of the others, from the last entry to the first
  unfoldable pub earliest_remaining : ℕ → List (String × Message) → Option ℕ
  earliest_remaining now [] = none
  earliest_remaining now (r ∷ rows) =
      let rest = earliest_remaining now rows in
      if leb (parse_sched_at to_number r.0) now
      then rest
      else earlier (parse_sched_at to_number r.0) rest

  -- send, then delete
  unfoldable pub release : String × Message → Exec W (Unit {0})
  release (key, m) = do queue_send m; storage.delete key

  unfoldable pub rearm : Option ℕ → Exec W (Unit {0})
  rearm none = pure tt
  rearm (some t) = storage.set_alarm t

  unfoldable pub process_due_schedules : ℕ → Exec W ℕ
  unfolding earliest_remaining release rearm
  process_due_schedules now = do
    all ← storage.list "sched:"
    let rows : List (String × Message) = rows_of message_of all
    for_each (due_of now rows) release
    rearm (earliest_remaining now rows)
    pure (length (due_of now rows))
