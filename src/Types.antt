-- ===== src/Types.antt =====
-- packages/core/src/types: the domain types.
-- A JavaScript number of milliseconds is a count of ticks, `ticks_per_ms` to the millisecond: `Rng`
-- gives fractions with 53 bits, so a jittered delay is not a whole number of milliseconds.
-- A payload is the text that JSON.stringify gives for it, and none for `undefined`.
use anyhook.Base.{ℕ, ◌*◌, String, Bool, Option, List}

abbrev pub ticks_per_ms : ℕ
ticks_per_ms = 9007199254740992

-- A whole number of milliseconds, in ticks.
abbrev pub ms : ℕ → ℕ
ms n = n * ticks_per_ms

abbrev pub Payload : Type 0
Payload = Option String

pub record SendEvent : Type 0 where
  pub type : String
  pub tenant : String
  pub payload : Payload
  pub idempotency_key : Option String

pub record Receipt : Type 0 where
  pub event_id : String
  pub message_count : ℕ

-- `rate_limit` is in thousandths of a delivery per second.
pub record Endpoint : Type 0 where
  pub endpoint_id : String
  pub tenant : String
  pub url : String
  pub event_types : List String
  pub description : Option String
  pub disabled : Bool
  pub rate_limit : Option ℕ
  pub created_at : ℕ
  pub secrets : List String

pub data CircuitState : Type 0 where
  closed opened half_open : CircuitState

pub record CircuitRecord : Type 0 where
  pub state : CircuitState
  pub consecutive_failures : ℕ
  pub opened_at : Option ℕ
  pub cooldown_ms : ℕ

-- `tokens` is in units of `Policy.RateLimit.token`.
pub record RateBucket : Type 0 where
  pub tokens : ℕ
  pub last_refill_ms : ℕ

pub data MessageStatus : Type 0 where
  pending delivering delivered retrying blocked dead : MessageStatus

pub record Message : Type 0 where
  pub message_id : String
  pub tenant : String
  pub endpoint_id : String
  pub event_id : String
  pub event_type : String
  pub payload : Payload
  pub attempt_no : ℕ
  pub status : MessageStatus
  pub next_attempt_at : Option ℕ
  pub created_at : ℕ

pub data AttemptStatus : Type 0 where
  http : ℕ → AttemptStatus
  timeout network : AttemptStatus

pub data AttemptOutcome : Type 0 where
  delivered retried dead : AttemptOutcome

pub record Attempt : Type 0 where
  pub message_id : String
  pub endpoint_id : String
  pub tenant : String
  pub event_type : String
  pub attempt_no : ℕ
  pub status : AttemptStatus
  pub latency_ms : ℕ
  pub resp_snippet : String
  pub ts : ℕ
  pub outcome : AttemptOutcome

pub data DlqReason : Type 0 where
  exhausted_retries permanent_4xx blocked_ssrf endpoint_gone circuit_open_expired : DlqReason

pub record RetryConfig : Type 0 where
  pub schedule_ms : List ℕ

pub record CircuitConfig : Type 0 where
  pub failure_threshold : ℕ
  pub cooldown_ms : ℕ

pub record EventRecord : Type 0 where
  pub event_id : String
  pub message_count : ℕ

pub record DlqRow : Type 0 where
  pub message : Message
  pub reason : DlqReason
