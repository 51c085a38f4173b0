-- ===== src/Engine.antt =====
-- packages/core/src/engine.ts: the engine over any adapter. `send` accepts an event, and
-- `process_message` is the handler that the transport calls for each message.
pub mod Within
pub mod Simulation
use Prim.Native.String.{len}
use anyhook.Base.{
  ℕ, ◌+◌, ◌*◌, Option, none, some, String, List, ltb, nat_eq, length, ◌==◌, if◌then◌else◌,
}
use anyhook.Base.Exec.{
  Exec, pure, throw, ◌>>=◌, ◌>>◌, for_each, type_required, tenant_required, payload_undefined,
  payload_too_large,
}
use anyhook.Deliver.{DeliveryResult, deliver_once}
use anyhook.Fanout.{fanout}
use anyhook.Id.{new_id, derive_idempotency_key}
use anyhook.Policy.Circuit.{
  Gate, can_attempt, to_half_open, on_success, on_failure, default_failure_threshold,
  default_cooldown_ms,
}
use anyhook.Policy.Outcome.{Outcome}
use anyhook.Policy.RateLimit.{consume_token, initial_bucket}
use anyhook.Policy.Retry.{default_schedule_ms, full_jitter, next_delay_ms}
use anyhook.Ports.{Ports}
use anyhook.Types.{
  SendEvent, Receipt, Message, MessageStatus, Endpoint, Attempt, AttemptStatus, AttemptOutcome,
  CircuitRecord, RetryConfig, CircuitConfig, Payload, DlqReason, ms,
}

-- The settings among the constructor's options.
pub record EngineOptions : Type 0 where
  pub schedule_ms : Option (List ℕ)
  pub failure_threshold : Option ℕ
  pub cooldown_ms : Option ℕ
  pub max_payload_bytes : Option ℕ
  pub timeout_ms : Option ℕ

pub record EngineConfig : Type 0 where
  pub retry : RetryConfig
  pub circuit_cfg : CircuitConfig
  pub max_payload_bytes : ℕ
  pub timeout_ms : ℕ

-- value ?? fallback
abbrev pub or_default {ℓ} : {A : Type ℓ} → Option A → A → A
or_default none fallback = fallback
or_default (some a) fallback = a

unfoldable pub configure : EngineOptions → EngineConfig
configure opts = record {
  retry = record { schedule_ms = or_default opts.schedule_ms default_schedule_ms };
  circuit_cfg = record {
    failure_threshold = or_default opts.failure_threshold default_failure_threshold;
    cooldown_ms = or_default opts.cooldown_ms default_cooldown_ms;
  };
  max_payload_bytes = or_default opts.max_payload_bytes (256 * 1024);
  timeout_ms = or_default opts.timeout_ms (ms 15000);
}

module _ {W : Type 0} (p : Ports W) (cfg : EngineConfig) where
  -- ---- acceptance ----

  unfoldable pub enqueue : Message → Exec W (Unit {0})
  enqueue m = do p.put_message m; p.transport_send m

  unfoldable pub accept : SendEvent → String → String → Exec W Receipt
  unfolding enqueue
  accept event idem_key event_id = do
    endpoints ← p.match_endpoints event.tenant event.type
    now ← p.now
    messages ← fanout p.rng event event_id endpoints now
    for_each messages enqueue
    p.finalize_event event.tenant idem_key event_id (length messages)
    pure (record { event_id = event_id; message_count = length messages })

  unfoldable pub record_and_accept : SendEvent → Exec W Receipt
  unfolding accept
  record_and_accept event = do
    let idem_key = or_default event.idempotency_key (derive_idempotency_key p.sha256_hex event)
    event_id ← new_id p.rng "evt"
    rec ← p.record_event event.tenant event_id idem_key
    if rec.is_new
        then accept event idem_key event_id
        else pure (record { event_id = rec.event_id; message_count = rec.message_count })

  unfoldable pub check_size : SendEvent → Payload → Exec W Receipt
  check_size event none = throw payload_undefined
  check_size event (some body) =
      if ltb cfg.max_payload_bytes (len body)
      then throw (payload_too_large cfg.max_payload_bytes)
      else record_and_accept event

  unfoldable pub send : SendEvent → Exec W Receipt
  unfolding record_and_accept check_size
  send event =
      if event.type == ""
      then throw type_required
      else if event.tenant == ""
      then throw tenant_required
      else check_size event event.payload

  -- ---- delivery ----

  -- the private method `record`
  unfoldable pub record_to_log : Attempt → Exec W (Unit {0})
  record_to_log attempt = do p.append_attempt attempt; p.record_attempt attempt

  unfoldable pub dlq : Message → Attempt → DlqReason → Exec W (Unit {0})
  unfolding record_to_log
  dlq m attempt reason = do
    p.put_message (record m { status = MessageStatus.dead })
    record_to_log (record attempt { outcome = AttemptOutcome.dead })
    p.add_to_dlq m reason

  abbrev pub attempt_of : Message → DeliveryResult → ℕ → Attempt
  attempt_of m result ts = record {
    message_id = m.message_id;
    endpoint_id = m.endpoint_id;
    tenant = m.tenant;
    event_type = m.event_type;
    attempt_no = m.attempt_no;
    status = result.status;
    latency_ms = result.latency_ms;
    resp_snippet = result.resp_snippet;
    ts = ts;
    outcome = AttemptOutcome.retried;
  }

  abbrev pub gone_attempt : Message → ℕ → Attempt
  gone_attempt m ts = record {
    message_id = m.message_id;
    endpoint_id = m.endpoint_id;
    tenant = m.tenant;
    event_type = m.event_type;
    attempt_no = m.attempt_no;
    status = AttemptStatus.network;
    latency_ms = 0;
    resp_snippet = "endpoint_gone";
    ts = ts;
    outcome = AttemptOutcome.dead;
  }

  unfoldable pub endpoint_gone : Message → Exec W (Unit {0})
  unfolding dlq
  endpoint_gone m = do ts ← p.now; dlq m (gone_attempt m ts) DlqReason.endpoint_gone

  unfoldable pub reschedule : Message → Attempt → Option ℕ → Exec W (Unit {0})
  unfolding dlq
  reschedule m attempt none = dlq m attempt DlqReason.exhausted_retries
  reschedule m attempt (some delay) = do
    record_to_log attempt
    now ← p.now
    let next : Message = record m {
      attempt_no = m.attempt_no + 1;
      status = MessageStatus.retrying;
      next_attempt_at = some (now + delay);
    }
    p.put_message next
    p.schedule_retry next (now + delay)

  unfoldable pub on_result : Message → CircuitRecord → DeliveryResult → Attempt → Exec W (Unit {0})
  unfolding reschedule
  on_result m circuit result attempt = elim result.outcome [
    | Outcome.delivered ↦ do
      p.put_circuit m.tenant m.endpoint_id (on_success circuit)
      p.put_message (record m { status = MessageStatus.delivered })
      record_to_log (record attempt { outcome = AttemptOutcome.delivered })
    | Outcome.permanent ↦ do
      now ← p.now
      p.put_circuit m.tenant m.endpoint_id
          (on_failure circuit now cfg.circuit_cfg.failure_threshold)
      dlq m attempt
          (if result.blocked_by_ssrf then DlqReason.blocked_ssrf else DlqReason.permanent_4xx)
    | Outcome.retryable ↦ do
      now ← p.now
      p.put_circuit m.tenant m.endpoint_id
          (on_failure circuit now cfg.circuit_cfg.failure_threshold)
      delay ← next_delay_ms p.rng cfg.retry m.attempt_no result.retry_after_ms
      reschedule m attempt delay
  ]

  unfoldable pub attempt_delivery : Message → Endpoint → CircuitRecord → Exec W (Unit {0})
  unfolding on_result
  attempt_delivery m endpoint circuit = do
    p.put_message (record m { status = MessageStatus.delivering })
    result ← deliver_once p cfg.timeout_ms m endpoint
    ts ← p.now
    on_result m circuit result (attempt_of m result ts)

  unfoldable pub probe_delivery : Message → Endpoint → CircuitRecord → Exec W (Unit {0})
  unfolding attempt_delivery
  probe_delivery m endpoint circuit = do
    p.put_circuit m.tenant m.endpoint_id circuit
    attempt_delivery m endpoint circuit

  -- circuit.openedAt ?? this.clock.now()
  unfoldable pub opened_or_now : Option ℕ → Exec W ℕ
  opened_or_now none = p.now
  opened_or_now (some t) = pure t

  unfoldable pub park : Message → CircuitRecord → Exec W (Unit {0})
  unfolding opened_or_now
  park m circuit = do
    p.put_message (record m { status = MessageStatus.blocked })
    since ← opened_or_now circuit.opened_at
    jitter ← full_jitter p.rng circuit.cooldown_ms
    p.schedule_retry m (since + circuit.cooldown_ms + jitter)

  unfoldable pub pass_gate : Message → Endpoint → CircuitRecord → Gate → Exec W (Unit {0})
  unfolding probe_delivery park
  pass_gate m endpoint circuit gate =
      if gate.allow
      then if gate.probe
        then probe_delivery m endpoint (to_half_open circuit)
        else attempt_delivery m endpoint circuit
      else park m circuit

  unfoldable pub circuit_gate : Message → Endpoint → Exec W (Unit {0})
  unfolding pass_gate
  circuit_gate m endpoint = do
    stored ← p.get_circuit m.tenant m.endpoint_id
    let circuit : CircuitRecord = record stored { cooldown_ms = cfg.circuit_cfg.cooldown_ms }
    now ← p.now
    pass_gate m endpoint circuit (can_attempt circuit now)

  unfoldable pub throttle : Message → ℕ → Exec W (Unit {0})
  throttle m at = do
    p.put_message (record m { status = MessageStatus.retrying; next_attempt_at = some at })
    p.schedule_retry m at

  unfoldable pub limited : Message → Endpoint → ℕ → Exec W (Unit {0})
  unfolding throttle circuit_gate
  limited m endpoint rate = do
    now ← p.now
    stored ← p.get_rate_bucket m.tenant m.endpoint_id
    let decision = consume_token (or_default stored (initial_bucket rate now)) rate now
    p.put_rate_bucket m.tenant m.endpoint_id decision.bucket
    if decision.allowed then circuit_gate m endpoint else throttle m (now + decision.retry_after_ms)

  -- endpoint.rateLimit && endpoint.rateLimit > 0
  unfoldable pub rate_gate : Message → Endpoint → Option ℕ → Exec W (Unit {0})
  unfolding limited
  rate_gate m endpoint none = circuit_gate m endpoint
  rate_gate m endpoint (some rate) =
      if nat_eq rate 0 then circuit_gate m endpoint else limited m endpoint rate

  unfoldable pub to_endpoint : Message → Option Endpoint → Exec W (Unit {0})
  unfolding endpoint_gone rate_gate
  to_endpoint m none = endpoint_gone m
  to_endpoint m (some endpoint) =
      if endpoint.disabled then endpoint_gone m else rate_gate m endpoint endpoint.rate_limit

  unfoldable pub process_message : Message → Exec W (Unit {0})
  unfolding to_endpoint
  process_message m = do found ← p.get_endpoint m.tenant m.endpoint_id; to_endpoint m found
