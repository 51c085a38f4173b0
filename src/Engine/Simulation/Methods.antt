-- ===== src/Engine/Simulation/Methods.antt =====
-- The methods of the engine over two adapters (packages/core/src/engine.ts).
use anyhook.Base.{ℕ, zero, suc, String, ◌≡◌, refl, Option, none, some, List, [], ◌∷◌, ◌==◌}
use anyhook.Base.Exec.{Exec, type_required, tenant_required, pure, ◌>>=◌}
use anyhook.Deliver.{DeliveryResult, deliver_once, post_signed, settle}
use anyhook.Engine.{
  EngineConfig, send, accept, record_and_accept, check_size, process_message, to_endpoint,
  rate_gate, limited, throttle, circuit_gate, pass_gate, park, opened_or_now, probe_delivery,
  attempt_delivery, on_result, reschedule, endpoint_gone, gone_attempt, dlq, record_to_log,
}
use anyhook.Fanout.{fanout, fresh_messages}
use anyhook.Id.{new_id, id_loop}
use anyhook.Policy.Circuit.{Gate}
use anyhook.Policy.Outcome.{Outcome, delivered, retryable, permanent}
use anyhook.Policy.Retry.{full_jitter, next_delay_ms}
use anyhook.Ports.{Ports, HttpResult}
use anyhook.Types.{Message, SendEvent, Attempt, Endpoint, CircuitRecord, DlqReason, Payload}
use anyhook.Engine.Simulation.{
  Simulates, PortsRefine, Simulates-pure, Simulates-throw, Simulates-bind, Simulates-if,
  Simulates-for_each,
}

module _ {V W : Type 0} (view : V → W) (p : Ports V) (q : Ports W) (cfg : EngineConfig)
    (r : PortsRefine view p q) where
  abbrev Sim : {A : Type 0} → Exec V A → Exec W A → Type 0
  Sim f g = Simulates view f g

  bind :
      {A B : Type 0} (m : Exec V A) (n : Exec W A) (f : A → Exec V B) (g : A → Exec W B)
      → Sim m n
      → ((a : A) → Sim (f a) (g a))
      → Sim (m >>= f) (n >>= g)
  bind = Simulates-bind view

  record-Sim : (a : Attempt) → Sim (record_to_log p cfg a) (record_to_log q cfg a)
  unfolding record_to_log
  record-Sim a = bind _ _ _ _ (r.append_attempt a) λ _. r.record_attempt a

  module _ (m : Message) where
    dlq-Sim : (a : Attempt) (reason : DlqReason) → Sim (dlq p cfg m a reason) (dlq q cfg m a reason)
    unfolding dlq
    dlq-Sim a reason =
        bind _ _ _ _ (r.put_message _) λ _. bind _ _ _ _ (record-Sim _) λ _. r.add_to_dlq m reason

    gone-Sim : Sim (endpoint_gone p cfg m) (endpoint_gone q cfg m)
    unfolding endpoint_gone
    gone-Sim = bind _ _ _ _ r.now λ ts. dlq-Sim (gone_attempt p cfg m ts) _

    reschedule-Sim :
        (a : Attempt) (d : Option ℕ) → Sim (reschedule p cfg m a d) (reschedule q cfg m a d)
    unfolding reschedule
    reschedule-Sim a none = dlq-Sim a _
    reschedule-Sim a (some d) =
        bind _ _ _ _ (record-Sim a)
          λ _. bind _ _ _ _ r.now λ now. bind _ _ _ _ (r.put_message _) λ _. r.schedule_retry _ _

    jitter-Sim : (base : ℕ) → Sim (full_jitter p.rng base) (full_jitter q.rng base)
    unfolding full_jitter
    jitter-Sim base = bind _ _ _ _ r.rng λ d. Simulates-pure view _

    delay-Sim :
        (n : ℕ) (after : Option ℕ)
        → Sim (next_delay_ms p.rng cfg.retry n after) (next_delay_ms q.rng cfg.retry n after)
    unfolding next_delay_ms
    delay-Sim n none =
        Simulates-if view _ _ _ _ _ (Simulates-pure view none)
          (bind _ _ _ _ (jitter-Sim _) λ d. Simulates-pure view _)
    delay-Sim n (some after) =
        Simulates-if view _ _ _ _ _ (Simulates-pure view none) (Simulates-pure view _)

    result-Sim :
        (c : CircuitRecord) (result : DeliveryResult) (o : Outcome) (a : Attempt)
        → Sim
            (on_result p cfg m c (record result { outcome = o }) a)
            (on_result q cfg m c (record result { outcome = o }) a)
    unfolding on_result
    result-Sim c result delivered a =
        bind _ _ _ _ (r.put_circuit _ _ _) λ _. bind _ _ _ _ (r.put_message _) λ _. record-Sim _
    result-Sim c result permanent a =
        bind _ _ _ _ r.now λ now. bind _ _ _ _ (r.put_circuit _ _ _) λ _. dlq-Sim a _
    result-Sim c result retryable a = bind _ _ _ _ r.now λ now.
        bind _ _ _ _ (r.put_circuit _ _ _)
          λ _. bind _ _ _ _ (delay-Sim m.attempt_no result.retry_after_ms) λ d. reschedule-Sim a d

    settle_same : (res : HttpResult) (t : ℕ) → settle p res t ≡ settle q res t
    unfolding settle
    settle_same HttpResult.timeout t = refl
    settle_same HttpResult.network t = refl
    settle_same (HttpResult.response n body headers) t = rw r.to_number refl

    settle-Sim : (res : HttpResult) (t : ℕ) → Sim (pure (settle p res t)) (pure (settle q res t))
    settle-Sim res t = rw (settle_same res t) (Simulates-pure view _)

    post-Sim :
        (e : Endpoint) → Sim (post_signed p cfg.timeout_ms m e) (post_signed q cfg.timeout_ms m e)
    unfolding post_signed
    post-Sim e = bind _ _ _ _ r.now λ signed_at. bind _ _ _ _ r.now λ start.
        bind _ _ _ _ (rw r.sign (r.post _ _ _ _))
          λ res. bind _ _ _ _ r.now λ finish. settle-Sim res _

    deliver-Sim :
        (e : Endpoint) → Sim (deliver_once p cfg.timeout_ms m e) (deliver_once q cfg.timeout_ms m e)
    unfolding deliver_once
    deliver-Sim e =
        bind _ _ _ _ (r.check_url e.url)
          λ ssrf. Simulates-if view _ _ _ _ _ (post-Sim e) (Simulates-pure view _)

    attempt-Sim :
        (e : Endpoint) (c : CircuitRecord)
        → Sim (attempt_delivery p cfg m e c) (attempt_delivery q cfg m e c)
    unfolding attempt_delivery
    attempt-Sim e c = bind _ _ _ _ (r.put_message _) λ _.
        bind _ _ _ _ (deliver-Sim e)
          λ result. bind _ _ _ _ r.now λ ts. result-Sim c result result.outcome _

    opened-Sim : (at : Option ℕ) → Sim (opened_or_now p cfg at) (opened_or_now q cfg at)
    unfolding opened_or_now
    opened-Sim none = r.now
    opened-Sim (some t) = Simulates-pure view t

    gate-Sim :
        (e : Endpoint) (c : CircuitRecord) (g : Gate)
        → Sim (pass_gate p cfg m e c g) (pass_gate q cfg m e c g)
    unfolding pass_gate probe_delivery park
    gate-Sim e c g =
        Simulates-if view _ _ _ _ _
          (Simulates-if view _ _ _ _ _ (bind _ _ _ _ (r.put_circuit _ _ _) λ _. attempt-Sim e _)
            (attempt-Sim e c))
          (bind _ _ _ _ (r.put_message _) λ _.
            bind _ _ _ _ (opened-Sim c.opened_at)
              λ since. bind _ _ _ _ (jitter-Sim c.cooldown_ms) λ j. r.schedule_retry m _)

    circuit-Sim : (e : Endpoint) → Sim (circuit_gate p cfg m e) (circuit_gate q cfg m e)
    unfolding circuit_gate
    circuit-Sim e =
        bind _ _ _ _ (r.get_circuit _ _) λ stored. bind _ _ _ _ r.now λ now. gate-Sim e _ _

    rate-Sim :
        (e : Endpoint) (rate : Option ℕ) → Sim (rate_gate p cfg m e rate) (rate_gate q cfg m e rate)
    unfolding rate_gate limited throttle
    rate-Sim e none = circuit-Sim e
    rate-Sim e (some rate) = Simulates-if view _ _ _ _ _ (circuit-Sim e) (
        bind _ _ _ _ r.now λ now. bind _ _ _ _ (r.get_rate_bucket _ _) λ stored.
          bind _ _ _ _ (r.put_rate_bucket _ _ _) λ _.
            Simulates-if view _ _ _ _ _ (circuit-Sim e)
              (bind _ _ _ _ (r.put_message _) λ _. r.schedule_retry m _))

    endpoint-Sim :
        (found : Option Endpoint) → Sim (to_endpoint p cfg m found) (to_endpoint q cfg m found)
    unfolding to_endpoint
    endpoint-Sim none = gone-Sim
    endpoint-Sim (some e) = Simulates-if view _ _ _ _ _ gone-Sim (rate-Sim e e.rate_limit)

    -- Delivering a message over an adapter shows in the view as delivering it over the one refined.
    pub process_message-Simulates : Sim (process_message p cfg m) (process_message q cfg m)
    unfolding process_message
    process_message-Simulates = bind _ _ _ _ (r.get_endpoint _ _) endpoint-Sim

  id_loop-Sim : (n : ℕ) (s : String) → Sim (id_loop p.rng n s) (id_loop q.rng n s)
  unfolding id_loop
  id_loop-Sim zero s = Simulates-pure view s
  id_loop-Sim (suc n) s = bind _ _ _ _ r.rng λ d. id_loop-Sim n _

  id-Sim : (prefix : String) → Sim (new_id p.rng prefix) (new_id q.rng prefix)
  unfolding new_id
  id-Sim prefix = bind _ _ _ _ (id_loop-Sim 20 "") λ s. Simulates-pure view _

  messages-Sim :
      (event : SendEvent) (id : String) (now : ℕ) (es : List Endpoint)
      → Sim (fresh_messages p.rng event id now es) (fresh_messages q.rng event id now es)
  unfolding fresh_messages
  messages-Sim event id now [] = Simulates-pure view []
  messages-Sim event id now (e ∷ es) =
      bind _ _ _ _ (bind _ _ _ _ (id-Sim "msg") λ i. Simulates-pure view _)
        λ m. bind _ _ _ _ (messages-Sim event id now es) λ ms. Simulates-pure view _

  accept-Sim :
      (event : SendEvent) (key id : String)
      → Sim (accept p cfg event key id) (accept q cfg event key id)
  unfolding accept fanout
  accept-Sim event key id = bind _ _ _ _ (r.match_endpoints _ _) λ endpoints.
      bind _ _ _ _ r.now λ now. bind _ _ _ _ (messages-Sim event id now _) λ messages.
        bind _ _ _ _
          (Simulates-for_each view messages _ _
            λ m. bind _ _ _ _ (r.put_message m) λ _. r.transport_send m)
          λ _. bind _ _ _ _ (r.finalize_event _ _ _ _) λ _. Simulates-pure view _

  record_and_accept-Sim :
      (event : SendEvent) → Sim (record_and_accept p cfg event) (record_and_accept q cfg event)
  unfolding record_and_accept
  record_and_accept-Sim event = bind _ _ _ _ (id-Sim "evt") λ id. rw r.sha256_hex (
      bind _ _ _ _ (r.record_event _ _ _)
        λ rec. Simulates-if view _ _ _ _ _ (accept-Sim event _ id) (Simulates-pure view _))

  size-Sim :
      (event : SendEvent) (body : Payload)
      → Sim (check_size p cfg event body) (check_size q cfg event body)
  unfolding check_size
  size-Sim event none = Simulates-throw view _
  size-Sim event (some body) =
      Simulates-if view _ _ _ _ _ (Simulates-throw view _) (record_and_accept-Sim event)

  -- Accepting an event over an adapter shows in the view as accepting it over the one refined.
  pub send-Simulates : (event : SendEvent) → Sim (send p cfg event) (send q cfg event)
  unfolding send
  send-Simulates event =
      Simulates-if view (event.type == "") _ _ _ _ (Simulates-throw view type_required) (
        Simulates-if view (event.tenant == "") _ _ _ _ (Simulates-throw view tenant_required)
          (size-Sim event event.payload))
