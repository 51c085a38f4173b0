-- ===== src/Engine/Within.antt =====
-- A relation between worlds through the methods of the engine (packages/core/src/engine.ts): one rule for
-- each way to build a method.
use anyhook.Base.{ℕ, String, ◌≡◌, refl, Bool, true, false, Option, none, some, if◌then◌else◌}
use anyhook.Base.Exec.{Exec, Result, ok, err, pure, continue, ◌>>=◌}
use anyhook.Base.Dict.{Dict}
use anyhook.Deliver.{DeliveryResult, deliver_once}
use anyhook.Engine.{
  EngineConfig, process_message, to_endpoint, rate_gate, limited, throttle, circuit_gate, pass_gate,
  park, opened_or_now, probe_delivery, attempt_delivery, on_result, reschedule, endpoint_gone,
  gone_attempt, dlq, record_to_log,
}
use anyhook.Policy.Circuit.{Gate}
use anyhook.Policy.Outcome.{Outcome, delivered, retryable, permanent}
use anyhook.Policy.Retry.{full_jitter, next_delay_ms}
use anyhook.Ports.{Ports}
use anyhook.Types.{Message, Attempt, Endpoint, CircuitRecord, RateBucket, DlqReason, Payload}

-- A method takes each world to one that `R` relates to it.
pub record Within {W A : Type 0} (R : W → W → Type 0) (f : Exec W A) : Type 0 where
  pub at : (w : W) → R w (f w).1

-- A relation that holds of doing nothing and of one method after another.
pub record IsPreorder {W : Type 0} (R : W → W → Type 0) : Type 0 where
  pub stay : (w : W) → R w w
  pub chain : (u v w : W) → R u v → R v w → R u w

module _ {W : Type 0} {R : W → W → Type 0} (pre : IsPreorder R) where
  pub Within-pure : {A : Type 0} (a : A) → Within R (pure a)
  Within-pure a = record { at = λ w. pre.stay w }

  Within-continue :
      {A B : Type 0} (u v : W) (r : Result A) (f : A → Exec W B)
      → ((a : A) → Within R (f a))
      → R u v
      → R u (continue r f v).1
  Within-continue u v (ok a) f kf h = pre.chain u v _ h ((kf a).at v)
  Within-continue u v (err e) f kf h = h

  pub Within-bind :
      {A B : Type 0} (m : Exec W A) (f : A → Exec W B)
      → Within R m
      → ((a : A) → Within R (f a))
      → Within R (m >>= f)
  Within-bind m f km kf = record { at = λ w. Within-continue w (m w).1 (m w).0 f kf (km.at w) }

  pub Within-if :
      {A : Type 0} (b : Bool) (f g : Exec W A)
      → Within R f
      → Within R g
      → Within R (if b then f else g)
  Within-if true f g kf kg = kf
  Within-if false f g kf kg = kg

-- The port calls that may happen for one message.
pub record Respects {W : Type 0} (p : Ports W) (R : W → W → Type 0) (m : Message) : Type 0 where
  pub pre : IsPreorder R
  pub get_endpoint : Within R (p.get_endpoint m.tenant m.endpoint_id)
  pub put_message :
      (k : Message)
      → k.tenant ≡ m.tenant
      → k.message_id ≡ m.message_id
      → k.endpoint_id ≡ m.endpoint_id
      → Within R (p.put_message k)
  pub append_attempt :
      (a : Attempt)
      → a.tenant ≡ m.tenant
      → a.message_id ≡ m.message_id
      → a.endpoint_id ≡ m.endpoint_id
      → Within R (p.append_attempt a)
  pub get_circuit : Within R (p.get_circuit m.tenant m.endpoint_id)
  pub put_circuit : (c : CircuitRecord) → Within R (p.put_circuit m.tenant m.endpoint_id c)
  pub get_rate_bucket : Within R (p.get_rate_bucket m.tenant m.endpoint_id)
  pub put_rate_bucket : (b : RateBucket) → Within R (p.put_rate_bucket m.tenant m.endpoint_id b)
  pub add_to_dlq : (r : DlqReason) → Within R (p.add_to_dlq m r)
  pub schedule_retry :
      (k : Message) (at : ℕ)
      → k.tenant ≡ m.tenant
      → k.message_id ≡ m.message_id
      → k.endpoint_id ≡ m.endpoint_id
      → Within R (p.schedule_retry k at)
  pub check_url : (url : String) → Within R (p.check_url url)
  pub post :
      (url : String) (body : Payload) (h : Dict String) (t : ℕ) → Within R (p.post url body h t)
  pub now : Within R p.now
  pub rng : Within R p.rng
  pub record_attempt :
      (a : Attempt)
      → a.tenant ≡ m.tenant
      → a.message_id ≡ m.message_id
      → Within R (p.record_attempt a)

module _ {W : Type 0} (p : Ports W) (cfg : EngineConfig) {R : W → W → Type 0} (m : Message)
    (r : Respects p R m) where
  abbrev IsFor : Attempt → Type 0
  IsFor a = (a.tenant ≡ m.tenant) × (a.message_id ≡ m.message_id) × (a.endpoint_id ≡ m.endpoint_id)

  within_record : (a : Attempt) → IsFor a → Within R (record_to_log p cfg a)
  unfolding record_to_log
  within_record a (t, i, e) =
      Within-bind r.pre _ _ (r.append_attempt a t i e) (λ _. r.record_attempt a t i)

  within_dlq : (a : Attempt) (reason : DlqReason) → IsFor a → Within R (dlq p cfg m a reason)
  unfolding dlq
  within_dlq a reason f =
      Within-bind r.pre _ _ (r.put_message _ refl refl refl)
        λ _. Within-bind r.pre _ _ (within_record _ f) λ _. r.add_to_dlq reason

  within_gone : Within R (endpoint_gone p cfg m)
  unfolding endpoint_gone
  within_gone =
      Within-bind r.pre _ _ r.now λ ts. within_dlq (gone_attempt p cfg m ts) _ (refl, refl, refl)

  within_reschedule :
      (a : Attempt) (delay : Option ℕ) → IsFor a → Within R (reschedule p cfg m a delay)
  unfolding reschedule
  within_reschedule a none f = within_dlq a _ f
  within_reschedule a (some d) f = Within-bind r.pre _ _ (within_record a f) λ _.
      Within-bind r.pre _ _ r.now λ now.
        Within-bind r.pre _ _ (r.put_message _ refl refl refl)
          λ _. r.schedule_retry _ _ refl refl refl

  within_delay : (n : ℕ) (after : Option ℕ) → Within R (next_delay_ms p.rng cfg.retry n after)
  unfolding next_delay_ms
  within_delay n none = Within-if r.pre _ _ _ (Within-pure r.pre none) (
      Within-bind r.pre _ _ (Within-bind r.pre _ _ r.rng λ d. Within-pure r.pre _)
        λ d. Within-pure r.pre _)
  within_delay n (some after) = Within-if r.pre _ _ _ (Within-pure r.pre none) (Within-pure r.pre _)

  within_result :
      (c : CircuitRecord) (result : DeliveryResult) (o : Outcome) (a : Attempt)
      → IsFor a
      → Within R (on_result p cfg m c (record result { outcome = o }) a)
  unfolding on_result
  within_result c result delivered a f =
      Within-bind r.pre _ _ (r.put_circuit _)
        λ _. Within-bind r.pre _ _ (r.put_message _ refl refl refl) λ _. within_record _ f
  within_result c result permanent a f =
      Within-bind r.pre _ _ r.now
        λ now. Within-bind r.pre _ _ (r.put_circuit _) λ _. within_dlq a _ f
  within_result c result retryable a f = Within-bind r.pre _ _ r.now λ now.
      Within-bind r.pre _ _ (r.put_circuit _) λ _.
        Within-bind r.pre _ _ (within_delay m.attempt_no result.retry_after_ms)
          λ d. within_reschedule a d f

  within_post : (e : Endpoint) → Within R (deliver_once p cfg.timeout_ms m e)
  unfolding deliver_once
  within_post e = Within-bind r.pre _ _ (r.check_url e.url) λ ssrf.
      Within-if r.pre _ _ _
        (Within-bind r.pre _ _ r.now λ _. Within-bind r.pre _ _ r.now λ _.
          Within-bind r.pre _ _ (r.post _ _ _ _)
            λ _. Within-bind r.pre _ _ r.now λ _. Within-pure r.pre _)
        (Within-pure r.pre _)

  within_attempt : (e : Endpoint) (c : CircuitRecord) → Within R (attempt_delivery p cfg m e c)
  unfolding attempt_delivery
  within_attempt e c = Within-bind r.pre _ _ (r.put_message _ refl refl refl) λ _.
      Within-bind r.pre _ _ (within_post e) λ result.
        Within-bind r.pre _ _ r.now λ ts. within_result c result result.outcome _ (refl, refl, refl)

  within_opened : (at : Option ℕ) → Within R (opened_or_now p cfg at)
  unfolding opened_or_now
  within_opened none = r.now
  within_opened (some t) = Within-pure r.pre t

  within_park : (c : CircuitRecord) → Within R (park p cfg m c)
  unfolding park full_jitter
  within_park c = Within-bind r.pre _ _ (r.put_message _ refl refl refl) λ _.
      Within-bind r.pre _ _ (within_opened c.opened_at) λ since.
        Within-bind r.pre _ _ (Within-bind r.pre _ _ r.rng λ d. Within-pure r.pre _)
          λ j. r.schedule_retry m _ refl refl refl

  within_gate : (e : Endpoint) (c : CircuitRecord) (g : Gate) → Within R (pass_gate p cfg m e c g)
  unfolding pass_gate probe_delivery
  within_gate e c g =
      Within-if r.pre _ _ _
        (Within-if r.pre _ _ _ (Within-bind r.pre _ _ (r.put_circuit _) λ _. within_attempt e _)
          (within_attempt e c))
        (within_park c)

  within_circuit : (e : Endpoint) → Within R (circuit_gate p cfg m e)
  unfolding circuit_gate
  within_circuit e =
      Within-bind r.pre _ _ r.get_circuit
        λ stored. Within-bind r.pre _ _ r.now λ now. within_gate e _ _

  within_rate : (e : Endpoint) (rate : Option ℕ) → Within R (rate_gate p cfg m e rate)
  unfolding rate_gate limited throttle
  within_rate e none = within_circuit e
  within_rate e (some rate) = Within-if r.pre _ _ _ (within_circuit e) (
      Within-bind r.pre _ _ r.now λ now. Within-bind r.pre _ _ r.get_rate_bucket λ stored.
        Within-bind r.pre _ _ (r.put_rate_bucket _) λ _. Within-if r.pre _ _ _ (within_circuit e) (
          Within-bind r.pre _ _ (r.put_message _ refl refl refl)
            λ _. r.schedule_retry m _ refl refl refl))

  within_endpoint : (found : Option Endpoint) → Within R (to_endpoint p cfg m found)
  unfolding to_endpoint
  within_endpoint none = within_gone
  within_endpoint (some e) = Within-if r.pre _ _ _ within_gone (within_rate e e.rate_limit)

  -- Delivering a message stays within a preorder that each port call on its own keys stays within.
  pub process_message-Within : Within R (process_message p cfg m)
  unfolding process_message
  process_message-Within = Within-bind r.pre _ _ r.get_endpoint within_endpoint
