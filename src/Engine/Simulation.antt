-- ===== src/Engine/Simulation.antt =====
-- The engine over one adapter against the engine over another: what it is for a call to do the same, as a
-- view of worlds shows it (packages/core/src/engine.ts).
pub mod Methods
use anyhook.Base.{
  ℕ, String, ◌≡◌, refl, sym, ap, Bool, true, false, Option, none, some, List, [], ◌∷◌, length,
  subst, ◌==◌, ltb, if◌then◌else◌,
}
use anyhook.Base.Dict.{Dict}
use anyhook.Base.Exec.{Exec, Error, Result, ok, err, pure, throw, continue, ◌>>=◌, for_each}
use anyhook.Deliver.{DeliveryResult, deliver_once, settle, spread}
use anyhook.Engine.{
  EngineConfig, send, accept, record_and_accept, enqueue, process_message, to_endpoint, rate_gate,
  limited, throttle, circuit_gate, pass_gate, park, opened_or_now, probe_delivery, attempt_delivery,
  on_result, reschedule, endpoint_gone, dlq, record_to_log,
}
use anyhook.Fanout.{fanout, fresh_messages}
use anyhook.Id.{new_id, id_loop, derive_idempotency_key}
use anyhook.Policy.Circuit.{Gate}
use anyhook.Policy.Outcome.{delivered, retryable, permanent}
use anyhook.Policy.Retry.{full_jitter, next_delay_ms}
use anyhook.Ports.{Ports, DeliveryStore}
use anyhook.Types.{
  Message, SendEvent, Attempt, Endpoint, CircuitRecord, RateBucket, DlqReason, Payload,
}

-- `f` does in `V` what `g` does in `W`, as `view` shows it.
pub record Simulates {V W A : Type 0} (view : V → W) (f : Exec V A) (g : Exec W A) : Type 0 where
  pub at : (v : V) → ◌≡◌ {A = Result A × W} ((f v).0, view (f v).1) (g (view v))

module _ {V W : Type 0} (view : V → W) where
  pub Simulates-pure : {A : Type 0} (a : A) → Simulates view (pure a) (pure a)
  Simulates-pure a = record { at = λ v. refl }

  pub Simulates-throw : {A : Type 0} (e : Error) → Simulates {A = A} view (throw e) (throw e)
  Simulates-throw e = record { at = λ v. refl }

  Simulates-continue :
      {A B : Type 0} (v : V) (r : Result A) (f : A → Exec V B) (g : A → Exec W B)
      → ((a : A) → Simulates view (f a) (g a))
      → ◌≡◌ {A = Result B × W} ((continue r f v).0, view (continue r f v).1) (continue r g (view v))
  Simulates-continue v (ok a) f g k = (k a).at v
  Simulates-continue v (err e) f g k = refl

  pub Simulates-bind :
      {A B : Type 0} (m : Exec V A) (n : Exec W A) (f : A → Exec V B) (g : A → Exec W B)
      → Simulates view m n
      → ((a : A) → Simulates view (f a) (g a))
      → Simulates view (m >>= f) (n >>= g)
  Simulates-bind m n f g h k = record {
    at = λ v.
        subst
          (λ r.
            ◌≡◌ {A = Result _ × W}
              ((continue (m v).0 f (m v).1).0, view (continue (m v).0 f (m v).1).1)
              (continue r.0 g r.1))
          (h.at v) (Simulates-continue (m v).1 (m v).0 f g k);
  }

  pub Simulates-if :
      {A : Type 0} (b : Bool) (f g : Exec V A) (f' g' : Exec W A)
      → Simulates view f f'
      → Simulates view g g'
      → Simulates view (if b then f else g) (if b then f' else g')
  Simulates-if true f g f' g' h k = h
  Simulates-if false f g f' g' h k = k

  pub Simulates-for_each :
      {A : Type 0} (xs : List A) (f : A → Exec V (Unit {0})) (g : A → Exec W (Unit {0}))
      → ((a : A) → Simulates view (f a) (g a))
      → Simulates view (for_each xs f) (for_each xs g)
  Simulates-for_each [] f g k = Simulates-pure tt
  Simulates-for_each (x ∷ xs) f g k = Simulates-bind _ _ _ _ (k x) λ _. Simulates-for_each xs f g k

pub record StoreRefines {V W : Type 0} (view : V → W) (p : DeliveryStore V) (q : DeliveryStore W)
    : Type 0 where
  pub record_event : (t e k : String) → Simulates view (p.record_event t e k) (q.record_event t e k)
  pub finalize_event :
      (t k e : String) (n : ℕ)
      → Simulates view (p.finalize_event t k e n) (q.finalize_event t k e n)
  pub get_endpoint : (t e : String) → Simulates view (p.get_endpoint t e) (q.get_endpoint t e)
  pub match_endpoints :
      (t y : String) → Simulates view (p.match_endpoints t y) (q.match_endpoints t y)
  pub put_message : (m : Message) → Simulates view (p.put_message m) (q.put_message m)
  pub append_attempt : (a : Attempt) → Simulates view (p.append_attempt a) (q.append_attempt a)
  pub get_circuit : (t e : String) → Simulates view (p.get_circuit t e) (q.get_circuit t e)
  pub put_circuit :
      (t e : String) (c : CircuitRecord)
      → Simulates view (p.put_circuit t e c) (q.put_circuit t e c)
  pub get_rate_bucket :
      (t e : String) → Simulates view (p.get_rate_bucket t e) (q.get_rate_bucket t e)
  pub put_rate_bucket :
      (t e : String) (b : RateBucket)
      → Simulates view (p.put_rate_bucket t e b) (q.put_rate_bucket t e b)
  pub add_to_dlq :
      (m : Message) (r : DlqReason) → Simulates view (p.add_to_dlq m r) (q.add_to_dlq m r)

pub record PortsRefine {V W : Type 0} (view : V → W) (p : Ports V) (q : Ports W) : Type 0 where
  pub state : StoreRefines view p.state q.state
  pub open state use *
  pub transport_send : (m : Message) → Simulates view (p.transport_send m) (q.transport_send m)
  pub schedule_retry :
      (m : Message) (at : ℕ) → Simulates view (p.schedule_retry m at) (q.schedule_retry m at)
  pub post :
      (url : String) (body : Payload) (h : Dict String) (t : ℕ)
      → Simulates view (p.post url body h t) (q.post url body h t)
  pub check_url : (url : String) → Simulates view (p.check_url url) (q.check_url url)
  pub now : Simulates view p.now q.now
  pub rng : Simulates view p.rng q.rng
  pub record_attempt : (a : Attempt) → Simulates view (p.record_attempt a) (q.record_attempt a)
  pub sign : p.sign ≡ q.sign
  pub sha256_hex : p.sha256_hex ≡ q.sha256_hex
  pub to_number : p.to_number ≡ q.to_number
