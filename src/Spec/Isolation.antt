-- ===== src/Spec/Isolation.antt =====
-- What processMessage (packages/core/src/engine.ts) may change: the parts of the world that belong to the
-- message that is delivered, and those that belong to others.
use anyhook.Base.{◌≡◌, refl, ap, ◌∙◌, false, String, ◌==◌}
use anyhook.Engine.{EngineConfig, process_message}
use anyhook.Engine.Within.{Within, IsPreorder, Respects, process_message-Within}
use anyhook.Spec.{View, same_key, view_store}
use anyhook.Types.{Message, Attempt, CircuitRecord, RateBucket, DlqReason}
use anyhook.World.{Outside, World, ports}

-- The keys that are not the message's own.
abbrev Other : Message → String → String → String → Type 0
Other m own t k = same_key m.tenant own t k ≡ false

-- Everything that belongs to another message, endpoint or tenant is as it was.
pub record Isolated (m : Message) (w w' : World View) : Type 0 where
  pub endpoints : w'.store.endpoint ≡ w.store.endpoint
  pub events : w'.store.event ≡ w.store.event
  pub messages :
      (t k : String) → Other m m.message_id t k → w'.store.message t k ≡ w.store.message t k
  pub attempts :
      (t k : String) → Other m m.message_id t k → w'.store.attempts t k ≡ w.store.attempts t k
  pub circuits :
      (t k : String) → Other m m.endpoint_id t k → w'.store.circuit t k ≡ w.store.circuit t k
  pub buckets :
      (t k : String) → Other m m.endpoint_id t k → w'.store.bucket t k ≡ w.store.bucket t k
  pub dlqs : (t : String) → (m.tenant == t) ≡ false → w'.store.dlq t ≡ w.store.dlq t
  pub queued : w'.queue ≡ w.queue

Isolated-pre : (m : Message) → IsPreorder (Isolated m)
Isolated-pre m = record {
  stay = λ w. record {
    endpoints = refl;
    events = refl;
    messages = λ t k h. refl;
    attempts = λ t k h. refl;
    circuits = λ t k h. refl;
    buckets = λ t k h. refl;
    dlqs = λ t h. refl;
    queued = refl;
  };
  chain = λ u v w a b. record {
    endpoints = b.endpoints ∙ a.endpoints;
    events = b.events ∙ a.events;
    messages = λ t k h. b.messages t k h ∙ a.messages t k h;
    attempts = λ t k h. b.attempts t k h ∙ a.attempts t k h;
    circuits = λ t k h. b.circuits t k h ∙ a.circuits t k h;
    buckets = λ t k h. b.buckets t k h ∙ a.buckets t k h;
    dlqs = λ t h. b.dlqs t h ∙ a.dlqs t h;
    queued = b.queued ∙ a.queued;
  };
}

-- A method that leaves the store and the queue as they are.
unmoved :
    (m : Message) (w w' : World View) → w'.store ≡ w.store → w'.queue ≡ w.queue → Isolated m w w'
unmoved m w w' e q = record {
  endpoints = ap (λ s. s.endpoint) e;
  events = ap (λ s. s.event) e;
  messages = λ t k h. ap (λ s. s.message t k) e;
  attempts = λ t k h. ap (λ s. s.attempts t k) e;
  circuits = λ t k h. ap (λ s. s.circuit t k) e;
  buckets = λ t k h. ap (λ s. s.bucket t k) e;
  dlqs = λ t h. ap (λ s. s.dlq t) e;
  queued = q;
}

module _ (out : Outside) (m : Message) where
  put_message-Isolated :
      (k : Message)
      → k.tenant ≡ m.tenant
      → k.message_id ≡ m.message_id
      → Within (Isolated m) ((ports out view_store).put_message k)
  put_message-Isolated k e f = record {
    at = λ w. record {
      endpoints = refl;
      events = refl;
      messages = λ t j h. rw (e, f, h) refl;
      attempts = λ t j h. refl;
      circuits = λ t j h. refl;
      buckets = λ t j h. refl;
      dlqs = λ t h. refl;
      queued = refl;
    };
  }

  append_attempt-Isolated :
      (a : Attempt)
      → a.tenant ≡ m.tenant
      → a.message_id ≡ m.message_id
      → Within (Isolated m) ((ports out view_store).append_attempt a)
  append_attempt-Isolated a e f = record {
    at = λ w. record {
      endpoints = refl;
      events = refl;
      messages = λ t j h. refl;
      attempts = λ t j h. rw (e, f, h) refl;
      circuits = λ t j h. refl;
      buckets = λ t j h. refl;
      dlqs = λ t h. refl;
      queued = refl;
    };
  }

  put_circuit-Isolated :
      (c : CircuitRecord)
      → Within (Isolated m) ((ports out view_store).put_circuit m.tenant m.endpoint_id c)
  put_circuit-Isolated c = record {
    at = λ w. record {
      endpoints = refl;
      events = refl;
      messages = λ t j h. refl;
      attempts = λ t j h. refl;
      circuits = λ t j h. rw h refl;
      buckets = λ t j h. refl;
      dlqs = λ t h. refl;
      queued = refl;
    };
  }

  put_rate_bucket-Isolated :
      (b : RateBucket)
      → Within (Isolated m) ((ports out view_store).put_rate_bucket m.tenant m.endpoint_id b)
  put_rate_bucket-Isolated b = record {
    at = λ w. record {
      endpoints = refl;
      events = refl;
      messages = λ t j h. refl;
      attempts = λ t j h. refl;
      circuits = λ t j h. refl;
      buckets = λ t j h. rw h refl;
      dlqs = λ t h. refl;
      queued = refl;
    };
  }

  add_to_dlq-Isolated :
      (r : DlqReason) → Within (Isolated m) ((ports out view_store).add_to_dlq m r)
  add_to_dlq-Isolated r = record {
    at = λ w. record {
      endpoints = refl;
      events = refl;
      messages = λ t j h. refl;
      attempts = λ t j h. refl;
      circuits = λ t j h. refl;
      buckets = λ t j h. refl;
      dlqs = λ t h. rw h refl;
      queued = refl;
    };
  }

  calls-Isolated : Respects (ports out view_store) (Isolated m) m
  calls-Isolated = record {
    pre = Isolated-pre m;
    get_endpoint = record { at = λ w. unmoved m w w refl refl };
    put_message = λ k e f _. put_message-Isolated k e f;
    append_attempt = λ a e f _. append_attempt-Isolated a e f;
    get_circuit = record { at = λ w. unmoved m w w refl refl };
    put_circuit = put_circuit-Isolated;
    get_rate_bucket = record { at = λ w. unmoved m w w refl refl };
    put_rate_bucket = put_rate_bucket-Isolated;
    add_to_dlq = add_to_dlq-Isolated;
    schedule_retry = λ k at _ _ _. record { at = λ w. unmoved m w _ refl refl };
    check_url = λ url. record { at = λ w. unmoved m w w refl refl };
    post = λ url body headers t. record { at = λ w. unmoved m w _ refl refl };
    now = record { at = λ w. unmoved m w w refl refl };
    rng = record { at = λ w. unmoved m w _ refl refl };
    record_attempt = λ a _ _. record { at = λ w. unmoved m w _ refl refl };
  }

  -- Delivering a message, whatever the target answers, leaves every other message and its attempts,
  -- the circuit and rate bucket of every other endpoint, the dead letters of every other tenant, and
  -- all endpoints, accepted events and queued messages as they were.
  pub process_message-Isolated :
      (cfg : EngineConfig) (w : World View)
      → Isolated m w (process_message (ports out view_store) cfg m w).1
  process_message-Isolated cfg w = (process_message-Within _ cfg m calls-Isolated).at w
