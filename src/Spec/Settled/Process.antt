-- ===== src/Spec/Settled/Process.antt =====
-- The paths of processMessage (packages/core/src/engine.ts) and how each ends.
use native.Mathlib.Nat.{le_trans}
use anyhook.Base.{
  ℕ, ◌+◌, ◌<◌, ◌≡◌, refl, ap, ◌∙◌, true, false, Option, none, some, [], ◌∷◌, ◌++◌, arith, ==_refl,
  Bool-cases, inl, inr, nat_eq,
}
use anyhook.Base.Exec.{ok}
use anyhook.Deliver.{DeliveryResult, deliver_once, post_signed, ssrf_result}
use anyhook.Engine.{
  EngineConfig, process_message, to_endpoint, rate_gate, limited, throttle, circuit_gate, pass_gate,
  park, probe_delivery, attempt_delivery, endpoint_gone, gone_attempt, or_default,
}
use anyhook.Policy.Circuit.{can_attempt, to_half_open, opened_or_zero}
use anyhook.Policy.RateLimit.{RateDecision, consume_token, initial_bucket}
use anyhook.Policy.Retry.{full_jitter, jittered}
use anyhook.Spec.{View, update}
use anyhook.Spec.Settled.{
  Settled, delivered, dead, retrying, waiting, Settles, Before, P, schedule, dlq-Settles,
  result-Settles,
}
use anyhook.Types.{
  Message, MessageStatus, Endpoint, CircuitRecord, CircuitState, closed, opened, half_open,
}
use anyhook.World.{Outside, World}

-- An attempt is refused only before the end of the cooldown.
refused_before :
    (c : CircuitRecord) (now : ℕ)
    → (can_attempt c now).allow ≡ false
    → now < opened_or_zero c.opened_at + c.cooldown_ms
unfolding can_attempt
refused_before c now h = by_state c.state refl
  where
    by_state : (s : CircuitState) → c.state ≡ s → now < opened_or_zero c.opened_at + c.cooldown_ms
    by_state closed e = absurd (ground arith)
    by_state half_open e = absurd (ground arith)
    by_state opened e = ground arith

module _ (out : Outside) (cfg : EngineConfig) (m : Message) where
  still : (w : World View) → Before m w w
  still w = record { scheduled = refl; attempts = refl; dlq = refl; clock = omega arith }

  post_cases :
      (e : Endpoint) (v : World View)
      → (result : DeliveryResult) × (v' : World View) × (post_signed
            (P out cfg m)
            cfg.timeout_ms
            m
            e
            v
          ≡ (ok result, v'))
        × Before m v v'
  unfolding post_signed
  post_cases e v =
      (_, _, refl, record { scheduled = refl; attempts = refl; dlq = refl; clock = omega arith })

  deliver_cases :
      (e : Endpoint) (v : World View)
      → (result : DeliveryResult) × (v' : World View) × (deliver_once
            (P out cfg m)
            cfg.timeout_ms
            m
            e
            v
          ≡ (ok result, v'))
        × Before m v v'
  deliver_cases e v = elim (Bool-cases (out.check_url e.url).allowed) [
    | inl h ↦ posted h (post_cases e v)
    | inr h ↦ (
      ssrf_result (P out cfg m) (out.check_url e.url),
      v,
      unfold deliver_once in rw h refl,
      still v,
    )
  ]
    where
      posted :
          (out.check_url e.url).allowed ≡ true
          → (result : DeliveryResult) × (v' : World View) × (post_signed
                (P out cfg m)
                cfg.timeout_ms
                m
                e
                v
              ≡ (ok result, v'))
            × Before m v v'
          → (result : DeliveryResult) × (v' : World View) × (deliver_once
                (P out cfg m)
                cfg.timeout_ms
                m
                e
                v
              ≡ (ok result, v'))
            × Before m v v'
      posted h (result, v', eq, b) = (result, v', unfold deliver_once in rw h eq, b)

  attempt-Settles :
      (e : Endpoint) (c : CircuitRecord) (w v : World View)
      → Before m w v
      → Settles out cfg m (attempt_delivery (P out cfg m) cfg m e c) w v
  unfolding attempt_delivery
  attempt-Settles e c w v b =
      let v' : World View = record v {
        store = record v.store {
          message =
              update v.store.message m.tenant m.message_id
                (some (record m { status = MessageStatus.delivering }));
        };
      } in
      let (result, v'', eq, b') = deliver_cases e v' in
      rw eq (
        result-Settles out cfg m c result v''.clock result.outcome w v'' (record {
          scheduled = b'.scheduled ∙ b.scheduled;
          attempts = b'.attempts ∙ b.attempts;
          dlq = b'.dlq ∙ b.dlq;
          clock = le_trans b.clock b'.clock;
        }))

  park-Settles :
      (c : CircuitRecord) (at : Option ℕ) (w : World View)
      → c.opened_at ≡ at
      → (can_attempt c w.clock).allow ≡ false
      → Settles out cfg m (park (P out cfg m) cfg m c) w w
  unfolding park full_jitter
  park-Settles c none w e h = rw e (
    refl,
    waiting (w.clock + c.cooldown_ms + jittered c.cooldown_ms (out.draws w.drawn))
        (record m { status = MessageStatus.blocked }) refl
        (rw (==_refl m.tenant, ==_refl m.message_id) refl) (refl, omega arith) refl refl refl,
  )
  park-Settles c (some t) w e h = rw e (
    refl,
    waiting (t + c.cooldown_ms + jittered c.cooldown_ms (out.draws w.drawn))
        (record m { status = MessageStatus.blocked }) refl
        (rw (==_refl m.tenant, ==_refl m.message_id) refl)
        (refl, omega (arith, rw e at (refused_before c w.clock h))) refl refl refl,
  )

  -- the same up to here, and no call yet
  record Quiet (w v : World View) : Type 0 where
    before : Before m w v
    calls : v.calls ≡ w.calls
    clock_kept : v.clock ≡ w.clock

  quietly :
      (w v w' : World View)
      → Quiet w v
      → Settled m v w' (schedule out cfg m)
      → Settled m w w' (schedule out cfg m)
  quietly w v w' q (delivered a o l h n d c) =
      delivered a o (l ∙ ap (λ f. f m.tenant m.message_id ++ a ∷ []) q.before.attempts) h
        (n ∙ q.before.scheduled) (d ∙ ap (λ f. f m.tenant) q.before.dlq) c
  quietly w v w' q (dead a r o l h n d) =
      dead a r o (l ∙ ap (λ f. f m.tenant m.message_id ++ a ∷ []) q.before.attempts) h
        (n ∙ q.before.scheduled) (rw (← q.before.dlq) d)
  quietly w v w' q (retrying a at k o l lt e h n d) =
      retrying a at k o (l ∙ ap (λ f. f m.tenant m.message_id ++ a ∷ []) q.before.attempts) lt e h
        (rw (← q.before.scheduled) n.0, le_trans q.before.clock n.1)
        (d ∙ ap (λ f. f m.tenant) q.before.dlq)
  quietly w v w' q (waiting at k e h n l c d) =
      waiting at k e h (rw (← q.before.scheduled) n.0, le_trans q.before.clock n.1)
        (l ∙ q.before.attempts) (c ∙ q.calls) (d ∙ ap (λ f. f m.tenant) q.before.dlq)

  gate-Settles :
      (e : Endpoint) (c : CircuitRecord) (w : World View)
      → Settles out cfg m (pass_gate (P out cfg m) cfg m e c (can_attempt c w.clock)) w w
  gate-Settles e c w = elim (Bool-cases (can_attempt c w.clock).allow) [
    | inr h ↦ unfold pass_gate in rw h (park-Settles c c.opened_at w refl h)
    | inl h ↦ elim (Bool-cases (can_attempt c w.clock).probe) [
      | inl k ↦
          unfold pass_gate probe_delivery in
          rw (h, k)
            (attempt-Settles e (to_half_open c) w _
              (record { scheduled = refl; attempts = refl; dlq = refl; clock = omega arith }))
      | inr k ↦ unfold pass_gate in rw (h, k) (attempt-Settles e c w w (still w))
    ]
  ]

  circuit-Settles :
      (e : Endpoint) (w : World View) → Settles out cfg m (circuit_gate (P out cfg m) cfg m e) w w
  unfolding circuit_gate
  circuit-Settles e w = gate-Settles e _ w

  limited-Settles :
      (e : Endpoint) (rate : ℕ) (w : World View)
      → Settles out cfg m (limited (P out cfg m) cfg m e rate) w w
  limited-Settles e rate w = elim (Bool-cases decision.allowed) [
    | inl h ↦
        unfold limited in
        rw h (
          (circuit-Settles e v).0,
          quietly w v _
              (record {
                before = record {
                  scheduled = refl;
                  attempts = refl;
                  dlq = refl;
                  clock = omega arith;
                };
                calls = refl;
                clock_kept = refl;
              })
              (circuit-Settles e v).1,
        )
    | inr h ↦
        unfold limited throttle in
        rw h (
          refl,
          waiting (w.clock + decision.retry_after_ms)
              (record m {
                status = MessageStatus.retrying;
                next_attempt_at = some (w.clock + decision.retry_after_ms);
              })
              refl (rw (==_refl m.tenant, ==_refl m.message_id) refl) (refl, omega arith) refl refl
              refl,
        )
  ]
    where
      decision : RateDecision
      decision =
          consume_token
            (or_default (w.store.bucket m.tenant m.endpoint_id) (initial_bucket rate w.clock)) rate
            w.clock

      v : World View
      v = record w {
        store = record w.store {
          bucket = update w.store.bucket m.tenant m.endpoint_id (some decision.bucket);
        };
      }

  rate-Settles :
      (e : Endpoint) (rate : Option ℕ) (w : World View)
      → Settles out cfg m (rate_gate (P out cfg m) cfg m e rate) w w
  unfolding rate_gate
  rate-Settles e none w = circuit-Settles e w
  rate-Settles e (some rate) w = elim (Bool-cases (nat_eq rate 0)) [
    | inl h ↦ rw h (circuit-Settles e w)
    | inr h ↦ rw h (limited-Settles e rate w)
  ]

  gone-Settles : (w : World View) → Settles out cfg m (endpoint_gone (P out cfg m) cfg m) w w
  gone-Settles w =
      unfold endpoint_gone in
      dlq-Settles out cfg m (gone_attempt (P out cfg m) cfg m w.clock) refl refl _ w w (still w)

  endpoint-Settles :
      (found : Option Endpoint) (w : World View)
      → Settles out cfg m (to_endpoint (P out cfg m) cfg m found) w w
  unfolding to_endpoint
  endpoint-Settles none w = gone-Settles w
  endpoint-Settles (some e) w = elim (Bool-cases e.disabled) [
    | inl h ↦ simp h (gone-Settles w)
    | inr h ↦ simp h (rate-Settles e e.rate_limit w)
  ]

  -- Delivering a message always returns, whatever the target answers, and ends in exactly one of four
  -- ways: it is stored as delivered, logged, and its endpoint's circuit is closed; or it is stored as
  -- dead, logged, and added to the dead letters; or the attempt is logged as retried, the attempt
  -- number is within the schedule, and the next attempt is stored and scheduled, not before the time
  -- of the delivery; or no attempt is made and the message itself is scheduled. Only a dead message
  -- is added to the dead letters, and only one that waits is scheduled.
  pub process_message-Settled :
      (w : World View)
      → ((process_message (P out cfg m) cfg m w).0 ≡ ok tt)
        × Settled m w (process_message (P out cfg m) cfg m w).1 (schedule out cfg m)
  unfolding process_message
  process_message-Settled w = endpoint-Settles (w.store.endpoint m.tenant m.endpoint_id) w
