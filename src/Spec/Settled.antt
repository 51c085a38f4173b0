-- ===== src/Spec/Settled.antt =====
-- How processMessage (packages/core/src/engine.ts) can end, and what its last steps leave.
pub mod Process
use native.Mathlib.Nat.{le_trans}
use anyhook.Base.{
  ℕ, ◌+◌, ◌≤◌, ◌<◌, ◌≡◌, ◌≢◌, refl, sym, ap, ◌∙◌, Bool, true, false, String, Option, none, some,
  List, [], ◌∷◌, ◌++◌, arith, ◌==◌, ==_refl, leb, leb→gt, get_or, suc, min, length, if◌then◌else◌,
  Bool-cases, inl, inr,
}
use anyhook.Base.Exec.{Result, ok, Exec}
use anyhook.Deliver.{DeliveryResult, deliver_once, settle}
use anyhook.Engine.{
  EngineConfig, process_message, to_endpoint, rate_gate, limited, throttle, circuit_gate, pass_gate,
  park, opened_or_now, probe_delivery, attempt_delivery, on_result, reschedule, endpoint_gone, dlq,
  record_to_log, attempt_of,
}
use anyhook.Policy.Circuit.{Gate, can_attempt, on_failure, on_success}
use anyhook.Policy.Outcome.{Outcome}
use anyhook.Policy.Retry.{next_delay_ms, full_jitter, jittered, retry_after_cap_ms}
use anyhook.Ports.{Ports}
use anyhook.Spec.{View, update, view_store}
use anyhook.Types.{
  Message, MessageStatus, Attempt, AttemptOutcome, Endpoint, CircuitRecord, CircuitState, closed,
  opened, DlqReason, DlqRow,
}
use anyhook.World.{Outside, World, Scheduled, ports}

module _ (m : Message) (w w' : World View) where
  -- Nothing new waits for a retry, or is among the dead letters, or in the delivery log.
  abbrev pub NotScheduled : Type 0
  NotScheduled = w'.scheduled ≡ w.scheduled

  abbrev pub NotDead : Type 0
  NotDead = w'.store.dlq m.tenant ≡ w.store.dlq m.tenant

  abbrev pub Logs : Attempt → Type 0
  Logs a =
      w'.store.attempts m.tenant m.message_id ≡ w.store.attempts m.tenant m.message_id ++ a ∷ []

  abbrev pub Holds : Message → Type 0
  Holds k = w'.store.message m.tenant m.message_id ≡ some k

  abbrev pub Waits : ℕ → Message → Type 0
  Waits at k = (w'.scheduled ≡ w.scheduled ++ record { at = at; message = k } ∷ []) × (w.clock ≤ at)

  pub data Settled (schedule : List ℕ) : Type 0 where
    -- it is stored as delivered, the log has it, and the endpoint's circuit is closed
    delivered :
        (a : Attempt)
        → a.outcome ≡ AttemptOutcome.delivered
        → Logs a
        → Holds (record m { status = MessageStatus.delivered })
        → NotScheduled
        → NotDead
        → (w'.store.circuit m.tenant m.endpoint_id).state ≡ closed
        → Settled schedule
    -- it is stored as dead, the log has it, and so have the dead letters
    dead :
        (a : Attempt) (r : DlqReason)
        → a.outcome ≡ AttemptOutcome.dead
        → Logs a
        → Holds (record m { status = MessageStatus.dead })
        → NotScheduled
        → w'.store.dlq m.tenant ≡ w.store.dlq m.tenant ++ record { message = m; reason = r } ∷ []
        → Settled schedule
    -- the attempt is in the log, and the next one, within the schedule, is stored and waits
    retrying :
        (a : Attempt) (at : ℕ) (k : Message)
        → a.outcome ≡ AttemptOutcome.retried
        → Logs a
        → m.attempt_no < length schedule
        → k ≡ record m {
          attempt_no = m.attempt_no + 1;
          status = MessageStatus.retrying;
          next_attempt_at = some at;
        }
        → Holds k
        → Waits at k
        → NotDead
        → Settled schedule
    -- throttled or parked: no attempt is made or counted, nothing is posted, and the message waits
    waiting :
        (at : ℕ) (k : Message)
        → k.attempt_no ≡ m.attempt_no
        → Holds k
        → Waits at m
        → w'.store.attempts ≡ w.store.attempts
        → w'.calls ≡ w.calls
        → NotDead
        → Settled schedule

-- What a step before the outcome leaves alone.
pub record Before (m : Message) (w v : World View) : Type 0 where
  pub scheduled : v.scheduled ≡ w.scheduled
  pub attempts : v.store.attempts ≡ w.store.attempts
  pub dlq : v.store.dlq ≡ w.store.dlq
  pub clock : w.clock ≤ v.clock

module _ (out : Outside) (cfg : EngineConfig) (m : Message) where
  abbrev pub P : Ports (World View)
  P = ports out view_store

  abbrev pub schedule : List ℕ
  schedule = cfg.retry.schedule_ms

  -- from `v`, the method returns, and with respect to `w` the message is settled
  abbrev pub Settles : Exec (World View) (Unit {0}) → World View → World View → Type 0
  Settles f w v = ((f v).0 ≡ ok tt) × Settled m w (f v).1 schedule

  module _ (a : Attempt) (t : a.tenant ≡ m.tenant) (i : a.message_id ≡ m.message_id) where
    pub dlq-Settles :
        (r : DlqReason) (w v : World View) → Before m w v → Settles (dlq P cfg m a r) w v
    unfolding dlq
    dlq-Settles r w v b = (
      refl,
      dead (record a { outcome = AttemptOutcome.dead }) r refl
          (rw (t, i, ==_refl m.tenant, ==_refl m.message_id, b.attempts) refl)
          (rw (==_refl m.tenant, ==_refl m.message_id) refl) b.scheduled
          (rw (==_refl m.tenant, b.dlq) refl),
    )

    reschedule-Settles :
        (delay : Option ℕ) (w v : World View)
        → (delay ≢ none → m.attempt_no < length schedule)
        → a.outcome ≡ AttemptOutcome.retried
        → Before m w v
        → Settles (reschedule P cfg m a delay) w v
    unfolding reschedule
    reschedule-Settles none w v left o b = dlq-Settles _ w v b
    reschedule-Settles (some d) w v left o b = (
      refl,
      retrying a (v.clock + d) _ o
          (rw (t, i, ==_refl m.tenant, ==_refl m.message_id, b.attempts) refl) (left (λ e. cc)) refl
          (rw (==_refl m.tenant, ==_refl m.message_id) refl)
          (rw b.scheduled refl, le_trans b.clock (omega arith)) (ap (λ f. f m.tenant) b.dlq),
    )

  delay_cases :
      (after : Option ℕ) (v : World View)
      → (d : Option ℕ) × (v' : World View) × (next_delay_ms P.rng cfg.retry m.attempt_no after v
          ≡ (ok d, v'))
        × (d ≢ none → m.attempt_no < length schedule)
        × Before m v v'
  unfolding next_delay_ms
  delay_cases after v = elim (Bool-cases (leb (length schedule) m.attempt_no)) [
    | inl e ↦ (none, v, rw e refl, λ h. absurd (h refl), still)
    | inr e ↦ within after e
  ]
    where
      still : Before m v v
      still = record { scheduled = refl; attempts = refl; dlq = refl; clock = omega arith }

      within :
          (after : Option ℕ)
          → leb (length schedule) m.attempt_no ≡ false
          → (d : Option ℕ) × (v' : World View) × (next_delay_ms P.rng cfg.retry m.attempt_no after v
              ≡ (ok d, v'))
            × (d ≢ none → m.attempt_no < length schedule)
            × Before m v v'
      within none e = (
        some (jittered (get_or schedule m.attempt_no 0) (out.draws v.drawn)),
        record v { drawn = suc v.drawn },
        rw e refl,
        λ _. leb→gt _ _ e,
        record { scheduled = refl; attempts = refl; dlq = refl; clock = omega arith },
      )
      within (some x) e = (some (min x retry_after_cap_ms), v, rw e refl, λ _. leb→gt _ _ e, still)

  pub Before-trans : {u v w : World View} → Before m u v → Before m v w → Before m u w
  Before-trans a b = record {
    scheduled = b.scheduled ∙ a.scheduled;
    attempts = b.attempts ∙ a.attempts;
    dlq = b.dlq ∙ a.dlq;
    clock = le_trans a.clock b.clock;
  }

  module _ (c : CircuitRecord) (result : DeliveryResult) (ts : ℕ) where
    retryable-Settles :
        (w v : World View)
        → Before m w v
        → Settles
            (on_result P cfg m c
              (record result { outcome = Outcome.retryable })
              (attempt_of P cfg m result ts))
            w
            v
    unfolding on_result
    retryable-Settles w v b =
        let v' : World View = record v {
          store = record v.store {
            circuit =
                update v.store.circuit m.tenant m.endpoint_id
                  (on_failure c v.clock cfg.circuit_cfg.failure_threshold);
          };
        } in
        let (d, v'', e, left, b') = delay_cases result.retry_after_ms v' in
        rw e (
          reschedule-Settles (attempt_of P cfg m result ts) refl refl d w v'' left refl (record {
            scheduled = b'.scheduled ∙ b.scheduled;
            attempts = b'.attempts ∙ b.attempts;
            dlq = b'.dlq ∙ b.dlq;
            clock = le_trans b.clock b'.clock;
          }))

    pub result-Settles :
        (o : Outcome) (w v : World View)
        → Before m w v
        → Settles
            (on_result P cfg m c (record result { outcome = o }) (attempt_of P cfg m result ts))
            w
            v
    unfolding on_result on_success
    result-Settles Outcome.delivered w v b = (
      refl,
      delivered (record (attempt_of P cfg m result ts) { outcome = AttemptOutcome.delivered }) refl
          (rw (==_refl m.tenant, ==_refl m.message_id, b.attempts) refl)
          (rw (==_refl m.tenant, ==_refl m.message_id) refl) b.scheduled
          (ap (λ f. f m.tenant) b.dlq) (rw (==_refl m.tenant, ==_refl m.endpoint_id) refl),
    )
    result-Settles Outcome.permanent w v b =
        dlq-Settles (attempt_of P cfg m result ts) refl refl _ w _
          (record { scheduled = b.scheduled; attempts = b.attempts; dlq = b.dlq; clock = b.clock })
    result-Settles Outcome.retryable w v b = retryable-Settles w v b
