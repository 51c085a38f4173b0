-- ===== src/Tests/Policies.antt =====
-- Concrete runs of the policies and of subscriptions.
use anyhook.Base.{
  ℕ, suc, ◌+◌, ◌*◌, ◌-◌, ◌≤◌, ◌<◌, ◌≡◌, ◌≢◌, ◌↔◌, ◌⊎◌, refl, true, false, none, some, [], ◌∷◌,
  arith,
}
use anyhook.Base.Exec.{Exec, ok}
use anyhook.Fanout.{subscribes}
use anyhook.Fanout.Matching.{AnyOf, Matches, subscribes_iff}
use anyhook.Policy.Circuit.{can_attempt, initial_circuit, on_failure}
use anyhook.Policy.Circuit.Runs.{IsCircuit, Step, Reach, Reach-IsCircuit, can_attempt_iff}
use anyhook.Policy.RateLimit.{token}
use anyhook.Policy.RateLimit.Throughput.{allowed_count, allowed_count-le}
use anyhook.Policy.Retry.{next_delay_ms, next_delay_ms_cases, delay_bound, default_retry_config}
use anyhook.Types.{CircuitRecord, CircuitState, RateBucket, ms}
use anyhook.Tests.{endpoint}

abbrev tripped : CircuitRecord
tripped = record {
  state = CircuitState.opened;
  consecutive_failures = 2;
  opened_at = some (ms 40);
  cooldown_ms = ms 30000;
}

tripped_twice : Reach 2 (initial_circuit (ms 30000)) tripped
unfolding initial_circuit on_failure
tripped_twice = Reach.next (Reach.next Reach.here (Step.fail (ms 20))) (Step.fail (ms 40))

Reach-IsCircuit_example : IsCircuit 2 tripped × (tripped.cooldown_ms ≡ ms 30000)
Reach-IsCircuit_example = Reach-IsCircuit 2 (ms 30000) (omega arith) tripped_twice

can_attempt_iff_example :
    (((can_attempt tripped (ms 50)).allow ≡ false) ↔ (
      (tripped.state ≡ CircuitState.opened)
      × (t : ℕ) × (tripped.opened_at ≡ some t)
      × (ms 50 < t + tripped.cooldown_ms)))
    × (((can_attempt tripped (ms 50)).probe ≡ true)
        ↔ (((can_attempt tripped (ms 50)).allow ≡ true) × (tripped.state ≢ CircuitState.closed)))
can_attempt_iff_example = can_attempt_iff 2 tripped (ms 50) (omega arith, (ms 40, refl))

subscribes_iff_example :
    (subscribes endpoint "payment.settled" ≡ true)
    ↔ AnyOf (Matches "payment.settled") ("payment.*" ∷ [])
subscribes_iff_example = subscribes_iff endpoint "payment.settled"

abbrev bucket : RateBucket
bucket = record { tokens = 0; last_refill_ms = ms 1000 }

allowed_count-le_example :
    allowed_count 2000 (ms 1000 ∷ ms 1500 ∷ ms 2000 ∷ []) bucket * token
    ≤ 0 + (ms 2000 - ms 1000) * 2000
allowed_count-le_example =
    allowed_count-le 2000 (ms 1000 ∷ ms 1500 ∷ ms 2000 ∷ []) bucket
      (omega arith, (omega arith, (omega arith, tt)))

-- a generator that draws the number it holds
abbrev draw_held : Exec ℕ ℕ
draw_held n = (ok 7, suc n)

next_delay_ms_cases_example :
    ((8 ≤ 3) × (next_delay_ms draw_held default_retry_config 3 none 0 ≡ (ok none, 0)))
    ⊎ ((3 < 8)
        × (d : ℕ) × (w : ℕ) × (next_delay_ms draw_held default_retry_config 3 none 0
            ≡ (ok (some d), w))
        × (d ≤ delay_bound default_retry_config 3 none))
next_delay_ms_cases_example =
    next_delay_ms_cases draw_held default_retry_config 3 none 0 λ v. (7, suc v, refl, omega arith)
