-- ===== src/Policy/Outcome.antt =====
-- packages/core/src/policy/outcome.ts
use anyhook.Base.{ℕ, ◌≤◌, ◌<◌, ◌≡◌, ◌≢◌, ◌↔◌, ◌⊎◌, ◌&&◌, arith, leb, ltb, nat_eq, if◌then◌else◌}
use anyhook.Types.{AttemptStatus, http, timeout, network}

pub data Outcome : Type 0 where
  delivered retryable permanent : Outcome

unfoldable pub classify_outcome : AttemptStatus → Outcome
classify_outcome timeout = retryable
classify_outcome network = retryable
classify_outcome (http status) =
    if leb 200 status && ltb status 300
    then delivered
    else if nat_eq status 429
    then retryable
    else if leb 300 status && ltb status 500
    then permanent
    else if leb 500 status
    then retryable
    else retryable

-- Of a numeric status: it is delivered exactly when it is a 2xx, permanent exactly when it is a 3xx
-- or a 4xx other than 429, and retryable exactly when it is below 200, 429, or at least 500.
pub classify_outcome_iff :
    (n : ℕ)
    → ((classify_outcome (http n) ≡ delivered) ↔ ((200 ≤ n) × (n < 300)))
      × ((classify_outcome (http n) ≡ permanent) ↔ ((300 ≤ n) × (n < 500) × (n ≢ 429)))
      × ((classify_outcome (http n) ≡ retryable) ↔ ((n < 200) ⊎ ((n ≡ 429) ⊎ (500 ≤ n))))
unfolding classify_outcome
classify_outcome_iff n = (
  (λ h. ground arith, λ h. ground arith),
  (λ h. ground arith, λ h. ground arith),
  (λ h. ground arith, λ h. ground arith),
)
