-- ===== src/Policy/RateLimit.antt =====
-- packages/core/src/policy/ratelimit.ts: the token bucket of one endpoint.
-- A rate is in thousandths of a delivery per second and time is in ticks, so a rate times a time is a
-- whole number of the unit in which a bucket counts: `token` of them are one delivery.
pub mod Throughput
use anyhook.Base.{ℕ, ◌+◌, ◌-◌, ◌*◌, ◌/◌, Bool, true, false, min, max, leb, if◌then◌else◌}
use anyhook.Types.{RateBucket, ticks_per_ms, ms}

abbrev pub token : ℕ
token = 1000000 * ticks_per_ms

-- Math.max(1, rateLimitPerSec), in tokens
abbrev pub capacity_for : ℕ → ℕ
capacity_for rate = max token (rate * (1000 * ticks_per_ms))

unfoldable pub initial_bucket : ℕ → ℕ → RateBucket
initial_bucket rate now = record { tokens = capacity_for rate; last_refill_ms = now }

pub record RateDecision : Type 0 where
  pub allowed : Bool
  pub bucket : RateBucket
  pub retry_after_ms : ℕ

-- Math.ceil(((1 - tokens) / rateLimitPerSec) * 1000), a whole number of milliseconds
unfoldable pub ms_until_token : ℕ → ℕ → ℕ
ms_until_token tokens rate =
    let per_ms = rate * ticks_per_ms in (token - tokens + (per_ms - 1)) / per_ms

-- `-` stops at 0, as Math.max(0, …) does for the elapsed time.
unfoldable pub refilled : RateBucket → ℕ → ℕ → ℕ
refilled bucket rate now =
    min (capacity_for rate) (bucket.tokens + (now - bucket.last_refill_ms) * rate)

unfoldable pub consume_token : RateBucket → ℕ → ℕ → RateDecision
unfolding refilled ms_until_token
consume_token bucket rate now =
    let tokens = refilled bucket rate now in
    if leb token tokens
    then record {
      allowed = true;
      bucket = record { tokens = tokens - token; last_refill_ms = now };
      retry_after_ms = 0;
    }
    else record {
      allowed = false;
      bucket = record { tokens = tokens; last_refill_ms = now };
      retry_after_ms = ms (ms_until_token tokens rate);
    }
