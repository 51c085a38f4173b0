-- ===== src/Policy/RateLimit/Throughput.antt =====
-- The token bucket over a series of checks (packages/core/src/policy/ratelimit.ts).
use anyhook.Base.{ℕ, ◌+◌, ◌-◌, ◌*◌, ◌≤◌, ◌≡◌, refl, List, [], ◌∷◌, arith, if◌then◌else◌}
use anyhook.Types.{RateBucket}
use anyhook.Policy.RateLimit.{token, capacity_for, consume_token}

-- The number of deliveries that checks at the given times allow, and the bucket that they leave.
pub allowed_count : ℕ → List ℕ → RateBucket → ℕ
allowed_count rate [] b = 0
allowed_count rate (now ∷ times) b =
    let d = consume_token b rate now in
    (if d.allowed then 1 else 0) + allowed_count rate times d.bucket

-- The times do not fall, from `start` on.
abbrev pub Rises : ℕ → List ℕ → Type 0
Rises start [] = Unit {0}
Rises start (now ∷ times) = (start ≤ now) × Rises now times

abbrev pub last_time : ℕ → List ℕ → ℕ
last_time start [] = start
last_time start (now ∷ times) = last_time now times

consume_token_spends :
    (b : RateBucket) (rate start now : ℕ)
    → b.last_refill_ms ≡ start
    → let d = consume_token b rate now in
      ((if d.allowed then 1 else 0) * token + d.bucket.tokens ≤ b.tokens + (now - start) * rate)
      × (d.bucket.tokens ≤ capacity_for rate)
      × (d.bucket.last_refill_ms ≡ now)
unfolding consume_token
consume_token_spends b rate start now e = ground arith

last_time-ge : (start : ℕ) (times : List ℕ) → Rises start times → start ≤ last_time start times
last_time-ge start [] h = omega arith
last_time-ge start (now ∷ times) h = omega (arith, last_time-ge now times h.1)

spans : (a b c rate : ℕ) → a ≤ b → b ≤ c → (b - a) * rate + (c - b) * rate ≡ (c - a) * rate
spans a b c rate h k = let e : c - a ≡ (b - a) + (c - b) = omega arith in rw e (omega arith)

allowed_from :
    (rate start : ℕ) (times : List ℕ) (b : RateBucket)
    → b.last_refill_ms ≡ start
    → Rises start times
    → allowed_count rate times b * token ≤ b.tokens + (last_time start times - start) * rate
unfolding allowed_count
allowed_from rate start [] b e h = omega arith
allowed_from rate start (now ∷ times) b e h =
    let d = consume_token b rate now in
    let (spent, within, at) = consume_token_spends b rate start now e in
    omega (
      arith,
      allowed_from rate now times d.bucket at h.1,
      spent,
      spans start now (last_time now times) rate h.0 (last_time-ge now times h.1),
    )

-- Over checks at times that do not fall, the deliveries allowed never exceed the tokens at the start
-- and what the rate gives for the time that passes.
pub allowed_count-le :
    (rate : ℕ) (times : List ℕ) (b : RateBucket)
    → Rises b.last_refill_ms times
    → allowed_count rate times b * token
      ≤ b.tokens + (last_time b.last_refill_ms times - b.last_refill_ms) * rate
allowed_count-le rate times b h = allowed_from rate b.last_refill_ms times b refl h
