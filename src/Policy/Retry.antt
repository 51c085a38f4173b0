-- ===== src/Policy/Retry.antt =====
-- packages/core/src/policy/retry.ts and jitter.ts. The Rng port is an action on the world that
-- gives a number of ticks below `ticks_per_ms`, for a fraction in [0, 1).
use anyhook.Base.{
  ℕ, ◌*◌, ◌/◌, ◌≤◌, ◌<◌, ◌≡◌, refl, min, Option, none, some, List, [], ◌∷◌, arith, leb, length,
  get_or, if◌then◌else◌, false, Bool-cases, ◌⊎◌, inl, inr, leb→le, leb→gt,
}
use anyhook.Base.Exec.{Exec, ok, pure, ◌>>=◌}
use anyhook.Types.{RetryConfig, ticks_per_ms, ms}

abbrev pub default_schedule_ms : List ℕ
default_schedule_ms =
    ms 5000
    ∷ ms 30000
    ∷ ms 120000
    ∷ ms 600000
    ∷ ms 1800000
    ∷ ms 3600000
    ∷ ms 10800000
    ∷ ms 21600000
    ∷ []

abbrev pub retry_after_cap_ms : ℕ
retry_after_cap_ms = ms 21600000

abbrev pub default_retry_config : RetryConfig
default_retry_config = record { schedule_ms = default_schedule_ms }

-- baseMs * rng.next(), for the drawn number
unfoldable pub jittered : ℕ → ℕ → ℕ
jittered base_ms draw = base_ms * draw / ticks_per_ms

module _ {W : Type 0} (rng : Exec W ℕ) where
  unfoldable pub full_jitter : ℕ → Exec W ℕ
  full_jitter base_ms = do draw ← rng; pure (jittered base_ms draw)

  unfoldable pub next_delay_ms : RetryConfig → ℕ → Option ℕ → Exec W (Option ℕ)
  unfolding full_jitter
  next_delay_ms cfg attempt_no retry_after_ms =
      if leb (length cfg.schedule_ms) attempt_no then pure none else elim retry_after_ms [
        | some after ↦ pure (some (min after retry_after_cap_ms))
        | none ↦ do delay ← full_jitter (get_or cfg.schedule_ms attempt_no 0); pure (some delay)
      ]

-- A draw below one keeps the delay within its base.
pub jittered-le : (base draw : ℕ) → draw < ticks_per_ms → jittered base draw ≤ base
unfolding jittered
jittered-le base draw h =
    let scaled : base * draw ≤ base * ticks_per_ms = grind arith in omega arith

-- The most that a delay can be: the capped `Retry-After`, or the schedule's step.
abbrev pub delay_bound : RetryConfig → ℕ → Option ℕ → ℕ
delay_bound cfg n none = get_or cfg.schedule_ms n 0
delay_bound cfg n (some after) = min after retry_after_cap_ms

-- Past the schedule there is no delay, and no draw is made. Within it there is one, of at most the
-- receiver's capped Retry-After where there is one, else of the schedule's step, given that every
-- draw is below one.
pub next_delay_ms_cases :
    {W : Type 0} (rng : Exec W ℕ) (cfg : RetryConfig) (n : ℕ) (after : Option ℕ) (w : W)
    → ((v : W) → (d : ℕ) × (v' : W) × (rng v ≡ (ok d, v')) × (d < ticks_per_ms))
    → ((length cfg.schedule_ms ≤ n) × (next_delay_ms rng cfg n after w ≡ (ok none, w)))
      ⊎ ((n < length cfg.schedule_ms)
          × (d : ℕ) × (w' : W) × (next_delay_ms rng cfg n after w ≡ (ok (some d), w'))
          × (d ≤ delay_bound cfg n after))
unfolding next_delay_ms
next_delay_ms_cases {W} rng cfg n after w draws =
    elim (Bool-cases (leb (length cfg.schedule_ms) n)) [
      | inl e ↦ inl (leb→le _ _ e, rw e refl)
      | inr e ↦ inr (within after e (draws w))
    ]
  where
    within :
        (after : Option ℕ)
        → leb (length cfg.schedule_ms) n ≡ false
        → (d : ℕ) × (v' : W) × (rng w ≡ (ok d, v')) × (d < ticks_per_ms)
        → (n < length cfg.schedule_ms)
          × (d : ℕ) × (w' : W) × (next_delay_ms rng cfg n after w ≡ (ok (some d), w'))
          × (d ≤ delay_bound cfg n after)
    within none e (d, v', h, lt) = (
      leb→gt _ _ e,
      jittered (get_or cfg.schedule_ms n 0) d,
      v',
      rw e (rw h refl),
      jittered-le _ d lt,
    )
    within (some a) e h = (leb→gt _ _ e, min a retry_after_cap_ms, w, rw e refl, omega arith)
