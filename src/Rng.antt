-- ===== src/Rng.antt =====
-- packages/testing/src/test-clock.ts: seededRng, a generator of 32-bit numbers whose draws are s / 2^32.
use anyhook.Base.{ℕ, ◌+◌, ◌*◌, ◌/◌, ◌%◌, ◌^◌, ◌<◌, arith, nat_eq, if◌then◌else◌}
use anyhook.Types.{ticks_per_ms}

abbrev two_32 : ℕ
two_32 = 4294967296

-- seed >>> 0 || 1
unfoldable pub seeded : ℕ → ℕ
seeded seed = if nat_eq (seed % two_32) 0 then 1 else seed % two_32

-- (Math.imul(s, 1664525) + 1013904223) >>> 0
unfoldable pub next_seed : ℕ → ℕ
next_seed s = (s * 1664525 + 1013904223) % two_32

-- The draw is s / 2^32 in units of 1 / ticks_per_ms.
unfoldable pub draw_of : ℕ → ℕ
draw_of s = s * (ticks_per_ms / two_32)

-- The generator never starts at 0, keeps to 32 bits, and every draw is below one.
pub seeded-draw_of :
    (seed s : ℕ)
    → (0 < seeded seed)
      × (seeded seed < 2 ^ 32)
      × (next_seed s < 2 ^ 32)
      × (draw_of (next_seed s) < ticks_per_ms)
unfolding seeded next_seed draw_of
seeded-draw_of seed s = (ground arith, ground arith, omega arith, omega arith)
