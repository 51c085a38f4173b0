-- ===== src/Policy/Circuit.antt =====
-- packages/core/src/policy/circuit.ts: the circuit breaker of one endpoint. Its runs are in the
-- module below.
pub mod Runs
use anyhook.Base.{ℕ, ◌+◌, Bool, true, false, Option, none, some, leb, if◌then◌else◌}
use anyhook.Types.{CircuitRecord, CircuitState, closed, opened, half_open, ms}

abbrev pub default_failure_threshold : ℕ
default_failure_threshold = 5

abbrev pub default_cooldown_ms : ℕ
default_cooldown_ms = ms 30000

unfoldable pub initial_circuit : ℕ → CircuitRecord
initial_circuit cooldown_ms = record {
  state = closed;
  consecutive_failures = 0;
  opened_at = none;
  cooldown_ms = cooldown_ms;
}

count_failure : CircuitRecord → ℕ → ℕ → CircuitRecord
count_failure rec now threshold =
    let consecutive_failures = rec.consecutive_failures + 1 in
    if leb threshold consecutive_failures
    then record rec {
      state = opened;
      consecutive_failures = consecutive_failures;
      opened_at = some now;
    }
    else record rec {
      state = closed;
      consecutive_failures = consecutive_failures;
      opened_at = none;
    }

unfoldable pub on_failure : CircuitRecord → ℕ → ℕ → CircuitRecord
unfolding count_failure
on_failure rec now threshold = elim rec.state [
  | half_open ↦ record rec {
    state = opened;
    consecutive_failures = rec.consecutive_failures + 1;
    opened_at = some now;
  }
  | closed ↦ count_failure rec now threshold
  | opened ↦ count_failure rec now threshold
]

unfoldable pub on_success : CircuitRecord → CircuitRecord
on_success rec = record rec { state = closed; consecutive_failures = 0; opened_at = none }

unfoldable pub to_half_open : CircuitRecord → CircuitRecord
to_half_open rec = record rec { state = half_open }

pub record Gate : Type 0 where
  pub allow : Bool
  pub probe : Bool

-- rec.openedAt ?? 0
abbrev pub opened_or_zero : Option ℕ → ℕ
opened_or_zero none = 0
opened_or_zero (some t) = t

-- `now - openedAt >= cooldownMs`, where the difference may be negative.
unfoldable pub can_attempt : CircuitRecord → ℕ → Gate
can_attempt rec now = elim rec.state [
  | closed ↦ record { allow = true; probe = false }
  | half_open ↦ record { allow = true; probe = true }
  | opened ↦
      if leb (opened_or_zero rec.opened_at + rec.cooldown_ms) now
      then record { allow = true; probe = true }
      else record { allow = false; probe = false }
]
