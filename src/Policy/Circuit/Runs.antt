-- ===== src/Policy/Circuit/Runs.antt =====
-- The circuit breaker over time: the histories that the engine can produce
-- (packages/core/src/policy/circuit.ts).
use anyhook.Base.{
  ℕ, ◌+◌, ◌≤◌, ◌<◌, ◌≡◌, refl, ◌∙◌, ◌↔◌, ◌≢◌, true, false, Option, none, some, List, [], ◌∷◌, arith,
  length,
}
use anyhook.Types.{CircuitRecord, CircuitState, closed, opened, half_open}
use anyhook.Policy.Circuit.{initial_circuit, on_failure, on_success, to_half_open, can_attempt}

-- What each state says of the other fields, for a threshold of at least 1.
abbrev pub StateFits : ℕ → CircuitState → ℕ → Option ℕ → Type 0
StateFits threshold closed failures at = (failures < threshold) × (at ≡ none)
StateFits threshold opened failures at = (threshold ≤ failures) × ((t : ℕ) × (at ≡ some t))
StateFits threshold half_open failures at = (threshold ≤ failures) × ((t : ℕ) × (at ≡ some t))

abbrev pub IsCircuit : ℕ → CircuitRecord → Type 0
IsCircuit threshold rec = StateFits threshold rec.state rec.consecutive_failures rec.opened_at

-- What can happen to a circuit: an allowed probe, a failure or a success after an allowed attempt.
pub data Step (threshold : ℕ) (c : CircuitRecord) : CircuitRecord → Type 0 where
  probe : (now : ℕ) → (can_attempt c now).probe ≡ true → Step threshold c (to_half_open c)
  fail : (now : ℕ) → Step threshold c (on_failure c now threshold)
  succeed : Step threshold c (on_success c)

pub data Reach (threshold : ℕ) (c : CircuitRecord) : CircuitRecord → Type 0 where
  here : Reach threshold c c
  next : {d e : CircuitRecord} → Reach threshold c d → Step threshold d e → Reach threshold c e

module _ (threshold now : ℕ) (c : CircuitRecord) where
  failed_state :
      (s : CircuitState)
      → c.state ≡ s
      → IsCircuit threshold c
      → IsCircuit threshold (on_failure c now threshold)
  unfolding on_failure
  failed_state closed e h = ground arith
  failed_state opened e h = ground arith
  failed_state half_open e h = ground arith

  probed_state :
      (s : CircuitState)
      → c.state ≡ s
      → (can_attempt c now).probe ≡ true
      → IsCircuit threshold c
      → IsCircuit threshold (to_half_open c)
  unfolding can_attempt to_half_open
  probed_state closed e h v = ground arith
  probed_state opened e h v = ground arith
  probed_state half_open e h v = ground arith

Step-IsCircuit :
    (threshold : ℕ) {c d : CircuitRecord}
    → 0 < threshold
    → Step threshold c d
    → IsCircuit threshold c
    → IsCircuit threshold d
unfolding on_success
Step-IsCircuit threshold {c} pos (probe now h) v = probed_state threshold now c c.state refl h v
Step-IsCircuit threshold {c} pos (fail now) v = failed_state threshold now c c.state refl v
Step-IsCircuit threshold pos succeed v = (pos, refl)

Step-cooldown :
    (threshold : ℕ) {c d : CircuitRecord} → Step threshold c d → d.cooldown_ms ≡ c.cooldown_ms
unfolding on_failure on_success to_half_open
Step-cooldown threshold (probe now h) = refl
Step-cooldown threshold (fail now) = ground arith
Step-cooldown threshold succeed = refl

-- With a threshold of at least 1, in every history of a fresh circuit: a closed one has fewer
-- failures in a row than the threshold and no opening time, an opened or half-open one has at least
-- as many and an opening time, and the cooldown never changes.
pub Reach-IsCircuit :
    (threshold cooldown : ℕ) {c : CircuitRecord}
    → 0 < threshold
    → Reach threshold (initial_circuit cooldown) c
    → IsCircuit threshold c × (c.cooldown_ms ≡ cooldown)
unfolding initial_circuit
Reach-IsCircuit threshold cooldown pos here = ((pos, refl), refl)
Reach-IsCircuit threshold cooldown pos (next r s) =
    let (v, e) = Reach-IsCircuit threshold cooldown pos r in
    (Step-IsCircuit threshold pos s v, Step-cooldown threshold s ∙ e)

-- In such a circuit an attempt is refused exactly when the circuit opened less than a cooldown ago,
-- and it is a probe exactly when it is allowed and the circuit is not closed.
pub can_attempt_iff :
    (threshold : ℕ) (c : CircuitRecord) (now : ℕ)
    → IsCircuit threshold c
    → (((can_attempt c now).allow ≡ false)
        ↔ ((c.state ≡ opened) × (t : ℕ) × (c.opened_at ≡ some t) × (now < t + c.cooldown_ms)))
      × (((can_attempt c now).probe ≡ true)
          ↔ (((can_attempt c now).allow ≡ true) × (c.state ≢ closed)))
unfolding can_attempt
can_attempt_iff threshold c now v = gate c.state refl
  where
    gate :
        (s : CircuitState)
        → c.state ≡ s
        → (((can_attempt c now).allow ≡ false)
            ↔ ((c.state ≡ opened) × (t : ℕ) × (c.opened_at ≡ some t) × (now < t + c.cooldown_ms)))
          × (((can_attempt c now).probe ≡ true)
              ↔ (((can_attempt c now).allow ≡ true) × (c.state ≢ closed)))
    gate closed e = ((λ h. ground arith, λ h. ground arith), (λ h. ground arith, λ h. ground arith))
    gate opened e = ((λ h. ground arith, λ h. ground arith), (λ h. ground arith, λ h. ground arith))
    gate half_open e =
        ((λ h. ground arith, λ h. ground arith), (λ h. ground arith, λ h. ground arith))

-- Failures at the given times, one after the other.
pub fail_all : ℕ → List ℕ → CircuitRecord → CircuitRecord
fail_all threshold [] c = c
fail_all threshold (now ∷ times) c = fail_all threshold times (on_failure c now threshold)

on_failure_counts :
    (threshold now : ℕ) (c : CircuitRecord)
    → c.state ≢ half_open
    → let d = on_failure c now threshold in
      (d.consecutive_failures ≡ c.consecutive_failures + 1)
      × (d.state ≢ half_open)
      × ((d.state ≡ opened) ↔ (threshold ≤ c.consecutive_failures + 1))
unfolding on_failure
on_failure_counts threshold now c h = count c.state refl
  where
    count :
        (s : CircuitState)
        → c.state ≡ s
        → let d = on_failure c now threshold in
          (d.consecutive_failures ≡ c.consecutive_failures + 1)
          × (d.state ≢ half_open)
          × ((d.state ≡ opened) ↔ (threshold ≤ c.consecutive_failures + 1))
    count closed e = (ground arith, λ k. ground arith, (λ k. ground arith, λ k. ground arith))
    count opened e = (ground arith, λ k. ground arith, (λ k. ground arith, λ k. ground arith))
    count half_open e = absurd (h e)

-- A circuit that is not half-open counts each failure of a run of failures, and after a run that is
-- not empty it is opened exactly when the count has reached the threshold.
pub fail_all_opens :
    (threshold now : ℕ) (times : List ℕ) (c : CircuitRecord)
    → c.state ≢ half_open
    → let d = fail_all threshold (now ∷ times) c in
      (d.consecutive_failures ≡ c.consecutive_failures + length (now ∷ times))
      × ((d.state ≡ opened) ↔ (threshold ≤ c.consecutive_failures + length (now ∷ times)))
unfolding fail_all
fail_all_opens threshold now [] c h =
    let (n, s, o) = on_failure_counts threshold now c h in (omega arith, o)
fail_all_opens threshold now (later ∷ times) c h =
    let (n, s, o) = on_failure_counts threshold now c h in
    let (m, p) = fail_all_opens threshold later times (on_failure c now threshold) s in
    (omega arith, (λ e. omega (arith, p.0 e), λ e. p.1 (omega arith)))
