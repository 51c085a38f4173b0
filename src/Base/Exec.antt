-- ===== src/Base/Exec.antt =====
-- An async method: it acts on the world and returns, or throws. What was written before a throw
-- stays written, so the world comes back beside the error too.
use mathlib.Core.List.{List, [], ◌∷◌}
use Prim.Native.Nat.{ℕ}
use Prim.Native.String.{String}

-- What the code throws. `port_failed` is the rejection of a call that a port does not implement
-- in this repository, such as a queue outage; `out_of_fuel` is no error of the code but the end of
-- the rounds that a model of a loop was given.
pub data Error : Type 0 where
  type_required tenant_required payload_undefined no_handler : Error
  payload_too_large : ℕ → Error
  endpoint_not_found : String → Error
  max_rounds_exceeded : ℕ → Error
  port_failed : String → Error
  circuit_write_conflict : String → String → Error
  env_required : String → Error
  portal_http : ℕ → String → Error
  invalid_json : Error
  out_of_fuel : Error

pub data Result {ℓ} (A : Type ℓ) : Type ℓ where
  ok : A → Result A
  err : Error → Result A

abbrev pub Exec {ℓ} : Type ℓ → Type ℓ → Type ℓ
Exec W A = W → Result A × W

module _ {ℓ} {W A : Type ℓ} where
  abbrev pub pure : A → Exec W A
  pure a w = (ok a, w)

  abbrev pub throw : Error → Exec W A
  throw e w = (err e, w)

  abbrev pub gets : (W → A) → Exec W A
  gets f w = (ok (f w), w)

module _ {ℓ} {W A B : Type ℓ} where
  abbrev pub continue : Result A → (A → Exec W B) → Exec W B
  continue (ok a) f w = f a w
  continue (err e) f w = (err e, w)

  infixl 10 ◌>>=◌ ◌>>◌
  abbrev pub ◌>>=◌ : Exec W A → (A → Exec W B) → Exec W B
  ◌>>=◌ m f w = let (r, w') = m w in continue r f w'

  abbrev pub ◌>>◌ : Exec W A → Exec W B → Exec W B
  m >> n = m >>= λ _. n

-- A method that only writes.
abbrev pub modify : {W : Type 0} → (W → W) → Exec W (Unit {0})
modify f w = (ok tt, f w)

-- `for (const x of xs) await f(x)`
abbrev pub for_each : {W A : Type 0} → List A → (A → Exec W (Unit {0})) → Exec W (Unit {0})
for_each [] f = pure tt
for_each (x ∷ xs) f = do f x; for_each xs f

-- try { … } catch (e) { … }
abbrev pub caught {ℓ} : {W A : Type ℓ} → Result A → (Error → Exec W A) → Exec W A
caught (ok a) handler w = (ok a, w)
caught (err e) handler w = handler e w

abbrev pub catch_ {ℓ} : {W A : Type ℓ} → Exec W A → (Error → Exec W A) → Exec W A
catch_ m handler w = let (r, v) = m w in caught r handler v
