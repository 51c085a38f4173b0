-- ===== src/Signing/Verify/Parts.antt =====
-- The parts of a signed delivery, as verify of packages/signing/src/verify.ts takes them apart: the headers,
-- the timestamp, the entries of the signature and the secret.
use mathlib.Core.Option.{none-ne-some, some_inj}
use Prim.Native.String.{◌++◌ as text_append}
use text.Mathlib.Text.{starts_with}
use text.Mathlib.TextEquality.{starts_with_iff}
use anyhook.Base.{
  ◌∙◌, eq_iff, sym, subst, if◌then◌else◌, ◌⊎◌, ℕ, ◌+◌, ◌*◌, ◌≤◌, ◌≡◌, refl, ap, Bool, true, false,
  Bool-cases, inl, inr, String, Option, none, some, List, [], ◌∷◌, ◌++◌, any, ◌==◌, arith,
}
use anyhook.Base.Dict
use anyhook.Base.Dict.{Dict}
use anyhook.Engine.{or_default}
use anyhook.Signing.Verify.{Finite, too_far, digest_of, lowercase_loop, lowercase_headers}
use anyhook.Base.Text.{drop_chars}
use anyhook.Signing.{parse_secret, drop_prefix}
use anyhook.Types.{ticks_per_ms}

-- At most 300 seconds apart.
abbrev pub Near : ℕ → Finite → Type 0
Near now_seconds (Finite.plus n) =
    (now_seconds * ticks_per_ms ≤ n + 300 * ticks_per_ms) × (n ≤ (now_seconds + 300) * ticks_per_ms)
Near now_seconds (Finite.minus n) = now_seconds * ticks_per_ms + n ≤ 300 * ticks_per_ms

pub too_far-Near :
    (now_seconds : ℕ) (t : Finite) → too_far now_seconds t ≡ false → Near now_seconds t
unfolding too_far
too_far-Near now_seconds (Finite.plus n) h = (ground (arith, h), ground (arith, h))
too_far-Near now_seconds (Finite.minus n) h = ground (arith, h)

pub any-found :
    (p : String → Bool) (xs : List String)
    → any p xs ≡ true
    → (before : List String) × (x : String) × (rest : List String) × (xs ≡ before ++ x ∷ rest)
      × (p x ≡ true)
any-found p [] h = absurd (ground (arith, h))
any-found p (y ∷ xs) h = elim (Bool-cases (p y)) [
  | inl e ↦ ([], y, xs, refl, e)
  | inr e ↦ later (any-found p xs (ground (arith, h, e)))
]
  where
    later :
        ((before : List String) × (x : String) × (rest : List String) × (xs ≡ before ++ x ∷ rest)
          × (p x ≡ true))
        → (before : List String) × (x : String) × (rest : List String) × ((y ∷ xs)
            ≡ before ++ x ∷ rest)
          × (p x ≡ true)
    later (before, x, rest, e, m) = (y ∷ before, x, rest, ap (λ l. y ∷ l) e, m)

-- the text that is signed
abbrev pub signed_text : String → String → String → String
signed_text id timestamp raw_body =
    text_append id (text_append "." (text_append timestamp (text_append "." raw_body)))

-- the value of the last header of the name, in lower case, or what was found before
abbrev pub last_named : (String → String) → String → Dict String → Option String → Option String
last_named to_lower name [] found = found
last_named to_lower name ((key, value) ∷ headers) found =
    last_named to_lower name headers (if to_lower key == name then some value else found)

-- The last header whose name in lower case is the name, or the empty text.
abbrev pub header : (String → String) → Dict String → String → String
header to_lower headers name = or_default (last_named to_lower name headers none) ""

lowercase_loop-get :
    (to_lower : String → String) (name : String) (headers result : Dict String)
    → Dict.get name (lowercase_loop to_lower result headers)
      ≡ last_named to_lower name headers (Dict.get name result)
unfolding lowercase_loop
lowercase_loop-get to_lower name [] result = refl
lowercase_loop-get to_lower name ((key, value) ∷ headers) result =
    lowercase_loop-get to_lower name headers (Dict.set (to_lower key) value result)
    ∙ ap (last_named to_lower name headers) (Dict.get-set (to_lower key) name value result)

-- what the code looks up
abbrev pub looked : (String → String) → Dict String → String → String
looked to_lower headers name = or_default (Dict.get name (lowercase_headers to_lower headers)) ""

pub looked-header :
    (to_lower : String → String) (headers : Dict String) (name : String)
    → looked to_lower headers name ≡ header to_lower headers name
unfolding lowercase_headers Dict.get
looked-header to_lower headers name =
    ap (λ o. or_default o "") (lowercase_loop-get to_lower name headers [])

-- A digest is taken of an entry of the scheme v1, and is not empty.
pub digest_of_lem :
    (parts : List String) (digest : String)
    → digest_of parts ≡ some digest
    → (after : List String) × (parts ≡ "v1" ∷ (digest ∷ after)) × ((digest == "") ≡ false)
unfolding digest_of
digest_of_lem [] digest h = absurd (none-ne-some _ h)
digest_of_lem (scheme ∷ []) digest h = absurd (none-ne-some _ h)
digest_of_lem (scheme ∷ (d ∷ after)) digest h = elim (Bool-cases (scheme == "v1")) [
  | inr e ↦ absurd (none-ne-some _ (rw e at h))
  | inl e ↦ elim (Bool-cases (d == "")) [
    | inl empty ↦ absurd (none-ne-some _ (rw (e, empty) at h))
    | inr full ↦
        let same : d ≡ digest = some_inj.0 (rw (e, full) at h) in
        (after, rw ((eq_iff scheme "v1").0 e, same) refl, subst (λ x. (x == "") ≡ false) same full)
  ]
]

-- The key of a secret: what is after `whsec_`, or all of it.
pub parse_secret_lem :
    {B : Type 0} (from_base64 : String → B) (secret : String)
    → (body : String) × ((secret ≡ text_append "whsec_" body)
        ⊎ ((starts_with secret "whsec_" ≡ false) × (body ≡ secret)))
      × (parse_secret from_base64 secret ≡ from_base64 body)
unfolding parse_secret
parse_secret_lem from_base64 secret = elim (Bool-cases (starts_with secret "whsec_")) [
  | inr e ↦ (secret, inr (e, refl), rw e refl)
  | inl e ↦
      let (body, p) = (starts_with_iff secret "whsec_").0 e in
      (body, inl (sym p), rw e (ap from_base64 (ap (drop_chars 6) (sym p) ∙ drop_prefix body)))
]
