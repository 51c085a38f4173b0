-- ===== src/Fanout/Matching.antt =====
-- What a subscription matches, as a relation (packages/core/src/fanout.ts, subscribes).
use Prim.Native.Char.{Char}
use Prim.Native.String.{◌++◌}
use text.Mathlib.Text.{starts_with}
use text.Mathlib.TextEquality.{starts_with_iff}
use text.Mathlib.TextLemmas.{append_assoc}
use anyhook.Base.{
  true, ◌≡◌, ◌↔◌, ◌⊎◌, inl, inr, refl, String, List, [], ◌∷◌ as cons, any, ◌==◌, arith, eq_iff,
  Bool-cases, sym, ap, ◌∙◌, ==_refl,
}
use anyhook.Base.Text.{ends_with, drop_last, ends_with-append, ends_with-inv, drop_last-append}
use anyhook.Fanout.{pattern_matches, subscribes}
use anyhook.Types.{Endpoint}

-- `*` matches all, a pattern matches itself, and `p.*` matches what begins with `p.`.
pub data Matches (event_type : String) (pattern_text : String) : Type 0 where
  every : pattern_text ≡ "*" → Matches event_type pattern_text
  exact : pattern_text ≡ event_type → Matches event_type pattern_text
  under :
      (p rest : String)
      → pattern_text ≡ p ++ ".*"
      → event_type ≡ (p ++ ".") ++ rest
      → Matches event_type pattern_text

drop_star : (p : String) → drop_last (p ++ ".*") ≡ p ++ "."
drop_star p = ap drop_last (sym (append_assoc p "." "*")) ∙ drop_last-append (p ++ ".") b_star
  where
    b_star : Char
    b_star = "*"

under_sound :
    (t q : String) → ends_with q ".*" ≡ true → starts_with t (drop_last q) ≡ true → Matches t q
under_sound t q e h = named (ends_with-inv q ".*" e)
  where
    named : (p : String) × (q ≡ p ++ ".*") → Matches t q
    named (p, shape) =
        let (rest, split) = (starts_with_iff t (drop_last q)).0 h in
        under p rest shape (sym split ∙ ap (λ x. x ++ rest) (ap drop_last shape ∙ drop_star p))

pattern_matches_sound : (t q : String) → pattern_matches t q ≡ true → Matches t q
unfolding pattern_matches
pattern_matches_sound t q h = elim (Bool-cases (q == "*")) [
  | inl a ↦ every ((eq_iff q "*").0 a)
  | inr a ↦ elim (Bool-cases (q == t)) [
    | inl b ↦ exact ((eq_iff q t).0 b)
    | inr b ↦ elim (Bool-cases (ends_with q ".*")) [
      | inl c ↦ under_sound t q c (ground arith)
      | inr c ↦ absurd (ground arith)
    ]
  ]
]

starts_under :
    (t p rest : String) → t ≡ (p ++ ".") ++ rest → starts_with t (drop_last (p ++ ".*")) ≡ true
starts_under t p rest e =
    (starts_with_iff t (drop_last (p ++ ".*"))).1 (rest, rw (drop_star p) (sym e))

pattern_matches_complete : (t q : String) → Matches t q → pattern_matches t q ≡ true
unfolding pattern_matches
pattern_matches_complete t q (every e) = rw (e, ==_refl "*") refl
pattern_matches_complete t q (exact e) = ground (arith, eq_iff q t)
pattern_matches_complete t q (under p rest e f) =
    rw e (ground (arith, ends_with-append p ".*", starts_under t p rest f))

-- One of the list's elements has the property.
abbrev pub AnyOf {ℓ} : {A : Type ℓ} → (A → Type 0) → List A → Type 0
AnyOf P [] = ⊥
AnyOf P (cons x xs) = P x ⊎ AnyOf P xs

any_iff :
    (t : String) (qs : List String) → (any (pattern_matches t) qs ≡ true) ↔ AnyOf (Matches t) qs
any_iff t [] = (λ h. cc, λ h. absurd h)
any_iff t (cons q qs) = (
  λ h. elim (Bool-cases (pattern_matches t q)) [
    | inl e ↦ inl (pattern_matches_sound t q e)
    | inr e ↦ inr ((any_iff t qs).0 (rw e at h))
  ],
  λ h. elim h [
    | inl m ↦ rw (pattern_matches_complete t q m) refl
    | inr r ↦ ground (arith, (any_iff t qs).1 r)
  ],
)

-- An endpoint subscribes to an event type exactly when one of its patterns matches it: the pattern is
-- `*`, or is the type, or is `p.*` for a type that begins with `p.`.
pub subscribes_iff :
    (e : Endpoint) (t : String) → (subscribes e t ≡ true) ↔ AnyOf (Matches t) e.event_types
unfolding subscribes
subscribes_iff e t = any_iff t e.event_types
