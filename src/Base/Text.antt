-- ===== src/Base/Text.antt =====
-- String methods that the library does not have: `endsWith`, `slice(0, -1)`, `slice(0, n)`.
use mathlib.Core.Path.{◌≡◌, refl, ap, sym, ◌∙◌}
use mathlib.Core.Bool.{Bool, true, false, ◌||◌}
use mathlib.Core.Logic.{inl, inr}
use Prim.Native.Nat.{ℕ, zero, suc, ◌-◌}
use Prim.Native.Char.{Char}
use Prim.Native.String.{String, [], ◌∷◌, ◌++◌, count}
use native.Mathlib.Omega.{arith}
use text.Mathlib.TextEquality.{eq_iff}
use text.Mathlib.TextLemmas.{cons-append, nil-append, cons-ne-nil}
use text.Mathlib.TextLemmas.{append-ne-nil_of_right_ne-nil}
use anyhook.Base.Tests.{◌==◌, if◌then◌else◌, Bool-cases, ==_refl}

-- s.endsWith(t)
unfoldable pub ends_with : String → String → Bool
ends_with [] t = [] == t
ends_with (c ∷ s) t = ((c ∷ s) == t) || ends_with s t

-- s.slice(0, -1)
unfoldable pub drop_last : String → String
drop_last [] = []
drop_last (c ∷ s) = let rest = drop_last s in if s == "" then [] else c ∷ rest

-- s.slice(0, n)
unfoldable pub take_chars : ℕ → String → String
take_chars zero s = []
take_chars (suc n) [] = []
take_chars (suc n) (c ∷ s) = c ∷ take_chars n s

ends_with_self : (t : String) → ends_with t t ≡ true
unfolding ends_with
ends_with_self [] = ==_refl []
ends_with_self (c ∷ t) = rw (==_refl (c ∷ t)) refl

pub ends_with-append : (p t : String) → ends_with (p ++ t) t ≡ true
unfolding ends_with
ends_with-append [] t = rw (nil-append t) (ends_with_self t)
ends_with-append (c ∷ p) t = rw (cons-append c p t) (ground (arith, ends_with-append p t))

pub ends_with-inv : (s t : String) → ends_with s t ≡ true → (p : String) × (s ≡ p ++ t)
unfolding ends_with
ends_with-inv [] t h = ([], sym (nil-append t ∙ sym ((eq_iff [] t).0 h)))
ends_with-inv (c ∷ s) t h = elim (Bool-cases ((c ∷ s) == t)) [
  | inl e ↦ ([], (eq_iff (c ∷ s) t).0 e ∙ sym (nil-append t))
  | inr e ↦ extend (ends_with-inv s t (ground arith))
]
  where
    extend : (p : String) × (s ≡ p ++ t) → (p : String) × ((c ∷ s) ≡ p ++ t)
    extend (p, q) = (c ∷ p, ap (λ x. c ∷ x) q ∙ sym (cons-append c p t))

pub drop_last-append : (p : String) (c : Char) → drop_last (p ++ (c ∷ [])) ≡ p
unfolding drop_last
drop_last-append [] c = rw (nil-append (c ∷ [])) refl
drop_last-append (d ∷ p) c = rw (cons-append d p (c ∷ [])) (
    ground (
      arith,
      eq_iff (p ++ (c ∷ [])) "",
      append-ne-nil_of_right_ne-nil p (cons-ne-nil c []),
      drop_last-append p c,
    ))

-- s.slice(n)
unfoldable pub drop_chars : ℕ → String → String
drop_chars zero s = s
drop_chars (suc n) [] = []
drop_chars (suc n) (c ∷ s) = drop_chars n s

-- a colon in the text, and what comes before the first one
abbrev pub has_colon : String → Bool
has_colon [] = false
has_colon (c ∷ s) = let rest = has_colon s in if (c ∷ []) == ":" then true else rest

abbrev pub before_colon : String → String
before_colon [] = []
before_colon (c ∷ s) = let rest = before_colon s in if (c ∷ []) == ":" then [] else c ∷ rest

-- Text with no colon stands before the first one.
pub colon-append :
    (d rest : String)
    → has_colon d ≡ false
    → (has_colon (d ++ (":" ++ rest)) ≡ true) × (before_colon (d ++ (":" ++ rest)) ≡ d)
colon-append [] rest h = rw (nil-append (":" ++ rest), cons-append ":" "" rest) (refl, refl)
colon-append (c ∷ d) rest h = elim (Bool-cases ((c ∷ []) == ":")) [
  | inl e ↦ absurd (ground (arith, h, e))
  | inr e ↦
      let (found, before) = colon-append d rest (rw e at h) in
      rw (cons-append c d (":" ++ rest), e) (found, ap (λ s. c ∷ s) before)
]

abbrev pub pad_loop : ℕ → String → String
pad_loop zero s = s
pad_loop (suc n) s = "0" ++ pad_loop n s

-- s.padStart(n, '0')
abbrev pub pad_start : ℕ → String → String
pad_start n s = pad_loop (n - count s) s
