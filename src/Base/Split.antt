-- ===== src/Base/Split.antt =====
-- String.split at a one-character separator.
use Prim.Native.Char.{Char}
use Prim.Native.String.{String, [], ◌∷◌, ◌++◌}
use mathlib.Core.Bool.{Bool, true, false}
use mathlib.Core.List.{List, [] as nil, ◌∷◌ as cons}
use mathlib.Core.Logic.{inl, inr}
use mathlib.Core.Path.{◌≡◌, refl}
use native.Mathlib.Omega.{arith}
use text.Mathlib.TextLemmas.{cons-append, nil-append}
use anyhook.Base.Tests.{◌==◌, if◌then◌else◌, Bool-cases, ==_refl}

-- a character before the first part
abbrev pub onto_first : Char → List String → List String
onto_first c nil = cons (c ∷ []) nil
onto_first c (cons p parts) = cons (c ∷ p) parts

-- s.split(d)
unfoldable pub split : Char → String → List String
split d [] = cons [] nil
split d (c ∷ s) =
    let rest = split d s in if (c ∷ []) == (d ∷ []) then cons [] rest else onto_first c rest

-- s.includes(d)
unfoldable pub has_char : Char → String → Bool
has_char d [] = false
has_char d (c ∷ s) = let rest = has_char d s in if (c ∷ []) == (d ∷ []) then true else rest

pub split-lacks : (d : Char) (s : String) → has_char d s ≡ false → split d s ≡ cons s nil
unfolding split has_char
split-lacks d [] h = refl
split-lacks d (c ∷ s) h = elim (Bool-cases ((c ∷ []) == (d ∷ []))) [
  | inl e ↦ absurd (ground (arith, h, e))
  | inr e ↦ rw (e, split-lacks d s (rw e at h)) refl
]

-- What comes before the first separator is the first part.
pub split-append :
    (d : Char) (s t : String)
    → has_char d s ≡ false
    → split d (s ++ ((d ∷ []) ++ t)) ≡ cons s (split d t)
unfolding split has_char
split-append d [] t h = rw (nil-append, cons-append d [] t, nil-append, ==_refl (d ∷ [])) refl
split-append d (c ∷ s) t h = elim (Bool-cases ((c ∷ []) == (d ∷ []))) [
  | inl e ↦ absurd (ground (arith, h, e))
  | inr e ↦ rw (cons-append c s ((d ∷ []) ++ t), e, split-append d s t (rw e at h)) refl
]
