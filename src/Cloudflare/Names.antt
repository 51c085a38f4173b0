-- ===== src/Cloudflare/Names.antt =====
-- packages/cloudflare/src/env.ts: the name of an endpoint's Durable Object. `show` prints a number; the
-- length of a text is that of its UTF-16 units.
use Prim.Native.Char.{Char, code}
use Prim.Native.String.{◌++◌, ◌∷◌}
use text.Mathlib.TextLemmas.{
  append_cancel_left, cons-append, nil-append, head-eq_of_cons-eq, tail-eq_of_cons-eq,
}
use anyhook.Base.{ℕ, ◌+◌, ltb, if◌then◌else◌, ◌≤◌, ◌≡◌, refl, sym, ap, ◌∙◌, false, String, arith}
use anyhook.Base.Text.{has_colon, before_colon, colon-append}

-- the UTF-16 units of a character
abbrev units : Char → ℕ
units c = if ltb 65535 (code c) then 2 else 1

-- tenant.length
abbrev pub length : String → ℕ
length String.[] = 0
length (c ∷ s) = units c + length s

units_positive : (c : Char) → 1 ≤ units c
units_positive c = ground arith

unfoldable pub endpoint_do_name : (ℕ → String) → String → String → String
endpoint_do_name show tenant endpoint_id =
    show (length tenant) ++ (":" ++ (tenant ++ (":" ++ endpoint_id)))

-- Texts of the same length in front of equal texts are equal.
append-inj : (s u x y : String) → length s ≡ length u → s ++ x ≡ u ++ y → (s ≡ u) × (x ≡ y)
append-inj String.[] String.[] x y h e = (refl, sym (nil-append x) ∙ e ∙ nil-append y)
append-inj String.[] (c ∷ u) x y h e = absurd (omega (arith, h, units_positive c))
append-inj (c ∷ s) String.[] x y h e = absurd (omega (arith, h, units_positive c))
append-inj (c ∷ s) (d ∷ u) x y h e =
    let cons-eq = sym (cons-append c s x) ∙ e ∙ cons-append d u y in
    let heads : c ≡ d = head-eq_of_cons-eq cons-eq in
    let width : units c ≡ units d = ap units heads in
    let (rest, tails) = append-inj s u x y (omega (arith, h, width)) (tail-eq_of_cons-eq cons-eq) in
    (cons_eq c d s u heads rest, tails)
  where
    cons_eq : (c d : Char) (s u : String) → c ≡ d → s ≡ u → (c ∷ s) ≡ (d ∷ u)
    cons_eq c d s u p q = λ i. p i ∷ q i

-- A printed number: it has no colon, and numbers that print the same are the same.
pub record IsDigits (show : ℕ → String) : Type 0 where
  pub no_colon : (n : ℕ) → has_colon (show n) ≡ false
  pub injective : (m n : ℕ) → show m ≡ show n → m ≡ n

-- Two objects have the same name only for the same tenant and the same endpoint, whatever colons the ids
-- have, if numbers print without a colon and no two print the same.
pub endpoint_do_name-inj :
    (show : ℕ → String)
    → IsDigits show
    → (t u e f : String) → endpoint_do_name show t e ≡ endpoint_do_name show u f
    → (t ≡ u) × (e ≡ f)
unfolding endpoint_do_name
endpoint_do_name-inj show d t u e f h =
    let digits =
      sym (colon-append (show (length t)) (t ++ (":" ++ e)) (d.no_colon (length t))).1
      ∙ ap before_colon h
      ∙ (colon-append (show (length u)) (u ++ (":" ++ f)) (d.no_colon (length u))).1 in
    let lengths = d.injective (length t) (length u) digits in
    let after_digits =
      append_cancel_left (show (length u)) (":" ++ (t ++ (":" ++ e))) (":" ++ (u ++ (":" ++ f)))
        (ap (λ s. s ++ (":" ++ (t ++ (":" ++ e)))) (sym digits) ∙ h) in
    let (same_tenant, rest) =
      append-inj t u (":" ++ e) (":" ++ f) lengths
        (append_cancel_left ":" (t ++ (":" ++ e)) (u ++ (":" ++ f)) after_digits) in
    (same_tenant, append_cancel_left ":" e f rest)
