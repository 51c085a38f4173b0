-- ===== src/Tests/Strokes.antt =====
-- A printing of numbers for the concrete runs, as strokes.
use Prim.Native.String.{count, ◌∷◌ as text_cons}
use text.Mathlib.TextLemmas.{length-cons, cons-ne-nil}
use anyhook.Base.{ℕ, zero, suc, ◌≡◌, refl, ap, sym, ◌∙◌, false, String, ◌==◌, eq_iff, arith}
use anyhook.Base.Text.{has_colon}
use anyhook.Cloudflare.Names.{IsDigits}

-- A number is printed as one more strokes.
unfoldable pub strokes : ℕ → String
strokes zero = "x"
strokes (suc n) = text_cons "x" (strokes n)

pub count-strokes : (n : ℕ) → count (strokes n) ≡ suc n
unfolding strokes
count-strokes zero = refl
count-strokes (suc n) = length-cons "x" (strokes n) ∙ ap suc (count-strokes n)

pub strokes-full : (n : ℕ) → (strokes n == "") ≡ false
unfolding strokes
strokes-full zero = refl
strokes-full (suc n) =
    ground (arith, eq_iff (text_cons "x" (strokes n)) "", cons-ne-nil "x" (strokes n))

strokes-has_colon : (n : ℕ) → has_colon (strokes n) ≡ false
unfolding strokes
strokes-has_colon zero = refl
strokes-has_colon (suc n) = ground (arith, strokes-has_colon n)

pub strokes-IsDigits : IsDigits strokes
strokes-IsDigits = record {
  no_colon = strokes-has_colon;
  injective = λ m n e. omega (arith, sym (count-strokes m) ∙ ap (λ s. count s) e ∙ count-strokes n);
}
