-- ===== src/Signing/Verify/Entries.antt =====
-- The entries of a signature header, joined and split: packages/signing/src/sign.ts and verify.ts.
use Prim.Native.String.{◌++◌ as text_append, ◌∷◌ as text_cons}
use Prim.Native.Char.{Char}
use text.Mathlib.TextLemmas.{cons-append, cons-ne-nil, append-ne-nil_of_right_ne-nil}
use anyhook.Base.{
  ◌≢◌, ℕ, ◌+◌, ◌*◌, ◌≤◌, ◌≡◌, ap, ◌∙◌, Bool, true, false, String, List, [], ◌∷◌, ◌++◌, map, any,
  All, ◌==◌, eq_iff, arith,
}
use anyhook.Base.Split.{split, has_char, split-lacks, split-append}
use anyhook.Signing.{join}
use anyhook.Signing.Verify.{Finite, too_far}
use anyhook.Types.{ticks_per_ms}

pub cons-full : (c : Char) (s : String) → ((text_cons c s) == "") ≡ false
cons-full c s = ground (arith, eq_iff (text_cons c s) "", cons-ne-nil c s)

pub join-full :
    (s : String) (rest : List String) → (s == "") ≡ false → (join (s ∷ rest) == "") ≡ false
unfolding join
join-full s [] h = h
join-full s (t ∷ ts) h = ground (
  arith,
  eq_iff (text_append s (text_append " " (join (t ∷ ts)))) "",
  append-ne-nil_of_right_ne-nil s (append-ne-nil " " (join (t ∷ ts))),
)
  where
    append-ne-nil : (x : Char) (y : String) → text_append (text_cons x "") y ≢ ""
    append-ne-nil x y = rw (cons-append x "" y) (cons-ne-nil x _)

-- a text that joins with spaces
pub record IsEntry (s : String) : Type 0 where
  pub no_space : has_char " " s ≡ false
  pub full : (s == "") ≡ false

pub split-join :
    (s : String) (rest : List String)
    → All IsEntry (s ∷ rest)
    → split " " (join (s ∷ rest)) ≡ s ∷ rest
unfolding join
split-join s [] h = split-lacks " " s h.0.no_space
split-join s (t ∷ ts) h =
    split-append " " s (join (t ∷ ts)) h.0.no_space ∙ ap (λ l. s ∷ l) (split-join t ts h.1)

pub within-too_far :
    (n t : ℕ) → n ≤ t + 300 → t ≤ n + 300 → too_far n (Finite.plus (t * ticks_per_ms)) ≡ false
unfolding too_far
within-too_far n t early late = ground (arith, early, late)

pub split-join-at :
    {A : Type 0} (f : A → String) (before : List A) (x : A) (rest : List A)
    → All IsEntry (map f (before ++ x ∷ rest))
    → split " " (join (map f (before ++ x ∷ rest))) ≡ map f (before ++ x ∷ rest)
split-join-at f [] x rest h = split-join (f x) (map f rest) h
split-join-at f (b ∷ before) x rest h = split-join (f b) (map f (before ++ x ∷ rest)) h

pub any_at :
    {A B : Type 0} (p : B → Bool) (f : A → B) (before : List A) (x : A) (rest : List A)
    → p (f x) ≡ true
    → any p (map f (before ++ x ∷ rest)) ≡ true
any_at p f [] x rest h = ground (arith, h)
any_at p f (b ∷ before) x rest h = ground (arith, any_at p f before x rest h)
