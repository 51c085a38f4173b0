-- ===== src/Security/Fields.antt =====
-- The fields of an IPv4 address as numerals, and their reading: parseIpField of
-- packages/core/src/security/url-policy.ts.
use Prim.Native.Char.{Char, code}
use Prim.Native.String.{◌∷◌, ◌++◌, count}
use native.Mathlib.Nat.{pow-zero, pow-suc}
use text.Mathlib.Text.{starts_with}
use text.Mathlib.TextEquality.{starts_with_iff}
use text.Mathlib.TextLemmas.{cons-append, nil-append, length-cons}
use anyhook.Base.{
  ℕ, ◌+◌, ◌*◌, ◌^◌, ◌≤◌, ◌<◌, ◌≡◌, refl, sym, ap, ◌∙◌, Bool, true, false, ◌||◌, Bool-cases, inl,
  inr, String, some, ◌==◌, arith,
}
use anyhook.Base.Text.{drop_chars}
use anyhook.Security.{
  parse_ip_field, value, digit, is_decimal, is_octal, is_hex, all_of, some_of, hex_form,
}

-- The character stands for the digit: 0 to 9, or the letters from a in either case for 10 and on.
pub data Stands (c : Char) (d : ℕ) : Type 0 where
  figure : d ≤ 9 → code c ≡ 48 + d → Stands c d
  lower : 10 ≤ d → code c ≡ 87 + d → Stands c d
  upper : 10 ≤ d → code c ≡ 55 + d → Stands c d

-- The text is a numeral of the number, in positional notation to the radix: a digit is worth itself times
-- the radix to the number of the digits after it.
abbrev pub Numeral : ℕ → String → ℕ → Type 0
Numeral radix String.[] n = n ≡ 0
Numeral radix (c ∷ s) n =
    (d : ℕ) × (rest : ℕ) × Stands c d
    × (d < radix)
    × Numeral radix s rest
    × (n ≡ d * radix ^ count s + rest)

-- A field of an address: decimal, which begins with no 0 unless it is 0; octal, after a 0; or hexadecimal,
-- after 0x or 0X.
pub data Field (s : String) (n : ℕ) : Type 0 where
  zero_ : s ≡ "0" → n ≡ 0 → Field s n
  decimal : starts_with s "0" ≡ false → (s == "") ≡ false → Numeral 10 s n → Field s n
  octal : (t : String) → s ≡ "0" ++ t → (t == "") ≡ false → Numeral 8 t n → Field s n
  hex_lower : (t : String) → s ≡ "0x" ++ t → (t == "") ≡ false → Numeral 16 t n → Field s n
  hex_upper : (t : String) → s ≡ "0X" ++ t → (t == "") ≡ false → Numeral 16 t n → Field s n

Stands-digit : (c : Char) (d : ℕ) → Stands c d → d < 16 → digit c ≡ d
Stands-digit c d (Stands.figure l e) h = rw e (ground (arith, l))
Stands-digit c d (Stands.lower l e) h = rw e (ground (arith, l, h))
Stands-digit c d (Stands.upper l e) h = rw e (ground (arith, l, h))

Stands-decimal : (c : Char) (d : ℕ) → Stands c d → d < 10 → is_decimal c ≡ true
Stands-decimal c d (Stands.figure l e) h = rw e (ground (arith, l))
Stands-decimal c d (Stands.lower l e) h = absurd (omega (arith, l, h))
Stands-decimal c d (Stands.upper l e) h = absurd (omega (arith, l, h))

Stands-octal : (c : Char) (d : ℕ) → Stands c d → d < 8 → is_octal c ≡ true
Stands-octal c d (Stands.figure l e) h = rw e (ground (arith, h))
Stands-octal c d (Stands.lower l e) h = absurd (omega (arith, l, h))
Stands-octal c d (Stands.upper l e) h = absurd (omega (arith, l, h))

Stands-hex : (c : Char) (d : ℕ) → Stands c d → d < 16 → is_hex c ≡ true
Stands-hex c d (Stands.figure l e) h = rw e (ground (arith, l))
Stands-hex c d (Stands.lower l e) h = rw e (ground (arith, l, h))
Stands-hex c d (Stands.upper l e) h = rw e (ground (arith, l, h))

module _ (radix : ℕ) (class : Char → Bool)
    (in_class : (c : Char) (d : ℕ) → Stands c d → d < radix → class c ≡ true) where
  Numeral-all : (s : String) (n : ℕ) → Numeral radix s n → all_of class s ≡ true
  Numeral-all String.[] n h = refl
  Numeral-all (c ∷ s) n (d, rest, c_lem, small, s_lem, e) =
      rw (in_class c d c_lem small) (Numeral-all s rest s_lem)

  Numeral-some :
      (s : String) (n : ℕ) → (s == "") ≡ false → Numeral radix s n → some_of class s ≡ true
  Numeral-some String.[] n h k = absurd (ground (arith, h))
  Numeral-some (c ∷ s) n h (d, rest, c_lem, small, s_lem, e) =
      rw (in_class c d c_lem small) (Numeral-all s rest s_lem)

shifted :
    (acc d radix p rest : ℕ) → (acc * radix + d) * p + rest ≡ acc * (p * radix) + (d * p + rest)
shifted acc d radix p rest = omega arith

Numeral-value :
    (radix : ℕ) (s : String) (n acc : ℕ)
    → radix ≤ 16
    → Numeral radix s n
    → value radix s acc ≡ acc * radix ^ count s + n
unfolding value
Numeral-value radix String.[] n acc h e = rw (e, pow-zero radix) (omega arith)
Numeral-value radix (c ∷ s) n acc h (d, rest, c_lem, small, s_lem, e) =
    rw (Stands-digit c d c_lem (omega (arith, h, small)), e, length-cons c s)
      (Numeral-value radix s rest (acc * radix + d) h s_lem
        ∙ rw (pow-suc radix (count s)) (shifted acc d radix (radix ^ count s) rest))

-- the code of the first character
abbrev first : String → ℕ
first String.[] = 0
first (c ∷ s) = code c

abbrev tail : String → String
tail String.[] = ""
tail (c ∷ s) = s

Numeral-first : (s : String) (n : ℕ) → Numeral 8 s n → first s ≤ 55
Numeral-first String.[] n h = omega arith
Numeral-first (c ∷ s) n (d, rest, Stands.figure l e, small, s_lem, e') = rw e (omega (arith, small))
Numeral-first (c ∷ s) n (d, rest, Stands.lower l e, small, s_lem, e') =
    absurd (omega (arith, l, small))
Numeral-first (c ∷ s) n (d, rest, Stands.upper l e, small, s_lem, e') =
    absurd (omega (arith, l, small))

begins_not : (s p : String) → ((r : String) → p ++ r ≡ s → ⊥) → starts_with s p ≡ false
begins_not s p h = elim (Bool-cases (starts_with s p)) [
  | inr e ↦ e
  | inl e ↦ let (r, q) = (starts_with_iff s p).0 e in absurd (h r q)
]

begins : (s p r : String) → s ≡ p ++ r → starts_with s p ≡ true
begins s p r e = (starts_with_iff s p).1 (r, sym e)

single : (c : Char) (r : String) → (c ∷ "") ++ r ≡ c ∷ r
single c r = rw (cons-append c "" r, nil-append r) refl

double : (c d : Char) (r : String) → (c ∷ (d ∷ "")) ++ r ≡ c ∷ (d ∷ r)
double c d r = rw (cons-append c (d ∷ "") r) (ap (λ s. c ∷ s) (single d r))

lacks_0x : (s : String) → starts_with s "0" ≡ false → hex_form s ≡ false
lacks_0x s h =
    rw
      (
        begins_not s "0x" λ r e. no ("x" ∷ r) (sym (double "0" "x" r) ∙ e),
        begins_not s "0X" λ r e. no ("X" ∷ r) (sym (double "0" "X" r) ∙ e),
      )
      refl
  where
    no : (r : String) → "0" ∷ r ≡ s → ⊥
    no r e = absurd (ground (arith, h, begins s "0" r (sym e ∙ sym (single "0" r))))

octal_lacks_0x : (t : String) (n : ℕ) → Numeral 8 t n → hex_form ("0" ++ t) ≡ false
octal_lacks_0x t n h =
    rw
      (
        begins_not ("0" ++ t) "0x" (no "x" (omega arith)),
        begins_not ("0" ++ t) "0X" (no "X" (omega arith)),
      )
      refl
  where
    no : (c : Char) → 55 < code c → (r : String) → ("0" ∷ (c ∷ "")) ++ r ≡ "0" ++ t → ⊥
    no c big r e =
        let e' : "0" ∷ (c ∷ r) ≡ "0" ∷ t = sym (double "0" c r) ∙ e ∙ single "0" t in
        let q : code c ≡ first t = ap (λ s. first (tail s)) e' in
        omega (arith, big, q, Numeral-first t n h)

hex-field :
    (s t : String) (n : ℕ)
    → (starts_with s "0x" || starts_with s "0X") ≡ true
    → drop_chars 2 s ≡ t
    → (t == "") ≡ false
    → Numeral 16 t n
    → parse_ip_field s ≡ some n
unfolding parse_ip_field
hex-field s t n begin e full h =
    rw (begin, e, Numeral-some 16 is_hex Stands-hex t n full h)
      (ap some (Numeral-value 16 t n 0 (omega arith) h ∙ omega arith))

dropped : (c d : Char) (t : String) → drop_chars 2 ((c ∷ (d ∷ "")) ++ t) ≡ t
unfolding drop_chars
dropped c d t = rw (double c d t) refl

-- A field is read as its number.
pub Field-parse_ip_field : (s : String) (n : ℕ) → Field s n → parse_ip_field s ≡ some n
unfolding parse_ip_field value drop_chars
Field-parse_ip_field s n (Field.zero_ e z) = rw (e, z) refl
Field-parse_ip_field s n (Field.decimal plain full h) =
    rw (lacks_0x s plain, plain, Numeral-some 10 is_decimal Stands-decimal s n full h)
      (ap some (Numeral-value 10 s n 0 (omega arith) h ∙ omega arith))
Field-parse_ip_field s n (Field.octal t e full h) =
    rw
      (
        e,
        octal_lacks_0x t n h,
        begins ("0" ++ t) "0" t refl,
        single "0" t,
        Numeral-some 8 is_octal Stands-octal t n full h,
      )
      (ap some (Numeral-value 8 t n 0 (omega arith) h ∙ omega arith))
Field-parse_ip_field s n (Field.hex_lower t e full h) =
    hex-field s t n (rw (begins s "0x" t e) refl) (ap (drop_chars 2) e ∙ dropped "0" "x" t) full h
Field-parse_ip_field s n (Field.hex_upper t e full h) =
    hex-field s t n (ground (arith, begins s "0X" t e)) (ap (drop_chars 2) e ∙ dropped "0" "X" t)
      full h
