-- ===== src/Security.antt =====
-- packages/core/src/security/url-policy.ts: the numeric forms of a host. The regular expressions are
-- tests on the characters, with the `i` flag written out.
pub mod Policy
pub mod Ranges
pub mod Fields
use Prim.Native.Char.{Char, code}
use Prim.Native.String.{◌∷◌}
use text.Mathlib.Text.{starts_with}
use anyhook.Base.{
  ℕ, ◌+◌, ◌-◌, ◌*◌, ◌/◌, ◌%◌, ◌^◌, Bool, true, false, ◌&&◌, ◌||◌, String, Option, none, some, List,
  [], ◌∷◌ as cons, any, map, ltb, leb, nat_eq, ◌==◌, if◌then◌else◌,
}
use anyhook.Base.Split.{split}
use anyhook.Base.Text.{ends_with, drop_chars, drop_last}

abbrev between : ℕ → ℕ → ℕ → Bool
between low high n = leb low n && leb n high

-- [0-9], [0-7] and [0-9a-f] with the flag i
abbrev pub is_decimal : Char → Bool
is_decimal c = between 48 57 (code c)

abbrev pub is_octal : Char → Bool
is_octal c = between 48 55 (code c)

abbrev pub is_hex : Char → Bool
is_hex c = between 48 57 (code c) || between 97 102 (code c) || between 65 70 (code c)

abbrev pub digit : Char → ℕ
digit c =
    if leb (code c) 57 then code c - 48 else (if leb (code c) 70 then code c - 55 else code c - 87)

-- [class]* and [class]+, on a whole text
abbrev pub all_of : (Char → Bool) → String → Bool
all_of class String.[] = true
all_of class (c ∷ s) = class c && all_of class s

abbrev pub some_of : (Char → Bool) → String → Bool
some_of class String.[] = false
some_of class (c ∷ s) = class c && all_of class s

abbrev pub hex_form : String → Bool
hex_form s = (starts_with s "0x" || starts_with s "0X") && some_of is_hex (drop_chars 2 s)

abbrev pub octal_form : String → Bool
octal_form s = starts_with s "0" && some_of is_octal (drop_chars 1 s)

-- parseInt, on digits only
unfoldable pub value : ℕ → String → ℕ → ℕ
value radix String.[] n = n
value radix (c ∷ s) n = value radix s (n * radix + digit c)

unfoldable pub parse_ip_field : String → Option ℕ
unfolding value drop_chars
parse_ip_field s =
    if hex_form s
    then some (value 16 (drop_chars 2 s) 0)
    else if octal_form s
    then some (value 8 s 0)
    else if some_of is_decimal s
    then some (value 10 s 0)
    else none

pub record Octets : Type 0 where
  pub a : ℕ
  pub b : ℕ
  pub c : ℕ
  pub d : ℕ

-- octs.some((o) => o === null || o < 0 || o > 255)
unfoldable pub octet : Option ℕ → Option ℕ
octet none = none
octet (some n) = if ltb 255 n then none else some n

unfoldable pub four : Option ℕ → Option ℕ → Option ℕ → Option ℕ → Option Octets
four (some a) (some b) (some c) (some d) = some (record { a = a; b = b; c = c; d = d })
four _ _ _ _ = none

-- [(n >>> 24) & 255, (n >>> 16) & 255, (n >>> 8) & 255, n & 255]
unfoldable pub bytes_of : ℕ → Octets
bytes_of n = record { a = n / 2 ^ 24 % 256; b = n / 2 ^ 16 % 256; c = n / 2 ^ 8 % 256; d = n % 256 }

unfoldable pub one_number : Option ℕ → Option Octets
unfolding bytes_of
one_number none = none
one_number (some n) = if ltb 4294967295 n then none else some (bytes_of n)

unfoldable pub octets_of_parts : List String → Option Octets
unfolding parse_ip_field octet four one_number
octets_of_parts (cons p []) = one_number (parse_ip_field p)
octets_of_parts (cons p (cons q (cons r (cons s [])))) =
    four (octet (parse_ip_field p)) (octet (parse_ip_field q)) (octet (parse_ip_field r))
      (octet (parse_ip_field s))
octets_of_parts _ = none

unfoldable pub ipv4_to_octets : String → Option Octets
unfolding octets_of_parts
ipv4_to_octets host = octets_of_parts (split "." host)

abbrev all_parts : (String → Bool) → List String → Bool
all_parts p [] = true
all_parts p (cons s parts) = p s && all_parts p parts

abbrev any_char : (Char → Bool) → String → Bool
any_char p String.[] = false
any_char p (c ∷ s) = p c || any_char p s

unfoldable pub looks_numeric : String → Bool
unfolding drop_chars
looks_numeric host =
    any_char is_decimal host && all_parts (λ s. hex_form s || some_of is_decimal s) (split "." host)

unfoldable pub is_blocked_ipv4 : Octets → Bool
is_blocked_ipv4 o =
    nat_eq o.a 10
    || (nat_eq o.a 127
        || (nat_eq o.a 0
            || ((nat_eq o.a 169 && nat_eq o.b 254)
                || ((nat_eq o.a 172 && between 16 31 o.b)
                    || ((nat_eq o.a 192 && nat_eq o.b 168)
                        || ((nat_eq o.a 100 && between 64 127 o.b) || leb 224 o.a))))))

-- ::?0? at the end, after 0(:0)*
abbrev zeros_end : String → Bool
zeros_end s = (s == ":") || (s == "::") || (s == ":0") || (s == "::0")

abbrev zero_groups : String → Bool
zero_groups String.[] = false
zero_groups (c ∷ String.[]) = zeros_end (c ∷ "")
zero_groups (c ∷ (d ∷ s)) =
    let rest = zero_groups s in zeros_end (c ∷ (d ∷ s)) || (((c ∷ (d ∷ "")) == ":0") && rest)

-- \d{1,3} four times, with dots between
abbrev short_decimal : String → Bool
short_decimal s = some_of is_decimal s && (drop_chars 3 s == "")

abbrev is_dotted : List String → Bool
is_dotted (cons p (cons q (cons r (cons s [])))) =
    short_decimal p && short_decimal q && short_decimal r && short_decimal s
is_dotted _ = false

-- /::ffff:(…)$/.exec(h)
unfoldable pub mapped_ipv4 : String → Option String
unfolding drop_chars
mapped_ipv4 String.[] = none
mapped_ipv4 (c ∷ s) =
    let rest = mapped_ipv4 s in
    if starts_with (c ∷ s) "::ffff:" && is_dotted (split "." (drop_chars 7 (c ∷ s)))
    then some (drop_chars 7 (c ∷ s))
    else rest

-- `oct ? isBlockedIpv4(oct) : true`
unfoldable pub blocked_octets : Option Octets → Bool
unfolding is_blocked_ipv4
blocked_octets none = true
blocked_octets (some o) = is_blocked_ipv4 o

unfoldable pub blocked_mapped : Option String → Bool
unfolding blocked_octets ipv4_to_octets
blocked_mapped none = false
blocked_mapped (some embedded) = blocked_octets (ipv4_to_octets embedded)

abbrev without_brackets : String → String
without_brackets h = if starts_with h "[" && ends_with h "]" then drop_last (drop_chars 1 h) else h

unfoldable pub is_blocked_lower : String → Bool
unfolding mapped_ipv4 blocked_mapped drop_chars
is_blocked_lower h =
    ((h == "::1") || (h == "::"))
    || ((h == "0:0:0:0:0:0:0:1")
        || (((h == "0:0:0:0:0:0:0:0") || (starts_with h "0" && zero_groups (drop_chars 1 h)))
            || ((starts_with h "fe8"
                  || starts_with h "fe9"
                  || starts_with h "fea"
                  || starts_with h "feb")
                || ((starts_with h "fc" || starts_with h "fd") || blocked_mapped (mapped_ipv4 h)))))

unfoldable pub is_blocked_ipv6 : (String → String) → String → Bool
unfolding is_blocked_lower ends_with drop_last drop_chars
is_blocked_ipv6 to_lower raw = is_blocked_lower (without_brackets (to_lower raw))
