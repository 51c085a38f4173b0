-- ===== src/Security/Ranges.antt =====
-- The address ranges that the default URL policy refuses (packages/core/src/security/url-policy.ts).
use Prim.Native.String.{◌++◌, ◌++◌ as text_append}
use anyhook.Base.{
  ℕ, ◌+◌, ◌*◌, ◌/◌, ◌%◌, ◌≤◌, ◌≡◌, refl, ap, Bool, true, false, ◌||◌, ◌&&◌, String, Option, some,
  [], ◌∷◌, ltb, ◌==◌, if◌then◌else◌, arith,
}
use anyhook.Base.Text.{ends_with}
use anyhook.Engine.{or_default}
use anyhook.Base.Split.{split, has_char, split-lacks, split-append}
use anyhook.Ports.{UrlVerdict}
use anyhook.Security.{
  Octets, octet, four, bytes_of, one_number, octets_of_parts, ipv4_to_octets, is_blocked_ipv4,
}
use anyhook.Security.Fields.{Field, Field-parse_ip_field}
use anyhook.Security.Policy.{
  UrlPolicyOptions, Parsed, check, check_parsed, check_host, check_literal, refuse, is_denied,
  without_colon,
}

pub record IsOctets (o : Octets) : Type 0 where
  pub a : o.a ≤ 255
  pub b : o.b ≤ 255
  pub c : o.c ≤ 255
  pub d : o.d ≤ 255

-- The ways to write an address: four fields with dots between them, or one number; a field is decimal,
-- octal or hexadecimal.
pub data Encodes (host : String) (o : Octets) : Type 0 where
  dotted :
      (p q r s : String)
      → host ≡ p ++ ("." ++ (q ++ ("." ++ (r ++ ("." ++ s)))))
      → (has_char "." p ≡ false)
        × (has_char "." q ≡ false)
        × (has_char "." r ≡ false)
        × (has_char "." s ≡ false)
      → Field p o.a × Field q o.b × Field r o.c × Field s o.d
      → Encodes host o
  number :
      has_char "." host ≡ false
      → Field host (o.a * 16777216 + o.b * 65536 + o.c * 256 + o.d)
      → Encodes host o

-- Private, loopback, link-local and reserved addresses.
pub data IsPrivate (o : Octets) : Type 0 where
  this_network : o.a ≡ 0 → IsPrivate o
  ten : o.a ≡ 10 → IsPrivate o
  loopback : o.a ≡ 127 → IsPrivate o
  link_local : o.a ≡ 169 → o.b ≡ 254 → IsPrivate o
  twenty_bit : o.a ≡ 172 → 16 ≤ o.b → o.b ≤ 31 → IsPrivate o
  sixteen_bit : o.a ≡ 192 → o.b ≡ 168 → IsPrivate o
  carrier_nat : o.a ≡ 100 → 64 ≤ o.b → o.b ≤ 127 → IsPrivate o
  multicast_or_reserved : 224 ≤ o.a → IsPrivate o

IsPrivate-blocked : (o : Octets) → IsPrivate o → is_blocked_ipv4 o ≡ true
unfolding is_blocked_ipv4
IsPrivate-blocked o (this_network e) = rw e refl
IsPrivate-blocked o (ten e) = rw e refl
IsPrivate-blocked o (loopback e) = rw e refl
IsPrivate-blocked o (link_local e f) = rw (e, f) refl
IsPrivate-blocked o (twenty_bit e l h) = rw e (ground (arith, l, h))
IsPrivate-blocked o (sixteen_bit e f) = rw (e, f) refl
IsPrivate-blocked o (carrier_nat e l h) = rw e (ground (arith, l, h))
IsPrivate-blocked o (multicast_or_reserved l) = ground (arith, l)

octet-some : (n : ℕ) → n ≤ 255 → octet (some n) ≡ some n
unfolding octet
octet-some n h = ground (arith, h)

number-octets :
    (o : Octets)
    → IsOctets o
    → one_number (some (o.a * 16777216 + o.b * 65536 + o.c * 256 + o.d)) ≡ some o
unfolding one_number bytes_of
number-octets o i =
    rw (gt→ltb 4294967295 (o.a * 16777216 + o.b * 65536 + o.c * 256 + o.d) (small o i))
      (ap some (bytes o i))
  where
    small : (o : Octets) → IsOctets o → o.a * 16777216 + o.b * 65536 + o.c * 256 + o.d ≤ 4294967295
    small o i = omega (arith, i.a, i.b, i.c, i.d)

    gt→ltb : (m n : ℕ) → n ≤ m → ltb m n ≡ false
    gt→ltb m n h = ground (arith, h)

    ea :
        (o : Octets)
        → IsOctets o
        → (o.a * 16777216 + o.b * 65536 + o.c * 256 + o.d) / 16777216 % 256 ≡ o.a
    ea o i = omega (arith, i.a, i.b, i.c, i.d)

    eb :
        (o : Octets)
        → IsOctets o
        → (o.a * 16777216 + o.b * 65536 + o.c * 256 + o.d) / 65536 % 256 ≡ o.b
    eb o i = omega (arith, i.a, i.b, i.c, i.d)

    ec :
        (o : Octets)
        → IsOctets o
        → (o.a * 16777216 + o.b * 65536 + o.c * 256 + o.d) / 256 % 256 ≡ o.c
    ec o i = omega (arith, i.a, i.b, i.c, i.d)

    ed : (o : Octets) → IsOctets o → (o.a * 16777216 + o.b * 65536 + o.c * 256 + o.d) % 256 ≡ o.d
    ed o i = omega (arith, i.a, i.b, i.c, i.d)

    bytes :
        (o : Octets) → IsOctets o → bytes_of (o.a * 16777216 + o.b * 65536 + o.c * 256 + o.d) ≡ o
    bytes o i = λ j. record { a = ea o i j; b = eb o i j; c = ec o i j; d = ed o i j }

parts :
    (p q r s : String)
    → (has_char "." p ≡ false)
      × (has_char "." q ≡ false)
      × (has_char "." r ≡ false)
      × (has_char "." s ≡ false)
    → split "." (p ++ ("." ++ (q ++ ("." ++ (r ++ ("." ++ s)))))) ≡ p ∷ (q ∷ (r ∷ (s ∷ [])))
parts p q r s (hp, hq, hr, hs) =
    rw
      (
        split-append "." p (q ++ ("." ++ (r ++ ("." ++ s)))) hp,
        split-append "." q (r ++ ("." ++ s)) hq,
        split-append "." r s hr,
        split-lacks "." s hs,
      )
      refl

Encodes-octets :
    (host : String) (o : Octets) → IsOctets o → Encodes host o → ipv4_to_octets host ≡ some o
unfolding ipv4_to_octets octets_of_parts four
Encodes-octets host o i (dotted p q r s e lacks (ep, eq, er, es)) =
    rw
      (
        e,
        parts p q r s lacks,
        Field-parse_ip_field p o.a ep,
        Field-parse_ip_field q o.b eq,
        Field-parse_ip_field r o.c er,
        Field-parse_ip_field s o.d es,
        octet-some o.a i.a,
        octet-some o.b i.b,
        octet-some o.c i.c,
        octet-some o.d i.d,
      )
      refl
Encodes-octets host o i (number lacks e) =
    rw (split-lacks "." host lacks, Field-parse_ip_field host _ e) (number-octets o i)

record Refused (v : UrlVerdict) : Type 0 where
  at : v.allowed ≡ false

Refused-else :
    (b : Bool) (reason : String) (v : UrlVerdict)
    → Refused v
    → Refused (if b then refuse reason else v)
Refused-else true reason v h = record { at = refl }
Refused-else false reason v h = h

Refused-unless :
    (b : Bool) (reason : String) (v : UrlVerdict)
    → Refused v
    → Refused (if b then v else refuse reason)
Refused-unless true reason v h = h
Refused-unless false reason v h = record { at = refl }

module _ (to_lower : String → String) (new_url : String → Option Parsed)
    (opts : UrlPolicyOptions) where
  check_host-Refused :
      (hostname host : String) (o : Octets)
      → ipv4_to_octets host ≡ some o
      → is_blocked_ipv4 o ≡ true
      → Refused (check_host to_lower new_url opts hostname host)
  unfolding check_host check_literal
  check_host-Refused hostname host o e b =
      rw (e, b)
        (Refused-else (is_denied to_lower new_url opts host) "denied_host" _ (
          Refused-else ((host == "localhost") || ends_with host ".localhost") "loopback_hostname"
            (refuse "private_or_reserved_ipv4") (record { at = refl })))

  -- Whatever the options, and whatever else the URL has: a URL whose host, in lower case, is an IPv4
  -- address in a private, loopback, link-local or reserved range, written with four fields or as one number
  -- and each field in decimal, octal or hexadecimal, is refused.
  pub check-refuses-IsPrivate :
      (url : String) (parsed : Parsed) (o : Octets)
      → new_url url ≡ some parsed
      → IsOctets o
      → Encodes (to_lower parsed.hostname) o
      → IsPrivate o
      → (check to_lower new_url opts url).allowed ≡ false
  unfolding check check_parsed
  check-refuses-IsPrivate url parsed o e i enc p =
      rw e
        (Refused-unless
          ((parsed.protocol == "https:")
            || (or_default opts.allow_http true && (parsed.protocol == "http:")))
          (text_append "blocked_scheme:" (without_colon parsed.protocol)) _
          (check_host-Refused parsed.hostname (to_lower parsed.hostname) o
            (Encodes-octets (to_lower parsed.hostname) o i enc) (IsPrivate-blocked o p))).at
