-- ===== src/Tests/Security.antt =====
-- Concrete URLs under the default policy, and a delivery that is signed and verified.
use Prim.Native.String.{count}
use anyhook.Base.{
  ap, ==_refl, ◌-◌, ◌/◌, suc, ℕ, ◌*◌, ◌≡◌, refl, Bool, false, String, Option, none, some, [], ◌∷◌,
  arith, ◌==◌,
}
use anyhook.Base.Split.{has_char}
use anyhook.Security.{Octets}
use anyhook.Security.Fields.{Field, Stands}
use anyhook.Security.Policy.{UrlPolicyOptions, Parsed, check}
use anyhook.Security.Ranges.{Encodes, IsPrivate, check-refuses-IsPrivate}
use anyhook.Signing.{headers, whole_seconds}
use anyhook.Signing.Verify.{Verified, Finite, verify}
use anyhook.Base.Dict.{Dict}
use anyhook.Signing.Verify.Authentic.{IsSigned, verify-IsSigned}
use anyhook.Signing.Verify.Parts.{header}
use anyhook.Signing.Verify.Accepts.{IsRuntime, headers-verify}
use anyhook.Tests.Strokes.{strokes, count-strokes, strokes-full}
use anyhook.Types.{ms, ticks_per_ms}

abbrev pub loopback : Octets
loopback = record { a = 127; b = 0; c = 0; d = 1 }

abbrev pub url_of : String → Option Parsed
url_of s = some (record { protocol = "https:"; hostname = "0177.0x0.0.1" })

abbrev pub no_options : UrlPolicyOptions
no_options = record { allow_http = none; extra_deny = none }

-- 127.0.0.1 with an octal and a hexadecimal field
pub mixed_Encodes : Encodes "0177.0x0.0.1" loopback
unfolding has_char
mixed_Encodes =
    Encodes.dotted "0177" "0x0" "0" "1" refl (refl, refl, refl, refl)
      (
        Field.octal "177" refl refl (
          1,
          63,
          Stands.figure (omega arith) refl,
          omega arith,
          (
            7,
            7,
            Stands.figure (omega arith) refl,
            omega arith,
            (7, 0, Stands.figure (omega arith) refl, omega arith, refl, refl),
            refl,
          ),
          refl,
        ),
        Field.hex_lower "0" refl refl
            (0, 0, Stands.figure (omega arith) refl, omega arith, refl, refl),
        Field.zero_ refl refl,
        Field.decimal refl refl (1, 0, Stands.figure (omega arith) refl, omega arith, refl, refl),
      )

check-refuses-IsPrivate_example :
    (check (λ s. s) url_of no_options "https://0177.0x0.0.1/").allowed ≡ false
check-refuses-IsPrivate_example =
    check-refuses-IsPrivate (λ s. s) url_of no_options "https://0177.0x0.0.1/"
      (record { protocol = "https:"; hostname = "0177.0x0.0.1" }) loopback refl
      (record { a = omega arith; b = omega arith; c = omega arith; d = omega arith }) mixed_Encodes
      (IsPrivate.loopback refl)

abbrev number : String → Option Finite
number s = some (Finite.plus ((count s - 1) * ticks_per_ms))

abbrev print : Finite → String
print (Finite.plus k) = strokes (k / ticks_per_ms)
print (Finite.minus k) = ""

abbrev bytes_equal : String → String → Bool
bytes_equal a b = a == b

abbrev signature : String → String → String
signature key s = "c2lnbmF0dXJl"

pred-suc : (n : ℕ) → suc n - 1 ≡ n
pred-suc n = omega arith

quotient : (n : ℕ) → n * ticks_per_ms / ticks_per_ms ≡ n
quotient n = omega arith

runtime : IsRuntime (λ s. s) count bytes_equal signature (λ s. s) number print (λ s. some s) strokes
unfolding has_char
runtime = record {
  digest_no_space = λ key s. refl;
  digest_no_comma = λ key s. refl;
  digest_full = λ key s. refl;
  equal_self = ==_refl;
  lower_id = refl;
  lower_timestamp = refl;
  lower_signature = refl;
  show_full = strokes-full;
  number_of =
      λ n. rw (count-strokes n) (ap (λ k. some (Finite.plus (k * ticks_per_ms))) (pred-suc n));
  print_of = λ n. ap strokes (quotient n);
}

-- The delivery is signed with the new secret and with the old one, which the receiver still has.
headers-verify_example :
    verify
      (λ s. s)
      count
      bytes_equal
      signature
      (λ s. s)
      number
      print
      (λ s. some s)
      (ms 100000)
      (headers (λ s. s) signature strokes ("whsec_bmV3" ∷ "whsec_b2xk" ∷ []) "msg_1" "{}" (ms 7000))
      "{}"
      "whsec_b2xk"
    ≡ Verified.body "{}"
unfolding whole_seconds
headers-verify_example =
    headers-verify (λ s. s) count bytes_equal signature (λ s. s) number print (λ s. some s) strokes
      runtime (ms 100000) (ms 7000) "msg_1" "{}" ("whsec_bmV3" ∷ []) [] "whsec_b2xk" "{}" refl refl
      (omega arith) (omega arith)

abbrev delivery : Dict String
delivery =
    headers (λ s. s) signature strokes ("whsec_bmV3" ∷ "whsec_b2xk" ∷ []) "msg_1" "{}" (ms 7000)

verify-IsSigned_example :
    ((header (λ s. s) delivery "webhook-id" == "") ≡ false)
    × ((header (λ s. s) delivery "webhook-timestamp" == "") ≡ false)
    × ((header (λ s. s) delivery "webhook-signature" == "") ≡ false)
    × IsSigned
        (λ s. s)
        count
        bytes_equal
        signature
        (λ s. s)
        number
        print
        (λ s. some s)
        (ms 100000)
        (header (λ s. s) delivery "webhook-id")
        (header (λ s. s) delivery "webhook-timestamp")
        (header (λ s. s) delivery "webhook-signature")
        "{}"
        "whsec_b2xk"
        "{}"
unfolding whole_seconds
verify-IsSigned_example =
    verify-IsSigned (λ s. s) count bytes_equal signature (λ s. s) number print (λ s. some s)
      (ms 100000) delivery "{}" "whsec_b2xk" "{}"
      (headers-verify (λ s. s) count bytes_equal signature (λ s. s) number print (λ s. some s)
        strokes runtime (ms 100000) (ms 7000) "msg_1" "{}" ("whsec_bmV3" ∷ []) [] "whsec_b2xk" "{}"
        refl refl (omega arith) (omega arith))
