-- ===== src/Signing.antt =====
-- packages/signing/src/secret.ts and sign.ts: signing secrets, and the headers of a signed delivery. The
-- random bytes come in base64; the decoding of base64 into bytes `B`, the HMAC and the printing of a
-- number are parameters.
pub mod Verify
use Prim.Native.String.{◌++◌}
use text.Mathlib.Text.{starts_with}
use text.Mathlib.TextEquality.{starts_with_iff}
use text.Mathlib.TextLemmas.{cons-append, nil-append}
use anyhook.Base.{ℕ, ◌≡◌, refl, ap, ◌/◌, String, List, [], ◌∷◌, map, if◌then◌else◌}
use anyhook.Base.Text.{drop_chars}
use anyhook.Base.Dict.{Dict}
use anyhook.Types.{ms}

abbrev pub secret_prefix : String
secret_prefix = "whsec_"

unfoldable pub generate_secret : String → String
generate_secret random_base64 = secret_prefix ++ random_base64

-- signatures.join(' ')
unfoldable pub join : List String → String
join [] = ""
join (s ∷ rest) = let others = join rest in elim rest [ [] ↦ s | t ∷ ts ↦ s ++ " " ++ others ]

-- Math.floor(timestamp.getTime() / 1000), where getTime() is a whole number of milliseconds
unfoldable pub whole_seconds : ℕ → ℕ
whole_seconds timestamp = timestamp / ms 1000

pub drop_prefix : (s : String) → drop_chars 6 (secret_prefix ++ s) ≡ s
unfolding drop_chars
drop_prefix s =
    rw
      (
        cons-append "w" "hsec_" s,
        cons-append "h" "sec_" s,
        cons-append "s" "ec_" s,
        cons-append "e" "c_" s,
        cons-append "c" "_" s,
        cons-append "_" "" s,
        nil-append s,
      )
      refl

module _ {B : Type 0} (from_base64 : String → B) where
  unfoldable pub parse_secret : String → B
  unfolding drop_chars
  parse_secret secret =
      from_base64 (if starts_with secret secret_prefix then drop_chars 6 secret else secret)

  -- A generated secret is read back as the random bytes that it was made of, whatever they are.
  pub generate_secret-parse_secret :
      (random_base64 : String)
      → parse_secret (generate_secret random_base64) ≡ from_base64 random_base64
  unfolding parse_secret generate_secret
  generate_secret-parse_secret r =
      rw ((starts_with_iff (generate_secret r) secret_prefix).1 (r, refl))
        (ap from_base64 (drop_prefix r))

module _ {B : Type 0} (from_base64 : String → B) (hmac_base64 : B → String → String)
    (show : ℕ → String) where
  unfoldable pub sign : String → String → ℕ → String → String
  unfolding parse_secret whole_seconds
  sign secret id timestamp payload =
      "v1,"
      ++ hmac_base64 (parse_secret from_base64 secret)
          (id ++ "." ++ show (whole_seconds timestamp) ++ "." ++ payload)

  -- Signer.headers, and the port that createSigner makes of it
  unfoldable pub headers : List String → String → String → ℕ → Dict String
  unfolding sign join whole_seconds
  headers secrets id payload timestamp =
      ("webhook-id", id)
      ∷ ("webhook-timestamp", show (whole_seconds timestamp))
      ∷ ("webhook-signature", join (map (λ secret. sign secret id timestamp payload) secrets))
      ∷ []
