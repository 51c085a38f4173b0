-- ===== src/Signing/Verify.antt =====
-- packages/signing/src/verify.ts: the check of a signed delivery. `toLowerCase`, Number, the printing of
-- a number in a template, JSON.parse, the bytes of a base64 text and crypto.timingSafeEqual are
-- parameters; `hmac_base64` is createHmac('sha256', key).update(text).digest('base64').
pub mod Entries
pub mod Accepts
pub mod Parts
pub mod Authentic
use Prim.Native.String.{◌++◌}
use anyhook.Base.{
  ℕ, ◌+◌, ◌*◌, ◌/◌, Bool, true, false, ◌||◌, String, Option, none, some, List, [], ◌∷◌, any, ltb,
  nat_eq, ◌==◌, if◌then◌else◌,
}
use anyhook.Base.Dict
use anyhook.Base.Dict.{Dict}
use anyhook.Base.Split.{split}
use anyhook.Engine.{or_default}
use anyhook.Signing.{parse_secret}
use anyhook.Types.{ms, ticks_per_ms}

abbrev pub tolerance_seconds : ℕ
tolerance_seconds = 300

-- What WebhookVerificationError says, and the SyntaxError of JSON.parse.
pub data VerificationError : Type 0 where
  missing_headers invalid_timestamp outside_tolerance no_match invalid_json : VerificationError

pub data Verified (J : Type 0) : Type 0 where
  body : J → Verified J
  failed : VerificationError → Verified J

-- A finite number, in units of 1 / `ticks_per_ms`.
pub data Finite : Type 0 where
  plus minus : ℕ → Finite

-- Math.abs(nowSeconds - timestampSeconds) > TOLERANCE_SECONDS
unfoldable pub too_far : ℕ → Finite → Bool
too_far now_seconds (Finite.plus n) =
    ltb (n + tolerance_seconds * ticks_per_ms) (now_seconds * ticks_per_ms)
    || ltb ((now_seconds + tolerance_seconds) * ticks_per_ms) n
too_far now_seconds (Finite.minus n) =
    ltb (tolerance_seconds * ticks_per_ms) (now_seconds * ticks_per_ms + n)

-- const [scheme, digest] = entry.split(',')
unfoldable pub digest_of : List String → Option String
digest_of (scheme ∷ (digest ∷ rest)) =
    if scheme == "v1" then (if digest == "" then none else some digest) else none
digest_of _ = none

unfoldable pub extract_signature_digest : String → Option String
unfolding digest_of
extract_signature_digest entry = digest_of (split "," entry)

-- result[key.toLowerCase()] = value, for each entry in turn
unfoldable pub lowercase_loop : (String → String) → Dict String → Dict String → Dict String
lowercase_loop to_lower result [] = result
lowercase_loop to_lower result ((key, value) ∷ headers) =
    lowercase_loop to_lower (Dict.set (to_lower key) value result) headers

unfoldable pub lowercase_headers : (String → String) → Dict String → Dict String
unfolding lowercase_loop
lowercase_headers to_lower headers = lowercase_loop to_lower [] headers

module _ {B J : Type 0} (from_base64 : String → B) (byte_length : B → ℕ)
    (timing_safe_equal : B → B → Bool) (hmac_base64 : B → String → String)
    (to_lower : String → String) (to_number : String → Option Finite) (print : Finite → String)
    (parse_json : String → Option J) where
  unfoldable pub timing_safe_equal_base64 : String → String → Bool
  timing_safe_equal_base64 a b =
      if nat_eq (byte_length (from_base64 a)) (byte_length (from_base64 b))
      then timing_safe_equal (from_base64 a) (from_base64 b)
      else false

  unfoldable pub digest_matches : String → Option String → Bool
  unfolding timing_safe_equal_base64
  digest_matches expected none = false
  digest_matches expected (some digest) = timing_safe_equal_base64 digest expected

  unfoldable pub entry_matches : String → String → Bool
  unfolding digest_matches extract_signature_digest
  entry_matches expected entry = digest_matches expected (extract_signature_digest entry)

  unfoldable pub expected_digest : String → Finite → String → String → String
  unfolding parse_secret
  expected_digest id timestamp_seconds raw_body secret =
      hmac_base64 (parse_secret from_base64 secret)
        (id ++ "." ++ print timestamp_seconds ++ "." ++ raw_body)

  -- JSON.parse(rawBody)
  unfoldable pub parsed : Option J → Verified J
  parsed none = Verified.failed VerificationError.invalid_json
  parsed (some j) = Verified.body j

  -- The timestamp as a number, or none where it is not finite.
  unfoldable pub verify_signature :
      ℕ → String → Option Finite → String → String → String → Verified J
  unfolding too_far expected_digest entry_matches parsed
  verify_signature now id none signature raw_body secret =
      Verified.failed VerificationError.invalid_timestamp
  verify_signature now id (some timestamp_seconds) signature raw_body secret =
      if too_far (now / ms 1000) timestamp_seconds
      then Verified.failed VerificationError.outside_tolerance
      else if any (entry_matches (expected_digest id timestamp_seconds raw_body secret))
          (split " " signature)
      then parsed (parse_json raw_body)
      else Verified.failed VerificationError.no_match

  -- A header that is missing is read as the empty one: the code tests both with `!`.
  unfoldable pub verify : ℕ → Dict String → String → String → Verified J
  unfolding lowercase_headers verify_signature
  verify now headers raw_body secret =
      let lower : Dict String = lowercase_headers to_lower headers in
      let id : String = or_default (Dict.get "webhook-id" lower) "" in
      let timestamp : String = or_default (Dict.get "webhook-timestamp" lower) "" in
      let signature : String = or_default (Dict.get "webhook-signature" lower) "" in
      if (id == "") || (timestamp == "") || (signature == "")
      then Verified.failed VerificationError.missing_headers
      else verify_signature now id (to_number timestamp) signature raw_body secret
