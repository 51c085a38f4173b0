-- ===== src/Signing/Verify/Authentic.antt =====
-- What a delivery that is accepted has (packages/signing/src/verify.ts).
use mathlib.Core.Option.{none-ne-some}
use Prim.Native.String.{◌++◌ as text_append}
use text.Mathlib.Text.{starts_with}
use anyhook.Base.{
  ◌∙◌, subst, nat_eq, ◌⊎◌, ℕ, ◌/◌, ◌≡◌, refl, ap, Bool, true, false, ◌||◌, Bool-cases, inl, inr,
  String, Option, none, some, List, ◌∷◌, ◌++◌, any, ◌==◌, arith,
}
use anyhook.Base.Dict.{Dict}
use anyhook.Base.Split.{split}
use anyhook.Signing.Verify.{
  Verified, Finite, too_far, extract_signature_digest, timing_safe_equal_base64, digest_matches,
  entry_matches, expected_digest, parsed, verify_signature, verify,
}
use anyhook.Signing.{parse_secret}
use anyhook.Signing.Verify.Parts.{
  Near, too_far-Near, any-found, signed_text, header, looked, looked-header, digest_of_lem,
  parse_secret_lem,
}
use anyhook.Types.{ms}

abbrev body_of : {J : Type 0} → Verified J → Option J
body_of (Verified.body j) = some j
body_of (Verified.failed e) = none

module _ {B J : Type 0} (from_base64 : String → B) (byte_length : B → ℕ)
    (timing_safe_equal : B → B → Bool) (hmac_base64 : B → String → String)
    (to_lower : String → String) (to_number : String → Option Finite) (print : Finite → String)
    (parse_json : String → Option J) where
  -- A timestamp that is near, and an entry `v1,<digest>` of the signature header, where the digest and the
  -- HMAC of `<id>.<timestamp>.<body>` are base64 of the same bytes. The key is the base64 of the secret
  -- after `whsec_`, or of the whole secret where it does not begin so.
  pub record IsSigned (now : ℕ) (id timestamp signature raw_body secret : String) (j : J)
      : Type 0 where
    pub seconds : Finite
    pub number : to_number timestamp ≡ some seconds
    pub near : Near (now / ms 1000) seconds
    pub before : List String
    pub entry : String
    pub rest : List String
    pub entries : split " " signature ≡ before ++ entry ∷ rest
    pub digest : String
    pub after : List String
    pub scheme : split "," entry ≡ "v1" ∷ (digest ∷ after)
    pub digest_full : (digest == "") ≡ false
    pub body : String
    pub key :
        (secret ≡ text_append "whsec_" body)
        ⊎ ((starts_with secret "whsec_" ≡ false) × (body ≡ secret))
    pub length_equal :
        byte_length (from_base64 digest)
        ≡ byte_length
            (from_base64 (hmac_base64 (from_base64 body) (signed_text id (print seconds) raw_body)))
    pub bytes_equal :
        timing_safe_equal
          (from_base64 digest)
          (from_base64 (hmac_base64 (from_base64 body) (signed_text id (print seconds) raw_body)))
        ≡ true
    pub json : parse_json raw_body ≡ some j

  abbrev HasHeaders : ℕ → String → String → J → String → String → String → Type 0
  HasHeaders now raw_body secret j id timestamp signature =
      ((id == "") ≡ false)
      × ((timestamp == "") ≡ false)
      × ((signature == "") ≡ false)
      × IsSigned now id timestamp signature raw_body secret j

  parsed-json :
      (o : Option J) (j : J)
      → body_of (
          parsed from_base64 byte_length timing_safe_equal hmac_base64 to_lower to_number print
            parse_json o)
        ≡ some j
      → o ≡ some j
  unfolding parsed
  parsed-json none j h = absurd (none-ne-some _ h)
  parsed-json (some i) j h = h

  matched :
      (expected : String) (o : Option String)
      → digest_matches from_base64 byte_length timing_safe_equal hmac_base64 to_lower to_number
          print parse_json expected o
        ≡ true
      → (digest : String) × (o ≡ some digest)
        × (timing_safe_equal_base64 from_base64 byte_length timing_safe_equal hmac_base64 to_lower
              to_number print parse_json digest expected
            ≡ true)
  unfolding digest_matches
  matched expected none h = absurd (ground (arith, h))
  matched expected (some digest) h = (digest, refl, h)

  equal_bytes :
      (a b : String)
      → timing_safe_equal_base64 from_base64 byte_length timing_safe_equal hmac_base64 to_lower
          to_number print parse_json a b
        ≡ true
      → (byte_length (from_base64 a) ≡ byte_length (from_base64 b))
        × (timing_safe_equal (from_base64 a) (from_base64 b) ≡ true)
  unfolding timing_safe_equal_base64
  equal_bytes a b h =
      elim (Bool-cases (nat_eq (byte_length (from_base64 a)) (byte_length (from_base64 b)))) [
        | inl e ↦ (ground (arith, e), rw e at h)
        | inr e ↦ absurd (ground (arith, rw e at h))
      ]

  expected_digest_lem :
      (id : String) (seconds : Finite) (raw_body secret body : String)
      → parse_secret from_base64 secret ≡ from_base64 body
      → expected_digest from_base64 byte_length timing_safe_equal hmac_base64 to_lower to_number
          print parse_json id seconds raw_body secret
        ≡ hmac_base64 (from_base64 body) (signed_text id (print seconds) raw_body)
  unfolding expected_digest
  expected_digest_lem id seconds raw_body secret body e = rw e refl

  entry-IsSigned :
      (now : ℕ) (id timestamp signature raw_body secret : String) (j : J) (seconds : Finite)
      → to_number timestamp ≡ some seconds
      → too_far (now / ms 1000) seconds ≡ false
      → any
          (entry_matches from_base64 byte_length timing_safe_equal hmac_base64 to_lower to_number
            print parse_json
            (expected_digest from_base64 byte_length timing_safe_equal hmac_base64 to_lower
              to_number print parse_json id seconds raw_body secret))
          (split " " signature)
        ≡ true
      → parse_json raw_body ≡ some j
      → IsSigned now id timestamp signature raw_body secret j
  unfolding entry_matches extract_signature_digest
  entry-IsSigned now id timestamp signature raw_body secret j seconds n close found json =
      let (before, entry, rest, entries, m) = any-found _ (split " " signature) found in
      let (digest, d, q) = matched _ (extract_signature_digest entry) m in
      let (after, scheme, full) = digest_of_lem (split "," entry) digest d in
      let (body, key, of_body) = parse_secret_lem from_base64 secret in
      let (lengths, bytes) = equal_bytes digest _ q in
      let expected = expected_digest_lem id seconds raw_body secret body of_body in
      record {
        seconds = seconds;
        number = n;
        near = too_far-Near (now / ms 1000) seconds close;
        before = before;
        entry = entry;
        rest = rest;
        entries = entries;
        digest = digest;
        after = after;
        scheme = scheme;
        digest_full = full;
        body = body;
        key = key;
        length_equal = lengths ∙ ap (λ e. byte_length (from_base64 e)) expected;
        bytes_equal =
            subst (λ e. timing_safe_equal (from_base64 digest) (from_base64 e) ≡ true) expected
              bytes;
        json = json;
      }

  accepted-IsSigned :
      (now : ℕ) (id timestamp signature raw_body secret : String) (j : J) (o : Option Finite)
      → to_number timestamp ≡ o
      → body_of (
          verify_signature from_base64 byte_length timing_safe_equal hmac_base64 to_lower to_number
            print parse_json now id o signature raw_body secret)
        ≡ some j
      → IsSigned now id timestamp signature raw_body secret j
  unfolding verify_signature
  accepted-IsSigned now id timestamp signature raw_body secret j none n h =
      absurd (none-ne-some _ h)
  accepted-IsSigned now id timestamp signature raw_body secret j (some seconds) n h =
      elim (Bool-cases (too_far (now / ms 1000) seconds)) [
        | inl far ↦ absurd (none-ne-some _ (rw far at h))
        | inr close ↦
            elim (Bool-cases (
              any
                (entry_matches from_base64 byte_length timing_safe_equal hmac_base64 to_lower
                  to_number print parse_json
                  (expected_digest from_base64 byte_length timing_safe_equal hmac_base64 to_lower
                    to_number print parse_json id seconds raw_body secret))
                (split " " signature))) [
                  | inr missing ↦ absurd (none-ne-some _ (rw (close, missing) at h))
                  | inl found ↦
                      entry-IsSigned now id timestamp signature raw_body secret j seconds n close
                        found (parsed-json (parse_json raw_body) j (rw (close, found) at h))
                ]
      ]

  looked-IsSigned :
      (now : ℕ) (headers : Dict String) (raw_body secret : String) (j : J)
      → verify from_base64 byte_length timing_safe_equal hmac_base64 to_lower to_number print
          parse_json now headers raw_body secret
        ≡ Verified.body j
      → HasHeaders now raw_body secret j
          (looked to_lower headers "webhook-id")
          (looked to_lower headers "webhook-timestamp")
          (looked to_lower headers "webhook-signature")
  unfolding verify
  looked-IsSigned now headers raw_body secret j h =
      elim (Bool-cases (
        (looked to_lower headers "webhook-id" == "")
        || (looked to_lower headers "webhook-timestamp" == "")
        || (looked to_lower headers "webhook-signature" == ""))) [
          | inl some_missing ↦ absurd (none-ne-some _ (ap body_of (rw some_missing at h)))
          | inr present ↦ (
            ground (arith, present),
            ground (arith, present),
            ground (arith, present),
            accepted-IsSigned now _ _ _ raw_body secret j
                (to_number (looked to_lower headers "webhook-timestamp")) refl
                (ap body_of (rw present at h)),
          )
        ]

  -- A delivery that is accepted has the three headers (the last of each name, in lower case), a timestamp
  -- that is a finite number at most 300 seconds from now, and among the entries of its signature header one
  -- `v1,<digest>` where the digest is base64 of as many bytes as the HMAC of `<id>.<timestamp>.<body>`, and
  -- of the same bytes by timingSafeEqual; the key is base64 in the secret, after `whsec_` if the secret
  -- begins so; and the answer is the body as JSON.
  pub verify-IsSigned :
      (now : ℕ) (headers : Dict String) (raw_body secret : String) (j : J)
      → verify from_base64 byte_length timing_safe_equal hmac_base64 to_lower to_number print
          parse_json now headers raw_body secret
        ≡ Verified.body j
      → ((header to_lower headers "webhook-id" == "") ≡ false)
        × ((header to_lower headers "webhook-timestamp" == "") ≡ false)
        × ((header to_lower headers "webhook-signature" == "") ≡ false)
        × IsSigned now
            (header to_lower headers "webhook-id")
            (header to_lower headers "webhook-timestamp")
            (header to_lower headers "webhook-signature")
            raw_body
            secret
            j
  verify-IsSigned now headers raw_body secret j h =
      subst
        (λ (name : String → String).
          HasHeaders now raw_body secret j (name "webhook-id") (name "webhook-timestamp")
            (name "webhook-signature"))
        (λ i name. looked-header to_lower headers name i)
        (looked-IsSigned now headers raw_body secret j h)
