-- ===== src/Signing/Verify/Accepts.antt =====
-- Headers that were signed, read by the check of a delivery: packages/signing/src/sign.ts and verify.ts.
use Prim.Native.String.{◌++◌ as text_append}
use text.Mathlib.TextLemmas.{append_assoc, cons-append, nil-append}
use anyhook.Base.{
  ℕ, ◌+◌, ◌*◌, ◌≤◌, ◌/◌, ◌≡◌, refl, ap, ◌∙◌, Bool, true, false, String, Option, some, List, [], ◌∷◌,
  ◌++◌, map, any, All, ◌==◌, arith,
}
use anyhook.Base.Dict
use anyhook.Base.Dict.{Dict}
use anyhook.Base.Split.{split, has_char, split-lacks, split-append}
use anyhook.Signing.{parse_secret, sign, headers, join, whole_seconds}
use anyhook.Signing.Verify.Entries.{
  cons-full, join-full, within-too_far, split-join-at, any_at, IsEntry,
}
use anyhook.Signing.Verify.{
  Verified, Finite, digest_of, extract_signature_digest, lowercase_headers, lowercase_loop,
  timing_safe_equal_base64, digest_matches, entry_matches, expected_digest, parsed,
  verify_signature, verify,
}
use anyhook.Types.{ms, ticks_per_ms}

module _ {B J : Type 0} (from_base64 : String → B) (byte_length : B → ℕ)
    (timing_safe_equal : B → B → Bool) (hmac_base64 : B → String → String)
    (to_lower : String → String) (to_number : String → Option Finite) (print : Finite → String)
    (parse_json : String → Option J) (show : ℕ → String) where
  -- The documented behaviour of what the runtime brings: base64 texts have no space and no comma, the three
  -- names are lower-case, bytes equal themselves, and a whole number is read back as it was printed.
  pub record IsRuntime : Type 0 where
    pub digest_no_space : (key : B) (s : String) → has_char " " (hmac_base64 key s) ≡ false
    pub digest_no_comma : (key : B) (s : String) → has_char "," (hmac_base64 key s) ≡ false
    pub digest_full : (key : B) (s : String) → (hmac_base64 key s == "") ≡ false
    pub equal_self : (b : B) → timing_safe_equal b b ≡ true
    pub lower_id : to_lower "webhook-id" ≡ "webhook-id"
    pub lower_timestamp : to_lower "webhook-timestamp" ≡ "webhook-timestamp"
    pub lower_signature : to_lower "webhook-signature" ≡ "webhook-signature"
    pub show_full : (n : ℕ) → (show n == "") ≡ false
    pub number_of : (n : ℕ) → to_number (show n) ≡ some (Finite.plus (n * ticks_per_ms))
    pub print_of : (n : ℕ) → print (Finite.plus (n * ticks_per_ms)) ≡ show n

  module _ (r : IsRuntime) where
    signed : String → String → ℕ → String → String
    signed secret id timestamp payload =
        sign from_base64 hmac_base64 show secret id timestamp payload

    extract-sign :
        (secret id : String) (timestamp : ℕ) (payload : String)
        → extract_signature_digest (sign from_base64 hmac_base64 show secret id timestamp payload)
          ≡ some (
              hmac_base64 (parse_secret from_base64 secret) (
                text_append id (
                  text_append "."
                    (text_append (show (whole_seconds timestamp)) (text_append "." payload)))))
    unfolding extract_signature_digest digest_of sign has_char
    extract-sign secret id timestamp payload =
        let digest : String = hmac_base64 (parse_secret from_base64 secret) (
          text_append id (
            text_append "."
              (text_append (show (whole_seconds timestamp)) (text_append "." payload)))) in
        ap (λ s. digest_of (split "," s)) (append_assoc "v1" "," digest)
        ∙ ap digest_of (
            split-append "," "v1" digest refl
            ∙ ap (λ l. "v1" ∷ l) (split-lacks "," digest (r.digest_no_comma _ _)))
        ∙ rw (r.digest_full) refl

    sign-IsEntry :
        (secret id : String) (timestamp : ℕ) (payload : String)
        → IsEntry (sign from_base64 hmac_base64 show secret id timestamp payload)
    unfolding sign has_char
    sign-IsEntry secret id timestamp payload = record {
      no_space =
          rw (cons-append "v" "1," _, cons-append "1" "," _, cons-append "," "" _, nil-append)
            (r.digest_no_space _ _);
      full = rw (cons-append "v" "1," _) (cons-full "v" _);
    }

    All-IsEntry :
        (secrets : List String) (id : String) (timestamp : ℕ) (payload : String)
        → All IsEntry
            (map (λ secret. sign from_base64 hmac_base64 show secret id timestamp payload) secrets)
    All-IsEntry [] id timestamp payload = tt
    All-IsEntry (s ∷ secrets) id timestamp payload =
        (sign-IsEntry s id timestamp payload, All-IsEntry secrets id timestamp payload)

    entry_matches-sign :
        (secret id : String) (timestamp : ℕ) (payload : String)
        → entry_matches from_base64 byte_length timing_safe_equal hmac_base64 to_lower to_number
            print parse_json
            (expected_digest from_base64 byte_length timing_safe_equal hmac_base64 to_lower
              to_number print parse_json id
              (Finite.plus (whole_seconds timestamp * ticks_per_ms))
              payload
              secret)
            (sign from_base64 hmac_base64 show secret id timestamp payload)
          ≡ true
    unfolding entry_matches digest_matches expected_digest timing_safe_equal_base64
    entry_matches-sign secret id timestamp payload =
        rw
          (
            extract-sign secret id timestamp payload,
            r.print_of (whole_seconds timestamp),
            r.equal_self,
          )
          (ground arith)

    signature-full :
        (before : List String) (secret : String) (rest : List String) (id : String) (timestamp : ℕ)
        (payload : String)
        → (join (
              map
                (λ s. sign from_base64 hmac_base64 show s id timestamp payload)
                (before ++ secret ∷ rest))
            == "")
          ≡ false
    signature-full [] secret rest id timestamp payload =
        join-full _ _ (sign-IsEntry secret id timestamp payload).full
    signature-full (b ∷ before) secret rest id timestamp payload =
        join-full _ _ (sign-IsEntry b id timestamp payload).full

    lower-headers :
        (secrets : List String) (id payload : String) (timestamp : ℕ)
        → lowercase_headers to_lower
            (headers from_base64 hmac_base64 show secrets id payload timestamp)
          ≡ headers from_base64 hmac_base64 show secrets id payload timestamp
    unfolding lowercase_headers lowercase_loop headers Dict.set
    lower-headers secrets id payload timestamp =
        rw (r.lower_id, r.lower_timestamp, r.lower_signature) refl

    entries-match :
        (before rest : List String) (secret id : String) (timestamp : ℕ) (payload : String)
        → any
            (entry_matches from_base64 byte_length timing_safe_equal hmac_base64 to_lower to_number
              print parse_json
              (expected_digest from_base64 byte_length timing_safe_equal hmac_base64 to_lower
                to_number print parse_json id
                (Finite.plus (whole_seconds timestamp * ticks_per_ms))
                payload
                secret))
            (split " " (
              join (
                map
                  (λ s. sign from_base64 hmac_base64 show s id timestamp payload)
                  (before ++ secret ∷ rest))))
          ≡ true
    entries-match before rest secret id timestamp payload =
        ap (any _) (
          split-join-at _ before secret rest
            (All-IsEntry (before ++ secret ∷ rest) id timestamp payload))
        ∙ any_at _ _ before secret rest (entry_matches-sign secret id timestamp payload)

    -- Given a runtime as documented: the headers that are signed with any secrets, for an id that is not
    -- empty and a payload that is JSON text, are accepted under each of the secrets, at any time whose second
    -- is at most 300 seconds before or after that of the timestamp, and the answer is the payload as JSON.
    pub headers-verify :
        (now timestamp : ℕ) (id payload : String) (before rest : List String) (secret : String)
        (j : J)
        → (id == "") ≡ false
        → parse_json payload ≡ some j
        → now / ms 1000 ≤ whole_seconds timestamp + 300
        → whole_seconds timestamp ≤ now / ms 1000 + 300
        → verify from_base64 byte_length timing_safe_equal hmac_base64 to_lower to_number print
            parse_json now
            (headers from_base64 hmac_base64 show (before ++ secret ∷ rest) id payload timestamp)
            payload
            secret
          ≡ Verified.body j
    unfolding verify verify_signature headers parsed Dict.get
    headers-verify now timestamp id payload before rest secret j full json early late =
        rw
          (
            lower-headers (before ++ secret ∷ rest) id payload timestamp,
            full,
            r.show_full (whole_seconds timestamp),
            signature-full before secret rest id timestamp payload,
            r.number_of (whole_seconds timestamp),
          )
          (rw
            (
              within-too_far (now / ms 1000) (whole_seconds timestamp) early late,
              entries-match before rest secret id timestamp payload,
              json,
            )
            refl)
