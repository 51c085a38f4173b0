-- ===== src/Fetch.antt =====
-- packages/aws/src/http-fetch.ts and packages/cloudflare/src/http-fetch.ts, which have the same code: the
-- HttpClient over `fetch`. The platform's fetch is a parameter, with redirects left alone and the timeout;
-- `to_lower` is toLowerCase.
pub mod Refusals
use anyhook.Base.{
  ℕ, Bool, true, false, ◌&&◌, ◌||◌, not, String, Option, none, some, [], nat_eq, ◌==◌,
  if◌then◌else◌,
}
use anyhook.Base.Dict.{Dict}
use anyhook.Base.Exec.{Exec, pure, ◌>>=◌}
use anyhook.Base.Text.{take_chars}
use anyhook.Engine.{or_default}
use anyhook.Ports.{HttpResult, UrlVerdict}
use anyhook.Signing.Verify.{lowercase_headers}
use anyhook.Types.{Payload}

pub record FetchHttpClientOptions (W : Type 0) : Type 0 where
  pub url_policy : Option (String → Exec W UrlVerdict)
  pub snippet_limit : Option ℕ

-- What fetch answers: a response, whose text may fail to arrive, or the name of what it throws.
pub data Fetched : Type 0 where
  answered : String → ℕ → Option String → Dict String → Fetched
  thrown : String → Fetched

-- opaqueredirect, or status 0 where the type is not error
abbrev pub is_redirect : String → ℕ → Bool
is_redirect type status = (type == "opaqueredirect") || (nat_eq status 0 && not (type == "error"))

module _ {W : Type 0} (to_lower : String → String)
    (fetch : String → Payload → Dict String → ℕ → Exec W Fetched)
    (opts : FetchHttpClientOptions W) where
  unfoldable pub result_of : Fetched → HttpResult
  unfolding take_chars lowercase_headers
  result_of (Fetched.answered type status text headers) =
      if is_redirect type status
      then HttpResult.response 302 "" (some [])
      else HttpResult.response status
          (take_chars (or_default opts.snippet_limit 2048) (or_default text ""))
          (some (lowercase_headers to_lower headers))
  result_of (Fetched.thrown name) =
      if (name == "TimeoutError") || (name == "AbortError")
      then HttpResult.timeout
      else HttpResult.network

  unfoldable pub dispatch : String → Payload → Dict String → ℕ → Exec W HttpResult
  unfolding result_of
  dispatch url body headers timeout_ms = do
    fetched ← fetch url body headers timeout_ms
    pure (result_of fetched)

  -- const check = await opts.urlPolicy.check(url)
  unfoldable pub checked : String → Payload → Dict String → ℕ → UrlVerdict → Exec W HttpResult
  unfolding dispatch
  checked url body headers timeout_ms verdict =
      if verdict.allowed then dispatch url body headers timeout_ms else pure HttpResult.network

  unfoldable pub post_with :
      Option (String → Exec W UrlVerdict) → String → Payload → Dict String → ℕ → Exec W HttpResult
  unfolding checked dispatch
  post_with none url body headers timeout_ms = dispatch url body headers timeout_ms
  post_with (some check) url body headers timeout_ms = do
    verdict ← check url
    checked url body headers timeout_ms verdict

  unfoldable pub post : String → Payload → Dict String → ℕ → Exec W HttpResult
  unfolding post_with
  post url body headers timeout_ms = post_with opts.url_policy url body headers timeout_ms
