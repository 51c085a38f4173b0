-- ===== src/Fetch/Refusals.antt =====
-- What the HttpClient does not send: packages/aws/src/http-fetch.ts and packages/cloudflare/src/http-fetch.ts
-- with the default URL policy, packages/core/src/security/url-policy.ts.
use anyhook.Base.{ℕ, ◌≡◌, refl, String, Option, some}
use anyhook.Base.Dict.{Dict}
use anyhook.Base.Exec.{Exec, ok}
use anyhook.Fetch.{FetchHttpClientOptions, Fetched, post, post_with, checked}
use anyhook.Ports.{HttpResult}
use anyhook.Security.{Octets}
use anyhook.Security.Policy.{UrlPolicyOptions, Parsed, check}
use anyhook.Security.Ranges.{IsOctets, Encodes, IsPrivate, check-refuses-IsPrivate}
use anyhook.Types.{Payload}

-- createFetchHttpClient({ urlPolicy: defaultUrlPolicy(opts) })
unfoldable pub with_default_policy :
    {W : Type 0}
    → (String → String)
    → (String → Option Parsed)
    → UrlPolicyOptions
    → Option ℕ
    → FetchHttpClientOptions W
unfolding check
with_default_policy to_lower new_url opts snippet_limit = record {
  url_policy = some (λ url w. (ok (check to_lower new_url opts url), w));
  snippet_limit = snippet_limit;
}

-- With the default URL policy, and whatever fetch would do: a POST to a URL whose host, in lower case, is an
-- IPv4 address in a private, loopback, link-local or reserved range, written with four fields or as one
-- number and each field in decimal, octal or hexadecimal, answers as a network failure, and fetch is not
-- called: the world is as it was.
pub post-refuses-IsPrivate :
    {W : Type 0} (to_lower : String → String) (new_url : String → Option Parsed)
    (opts : UrlPolicyOptions) (snippet_limit : Option ℕ)
    (fetch : String → Payload → Dict String → ℕ → Exec W Fetched) (url : String) (body : Payload)
    (headers : Dict String) (timeout_ms : ℕ) (parsed : Parsed) (o : Octets) (w : W)
    → new_url url ≡ some parsed
    → IsOctets o
    → Encodes (to_lower parsed.hostname) o
    → IsPrivate o
    → post to_lower fetch
        (with_default_policy to_lower new_url opts snippet_limit)
        url
        body
        headers
        timeout_ms
        w
      ≡ (ok HttpResult.network, w)
unfolding post post_with checked with_default_policy
post-refuses-IsPrivate to_lower new_url opts snippet_limit fetch url body headers timeout_ms parsed
      o w e i enc p =
    rw (check-refuses-IsPrivate to_lower new_url opts url parsed o e i enc p) refl
