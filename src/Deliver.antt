-- ===== src/Deliver.antt =====
-- packages/core/src/deliver.ts: one POST for a message.
use Prim.Native.String.{◌++◌}
use anyhook.Base.{
  ℕ, ◌-◌, ◌*◌, Bool, true, false, ◌||◌, Option, none, some, String, [], ◌∷◌, nat_eq, ◌==◌,
  if◌then◌else◌,
}
use anyhook.Base.Dict
use anyhook.Base.Dict.{Dict}
use anyhook.Base.Exec.{Exec, pure, ◌>>=◌}
use anyhook.Base.Text.{take_chars}
use anyhook.Policy.Outcome.{Outcome, classify_outcome}
use anyhook.Ports.{Ports, HttpResult, UrlVerdict}
use anyhook.Types.{Message, Endpoint, AttemptStatus}

pub record DeliveryResult : Type 0 where
  pub status : AttemptStatus
  pub outcome : Outcome
  pub latency_ms : ℕ
  pub resp_snippet : String
  pub retry_after_ms : Option ℕ
  pub blocked_by_ssrf : Bool

-- { ...d, ...e }
unfoldable pub spread : Dict String → Dict String → Dict String
unfolding Dict.set
spread d [] = d
spread d ((k, v) ∷ e) = spread (Dict.set k v d) e

abbrev pub or_empty : Option (Dict String) → Dict String
or_empty none = []
or_empty (some d) = d

abbrev pub or_denied : Option String → String
or_denied none = "denied"
or_denied (some reason) = reason

-- seconds to ticks: `to_number` has the seconds in units of 1 / `ticks_per_ms`
abbrev pub seconds : Option ℕ → Option ℕ
seconds none = none
seconds (some secs) = some (secs * 1000)

module _ (to_number : String → Option ℕ) where
  parse_header : Option String → Option ℕ
  parse_header none = none
  parse_header (some raw) = if raw == "" then none else seconds (to_number raw)

  unfoldable pub parse_retry_after_ms : Option (Dict String) → Option ℕ
  unfolding parse_header Dict.get
  parse_retry_after_ms headers = parse_header (Dict.get "retry-after" (or_empty headers))

module _ {W : Type 0} (p : Ports W) where
  unfoldable pub settle : HttpResult → ℕ → DeliveryResult
  settle HttpResult.timeout latency_ms = record {
    status = AttemptStatus.timeout;
    outcome = Outcome.retryable;
    latency_ms = latency_ms;
    resp_snippet = "timeout";
    retry_after_ms = none;
    blocked_by_ssrf = false;
  }
  settle HttpResult.network latency_ms = record {
    status = AttemptStatus.network;
    outcome = Outcome.retryable;
    latency_ms = latency_ms;
    resp_snippet = "network";
    retry_after_ms = none;
    blocked_by_ssrf = false;
  }
  settle (HttpResult.response http_status body headers) latency_ms = record {
    status = AttemptStatus.http http_status;
    outcome = classify_outcome (AttemptStatus.http http_status);
    latency_ms = latency_ms;
    resp_snippet = take_chars 512 body;
    retry_after_ms =
        if nat_eq http_status 429 || nat_eq http_status 503
        then parse_retry_after_ms p.to_number headers
        else none;
    blocked_by_ssrf = false;
  }

  abbrev pub ssrf_result : UrlVerdict → DeliveryResult
  ssrf_result ssrf = record {
    status = AttemptStatus.network;
    outcome = Outcome.permanent;
    latency_ms = 0;
    resp_snippet = "ssrf_blocked:" ++ or_denied ssrf.reason;
    retry_after_ms = none;
    blocked_by_ssrf = true;
  }

  -- sign, POST and classify
  unfoldable pub post_signed : ℕ → Message → Endpoint → Exec W DeliveryResult
  unfolding settle spread
  post_signed timeout_ms m endpoint = do
    signed_at ← p.now
    let headers =
        spread (("content-type", "application/json") ∷ [])
          (p.sign endpoint.secrets m.message_id m.payload signed_at)
    start ← p.now
    res ← p.post endpoint.url m.payload headers timeout_ms
    finish ← p.now
    pure (settle res (finish - start))

  unfoldable pub deliver_once : ℕ → Message → Endpoint → Exec W DeliveryResult
  unfolding post_signed
  deliver_once timeout_ms m endpoint = do
    ssrf ← p.check_url endpoint.url
    if ssrf.allowed then post_signed timeout_ms m endpoint else pure (ssrf_result ssrf)
