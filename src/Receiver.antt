-- ===== src/Receiver.antt =====
-- packages/testing/src/mock-receiver.ts: the scriptable HTTP target. The clock comes in as an argument.
pub mod Counts
use anyhook.Base.{
  ℕ, ◌+◌, String, Option, none, some, List, [], ◌∷◌, ◌++◌, filter, length, ltb, ◌==◌, if◌then◌else◌,
}
use anyhook.Base.Dict
use anyhook.Base.Dict.{Dict}
use anyhook.Base.Exec.{Exec, ok}
use anyhook.Engine.{or_default}
use anyhook.Ports.{HttpResult}
use anyhook.Types.{Payload}

pub data Script : Type 0 where
  succeed : Script
  permanent : ℕ → Script
  fail_then_ok : ℕ → Script
  timeout network : Script
  slow : ℕ → Script

pub record RecordedCall : Type 0 where
  pub url : String
  pub body : Payload
  pub headers : Dict String
  pub ts : ℕ

pub record MockReceiver : Type 0 where
  pub default_ : Script
  pub calls : List RecordedCall
  pub routes : Dict Script
  pub counters : Dict ℕ

unfoldable pub on : String → Script → MockReceiver → MockReceiver
on url script r = record r { routes = Dict.set url script r.routes }

-- the switch on script.kind, after `n` calls to the URL
unfoldable pub answer : Script → ℕ → ℕ → HttpResult
answer Script.succeed n timeout_ms = HttpResult.response 200 "ok" none
answer (Script.permanent status) n timeout_ms = HttpResult.response status "rejected" none
answer (Script.fail_then_ok k) n timeout_ms =
    if ltb n k then HttpResult.response 500 "err" none else HttpResult.response 200 "ok" none
answer Script.timeout n timeout_ms = HttpResult.timeout
answer Script.network n timeout_ms = HttpResult.network
answer (Script.slow t) n timeout_ms =
    if ltb timeout_ms t then HttpResult.timeout else HttpResult.response 200 "ok" none

unfoldable pub post : ℕ → String → Payload → Dict String → ℕ → Exec MockReceiver HttpResult
unfolding answer
post now url body headers timeout_ms r =
    let n : ℕ = or_default (Dict.get url r.counters) 0 in
    (
      ok (answer (or_default (Dict.get url r.routes) r.default_) n timeout_ms),
      record r {
        calls = r.calls ++ record { url = url; body = body; headers = headers; ts = now } ∷ [];
        counters = Dict.set url (n + 1) r.counters;
      },
    )

-- `url ? … : …`, where the empty string is no URL
unfoldable pub call_count : Option String → MockReceiver → ℕ
call_count none r = length r.calls
call_count (some url) r =
    if url == "" then length r.calls else length (filter (λ c. c.url == url) r.calls)
