-- ===== src/Tests/Objects.antt =====
-- Concrete runs of the store over Durable Objects, of the HTTP client and of the scriptable target.
use anyhook.Base.{
  ◌+◌, ℕ, ◌≡◌, refl, false, String, Option, none, some, List, [], ◌∷◌, ◌++◌, map, ltb,
  if◌then◌else◌, arith,
}
use anyhook.Base.Dict
use anyhook.Base.Dict.{Dict}
use anyhook.Base.Exec.{Exec, ok}
use anyhook.Cloudflare.{Storage}
use anyhook.Cloudflare.Endpoint as endpoint_do
use anyhook.Cloudflare.Names.{endpoint_do_name-inj}
use anyhook.Cloudflare.Store.{put_message, get_message}
use anyhook.Cloudflare.Store.Messages.{AreObjects, put_message-get_message}
use anyhook.Cloudflare.Tenant as tenant_do
use anyhook.Fetch.{Fetched, post}
use anyhook.Fetch.Refusals.{with_default_policy, post-refuses-IsPrivate}
use anyhook.Ports.{HttpResult}
use anyhook.Receiver as receiver
use anyhook.Receiver.{MockReceiver, Script, on, call_count}
use anyhook.Receiver.Counts.{Posted, post_all, posts_to, post_all-fail_then_ok}
use anyhook.Security.Ranges.{IsPrivate}
use anyhook.Spec.{same_key}
use anyhook.Types.{Payload}
use anyhook.Tests.{message}
use anyhook.Tests.Security.{loopback, mixed_Encodes, url_of, no_options}
use anyhook.Tests.Strokes.{strokes, strokes-IsDigits}

-- what each object holds under each key
record Objects : Type 0 where
  of_tenants : String → String → Option tenant_do.Value
  of_endpoints : String → String → Option endpoint_do.Value

abbrev empty : Objects
empty = record { of_tenants = λ n k. none; of_endpoints = λ n k. none }

abbrev put_tenant : String → String → tenant_do.Value → Objects → Objects
put_tenant n k v w = record w {
  of_tenants = λ o j. if same_key n k o j then some v else w.of_tenants o j;
}

abbrev put_endpoint : String → String → endpoint_do.Value → Objects → Objects
put_endpoint n k v w = record w {
  of_endpoints = λ o j. if same_key n k o j then some v else w.of_endpoints o j;
}

abbrev tenants : String → Storage Objects tenant_do.Value
tenants n = record {
  get = λ k w. (ok (w.of_tenants n k), w);
  put = λ k v w. (ok tt, put_tenant n k v w);
  delete = λ k w.
      (ok tt, record w { of_tenants = λ o j. if same_key n k o j then none else w.of_tenants o j });
  list = λ prefix w. (ok [], w);
  get_alarm = λ w. (ok none, w);
  set_alarm = λ t w. (ok tt, w);
}

abbrev endpoints : String → Storage Objects endpoint_do.Value
endpoints n = record {
  get = λ k w. (ok (w.of_endpoints n k), w);
  put = λ k v w. (ok tt, put_endpoint n k v w);
  delete = λ k w. (
    ok tt,
    record w { of_endpoints = λ o j. if same_key n k o j then none else w.of_endpoints o j },
  );
  list = λ prefix w. (ok [], w);
  get_alarm = λ w. (ok none, w);
  set_alarm = λ t w. (ok tt, w);
}

are_objects : AreObjects tenants endpoints strokes (λ w. w.of_tenants) (λ w. w.of_endpoints)
are_objects = record {
  of_tenants = record {
    get_lem = λ n k w. refl;
    put_at = put_tenant;
    put_lem = λ n k v w. refl;
    held-put = λ n k o j v w. refl;
  };
  of_endpoints = record {
    get_lem = λ n k w. refl;
    put_at = put_endpoint;
    put_lem = λ n k v w. refl;
    held-put = λ n k o j v w. refl;
  };
  tenant_apart = λ n k o j v w. refl;
  endpoint_apart = λ n k o j v w. refl;
}

put_message-get_message_example :
    let v : Objects = (put_message tenants endpoints strokes message empty).1 in
    ((put_message tenants endpoints strokes message empty).0 ≡ ok tt)
    × ((get_message tenants endpoints strokes message.tenant message.message_id v).0
        ≡ ok (some message))
    × ((u j : String)
        → same_key message.tenant message.message_id u j ≡ false
        → (get_message tenants endpoints strokes u j v).0
          ≡ (get_message tenants endpoints strokes u j empty).0)
put_message-get_message_example =
    put_message-get_message tenants endpoints strokes (λ w. w.of_tenants) (λ w. w.of_endpoints)
      are_objects strokes-IsDigits message empty refl

abbrev colon_tenant : String
colon_tenant = "a:b"

abbrev endpoint_x : String
endpoint_x = "x"

endpoint_do_name-inj_example : (colon_tenant ≡ colon_tenant) × (endpoint_x ≡ endpoint_x)
endpoint_do_name-inj_example =
    endpoint_do_name-inj strokes strokes-IsDigits colon_tenant colon_tenant endpoint_x endpoint_x
      refl

-- a target that would answer
abbrev reachable : String → Payload → Dict String → ℕ → Exec ℕ Fetched
reachable url body headers timeout_ms calls =
    (ok (Fetched.answered "basic" 200 (some "ok") []), calls + 1)

post-refuses-IsPrivate_example :
    post
      (λ s. s)
      reachable
      (with_default_policy (λ s. s) url_of no_options none)
      "https://0177.0x0.0.1/"
      none
      []
      1000
      0
    ≡ (ok HttpResult.network, 0)
post-refuses-IsPrivate_example =
    post-refuses-IsPrivate (λ s. s) url_of no_options none reachable "https://0177.0x0.0.1/" none []
      1000 (record { protocol = "https:"; hostname = "0177.0x0.0.1" }) loopback 0 refl
      (record { a = omega arith; b = omega arith; c = omega arith; d = omega arith }) mixed_Encodes
      (IsPrivate.loopback refl)

abbrev quiet : MockReceiver
quiet = record { default_ = Script.succeed; calls = []; routes = []; counters = [] }

abbrev posted : String → Posted
posted url = record {
  call = record { url = url; body = none; headers = []; ts = 7 };
  timeout_ms = 1000;
}

-- one post to the URL, one to another, and one to the URL again
abbrev posts : List Posted
posts = posted "https://a.example" ∷ posted "https://b.example" ∷ posted "https://a.example" ∷ []

post_all-fail_then_ok_example :
    let s = post_all posts (on "https://a.example" (Script.fail_then_ok 2) quiet) in
    ((receiver.post 7 "https://a.example" none [] 1000 s).0
      ≡ ok (
          if ltb (posts_to "https://a.example" posts) 2
          then HttpResult.response 500 "err" none
          else HttpResult.response 200 "ok" none))
    × (s.calls ≡ quiet.calls ++ map (λ p. p.call) posts)
unfolding Dict.get
post_all-fail_then_ok_example =
    post_all-fail_then_ok 2 "https://a.example" posts (posted "https://a.example") quiet refl refl
