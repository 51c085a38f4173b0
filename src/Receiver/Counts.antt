-- ===== src/Receiver/Counts.antt =====
-- Series of posts to the scriptable target (packages/testing/src/mock-receiver.ts).
use mathlib.Core.List.{append-nil, append_assoc}
use anyhook.Base.{
  ◌∙◌, ℕ, ◌+◌, ◌≡◌, refl, ap, String, none, List, [], ◌∷◌, ◌++◌, length, filter, map, sym, ltb,
  ◌==◌, ==_refl, eq_iff, Bool-cases, inl, inr, if◌then◌else◌, arith,
}
use anyhook.Base.Dict
use anyhook.Base.Dict.{Dict}
use anyhook.Base.Exec.{ok}
use anyhook.Engine.{or_default}
use anyhook.Ports.{HttpResult}
use anyhook.Receiver.{Script, MockReceiver, RecordedCall, post, answer, on}

-- one post: what is called, when, and with what time to wait
pub record Posted : Type 0 where
  pub call : RecordedCall
  pub timeout_ms : ℕ

-- The target after a series of posts, to any URLs.
unfoldable pub post_all : List Posted → MockReceiver → MockReceiver
unfolding post
post_all [] r = r
post_all (p ∷ posts) r =
    post_all posts (post p.call.ts p.call.url p.call.body p.call.headers p.timeout_ms r).1

-- how many of the posts are to a URL
abbrev pub posts_to : String → List Posted → ℕ
posts_to url posts = length (filter (λ p. p.call.url == url) posts)

abbrev pub seen : String → MockReceiver → ℕ
seen url r = or_default (Dict.get url r.counters) 0

abbrev pub script_of : String → MockReceiver → Script
script_of url r = or_default (Dict.get url r.routes) r.default_

seen-post :
    (url : String) (p : Posted) (r : MockReceiver)
    → seen url (post p.call.ts p.call.url p.call.body p.call.headers p.timeout_ms r).1
      ≡ (if p.call.url == url then 1 else 0) + seen url r
unfolding post
seen-post url p r = elim (Bool-cases (p.call.url == url)) [
  | inl h ↦
      let e : p.call.url ≡ url = (eq_iff p.call.url url).0 h in
      rw (Dict.get-set, h) (rw e (omega arith))
  | inr h ↦ rw (Dict.get-set, h) (omega arith)
]

on-script_of : (url : String) (x : Script) (r : MockReceiver) → script_of url (on url x r) ≡ x
unfolding on
on-script_of url x r = rw (Dict.get-set, ==_refl url) refl

post_all-seen :
    (url : String) (posts : List Posted) (r : MockReceiver)
    → (seen url (post_all posts r) ≡ posts_to url posts + seen url r)
      × (script_of url (post_all posts r) ≡ script_of url r)
      × ((post_all posts r).calls ≡ r.calls ++ map (λ p. p.call) posts)
unfolding post_all
post_all-seen url [] r = (omega arith, refl, sym (append-nil r.calls))
post_all-seen url (p ∷ posts) r =
    let v : MockReceiver =
      (post p.call.ts p.call.url p.call.body p.call.headers p.timeout_ms r).1 in
    let (count, script, calls) = post_all-seen url posts v in
    (
      count
          ∙ ap (λ n. posts_to url posts + n) (seen-post url p r)
          ∙ counted url p posts (seen url r),
      script,
      calls ∙ append_assoc r.calls (p.call ∷ []) (map (λ p. p.call) posts),
    )
  where
    counted :
        (url : String) (p : Posted) (posts : List Posted) (n : ℕ)
        → posts_to url posts + ((if p.call.url == url then 1 else 0) + n)
          ≡ posts_to url (p ∷ posts) + n
    counted url p posts n = elim (Bool-cases (p.call.url == url)) [
      | inl h ↦ rw h (omega arith)
      | inr h ↦ rw h (omega arith)
    ]

-- A URL that is scripted to fail its first `failures` posts, and has had none: after any series of posts, to
-- this URL and to others, the next post to it is answered with status 500 if fewer than `failures` of the
-- series were to it, and with 200 else; and the calls of the series are recorded, in order.
pub post_all-fail_then_ok :
    (failures : ℕ) (url : String) (posts : List Posted) (next : Posted) (r : MockReceiver)
    → next.call.url ≡ url
    → seen url r ≡ 0
    → let s = post_all posts (on url (Script.fail_then_ok failures) r) in
      ((post next.call.ts next.call.url next.call.body next.call.headers next.timeout_ms s).0
        ≡ ok (
            if ltb (posts_to url posts) failures
            then HttpResult.response 500 "err" none
            else HttpResult.response 200 "ok" none))
      × (s.calls ≡ r.calls ++ map (λ p. p.call) posts)
unfolding post answer on
post_all-fail_then_ok failures url posts next r e h =
    let start : MockReceiver = on url (Script.fail_then_ok failures) r in
    let (count, script, calls) = post_all-seen url posts start in
    let again : MockReceiver = post_all posts start in
    (
      rw e (
          ap (λ x. ok (answer x (seen url again) next.timeout_ms))
            (script ∙ on-script_of url (Script.fail_then_ok failures) r)
          ∙ ap (λ n. ok (answer (Script.fail_then_ok failures) n next.timeout_ms))
              (count ∙ ap (λ n. posts_to url posts + n) h ∙ omega arith)),
      calls,
    )
