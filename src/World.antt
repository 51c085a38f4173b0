-- ===== src/World.antt =====
-- The world of one in-memory run, around any store `S`: packages/testing/src/memory-transport.ts,
-- memory-scheduler.ts and test-clock.ts, an HTTP target, a telemetry sink and a stream of draws.
pub mod Refine
use anyhook.Base.{ℕ, suc, ◌+◌, ◌++◌, String, Option, List, [], ◌∷◌}
use anyhook.Base.Dict.{Dict}
use anyhook.Base.Exec.{Exec, ok}
use anyhook.Ports.{DeliveryStore, Ports, HttpResult, UrlVerdict}
use anyhook.Types.{Message, Attempt, Payload}

-- One POST as the target sees it.
pub record Call : Type 0 where
  pub url : String
  pub body : Payload
  pub headers : Dict String
  pub timeout_ms : ℕ

-- What the target answers, and how long the clock runs meanwhile.
pub record Reply : Type 0 where
  pub result : HttpResult
  pub elapsed : ℕ

-- The code outside this repository: `respond` may look at the calls before.
pub record Outside : Type 0 where
  pub respond : List Call → Call → Reply
  pub draws : ℕ → ℕ
  pub random_base64 : ℕ → String
  pub sign : List String → String → Payload → ℕ → Dict String
  pub check_url : String → UrlVerdict
  pub sha256_hex : String → String
  pub to_number : String → Option ℕ

-- An entry of MemoryScheduler.pending
pub record Scheduled : Type 0 where
  pub at : ℕ
  pub message : Message

pub record World (S : Type 0) : Type 0 where
  pub store : S
  pub queue : List Message
  pub scheduled : List Scheduled
  pub clock : ℕ
  pub drawn : ℕ
  pub minted : ℕ
  pub calls : List Call
  pub emitted : List Attempt

module _ {S : Type 0} where
  abbrev pub on_store : {A : Type 0} → Exec S A → Exec (World S) A
  on_store f w = let (r, s) = f w.store in (r, record w { store = s })

  -- MemoryTransport.send
  abbrev pub transport_send : Message → Exec (World S) (Unit {0})
  transport_send m w = (ok tt, record w { queue = w.queue ++ m ∷ [] })

  -- MemoryScheduler.scheduleRetry
  abbrev pub schedule_retry : Message → ℕ → Exec (World S) (Unit {0})
  schedule_retry m at w =
      (ok tt, record w { scheduled = w.scheduled ++ record { at = at; message = m } ∷ [] })

  abbrev pub lift_store : DeliveryStore S → DeliveryStore (World S)
  lift_store s = record {
    record_event = λ t e k. on_store (s.record_event t e k);
    finalize_event = λ t k e n. on_store (s.finalize_event t k e n);
    get_endpoint = λ t e. on_store (s.get_endpoint t e);
    match_endpoints = λ t e. on_store (s.match_endpoints t e);
    put_message = λ m. on_store (s.put_message m);
    append_attempt = λ a. on_store (s.append_attempt a);
    get_circuit = λ t e. on_store (s.get_circuit t e);
    put_circuit = λ t e c. on_store (s.put_circuit t e c);
    get_rate_bucket = λ t e. on_store (s.get_rate_bucket t e);
    put_rate_bucket = λ t e b. on_store (s.put_rate_bucket t e b);
    add_to_dlq = λ m r. on_store (s.add_to_dlq m r);
  }

module _ {S : Type 0} (out : Outside) where
  abbrev post_call : Call → Exec (World S) HttpResult
  post_call call w =
      let reply = out.respond w.calls call in
      (ok reply.result, record w { calls = w.calls ++ call ∷ []; clock = w.clock + reply.elapsed })

  abbrev pub ports : DeliveryStore S → Ports (World S)
  ports s = record {
    state = lift_store s;
    transport_send = transport_send;
    schedule_retry = schedule_retry;
    post = λ url body headers timeout_ms.
        post_call (record { url = url; body = body; headers = headers; timeout_ms = timeout_ms });
    sign = out.sign;
    check_url = λ url w. (ok (out.check_url url), w);
    now = λ w. (ok w.clock, w);
    rng = λ w. (ok (out.draws w.drawn), record w { drawn = suc w.drawn });
    record_attempt = λ a w. (ok tt, record w { emitted = w.emitted ++ a ∷ [] });
    sha256_hex = out.sha256_hex;
    to_number = out.to_number;
  }
