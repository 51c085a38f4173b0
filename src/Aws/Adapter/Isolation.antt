-- ===== src/Aws/Adapter/Isolation.antt =====
-- The engine on AWS, and the partitions of the table (packages/aws/src/adapter.ts).
use anyhook.Aws.{Key, tenant_pk, sched_sk}
use anyhook.Aws.Adapter.{Platform, adapter_ports, default_options}
use anyhook.Aws.Calls.{Call, after}
use anyhook.Aws.Isolation.{after-Kept}
use anyhook.Aws.Partition.{Owned, IsSound, Kept, Kept-preorder, put-Kept, tenant_pk-eq}
use anyhook.Aws.Scheduler.{schedule_retry, schedule_row, delay_seconds}
use anyhook.Aws.Table.{Item, IsTable}
use anyhook.Base.{ℕ, ◌+◌, ◌≡◌, refl, sym, subst, String, Option, none, ◌==◌, false, leb}
use anyhook.Base.Dict.{Dict}
use anyhook.Base.Exec.{Exec, ok}
use anyhook.Engine.{EngineConfig, process_message}
use anyhook.Engine.Within.{
  Within, Respects, Within-bind, Within-pure, Within-if, process_message-Within,
}
use anyhook.Security.Policy.{check}
use anyhook.Fetch.{FetchHttpClientOptions, post, post_with, checked, dispatch}
use anyhook.Fetch.Refusals.{with_default_policy}
use anyhook.Ports.{UrlVerdict}
use anyhook.Types.{Message, Attempt, Payload, ms}

module _ {W : Type 0} (p : Platform W) (held : W → Key → Option Item) (t : IsTable p.table held)
    (fuel : ℕ) where
  -- A call that does not write to the table.
  abbrev pub Silent : {A : Type 0} → Exec W A → Type 0
  Silent f = (w : W) (k : Key) → held (f w).1 k ≡ held w k

  pub record IsPlatform : Type 0 where
    pub sqs_silent : (m : Message) (d : ℕ) → Silent (p.sqs_send m d)
    pub fetch_silent :
        (url : String) (body : Payload) (h : Dict String) (d : ℕ) → Silent (p.fetch url body h d)
    pub clock_silent : Silent p.clock_now
    pub rng_silent : Silent p.rng
    pub telemetry_silent : (a : Attempt) → Silent (p.record_attempt a)

  module _ (tenant : String) where
    Silent-Within : {A : Type 0} (f : Exec W A) → Silent f → Within (Kept p.table held t tenant) f
    Silent-Within f s = record {
      at = λ w. record {
        sound = λ sound k. subst (Owned k) (sym (s w k)) (sound k);
        others = λ sound k d. s w k;
      };
    }

  calls-Within :
      (tenant : String) (c : Call) (w : W)
      → Kept p.table held t tenant w (after p.table p.show fuel tenant c w)
  calls-Within tenant c w = after-Kept p.table held t tenant p.show fuel c w

  -- A call for a tenant that is the same.
  moved :
      {A : Type 0} (t₁ t₂ : String) (f : Exec W A)
      → t₁ ≡ t₂
      → Within (Kept p.table held t t₁) f
      → Within (Kept p.table held t t₂) f
  moved t₁ t₂ f e h = subst (λ u. Within (Kept p.table held t u) f) e h

  schedule_retry-Within :
      (i : IsPlatform) (m : Message) (at : ℕ)
      → Within (Kept p.table held t m.tenant) (schedule_retry p.table p.sqs_send p.clock_now m at)
  unfolding schedule_retry
  schedule_retry-Within i m at =
      Within-bind (Kept-preorder p.table held t m.tenant) _ _
        (Silent-Within m.tenant p.clock_now i.clock_silent)
        (λ now.
          Within-if (Kept-preorder p.table held t m.tenant) (leb at (now + ms 900000)) _ _
            (Silent-Within m.tenant _ (i.sqs_silent m (delay_seconds now at)))
            (put-Kept p.table held t m.tenant (sched_sk m.message_id)
              (Item.schedule (schedule_row m at)) tt))

  checked-Within :
      (tenant : String) (i : IsPlatform) (opts : FetchHttpClientOptions W) (url : String)
      (body : Payload) (h : Dict String) (d : ℕ) (v : UrlVerdict)
      → Within (Kept p.table held t tenant) (checked p.to_lower p.fetch opts url body h d v)
  unfolding checked dispatch
  checked-Within tenant i opts url body h d v =
      Within-if (Kept-preorder p.table held t tenant) v.allowed _ _
        (Within-bind (Kept-preorder p.table held t tenant) (p.fetch url body h d) _
          (Silent-Within tenant _ (i.fetch_silent url body h d))
          (λ _. Within-pure (Kept-preorder p.table held t tenant) _))
        (Within-pure (Kept-preorder p.table held t tenant) _)

  post-Within :
      (tenant : String) (i : IsPlatform) (url : String) (body : Payload) (h : Dict String) (d : ℕ)
      → Within (Kept p.table held t tenant) (
          post p.to_lower p.fetch
            (with_default_policy p.to_lower p.new_url (default_options p fuel) none)
            url
            body
            h
            d)
  unfolding post post_with with_default_policy
  post-Within tenant i url body h d =
      Within-bind (Kept-preorder p.table held t tenant)
        (λ w. (ok (check p.to_lower p.new_url (default_options p fuel) url), w)) _
        (Silent-Within tenant _ (λ w k. refl))
        (λ v.
          checked-Within tenant i
            (with_default_policy p.to_lower p.new_url (default_options p fuel) none) url body h d v)

  adapter-Respects :
      (i : IsPlatform) (m : Message)
      → Respects (adapter_ports p fuel) (Kept p.table held t m.tenant) m
  unfolding adapter_ports
  adapter-Respects i m = record {
    pre = Kept-preorder p.table held t m.tenant;
    get_endpoint = record { at = calls-Within m.tenant (Call.get_endpoint m.endpoint_id) };
    put_message = λ k e _ _.
        moved k.tenant m.tenant _ e (record { at = calls-Within k.tenant (Call.put_message k) });
    append_attempt = λ a e _ _.
        moved a.tenant m.tenant _ e (record { at = calls-Within a.tenant (Call.append_attempt a) });
    get_circuit = record { at = calls-Within m.tenant (Call.get_circuit m.endpoint_id) };
    put_circuit = λ c. record { at = calls-Within m.tenant (Call.put_circuit m.endpoint_id c) };
    get_rate_bucket = record { at = calls-Within m.tenant (Call.get_rate_bucket m.endpoint_id) };
    put_rate_bucket =
        λ b. record { at = calls-Within m.tenant (Call.put_rate_bucket m.endpoint_id b) };
    add_to_dlq = λ r. record { at = calls-Within m.tenant (Call.add_to_dlq m r) };
    schedule_retry = λ k at e _ _. moved k.tenant m.tenant _ e (schedule_retry-Within i k at);
    check_url = λ url. Silent-Within m.tenant _ (λ w k. refl);
    post = λ url body h d. post-Within m.tenant i url body h d;
    now = Silent-Within m.tenant _ i.clock_silent;
    rng = Silent-Within m.tenant _ i.rng_silent;
    record_attempt = λ a _ _. Silent-Within m.tenant _ (i.telemetry_silent a);
  }

  -- Over any table in which a row holds what was written last, in which every endpoint lies under the key of
  -- its tenant and id, and a queue, fetch, clock, draws and telemetry that do not write to it: after the engine
  -- on AWS has processed a message, however that ended, every endpoint still lies under its key, and every
  -- row in the partition of another tenant is as it was.
  pub process_message-Partitioned :
      (i : IsPlatform) (cfg : EngineConfig) (m : Message) (w : W)
      → IsSound p.table held t w
      → let v : W = (process_message (adapter_ports p fuel) cfg m w).1 in
        IsSound p.table held t v
        × ((u sk : String)
            → (u == m.tenant) ≡ false
            → held v (record { pk = tenant_pk u; sk = sk })
              ≡ held w (record { pk = tenant_pk u; sk = sk }))
  process_message-Partitioned i cfg m w s =
      let kept =
        (process_message-Within (adapter_ports p fuel) cfg m (adapter-Respects i m)).at w in
      (kept.sound s, λ u sk d. kept.others s _ (tenant_pk-eq u m.tenant d))
