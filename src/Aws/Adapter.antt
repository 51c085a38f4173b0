-- ===== src/Aws/Adapter.antt =====
-- packages/aws/src/adapter.ts: the ports of the engine on AWS. The platform is a parameter: the table, the
-- queue, fetch, new URL and the clock, and what the engine brings itself (the draws, the telemetry sink, the
-- hash, the reading of numbers and the signer of the signing package).
pub mod Isolation
use anyhook.Aws.{aws_max_payload_bytes}
use anyhook.Aws.Gates.{get_circuit, put_circuit, get_rate_bucket, put_rate_bucket}
use anyhook.Aws.Log.{put_message, append_attempt, add_to_dlq}
use anyhook.Aws.Scheduler.{schedule_retry}
use anyhook.Aws.Table.{Table}
use anyhook.Aws.Tenants.{record_event, finalize_event, get_endpoint, match_endpoints}
use anyhook.Base.{ℕ, String, List, Option, none, some}
use anyhook.Base.Dict.{Dict}
use anyhook.Base.Exec.{Exec, ok}
use anyhook.Engine.{EngineConfig, configure}
use anyhook.Fetch.{Fetched, post}
use anyhook.Fetch.Refusals.{with_default_policy}
use anyhook.Ports.{DeliveryStore, Ports}
use anyhook.Security.Policy.{UrlPolicyOptions, Parsed, check}
use anyhook.Types.{Message, Attempt, Payload}

pub record Platform (W : Type 0) : Type 0 where
  pub table : Table W
  pub sqs_send : Message → ℕ → Exec W (Unit {0})
  pub transport_send : Message → Exec W (Unit {0})
  pub fetch : String → Payload → Dict String → ℕ → Exec W Fetched
  pub new_url : String → Option Parsed
  pub to_lower : String → String
  pub clock_now : Exec W ℕ
  pub rng : Exec W ℕ
  pub record_attempt : Attempt → Exec W (Unit {0})
  pub sign : List String → String → Payload → ℕ → Dict String
  pub sha256_hex : String → String
  pub to_number : String → Option ℕ
  pub show : ℕ → String

module _ {W : Type 0} (p : Platform W) (fuel : ℕ) where
  -- the part of DynamoStateStore that the engine uses
  abbrev pub dynamo_store : DeliveryStore W
  dynamo_store = record {
    record_event = record_event p.table;
    finalize_event = finalize_event p.table;
    get_endpoint = get_endpoint p.table;
    match_endpoints = match_endpoints p.table fuel;
    put_message = put_message p.table;
    append_attempt = append_attempt p.table p.show;
    get_circuit = get_circuit p.table;
    put_circuit = put_circuit p.table;
    get_rate_bucket = get_rate_bucket p.table;
    put_rate_bucket = put_rate_bucket p.table;
    add_to_dlq = add_to_dlq p.table p.show;
  }

  abbrev pub default_options : UrlPolicyOptions
  default_options = record { allow_http = none; extra_deny = none }

  unfoldable pub adapter_ports : Ports W
  unfolding with_default_policy check
  adapter_ports = record {
    state = dynamo_store;
    transport_send = p.transport_send;
    schedule_retry = schedule_retry p.table p.sqs_send p.clock_now;
    post = post p.to_lower p.fetch (with_default_policy p.to_lower p.new_url default_options none);
    sign = p.sign;
    check_url = λ url w. (ok (check p.to_lower p.new_url default_options url), w);
    now = p.clock_now;
    rng = p.rng;
    record_attempt = p.record_attempt;
    sha256_hex = p.sha256_hex;
    to_number = p.to_number;
  }

-- buildEngine: the defaults of the engine, but for the limit on payloads
unfoldable pub engine_config : EngineConfig
unfolding configure
engine_config = configure (record {
  schedule_ms = none;
  failure_threshold = none;
  cooldown_ms = none;
  max_payload_bytes = some aws_max_payload_bytes;
  timeout_ms = none;
})
