-- ===== src/Aws.antt =====
-- packages/aws/src/config.ts: the names of the tables, the keys of the single table and the
-- configuration. The DynamoDB and SQS clients are values of types that are parameters, and `show`
-- prints a number.
pub mod Table
pub mod Items
pub mod Tenants
pub mod Log
pub mod Gates
pub mod Scheduler
pub mod Sweeper
pub mod Transport
pub mod Adapter
pub mod Calls
pub mod Partition
pub mod Isolation
use Prim.Native.String.{◌++◌}
use anyhook.Base.{ℕ, ◌*◌, String, Option, none, some, ◌==◌, if◌then◌else◌}
use anyhook.Base.Exec.{Result, ok, err, env_required}
use anyhook.Base.Text.{pad_start}
use anyhook.Engine.{or_default}
use anyhook.Types.{ms}

abbrev pub default_due_at_index_name : String
default_due_at_index_name = "due_at-index"

abbrev pub sched_gsi_pk : String
sched_gsi_pk = "SCHED"

abbrev pub sqs_max_delay_ms : ℕ
sqs_max_delay_ms = ms 900000

abbrev pub sched_ttl_grace_seconds : ℕ
sched_ttl_grace_seconds = 7 * 24 * 60 * 60

abbrev pub sweeper_lease_seconds : ℕ
sweeper_lease_seconds = 300

abbrev pub aws_max_payload_bytes : ℕ
aws_max_payload_bytes = 200 * 1024

-- The clients are those that were built before, `D` for DynamoDB and `S` for SQS.
pub record AwsConfig (D S : Type 0) : Type 0 where
  pub table_name : String
  pub queue_url : String
  pub due_at_index_name : Option String
  pub region : Option String
  pub endpoint : Option String
  pub ddb_doc_client : Option D
  pub sqs_client : Option S

pub record Env (D S : Type 0) : Type 0 where
  pub table_name : String
  pub queue_url : String
  pub due_at_index_name : String
  pub ddb : D
  pub sqs : S

module _ {D S : Type 0} (aws_region : Option String) (new_ddb : String → Option String → D)
    (new_sqs : String → Option String → S) where
  unfoldable pub resolve_env : AwsConfig D S → Env D S
  resolve_env config =
      let region : String = or_default config.region (or_default aws_region "us-east-1") in
      record {
        table_name = config.table_name;
        queue_url = config.queue_url;
        due_at_index_name = or_default config.due_at_index_name default_due_at_index_name;
        ddb = or_default config.ddb_doc_client (new_ddb region config.endpoint);
        sqs = or_default config.sqs_client (new_sqs region config.endpoint);
      }

-- `if (!v) throw new Error(…)`: a variable that is missing or empty
unfoldable pub required : String → Option String → Result String
required name none = err (env_required name)
required name (some v) = if v == "" then err (env_required name) else ok v

-- The two checks one after the other, and then the configuration.
unfoldable pub with_required :
    {D S : Type 0}
    → (String → Option String)
    → Result String
    → Result String
    → Result (AwsConfig D S)
with_required env (err e) queue_url = err e
with_required env (ok table_name) (err e) = err e
with_required env (ok table_name) (ok queue_url) = ok (record {
  table_name = table_name;
  queue_url = queue_url;
  due_at_index_name = env "ANYHOOK_DUE_AT_INDEX_NAME";
  region = env "AWS_REGION";
  endpoint = none;
  ddb_doc_client = none;
  sqs_client = none;
})

unfoldable pub config_from_env : {D S : Type 0} → (String → Option String) → Result (AwsConfig D S)
unfolding with_required required
config_from_env env =
    with_required env (required "ANYHOOK_TABLE_NAME" (env "ANYHOOK_TABLE_NAME"))
      (required "ANYHOOK_QUEUE_URL" (env "ANYHOOK_QUEUE_URL"))

-- PK and SK
pub record Key : Type 0 where
  pub pk : String
  pub sk : String

abbrev pub tenant_pk : String → String
tenant_pk tenant = "TENANT#" ++ tenant

abbrev pub endpoint_sk : String → String
endpoint_sk endpoint_id = "EP#" ++ endpoint_id

abbrev pub message_sk : String → String
message_sk message_id = "MSG#" ++ message_id

abbrev pub message_index_sk : String → String
message_index_sk message_id = "MIDX#" ++ message_id

abbrev pub attempt_sk_prefix : String → String
attempt_sk_prefix message_id = "ATT#" ++ message_id ++ "#"

abbrev pub attempt_counter_sk : String → String
attempt_counter_sk message_id = "ATTCOUNT#" ++ message_id

abbrev pub circuit_sk : String → String
circuit_sk endpoint_id = "CIRCUIT#" ++ endpoint_id

abbrev pub rate_sk : String → String
rate_sk endpoint_id = "RATE#" ++ endpoint_id

abbrev pub dlq_counter_sk : String
dlq_counter_sk = "DLQSEQ"

abbrev pub idem_sk : String → String
idem_sk idem_key = "IDEM#" ++ idem_key

abbrev pub sched_sk : String → String
sched_sk message_id = "SCHED#" ++ message_id

module _ (show : ℕ → String) where
  abbrev pub attempt_sk : String → ℕ → String
  attempt_sk message_id seq = "ATT#" ++ message_id ++ "#" ++ pad_start 10 (show seq)

  abbrev pub dlq_sk : ℕ → String
  dlq_sk seq = "DLQ#" ++ pad_start 16 (show seq)
