-- ===== src/Aws/Calls.antt =====
-- The calls of DynamoStateStore (packages/aws/src/state-dynamo.ts), as data.
use anyhook.Aws.Gates as gates
use anyhook.Aws.Log as log
use anyhook.Aws.Table.{Table}
use anyhook.Aws.Tenants as tenants
use anyhook.Base.{ℕ, String, Option}
use anyhook.Ports.{NewEndpoint, EndpointPatch, DeliveryQuery}
use anyhook.Types.{Message, Attempt, CircuitRecord, RateBucket, DlqReason}

-- A call of a method, with its tenant where the arguments have it.
pub data Call : Type 0 where
  record_event : String → String → Call
  finalize_event : String → String → ℕ → Call
  create_endpoint : String → String → ℕ → NewEndpoint → Call
  get_endpoint delete_endpoint get_message get_circuit get_rate_bucket : String → Call
  update_endpoint : String → EndpointPatch → Call
  rotate_secret : String → String → Call
  put_message : Message → Call
  append_attempt : Attempt → Call
  list_endpoints : Call
  match_endpoints : String → Call
  list_deliveries : DeliveryQuery → Call
  put_circuit : String → CircuitRecord → Call
  put_rate_bucket : String → RateBucket → Call
  add_to_dlq : Message → DlqReason → Call
  list_dlq : Option String → Call

module _ {W : Type 0} (table : Table W) (show : ℕ → String) (fuel : ℕ) where
  -- the world after the call, for the tenant
  abbrev pub after : String → Call → W → W
  after t (Call.record_event event_id k) w = (tenants.record_event table t event_id k w).1
  after t (Call.finalize_event k event_id n) w = (tenants.finalize_event table t k event_id n w).1
  after t (Call.create_endpoint id secret now e) w =
      (tenants.create_endpoint table id secret now (record e { tenant = t }) w).1
  after t (Call.get_endpoint id) w = (tenants.get_endpoint table t id w).1
  after t (Call.delete_endpoint id) w = (tenants.delete_endpoint table t id w).1
  after t (Call.get_message id) w = (log.get_message table t id w).1
  after t (Call.get_circuit id) w = (gates.get_circuit table t id w).1
  after t (Call.get_rate_bucket id) w = (gates.get_rate_bucket table t id w).1
  after t (Call.update_endpoint id patch) w = (tenants.update_endpoint table t id patch w).1
  after t (Call.rotate_secret secret id) w = (tenants.rotate_secret table secret t id w).1
  after t (Call.put_message m) w = (log.put_message table (record m { tenant = t }) w).1
  after t (Call.append_attempt a) w = (log.append_attempt table show (record a { tenant = t }) w).1
  after t Call.list_endpoints w = (tenants.list_endpoints table fuel t w).1
  after t (Call.match_endpoints y) w = (tenants.match_endpoints table fuel t y w).1
  after t (Call.list_deliveries q) w =
      (log.list_deliveries table fuel (record q { tenant = t }) w).1
  after t (Call.put_circuit id rec) w = (gates.put_circuit table t id rec w).1
  after t (Call.put_rate_bucket id b) w = (gates.put_rate_bucket table t id b w).1
  after t (Call.add_to_dlq m r) w = (log.add_to_dlq table show (record m { tenant = t }) r w).1
  after t (Call.list_dlq id) w = (log.list_dlq table fuel t id w).1
