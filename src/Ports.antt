-- ===== src/Ports.antt =====
-- packages/core/src/ports: the interfaces that the engine is written against, as actions on a world
-- `W`. An adapter is a value of `Ports`. `sign`, `sha256_hex` and `to_number` are code outside this
-- repository or of its runtime: `to_number s` is JavaScript's Number(s.trim()), where it is finite
-- and not negative, in units of 1 / `ticks_per_ms`.
use anyhook.Base.{ℕ, Bool, String, Option, List}
use anyhook.Base.Dict.{Dict}
use anyhook.Base.Exec.{Exec}
use anyhook.Types.{
  Endpoint, Message, MessageStatus, Attempt, CircuitRecord, RateBucket, DlqReason, DlqRow, Payload,
}

pub data HttpResult : Type 0 where
  response : ℕ → String → Option (Dict String) → HttpResult
  timeout network : HttpResult

pub record UrlVerdict : Type 0 where
  pub allowed : Bool
  pub reason : Option String

pub record RecordedEvent : Type 0 where
  pub is_new : Bool
  pub event_id : String
  pub message_count : ℕ

-- Omit<Endpoint, 'endpointId' | 'createdAt' | 'secrets' | 'disabled'>
pub record NewEndpoint : Type 0 where
  pub tenant : String
  pub url : String
  pub event_types : List String
  pub description : Option String
  pub rate_limit : Option ℕ

-- Partial<Pick<Endpoint, 'url' | 'eventTypes' | 'disabled'>>
pub record EndpointPatch : Type 0 where
  pub url : Option String
  pub event_types : Option (List String)
  pub disabled : Option Bool

pub record CreatedEndpoint : Type 0 where
  pub endpoint : Endpoint
  pub secret : String

pub record DeliveryQuery : Type 0 where
  pub tenant : String
  pub endpoint_id : Option String
  pub event_type : Option String
  pub status : Option MessageStatus
  pub before : Option ℕ
  pub after : Option ℕ
  pub limit : Option ℕ

pub record DeliveryRow : Type 0 where
  pub message : Message
  pub attempts : List Attempt

-- The part of StateStore that accepting and delivering messages needs.
pub record DeliveryStore (W : Type 0) : Type 0 where
  pub record_event : String → String → String → Exec W RecordedEvent
  pub finalize_event : String → String → String → ℕ → Exec W (Unit {0})
  pub get_endpoint : String → String → Exec W (Option Endpoint)
  pub match_endpoints : String → String → Exec W (List Endpoint)
  pub put_message : Message → Exec W (Unit {0})
  pub append_attempt : Attempt → Exec W (Unit {0})
  pub get_circuit : String → String → Exec W CircuitRecord
  pub put_circuit : String → String → CircuitRecord → Exec W (Unit {0})
  pub get_rate_bucket : String → String → Exec W (Option RateBucket)
  pub put_rate_bucket : String → String → RateBucket → Exec W (Unit {0})
  pub add_to_dlq : Message → DlqReason → Exec W (Unit {0})

-- All of StateStore.
pub record StateStore (W : Type 0) : Type 0 where
  pub delivery : DeliveryStore W
  pub open delivery use *
  pub create_endpoint : NewEndpoint → Exec W CreatedEndpoint
  pub list_endpoints : String → Exec W (List Endpoint)
  pub update_endpoint : String → String → EndpointPatch → Exec W Endpoint
  pub rotate_secret : String → String → Exec W String
  pub delete_endpoint : String → String → Exec W (Unit {0})
  pub get_message : String → String → Exec W (Option Message)
  pub list_deliveries : DeliveryQuery → Exec W (List DeliveryRow)
  pub list_dlq : String → Option String → Exec W (List DlqRow)

-- What the engine is constructed with.
pub record Ports (W : Type 0) : Type 0 where
  pub state : DeliveryStore W
  pub open state use *
  pub transport_send : Message → Exec W (Unit {0})
  pub schedule_retry : Message → ℕ → Exec W (Unit {0})
  pub post : String → Payload → Dict String → ℕ → Exec W HttpResult
  pub sign : List String → String → Payload → ℕ → Dict String
  pub check_url : String → Exec W UrlVerdict
  pub now : Exec W ℕ
  pub rng : Exec W ℕ
  pub record_attempt : Attempt → Exec W (Unit {0})
  pub sha256_hex : String → String
  pub to_number : String → Option ℕ
