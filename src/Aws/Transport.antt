-- ===== src/Aws/Transport.antt =====
-- packages/aws/src/transport-sqs.ts: SqsTransport. The producer of @anyq/sqs and JSON.parse of a message
-- are parameters; a state is the flag `connected` and the world.
use anyhook.Base.{Bool, true, false, String, Option, none, some, List, [], ◌∷◌, ◌++◌}
use anyhook.Base.Exec.{Exec, Result, ok, err, throw, ◌>>◌, no_handler, port_failed}
use anyhook.Types.{Message}

-- The part of an SQS record that the code reads.
pub record SqsRecord : Type 0 where
  pub message_id : String
  pub body : String

abbrev pub Handler : Type 0 → Type 0
Handler W = Message → Exec W (Unit {0})

-- The record's id joins the failures where its handler threw.
abbrev pub noted : Result (Unit {0}) → SqsRecord → List String → List String
noted (ok tt) record_ failures = failures
noted (err e) record_ failures = failures ++ record_.message_id ∷ []

module _ {W : Type 0} (connect : Exec W (Unit {0})) (publish : Message → Exec W (Unit {0})) where
  -- this.connected beside the world
  abbrev on_world : {A : Type 0} → Exec W A → Exec (Bool × W) A
  on_world f (connected, w) = let (r, v) = f w in (r, (connected, v))

  abbrev connected : Exec (Bool × W) (Unit {0})
  connected (_, w) = (ok tt, (true, w))

  unfoldable pub ensure_connected : Exec (Bool × W) (Unit {0})
  ensure_connected (true, w) = (ok tt, (true, w))
  ensure_connected (false, w) = (on_world connect >> connected) (false, w)

  unfoldable pub send : Message → Exec (Bool × W) (Unit {0})
  unfolding ensure_connected
  send m = do ensure_connected; on_world (publish m)

module _ {W : Type 0} (parse_message : String → Option Message) where
  -- h(JSON.parse(record.body))
  unfoldable pub handle_record : Handler W → SqsRecord → Exec W (Unit {0})
  handle_record h r = elim (parse_message r.body) [
    | none ↦ throw (port_failed "JSON.parse")
    | some m ↦ h m
  ]

  unfoldable pub dispatch_loop : Handler W → List SqsRecord → List String → Exec W (List String)
  unfolding handle_record
  dispatch_loop h [] failures w = (ok failures, w)
  dispatch_loop h (r ∷ records) failures w =
      let (result, v) = handle_record h r w in dispatch_loop h records (noted result r failures) v

  -- handler ?? this.handler
  unfoldable pub dispatch_records :
      Option (Handler W) → Option (Handler W) → List SqsRecord → Exec W (List String)
  unfolding dispatch_loop
  dispatch_records subscribed none records = elim subscribed [
    | none ↦ throw no_handler
    | some h ↦ dispatch_loop h records []
  ]
  dispatch_records subscribed (some h) records = dispatch_loop h records []
