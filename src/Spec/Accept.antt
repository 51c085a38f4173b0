-- ===== src/Spec/Accept.antt =====
-- Accepting an event over the abstract store (packages/core/src/engine.ts, send).
pub mod Send
use Prim.Native.String.{len, ◌++◌ as text_append}
use anyhook.Ports.{Ports}
use anyhook.Base.{
  ℕ, zero, suc, ◌+◌, ◌≤◌, ◌<◌, ◌≡◌, refl, sym, ap, ◌∙◌, Bool, true, false, ◌&&◌, not, String,
  Option, none, some, List, [], ◌∷◌, ◌++◌, map, filter, All, length, arith, ◌==◌, ==_refl, ltb,
  if◌then◌else◌, Bool-cases, inl, inr,
}
use mathlib.Core.List.{append-nil, append_assoc}
use anyhook.Base.Exec.{Exec, Result, ok, pure, continue, for_each}
use anyhook.Engine.{EngineConfig, send, accept, record_and_accept, check_size, enqueue, or_default}
use anyhook.Fanout.{fanout, fresh_message, fresh_messages, subscribes}
use anyhook.Id.{new_id, id_loop, derive_idempotency_key}
use anyhook.Spec.{View, update, view_store}
use anyhook.Types.{SendEvent, Receipt, Message, Endpoint, EventRecord, pending}
use anyhook.World.{Outside, World, ports}

-- A message that `send` makes of an event.
pub record IsFresh (event : SendEvent) (id : String) (now : ℕ) (m : Message) : Type 0 where
  pub tenant : m.tenant ≡ event.tenant
  pub event_id : m.event_id ≡ id
  pub event_type : m.event_type ≡ event.type
  pub payload : m.payload ≡ event.payload
  pub attempt_no : m.attempt_no ≡ 0
  pub status : m.status ≡ pending
  pub created_at : m.created_at ≡ now

module _ (out : Outside) (cfg : EngineConfig) where
  abbrev pub P : Ports (World View)
  P = ports out view_store

  -- drawing an id changes only the number of draws
  id_loop-draws :
      (n : ℕ) (s : String) (w : World View)
      → (id : String) × (d : ℕ) × (id_loop P.rng n s w ≡ (ok id, record w { drawn = d }))
  unfolding id_loop
  id_loop-draws zero s w = (s, w.drawn, refl)
  id_loop-draws (suc n) s w = id_loop-draws n _ (record w { drawn = suc w.drawn })

  pub new_id-draws :
      (prefix : String) (w : World View)
      → (id : String) × (d : ℕ) × (new_id P.rng prefix w ≡ (ok id, record w { drawn = d }))
  unfolding new_id
  new_id-draws prefix w =
      let (s, d, e) = id_loop-draws 20 "" w in
      let name : String → Exec (World View) String =
        λ s. pure (text_append prefix (text_append "_" s)) in
      (
        text_append prefix (text_append "_" s),
        d,
        ap (λ (r : Result String × World View). continue r.0 name r.1) e,
      )

  fresh_messages-draws :
      (event : SendEvent) (id : String) (now : ℕ) (es : List Endpoint) (w : World View)
      → (ms : List Message) × (d : ℕ) × (fresh_messages P.rng event id now es w
          ≡ (ok ms, record w { drawn = d }))
        × (map (λ m. m.endpoint_id) ms ≡ map (λ e. e.endpoint_id) es)
        × All (IsFresh event id now) ms
  unfolding fresh_messages
  fresh_messages-draws event id now [] w = ([], w.drawn, refl, refl, tt)
  fresh_messages-draws event id now (e ∷ es) w =
      let (i, d, p) = new_id-draws "msg" w in
      let (ms, d', q, same, fresh) =
        fresh_messages-draws event id now es (record w { drawn = d }) in
      (
        record {
          message_id = i;
          tenant = event.tenant;
          endpoint_id = e.endpoint_id;
          event_id = id;
          event_type = event.type;
          payload = event.payload;
          attempt_no = 0;
          status = pending;
          next_attempt_at = none;
          created_at = now;
        }
            ∷ ms,
        d',
        rw p (rw q refl),
        ap (λ l. e.endpoint_id ∷ l) same,
        (
          record {
            tenant = refl;
            event_id = refl;
            event_type = refl;
            payload = refl;
            attempt_no = refl;
            status = refl;
            created_at = refl;
          },
          fresh,
        ),
      )

  enqueue-all :
      (ms : List Message) (w : World View)
      → (v : World View) × (for_each ms (enqueue P cfg) w ≡ (ok tt, v))
        × (v.queue ≡ w.queue ++ ms)
        × (v.store.event ≡ w.store.event)
        × (v.scheduled ≡ w.scheduled)
  unfolding enqueue
  enqueue-all [] w = (w, refl, sym (append-nil w.queue), refl, refl)
  enqueue-all (m ∷ ms) w =
      let w' : World View = record w {
        store = record w.store { message = update w.store.message m.tenant m.message_id (some m) };
        queue = w.queue ++ m ∷ [];
      } in
      let (v, e, q, f, s) = enqueue-all ms w' in (v, e, q ∙ append_assoc w.queue (m ∷ []) ms, f, s)

  -- What accepting a new event leaves: the receipt counts the messages, which wait in the queue, one
  -- for each of the endpoints, and the event is stored under its key with that count.
  pub record Accepts (event : SendEvent) (key id : String) (es : List Endpoint) (w : World View)
      (receipt : Receipt) (v : World View) : Type 0 where
    pub messages : List Message
    pub queued : v.queue ≡ w.queue ++ messages
    pub one_each : map (λ m. m.endpoint_id) messages ≡ map (λ e. e.endpoint_id) es
    pub fresh : All (IsFresh event id w.clock) messages
    pub receipt_id : receipt.event_id ≡ id
    pub receipt_count : receipt.message_count ≡ length messages
    pub stored :
        v.store.event event.tenant key
        ≡ some (record { event_id = id; message_count = length messages })

  abbrev pub wanted : SendEvent → World View → List Endpoint
  wanted event w =
      filter (λ e. not e.disabled && subscribes e event.type)
        (w.store.matching event.tenant event.type)

  pub accept-Accepts :
      (event : SendEvent) (key id : String) (w : World View)
      → (receipt : Receipt) × (v : World View) × (accept P cfg event key id w ≡ (ok receipt, v))
        × Accepts event key id (wanted event w) w receipt v
  unfolding accept fanout
  accept-Accepts event key id w =
      let (ms, d, e, same, fresh) = fresh_messages-draws event id w.clock (wanted event w) w in
      let (v, e', q, f, s) = enqueue-all ms (record w { drawn = d }) in
      (
        record { event_id = id; message_count = length ms },
        record v {
          store = record v.store {
            event =
                update v.store.event event.tenant key
                  (some (record { event_id = id; message_count = length ms }));
          };
        },
        rw e (rw e' refl),
        record {
          messages = ms;
          queued = q;
          one_each = same;
          fresh = fresh;
          receipt_id = refl;
          receipt_count = refl;
          stored = rw (==_refl event.tenant, ==_refl key) refl;
        },
      )
