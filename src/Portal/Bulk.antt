-- ===== src/Portal/Bulk.antt =====
-- Replaying the dead letters of an endpoint, over the in-memory store
-- (packages/core/src/portal/deliveries.ts, replayEndpoint).
use mathlib.Core.List.{append-nil, append_assoc}
use anyhook.Base.{
  ℕ, ◌≡◌, refl, sym, subst, ◌∙◌, ap, Bool, true, ◌&&◌, ◌||◌, Bool-cases, inl, inr, leb, ◌==◌,
  String, Option, none, some, List, [], ◌∷◌, ◌++◌, map, filter, length,
}
use anyhook.Base.Exec.{Exec, Result, ok, pure, ◌>>◌, for_each}
use anyhook.Engine.Simulation.{Simulates-bind, Simulates-pure, Simulates-for_each}
use anyhook.Memory.{MemoryState, of_endpoint}
use anyhook.Memory.Refines.{view}
use anyhook.Memory.State.{memory_state}
use anyhook.Portal.{replay_endpoint, since_kept}
use anyhook.Portal.Replay.{restarted, Sim, now, again, reenqueue-Sim, list_dlq-Sim}
use anyhook.Spec.{View, update}
use anyhook.Types.{DlqRow, Message}
use anyhook.World.{Outside, World, transport_send}
use anyhook.World.Refine.{view_world}

-- A dead letter for the endpoint (of any, for the empty text), and since the time if there is one.
abbrev pub wanted : String → Option ℕ → DlqRow → Bool
wanted endpoint_id none d = (endpoint_id == "") || (d.message.endpoint_id == endpoint_id)
wanted endpoint_id (some since) d =
    ((endpoint_id == "") || (d.message.endpoint_id == endpoint_id))
    && leb since d.message.created_at

filter-filter :
    (p q : DlqRow → Bool) (rows : List DlqRow)
    → filter p (filter q rows) ≡ filter (λ d. q d && p d) rows
filter-filter p q [] = refl
filter-filter p q (d ∷ rows) =
    let rest = filter-filter p q rows in
    elim (Bool-cases (q d)) [
      | inr h ↦ rw h rest
      | inl h ↦ elim (Bool-cases (p d)) [ inl k ↦ rw (h, k, rest) refl | inr k ↦ rw (h, k) rest ]
    ]

filter-true : (rows : List DlqRow) → filter (λ d. true) rows ≡ rows
filter-true [] = refl
filter-true (d ∷ rows) = ap (λ l. d ∷ l) (filter-true rows)

filter-same :
    (p q : DlqRow → Bool) (rows : List DlqRow)
    → ((d : DlqRow) → p d ≡ q d)
    → filter p rows ≡ filter q rows
filter-same p q rows h = ap (λ t. filter t rows) (λ i d. h d i)

-- What the code selects is what is wanted.
wanted_lem :
    (endpoint_id : String) (since : Option ℕ) (rows : List DlqRow)
    → filter (since_kept since) (of_endpoint (some endpoint_id) rows)
      ≡ filter (wanted endpoint_id since) rows
wanted_lem e none rows = elim (Bool-cases (e == "")) [
  | inl h ↦ rw h (filter-same (since_kept none) (wanted e none) rows (λ d. rw h refl))
  | inr h ↦ rw h (
      filter-true (filter (λ d. d.message.endpoint_id == e) rows)
      ∙ filter-same (λ d. d.message.endpoint_id == e) (wanted e none) rows (λ d. rw h refl))
]
wanted_lem e (some t) rows = elim (Bool-cases (e == "")) [
  | inl h ↦ rw h (filter-same (since_kept (some t)) (wanted e (some t)) rows (λ d. rw h refl))
  | inr h ↦ rw h (
      filter-filter (since_kept (some t)) (λ d. d.message.endpoint_id == e) rows
      ∙ filter-same (λ d. (d.message.endpoint_id == e) && leb t d.message.created_at)
          (wanted e (some t)) rows (λ d. rw h refl))
]

-- The messages after those of the dead letters are stored again, restarted, one after the other.
abbrev pub stored_again :
    ℕ → List DlqRow → (String → String → Option Message) → String → String → Option Message
stored_again at [] messages = messages
stored_again at (d ∷ dead) messages =
    stored_again at dead
      (update messages d.message.tenant d.message.message_id (some (restarted d.message at)))

-- What replaying a list of dead letters leaves: the message of each stored and queued again, in order.
pub record Requeues (dead : List DlqRow) (w v : World View) : Type 0 where
  pub queued : v.queue ≡ w.queue ++ map (λ d. restarted d.message w.clock) dead
  pub stored : v.store.message ≡ stored_again w.clock dead w.store.message
  pub dead_kept : v.store.dlq ≡ w.store.dlq
  pub attempts_kept : v.store.attempts ≡ w.store.attempts
  pub events_kept : v.store.event ≡ w.store.event
  pub scheduled_kept : v.scheduled ≡ w.scheduled

module _ (out : Outside) where
  again-all :
      (dead : List DlqRow) (w : World View)
      → ((for_each dead (λ d. again out d.message) w).0 ≡ ok tt)
        × Requeues dead w (for_each dead (λ d. again out d.message) w).1
  again-all [] w = (
    refl,
    record {
      queued = sym (append-nil w.queue);
      stored = refl;
      dead_kept = refl;
      attempts_kept = refl;
      events_kept = refl;
      scheduled_kept = refl;
    },
  )
  again-all (d ∷ dead) w =
      let u : World View = (again out d.message w).1 in
      let (o, r) = again-all dead u in
      (
        o,
        record {
          queued =
              r.queued
              ∙ append_assoc w.queue (restarted d.message w.clock ∷ [])
                  (map (λ d. restarted d.message w.clock) dead);
          stored = r.stored;
          dead_kept = r.dead_kept;
          attempts_kept = r.attempts_kept;
          events_kept = r.events_kept;
          scheduled_kept = r.scheduled_kept;
        },
      )

  module _ (tenant endpoint_id : String) (since : Option ℕ) where
    -- the dead letters that are selected
    abbrev pub selected : World View → List DlqRow
    selected w = filter (wanted endpoint_id since) (w.store.dlq tenant)

    abbrev replay_all : List DlqRow → Exec (World View) ℕ
    replay_all dead = for_each dead (λ d. again out d.message) >> pure (length dead)

    abbrev in_view : Exec (World View) ℕ
    in_view w =
        replay_all (filter (since_kept since) (of_endpoint (some endpoint_id) (w.store.dlq tenant)))
          w

    seen :
        Sim out
          (replay_endpoint (memory_state out) transport_send (now out) tenant endpoint_id since)
          in_view
    unfolding replay_endpoint
    seen =
        Simulates-bind (view_world view) _
          (λ w. (ok (of_endpoint (some endpoint_id) (w.store.dlq tenant)), w)) _
          (λ dead.
            for_each (filter (since_kept since) dead) (λ d. again out d.message)
            >> pure (length (filter (since_kept since) dead)))
          (list_dlq-Sim out tenant (some endpoint_id))
          λ dead.
            Simulates-bind (view_world view) _ _ _ _
              (Simulates-for_each (view_world view) (filter (since_kept since) dead) _ _
                λ d. reenqueue-Sim out d.message)
              λ _. Simulates-pure (view_world view) _

    -- Replaying an endpoint over the in-memory store always returns the number of the tenant's dead letters
    -- for the endpoint (of all, for the empty text), of those created at or after the given time if there is
    -- one. It stores and queues the message of each again, in order, with no attempt made, pending, without
    -- a time for the next attempt and created now, and leaves the dead letters, the attempts, the events
    -- and the schedule as they were.
    pub replay_endpoint-Requeues :
        (w : World MemoryState)
        → let r =
            replay_endpoint
              (memory_state out)
              transport_send
              (now out)
              tenant
              endpoint_id
              since
              w in
          (r.0 ≡ ok (length (selected (view_world view w))))
          × Requeues (selected (view_world view w)) (view_world view w) (view_world view r.1)
    replay_endpoint-Requeues w =
        let u = view_world view w in
        let (o, q) = again-all (selected u) u in
        subst
          (λ (r : Result ℕ × World View).
            (r.0 ≡ ok (length (selected u))) × Requeues (selected u) u r.1)
          (sym (
            seen.at w
            ∙ ap (λ dead. replay_all dead u) (wanted_lem endpoint_id since (u.store.dlq tenant))))
          (rw o (refl, q))
