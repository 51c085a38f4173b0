-- ===== src/Cloudflare/Endpoint/Release.antt =====
-- The release of the retries that are due: processDueSchedules of packages/cloudflare/src/endpoint-do.ts.
use mathlib.Core.List.{append-nil, append_assoc}
use anyhook.Base.{
  ℕ, suc, ◌<◌, ◌≡◌, refl, ap, sym, subst, ◌∙◌, String, Option, none, some, List, [], ◌∷◌, ◌++◌, map,
  length, filter, leb, ◌==◌, if◌then◌else◌, All, true, false, Bool-cases, inl, inr,
}
use anyhook.Base.Exec.{Exec, ok, for_each}
use anyhook.Cloudflare.{Storage}
use anyhook.Cloudflare.Endpoint.{
  Value, process_due_schedules, release, rearm, earliest_remaining, due_of, parse_sched_at, rows_of,
  message_of,
}
use anyhook.Cloudflare.Endpoint.Schedule.{
  RingsBy, Covers, earliest_remaining-Covers, parse_sched_at-sched_key,
}
use anyhook.Base.Text.{has_colon}
use anyhook.Types.{Message}
use Prim.Native.String.{◌++◌ as text_append}

-- The entries without those under a key.
abbrev pub without : String → List (String × Value) → List (String × Value)
without key rows = filter (λ r. if r.0 == key then false else true) rows

-- The documented behaviour of a storage whose entries under `sched:` are `rows`, and of a queue that holds
-- what was sent: list gives the entries, delete takes out those under the key, the alarm is what was set
-- last, a send is queued after the others, and none of the three touches what the others change.
pub record IsListing {W : Type 0} (storage : Storage W Value)
    (queue_send : Message → Exec W (Unit {0})) (rows : W → List (String × Value))
    (alarm : W → Option ℕ) (sent : W → List Message) : Type 0 where
  pub list_lem : (w : W) → storage.list "sched:" w ≡ (ok (rows w), w)
  pub deleted : String → W → W
  pub delete_lem : (k : String) (w : W) → storage.delete k w ≡ (ok tt, deleted k w)
  pub rows-deleted : (k : String) (w : W) → rows (deleted k w) ≡ without k (rows w)
  pub alarm-deleted : (k : String) (w : W) → alarm (deleted k w) ≡ alarm w
  pub sent-deleted : (k : String) (w : W) → sent (deleted k w) ≡ sent w
  pub queued : Message → W → W
  pub send_lem : (m : Message) (w : W) → queue_send m w ≡ (ok tt, queued m w)
  pub rows-queued : (m : Message) (w : W) → rows (queued m w) ≡ rows w
  pub alarm-queued : (m : Message) (w : W) → alarm (queued m w) ≡ alarm w
  pub sent-queued : (m : Message) (w : W) → sent (queued m w) ≡ sent w ++ m ∷ []
  pub armed : ℕ → W → W
  pub set_alarm_lem : (t : ℕ) (w : W) → storage.set_alarm t w ≡ (ok tt, armed t w)
  pub rows-armed : (t : ℕ) (w : W) → rows (armed t w) ≡ rows w
  pub alarm-armed : (t : ℕ) (w : W) → alarm (armed t w) ≡ some t
  pub sent-armed : (t : ℕ) (w : W) → sent (armed t w) ≡ sent w

-- The entries without those under the keys of a list.
abbrev pub without_all : List (String × Message) → List (String × Value) → List (String × Value)
without_all [] rows = rows
without_all ((key, m) ∷ due) rows = without_all due (without key rows)

module _ {W : Type 0} (storage : Storage W Value) (digits : ℕ → String) (to_number : String → ℕ)
    (queue_send : Message → Exec W (Unit {0})) (rows : W → List (String × Value))
    (alarm : W → Option ℕ) (sent : W → List Message)
    (s : IsListing storage queue_send rows alarm sent) where
  -- What the release of a list of entries leaves.
  record Released (due : List (String × Message)) (w v : W) : Type 0 where
    queue : sent v ≡ sent w ++ map (λ r. r.1) due
    left : rows v ≡ without_all due (rows w)
    alarm_kept : alarm v ≡ alarm w

  release-all :
      (due : List (String × Message)) (w : W)
      → let r = for_each due (release storage digits to_number queue_send) w in
        (r.0 ≡ ok tt) × Released due w r.1
  unfolding release
  release-all [] w =
      (refl, record { queue = sym (append-nil (sent w)); left = refl; alarm_kept = refl })
  release-all ((key, m) ∷ due) w =
      let v : W = s.deleted key (s.queued m w) in
      let (o, r) = release-all due v in
      rw (s.send_lem, s.delete_lem)
        (
          o,
          record {
            queue =
                r.queue
                ∙ ap (λ q. q ++ map (λ r. r.1) due)
                    (s.sent-deleted key (s.queued m w) ∙ s.sent-queued m w)
                ∙ append_assoc (sent w) (m ∷ []) (map (λ r. r.1) due);
            left =
                r.left
                ∙ ap (without_all due)
                    (s.rows-deleted key (s.queued m w) ∙ ap (without key) (s.rows-queued m w));
            alarm_kept = r.alarm_kept ∙ s.alarm-deleted key (s.queued m w) ∙ s.alarm-queued m w;
          },
        )

  -- the alarm, set if there is a time for it
  abbrev alarm_after : Option ℕ → Option ℕ → Option ℕ
  alarm_after none before = before
  alarm_after (some t) before = some t

  rearm_lem :
      (t : Option ℕ) (w : W)
      → let r = rearm storage digits to_number queue_send t w in
        (r.0 ≡ ok tt)
        × (rows r.1 ≡ rows w)
        × (sent r.1 ≡ sent w)
        × (alarm r.1 ≡ alarm_after t (alarm w))
  unfolding rearm
  rearm_lem none w = (refl, refl, refl, refl)
  rearm_lem (some t) w =
      rw (s.set_alarm_lem t w) (refl, s.rows-armed t w, s.sent-armed t w, s.alarm-armed t w)

  Covers-alarm_after :
      (now : ℕ) (t before : Option ℕ) (entries : List (String × Message))
      → Covers storage digits to_number queue_send now t entries
      → Covers storage digits to_number queue_send now (alarm_after t before) entries
  Covers-alarm_after now none before [] h = tt
  Covers-alarm_after now none before (r ∷ entries) h =
      (λ late. absurd (h.0 late), Covers-alarm_after now none before entries h.1)
  Covers-alarm_after now (some t) before entries h = h

  released_from :
      (now : ℕ) (w : W) (entries : List (String × Message))
      → rows_of message_of (rows w) ≡ entries
      → let r = process_due_schedules storage digits to_number queue_send now w in
        let due = due_of storage digits to_number queue_send now entries in
        (r.0 ≡ ok (length due))
        × (sent r.1 ≡ sent w ++ map (λ r. r.1) due)
        × (rows r.1 ≡ without_all due (rows w))
        × Covers storage digits to_number queue_send now (alarm r.1) entries
  unfolding process_due_schedules
  released_from now w entries e =
      let due = due_of storage digits to_number queue_send now entries in
      let (o, r) = release-all due w in
      let v : W = (for_each due (release storage digits to_number queue_send) w).1 in
      let t : Option ℕ = earliest_remaining storage digits to_number queue_send now entries in
      let (a, kept, queue, set) = rearm_lem t v in
      rw (s.list_lem w, e, o, a)
        (
          refl,
          queue ∙ r.queue,
          kept ∙ r.left,
          subst (λ a. Covers storage digits to_number queue_send now a entries) (sym set)
              (Covers-alarm_after now t (alarm v) entries
                (earliest_remaining-Covers storage digits to_number queue_send now entries)),
        )

  -- the key of a retry: sched:<time>:<message id>
  abbrev pub key_of : ℕ × Message → String
  key_of (at, m) = text_append "sched:" (text_append (digits at) (text_append ":" m.message_id))

  -- the entries of the retries, as the storage lists them
  abbrev pub listed : List (ℕ × Message) → List (String × Value)
  listed = map (λ e. (key_of e, Value.message e.1))

  -- the retries under their keys
  abbrev pub keyed : List (ℕ × Message) → List (String × Message)
  keyed = map (λ e. (key_of e, e.1))

  listed-keyed : (plan : List (ℕ × Message)) → rows_of message_of (listed plan) ≡ keyed plan
  listed-keyed [] = refl
  listed-keyed (e ∷ plan) = ap (λ l. (key_of e, e.1) ∷ l) (listed-keyed plan)

  messages-keyed : (plan : List (ℕ × Message)) → map (λ r. r.1) (keyed plan) ≡ map (λ e. e.1) plan
  messages-keyed [] = refl
  messages-keyed (e ∷ plan) = ap (λ l. e.1 ∷ l) (messages-keyed plan)

  length-keyed : (plan : List (ℕ × Message)) → length (keyed plan) ≡ length plan
  length-keyed [] = refl
  length-keyed (e ∷ plan) = ap suc (length-keyed plan)

  -- Times are printed without a colon, and read back.
  module _ (plain : (at : ℕ) → has_colon (digits at) ≡ false)
      (read : (at : ℕ) → to_number (digits at) ≡ at) where
    read-key : (e : ℕ × Message) → parse_sched_at to_number (key_of e) ≡ e.0
    read-key (at, m) =
        parse_sched_at-sched_key storage digits to_number queue_send at m.message_id (plain at)
          (read at)

    -- the retries whose time is not after now
    abbrev pub due : ℕ → List (ℕ × Message) → List (ℕ × Message)
    due now plan = filter (λ e. leb e.0 now) plan

    due-keyed :
        (now : ℕ) (plan : List (ℕ × Message))
        → due_of storage digits to_number queue_send now (keyed plan) ≡ keyed (due now plan)
    due-keyed now [] = refl
    due-keyed now (e ∷ plan) =
        let rest = due-keyed now plan in
        elim (Bool-cases (leb e.0 now)) [
          | inl h ↦ rw (read-key e, h) (ap (λ l. (key_of e, e.1) ∷ l) rest)
          | inr h ↦ rw (read-key e, h) rest
        ]

    Covers-keyed :
        (now : ℕ) (a : Option ℕ) (plan : List (ℕ × Message))
        → Covers storage digits to_number queue_send now a (keyed plan)
        → All (λ e. now < e.0 → RingsBy e.0 a) plan
    Covers-keyed now a [] h = tt
    Covers-keyed now a (e ∷ plan) h =
        (subst (λ n. now < n → RingsBy n a) (read-key e) h.0, Covers-keyed now a plan h.1)

    -- Over a storage that lists the retries of a plan, each under a key with its time and message id, a queue
    -- that takes what is sent, and a printing of times that has no colon and is read back: the release
    -- returns the number of the retries whose time is not after now; their messages, and no other, are
    -- sent, in order; the entries under their keys, and no other, are deleted; and the alarm then rings no
    -- later than the time of any retry that is later than now.
    pub process_due_schedules-Releases :
        (now : ℕ) (plan : List (ℕ × Message)) (w : W)
        → rows w ≡ listed plan
        → let r = process_due_schedules storage digits to_number queue_send now w in
          (r.0 ≡ ok (length (due now plan)))
          × (sent r.1 ≡ sent w ++ map (λ e. e.1) (due now plan))
          × (rows r.1 ≡ without_all (keyed (due now plan)) (listed plan))
          × All (λ e. now < e.0 → RingsBy e.0 (alarm r.1)) plan
    process_due_schedules-Releases now plan w e =
        let (o, queue, left, covered) =
          released_from now w (keyed plan) (ap (rows_of message_of) e ∙ listed-keyed plan) in
        let d = due-keyed now plan in
        (
          o ∙ ap (λ n. ok n) (ap length d ∙ length-keyed (due now plan)),
          queue ∙ ap (λ l. sent w ++ l) (ap (map (λ r. r.1)) d ∙ messages-keyed (due now plan)),
          left ∙ ap (λ l. without_all l (rows w)) d ∙ ap (without_all (keyed (due now plan))) e,
          Covers-keyed now _ plan covered,
        )
