-- ===== src/Run/Advance.antt =====
-- What advancing does to the queue and to the schedule: packages/testing/src/memory-scheduler.ts.
use mathlib.Core.List.{append-nil, append_assoc}
use anyhook.Base.{
  ℕ, suc, ◌+◌, ◌<◌, ◌≡◌, refl, ◌∙◌, ap, Bool, true, false, sym, length-append, List, [], ◌∷◌, ◌++◌,
  map, length, filter, All, arith, leb, ltb, Bool-cases, inl, inr,
}
use anyhook.Base.Exec.{ok, for_each}
use anyhook.Run.{advance}
use anyhook.Types.{Message}
use anyhook.World.{World, Scheduled, transport_send}

-- how many of the messages pass the test
abbrev pub counted : (Message → Bool) → List Message → ℕ
counted p ms = length (filter p ms)

abbrev pub messages_of : List Scheduled → List Message
messages_of ps = map (λ p. p.message) ps

length-messages : (ps : List Scheduled) → length (messages_of ps) ≡ length ps
length-messages [] = refl
length-messages (p ∷ ps) = ap suc (length-messages ps)

counted-append :
    (p : Message → Bool) (ms ns : List Message) → counted p (ms ++ ns) ≡ counted p ms + counted p ns
counted-append p [] ns = omega arith
counted-append p (m ∷ ms) ns =
    let rest = counted-append p ms ns in
    elim (Bool-cases (p m)) [ inl e ↦ rw e (omega (arith, rest)) | inr e ↦ rw e rest ]

gt_false : (a now : ℕ) → leb a now ≡ true → ltb now a ≡ false
gt_false a now h = ground arith

gt_true : (a now : ℕ) → leb a now ≡ false → ltb now a ≡ true
gt_true a now h = ground arith

counted-split :
    (p : Message → Bool) (now : ℕ) (ps : List Scheduled)
    → counted p (messages_of (filter (λ s. leb s.at now) ps))
        + counted p (messages_of (filter (λ s. ltb now s.at) ps))
      ≡ counted p (messages_of ps)
counted-split p now [] = omega arith
counted-split p now (s ∷ ps) =
    let rest = counted-split p now ps in
    elim (Bool-cases (p s.message)) [
      | inl e ↦ elim (Bool-cases (leb s.at now)) [
        | inl h ↦ rw (h, gt_false s.at now h, e) (omega (arith, rest))
        | inr h ↦ rw (h, gt_true s.at now h, e) (omega (arith, rest))
      ]
      | inr e ↦ elim (Bool-cases (leb s.at now)) [
        | inl h ↦ rw (h, gt_false s.at now h, e) (omega (arith, rest))
        | inr h ↦ rw (h, gt_true s.at now h, e) (omega (arith, rest))
      ]
    ]

queue-all :
    {S : Type 0} (ps : List Scheduled) (w : World S)
    → ((for_each ps (λ p. transport_send p.message) w).0 ≡ ok tt)
      × ((for_each ps (λ p. transport_send p.message) w).1
          ≡ record w { queue = w.queue ++ messages_of ps })
queue-all [] w = (refl, ap (λ q. record w { queue = q }) (sym (append-nil w.queue)))
queue-all (p ∷ ps) w =
    let (o, e) = queue-all ps (record w { queue = w.queue ++ p.message ∷ [] }) in
    (
      o,
      e ∙ ap (λ q. record w { queue = q }) (append_assoc w.queue (p.message ∷ []) (messages_of ps)),
    )

All-later : (now : ℕ) (ps : List Scheduled) → All (λ s. now < s.at) (filter (λ s. ltb now s.at) ps)
All-later now [] = tt
All-later now (s ∷ ps) = elim (Bool-cases (ltb now s.at)) [
  | inl h ↦ rw h (ground arith, All-later now ps)
  | inr h ↦ rw h (All-later now ps)
]

-- Advancing queues what is due by the clock, after what waits, and keeps the rest scheduled.
pub advance_lem :
    {S : Type 0} (w : World S)
    → (n : ℕ) × ((advance w).0 ≡ ok n)
      × ((advance w).1 ≡ record w {
        queue = w.queue ++ messages_of (filter (λ s. leb s.at w.clock) w.scheduled);
        scheduled = filter (λ s. ltb w.clock s.at) w.scheduled;
      })
unfolding advance
advance_lem w =
    let due = filter (λ (s : Scheduled). leb s.at w.clock) w.scheduled in
    let (o, e) =
      queue-all due (record w { scheduled = filter (λ s. ltb w.clock s.at) w.scheduled }) in
    rw o (length due, refl, e)

-- Advancing the schedule loses and repeats nothing: whatever one counts, the messages that wait and those
-- that are scheduled have as many of it as before; the count it returns is of the messages that it moves;
-- and what stays scheduled is later than the clock.
pub advance-counted :
    {S : Type 0} (w : World S) (p : Message → Bool)
    → let v : World S = (advance w).1 in
      (n : ℕ) × ((advance w).0 ≡ ok n)
      × (length v.queue ≡ length w.queue + n)
      × (counted p v.queue + counted p (messages_of v.scheduled)
          ≡ counted p w.queue + counted p (messages_of w.scheduled))
      × All (λ s. w.clock < s.at) v.scheduled
unfolding advance
advance-counted w p =
    let due = filter (λ (s : Scheduled). leb s.at w.clock) w.scheduled in
    let (o, e) =
      queue-all due (record w { scheduled = filter (λ s. ltb w.clock s.at) w.scheduled }) in
    rw (o, e)
      (
        length due,
        refl,
        length-append w.queue (messages_of due)
            ∙ ap (λ n. length w.queue + n) (length-messages due),
        omega (
          arith,
          counted-append p w.queue (messages_of due),
          counted-split p w.clock w.scheduled,
        ),
        All-later w.clock w.scheduled,
      )
