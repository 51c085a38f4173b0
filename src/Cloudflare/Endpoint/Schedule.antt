-- ===== src/Cloudflare/Endpoint/Schedule.antt =====
-- The schedule and the alarm of an endpoint's Durable Object (packages/cloudflare/src/endpoint-do.ts).
use Prim.Native.String.{◌++◌ as text_append}
use text.Mathlib.TextLemmas.{cons-append, nil-append}
use anyhook.Base.Text.{drop_chars, has_colon, colon-append}
use anyhook.Base.{
  false, ℕ, ◌≤◌, ◌<◌, ◌≡◌, refl, String, Option, none, some, List, [], ◌∷◌, All, subst, arith, leb,
  ltb, Bool-cases, inl, inr,
}
use anyhook.Base.Exec.{Exec, ok}
use anyhook.Cloudflare.{Storage}
use anyhook.Cloudflare.Endpoint.{
  Value, schedule_retry, arm, earliest_remaining, earlier, sched_key, parse_sched_at,
}
use anyhook.Types.{Message}

-- The documented behaviour of the alarm: it is what was set last, and put leaves it alone.
pub record IsAlarm {W : Type 0} (storage : Storage W Value) (alarm : W → Option ℕ) : Type 0 where
  pub get_alarm_lem : (w : W) → storage.get_alarm w ≡ (ok (alarm w), w)
  pub armed : ℕ → W → W
  pub set_alarm_lem : (t : ℕ) (w : W) → storage.set_alarm t w ≡ (ok tt, armed t w)
  pub alarm-armed : (t : ℕ) (w : W) → alarm (armed t w) ≡ some t
  pub put_at : String → Value → W → W
  pub put_lem : (k : String) (v : Value) (w : W) → storage.put k v w ≡ (ok tt, put_at k v w)
  pub alarm-put_at : (k : String) (v : Value) (w : W) → alarm (put_at k v w) ≡ alarm w

-- an alarm that rings no later than a time
abbrev pub RingsBy : ℕ → Option ℕ → Type 0
RingsBy at none = ⊥
RingsBy at (some t) = t ≤ at

-- an alarm that rings no later than another
abbrev pub NoLater : Option ℕ → Option ℕ → Type 0
NoLater a none = Unit {0}
NoLater a (some t) = RingsBy t a

module _ {W : Type 0} (storage : Storage W Value) (digits : ℕ → String) (to_number : String → ℕ)
    (queue_send : Message → Exec W (Unit {0})) where
  module _ (alarm : W → Option ℕ) (s : IsAlarm storage alarm) where
    armed-covers :
        (at : ℕ) (current : Option ℕ) (w : W)
        → alarm w ≡ current
        → let r = arm storage digits to_number queue_send at current w in
          (r.0 ≡ ok tt) × RingsBy at (alarm r.1) × NoLater (alarm r.1) current
    unfolding arm
    armed-covers at none w e = rw (s.set_alarm_lem at w, s.alarm-armed at w) (refl, omega arith, tt)
    armed-covers at (some t) w e = elim (Bool-cases (ltb at t)) [
      | inl h ↦ rw (h, s.set_alarm_lem at w, s.alarm-armed at w) (refl, omega arith, ground arith)
      | inr h ↦ rw (h, e) (refl, ground arith, omega arith)
    ]

    -- Over a storage whose alarm is what was set last: scheduling a retry always returns, and the alarm then
    -- rings no later than the retry is due, and no later than it would have rung before.
    pub schedule_retry-covers :
        (m : Message) (at : ℕ) (w : W)
        → let r = schedule_retry storage digits to_number queue_send m at w in
          (r.0 ≡ ok tt) × RingsBy at (alarm r.1) × NoLater (alarm r.1) (alarm w)
    unfolding schedule_retry
    schedule_retry-covers m at w =
        let key : String = sched_key storage digits to_number queue_send at m.message_id in
        let v : W = s.put_at key (Value.message m) w in
        let (o, by, later) = armed-covers at (alarm v) v refl in
        rw (s.put_lem, s.get_alarm_lem) (o, by, rw⁻¹ (s.alarm-put_at key (Value.message m) w) later)

  -- `earlier` rings no later than either of the two.
  earlier-RingsBy : (x a : ℕ) (rest : Option ℕ) → RingsBy x rest → RingsBy x (earlier a rest)
  earlier-RingsBy x a none h = absurd h
  earlier-RingsBy x a (some t) h = elim (Bool-cases (ltb a t)) [
    | inl e ↦ rw e (ground arith)
    | inr e ↦ rw e h
  ]

  earlier_rings : (a : ℕ) (rest : Option ℕ) → RingsBy a (earlier a rest)
  earlier_rings a none = omega arith
  earlier_rings a (some t) = elim (Bool-cases (ltb a t)) [
    | inl e ↦ rw e (omega arith)
    | inr e ↦ rw e (ground arith)
  ]

  -- each entry that is not due is covered
  abbrev pub Covers : ℕ → Option ℕ → List (String × Message) → Type 0
  Covers now alarm rows =
      All (λ r. now < parse_sched_at to_number r.0 → RingsBy (parse_sched_at to_number r.0) alarm)
        rows

  Covers-earlier :
      (now a : ℕ) (alarm : Option ℕ) (rows : List (String × Message))
      → Covers now alarm rows
      → Covers now (earlier a alarm) rows
  Covers-earlier now a alarm [] h = tt
  Covers-earlier now a alarm (r ∷ rows) h = (
    λ late. earlier-RingsBy (parse_sched_at to_number r.0) a alarm (h.0 late),
    Covers-earlier now a alarm rows h.1,
  )

  -- The earliest of those that are not due rings no later than any of them is due.
  pub earliest_remaining-Covers :
      (now : ℕ) (rows : List (String × Message))
      → Covers now (earliest_remaining storage digits to_number queue_send now rows) rows
  unfolding earliest_remaining
  earliest_remaining-Covers now [] = tt
  earliest_remaining-Covers now (r ∷ rows) =
      let rest = earliest_remaining-Covers now rows in
      let before = earliest_remaining storage digits to_number queue_send now rows in
      elim (Bool-cases (leb (parse_sched_at to_number r.0) now)) [
        | inl h ↦
            subst (λ alarm. Covers now alarm (r ∷ rows)) (rw h refl)
              (λ (late : now < parse_sched_at to_number r.0). absurd (ground arith), rest)
        | inr h ↦
            subst (λ alarm. Covers now alarm (r ∷ rows)) (rw h refl)
              (
                λ (late : now < parse_sched_at to_number r.0).
                    earlier_rings (parse_sched_at to_number r.0) before,
                Covers-earlier now (parse_sched_at to_number r.0) before rows rest,
              )
      ]

  drop_sched : (s : String) → drop_chars 6 (text_append "sched:" s) ≡ s
  unfolding drop_chars
  drop_sched s =
      rw
        (
          cons-append "s" "ched:" s,
          cons-append "c" "hed:" s,
          cons-append "h" "ed:" s,
          cons-append "e" "d:" s,
          cons-append "d" ":" s,
          cons-append ":" "" s,
          nil-append s,
        )
        refl

  -- The time of a schedule key is read back, whatever the message's id, if the time is printed without a
  -- colon and its print is read back.
  pub parse_sched_at-sched_key :
      (at : ℕ) (message_id : String)
      → has_colon (digits at) ≡ false
      → to_number (digits at) ≡ at
      → parse_sched_at to_number (sched_key storage digits to_number queue_send at message_id) ≡ at
  unfolding parse_sched_at
  parse_sched_at-sched_key at message_id plain read =
      let (found, before) = colon-append (digits at) message_id plain in
      rw (drop_sched (text_append (digits at) (text_append ":" message_id)), found, before) read
