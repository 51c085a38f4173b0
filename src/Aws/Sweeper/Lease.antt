-- ===== src/Aws/Sweeper/Lease.antt =====
-- The lease of a swept row: who may send it, and what a failed send leaves
-- (packages/aws/src/sweeper.ts).
use anyhook.Aws.{Key}
use anyhook.Aws.Sweeper.{
  SweeperResult, lease_held, claimable, claim, after_claim, claim_item, sweep_item,
}
use anyhook.Aws.Table.{Item, Table, IsTable, Schedule, same}
use anyhook.Aws.Tenants.Receipts.{same_refl}
use anyhook.Base.{
  ℕ, suc, ◌+◌, ◌<◌, ◌≤◌, ◌≡◌, refl, ap, ◌∙◌, inl, inr, true, false, Bool-cases, Option, none, some,
  arith,
}
use anyhook.Base.Exec.{Exec, Error, Result, ok, err}
use anyhook.Types.{Message}

-- The row is gone, or a schedule that someone claimed at a time within the lease.
pub data Guarded (now_sec : ℕ) (v : Option Item) : Type 0 where
  gone : v ≡ none → Guarded now_sec v
  leased :
      (s : Schedule) (at : ℕ)
      → v ≡ some (Item.schedule s)
      → s.claimed_at ≡ some at
      → now_sec ≤ at + 300
      → Guarded now_sec v

Guarded-claimable :
    (now_sec : ℕ) (v : Option Item) → Guarded now_sec v → claimable now_sec v ≡ false
unfolding claimable
Guarded-claimable now_sec v (gone e) = rw e refl
Guarded-claimable now_sec v (leased s at e c h) = rw (e, c) (ground (arith, h))

-- no claim, or one whose lease is over
pub data Free (now_sec : ℕ) (claimed_at : Option ℕ) : Type 0 where
  unclaimed : claimed_at ≡ none → Free now_sec claimed_at
  over : (at : ℕ) → claimed_at ≡ some at → at + 300 < now_sec → Free now_sec claimed_at

Free-lease_held : (now_sec : ℕ) (c : Option ℕ) → Free now_sec c → lease_held now_sec c ≡ false
unfolding lease_held
Free-lease_held now_sec c (unclaimed e) = rw e refl
Free-lease_held now_sec c (over at e h) = rw e (ground (arith, h))

Free-claimable :
    (now_sec : ℕ) (s : Schedule)
    → Free now_sec s.claimed_at
    → claimable now_sec (some (Item.schedule s)) ≡ true
unfolding claimable
Free-claimable now_sec s (unclaimed e) = rw e refl
Free-claimable now_sec s (over at e h) = rw e (ground (arith, h))

module _ {W : Type 0} (table : Table W) (held : W → Key → Option Item) (t : IsTable table held)
    (sqs_send : Message → ℕ → Exec W (Unit {0})) where
  -- The sweep of a listed row sends nothing, writes nothing and counts no claim.
  pub record Skips (now_sec : ℕ) (row : Key × Schedule) (result : SweeperResult) (w : W)
      : Type 0 where
    pub answer : SweeperResult
    pub skipped : sweep_item table sqs_send now_sec row result w ≡ (ok answer, w)
    pub claimed_same : answer.claimed ≡ result.claimed
    pub sent_same : answer.sent ≡ result.sent

  -- Over any table in which a row holds what was written last: when a row is gone, or was claimed at most
  -- 300 seconds ago, the sweep of a listing of it, however old, returns with nothing sent and nothing
  -- written, and counts neither a claim nor a send.
  pub sweep_item-Skips :
      (now_sec : ℕ) (key : Key) (s : Schedule) (result : SweeperResult) (w : W)
      → Guarded now_sec (held w key)
      → Skips now_sec (key, s) result w
  unfolding sweep_item claim_item after_claim
  sweep_item-Skips now_sec key s result w g = elim (Bool-cases (lease_held now_sec s.claimed_at)) [
    | inl h ↦ record { answer = result; skipped = rw h refl; claimed_same = refl; sent_same = refl }
    | inr h ↦ record {
      answer = record result { due = suc result.due };
      skipped = rw (h, t.update_if_lem, Guarded-claimable now_sec (held w key) g) refl;
      claimed_same = refl;
      sent_same = refl;
    }
  ]

  -- The row with the claim of now.
  abbrev pub held_by : ℕ → Schedule → Option Item
  held_by now_sec s = some (Item.schedule (record s { claimed_at = some now_sec }))

  -- The send after the claim succeeds and the row is deleted, or it fails and the row stays with the claim.
  pub data Swept (now_sec : ℕ) (key : Key) (s : Schedule) (result : SweeperResult) (w : W)
      : Result SweeperResult × W → Type 0 where
    sent :
        (u v : W)
        → (sqs_send s.message 0 u).0 ≡ ok tt
        → held v key ≡ none
        → ((j : Key) → same key j ≡ false → held v j ≡ held w j)
        → Swept now_sec key s result w (
          ok (record {
            due = suc result.due;
            claimed = suc result.claimed;
            sent = suc result.sent;
          }),
          v,
        )
    failed :
        (u v : W) (e : Error)
        → (sqs_send s.message 0 u).0 ≡ err e
        → held v key ≡ held_by now_sec s
        → ((j : Key) → same key j ≡ false → held v j ≡ held w j)
        → Swept now_sec key s result w (err e, v)

  after_send-Swept :
      (now_sec : ℕ) (key : Key) (s : Schedule) (result : SweeperResult) (w u : W)
      (r : Result (Unit {0})) (v : W)
      → sqs_send s.message 0 u ≡ (r, v)
      → held v key ≡ held_by now_sec s
      → ((j : Key) → same key j ≡ false → held v j ≡ held w j)
      → Swept now_sec key s result w (after_claim table sqs_send key s.message result true u)
  unfolding after_claim
  after_send-Swept now_sec key s result w u (ok tt) v e h k =
      rw (e, t.delete_lem)
        (sent u _ (ap (λ p. p.0) e) (rw (t.held-write, same_refl) refl)
          (λ j d. rw (t.held-write, d) (k j d)))
  after_send-Swept now_sec key s result w u (err x) v e h k =
      rw e (failed u v x (ap (λ p. p.0) e) h k)

  module _
      (quiet : (m : Message) (d : ℕ) (u : W) (k : Key) → held (sqs_send m d u).1 k ≡ held u k) where
    -- Over any such table, and a queue that does not write to it: the sweep of a row that is there, with no
    -- claim or a claim more than 300 seconds old, sends its message; if the send succeeds the row is deleted
    -- and counted, and if it fails the sweep fails with the same error and the row stays, claimed now; no
    -- other row changes.
    pub sweep_item-Swept :
        (now_sec : ℕ) (key : Key) (s : Schedule) (result : SweeperResult) (w : W)
        → held w key ≡ some (Item.schedule s)
        → Free now_sec s.claimed_at
        → Swept now_sec key s result w (sweep_item table sqs_send now_sec (key, s) result w)
    unfolding sweep_item claim_item claim
    sweep_item-Swept now_sec key s result w h f =
        rw (Free-lease_held now_sec s.claimed_at f, t.update_if_lem, h, Free-claimable now_sec s f)
          (after_send-Swept now_sec key s result w _ _ _ refl
            (quiet _ _ _ _ ∙ rw (t.held-write, same_refl) refl)
            (λ j d. quiet _ _ _ _ ∙ rw (t.held-write, d) refl))
