-- ===== src/Aws/Sweeper/Paging.antt =====
-- What a whole sweep relies on: the paging of the index and the queue (packages/aws/src/sweeper.ts).
use anyhook.Aws.{Key, sched_gsi_pk}
use anyhook.Aws.Sweeper.{claim}
use anyhook.Aws.Table.{Item, Table, Page, IsTable, Schedule}
use anyhook.Base.{
  All, ◌⊎◌, inl, inr, refl, ◌∷◌, ◌++◌, ℕ, ◌<◌, ◌≤◌, ◌≡◌, Option, none, some, List, [], ◌∷◌,
}
use anyhook.Base.Exec.{Exec, ok}
use anyhook.Types.{Message}

-- The paging of the index: a query answers, each page that is not the last leaves less to read after its
-- last key, and neither a claim nor a delete nor a send adds to what is left to read after a key.
pub record IsDuePaged {W : Type 0} (table : Table W) (held : W → Key → Option Item)
    (t : IsTable table held) (sqs_send : Message → ℕ → Exec W (Unit {0}))
    (left : Option Key → W → ℕ) : Type 0 where
  pub page : ℕ → Option Key → W → Page (Key × Schedule)
  pub page_lem :
      (now : ℕ) (start : Option Key) (w : W)
      → table.query_due sched_gsi_pk now start w ≡ (ok (page now start w), w)
  pub fewer :
      (now : ℕ) (start : Option Key) (w : W) (k : Key)
      → (page now start w).last ≡ some k
      → left (some k) w < left start w
  pub claim_adds_none :
      (now : ℕ) (start : Option Key) (k : Key) (w : W)
      → left start (t.write k (claim now (held w k)) w) ≤ left start w
  pub delete_adds_none :
      (start : Option Key) (k : Key) (w : W) → left start (t.write k none w) ≤ left start w
  pub send_adds_none :
      (start : Option Key) (m : Message) (w : W) → left start (sqs_send m 0 w).1 ≤ left start w

-- The queue holds what was sent: a send that returns adds its message, and the table does not touch it.
pub record IsQueue {W : Type 0} (table : Table W) (held : W → Key → Option Item)
    (t : IsTable table held) (sqs_send : Message → ℕ → Exec W (Unit {0})) (queue : W → List Message)
    : Type 0 where
  pub sent :
      (m : Message) (w : W)
      → (sqs_send m 0 w).0 ≡ ok tt
      → queue (sqs_send m 0 w).1 ≡ queue w ++ m ∷ []
  pub write_keeps : (k : Key) (v : Option Item) (w : W) → queue (t.write k v w) ≡ queue w

-- The message is that of a row of the list.
abbrev pub Includes : Message → List (Key × Schedule) → Type 0
Includes m [] = ⊥
Includes m (row ∷ rows) = (row.1.message ≡ m) ⊎ Includes m rows

pub All-rows :
    (P : Message → Type 0) (rows : List (Key × Schedule))
    → ((m : Message) → Includes m rows → P m)
    → All (λ r. P r.1.message) rows
All-rows P [] h = tt
All-rows P (row ∷ rows) h = (h row.1.message (inl refl), All-rows P rows (λ m i. h m (inr i)))
