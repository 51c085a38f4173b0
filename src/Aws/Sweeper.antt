-- ===== src/Aws/Sweeper.antt =====
-- packages/aws/src/sweeper.ts: runSweeper, over the commands of a table. The queue is a parameter:
-- `sqs_send` takes a message and DelaySeconds. The loop over the pages is given a number of rounds.
-- The lease floor is now - lease: it may be below 0, so the lease is added on the other side.
pub mod Lease
pub mod Paging
pub mod Run
use anyhook.Aws.{Key, sched_gsi_pk, sweeper_lease_seconds}
use anyhook.Aws.Table.{Item, Table, Page, Schedule}
use anyhook.Base.{
  ℕ, zero, suc, ◌+◌, ◌/◌, Bool, true, false, Option, none, some, List, [], ◌∷◌, ltb, leb,
  if◌then◌else◌,
}
use anyhook.Base.Exec.{Exec, pure, throw, ◌>>=◌, ◌>>◌, out_of_fuel}
use anyhook.Types.{Message, ms}

pub record SweeperResult : Type 0 where
  pub due : ℕ
  pub claimed : ℕ
  pub sent : ℕ

-- typeof item.claimed_at === 'number' && item.claimed_at >= leaseFloorSec
unfoldable pub lease_held : ℕ → Option ℕ → Bool
lease_held now_sec none = false
lease_held now_sec (some claimed_at) = leb now_sec (claimed_at + sweeper_lease_seconds)

-- attribute_exists(SK) AND (attribute_not_exists(claimed_at) OR claimed_at < :leaseFloor)
unfoldable pub claimable : ℕ → Option Item → Bool
claimable now_sec none = false
claimable now_sec (some (Item.schedule s)) = elim s.claimed_at [
  | none ↦ true
  | some claimed_at ↦ ltb (claimed_at + sweeper_lease_seconds) now_sec
]
claimable now_sec (some _) = true

-- SET claimed_at = :now
unfoldable pub claim : ℕ → Option Item → Option Item
claim now_sec (some (Item.schedule s)) =
    some (Item.schedule (record s { claimed_at = some now_sec }))
claim now_sec item = item

module _ {W : Type 0} (table : Table W) (sqs_send : Message → ℕ → Exec W (Unit {0})) where
  -- After the claim: lost, or won.
  unfoldable pub after_claim : Key → Message → SweeperResult → Bool → Exec W SweeperResult
  after_claim key m result false = pure (record result { due = suc result.due })
  after_claim key m result true = do
    sqs_send m 0
    table.delete key
    pure (record { due = suc result.due; claimed = suc result.claimed; sent = suc result.sent })

  unfoldable pub claim_item : ℕ → Key × Schedule → SweeperResult → Exec W SweeperResult
  unfolding after_claim
  claim_item now_sec (key, s) result = do
    won ← table.update_if (claimable now_sec) (claim now_sec) key
    after_claim key s.message result won

  unfoldable pub sweep_item : ℕ → Key × Schedule → SweeperResult → Exec W SweeperResult
  unfolding claim_item
  sweep_item now_sec (key, s) result =
      if lease_held now_sec s.claimed_at then pure result else claim_item now_sec (key, s) result

  unfoldable pub sweep_items : ℕ → List (Key × Schedule) → SweeperResult → Exec W SweeperResult
  unfolding sweep_item
  sweep_items now_sec [] result = pure result
  sweep_items now_sec (item ∷ items) result = do
    swept ← sweep_item now_sec item result
    sweep_items now_sec items swept

  unfoldable pub sweep_pages : ℕ → ℕ → SweeperResult → Option Key → Exec W SweeperResult
  unfolding sweep_items
  sweep_pages zero now_sec result start = throw out_of_fuel
  sweep_pages (suc fuel) now_sec result start = do
    page ← table.query_due sched_gsi_pk now_sec start
    swept ← sweep_items now_sec page.items result
    elim page.last [ none ↦ pure swept | some last ↦ sweep_pages fuel now_sec swept (some last) ]

  unfoldable pub run_sweeper : ℕ → ℕ → Exec W SweeperResult
  unfolding sweep_pages
  run_sweeper fuel now =
      sweep_pages fuel (now / ms 1000) (record { due = 0; claimed = 0; sent = 0 }) none
