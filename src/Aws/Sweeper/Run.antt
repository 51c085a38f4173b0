-- ===== src/Aws/Sweeper/Run.antt =====
-- A whole run of the sweeper, page after page (packages/aws/src/sweeper.ts).
use anyhook.Aws.{Key}
use anyhook.Aws.Sweeper.{SweeperResult}
use anyhook.Aws.Table.{Item, Table, IsTable}
use anyhook.Base.{All, length, ◌++◌, ℕ, ◌/◌, ◌≤◌, ◌≡◌, Option, List}
use anyhook.Base.Exec.{Exec, Error, Result, ok, err}
use anyhook.Types.{Message, ms}
use anyhook.Aws.Sweeper.Paging.{IsDuePaged, IsQueue, Includes}

module _ {W : Type 0} (table : Table W) (held : W → Key → Option Item) (t : IsTable table held)
    (sqs_send : Message → ℕ → Exec W (Unit {0})) (queue : W → List Message)
    (q : IsQueue table held t sqs_send queue) (left : Option Key → W → ℕ)
    (paged : IsDuePaged table held t sqs_send left) (w : W) (now : ℕ) where
  -- The message is that of a row which the index lists as due, at the time of the run in seconds.
  abbrev pub Listed : Message → Type 0
  Listed m = (start : Option Key) × (u : W) × Includes m (paged.page (now / ms 1000) start u).items

  -- The counts of a run so far: the messages that were sent since its start are those of rows that were
  -- listed, and as many as it counts.
  pub record Counts (v : W) (r : SweeperResult) : Type 0 where
    pub messages : List Message
    pub queued : queue v ≡ queue w ++ messages
    pub listed : All Listed messages
    pub each_sent : length messages ≡ r.sent
    pub each_claim_sent : r.sent ≡ r.claimed
    pub claims_due : r.claimed ≤ r.due

  -- The run returns with its counts, or a send failed.
  pub data Ends (v : W) : Result SweeperResult → Type 0 where
    returned : (r : SweeperResult) → Counts v r → Ends v (ok r)
    send_failed : (m : Message) (u : W) (e : Error) → (sqs_send m 0 u).0 ≡ err e → Ends v (err e)

  -- no more is left to read than before
  abbrev Shrinks : W → W → Type 0
  Shrinks u v = (start : Option Key) → left start v ≤ left start u

  -- a part of a run, from `u`
  Part : W → Result SweeperResult × W → Type 0
  Part u r = Ends r.1 r.0 × Shrinks u r.1
