-- ===== src/Aws/Table.antt =====
-- The DynamoDB table of packages/aws/src: what an item holds, and the commands that the code sends.
-- DynamoDB is a service: the commands are a parameter, actions on a world `W`.
use anyhook.Aws.{Key}
use anyhook.Base.{
  ℕ, suc, ◌≡◌, Bool, true, false, ◌&&◌, String, Option, none, some, List, ◌==◌, nat_eq,
  if◌then◌else◌,
}
use anyhook.Base.Exec.{Exec, ok}
use anyhook.Types.{Endpoint, Message, Attempt, CircuitRecord, RateBucket, DlqRow, EventRecord}

-- A retry that is scheduled in the table. Times are in seconds.
pub record Schedule : Type 0 where
  pub message : Message
  pub due_at : ℕ
  pub ttl : ℕ
  pub gsi1pk : String
  pub gsi1sk : ℕ
  pub claimed_at : Option ℕ

-- What a row holds beside its key; a circuit has its _version.
pub data Item : Type 0 where
  event : EventRecord → Item
  endpoint : Endpoint → Item
  message : Message → Item
  message_index : String → Item
  attempt : Attempt → Item
  counter : ℕ → Item
  circuit : CircuitRecord → ℕ → Item
  bucket : RateBucket → Item
  dlq_row : DlqRow → Item
  schedule : Schedule → Item

-- A page of a query: its items, and LastEvaluatedKey.
pub record Page (A : Type 0) : Type 0 where
  pub items : List A
  pub last : Option Key

-- A conditional write answers false where DynamoDB rejects it with ConditionalCheckFailedException;
-- any other failure is an error of the action. `add_one` is an update with ADD seq 1, and `query_due`
-- the query of the index on due_at: it has the rows with a gsi1pk, which are schedules.
pub record Table (W : Type 0) : Type 0 where
  pub get : Bool → Key → Exec W (Option Item)
  pub put : Key → Item → Exec W (Unit {0})
  pub put_if : (Option Item → Bool) → Key → Item → Exec W Bool
  pub update_if : (Option Item → Bool) → (Option Item → Option Item) → Key → Exec W Bool
  pub delete : Key → Exec W (Unit {0})
  pub add_one : Key → Exec W ℕ
  pub query : String → String → Option Key → Exec W (Page Item)
  pub query_due : String → ℕ → Option Key → Exec W (Page (Key × Schedule))

abbrev pub same : Key → Key → Bool
same k j = (k.pk == j.pk) && (k.sk == j.sk)

abbrev pub count_of : Option Item → ℕ
count_of (some (Item.counter n)) = n
count_of _ = 0

-- attribute_not_exists(SK)
abbrev pub absent : Option Item → Bool
absent none = true
absent (some _) = false

-- current.Item?._version
abbrev pub version_of : Option Item → Option ℕ
version_of (some (Item.circuit rec version)) = some version
version_of _ = none

-- attribute_not_exists(#v), or #v = :expected
abbrev pub version_is : Option ℕ → Option Item → Bool
version_is none item = elim (version_of item) [ none ↦ true | some _ ↦ false ]
version_is (some expected) item = elim (version_of item) [
  | none ↦ false
  | some v ↦ nat_eq v expected
]

-- The documented behaviour of the commands where they do not fail: a row holds what was written last
-- (with ConsistentRead; without it, the replica that is read is taken to have caught up),
-- a conditional write looks at the row as it is, and a query writes nothing. `held` is what a world
-- holds.
pub record IsTable {W : Type 0} (table : Table W) (held : W → Key → Option Item) : Type 0 where
  pub write : Key → Option Item → W → W
  pub held-write :
      (k j : Key) (v : Option Item) (w : W)
      → held (write k v w) j ≡ (if same k j then v else held w j)
  pub get_lem :
      (consistent : Bool) (k : Key) (w : W) → table.get consistent k w ≡ (ok (held w k), w)
  pub put_lem : (k : Key) (v : Item) (w : W) → table.put k v w ≡ (ok tt, write k (some v) w)
  pub put_if_lem :
      (c : Option Item → Bool) (k : Key) (v : Item) (w : W)
      → table.put_if c k v w
        ≡ (if c (held w k) then (ok true, write k (some v) w) else (ok false, w))
  pub update_if_lem :
      (c : Option Item → Bool) (f : Option Item → Option Item) (k : Key) (w : W)
      → table.update_if c f k w
        ≡ (if c (held w k) then (ok true, write k (f (held w k)) w) else (ok false, w))
  pub delete_lem : (k : Key) (w : W) → table.delete k w ≡ (ok tt, write k none w)
  pub add_one_lem :
      (k : Key) (w : W)
      → table.add_one k w ≡ (
        ok (suc (count_of (held w k))),
        write k (some (Item.counter (suc (count_of (held w k))))) w,
      )
  pub query_keeps :
      (pk prefix : String) (start : Option Key) (w : W) → (table.query pk prefix start w).1 ≡ w
  pub query_due_keeps :
      (pk : String) (now : ℕ) (start : Option Key) (w : W) → (table.query_due pk now start w).1 ≡ w
