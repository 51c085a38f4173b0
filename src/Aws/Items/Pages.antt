-- ===== src/Aws/Items/Pages.antt =====
-- The pages of a query, read to the end (queryAll of packages/aws/src/state-dynamo.ts).
use mathlib.Core.List.{append_assoc}
use anyhook.Aws.{Key}
use anyhook.Aws.Items.{query_all}
use anyhook.Aws.Table.{Item, Table, Page}
use anyhook.Base.{
  ℕ, zero, suc, ◌<◌, ◌≡◌, refl, String, Option, none, some, List, ◌++◌, length, arith, Option-cases,
  inl, inr,
}
use anyhook.Base.Exec.{ok}

-- The documented paging of a query of an unchanging table: each page goes on from where its start key is,
-- the last has no LastEvaluatedKey, and each other leaves fewer items. `rest start` is what the query
-- still has to give.
pub record IsPaged {W : Type 0} (table : Table W) (pk prefix : String) (w : W)
    (rest : Option Key → List Item) : Type 0 where
  pub page : Option Key → Page Item
  pub page_lem : (start : Option Key) → table.query pk prefix start w ≡ (ok (page start), w)
  pub last_page : (start : Option Key) → (page start).last ≡ none → rest start ≡ (page start).items
  pub next_page :
      (start : Option Key) (k : Key)
      → (page start).last ≡ some k
      → (rest start ≡ (page start).items ++ rest (some k))
        × (length (rest (some k)) < length (rest start))

module _ {W : Type 0} (table : Table W) (pk prefix : String) (w : W) (rest : Option Key → List Item)
    (paged : IsPaged table pk prefix w rest) where
  -- Over any such table and with more rounds than the query has items, reading the pages to the end returns
  -- what was read before and then every item of the query, in its order, and changes nothing.
  pub query_all-all :
      (fuel : ℕ) (items : List Item) (start : Option Key)
      → length (rest start) < fuel
      → query_all table fuel pk prefix items start w ≡ (ok (items ++ rest start), w)
  unfolding query_all
  query_all-all zero items start h = absurd (ground (arith, h))
  query_all-all (suc fuel) items start h = elim (Option-cases (paged.page start).last) [
    | inl e ↦ rw (paged.page_lem start, e, paged.last_page start e) refl
    | inr (k, e) ↦
        let (split, fewer) = paged.next_page start k e in
        rw
          (
            paged.page_lem start,
            e,
            split,
            query_all-all fuel (items ++ (paged.page start).items) (some k)
                (omega (arith, h, fewer)),
            append_assoc items (paged.page start).items (rest (some k)),
          )
          refl
  ]
