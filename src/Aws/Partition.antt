-- ===== src/Aws/Partition.antt =====
-- The partitions of the single table (packages/aws/src/config.ts): what a command under a tenant's
-- partition key leaves alone.
use text.Mathlib.TextLemmas.{append_cancel_left}
use anyhook.Aws.{Key, tenant_pk, endpoint_sk}
use anyhook.Aws.Items.{query_all}
use anyhook.Aws.Table.{Item, Table, IsTable, same}
use anyhook.Base.{
  ℕ, zero, suc, ◌≡◌, refl, ◌∙◌, subst, String, Bool, true, false, Bool-cases, Option, none, some,
  Option-cases, List, ◌++◌ as list_append, inl, inr, ◌==◌, eq_iff, arith,
}
use anyhook.Engine.Within.{Within, IsPreorder, Within-bind, Within-pure}
use anyhook.Types.{Endpoint}

abbrev pub endpoint_key : Endpoint → Key
endpoint_key e = record { pk = tenant_pk e.tenant; sk = endpoint_sk e.endpoint_id }

-- An endpoint lies under its own key.
abbrev pub Owned : Key → Option Item → Type 0
Owned k (some (Item.endpoint e)) = endpoint_key e ≡ k
Owned k _ = Unit

pub tenant_pk-eq : (t u : String) → (t == u) ≡ false → (tenant_pk t == tenant_pk u) ≡ false
tenant_pk-eq t u h =
    ground
      (arith, h, eq_iff t u, eq_iff (tenant_pk t) (tenant_pk u), append_cancel_left "TENANT#" t u)

same-eq : (k j : Key) → same k j ≡ true → k ≡ j
same-eq k j h = key-eq k j (both k j h)
  where
    both : (k j : Key) → same k j ≡ true → (k.pk ≡ j.pk) × (k.sk ≡ j.sk)
    both k j h =
        ((eq_iff k.pk j.pk).0 (ground (arith, h)), (eq_iff k.sk j.sk).0 (ground (arith, h)))

    key-eq : (k j : Key) → (k.pk ≡ j.pk) × (k.sk ≡ j.sk) → k ≡ j
    key-eq k j (p, q) = λ i. record { pk = p i; sk = q i }

not-same :
    (tenant : String) (k j : Key)
    → k.pk ≡ tenant_pk tenant
    → (j.pk == tenant_pk tenant) ≡ false
    → same k j ≡ false
not-same tenant k j e d = ground (arith, d, e, eq_iff k.pk j.pk, eq_iff j.pk (tenant_pk tenant))

module _ {W : Type 0} (table : Table W) (held : W → Key → Option Item)
    (t : IsTable table held) where
  abbrev pub IsSound : W → Type 0
  IsSound w = (k : Key) → Owned k (held w k)

  -- Endpoints stay under their keys, and the other partitions as they were.
  pub record Kept (tenant : String) (w v : W) : Type 0 where
    pub sound : IsSound w → IsSound v
    pub others : IsSound w → (k : Key) → (k.pk == tenant_pk tenant) ≡ false → held v k ≡ held w k

  pub Kept-preorder : (tenant : String) → IsPreorder (Kept tenant)
  Kept-preorder tenant = record {
    stay = λ w. record { sound = λ s. s; others = λ s k d. refl };
    chain = λ u v w p q. record {
      sound = λ s. q.sound (p.sound s);
      others = λ s k d. q.others (p.sound s) k d ∙ p.others s k d;
    };
  }

  pub write-Kept :
      (tenant : String) (k : Key) (v : Option Item) (w : W)
      → k.pk ≡ tenant_pk tenant
      → Owned k v
      → Kept tenant w (t.write k v w)
  write-Kept tenant k v w e own = record {
    sound = λ s j. elim (Bool-cases (same k j)) [
      | inl h ↦ rw (t.held-write, h) (subst (λ i. Owned i v) (same-eq k j h) own)
      | inr h ↦ rw (t.held-write, h) (s j)
    ];
    others = λ s j d. rw (t.held-write, not-same tenant k j e d) refl;
  }

  module _ (tenant sk : String) where
    pub get-Kept :
        {consistent : Bool}
        → Within (Kept tenant) (table.get consistent (record { pk = tenant_pk tenant; sk = sk }))
    get-Kept = record { at = λ w. rw (t.get_lem) ((Kept-preorder tenant).stay w) }

    pub put-Kept :
        (v : Item)
        → Owned (record { pk = tenant_pk tenant; sk = sk }) (some v)
        → Within (Kept tenant) (table.put (record { pk = tenant_pk tenant; sk = sk }) v)
    put-Kept v own = record { at = λ w. rw (t.put_lem) (write-Kept tenant _ (some v) w refl own) }

    pub put_if-Kept :
        (c : Option Item → Bool) (v : Item)
        → Owned (record { pk = tenant_pk tenant; sk = sk }) (some v)
        → Within (Kept tenant) (table.put_if c (record { pk = tenant_pk tenant; sk = sk }) v)
    put_if-Kept c v own = record {
      at = λ w. elim (Bool-cases (c (held w (record { pk = tenant_pk tenant; sk = sk })))) [
        | inl h ↦ rw (t.put_if_lem, h) (write-Kept tenant _ (some v) w refl own)
        | inr h ↦ rw (t.put_if_lem, h) ((Kept-preorder tenant).stay w)
      ];
    }

    pub delete-Kept :
        Within (Kept tenant) (table.delete (record { pk = tenant_pk tenant; sk = sk }))
    delete-Kept = record { at = λ w. rw (t.delete_lem) (write-Kept tenant _ none w refl tt) }

    pub add_one-Kept :
        Within (Kept tenant) (table.add_one (record { pk = tenant_pk tenant; sk = sk }))
    add_one-Kept = record {
      at = λ w. rw (t.add_one_lem) (write-Kept tenant _ (some (Item.counter _)) w refl tt);
    }

    query-Kept :
        (start : Option Key) → Within (Kept tenant) (table.query (tenant_pk tenant) sk start)
    query-Kept start = record {
      at = λ w. rw (t.query_keeps (tenant_pk tenant) sk start w) ((Kept-preorder tenant).stay w);
    }

    pub query_all-Kept :
        (fuel : ℕ) (items : List Item) (start : Option Key)
        → Within (Kept tenant) (query_all table fuel (tenant_pk tenant) sk items start)
    unfolding query_all
    query_all-Kept zero items start = record { at = λ w. (Kept-preorder tenant).stay w }
    query_all-Kept (suc fuel) items start =
        Within-bind (Kept-preorder tenant) _ _ (query-Kept start) (λ page.
          elim (Option-cases page.last) [
            | inl e ↦ rw e (Within-pure (Kept-preorder tenant) _)
            | inr (k, e) ↦ rw e (query_all-Kept fuel (list_append items page.items) (some k))
          ])
