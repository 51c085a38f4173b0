-- ===== src/Aws/Isolation.antt =====
-- The calls of DynamoStateStore (packages/aws/src/state-dynamo.ts), and the partition that each works in.
use anyhook.Aws.{Key, tenant_pk, endpoint_sk, idem_sk}
use anyhook.Aws.Calls.{Call, after}
use anyhook.Aws.Gates.{
  get_circuit, put_circuit, write_circuit, or_conflict, get_rate_bucket, put_rate_bucket,
}
use anyhook.Aws.Items.{as_endpoint, as_message, strip_all}
use anyhook.Aws.Log.{
  put_message, get_message, next_seq, append_attempt, list_attempts, with_attempts, list_deliveries,
  add_to_dlq, list_dlq,
}
use anyhook.Aws.Partition.{
  Owned, endpoint_key, tenant_pk-eq, IsSound, Kept, Kept-preorder, write-Kept, get-Kept, put-Kept,
  put_if-Kept, delete-Kept, add_one-Kept, query_all-Kept,
}
use anyhook.Aws.Table.{Item, Table, IsTable}
use anyhook.Aws.Tenants.{
  record_event, recorded, finalize_event, put_endpoint_item, create_endpoint, get_endpoint,
  list_endpoints, match_endpoints, update_endpoint, rotate_secret, delete_endpoint,
}
use anyhook.Base.{
  Bool, true, false, ℕ, ◌≡◌, refl, ap, subst, ◌∙◌, String, true, false, Option, none, some, List,
  [], ◌∷◌, ◌==◌,
}
use anyhook.Base.Exec.{Exec, pure, ◌>>=◌, ◌>>◌}
use anyhook.Engine.Within.{Within, Within-bind, Within-pure}
use anyhook.Listing.{select_rows}
use anyhook.Memory.Endpoints.{patched, rotated, or_not_found}
use anyhook.Ports.{EndpointPatch}
use anyhook.Types.{Endpoint, Message}

module _ {W : Type 0} (table : Table W) (held : W → Key → Option Item) (t : IsTable table held)
    (tenant : String) where
  list_endpoints-Kept :
      (fuel : ℕ) → Within (Kept table held t tenant) (list_endpoints table fuel tenant)
  unfolding list_endpoints
  list_endpoints-Kept fuel =
      Within-bind (Kept-preorder table held t tenant) _ _
        (query_all-Kept table held t tenant (endpoint_sk "") fuel [] none)
        (λ items. Within-pure (Kept-preorder table held t tenant) _)

  Within-then :
      {A B : Type 0} (m : Exec W A) (f : A → Exec W B)
      → Within (Kept table held t tenant) m
      → ((a : A) → Within (Kept table held t tenant) (f a))
      → Within (Kept table held t tenant) (m >>= f)
  Within-then m f = Within-bind (Kept-preorder table held t tenant) m f

  Within-done : {A : Type 0} (a : A) → Within (Kept table held t tenant) (pure a)
  Within-done a = Within-pure (Kept-preorder table held t tenant) a

  given_sound :
      (w v : W)
      → (IsSound table held t w → Kept table held t tenant w v)
      → Kept table held t tenant w v
  given_sound w v k = record { sound = λ s. (k s).sound s; others = λ s. (k s).others s }

  -- The endpoint that was read is put back under its key, rewritten, or it was not found.
  found-Kept :
      {A : Type 0} (id : String) (w : W) (f : Endpoint → Endpoint) (a : Endpoint → A)
      (item : Option Item)
      → held w (record { pk = tenant_pk tenant; sk = endpoint_sk id }) ≡ item
      → ((e : Endpoint) → endpoint_key (f e) ≡ endpoint_key e)
      → Kept table held t tenant w
          ((or_not_found id (as_endpoint item) >>= λ e. put_endpoint_item table (f e) >> pure (a e))
            w).1
  unfolding put_endpoint_item
  found-Kept id w f a (some (Item.endpoint e)) h same = given_sound w _ λ s.
      let own = subst (Owned (record { pk = tenant_pk tenant; sk = endpoint_sk id })) h (s _) in
      rw (t.put_lem) (
        write-Kept table held t tenant (endpoint_key (f e)) (some (Item.endpoint (f e))) w
          (ap (λ k. k.pk) (same e ∙ own)) refl)
  found-Kept id w f a _ h same = (Kept-preorder table held t tenant).stay w

  update_endpoint-Kept :
      (id : String) (patch : EndpointPatch)
      → Within (Kept table held t tenant) (update_endpoint table tenant id patch)
  unfolding update_endpoint get_endpoint
  update_endpoint-Kept id patch = record {
    at = λ w.
        rw (t.get_lem)
          (found-Kept id w (λ e. patched e patch) (λ e. patched e patch) _ refl (λ e. refl));
  }

  rotate_secret-Kept :
      (secret id : String)
      → Within (Kept table held t tenant) (rotate_secret table secret tenant id)
  unfolding rotate_secret get_endpoint
  rotate_secret-Kept secret id = record {
    at = λ w.
        rw (t.get_lem) (found-Kept id w (λ e. rotated secret e) (λ e. secret) _ refl (λ e. refl));
  }

  with_attempts-Kept :
      (fuel : ℕ) (rows : List Message)
      → Within (Kept table held t tenant) (with_attempts table fuel tenant rows)
  unfolding with_attempts list_attempts
  with_attempts-Kept fuel [] = Within-done _
  with_attempts-Kept fuel (m ∷ rows) =
      Within-then _ _
        (Within-then _ _ (query_all-Kept table held t tenant _ fuel [] none)
          (λ items. Within-done _))
        (λ attempts. Within-then _ _ (with_attempts-Kept fuel rows) (λ out. Within-done _))

  recorded-Kept :
      (sk event_id : String) (written : Bool)
      → Within
          (Kept table held t tenant)
          (recorded table (record { pk = tenant_pk tenant; sk = sk }) event_id written)
  unfolding recorded
  recorded-Kept sk event_id true = Within-done _
  recorded-Kept sk event_id false =
      Within-then _ _ (get-Kept table held t tenant sk) (λ _. Within-done _)

  or_conflict-Kept :
      (id : String) (written : Bool)
      → Within (Kept table held t tenant) (or_conflict table tenant id written)
  unfolding or_conflict
  or_conflict-Kept id true = Within-done _
  or_conflict-Kept id false = record { at = λ w. (Kept-preorder table held t tenant).stay w }

  module _ (show : ℕ → String) (fuel : ℕ) where
    pub after-Kept :
        (c : Call) (w : W) → Kept table held t tenant w (after table show fuel tenant c w)
    unfolding record_event recorded finalize_event create_endpoint put_endpoint_item get_endpoint
        delete_endpoint get_message get_circuit get_rate_bucket put_message append_attempt next_seq
        match_endpoints list_deliveries put_circuit write_circuit put_rate_bucket add_to_dlq
        list_dlq
    after-Kept (Call.record_event event_id k) =
        (Within-then _ _ (put_if-Kept table held t tenant _ _ _ tt)
          (λ b. recorded-Kept (idem_sk k) event_id b)).at
    after-Kept (Call.finalize_event k event_id n) = (put-Kept table held t tenant _ _ tt).at
    after-Kept (Call.create_endpoint id secret now e) =
        (Within-then _ _ (put-Kept table held t tenant _ _ refl) (λ _. Within-done _)).at
    after-Kept (Call.get_endpoint id) =
        (Within-then _ _ (get-Kept table held t tenant _) (λ _. Within-done _)).at
    after-Kept (Call.delete_endpoint id) = (delete-Kept table held t tenant _).at
    after-Kept (Call.get_message id) =
        (Within-then _ _ (get-Kept table held t tenant _) (λ _. Within-done _)).at
    after-Kept (Call.get_circuit id) =
        (Within-then _ _ (get-Kept table held t tenant _) (λ _. Within-done _)).at
    after-Kept (Call.get_rate_bucket id) =
        (Within-then _ _ (get-Kept table held t tenant _) (λ _. Within-done _)).at
    after-Kept (Call.update_endpoint id patch) = (update_endpoint-Kept id patch).at
    after-Kept (Call.rotate_secret secret id) = (rotate_secret-Kept secret id).at
    after-Kept (Call.put_message m) =
        (Within-then _ _ (put-Kept table held t tenant _ _ tt)
          (λ _. put-Kept table held t tenant _ _ tt)).at
    after-Kept (Call.append_attempt a) =
        (Within-then _ _ (add_one-Kept table held t tenant _)
          (λ _. put-Kept table held t tenant _ _ tt)).at
    after-Kept Call.list_endpoints = (list_endpoints-Kept fuel).at
    after-Kept (Call.match_endpoints y) =
        (Within-then _ _ (list_endpoints-Kept fuel) (λ _. Within-done _)).at
    after-Kept (Call.list_deliveries q) =
        (Within-then _ _ (query_all-Kept table held t tenant _ fuel [] none) (λ items.
          with_attempts-Kept fuel
            (select_rows (record q { tenant = tenant }) (strip_all as_message items)))).at
    after-Kept (Call.put_circuit id rec) =
        (Within-then _ _ (get-Kept table held t tenant _) (λ current.
          Within-then _ _ (put_if-Kept table held t tenant _ _ _ tt)
            (λ b. or_conflict-Kept id b))).at
    after-Kept (Call.put_rate_bucket id b) = (put-Kept table held t tenant _ _ tt).at
    after-Kept (Call.add_to_dlq m r) =
        (Within-then _ _ (add_one-Kept table held t tenant _)
          (λ _. put-Kept table held t tenant _ _ tt)).at
    after-Kept (Call.list_dlq id) =
        (Within-then _ _ (query_all-Kept table held t tenant _ fuel [] none)
          (λ _. Within-done _)).at

    -- Over any table in which a row holds what was written last and a query writes nothing, in which every
    -- endpoint lies under the key of its tenant and id: after any call of any method of the store for a
    -- tenant, whether it returns or throws, every endpoint still does, and every row in the partition of
    -- another tenant is as it was.
    pub after-Isolated :
        (c : Call) (w : W)
        → IsSound table held t w
        → IsSound table held t (after table show fuel tenant c w)
          × ((u sk : String)
              → (u == tenant) ≡ false
              → held (after table show fuel tenant c w) (record { pk = tenant_pk u; sk = sk })
                ≡ held w (record { pk = tenant_pk u; sk = sk }))
    after-Isolated c w s =
        ((after-Kept c w).sound s, λ u sk d. (after-Kept c w).others s _ (tenant_pk-eq u tenant d))
