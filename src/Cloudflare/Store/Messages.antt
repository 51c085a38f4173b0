-- ===== src/Cloudflare/Store/Messages.antt =====
-- The messages of all tenants through the routing to Durable Objects (packages/cloudflare/src/state-do.ts).
use Prim.Native.String.{◌++◌}
use text.Mathlib.TextLemmas.{append_cancel_left}
use anyhook.Base.{
  ℕ, ◌≡◌, refl, inl, inr, true, false, Bool-cases, String, Option, none, some, ◌==◌, eq_iff,
  ==_refl, if◌then◌else◌, arith,
}
use anyhook.Base.Exec.{ok}
use anyhook.Cloudflare.{Storage}
use anyhook.Cloudflare.Endpoint as endpoint_do
use anyhook.Cloudflare.Endpoint.{as_message, message_key}
use anyhook.Cloudflare.Names.{endpoint_do_name, endpoint_do_name-inj, IsDigits}
use anyhook.Cloudflare.Store.{put_message, get_message, message_in, endpoint_stub, truthy}
use anyhook.Cloudflare.Tenant as tenant_do
use anyhook.Cloudflare.Tenant.{as_index, index_key}
use anyhook.Spec.{same_key}
use anyhook.Types.{Message}

-- The documented behaviour of the storages of two namespaces: in the object of a name, a key holds what was
-- put last; the other keys and the other objects are as they were. `held` is what a world holds.
pub record IsNamespace {W V : Type 0} (objects : String → Storage W V)
    (held : W → String → String → Option V) : Type 0 where
  pub get_lem : (n k : String) (w : W) → (objects n).get k w ≡ (ok (held w n k), w)
  pub put_at : String → String → V → W → W
  pub put_lem : (n k : String) (v : V) (w : W) → (objects n).put k v w ≡ (ok tt, put_at n k v w)
  pub held-put :
      (n k o j : String) (v : V) (w : W)
      → held (put_at n k v w) o j ≡ (if same_key n k o j then some v else held w o j)

prefixed-eq : (p a b : String) → (a == b) ≡ false → (p ++ a == p ++ b) ≡ false
prefixed-eq p a b h =
    ground (arith, h, eq_iff a b, eq_iff (p ++ a) (p ++ b), append_cancel_left p a b)

same_key-index :
    (t k u j : String) → same_key t k u j ≡ false → same_key t (index_key k) u (index_key j) ≡ false
same_key-index t k u j h = elim (Bool-cases (k == j)) [
  | inl e ↦ ground (arith, h, e)
  | inr e ↦ ground (arith, prefixed-eq "msgidx:" k j e)
]

module _ {W : Type 0} (tenants : String → Storage W tenant_do.Value)
    (endpoints : String → Storage W endpoint_do.Value) (show : ℕ → String)
    (held_t : W → String → String → Option tenant_do.Value)
    (held_e : W → String → String → Option endpoint_do.Value) where
  pub record AreObjects : Type 0 where
    pub of_tenants : IsNamespace tenants held_t
    pub of_endpoints : IsNamespace endpoints held_e
    pub tenant_apart :
        (n k o j : String) (v : tenant_do.Value) (w : W)
        → held_e (of_tenants.put_at n k v w) o j ≡ held_e w o j
    pub endpoint_apart :
        (n k o j : String) (v : endpoint_do.Value) (w : W)
        → held_t (of_endpoints.put_at n k v w) o j ≡ held_t w o j

  abbrev pub in_object : W → String → String → Option String → Option Message
  in_object w tenant message_id none = none
  in_object w tenant message_id (some endpoint_id) =
      as_message (held_e w (endpoint_do_name show tenant endpoint_id) (message_key message_id))

  -- the message that a world holds for a tenant and an id
  abbrev pub message_at : W → String → String → Option Message
  message_at w tenant message_id =
      in_object w tenant message_id (truthy (as_index (held_t w tenant (index_key message_id))))

  module _ (o : AreObjects) (d : IsDigits show) where
    message_in-at :
        (t id : String) (found : Option String) (w : W)
        → message_in tenants endpoints show t id found w ≡ (ok (in_object w t id found), w)
    unfolding message_in endpoint_stub endpoint_do.get_message
    message_in-at t id none w = refl
    message_in-at t id (some e) w = rw (o.of_endpoints.get_lem) refl

    get_message-at :
        (t id : String) (w : W)
        → get_message tenants endpoints show t id w ≡ (ok (message_at w t id), w)
    unfolding get_message tenant_do.lookup_message_endpoint
    get_message-at t id w =
        rw (o.of_tenants.get_lem)
          (message_in-at t id (truthy (as_index (held_t w t (index_key id)))) w)

    stored : Message → W → W
    stored m w =
        o.of_tenants.put_at m.tenant (index_key m.message_id) (tenant_do.Value.index m.endpoint_id)
          (o.of_endpoints.put_at (endpoint_do_name show m.tenant m.endpoint_id)
            (message_key m.message_id) (endpoint_do.Value.message m) w)

    put_message-stored :
        (m : Message) (w : W) → put_message tenants endpoints show m w ≡ (ok tt, stored m w)
    unfolding put_message endpoint_stub endpoint_do.put_message tenant_do.register_message stored
    put_message-stored m w = rw (o.of_endpoints.put_lem, o.of_tenants.put_lem) refl

    same_key_self : (t k : String) → same_key t k t k ≡ true
    same_key_self t k = rw (==_refl t, ==_refl k) refl

    at_self :
        (m : Message) (w : W)
        → (m.endpoint_id == "") ≡ false
        → message_at (stored m w) m.tenant m.message_id ≡ some m
    unfolding stored
    at_self m w h =
        rw
          (
            o.of_tenants.held-put, same_key_self, h, o.tenant_apart, o.of_endpoints.held-put,
            same_key_self,
          )
          refl

    names-differ :
        (t u e f : String)
        → (t == u) ≡ false
        → (endpoint_do_name show t e == endpoint_do_name show u f) ≡ false
    names-differ t u e f h =
        elim (Bool-cases (endpoint_do_name show t e == endpoint_do_name show u f)) [
          | inr n ↦ n
          | inl n ↦ absurd (
              ground (
                arith,
                h,
                eq_iff t u,
                (endpoint_do_name-inj show d t u e f
                    ((eq_iff (endpoint_do_name show t e) (endpoint_do_name show u f)).0 n)).0,
              ))
        ]

    rows-differ :
        (t k u j e f : String)
        → same_key t k u j ≡ false
        → same_key
            (endpoint_do_name show t e)
            (message_key k)
            (endpoint_do_name show u f)
            (message_key j)
          ≡ false
    rows-differ t k u j e f h = elim (Bool-cases (k == j)) [
      | inr n ↦ ground (arith, prefixed-eq "msg:" k j n)
      | inl n ↦ elim (Bool-cases (t == u)) [
        | inl q ↦ absurd (ground (arith, h, n, q))
        | inr q ↦ ground (arith, names-differ t u e f q)
      ]
    ]

    in_object-kept :
        (m : Message) (w : W) (u j : String) (found : Option String)
        → same_key m.tenant m.message_id u j ≡ false
        → in_object (stored m w) u j found ≡ in_object w u j found
    unfolding stored
    in_object-kept m w u j none h = refl
    in_object-kept m w u j (some f) h =
        rw
          (
            o.tenant_apart,
            o.of_endpoints.held-put,
            rows-differ m.tenant m.message_id u j m.endpoint_id f h,
          )
          refl

    at_other :
        (m : Message) (w : W) (u j : String)
        → same_key m.tenant m.message_id u j ≡ false
        → message_at (stored m w) u j ≡ message_at w u j
    unfolding stored
    at_other m w u j h =
        rw (o.of_tenants.held-put, same_key-index m.tenant m.message_id u j h, o.endpoint_apart)
          (in_object-kept m w u j (truthy (as_index (held_t w u (index_key j)))) h)

    -- Over namespaces of objects in which a key holds what was put last, and numbers that print apart and
    -- with no colon: putting a message whose endpoint id is not empty returns, and from then on that message
    -- is what the store gets for its tenant and id, while for any other tenant or id it gets what it got
    -- before.
    pub put_message-get_message :
        (m : Message) (w : W)
        → (m.endpoint_id == "") ≡ false
        → let v : W = (put_message tenants endpoints show m w).1 in
          ((put_message tenants endpoints show m w).0 ≡ ok tt)
          × ((get_message tenants endpoints show m.tenant m.message_id v).0 ≡ ok (some m))
          × ((u j : String)
              → same_key m.tenant m.message_id u j ≡ false
              → (get_message tenants endpoints show u j v).0
                ≡ (get_message tenants endpoints show u j w).0)
    put_message-get_message m w h = rw (put_message-stored m w) (
      refl,
      rw (get_message-at, at_self m w h) refl,
      λ u j k. rw (get_message-at, get_message-at, at_other m w u j k) refl,
    )
