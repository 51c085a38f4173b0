-- ===== src/Cloudflare.antt =====
-- packages/cloudflare/src: the Durable Objects. Their storage, a service of the platform, is a
-- parameter: actions on a world `W`, for values of one type `V`.
pub mod Tenant
pub mod Endpoint
pub mod Names
pub mod Store
use anyhook.Base.{ℕ, ◌≡◌, String, Option, some, none, List, ◌==◌, if◌then◌else◌}
use anyhook.Base.Exec.{Exec, ok}

-- ctx.storage
pub record Storage (W V : Type 0) : Type 0 where
  pub get : String → Exec W (Option V)
  pub put : String → V → Exec W (Unit {0})
  pub delete : String → Exec W (Unit {0})
  pub list : String → Exec W (List (String × V))
  pub get_alarm : Exec W (Option ℕ)
  pub set_alarm : ℕ → Exec W (Unit {0})

-- The documented behaviour of get and put: they return, a key holds what was put last, and other keys are
-- as they were. `held` is what a world holds.
pub record IsStorage {W V : Type 0} (storage : Storage W V) (held : W → String → Option V)
    : Type 0 where
  pub get_lem : (k : String) (w : W) → storage.get k w ≡ (ok (held w k), w)
  pub put_at : String → V → W → W
  pub put_lem : (k : String) (v : V) (w : W) → storage.put k v w ≡ (ok tt, put_at k v w)
  pub held-put :
      (k j : String) (v : V) (w : W) → held (put_at k v w) j ≡ (if k == j then some v else held w j)
