-- ===== src/World/Refine.antt =====
-- The worlds around two stores, where one store refines the other.
use anyhook.Base.{refl, ap}
use anyhook.Base.Exec.{Exec}
use anyhook.Engine.Simulation.{Simulates, StoreRefines, PortsRefine}
use anyhook.Ports.{DeliveryStore}
use anyhook.World.{Outside, World, ports, on_store, lift_store}

module _ {S T : Type 0} (view : S → T) where
  abbrev pub view_world : World S → World T
  view_world w = record {
    store = view w.store;
    queue = w.queue;
    scheduled = w.scheduled;
    clock = w.clock;
    drawn = w.drawn;
    minted = w.minted;
    calls = w.calls;
    emitted = w.emitted;
  }

  pub Simulates-on_store :
      {A : Type 0} (f : Exec S A) (g : Exec T A)
      → Simulates view f g
      → Simulates view_world (on_store f) (on_store g)
  Simulates-on_store f g h = record {
    at = λ w. ap (λ r. (r.0, record (view_world w) { store = r.1 })) (h.at w.store);
  }

  lift_store-refines :
      (p : DeliveryStore S) (q : DeliveryStore T)
      → StoreRefines view p q
      → StoreRefines view_world (lift_store p) (lift_store q)
  lift_store-refines p q r = record {
    record_event = λ t e k. Simulates-on_store _ _ (r.record_event t e k);
    finalize_event = λ t k e n. Simulates-on_store _ _ (r.finalize_event t k e n);
    get_endpoint = λ t e. Simulates-on_store _ _ (r.get_endpoint t e);
    match_endpoints = λ t y. Simulates-on_store _ _ (r.match_endpoints t y);
    put_message = λ m. Simulates-on_store _ _ (r.put_message m);
    append_attempt = λ a. Simulates-on_store _ _ (r.append_attempt a);
    get_circuit = λ t e. Simulates-on_store _ _ (r.get_circuit t e);
    put_circuit = λ t e c. Simulates-on_store _ _ (r.put_circuit t e c);
    get_rate_bucket = λ t e. Simulates-on_store _ _ (r.get_rate_bucket t e);
    put_rate_bucket = λ t e b. Simulates-on_store _ _ (r.put_rate_bucket t e b);
    add_to_dlq = λ m d. Simulates-on_store _ _ (r.add_to_dlq m d);
  }

  pub ports-refine :
      (out : Outside) (p : DeliveryStore S) (q : DeliveryStore T)
      → StoreRefines view p q
      → PortsRefine view_world (ports out p) (ports out q)
  ports-refine out p q r = record {
    state = lift_store-refines p q r;
    transport_send = λ m. record { at = λ w. refl };
    schedule_retry = λ m at. record { at = λ w. refl };
    post = λ url body h t. record { at = λ w. refl };
    check_url = λ url. record { at = λ w. refl };
    now = record { at = λ w. refl };
    rng = record { at = λ w. refl };
    record_attempt = λ a. record { at = λ w. refl };
    sign = refl;
    sha256_hex = refl;
    to_number = refl;
  }
