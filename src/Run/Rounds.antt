-- ===== src/Run/Rounds.antt =====
-- Running the deliveries: runDeliveries of packages/testing/src/harness.ts, round after round.
use anyhook.Base.{
  ◌⊎◌, subst, sym, max, min, ℕ, zero, suc, ◌≤◌, ◌≡◌, refl, ◌∙◌, ap, Option, some, List, [], ◌∷◌,
  ◌++◌, filter, length, All, leb, ltb, Bool-cases, inl, inr, arith,
}
use anyhook.Base.Exec.{Exec, Result, ok, err, max_rounds_exceeded, ◌>>◌}
use anyhook.Engine.{EngineConfig, process_message}
use anyhook.Memory.{MemoryState, memory_store}
use anyhook.Run.{drain, advance, earliest, set_if, rounds_loop, after_drain, run_deliveries}
use anyhook.Run.Advance.{advance_lem, messages_of}
use anyhook.Run.Drain.{drain-empties, processed}
use anyhook.Types.{Message}
use anyhook.World.{Outside, World, Scheduled, ports}

abbrev pub Includes : ℕ → List Scheduled → Type 0
Includes t [] = ⊥
Includes t (p ∷ ps) = (p.at ≡ t) ⊎ Includes t ps

-- the time of the retry that is due first
pub record IsFirst (t : ℕ) (ps : List Scheduled) : Type 0 where
  pub one : Includes t ps
  pub least : All (λ p. t ≤ p.at) ps

All-earlier :
    (t u : ℕ) (ps : List Scheduled) → t ≤ u → All (λ p. u ≤ p.at) ps → All (λ p. t ≤ p.at) ps
All-earlier t u [] h all = tt
All-earlier t u (p ∷ ps) h all = (omega (arith, h, all.0), All-earlier t u ps h all.1)

earliest-IsFirst :
    (p : Scheduled) (ps : List Scheduled)
    → (t : ℕ) × (earliest (p ∷ ps) ≡ some t) × IsFirst t (p ∷ ps)
unfolding earliest
earliest-IsFirst p [] = (p.at, refl, record { one = inl refl; least = (omega arith, tt) })
earliest-IsFirst p (q ∷ ps) =
    let (t, e, first) = earliest-IsFirst q ps in
    elim (Bool-cases (leb p.at t)) [
      | inl h ↦
          let m : min p.at t ≡ p.at = ground (arith, h) in
          (
            p.at,
            rw e (ap some m),
            record {
              one = inl refl;
              least = (omega arith, All-earlier p.at t (q ∷ ps) (ground (arith, h)) first.least);
            },
          )
      | inr h ↦
          let m : min p.at t ≡ t = ground (arith, h) in
          (
            t,
            rw e (ap some m),
            record { one = inr first.one; least = (ground (arith, h), first.least) },
          )
    ]

-- Time goes on to `to`, and what is due then waits.
abbrev pub released : ℕ → World MemoryState → World MemoryState
released to w = record w {
  clock = to;
  queue = messages_of (filter (λ p. leb p.at to) w.scheduled);
  scheduled = filter (λ p. ltb to p.at) w.scheduled;
}

module _ (out : Outside) (cfg : EngineConfig) where
  -- A round: the engine takes every message that waits; then something is scheduled, the clock goes on to
  -- the first of it, never back, and what is due waits.
  pub record Round (w v : World MemoryState) : Type 0 where
    pub first : ℕ
    pub first_lem : IsFirst first (processed out cfg w.queue w).scheduled
    pub after :
        v ≡ released (max first (processed out cfg w.queue w).clock) (processed out cfg w.queue w)

  -- Nothing waits, once the engine took every message that did, and nothing is scheduled.
  pub record Settles (w v : World MemoryState) (r : Result (Unit {0})) : Type 0 where
    pub returns : r ≡ ok tt
    pub all : v ≡ processed out cfg w.queue w
    pub queue_empty : v.queue ≡ []
    pub schedule_empty : v.scheduled ≡ []

  module _ (max_rounds : ℕ) where
    -- Rounds, of which so many are left, until one settles, or the error where none is left.
    abbrev pub Runs : ℕ → World MemoryState → World MemoryState → Result (Unit {0}) → Type 0
    Runs zero w v r = (v ≡ w) × (r ≡ err (max_rounds_exceeded max_rounds))
    Runs (suc rounds) w v r =
        Settles w v r ⊎ ((x : World MemoryState) × Round w x × Runs rounds x v r)

    abbrev handler : Option (Message → Exec (World MemoryState) (Unit {0}))
    handler = some (process_message (ports out memory_store) cfg)

    -- the end of a round, once the messages that waited are processed
    module _ (rounds : ℕ) (next : Exec (World MemoryState) (Unit {0}))
        (ends : (x : World MemoryState) → Runs rounds x (next x).1 (next x).0) where
      moved-Runs :
          (w v : World MemoryState) (t : ℕ)
          → v ≡ processed out cfg w.queue w
          → v.queue ≡ []
          → IsFirst t v.scheduled
          → let r = (set_if handler max_rounds (some t) >> (advance >> next)) v in
            Runs (suc rounds) w r.1 r.0
      unfolding set_if advance
      moved-Runs w v t e emptied first =
          let w' : World MemoryState = record v { clock = max t v.clock } in
          let (n, o, e') = advance_lem w' in
          rw o (
            inr (
              (advance w').1,
              record {
                first = t;
                first_lem = subst (λ (x : World MemoryState). IsFirst t x.scheduled) e first;
                after =
                    e'
                    ∙ ap
                        (λ q. record w' {
                          queue = q ++ messages_of (filter (λ s. leb s.at w'.clock) v.scheduled);
                          scheduled = filter (λ s. ltb w'.clock s.at) v.scheduled;
                        })
                        emptied
                    ∙ ap (λ (x : World MemoryState). released (max t x.clock) x) e;
              },
              ends (advance w').1,
            ))

      after_drain-Runs :
          (w v : World MemoryState)
          → v ≡ processed out cfg w.queue w
          → v.queue ≡ []
          → (scheduled : List Scheduled) → v.scheduled ≡ scheduled
          → let r = after_drain handler max_rounds next scheduled v in Runs (suc rounds) w r.1 r.0
      unfolding after_drain
      after_drain-Runs w v all emptied [] e =
          inl (record { returns = refl; all = all; queue_empty = emptied; schedule_empty = e })
      after_drain-Runs w v all emptied (p ∷ ps) e =
          let (t, due, first) = earliest-IsFirst p ps in
          let found : earliest v.scheduled ≡ some t = rw e due in
          rw found (moved-Runs w v t all emptied (subst (IsFirst t) (sym e) first))

    rounds_loop-Runs :
        (rounds : ℕ) (w : World MemoryState)
        → let r = rounds_loop handler max_rounds rounds w in Runs rounds w r.1 r.0
    unfolding rounds_loop
    rounds_loop-Runs zero w = (refl, refl)
    rounds_loop-Runs (suc rounds) w =
        let (r, emptied, all) = drain-empties out cfg w (suc (length w.queue)) (omega arith) in
        rw r (
          after_drain-Runs rounds (rounds_loop handler max_rounds rounds) (rounds_loop-Runs rounds)
            w (drain handler (suc (length w.queue)) w).1 all emptied _ refl)

    -- Running the deliveries over the in-memory store: in each round the engine takes every message that
    -- waits; if nothing is scheduled then, the run returns with nothing waiting; else the clock goes on to
    -- the first time that is scheduled, what is due then waits, and the next round begins. After as many
    -- rounds as are allowed, each of which left something scheduled, it fails with the error that says so.
    pub run_deliveries-Runs :
        (w : World MemoryState)
        → Runs max_rounds w
            (run_deliveries handler max_rounds w).1
            (run_deliveries handler max_rounds w).0
    unfolding run_deliveries
    run_deliveries-Runs w = rounds_loop-Runs max_rounds w
