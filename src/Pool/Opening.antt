-- ===== src/Pool/Opening.antt =====
-- `open` of pool.drift, and what holds of an opened pool after any interleaving of its threads.
use native.Mathlib.Nat.{add-zero}
use drift_mariadb_client.Base.{
  ℕ, zero, suc, ◌+◌, ◌≤◌, ◌≡◌, ◌≢◌, refl, ap, arith, true, false, List, [], ◌∷◌, Text, Outcome,
}
use drift_mariadb_client.Base.{returned, ltb, length, All, Outcome-cases, Bool-cases, inl, inr}
use drift_mariadb_client.Pool.{PoolConfig, PoolSlot, empty_slot, seed_one, seed_loop, open_pool}
use drift_mariadb_client.Pool.System.{System, Action, wakes, unused, perform, run}
use drift_mariadb_client.Pool.Counts.{IsWhole, Counted, perform-Counted, run-Counted}
use drift_mariadb_client.Pool.Wakeups.{IsServed, perform-IsServed}

-- A slot of whole entries that nobody uses.
pub record Seeded (n : ℕ) (s : PoolSlot) : Type 0 where
  pub has_all : length s.available ≡ n
  pub counts_all : s.total_count ≡ n
  pub none_active : s.active_count ≡ 0
  pub none_wait : s.waiters ≡ 0
  pub is_open : s.closed ≡ false
  pub all_whole : All IsWhole s.available

seed_one-Seeded : (n c now : ℕ) (s : PoolSlot) → Seeded n s → Seeded (suc n) (seed_one c now s)
unfolding seed_one
seed_one-Seeded n c now s h = record {
  has_all = ap suc h.has_all;
  counts_all = ap suc h.counts_all;
  none_active = h.none_active;
  none_wait = h.none_wait;
  is_open = h.is_open;
  all_whole = (refl, h.all_whole);
}

empty_slot-Seeded : Seeded 0 empty_slot
empty_slot-Seeded = record {
  has_all = refl;
  counts_all = refl;
  none_active = refl;
  none_wait = refl;
  is_open = refl;
  all_whole = tt;
}

seed_loop-Seeded :
    (left n seeded : ℕ) (connects : ℕ → Outcome Text ℕ) (clock : ℕ → ℕ) (s s' : PoolSlot)
    → Seeded n s
    → seed_loop left seeded connects clock s ≡ returned s'
    → Seeded (left + n) s'
unfolding seed_loop
seed_loop-Seeded zero n seeded connects clock s s' h e = ground arith
seed_loop-Seeded (suc left) n seeded connects clock s s' h e =
    elim (Outcome-cases (connects seeded)) [
      | inr (x, bad) ↦ absurd (grind (arith, e, bad))
      | inl (c, good) ↦
          let shift : suc left + n ≡ left + suc n = omega arith in
          rw shift (
            seed_loop-Seeded left (suc n) (suc seeded) connects clock (seed_one c (clock seeded) s)
              s' (seed_one-Seeded n c (clock seeded) s h) (rw (seed_loop, good) at e))
    ]

-- What `open` returns is within the configuration.
open_pool-Seeded :
    (config : PoolConfig) (connects : ℕ → Outcome Text ℕ) (clock : ℕ → ℕ) (slot : PoolSlot)
    → open_pool config connects clock ≡ returned slot
    → (config.min_idle ≤ config.max_conns) × Seeded config.min_idle slot
unfolding open_pool
open_pool-Seeded config connects clock slot e = elim (Bool-cases (ltb config.max_conns 1)) [
  | inl bad ↦ absurd (grind (arith, e, bad))
  | inr good ↦ elim (Bool-cases (ltb config.max_conns config.min_idle)) [
    | inl bad ↦ absurd (grind (arith, e, good, bad))
    | inr enough ↦
        let seeded =
          seed_loop-Seeded config.min_idle 0 0 connects clock empty_slot slot empty_slot-Seeded
            (rw (open_pool, good, enough) at e) in
        (ground arith, rw (add-zero config.min_idle) at seeded)
  ]
]

pub Seeded-Counted :
    (config : PoolConfig) (n : ℕ) (slot : PoolSlot)
    → n ≤ config.max_conns
    → Seeded n slot
    → Counted config (unused slot)
Seeded-Counted config n slot h s = record {
  counts_active = omega (arith, s.none_active);
  counts_total = omega (arith, s.has_all, s.counts_all, s.none_active);
  is_capped = omega (arith, s.counts_all);
  counts_waiters = omega (arith, s.none_wait);
  all_whole = s.all_whole;
}

-- When open returns a pool, then after any sequence of the sections that hold its lock
-- active_count is the number of connections on lease or being opened, total_count is the number
-- of idle ones more and at most max_conns, waiters is the number of those who wait, and every
-- idle entry has its connection.
pub run-open_pool :
    (config : PoolConfig) (connects : ℕ → Outcome Text ℕ) (clock : ℕ → ℕ) (slot : PoolSlot)
    (actions : List Action)
    → open_pool config connects clock ≡ returned slot
    → Counted config (run config actions (unused slot))
run-open_pool config connects clock slot actions e =
    let (fits, seeded) = open_pool-Seeded config connects clock slot e in
    run-Counted config actions (unused slot)
      (Seeded-Counted config config.min_idle slot fits seeded)

abbrev pub IsTimely : Action → Type 0
IsTimely action = action ≢ wakes true

run-IsServed :
    (config : PoolConfig) (actions : List Action) (sys : System)
    → All IsTimely actions
    → Counted config sys
    → IsServed config sys
    → IsServed config (run config actions sys)
unfolding run
run-IsServed config [] sys timely c h = h
run-IsServed config (a ∷ actions) sys (now, timely) c h =
    run-IsServed config actions (perform config a sys) timely (perform-Counted config a sys c)
      (perform-IsServed config a sys now c h)

-- When open returns a pool, then after any sequence of the sections that hold its lock in which
-- no waiter is woken with a budget that has run out, the pool is closed, nobody is parked, or
-- there are at least as many woken waiters as connections that are idle or may be opened.
pub run-open_pool-IsServed :
    (config : PoolConfig) (connects : ℕ → Outcome Text ℕ) (clock : ℕ → ℕ) (slot : PoolSlot)
    (actions : List Action)
    → open_pool config connects clock ≡ returned slot
    → All IsTimely actions
    → IsServed config (run config actions (unused slot))
run-open_pool-IsServed config connects clock slot actions e timely =
    let (fits, seeded) = open_pool-Seeded config connects clock slot e in
    run-IsServed config actions (unused slot) timely
      (Seeded-Counted config config.min_idle slot fits seeded) (inr (inl refl))
