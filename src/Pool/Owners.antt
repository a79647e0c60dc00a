-- ===== src/Pool/Owners.antt =====
-- A connection of the pool of pool.drift has one holder at most.
use mathlib.Core.List.{reverse, reverse_aux}
use drift_mariadb_client.Base.{
  ℕ, suc, ◌+◌, ◌-◌, ◌≤◌, ◌≡◌, refl, arith, Bool, true, false, List, [], ◌∷◌,
}
use drift_mariadb_client.Base.{
  ◌==◌, nat_eq, contains, if◌then◌else◌, if_true, if_false, Bool-cases, inl, inr,
}
use drift_mariadb_client.Pool.{
  PoolConfig, ConnEntry, acquire_round, take_entry, without_entry, pop_back, mark_pool_closed,
  rollback_reservation, open_raced_close, release_decide, recycle_loop, recycle_ready_idles,
  reap_loop, reap_aged_locked, drain_conns_locked, conns_of,
}
use drift_mariadb_client.Pool.System.{
  System, signal_one, signal_each, remove_one, settle, Action, acquires, wakes, gives_up,
  open_fails, opened, releases, recycles, reaps, closes, drains, is_new, wake, finish_open, perform,
  run,
}
use drift_mariadb_client.Pool.Counts.{count_cases}

abbrev pub count : ℕ → List ℕ → ℕ
count c [] = 0
count c (d ∷ ds) = if c == d then suc (count c ds) else count c ds

-- How often a connection is idle in the pool or out on lease.
abbrev pub held : ℕ → System → ℕ
held c sys = count c (conns_of sys.slot.available) + count c sys.leased

abbrev pub IsOwned : System → Type 0
IsOwned sys = (c : ℕ) → held c sys ≤ 1

count-remove_one :
    (c d : ℕ) (xs : List ℕ)
    → contains xs c ≡ true
    → (if d == c then suc (count d (remove_one c xs)) else count d (remove_one c xs)) ≡ count d xs
count-remove_one c d [] h = absurd cc
count-remove_one c d (x ∷ xs) h = ground (arith, count-remove_one c d xs)

count_absent : (c : ℕ) (xs : List ℕ) → contains xs c ≡ false → count c xs ≡ 0
count_absent c [] h = refl
count_absent c (x ∷ xs) h = ground (arith, count_absent c xs)

count-recycle_loop :
    (c : ℕ) (tokens : List ℕ) (entries : List ConnEntry)
    → count c (conns_of (recycle_loop tokens entries).left) ≤ count c (conns_of entries)
unfolding recycle_loop
count-recycle_loop c tokens [] = omega arith
count-recycle_loop c tokens (entry ∷ entries) = ground (arith, count-recycle_loop c tokens entries)

count-reap_loop :
    (config : PoolConfig) (c now total : ℕ) (entries : List ConnEntry)
    → count c (conns_of (reap_loop config now total entries).left) ≤ count c (conns_of entries)
unfolding reap_loop
count-reap_loop config c now total [] = omega arith
count-reap_loop config c now total (entry ∷ entries) =
    ground (arith, count-reap_loop config c now (total - 1) entries)

count-reverse_aux :
    (c : ℕ) (xs ys : List ConnEntry)
    → count c (conns_of (reverse_aux xs ys)) ≡ count c (conns_of xs) + count c (conns_of ys)
count-reverse_aux c [] ys = omega arith
count-reverse_aux c (x ∷ xs) ys = ground (arith, count-reverse_aux c xs (x ∷ ys))

module _ (config : PoolConfig) (c : ℕ) where
  -- The holders of `c` after an action, if nobody else can bring `c` in.
  abbrev Keeps : System → System → Type 0
  Keeps sys after = held c after ≤ held c sys

  acquire_round-Keeps :
      (is_keepalive expired : Bool) (sys : System)
      → Keeps sys (settle sys (acquire_round config is_keepalive expired sys.slot))
  unfolding settle acquire_round pop_back take_entry without_entry
  acquire_round-Keeps is_keepalive expired sys = ground arith

  signal_one-Keeps : (sys : System) → Keeps sys (signal_one sys)
  unfolding signal_one
  signal_one-Keeps sys = ground arith

  signal_each-Keeps : (doomed : List ℕ) (sys : System) → Keeps sys (signal_each doomed sys)
  unfolding signal_each
  signal_each-Keeps [] sys = omega arith
  signal_each-Keeps (d ∷ doomed) sys =
      omega (arith, signal_each-Keeps doomed (signal_one sys), signal_one-Keeps sys)

  release-Keeps :
      (n : ℕ) (healthy is_keepalive : Bool) (ts now : ℕ) (sys : System)
      → Keeps sys (perform config (releases n healthy is_keepalive ts now) sys)
  unfolding perform release_decide signal_one
  release-Keeps n healthy is_keepalive ts now sys = ground (arith, count-remove_one n c sys.leased)

  reap-Keeps : (now : ℕ) (sys : System) → Keeps sys (perform config (reaps now) sys)
  unfolding perform reap_aged_locked
  reap-Keeps now sys =
      let order = reverse sys.slot.available in
      omega (
        arith,
        count-reap_loop config c now sys.slot.total_count order,
        count-reverse_aux c (reap_loop config now sys.slot.total_count order).left [],
        count-reverse_aux c sys.slot.available [],
      )

  recycle-Keeps :
      (tokens : List ℕ) (sys : System) → Keeps sys (perform config (recycles tokens) sys)
  unfolding perform recycle_ready_idles
  recycle-Keeps tokens sys = omega (
    arith,
    signal_each-Keeps (recycle_loop tokens sys.slot.available).doomed
        (record sys { slot = (recycle_ready_idles tokens sys.slot).1 }),
    count-recycle_loop c tokens sys.slot.available,
  )

  -- A connection that has just been opened is nobody's before.
  opened-owned :
      (n : ℕ) (sys : System) → is_new n sys ≡ true → held c sys ≤ 1 → held c (finish_open n sys) ≤ 1
  unfolding finish_open open_raced_close rollback_reservation
  opened-owned n sys new h =
      ground (arith, count_absent n sys.leased, count_absent n (conns_of sys.slot.available))

  perform-owned :
      (action : Action) (sys : System) → held c sys ≤ 1 → held c (perform config action sys) ≤ 1
  unfolding perform mark_pool_closed drain_conns_locked wake rollback_reservation
  perform-owned (acquires is_keepalive expired) sys h =
      omega (arith, acquire_round-Keeps is_keepalive expired sys)
  perform-owned (wakes expired) sys h =
      count_cases (λ after. held c after ≤ 1) sys.woken sys _ h
        (λ left _. omega (
          arith,
          acquire_round-Keeps false expired
              (record sys { woken = left; slot = record slot { waiters = sys.slot.waiters - 1 } }),
        ))
    where
      open sys use {slot}
  perform-owned gives_up sys h =
      count_cases (λ after. held c after ≤ 1) sys.parked sys _ h (λ left _. h)
  perform-owned open_fails sys h =
      count_cases (λ after. held c after ≤ 1) sys.opening sys _ h
        (λ left _. omega (
          arith,
          signal_one-Keeps (record sys { opening = left; slot = rollback_reservation sys.slot }),
        ))
  perform-owned (opened n) sys h =
      count_cases (λ after. held c after ≤ 1) sys.opening sys _ h
        (λ left _. elim (Bool-cases (is_new n sys)) [
          | inl new ↦
              if_true (λ after. held c after ≤ 1) (is_new n sys) _ _ new (opened-owned n sys new h)
          | inr old ↦ if_false (λ after. held c after ≤ 1) (is_new n sys) _ _ old h
        ])
  perform-owned (releases n healthy is_keepalive ts now) sys h =
      omega (arith, release-Keeps n healthy is_keepalive ts now sys)
  perform-owned (recycles tokens) sys h = omega (arith, recycle-Keeps tokens sys)
  perform-owned (reaps now) sys h = omega (arith, reap-Keeps now sys)
  perform-owned closes sys h = h
  perform-owned drains sys h = omega arith

-- If every connection is at most once on lease or idle in the pool, so it is after any sequence
-- of the sections that hold its lock, where an open brings a connection that nobody has.
pub run-IsOwned :
    (config : PoolConfig) (actions : List Action) (sys : System)
    → IsOwned sys
    → IsOwned (run config actions sys)
unfolding run
run-IsOwned config [] sys h = h
run-IsOwned config (a ∷ actions) sys h =
    run-IsOwned config actions (perform config a sys) (λ c. perform-owned config c a sys (h c))
