-- ===== src/Tests/Pooling.antt =====
-- packages/mariadb-rpc/src/pool.drift with one and with two connections.
use drift_mariadb_client.Base.{
  ◌+◌, ℕ, ◌≡◌, refl, arith, true, false, inr, some, List, [], ◌∷◌, Text, Outcome, returned,
}
use drift_mariadb_client.Pool.{PoolConfig, ConnEntry, PoolSlot, seed_one, seed_loop, open_pool}
use drift_mariadb_client.Pool.System.{
  System, Action, acquires, wakes, releases, recycles, unused, perform, run,
}
use drift_mariadb_client.Pool.Counts.{Counted}
use drift_mariadb_client.Pool.Wakeups.{IsServed, in_use, wakes_in_time-progress, wakes_late-strands}
use drift_mariadb_client.Pool.Opening.{run-open_pool, run-open_pool-IsServed}
use drift_mariadb_client.Pool.Leases.{run-open_pool-IsOwned}
use drift_mariadb_client.Pool.Owners.{IsOwned}

abbrev single : PoolConfig
single = record { min_idle = 1; max_conns = 1; idle_timeout_ms = 60_000 }

abbrev connects : ℕ → Outcome Text ℕ
connects i = returned 7

abbrev clock : ℕ → ℕ
clock i = 5

abbrev idle_entry : ConnEntry
idle_entry = record { conn = some 7; last_user_release_ms = 5; watch_token = 1 }

abbrev opened_slot : PoolSlot
opened_slot = record {
  available = idle_entry ∷ [];
  closed = false;
  active_count = 0;
  total_count = 1;
  waiters = 0;
  next_watch_token = 1;
}

opened_slot_lem : open_pool single connects clock ≡ returned opened_slot
unfolding open_pool seed_loop seed_one
opened_slot_lem = refl

-- One user takes the connection, another waits for it, gets it back and is served.
abbrev actions : List Action
actions =
    acquires false false
    ∷ acquires false false
    ∷ releases 7 true false 5 20
    ∷ wakes false
    ∷ recycles (1 ∷ [])
    ∷ []

run-open_pool_example : Counted single (run single actions (unused opened_slot))
run-open_pool_example = run-open_pool single connects clock opened_slot actions opened_slot_lem

run-open_pool-IsServed_example : IsServed single (run single actions (unused opened_slot))
run-open_pool-IsServed_example =
    run-open_pool-IsServed single connects clock opened_slot actions opened_slot_lem
      (((λ e. cc), ((λ e. cc), ((λ e. cc), ((λ e. cc), ((λ e. cc), tt))))))

-- Numbers for the connections, as many as there are calls.
abbrev sockets : ℕ → Outcome Text ℕ
sockets i = returned (i + 7)

sockets_lem : open_pool single sockets clock ≡ returned opened_slot
unfolding open_pool seed_loop seed_one
sockets_lem = refl

sockets_same : (i j c : ℕ) → sockets i ≡ returned c → sockets j ≡ returned c → i ≡ j
sockets_same i j c p q = ground (arith, p, q)

run-open_pool-IsOwned_example : IsOwned (run single actions (unused opened_slot))
run-open_pool-IsOwned_example =
    run-open_pool-IsOwned sockets sockets_same single clock opened_slot actions sockets_lem

-- The connection is back, one waiter is woken and another is parked.
abbrev contended : System
contended = record (unused (record opened_slot { waiters = 2 })) { parked = 1; woken = 1 }

contended-Counted : Counted single contended
contended-Counted = record {
  counts_active = refl;
  counts_total = refl;
  is_capped = omega arith;
  counts_waiters = refl;
  all_whole = (refl, tt);
}

wakes_in_time-progress_example : in_use (perform single (wakes false) contended) ≡ 1
wakes_in_time-progress_example =
    wakes_in_time-progress single contended contended-Counted (inr (inr (omega arith))) refl
      (omega arith) (omega arith)

wakes_late-strands_example : ¬ IsServed single (perform single (wakes true) contended)
wakes_late-strands_example =
    wakes_late-strands single contended refl (omega arith) (omega arith) (omega arith)
