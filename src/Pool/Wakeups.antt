-- ===== src/Pool/Wakeups.antt =====
-- Who waits on the pool of pool.drift while a connection could be had.
use drift_mariadb_client.Base.{
  ℕ, suc, ◌+◌, ◌-◌, ◌≤◌, ◌<◌, ◌≡◌, ◌≢◌, ◌⊎◌, inl, refl, arith, Bool, true, false, List, [], ◌∷◌,
}
use drift_mariadb_client.Base.{nat_eq, contains, if_either, length}
use mathlib.Core.List.{reverse}
use drift_mariadb_client.Pool.{
  PoolConfig, ConnEntry, acquire_round, take_entry, without_entry, pop_back, mark_pool_closed,
  rollback_reservation, open_raced_close, release_decide, recycle_loop, recycle_ready_idles,
  reap_loop, reap_aged_locked, drain_conns_locked,
}
use drift_mariadb_client.Pool.System.{
  System, signal_one, signal_each, remove_one, settle, Action, acquires, wakes, gives_up,
  open_fails, opened, releases, recycles, reaps, closes, drains, wake, finish_open, perform,
}
use drift_mariadb_client.Pool.Counts.{
  Counted, count_cases, count_suc, recycle_loop-Sorted, reap_count,
}

-- The connections that could be handed out or opened at once.
abbrev pub spare : PoolConfig → System → ℕ
spare config sys = length sys.slot.available + (config.max_conns - sys.slot.total_count)

-- While anybody is parked, there are as many woken waiters as spare connections.
abbrev pub IsServed : PoolConfig → System → Type 0
IsServed config sys = (sys.slot.closed ≡ true) ⊎ ((sys.parked ≡ 0) ⊎ (spare config sys ≤ sys.woken))

-- The connections on lease and those that are being opened.
abbrev pub in_use : System → ℕ
in_use sys = length sys.leased + sys.opening

module _ (config : PoolConfig) where
  acquire_round-IsServed :
      (is_keepalive expired : Bool) (sys : System)
      → Counted config sys
      → IsServed config sys
      → IsServed config (settle sys (acquire_round config is_keepalive expired sys.slot))
  unfolding settle acquire_round pop_back take_entry without_entry
  acquire_round-IsServed is_keepalive expired sys c h = ground arith

  wake-IsServed :
      (left : ℕ) (sys : System)
      → sys.woken ≡ suc left
      → Counted config sys
      → IsServed config sys
      → IsServed config (wake config false left sys)
  unfolding wake settle acquire_round pop_back take_entry without_entry
  wake-IsServed left sys e c h = ground arith

  -- One signal makes up for one connection.
  signal_one-IsServed :
      (sys : System)
      → (sys.slot.closed ≡ true) ⊎ ((sys.parked ≡ 0) ⊎ (spare config sys ≤ suc sys.woken))
      → IsServed config (signal_one sys)
  unfolding signal_one
  signal_one-IsServed sys h = ground arith

  signal_each-IsServed :
      (doomed : List ℕ) (sys : System)
      → IsServed config sys
      → IsServed config (signal_each doomed sys)
  unfolding signal_each signal_one
  signal_each-IsServed [] sys h = h
  signal_each-IsServed (c ∷ doomed) sys h =
      signal_each-IsServed doomed (signal_one sys) (ground arith)

  finish_open-IsServed :
      (c left : ℕ) (sys : System)
      → sys.opening ≡ suc left
      → IsServed config sys
      → IsServed config (finish_open c sys)
  unfolding finish_open open_raced_close rollback_reservation
  finish_open-IsServed c left sys e h = ground arith

  open_fails-IsServed :
      (left : ℕ) (sys : System)
      → Counted config sys
      → IsServed config sys
      → IsServed config
          (signal_one (record sys { opening = left; slot = rollback_reservation sys.slot }))
  unfolding rollback_reservation
  open_fails-IsServed left sys c h = signal_one-IsServed _ (ground arith)

  release-IsServed :
      (n : ℕ) (healthy is_keepalive : Bool) (ts now : ℕ) (sys : System)
      → Counted config sys
      → IsServed config sys
      → IsServed config (perform config (releases n healthy is_keepalive ts now) sys)
  unfolding perform release_decide
  release-IsServed n healthy is_keepalive ts now sys c h =
      if_either (IsServed config) (contains sys.leased n) _ _
        (signal_one-IsServed
          (record sys {
            slot = (release_decide n healthy is_keepalive ts now sys.slot).1;
            leased = remove_one n sys.leased;
          })
          (ground arith))
        h

  -- A sweep that takes out whole entries frees as many places as connections.
  swept-IsServed :
      (left : List ConnEntry) (gone : ℕ) (sys : System)
      → length left + gone ≡ length sys.slot.available
      → Counted config sys
      → IsServed config sys
      → IsServed config (record sys {
        slot = record sys.slot { available = left; total_count = sys.slot.total_count - gone };
      })
  swept-IsServed left gone sys e c h = ground (arith, c.counts_total, c.is_capped)

  -- Every action but the wake of a waiter whose time is up leaves nobody parked for whom there is a
  -- connection, if a woken waiter counts as served.
  pub perform-IsServed :
      (action : Action) (sys : System)
      → action ≢ wakes true
      → Counted config sys
      → IsServed config sys
      → IsServed config (perform config action sys)
  unfolding perform mark_pool_closed drain_conns_locked recycle_ready_idles reap_aged_locked
  perform-IsServed (acquires is_keepalive expired) sys ne c h =
      acquire_round-IsServed is_keepalive expired sys c h
  perform-IsServed (wakes true) sys ne c h = absurd (ne refl)
  perform-IsServed (wakes false) sys ne c h =
      count_cases (IsServed config) sys.woken sys _ h (λ left e. wake-IsServed left sys e c h)
  perform-IsServed gives_up sys ne c h =
      count_cases (IsServed config) sys.parked sys _ h (λ left e. ground arith)
  perform-IsServed open_fails sys ne c h =
      count_cases (IsServed config) sys.opening sys _ h (λ left e. open_fails-IsServed left sys c h)
  perform-IsServed (opened n) sys ne c h =
      count_cases (IsServed config) sys.opening sys _ h
        (λ left e. if_either (IsServed config) _ _ _ (finish_open-IsServed n left sys e h) h)
  perform-IsServed (releases n healthy is_keepalive ts now) sys ne c h =
      release-IsServed n healthy is_keepalive ts now sys c h
  perform-IsServed (recycles tokens) sys ne c h =
      let swept = recycle_loop tokens sys.slot.available in
      let (count, _) = recycle_loop-Sorted tokens sys.slot.available c.all_whole in
      signal_each-IsServed swept.doomed _
        (swept-IsServed swept.left (length swept.doomed) sys count c h)
  perform-IsServed (reaps now) sys ne c h =
      let left = (reap_loop config now sys.slot.total_count (reverse sys.slot.available)).left in
      swept-IsServed (reverse left) (length sys.slot.available - length left) sys
        (reap_count config now sys c) c h
  perform-IsServed closes sys ne c h = inl refl
  perform-IsServed drains sys ne c h = inl refl

  wake_takes :
      (left : ℕ) (sys : System)
      → Counted config sys
      → sys.slot.closed ≡ false
      → 0 < spare config sys
      → in_use (wake config false left sys) ≡ suc (in_use sys)
  unfolding wake settle acquire_round pop_back take_entry without_entry
  wake_takes left sys c open_still some_spare = ground arith

  -- If the counters are right, the pool is open, somebody is parked, a connection is idle or may
  -- be opened, and there are at least as many woken waiters as such connections, then the next
  -- woken waiter, within its budget, takes or opens one.
  pub wakes_in_time-progress :
      (sys : System)
      → Counted config sys
      → IsServed config sys
      → sys.slot.closed ≡ false
      → 0 < sys.parked
      → 0 < spare config sys
      → in_use (perform config (wakes false) sys) ≡ suc (in_use sys)
  unfolding perform
  wakes_in_time-progress sys c h open_still parked some_spare =
      let ready : 0 < sys.woken = ground arith in
      count_suc (λ after. in_use after ≡ suc (in_use sys)) sys.woken (sys.woken - 1) sys _
        (omega arith) (wake_takes (sys.woken - 1) sys c open_still some_spare)

  late_strands :
      (left : ℕ) (sys : System)
      → sys.slot.closed ≡ false
      → 0 < sys.parked
      → left < spare config sys
      → ¬ IsServed config (wake config true left sys)
  unfolding wake acquire_round settle
  late_strands left sys open_still parked all h = ground arith

  -- If the pool is open, somebody is parked, a waiter is woken, and the connections that are
  -- idle or may be opened are as many as the woken waiters, then a waiter that is woken with a
  -- budget that has run out leaves fewer woken waiters than such connections, while the pool is
  -- open and somebody is parked.
  pub wakes_late-strands :
      (sys : System)
      → sys.slot.closed ≡ false
      → 0 < sys.parked
      → 0 < sys.woken
      → spare config sys ≡ sys.woken
      → ¬ IsServed config (perform config (wakes true) sys)
  unfolding perform
  wakes_late-strands sys open_still parked woken all =
      count_suc (λ after. ¬ IsServed config after) sys.woken (sys.woken - 1) sys _ (omega arith)
        (late_strands (sys.woken - 1) sys open_still parked (omega arith))
