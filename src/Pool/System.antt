-- ===== src/Pool/System.antt =====
-- The pool of pool.drift with those who use it: who holds a connection, who opens one, who waits. An
-- action is one section that holds the lock, so a list of actions is any interleaving of threads.
use drift_mariadb_client.Base.{ℕ, zero, suc, ◌-◌, Bool, false, not, ◌&&◌, List, [], ◌∷◌}
use drift_mariadb_client.Base.{◌==◌, nat_eq, contains, if◌then◌else◌}
use drift_mariadb_client.Pool.{
  PoolConfig, PoolSlot, AcquireDecision, got_conn, should_open, was_error, parks, acquire_round,
  mark_pool_closed, rollback_reservation, open_raced_close, release_decide, recycle_ready_idles,
  reap_aged_locked, drain_conns_locked, conns_of,
}

-- `leased` are the connections out on lease, `opening` the reservations for a connection that is
-- being opened, `parked` the waiters that nothing has woken, `woken` those that were signalled and
-- have not got the lock yet.
pub record System : Type 0 where
  pub slot : PoolSlot
  pub leased : List ℕ
  pub opening : ℕ
  pub parked : ℕ
  pub woken : ℕ

-- A pool that nobody uses yet.
abbrev pub unused : PoolSlot → System
unused slot = record { slot = slot; leased = []; opening = 0; parked = 0; woken = 0 }

-- `cv.signal_one()`: of no effect if nobody is parked.
unfoldable pub signal_one : System → System
signal_one sys = elim sys.parked as (λ _. System) [
  | zero ↦ sys
  | suc n ↦ record sys { parked = n; woken = suc woken }
]
  where
    open sys use {woken}

-- One signal for each connection that a recycling pass takes out.
unfoldable pub signal_each : List ℕ → System → System
unfolding signal_one
signal_each [] sys = sys
signal_each (_ ∷ doomed) sys = signal_each doomed (signal_one sys)

abbrev pub remove_one : ℕ → List ℕ → List ℕ
remove_one c [] = []
remove_one c (d ∷ ds) = if c == d then ds else d ∷ remove_one c ds

-- What a round of `_acquire_decide` makes of the caller.
unfoldable pub settle : System → AcquireDecision × PoolSlot → System
settle sys (got_conn c ts, slot) = record sys { slot = slot; leased = c ∷ leased }
  where
    open sys use {leased}
settle sys (should_open, slot) = record sys { slot = slot; opening = suc opening }
  where
    open sys use {opening}
settle sys (was_error e, slot) = record sys { slot = slot }
settle sys (parks, slot) = record sys { slot = slot; parked = suc parked }
  where
    open sys use {parked}

pub data Action : Type 0 where
  -- `_acquire` up to its first wait: for the keepalive fiber or not, with a budget that has run out
  -- or not
  acquires : Bool → Bool → Action
  -- a signalled waiter gets the lock, with a budget that has run out or not
  wakes : Bool → Action
  -- a wait ends with an error: timeout, closed, or another one
  gives_up : Action
  -- `_do_open` fails, or its budget has run out
  open_fails : Action
  -- `rpc.connect_with_budget` returned this connection
  opened : ℕ → Action
  -- a lease ends: the connection, its health, whether it was the keepalive's, its old time, now
  releases : ℕ → Bool → Bool → ℕ → ℕ → Action
  -- the fiber recycles the connections of these tokens
  recycles : List ℕ → Action
  -- the fiber reaps at this time
  reaps : ℕ → Action
  -- `close` up to the drain, and the drain
  closes drains : Action

-- Nobody has this connection.
abbrev pub is_new : ℕ → System → Bool
is_new c sys = not (contains sys.leased c) && not (contains (conns_of sys.slot.available) c)

-- A waiter that was signalled is counted out before its next round.
unfoldable pub wake : PoolConfig → Bool → ℕ → System → System
unfolding settle acquire_round
wake config expired left sys =
    let slot = record sys.slot { waiters = sys.slot.waiters - 1 } in
    settle (record sys { woken = left; slot = slot }) (acquire_round config false expired slot)

unfoldable pub finish_open : ℕ → System → System
unfolding open_raced_close
finish_open c sys =
    let (raced, slot) = open_raced_close sys.slot in
    if raced
    then record sys { slot = slot; opening = sys.opening - 1 }
    else record sys { slot = slot; opening = sys.opening - 1; leased = c ∷ sys.leased }

-- An action that cannot happen changes nothing.
unfoldable pub perform : PoolConfig → Action → System → System
unfolding settle signal_one signal_each wake finish_open acquire_round rollback_reservation
    release_decide recycle_ready_idles reap_aged_locked drain_conns_locked mark_pool_closed
perform config (acquires is_keepalive expired) sys =
    settle sys (acquire_round config is_keepalive expired sys.slot)
perform config (wakes expired) sys = elim sys.woken as (λ _. System) [
  | zero ↦ sys
  | suc left ↦ wake config expired left sys
]
perform config gives_up sys = elim sys.parked as (λ _. System) [
  | zero ↦ sys
  | suc left ↦ record sys { parked = left; slot = record slot { waiters = sys.slot.waiters - 1 } }
]
  where
    open sys use {slot}
perform config open_fails sys = elim sys.opening as (λ _. System) [
  | zero ↦ sys
  | suc left ↦ signal_one (record sys { opening = left; slot = rollback_reservation sys.slot })
]
perform config (opened c) sys = elim sys.opening as (λ _. System) [
  | zero ↦ sys
  | suc _ ↦ if is_new c sys then finish_open c sys else sys
]
perform config (releases c healthy is_keepalive preserved_ts_ms now) sys =
    let (_, slot) = release_decide c healthy is_keepalive preserved_ts_ms now sys.slot in
    if contains sys.leased c
    then signal_one (record sys { slot = slot; leased = remove_one c sys.leased })
    else sys
perform config (recycles tokens) sys =
    let (doomed, slot) = recycle_ready_idles tokens sys.slot in
    signal_each doomed (record sys { slot = slot })
perform config (reaps now) sys =
    let (_, slot) = reap_aged_locked config now sys.slot in record sys { slot = slot }
perform config closes sys = record sys { slot = mark_pool_closed sys.slot }
perform config drains sys =
    let (_, slot) = drain_conns_locked sys.slot in record sys { slot = slot }

unfoldable pub run : PoolConfig → List Action → System → System
unfolding perform
run config [] sys = sys
run config (a ∷ actions) sys = run config actions (perform config a sys)
