-- ===== src/Pool.antt =====
-- The connection pool of packages/mariadb-rpc/src/pool.drift: its slot, and the sections of code
-- that hold the slot's lock, one function each. System puts them together.
pub mod System
pub mod Counts
pub mod Wakeups
pub mod Owners
pub mod Leases
pub mod Opening
use drift_mariadb_client.Base.{
  ℕ, zero, suc, ◌+◌, ◌-◌, ◌≡◌, arith, Bool, true, false, not, ◌&&◌, ◌||◌, Option, none, some, List,
  [], ◌∷◌, ◌++◌, Text, Outcome, returned, raised,
}
use drift_mariadb_client.Base.{ltb, leb, ◌==◌, nat_eq, contains, if◌then◌else◌, length}
use mathlib.Core.List.{reverse}

-- The fields that these sections read, none of them negative. Times are milliseconds since the pool
-- was opened.
pub record PoolConfig : Type 0 where
  pub min_idle : ℕ
  pub max_conns : ℕ
  pub idle_timeout_ms : ℕ

-- A connection is the number of its socket.
pub record ConnEntry : Type 0 where
  pub conn : Option ℕ
  pub last_user_release_ms : ℕ
  pub watch_token : ℕ

-- `available` has the back of the deque first. The counters are `Int`s there; none gets below 0.
pub record PoolSlot : Type 0 where
  pub available : List ConnEntry
  pub closed : Bool
  pub active_count : ℕ
  pub total_count : ℕ
  pub waiters : ℕ
  pub next_watch_token : ℕ

pub data Failure : Type 0 where
  pool_closed acquire_timeout pool_internal pool_busy_keepalive : Failure

-- `parks` is a round that ends in a wait on the condition variable.
pub data AcquireDecision : Type 0 where
  got_conn : ℕ → ℕ → AcquireDecision
  should_open : AcquireDecision
  was_error : Failure → AcquireDecision
  parks : AcquireDecision

-- `open` refuses a configuration, or does not get its first connections.
pub data OpenFailure : Type 0 where
  invalid_max_conns invalid_min_idle : OpenFailure
  seed_failed : Text → OpenFailure

abbrev pub empty_slot : PoolSlot
empty_slot = record {
  available = [];
  closed = false;
  active_count = 0;
  total_count = 0;
  waiters = 0;
  next_watch_token = 0;
}

-- An entry that `pop_back` gave.
unfoldable pub take_entry : ConnEntry → PoolSlot → AcquireDecision × PoolSlot
take_entry entry s = elim entry.conn as (λ _. AcquireDecision × PoolSlot) [
  | some c ↦ (got_conn c entry.last_user_release_ms, record s { active_count = suc active_count })
  | none ↦ (was_error pool_internal, record s { active_count = suc active_count })
]
  where
    open s use {active_count}

-- No connection is idle.
unfoldable pub without_entry : PoolConfig → Bool → PoolSlot → AcquireDecision × PoolSlot
without_entry config is_keepalive s =
    if ltb total_count config.max_conns && not is_keepalive
    then (should_open, record s { active_count = suc active_count; total_count = suc total_count })
    else if is_keepalive
    then (was_error pool_busy_keepalive, s)
    else (parks, record s { waiters = suc waiters })
  where
    open s use {active_count, total_count, waiters}

unfoldable pub pop_back : PoolConfig → Bool → PoolSlot → AcquireDecision × PoolSlot
pop_back config is_keepalive s = elim s.available as (λ _. AcquireDecision × PoolSlot) [
  | [] ↦ without_entry config is_keepalive s
  | entry ∷ rest ↦ take_entry entry (record s { available = rest })
]

-- A round of the loop of `_acquire_decide`.
unfoldable pub acquire_round : PoolConfig → Bool → Bool → PoolSlot → AcquireDecision × PoolSlot
acquire_round config is_keepalive expired s =
    if s.closed
    then (was_error pool_closed, s)
    else if not is_keepalive && expired
    then (was_error acquire_timeout, s)
    else pop_back config is_keepalive s

-- `_mark_pool_closed`
unfoldable pub mark_pool_closed : PoolSlot → PoolSlot
mark_pool_closed s = record s { closed = true }

-- `_rollback_reservation`; the signal is with the system.
unfoldable pub rollback_reservation : PoolSlot → PoolSlot
rollback_reservation s = record s { active_count = active_count - 1; total_count = total_count - 1 }
  where
    open s use {active_count, total_count}

-- `_open_raced_close`
unfoldable pub open_raced_close : PoolSlot → Bool × PoolSlot
unfolding rollback_reservation
open_raced_close s = if s.closed then (true, rollback_reservation s) else (false, s)

-- `_release_decide`: the connection to close, if any.
unfoldable pub release_decide : ℕ → Bool → Bool → ℕ → ℕ → PoolSlot → Option ℕ × PoolSlot
release_decide c healthy is_keepalive preserved_ts_ms now s =
    let ts = if is_keepalive then preserved_ts_ms else now in
    let entry : ConnEntry = record {
      conn = some c;
      last_user_release_ms = ts;
      watch_token = suc s.next_watch_token;
    } in
    if not healthy || s.closed
    then (some c, record s { active_count = active_count - 1; total_count = total_count - 1 })
    else (
      none,
      record s {
        active_count = active_count - 1;
        next_watch_token = suc next_watch_token;
        available = entry ∷ available;
      },
    )
  where
    open s use {active_count, total_count, next_watch_token, available}

-- What the loops over the deque make of it: what is left, and the connections to close.
pub record Swept : Type 0 where
  pub left : List ConnEntry
  pub doomed : List ℕ

-- A connection that was taken out, in front of others.
abbrev pub taken : Option ℕ → List ℕ → List ℕ
taken none doomed = doomed
taken (some c) doomed = c ∷ doomed

-- The loop of `_recycle_ready_idles`. Here it starts at the back, which only turns the list of the
-- connections to close.
unfoldable pub recycle_loop : List ℕ → List ConnEntry → Swept
recycle_loop tokens [] = record { left = []; doomed = [] }
recycle_loop tokens (entry ∷ entries) =
    let rest = recycle_loop tokens entries in
    if contains tokens entry.watch_token
    then record rest { doomed = taken entry.conn rest.doomed }
    else record rest { left = entry ∷ rest.left }

unfoldable pub recycle_ready_idles : List ℕ → PoolSlot → List ℕ × PoolSlot
recycle_ready_idles tokens s =
    let swept = recycle_loop tokens s.available in
    (
      swept.doomed,
      record s { available = swept.left; total_count = s.total_count - length swept.doomed },
    )

-- The loop of `_reap_aged_locked`, from the front of the deque. `now - last < timeout` has its
-- `last` on the other side.
unfoldable pub reap_loop : PoolConfig → ℕ → ℕ → List ConnEntry → Swept
reap_loop config now total [] = record { left = []; doomed = [] }
reap_loop config now total (entry ∷ entries) =
    let rest = reap_loop config now (total - 1) entries in
    if leb total config.min_idle || ltb now (entry.last_user_release_ms + config.idle_timeout_ms)
    then record { left = entry ∷ entries; doomed = [] }
    else record rest { doomed = taken entry.conn rest.doomed }

unfoldable pub reap_aged_locked : PoolConfig → ℕ → PoolSlot → List ℕ × PoolSlot
reap_aged_locked config now s =
    let swept = reap_loop config now s.total_count (reverse s.available) in
    (
      swept.doomed,
      record s {
        available = reverse swept.left;
        total_count = s.total_count - (length s.available - length swept.left);
      },
    )

-- The loop of `_drain_conns_locked`.
abbrev pub conns_of : List ConnEntry → List ℕ
conns_of [] = []
conns_of (entry ∷ entries) = taken entry.conn (conns_of entries)

unfoldable pub drain_conns_locked : PoolSlot → List ℕ × PoolSlot
drain_conns_locked s = (
  conns_of s.available,
  record s { closed = true; available = []; total_count = s.total_count - length s.available },
)

-- A connection that `open` seeds.
unfoldable pub seed_one : ℕ → ℕ → PoolSlot → PoolSlot
seed_one c now s = record s {
  available =
      record { conn = some c; last_user_release_ms = now; watch_token = suc next_watch_token }
      ∷ available;
  next_watch_token = suc next_watch_token;
  total_count = suc total_count;
}
  where
    open s use {available, next_watch_token, total_count}

-- The loop of `open`: how many connections are to come, what each `rpc.connect` answers and when. A
-- failure gives no pool; that `open` closes the connections that it has is left out.
unfoldable pub seed_loop :
    ℕ → ℕ → (ℕ → Outcome Text ℕ) → (ℕ → ℕ) → PoolSlot → Outcome OpenFailure PoolSlot
unfolding seed_one
seed_loop zero seeded connects clock s = returned s
seed_loop (suc left) seeded connects clock s =
    elim (connects seeded) as (λ _. Outcome OpenFailure PoolSlot) [
      | raised e ↦ raised (seed_failed e)
      | returned c ↦ seed_loop left (suc seeded) connects clock (seed_one c (clock seeded) s)
    ]

-- `open` up to the start of the keepalive fiber.
unfoldable pub open_pool :
    PoolConfig → (ℕ → Outcome Text ℕ) → (ℕ → ℕ) → Outcome OpenFailure PoolSlot
open_pool config connects clock =
    if ltb config.max_conns 1
    then raised invalid_max_conns
    else if ltb config.max_conns config.min_idle
    then raised invalid_min_idle
    else seed_loop config.min_idle 0 connects clock empty_slot
