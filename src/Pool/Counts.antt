-- ===== src/Pool/Counts.antt =====
-- The counters of pool.drift agree with who holds, opens and waits, after every action.
use drift_mariadb_client.Base.{
  ℕ, zero, suc, ◌+◌, ◌-◌, ◌≤◌, ◌≡◌, refl, arith, Bool, true, false, Option, none, some, List, [],
  ◌∷◌,
}
use drift_mariadb_client.Base.{nat_eq, contains, if_either, length, All}
use mathlib.Core.Path.{subst}
use mathlib.Core.List.{reverse, reverse_aux}
use drift_mariadb_client.Base.Dict.{is_some}
use drift_mariadb_client.Pool.{
  PoolConfig, ConnEntry, acquire_round, take_entry, without_entry, pop_back, mark_pool_closed,
  rollback_reservation, open_raced_close, release_decide, Swept, taken, recycle_loop,
  recycle_ready_idles, reap_loop, reap_aged_locked, drain_conns_locked,
}
use drift_mariadb_client.Pool.System.{
  System, signal_one, signal_each, remove_one, settle, Action, acquires, wakes, gives_up,
  open_fails, opened, releases, recycles, reaps, closes, drains, wake, finish_open, perform, run,
}

abbrev pub IsWhole : ConnEntry → Type 0
IsWhole entry = is_some entry.conn ≡ true

pub record Counted (config : PoolConfig) (sys : System) : Type 0 where
  pub counts_active : sys.slot.active_count ≡ length sys.leased + sys.opening
  pub counts_total : sys.slot.total_count ≡ length sys.slot.available + sys.slot.active_count
  pub is_capped : sys.slot.total_count ≤ config.max_conns
  pub counts_waiters : sys.slot.waiters ≡ sys.parked + sys.woken
  pub all_whole : All IsWhole sys.slot.available

pub count_cases {ℓ κ} :
    {A : Type ℓ} (P : A → Type κ) (n : ℕ) (x : A) (f : ℕ → A)
    → P x
    → ((m : ℕ) → n ≡ suc m → P (f m))
    → P (elim n as (λ _. A) [ zero ↦ x | suc m ↦ f m ])
count_cases P zero x f p q = p
count_cases P (suc m) x f p q = q m refl

pub count_suc {ℓ κ} :
    {A : Type ℓ} (P : A → Type κ) (n m : ℕ) (x : A) (f : ℕ → A)
    → n ≡ suc m
    → P (f m)
    → P (elim n as (λ _. A) [ zero ↦ x | suc k ↦ f k ])
count_suc P zero m x f h p = absurd (omega arith)
count_suc P (suc k) m x f h p = let e : m ≡ k = omega arith in subst (λ i. P (f i)) e p

module _ (config : PoolConfig) where
  signal_one-Counted : (sys : System) → Counted config sys → Counted config (signal_one sys)
  unfolding signal_one
  signal_one-Counted sys h = ground arith

  signal_each-Counted :
      (doomed : List ℕ) (sys : System)
      → Counted config sys
      → Counted config (signal_each doomed sys)
  unfolding signal_each
  signal_each-Counted [] sys h = h
  signal_each-Counted (c ∷ doomed) sys h =
      signal_each-Counted doomed (signal_one sys) (signal_one-Counted sys h)

  -- A round of `_acquire_decide` for a caller that is not counted as a waiter.
  acquire_round-Counted :
      (is_keepalive expired : Bool) (sys : System)
      → Counted config sys
      → Counted config (settle sys (acquire_round config is_keepalive expired sys.slot))
  unfolding settle acquire_round pop_back take_entry without_entry
  acquire_round-Counted is_keepalive expired sys h = ground arith

  wake-Counted :
      (expired : Bool) (left : ℕ) (sys : System)
      → sys.woken ≡ suc left
      → Counted config sys
      → Counted config (wake config expired left sys)
  unfolding wake
  wake-Counted expired left sys e h = acquire_round-Counted false expired _ (record {
    counts_active = h.counts_active;
    counts_total = h.counts_total;
    is_capped = h.is_capped;
    counts_waiters = omega (arith, h.counts_waiters);
    all_whole = h.all_whole;
  })

  finish_open-Counted :
      (c left : ℕ) (sys : System)
      → sys.opening ≡ suc left
      → Counted config sys
      → Counted config (finish_open c sys)
  unfolding finish_open open_raced_close rollback_reservation
  finish_open-Counted c left sys e h = ground arith

length-remove_one :
    (c : ℕ) (xs : List ℕ) → contains xs c ≡ true → suc (length (remove_one c xs)) ≡ length xs
length-remove_one c [] h = absurd cc
length-remove_one c (x ∷ xs) h = ground (arith, length-remove_one c xs)

length-taken :
    (o : Option ℕ) (doomed : List ℕ)
    → is_some o ≡ true
    → length (taken o doomed) ≡ suc (length doomed)
length-taken none doomed h = absurd cc
length-taken (some c) doomed h = refl

-- What a sweep of whole entries leaves and takes out.
abbrev pub Sorted : List ConnEntry → Swept → Type 0
Sorted entries swept =
    (length swept.left + length swept.doomed ≡ length entries) × All IsWhole swept.left

pub recycle_loop-Sorted :
    (tokens : List ℕ) (entries : List ConnEntry)
    → All IsWhole entries
    → Sorted entries (recycle_loop tokens entries)
unfolding recycle_loop
recycle_loop-Sorted tokens [] h = (omega arith, tt)
recycle_loop-Sorted tokens (entry ∷ entries) (whole, h) = ground (
  arith,
  recycle_loop-Sorted tokens entries h,
  length-taken entry.conn (recycle_loop tokens entries).doomed whole,
)

pub reap_loop-Sorted :
    (config : PoolConfig) (now total : ℕ) (entries : List ConnEntry)
    → All IsWhole entries
    → Sorted entries (reap_loop config now total entries)
unfolding reap_loop
reap_loop-Sorted config now total [] h = (omega arith, tt)
reap_loop-Sorted config now total (entry ∷ entries) (whole, h) = ground (
  arith,
  reap_loop-Sorted config now (total - 1) entries h,
  length-taken entry.conn (reap_loop config now (total - 1) entries).doomed whole,
)

All-reverse_aux {ℓ κ} :
    {A : Type ℓ} (P : A → Type κ) (xs ys : List A) → All P xs → All P ys → All P (reverse_aux xs ys)
All-reverse_aux P [] ys h g = g
All-reverse_aux P (x ∷ xs) ys (h, hs) g = All-reverse_aux P xs (x ∷ ys) hs (h, g)

length-reverse_aux {ℓ} :
    {A : Type ℓ} (xs ys : List A) → length (reverse_aux xs ys) ≡ length xs + length ys
length-reverse_aux [] ys = omega arith
length-reverse_aux (x ∷ xs) ys = omega (arith, length-reverse_aux xs (x ∷ ys))

module _ (config : PoolConfig) where
  release-Counted :
      (c : ℕ) (healthy is_keepalive : Bool) (ts now : ℕ) (sys : System)
      → Counted config sys
      → Counted config (perform config (releases c healthy is_keepalive ts now) sys)
  unfolding perform release_decide signal_one
  release-Counted c healthy is_keepalive ts now sys h =
      ground (arith, length-remove_one c sys.leased)

  recycle-Counted :
      (tokens : List ℕ) (sys : System)
      → Counted config sys
      → Counted config (perform config (recycles tokens) sys)
  unfolding perform recycle_ready_idles
  recycle-Counted tokens sys h =
      let (count, whole) = recycle_loop-Sorted tokens sys.slot.available h.all_whole in
      signal_each-Counted config (recycle_loop tokens sys.slot.available).doomed _ (record {
        counts_active = h.counts_active;
        counts_total = omega (arith, h.counts_total);
        is_capped = omega (arith, h.is_capped);
        counts_waiters = h.counts_waiters;
        all_whole = whole;
      })

  -- A reaping pass takes out as many connections as it counts.
  pub reap_count :
      (now : ℕ) (sys : System)
      → Counted config sys
      → let left = (reap_loop config now sys.slot.total_count (reverse sys.slot.available)).left in
        length (reverse left) + (length sys.slot.available - length left)
        ≡ length sys.slot.available
  reap_count now sys h =
      let order = reverse sys.slot.available in
      let (count, _) =
        reap_loop-Sorted config now sys.slot.total_count order
          (All-reverse_aux IsWhole sys.slot.available [] h.all_whole tt) in
      omega (
        arith,
        length-reverse_aux sys.slot.available [],
        length-reverse_aux (reap_loop config now sys.slot.total_count order).left [],
      )

  reap-Counted :
      (now : ℕ) (sys : System)
      → Counted config sys
      → Counted config (perform config (reaps now) sys)
  unfolding perform reap_aged_locked
  reap-Counted now sys h =
      let order = reverse sys.slot.available in
      let (count, whole) =
        reap_loop-Sorted config now sys.slot.total_count order
          (All-reverse_aux IsWhole sys.slot.available [] h.all_whole tt) in
      let swept = reap_loop config now sys.slot.total_count order in
      record {
        counts_active = h.counts_active;
        counts_total = omega (arith, h.counts_total, reap_count now sys h);
        is_capped = omega (arith, h.is_capped);
        counts_waiters = h.counts_waiters;
        all_whole = All-reverse_aux IsWhole swept.left [] whole tt;
      }

  pub perform-Counted :
      (action : Action) (sys : System)
      → Counted config sys
      → Counted config (perform config action sys)
  unfolding perform mark_pool_closed drain_conns_locked rollback_reservation
  perform-Counted (acquires is_keepalive expired) sys h =
      acquire_round-Counted config is_keepalive expired sys h
  perform-Counted (wakes expired) sys h =
      count_cases (Counted config) sys.woken sys _ h
        (λ left e. wake-Counted config expired left sys e h)
  perform-Counted gives_up sys h = ground arith
  perform-Counted open_fails sys h = count_cases (Counted config) sys.opening sys _ h (λ left e.
      signal_one-Counted config _ (record {
        counts_active = omega (arith, h.counts_active);
        counts_total = omega (arith, h.counts_total, h.counts_active);
        is_capped = omega (arith, h.is_capped);
        counts_waiters = h.counts_waiters;
        all_whole = h.all_whole;
      }))
  perform-Counted (opened c) sys h =
      count_cases (Counted config) sys.opening sys _ h
        (λ left e. if_either (Counted config) _ _ _ (finish_open-Counted config c left sys e h) h)
  perform-Counted (releases c healthy is_keepalive ts now) sys h =
      release-Counted c healthy is_keepalive ts now sys h
  perform-Counted (recycles tokens) sys h = recycle-Counted tokens sys h
  perform-Counted (reaps now) sys h = reap-Counted now sys h
  perform-Counted closes sys h = ground arith
  perform-Counted drains sys h = record {
    counts_active = h.counts_active;
    counts_total = omega (arith, h.counts_total);
    is_capped = omega (arith, h.is_capped);
    counts_waiters = h.counts_waiters;
    all_whole = tt;
  }

  pub run-Counted :
      (actions : List Action) (sys : System)
      → Counted config sys
      → Counted config (run config actions sys)
  unfolding run
  run-Counted [] sys h = h
  run-Counted (a ∷ actions) sys h =
      run-Counted actions (perform config a sys) (perform-Counted a sys h)
