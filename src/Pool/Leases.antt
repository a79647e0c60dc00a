-- ===== src/Pool/Leases.antt =====
-- The holders of the connections of an opened pool of pool.drift.
use drift_mariadb_client.Base.{
  ℕ, zero, suc, ◌+◌, ◌<◌, ◌≡◌, ◌⊎◌, refl, ap, ◌∙◌, arith, List, Text, Outcome,
}
use drift_mariadb_client.Base.{returned, ltb, ◌==◌, nat_eq, Outcome-cases, Bool-cases, inl, inr}
use drift_mariadb_client.Pool.{
  PoolConfig, PoolSlot, empty_slot, seed_one, seed_loop, open_pool, conns_of,
}
use drift_mariadb_client.Pool.System.{Action, unused, run}
use drift_mariadb_client.Pool.Owners.{count, IsOwned, run-IsOwned}

-- `rpc.connect` gives a new connection whenever it is called.
abbrev pub IsFresh : (ℕ → Outcome Text ℕ) → Type 0
IsFresh connects = (i j c : ℕ) → connects i ≡ returned c → connects j ≡ returned c → i ≡ j

module _ (connects : ℕ → Outcome Text ℕ) (fresh : IsFresh connects) where
  -- The idle connections are of the first calls, each once.
  abbrev IsSeeded : ℕ → PoolSlot → Type 0
  IsSeeded seeded s =
      (c : ℕ)
      → (count c (conns_of s.available) ≡ 0)
        ⊎ ((count c (conns_of s.available) ≡ 1)
            × (i : ℕ) × (i < seeded)
            × (connects i ≡ returned c))

  seed_one-IsSeeded :
      (seeded c now : ℕ) (s : PoolSlot)
      → connects seeded ≡ returned c
      → IsSeeded seeded s
      → IsSeeded (suc seeded) (seed_one c now s)
  unfolding seed_one
  seed_one-IsSeeded seeded c now s e h d = elim (Bool-cases (d == c)) [
    | inl same ↦
        let is_c : c ≡ d = ground arith in
        let here : connects seeded ≡ returned d = e ∙ ap returned is_c in
        elim (h d) [
          | inl absent ↦ inr (ground arith, seeded, omega arith, here)
          | inr (_, i, earlier, there) ↦
              let clash : i ≡ seeded = fresh i seeded d there here in absurd (omega arith)
        ]
    | inr other ↦ rw other (elim (h d) [
      | inl absent ↦ inl absent
      | inr (once, i, earlier, there) ↦ inr (once, i, omega arith, there)
    ])
  ]

  seed_loop-IsSeeded :
      (left seeded : ℕ) (clock : ℕ → ℕ) (s s' : PoolSlot)
      → IsSeeded seeded s
      → seed_loop left seeded connects clock s ≡ returned s'
      → IsSeeded (left + seeded) s'
  unfolding seed_loop
  seed_loop-IsSeeded zero seeded clock s s' h e = ground arith
  seed_loop-IsSeeded (suc left) seeded clock s s' h e = elim (Outcome-cases (connects seeded)) [
    | inr (x, bad) ↦ absurd (grind (arith, e, bad))
    | inl (c, good) ↦
        let shift : suc left + seeded ≡ left + suc seeded = omega arith in
        rw shift (
          seed_loop-IsSeeded left (suc seeded) clock (seed_one c (clock seeded) s) s'
            (seed_one-IsSeeded seeded c (clock seeded) s good h) (rw (seed_loop, good) at e))
  ]

  open_pool-IsSeeded :
      (config : PoolConfig) (clock : ℕ → ℕ) (slot : PoolSlot)
      → open_pool config connects clock ≡ returned slot
      → IsSeeded (config.min_idle + 0) slot
  unfolding open_pool
  open_pool-IsSeeded config clock slot e = elim (Bool-cases (ltb config.max_conns 1)) [
    | inl bad ↦ absurd (grind (arith, e, bad))
    | inr good ↦ elim (Bool-cases (ltb config.max_conns config.min_idle)) [
      | inl bad ↦ absurd (grind (arith, e, good, bad))
      | inr enough ↦
          seed_loop-IsSeeded config.min_idle 0 clock empty_slot slot (λ c. inl refl)
            (rw (open_pool, good, enough) at e)
    ]
  ]

  IsSeeded-IsOwned : (n : ℕ) (slot : PoolSlot) → IsSeeded n slot → IsOwned (unused slot)
  IsSeeded-IsOwned n slot h c = elim (h c) [
    | inl absent ↦ omega arith
    | inr (once, i, earlier, there) ↦ omega arith
  ]

  -- If the connections that rpc.connect gives while open fills the pool are all different, and
  -- open returns a pool, then after any sequence of the sections that hold its lock, where each
  -- later open brings a connection that is neither idle nor on lease, no connection is on lease
  -- twice, idle twice, or both.
  pub run-open_pool-IsOwned :
      (config : PoolConfig) (clock : ℕ → ℕ) (slot : PoolSlot) (actions : List Action)
      → open_pool config connects clock ≡ returned slot
      → IsOwned (run config actions (unused slot))
  run-open_pool-IsOwned config clock slot actions e =
      run-IsOwned config actions (unused slot)
        (IsSeeded-IsOwned (config.min_idle + 0) slot (open_pool-IsSeeded config clock slot e))
