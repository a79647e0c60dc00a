-- ===== src/Pins/Strict.antt =====
-- What the pins of the strict lane are.
use drift_mariadb_client.Base.{
  ◌≡◌, ◌≢◌, refl, ap, ◌∙◌, ◌⊎◌, inl, inr, arith, true, false, Option, none, some, if◌then◌else◌,
  Bool-cases,
}
use drift_mariadb_client.Base.{List, [], ◌∷◌, Text, returned, All, contains, text_eq}
use drift_mariadb_client.Base.{Option-cases}
use drift_mariadb_client.Base.Dict.{
  Dict, keys, lookup, insert, lookup-insert, is_some, contains-keys,
}
use drift_mariadb_client.Base.Order.{
  text_le, text_le_total, IsSorted, sort_by-IsSorted, sort_by-All,
}
use drift_mariadb_client.Pins.{
  Pinned, CertEnv, resolved_of, versions_of, strict_versions, pin, pin_from, pin_or_declared,
  for_names, sorted, strict_pins, is_certify, external_pins,
}
use drift_mariadb_client.Pins.Lanes.{PinsOf, for_names-PinsOf, pin_from-version}

-- The keys of a Python dictionary.
abbrev pub DistinctKeys : Dict Text (Option Text) → Type 0
DistinctKeys [] = Unit {0}
DistinctKeys ((n, _) ∷ d) = (lookup n d ≡ none) × DistinctKeys d

abbrev as_entry : Option Text → Option (Option Text)
as_entry none = none
as_entry (some v) = some (some v)

-- What the comprehension leaves for a name, `versions` being what was there before.
abbrev version_in :
    List Text → Dict Text (Option Text) → Dict Text Text → Text → Option (Option Text)
version_in exclude resolved versions n =
    if contains exclude n
    then as_entry (lookup n versions)
    else elim (lookup n resolved) [ none ↦ as_entry (lookup n versions) | some v ↦ some v ]

versions_of-version_in :
    (exclude : List Text) (resolved : Dict Text (Option Text)) (before versions : Dict Text Text)
    (n : Text)
    → DistinctKeys resolved
    → versions_of exclude resolved before ≡ returned versions
    → as_entry (lookup n versions) ≡ version_in exclude resolved before n
unfolding versions_of lookup
versions_of-version_in exclude [] before versions n h e = ground (arith, e)
versions_of-version_in exclude ((m, none) ∷ rest) before versions n (fresh, h) e =
    elim (Bool-cases (contains exclude m)) [
      | inl out ↦
          let ih =
            versions_of-version_in exclude rest before versions n h (rw (out, versions_of) at e) in
          let swap : n ≡ m → contains exclude n ≡ true = λ p. ap (contains exclude) p ∙ out in
          ground (arith, ih, swap, fresh)
      | inr kept ↦ absurd cc (rw (kept, versions_of) at e)
    ]
versions_of-version_in exclude ((m, some v) ∷ rest) before versions n (fresh, h) e =
    elim (Bool-cases (contains exclude m)) [
      | inl out ↦
          let ih =
            versions_of-version_in exclude rest before versions n h (rw (out, versions_of) at e) in
          let swap : n ≡ m → contains exclude n ≡ true = λ p. ap (contains exclude) p ∙ out in
          ground (arith, ih, swap, fresh)
      | inr kept ↦
          let ih =
            versions_of-version_in exclude rest (insert m v before) versions n h
              (rw (kept, versions_of) at e) in
          let gone : n ≡ m → lookup n rest ≡ none = λ p. ap (λ k. lookup k rest) p ∙ fresh in
          let swap : n ≡ m → contains exclude n ≡ false = λ p. ap (contains exclude) p ∙ kept in
          ground (arith, ih, swap, gone, lookup-insert n m v before)
    ]

-- The version that the lock has for a name that is not excluded, if it is not empty, and else the
-- declared one.
abbrev pub Locked : List Text → Dict Text (Option Text) → Dict Text Text → Text → Text → Type 0
Locked exclude resolved declared n v =
    ((contains exclude n ≡ false) × (lookup n resolved ≡ some (some v)) × (v ≢ []))
    ⊎ (((contains exclude n ≡ true)
          ⊎ ((lookup n resolved ≡ none) ⊎ (lookup n resolved ≡ some (some []))))
        × (lookup n declared ≡ some v))

version_in-some :
    (exclude : List Text) (resolved : Dict Text (Option Text)) (n v : Text)
    → some (some v) ≡ version_in exclude resolved [] n
    → (contains exclude n ≡ false) × (lookup n resolved ≡ some (some v))
unfolding lookup
version_in-some exclude resolved n v e = elim (Bool-cases (contains exclude n)) [
  | inl out ↦ absurd cc (rw (out) at e)
  | inr kept ↦ elim (Option-cases (lookup n resolved)) [
    | inl (w, at) ↦ (kept, cc (rw (kept, at) at e, at))
    | inr at ↦ absurd cc (rw (kept, at) at e)
  ]
]

version_in-none :
    (exclude : List Text) (resolved : Dict Text (Option Text)) (n : Text)
    → none ≡ version_in exclude resolved [] n
    → (contains exclude n ≡ true) ⊎ (lookup n resolved ≡ none)
unfolding lookup
version_in-none exclude resolved n e = elim (Bool-cases (contains exclude n)) [
  | inl out ↦ inl out
  | inr kept ↦ elim (Option-cases (lookup n resolved)) [
    | inl (w, at) ↦ absurd cc (rw (kept, at) at e)
    | inr at ↦ inr at
  ]
]

pin_or_declared-Locked :
    (exclude : List Text) (resolved : Dict Text (Option Text)) (versions declared : Dict Text Text)
    → ((n : Text) → as_entry (lookup n versions) ≡ version_in exclude resolved [] n)
    → (n p : Text) → pin_or_declared versions declared n ≡ returned p
    → (v : Text) × Locked exclude resolved declared n v × (p ≡ pin n v)
unfolding pin_or_declared
pin_or_declared-Locked exclude resolved versions declared from n p h =
    elim (Option-cases (lookup n versions)) [
      | inl ([], e) ↦
          let (v, found, made) = pin_from-version declared n p (rw (e, pin_or_declared) at h) in
          let (_, entry) = version_in-some exclude resolved n [] (rw (e) at (from n)) in
          (v, inr (inr (inr entry), found), made)
      | inl (c ∷ v, e) ↦
          let (kept, entry) = version_in-some exclude resolved n (c ∷ v) (rw (e) at (from n)) in
          (c ∷ v, inl (kept, entry, (λ x. cc)), cc (rw (e, pin_or_declared) at h))
      | inr e ↦
          let (v, found, made) = pin_from-version declared n p (rw (e, pin_or_declared) at h) in
          let out = version_in-none exclude resolved n (rw (e) at (from n)) in
          (v, inr (elim out [ inl k ↦ inl k | inr k ↦ inr (inl k) ], found), made)
    ]

for_names-total :
    (f : Text → Pinned Text) (ns : List Text)
    → All (λ n. (p : Text) × (f n ≡ returned p)) ns
    → (ps : List Text) × (for_names f ns ≡ returned ps)
unfolding for_names
for_names-total f [] h = ([], refl)
for_names-total f (n ∷ ns) ((p, e), h) =
    let (ps, es) = for_names-total f ns h in (p ∷ ps, rw (e, for_names, es))

contains-cons :
    (x : Text) (xs ys : List Text)
    → All (λ n. contains xs n ≡ true) ys
    → All (λ n. contains (x ∷ xs) n ≡ true) ys
contains-cons x xs [] h = tt
contains-cons x xs (y ∷ ys) (h, hs) = (ground arith, contains-cons x xs ys hs)

contains_self : (xs : List Text) → All (λ n. contains xs n ≡ true) xs
contains_self [] = tt
contains_self (x ∷ xs) = (ground arith, contains-cons x xs xs (contains_self xs))

-- `n in d` in terms of `d[n]`.
key-found :
    (d : Dict Text Text) (n : Text)
    → contains (keys d) n ≡ true
    → (v : Text) × (lookup n d ≡ some v)
key-found d n h = elim (Option-cases (lookup n d)) [
  | inl found ↦ found
  | inr e ↦
      let absent : is_some (lookup n d) ≡ false = ap is_some e in let here = contains-keys n d in cc
]

pin_or_declared-total :
    (versions declared : Dict Text Text) (n : Text)
    → contains (keys declared) n ≡ true
    → (p : Text) × (pin_or_declared versions declared n ≡ returned p)
unfolding pin_or_declared pin_from
pin_or_declared-total versions declared n h =
    let (w, found) = key-found declared n h in
    elim (Option-cases (lookup n versions)) [
      | inl ([], e) ↦ (pin n w, rw (e, pin_or_declared, pin_from, found))
      | inl (c ∷ v, e) ↦ (pin n (c ∷ v), rw (e, pin_or_declared))
      | inr e ↦ (pin n w, rw (e, pin_or_declared, pin_from, found))
    ]

total_on :
    (versions declared : Dict Text Text) (ns : List Text)
    → All (λ n. contains (keys declared) n ≡ true) ns
    → All (λ n. (p : Text) × (pin_or_declared versions declared n ≡ returned p)) ns
total_on versions declared [] h = tt
total_on versions declared (n ∷ ns) (h, hs) =
    (pin_or_declared-total versions declared n h, total_on versions declared ns hs)

-- In the strict lane, whenever the lock can be read and the names of its entries are distinct,
-- external_pins returns one pin for each declared name, in sorted order, with the version of the
-- lock where it has one for a name that is not excluded and that is not empty, and else the
-- declared version.
pub external_pins-Locked :
    (env : CertEnv) (artifact : Text) (declared versions : Dict Text Text) (exclude : List Text)
    → is_certify env ≡ false
    → DistinctKeys (resolved_of env.lock artifact)
    → strict_versions env.lock artifact exclude ≡ returned versions
    → (pins : List Text) × (external_pins env artifact declared exclude ≡ returned pins)
      × IsSorted text_le (sorted (keys declared))
      × PinsOf
          (Locked exclude (resolved_of env.lock artifact) declared)
          (sorted (keys declared))
          pins
unfolding external_pins strict_pins strict_versions
external_pins-Locked env artifact declared versions exclude mode distinct found =
    let ns = sorted (keys declared) in
    let here =
      sort_by-All text_le (λ n. contains (keys declared) n ≡ true) (keys declared)
        (contains_self (keys declared)) in
    let (pins, made) =
      for_names-total (pin_or_declared versions declared) ns (total_on versions declared ns here) in
    let resolved = resolved_of env.lock artifact in
    let from = λ (n : Text). versions_of-version_in exclude resolved [] versions n distinct found in
    (
      pins,
      rw (mode, external_pins, strict_pins, found) made,
      sort_by-IsSorted text_le text_le_total (keys declared),
      for_names-PinsOf _ (pin_or_declared versions declared)
          (pin_or_declared-Locked exclude resolved versions declared from) ns pins made,
    )
