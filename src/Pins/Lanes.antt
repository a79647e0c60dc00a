-- ===== src/Pins/Lanes.antt =====
-- What the pins of the certify lane are, when `external_pins` returns.
use drift_mariadb_client.Base.{zero, suc, ◌≡◌, ◌≢◌, refl, inl, inr, arith, true, false, some}
use drift_mariadb_client.Base.{List, [], ◌∷◌, Text, returned, All, contains, text_eq}
use drift_mariadb_client.Base.{◌==◌, Bool-cases, Option-cases, >>=-eq-returned}
use drift_mariadb_client.Base.Dict.{Dict, keys, lookup, insert}
use drift_mariadb_client.Base.Order.{
  sort_by, insert_by, text_le, text_le_total, IsSorted, sort_by-IsSorted,
}
use drift_mariadb_client.Base.Strings.{partition, split}
use drift_mariadb_client.Pins.{
  Pinned, CertEnv, read_pins, read_tokens, read_emitted, certify_versions, pin, pin_from, for_names,
  missing_from, sorted, check_missing, certify_pins, is_certify, external_pins,
}

-- Each name has its pin, in order.
abbrev pub PinsOf : (Text → Text → Type 0) → List Text → List Text → Type 0
PinsOf Version [] [] = Unit {0}
PinsOf Version (n ∷ ns) (p ∷ ps) = ((v : Text) × Version n v × (p ≡ pin n v)) × PinsOf Version ns ps
PinsOf Version _ _ = ⊥

pub for_names-PinsOf :
    (Version : Text → Text → Type 0) (f : Text → Pinned Text)
    → ((n p : Text) → f n ≡ returned p → (v : Text) × Version n v × (p ≡ pin n v))
    → (ns ps : List Text) → for_names f ns ≡ returned ps
    → PinsOf Version ns ps
unfolding for_names
for_names-PinsOf Version f each [] [] h = tt
for_names-PinsOf Version f each [] (p ∷ ps) h = cc
for_names-PinsOf Version f each (n ∷ ns) out h =
    let (p, here, h') = >>=-eq-returned (f n) _ h in
    let (ps, later, made) = >>=-eq-returned (for_names f ns) _ h' in
    let e : p ∷ ps ≡ out = cc in
    rw (← e) (each n p here, for_names-PinsOf Version f each ns ps later)

pub pin_from-version :
    (versions : Dict Text Text) (n p : Text)
    → pin_from versions n ≡ returned p
    → (v : Text) × (lookup n versions ≡ some v) × (p ≡ pin n v)
unfolding pin_from
pin_from-version versions n p h = elim (Option-cases (lookup n versions)) [
  | inl (v, e) ↦ (v, e, cc (rw (e, pin_from) at h))
  | inr e ↦ cc (rw (e, pin_from) at h)
]

-- A name that is not excluded.
abbrev pub Kept : List Text → Text → Type 0
Kept exclude n = contains exclude n ≡ false

keys-insert-Kept :
    (exclude : List Text) (k v : Text) (d : Dict Text Text)
    → Kept exclude k
    → All (Kept exclude) (keys d)
    → All (Kept exclude) (keys (insert k v d))
unfolding insert
keys-insert-Kept exclude k v [] h hs = (h, tt)
keys-insert-Kept exclude k v ((j, w) ∷ d) h (here, hs) = elim (Bool-cases (k == j)) [
  | inl e ↦ rw e (here, hs)
  | inr e ↦ rw e (here, keys-insert-Kept exclude k v d h hs)
]

read_pins-Kept :
    (exclude tokens : List Text) (versions out : Dict Text Text)
    → All (Kept exclude) (keys versions)
    → read_pins exclude tokens versions ≡ returned out
    → All (Kept exclude) (keys out)
unfolding read_pins
read_pins-Kept exclude [] versions out hs h = let e : versions ≡ out = cc in rw (← e) hs
read_pins-Kept exclude (flag ∷ []) versions out hs h = cc
read_pins-Kept exclude (flag ∷ token ∷ rest) versions out hs h =
    let name = (partition b'@' token).0 in
    elim (Option-cases (partition b'@' token).1) [
      | inl (v, e) ↦ elim (Bool-cases (contains exclude name)) [
        | inl skip ↦ read_pins-Kept exclude rest versions out hs (ground (arith, rw e at h))
        | inr keep ↦
            read_pins-Kept exclude rest (insert name v versions) out
              (keys-insert-Kept exclude name v versions keep hs) (ground (arith, rw e at h))
      ]
      | inr e ↦ absurd (ground (arith, rw e at h))
    ]

-- The name is a key.
abbrev pub Resolved : Dict Text Text → Text → Type 0
Resolved versions n = contains (keys versions) n ≡ true

missing_from-Resolved :
    (versions : Dict Text Text) (ns : List Text)
    → missing_from versions ns ≡ []
    → All (Resolved versions) ns
missing_from-Resolved versions [] h = tt
missing_from-Resolved versions (n ∷ ns) h = elim (Bool-cases (contains (keys versions) n)) [
  | inl e ↦ (e, missing_from-Resolved versions ns (rw e at h))
  | inr e ↦ cc (rw e at h)
]

sorted-ne-nil : (x : Text) (xs : List Text) → sorted (x ∷ xs) ≢ []
unfolding sort_by insert_by
sorted-ne-nil x xs h = by_rest (sorted xs) h
  where
    by_rest : (ys : List Text) → insert_by text_le x ys ≢ []
    by_rest [] h = cc
    by_rest (y ∷ ys) h = elim (Bool-cases (text_le x y)) [
      | inl e ↦ cc (rw e at h)
      | inr e ↦ cc (rw e at h)
    ]

nil_of_sorted : (xs : List Text) → sorted xs ≡ [] → xs ≡ []
nil_of_sorted [] h = refl
nil_of_sorted (x ∷ xs) h = absurd (sorted-ne-nil x xs h)

check_missing-none :
    (versions : Dict Text Text) (ns pins : List Text)
    → check_missing versions ns ≡ returned pins
    → (ns ≡ []) × (for_names (pin_from versions) (sorted (keys versions)) ≡ returned pins)
unfolding check_missing
check_missing-none versions [] pins h = (refl, h)
check_missing-none versions (n ∷ ns) pins h = cc

-- The versions that the toolchain resolved, and that its command ended well.
record Certified (env : CertEnv) (artifact : Text) (exclude : List Text) (versions : Dict Text Text)
    : Type 0 where
  code : (env.lock_emit artifact).returncode ≡ 0
  read : read_tokens exclude (split (env.lock_emit artifact).stdout) ≡ returned versions
  kept : All (Kept exclude) (keys versions)

read_tokens-Kept :
    (exclude tokens : List Text) (out : Dict Text Text)
    → read_tokens exclude tokens ≡ returned out
    → All (Kept exclude) (keys out)
unfolding read_tokens
read_tokens-Kept exclude tokens out h = read_pins-Kept exclude tokens [] out tt (ground arith)

read_emitted-Certified :
    (env : CertEnv) (artifact : Text) (exclude : List Text) (versions : Dict Text Text)
    → read_emitted exclude (env.lock_emit artifact) ≡ returned versions
    → Certified env artifact exclude versions
unfolding read_emitted
read_emitted-Certified env artifact exclude versions h =
    elim ((env.lock_emit artifact).returncode)
        as (λ n.
          (env.lock_emit artifact).returncode ≡ n → Certified env artifact exclude versions) [
            | zero ↦ λ e.
                let read = rw (e, read_emitted) at h in
                record {
                  code = e;
                  read = read;
                  kept =
                      read_tokens-Kept exclude (split (env.lock_emit artifact).stdout) versions
                        read;
                }
            | suc n ↦ λ e. cc (rw (e, read_emitted) at h)
          ]
      refl

certify_versions-Certified :
    (env : CertEnv) (artifact : Text) (exclude : List Text) (versions : Dict Text Text)
    → certify_versions env artifact exclude ≡ returned versions
    → Certified env artifact exclude versions
unfolding certify_versions
certify_versions-Certified env artifact exclude versions h =
    elim (Option-cases env.toolchain_root) [
      | inl ([], e) ↦ cc (rw (e, certify_versions) at h)
      | inl (c ∷ root, e) ↦ elim (Bool-cases env.drift_is_file) [
        | inl f ↦
            read_emitted-Certified env artifact exclude versions (rw (e, certify_versions, f) at h)
        | inr f ↦ cc (rw (e, certify_versions, f) at h)
      ]
      | inr e ↦ cc (rw (e, certify_versions) at h)
    ]

-- What `external_pins` returns in the certify lane.
pub record IsCertified (env : CertEnv) (artifact : Text) (declared : Dict Text Text)
    (exclude : List Text) (pins : List Text) : Type 0 where
  pub versions : Dict Text Text
  pub code : (env.lock_emit artifact).returncode ≡ 0
  pub read : read_tokens exclude (split (env.lock_emit artifact).stdout) ≡ returned versions
  pub kept : All (Kept exclude) (keys versions)
  pub resolved : All (Resolved versions) (keys declared)
  pub in_order : IsSorted text_le (sorted (keys versions))
  pub pinned : PinsOf (λ n v. lookup n versions ≡ some v) (sorted (keys versions)) pins

-- In the certify lane, if external_pins returns pins, then the toolchain command has exited with
-- 0, no resolved name is excluded, every declared name is resolved, and the pins are those of
-- all resolved names in sorted order with the resolved versions.
pub external_pins-IsCertified :
    (env : CertEnv) (artifact : Text) (declared : Dict Text Text) (exclude pins : List Text)
    → is_certify env ≡ true
    → external_pins env artifact declared exclude ≡ returned pins
    → IsCertified env artifact declared exclude pins
unfolding external_pins certify_pins
external_pins-IsCertified env artifact declared exclude pins mode h =
    let (versions, found, h') =
      >>=-eq-returned (certify_versions env artifact exclude) _
        (rw (mode, external_pins, certify_pins) at h) in
    let c = certify_versions-Certified env artifact exclude versions found in
    let (none_missing, made) = check_missing-none versions _ pins h' in
    record {
      versions = versions;
      code = c.code;
      read = c.read;
      kept = c.kept;
      resolved = missing_from-Resolved versions (keys declared) (nil_of_sorted _ none_missing);
      in_order = sort_by-IsSorted text_le text_le_total (keys versions);
      pinned =
          for_names-PinsOf _ (pin_from versions) (pin_from-version versions)
            (sorted (keys versions)) pins made;
    }
