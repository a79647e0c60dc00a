-- ===== src/Pins.antt =====
-- tools/cert_deps.py: the `name@version` pins of a build, in its two lanes.
pub mod Lanes
pub mod Strict
use drift_mariadb_client.Base.{ℕ, zero, suc, Bool, true, false, Option, none, some}
use drift_mariadb_client.Base.{List, [], ◌∷◌, ◌++◌, Text, codes, Outcome, returned, raised, ◌>>=◌}
use drift_mariadb_client.Base.{◌==◌, text_eq, contains, if◌then◌else◌}
use drift_mariadb_client.Base.Dict.{Dict, keys, lookup, insert}
use drift_mariadb_client.Base.Order.{sort_by, text_le}
use drift_mariadb_client.Base.Strings.{split, partition}

-- The calls of `sys.exit`, and the `KeyError` of a lock entry without a version or a name that was
-- not declared.
pub data PinError : Type 0 where
  no_toolchain_root no_drift_cli odd_token_count bad_flags : PinError
  emit_failed : ℕ → PinError
  missing_deps : List Text → PinError
  key_error : Text → PinError

abbrev pub Pinned {ℓ} : Type ℓ → Type ℓ
Pinned = Outcome PinError

-- `resolved` by artifact, in drift/lock.json; a version is `none` where the entry lacks the key.
abbrev pub Lock : Type 0
Lock = Dict Text (Dict Text (Option Text))

-- A finished run of `drift lock emit`.
pub record Emitted : Type 0 where
  pub returncode : ℕ
  pub stdout : Text

-- What the two lanes read: variables of the environment, files, and the toolchain's command.
pub record CertEnv : Type 0 where
  pub cert_mode : Option Text
  pub toolchain_root : Option Text
  pub drift_is_file : Bool
  pub lock : Option Lock
  pub lock_emit : Text → Emitted

-- `resolved` of the artifact, empty where a key is missing.
unfoldable pub resolved_of : Option Lock → Text → Dict Text (Option Text)
unfolding lookup text_eq
resolved_of none artifact = []
resolved_of (some lock) artifact = elim (lookup artifact lock) [ none ↦ [] | some r ↦ r ]

-- `{n: v["version"] for n, v in resolved.items() if n not in exclude}`
unfoldable pub versions_of :
    List Text → Dict Text (Option Text) → Dict Text Text → Pinned (Dict Text Text)
versions_of exclude [] versions = returned versions
versions_of exclude ((n, v) ∷ rest) versions =
    let without = versions_of exclude rest versions in
    let with_version = elim v as (λ _. Pinned (Dict Text Text)) [
      | none ↦ raised (key_error n)
      | some ver ↦ versions_of exclude rest (insert n ver versions)
    ] in
    if contains exclude n then without else with_version

unfoldable pub strict_versions : Option Lock → Text → List Text → Pinned (Dict Text Text)
unfolding resolved_of versions_of insert
strict_versions lock artifact exclude = versions_of exclude (resolved_of lock artifact) []

-- The loop over pairs of tokens; an odd number of tokens is refused before it.
unfoldable pub read_pins : List Text → List Text → Dict Text Text → Pinned (Dict Text Text)
read_pins exclude [] versions = returned versions
read_pins exclude (flag ∷ []) versions = raised odd_token_count
read_pins exclude (flag ∷ pin ∷ rest) versions =
    let (name, ver) = partition b'@' pin in
    let without = read_pins exclude rest versions in
    let with_pin = elim ver as (λ _. Pinned (Dict Text Text)) [
      | none ↦ raised bad_flags
      | some v ↦
          if contains exclude name then without else read_pins exclude rest (insert name v versions)
    ] in
    if flag == codes "--dep" then with_pin else raised bad_flags

-- `len(tokens) % 2`
abbrev pub is_odd : List Text → Bool
is_odd [] = false
is_odd (t ∷ []) = true
is_odd (t ∷ u ∷ ts) = is_odd ts

unfoldable pub read_tokens : List Text → List Text → Pinned (Dict Text Text)
unfolding read_pins
read_tokens exclude tokens =
    if is_odd tokens then raised odd_token_count else read_pins exclude tokens []

-- After the command has run: its exit code is looked at first.
unfoldable pub read_emitted : List Text → Emitted → Pinned (Dict Text Text)
unfolding read_tokens
read_emitted exclude proc = elim proc.returncode [
  | zero ↦ read_tokens exclude (split proc.stdout)
  | suc n ↦ raised (emit_failed (suc n))
]

unfoldable pub certify_versions : CertEnv → Text → List Text → Pinned (Dict Text Text)
unfolding read_emitted
certify_versions env artifact exclude = elim env.toolchain_root [
  | none ↦ raised no_toolchain_root
  | some [] ↦ raised no_toolchain_root
  | some (c ∷ root) ↦
      if env.drift_is_file
      then read_emitted exclude (env.lock_emit artifact)
      else raised no_drift_cli
]

-- `f"{n}@{v}"`
abbrev pub pin : Text → Text → Text
pin n v = n ++ (b'@' ∷ v)

-- `versions[n]`
unfoldable pub pin_from : Dict Text Text → Text → Pinned Text
pin_from versions n = elim (lookup n versions) [
  | none ↦ raised (key_error n)
  | some v ↦ returned (pin n v)
]

-- `versions.get(n) or declared[n]`: an empty version counts as none.
unfoldable pub pin_or_declared : Dict Text Text → Dict Text Text → Text → Pinned Text
unfolding pin_from
pin_or_declared versions declared n = elim (lookup n versions) [
  | none ↦ pin_from declared n
  | some [] ↦ pin_from declared n
  | some (c ∷ v) ↦ returned (pin n (c ∷ v))
]

-- A list comprehension over names.
unfoldable pub for_names : (Text → Pinned Text) → List Text → Pinned (List Text)
for_names f [] = returned []
for_names f (n ∷ ns) = do p ← f n; ps ← for_names f ns; returned (p ∷ ps)

abbrev pub missing_from : Dict Text Text → List Text → List Text
missing_from versions [] = []
missing_from versions (n ∷ ns) =
    let rest = missing_from versions ns in if contains (keys versions) n then rest else n ∷ rest

abbrev pub sorted : List Text → List Text
sorted = sort_by text_le

unfoldable pub check_missing : Dict Text Text → List Text → Pinned (List Text)
unfolding for_names pin_from
check_missing versions [] = for_names (pin_from versions) (sorted (keys versions))
check_missing versions (n ∷ ns) = raised (missing_deps (n ∷ ns))

unfoldable pub certify_pins : CertEnv → Text → Dict Text Text → List Text → Pinned (List Text)
unfolding certify_versions check_missing
certify_pins env artifact declared exclude = do
  versions ← certify_versions env artifact exclude
  check_missing versions (sorted (missing_from versions (keys declared)))

unfoldable pub strict_pins : CertEnv → Text → Dict Text Text → List Text → Pinned (List Text)
unfolding strict_versions for_names pin_or_declared
strict_pins env artifact declared exclude = do
  versions ← strict_versions env.lock artifact exclude
  for_names (pin_or_declared versions declared) (sorted (keys declared))

-- `env.get("DRIFT_CERT_MODE") == "certify"`
abbrev pub is_certify : CertEnv → Bool
is_certify env = elim env.cert_mode [ none ↦ false | some mode ↦ mode == codes "certify" ]

unfoldable pub external_pins : CertEnv → Text → Dict Text Text → List Text → Pinned (List Text)
unfolding certify_pins strict_pins
external_pins env artifact declared exclude =
    if is_certify env
    then certify_pins env artifact declared exclude
    else strict_pins env artifact declared exclude
