-- ===== src/Plan/Emit.antt =====
-- The plans: the jobs of each gate, from the manifest, the sources and the pins.
use drift_mariadb_client.Base.{ℕ, Bool, Option, none, some}
use drift_mariadb_client.Base.{
  List, [], ◌∷◌, ◌++◌, map, Text, codes, returned, raised, ◌>>=◌, map_outcome,
}
use drift_mariadb_client.Base.{nat_eq, text_eq, if◌then◌else◌}
use drift_mariadb_client.Base.Dict.{Dict, keys, lookup, insert, from_pairs}
use drift_mariadb_client.Pins.{CertEnv, external_pins}
use drift_mariadb_client.Plan.Source.{
  Tree, no_artifact, pin_error, Emit, dirname, flat_each, sorted_set, src_files,
}

-- An entry of `package_deps`.
pub record Dep : Type 0 where
  pub name : Text
  pub version : Text

-- An entry of `artifacts` in drift/manifest.json.
pub record Artifact : Type 0 where
  pub name : Text
  pub version : Text
  pub kind : Option Text
  pub entry_point : Option Text
  pub modules : List Text
  pub package_deps : List Dep

-- What a plan is made from: the repository, the environment of `cert_deps`, and `PKG_ROOT`.
pub record Repo : Type 0 where
  pub tree : Tree
  pub manifest : List Artifact
  pub cert : CertEnv
  pub pkg_root : Text

-- `{a["name"]: a["version"] for a in artifacts}`
unfoldable pub manifest_versions : Repo → Dict Text Text
unfolding from_pairs text_eq
manifest_versions repo = from_pairs [] (map (λ (a : Artifact). (a.name, a.version)) repo.manifest)

abbrev pub artifacts_by_name : Repo → Dict Text Artifact
artifacts_by_name repo = from_pairs [] (map (λ (a : Artifact). (a.name, a)) repo.manifest)

abbrev pub find_artifact : Repo → Text → Option Artifact
find_artifact repo name = lookup name (artifacts_by_name repo)

-- The loop over `package_deps`: directories of co-artifacts, and versions of the others.
unfoldable pub split_deps :
    Dict Text Artifact → List Dep → List Text → Dict Text Text → List Text × Dict Text Text
unfolding dirname insert lookup text_eq
split_deps arts [] dirs declared = (dirs, declared)
split_deps arts (dep ∷ deps) dirs declared = elim (lookup dep.name arts) [
  | none ↦ split_deps arts deps dirs (insert dep.name dep.version declared)
  | some co ↦ split_deps arts deps (dirs ++ map dirname co.modules) declared
]

unfoldable pub resolve_target : Repo → Artifact → Text → Emit (List Text × List Text)
unfolding split_deps sorted_set external_pins
resolve_target repo target artifact =
    let arts = artifacts_by_name repo in
    let (dirs, declared) = split_deps arts target.package_deps (map dirname target.modules) [] in
    map_outcome pin_error (λ deps. (sorted_set dirs, deps))
      (external_pins repo.cert artifact declared (keys arts))

-- Source directories and pins.
unfoldable pub resolve_artifact : Repo → Text → Emit (List Text × List Text)
unfolding resolve_target from_pairs
resolve_artifact repo artifact = elim (find_artifact repo artifact) [
  | none ↦ raised (no_artifact artifact)
  | some target ↦ resolve_target repo target artifact
]

-- What a source build against an artifact needs.
pub record Context : Type 0 where
  pub srcs : List Text
  pub dep_flags : List Text

unfoldable pub build_context : Repo → Text → Emit Context
unfolding resolve_artifact src_files
build_context repo artifact = do
  (src_dirs, deps) ← resolve_artifact repo artifact
  returned (record {
    srcs = src_files repo.tree src_dirs;
    dep_flags = flat_each (λ d. codes "--dep" ∷ d ∷ []) deps;
  })

-- A job; `none` and `[]` where the dictionary lacks the key.
pub record Job : Type 0 where
  pub id : Text
  pub out : Option Text
  pub cmd : List Text
  pub needs : List Text
  pub wrap : Option Text
  pub mode : Option Text
  pub group : Option Text
  pub order : Option ℕ

pub record Phase : Type 0 where
  pub name : Text
  pub jobs : List Job

pub record Plan : Type 0 where
  pub name : Text
  pub phases : List Phase

abbrev pub in_work : Text → Text
in_work name = codes "{work}/" ++ name

abbrev pub sanitize_flags : Bool → List Text
sanitize_flags sanitize =
    codes "--sanitize" ∷ (if sanitize then codes "address" else codes "none") ∷ []

abbrev pub compiler : List Text
compiler = codes "{driftc}" ∷ codes "--target-word-bits" ∷ codes "64" ∷ []

abbrev build_job : Text → List Text → Job
build_job out_name cmd = record {
  id = out_name;
  out = some (in_work out_name);
  cmd = cmd;
  needs = [];
  wrap = none;
  mode = none;
  group = none;
  order = none;
}

unfoldable pub src_build : Text → Context → Text → Text → Bool → Job
src_build out_name context entry test_rel sanitize = build_job out_name (
    compiler
    ++ (context.dep_flags
        ++ (sanitize_flags sanitize
            ++ (codes "--entry"
                ∷ entry
                ∷ (context.srcs ++ (test_rel ∷ codes "-o" ∷ in_work out_name ∷ []))))))

unfoldable pub pkg_build : Text → List Text → Text → Text → Text → Bool → Job
pkg_build out_name dep_flags pkg_root entry test_rel sanitize = build_job out_name (
    compiler
    ++ (codes "--package-root"
        ∷ pkg_root
        ∷ (dep_flags
            ++ (sanitize_flags sanitize
                ++ (codes "--entry" ∷ entry ∷ test_rel ∷ codes "-o" ∷ in_work out_name ∷ [])))))

-- `f"{qual}#{suffix}"`
abbrev pub tagged : Text → Text → Text
tagged qual suffix = qual ++ (b'#' ∷ suffix)

-- A run of a built binary, in parallel with others.
abbrev pub run_job : Text → Text → Option Text → Job
run_job id binary wrap = record {
  id = id;
  out = none;
  cmd = in_work binary ∷ [];
  needs = binary ∷ [];
  wrap = wrap;
  mode = none;
  group = none;
  order = none;
}

abbrev pub db_group : Text
db_group = codes "mariadb-mdb114-a"

-- `job.update({"mode": "serial", "group": DB_GROUP, "order": order})`
abbrev pub serialize : Job → ℕ → Job
serialize job n = record job { mode = some (codes "serial"); group = some db_group; order = some n }
