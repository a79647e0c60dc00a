-- ===== src/Perf/Run.antt =====
-- `main` of tools/perf_baseline.py and what it calls to compile. The answers of the system are a record.
use drift_mariadb_client.Base.{ℕ, Bool, true, Option, none, some, List, [], ◌∷◌, ◌++◌}
use drift_mariadb_client.Base.{
  Text, codes, Outcome, returned, raised, ◌>>=◌, ◌==◌, text_eq, if◌then◌else◌,
}
use drift_mariadb_client.Base.Dict.{Dict, lookup, insert}
use drift_mariadb_client.Base.Order.{sort_by, text_le}
use drift_mariadb_client.Base.Strings.{strip, strip_prefix, rstrip_char, ends_with}
use drift_mariadb_client.Gate.Process.{Code, is_success}
use drift_mariadb_client.Perf.Measure.{MeasureError}

pub data PerfError : Type 0 where
  exclusive_flags no_driftc_variable no_machine_id version_failed unexpected_format : PerfError
  requires_value requires_bin_dir driftc_not_found not_deployed no_module missing_key :
      Text → PerfError
  no_prebuilt_binary : Text → PerfError
  compile_failed : List Text → PerfError
  measuring_failed : MeasureError → PerfError

abbrev pub Perf {ℓ} : Type ℓ → Type ℓ
Perf = Outcome PerfError

-- `_arg_value`
unfoldable pub arg_value : Text → List Text → Perf (Option Text)
unfolding text_eq
arg_value flag [] = returned none
arg_value flag (a ∷ args) =
    let rest = arg_value flag args in
    if a == flag
    then elim args [ [] ↦ raised (requires_value flag) | v ∷ more ↦ returned (some v) ]
    else rest

-- `os.path.join(root, name)` for a relative name.
abbrev pub join : Text → Text → Text
join root name = if ends_with root (codes "/") then root ++ name else root ++ (codes "/" ++ name)

-- A variable that is empty counts as not set.
abbrev pub variable : Option Text → Option Text
variable none = none
variable (some []) = none
variable (some (c ∷ s)) = some (c ∷ s)

-- `executable` says whether a file is there and can be run.
unfoldable pub resolve_driftc : Option Text → Option Text → (Text → Bool) → Perf Text
unfolding strip_prefix text_eq
resolve_driftc root driftc executable = elim (variable root) [
  | some r ↦
      let path = join r (codes "bin/driftc") in
      if executable path then returned path else raised (driftc_not_found path)
  | none ↦ elim (variable driftc) [ none ↦ raised no_driftc_variable | some value ↦ returned value ]
]

unfoldable pub resolve_flocker : Option Text → (Text → Bool) → Option Text
unfolding strip_prefix text_eq
resolve_flocker root executable = elim (variable root) [
  | some r ↦ let path = join r (codes "bin/flocker") in if executable path then some path else none
  | none ↦ none
]

-- `deployed name ver`: the package file is there.
unfoldable pub verify_deploy : (Text → Text → Bool) → Dict Text Text → Perf Bool
verify_deploy deployed [] = returned true
verify_deploy deployed ((name, ver) ∷ versions) =
    let rest = verify_deploy deployed versions in
    if deployed name ver then rest else raised (not_deployed name)

-- `_module_of`, on the lines of the file.
unfoldable pub module_of : Text → List Text → Perf Text
unfolding strip_prefix strip rstrip_char
module_of path [] = raised (no_module path)
module_of path (line ∷ lines) =
    let rest = module_of path lines in
    elim (strip_prefix (codes "module ") line) [
      | none ↦ rest
      | some name ↦ returned (rstrip_char b';' (strip name))
    ]

pub record Scenario : Type 0 where
  pub name : Text
  pub file : Text
  pub iterations : ℕ

abbrev scenario : Text → Scenario
scenario name = record {
  name = name;
  file = codes "perf/scenarios/" ++ (name ++ codes "_perf.drift");
  iterations = 25;
}

abbrev pub scenarios : List Scenario
scenarios =
    scenario (codes "rpc_single_result")
    ∷ scenario (codes "rpc_multi_result")
    ∷ scenario (codes "rpc_error")
    ∷ []

-- `versions[name]`
abbrev pub version_of : Dict Text Text → Text → Perf Text
version_of versions name = elim (lookup name versions) [
  | none ↦ raised (missing_key name)
  | some v ↦ returned v
]

-- What a compilation meets: the lines of the sources, flocker with its number of jobs, and the exit
-- codes of the compilations, by the name of the scenario.
pub record CompileWorld : Type 0 where
  pub package_root : Text
  pub source : Text → List Text
  pub flocker : Option Text
  pub compile_jobs : Text
  pub compiled : Text → Code

unfoldable pub compile_cmd :
    CompileWorld → Text → Dict Text Text → Scenario → Text → Perf (List Text × Text)
unfolding module_of text_eq
compile_cmd w driftc versions s out_dir = do
  name ← module_of s.file (w.source s.file)
  rpc ← version_of versions (codes "mariadb-rpc")
  wire ← version_of versions (codes "mariadb-wire-proto")
  let bin_path = join out_dir s.name
  let cmd =
      driftc
      ∷ codes "--target-word-bits"
      ∷ codes "64"
      ∷ codes "--package-root"
      ∷ w.package_root
      ∷ codes "--dep"
      ∷ (codes "mariadb-rpc@" ++ rpc)
      ∷ codes "--dep"
      ∷ (codes "mariadb-wire-proto@" ++ wire)
      ∷ codes "--entry"
      ∷ (name ++ codes "::main")
      ∷ s.file
      ∷ codes "-o"
      ∷ bin_path
      ∷ []
  returned (
    elim w.flocker [
      | none ↦ cmd
      | some flocker ↦
          flocker
          ∷ codes "--key"
          ∷ codes "drift-jobs"
          ∷ codes "-j"
          ∷ w.compile_jobs
          ∷ codes "--"
          ∷ cmd
    ],
    bin_path,
  )

-- The first loop of `_compile_all` starts every compilation.
unfoldable pub start_all :
    CompileWorld → Text → Dict Text Text → Text → List Scenario → Perf (List (Text × Text))
unfolding compile_cmd
start_all w driftc versions out_dir [] = returned []
start_all w driftc versions out_dir (s ∷ rest) = do
  (cmd, bin_path) ← compile_cmd w driftc versions s out_dir
  procs ← start_all w driftc versions out_dir rest
  returned ((s.name, bin_path) ∷ procs)

-- The second loop waits for all of them.
unfoldable pub wait_all :
    CompileWorld → List (Text × Text) → Dict Text Text × List Text → Dict Text Text × List Text
unfolding insert text_eq
wait_all w [] s = s
wait_all w ((name, bin_path) ∷ procs) (binaries, failures) =
    if is_success (w.compiled name)
    then wait_all w procs (insert name bin_path binaries, failures)
    else wait_all w procs (binaries, failures ++ (name ∷ []))

unfoldable pub compile_all : CompileWorld → Text → Dict Text Text → Text → Perf (Dict Text Text)
unfolding start_all wait_all sort_by
compile_all w driftc versions out_dir = do
  procs ← start_all w driftc versions out_dir scenarios
  let (binaries, failures) = wait_all w procs ([], [])
  elim failures as (λ _. Perf (Dict Text Text)) [
    | [] ↦ returned binaries
    | f ∷ fs ↦ raised (compile_failed (sort_by text_le (f ∷ fs)))
  ]
