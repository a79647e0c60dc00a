-- ===== src/Perf/Main.antt =====
-- `main` of tools/perf_baseline.py.
pub mod Rerun
use drift_mariadb_client.Base.{
  ℕ, Bool, true, false, ◌&&◌, Option, none, some, List, [], ◌∷◌, Text, codes, Outcome, returned,
  raised, ◌>>=◌,
}
use drift_mariadb_client.Base.{◌==◌, text_eq, contains, if◌then◌else◌, map_outcome}
use drift_mariadb_client.Base.Dict.{Dict, lookup, insert}
use drift_mariadb_client.Base.Strings.{strip}
use drift_mariadb_client.Perf.Baseline.{Result, Baselines, Message, record_baseline, check_baseline}
use drift_mariadb_client.Perf.Measure.{Measure, MeasureError}
use drift_mariadb_client.Perf.Run.{
  PerfError, exclusive_flags, no_machine_id, version_failed, unexpected_format, requires_bin_dir,
  missing_key, no_prebuilt_binary, measuring_failed, Perf, arg_value, join, resolve_driftc,
  verify_deploy, Scenario, scenarios, CompileWorld, compile_all,
}

-- What `driftc --version --json` comes to.
pub data VersionInfo : Type 0 where
  failed : VersionInfo
  format : Option Text → VersionInfo

-- What `main` meets; `measured` is `_run_scenario` for a scenario and its binary.
pub record PerfWorld : Type 0 where
  pub toolchain_root : Option Text
  pub driftc : Option Text
  pub executable : Text → Bool
  pub versions : Dict Text Text
  pub deployed : Text → Text → Bool
  pub compile : CompileWorld
  pub machine_id : Option Text
  pub version : VersionInfo
  pub prebuilt : Text → Bool
  pub tmp_dir : Text
  pub measured : Scenario → Text → Measure Result
  pub stamp : Text
  pub now : Text

-- perf/baselines, and perf/results by stamp, with "latest".
pub record PerfStore : Type 0 where
  pub baselines : Baselines
  pub results : Dict Text (List Result)

unfoldable pub get_machine_id : Option Text → Perf Text
unfolding strip
get_machine_id none = raised no_machine_id
get_machine_id (some s) = returned (strip s)

unfoldable pub check_version : VersionInfo → Perf Bool
unfolding text_eq
check_version failed = raised version_failed
check_version (format none) = raised unexpected_format
check_version (format (some f)) =
    if f == codes "drift-toolchain-info/v1" then returned true else raised unexpected_format

abbrev pub bin_dir_of : Text → Option Text → Perf Text
bin_dir_of flag none = raised (requires_bin_dir flag)
bin_dir_of flag (some dir) = returned dir

-- The loop that looks for the prebuilt binaries.
unfoldable pub prebuilt_binaries :
    (Text → Bool) → Text → List Scenario → Dict Text Text → Perf (Dict Text Text)
unfolding insert text_eq
prebuilt_binaries exists bin_dir [] binaries = returned binaries
prebuilt_binaries exists bin_dir (s ∷ rest) binaries =
    let bp = join bin_dir s.name in
    let found = prebuilt_binaries exists bin_dir rest (insert s.name bp binaries) in
    if exists bp then found else raised (no_prebuilt_binary bp)

-- `[_run_scenario(binaries[scenario.name], scenario) for scenario in SCENARIOS]`
unfoldable pub run_scenarios :
    (Scenario → Text → Measure Result) → Dict Text Text → List Scenario → Perf (List Result)
run_scenarios measured binaries [] = returned []
run_scenarios measured binaries (s ∷ rest) = do
  bin_path ← elim (lookup s.name binaries) as (λ _. Perf Text) [
    | none ↦ raised (missing_key s.name)
    | some bp ↦ returned bp
  ]
  r ← map_outcome measuring_failed (λ (x : Result). x) (measured s bin_path)
  rs ← run_scenarios measured binaries rest
  returned (r ∷ rs)

-- The two branches that bind `results`.
unfoldable pub measure_all : Bool → Option Text → Text → PerfWorld → Perf (List Result)
unfolding prebuilt_binaries run_scenarios verify_deploy compile_all
measure_all true bin_dir_arg driftc w = do
  bin_dir ← bin_dir_of (codes "--measure-only") bin_dir_arg
  binaries ← prebuilt_binaries w.prebuilt bin_dir scenarios []
  run_scenarios w.measured binaries scenarios
measure_all false bin_dir_arg driftc w = do
  deployed ← verify_deploy w.deployed w.versions
  binaries ← compile_all w.compile driftc w.versions w.tmp_dir
  run_scenarios w.measured binaries scenarios

-- `--compile-only`
unfoldable pub compile_phase : Option Text → Text → PerfWorld → Perf (Option (Text × List Result))
unfolding verify_deploy compile_all
compile_phase bin_dir_arg driftc w = do
  bin_dir ← bin_dir_of (codes "--compile-only") bin_dir_arg
  deployed ← verify_deploy w.deployed w.versions
  binaries ← compile_all w.compile driftc w.versions bin_dir
  returned none

-- The machine and the results.
unfoldable pub measure_phase :
    Bool → Option Text → Text → PerfWorld → Perf (Option (Text × List Result))
unfolding get_machine_id check_version measure_all
measure_phase measure_only bin_dir_arg driftc w = do
  machine_id ← get_machine_id w.machine_id
  checked ← check_version w.version
  results ← measure_all measure_only bin_dir_arg driftc w
  returned (some (machine_id, results))

unfoldable pub run_phase : Bool → Bool → List Text → PerfWorld → Perf (Option (Text × List Result))
unfolding arg_value resolve_driftc compile_phase measure_phase
run_phase compile_only measure_only argv w = do
  bin_dir_arg ← arg_value (codes "--bin-dir") argv
  driftc ← resolve_driftc w.toolchain_root w.driftc w.executable
  if compile_only
      then compile_phase bin_dir_arg driftc w
      else measure_phase measure_only bin_dir_arg driftc w

-- `main` up to the results: `none` after `--compile-only`.
unfoldable pub run_phases : List Text → PerfWorld → Perf (Option (Text × List Result))
unfolding run_phase text_eq
run_phases argv w =
    let compile_only = contains argv (codes "--compile-only") in
    let measure_only = contains argv (codes "--measure-only") in
    if compile_only && measure_only
    then raised exclusive_flags
    else run_phase compile_only measure_only argv w

-- The results are written before the baseline is recorded or checked.
abbrev pub write_results : PerfWorld → List Result → PerfStore → PerfStore
write_results w results store = record store {
  results = insert (codes "latest") results (insert w.stamp results store.results);
}

-- A `KeyError` in `_check_baseline`.
unfoldable pub conclude : Bool → PerfWorld → Text × List Result → PerfStore → Perf (ℕ × PerfStore)
unfolding record_baseline check_baseline
conclude true w (machine_id, results) store = returned (
  0,
  record (write_results w results store) {
    baselines = record_baseline store.baselines machine_id w.now results;
  },
)
conclude false w (machine_id, results) store =
    map_outcome missing_key (λ (out : List Message × ℕ). (out.1, write_results w results store))
      (check_baseline store.baselines machine_id results)

-- The exit status and the files.
unfoldable pub main : List Text → PerfWorld → PerfStore → Perf (ℕ × PerfStore)
unfolding run_phases conclude text_eq
main argv w store = do
  found ← run_phases argv w
  elim found as (λ _. Perf (ℕ × PerfStore)) [
    | none ↦ returned (0, store)
    | some measured ↦ conclude (contains argv (codes "--record-baseline")) w measured store
  ]
