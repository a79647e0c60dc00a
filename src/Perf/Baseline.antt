-- ===== src/Perf/Baseline.antt =====
-- `_load_baseline`, `_record_baseline` and `_check_baseline` of tools/perf_baseline.py.
-- `pct > REGRESSION_THRESHOLD` is a comparison of whole numbers here: the quotient is rounded
-- correctly, so for counts below 2 ^ 52 the comparison of floats is that of (actual - base) / base with 1 / 20.
pub mod Accepts
pub mod Recorded
use drift_mariadb_client.Base.{ℕ, zero, suc, ◌+◌, ◌*◌, Bool, true, false, ◌||◌, Option, none, some}
use drift_mariadb_client.Base.{List, [], ◌∷◌, ◌++◌, Text, codes, Outcome, returned, raised, ◌>>=◌}
use drift_mariadb_client.Base.{ltb, ◌==◌, nat_eq, text_eq, if◌then◌else◌}
use drift_mariadb_client.Base.Int.{ℤ}
use drift_mariadb_client.Base.Dict.{Dict, lookup, insert}

pub data Metric : Type 0 where
  bytes_written bytes_read packets_written packets_read : Metric

abbrev pub metric_name : Metric → Text
metric_name bytes_written = codes "bytes_written"
metric_name bytes_read = codes "bytes_read"
metric_name packets_written = codes "packets_written"
metric_name packets_read = codes "packets_read"

abbrev pub gated_metrics : List Metric
gated_metrics = bytes_written ∷ bytes_read ∷ packets_written ∷ packets_read ∷ []

-- What `_run_scenario` returns.
pub record Result : Type 0 where
  pub name : Text
  pub iterations : ℕ
  pub elapsed_ms : ℕ
  pub written_bytes : ℕ
  pub read_bytes : ℕ
  pub written_packets : ℕ
  pub read_packets : ℕ
  pub capture_duration_ms : ℤ
  pub capture_run_dir : Text

-- `int(result[metric])`
abbrev pub metric_value : Result → Metric → ℕ
metric_value r bytes_written = r.written_bytes
metric_value r bytes_read = r.read_bytes
metric_value r packets_written = r.written_packets
metric_value r packets_read = r.read_packets

abbrev pub Scenarios : Type 0
Scenarios = Dict Text (Dict Text ℕ)

-- A baseline file; `none` if it has no key "scenarios".
pub record BaselineFile : Type 0 where
  pub machine_id : Text
  pub recorded_at : Text
  pub scenarios : Option Scenarios

-- The files of perf/baselines, by path.
abbrev pub Baselines : Type 0
Baselines = Dict Text BaselineFile

-- `BASELINE_ROOT / f"{machine_id}.json"`, from the repository's root.
unfoldable pub baseline_path : Text → Text
baseline_path machine_id = codes "perf/baselines/" ++ (machine_id ++ codes ".json")

unfoldable pub load_baseline : Baselines → Text → Option Scenarios
unfolding baseline_path
load_baseline store machine_id = elim (lookup (baseline_path machine_id) store) [
  | none ↦ none
  | some file ↦ elim file.scenarios [ none ↦ some [] | some s ↦ some s ]
]

-- `{m: int(r[m]) for m in GATED_METRICS}`
abbrev pub metrics_from : Result → List Metric → Dict Text ℕ
metrics_from r [] = []
metrics_from r (m ∷ ms) = (metric_name m, metric_value r m) ∷ metrics_from r ms

unfoldable pub scenarios_from : Scenarios → List Result → Scenarios
scenarios_from scenarios [] = scenarios
scenarios_from scenarios (r ∷ rs) =
    scenarios_from (insert r.name (metrics_from r gated_metrics) scenarios) rs

unfoldable pub record_baseline : Baselines → Text → Text → List Result → Baselines
unfolding scenarios_from baseline_path
record_baseline store machine_id now results =
    insert (baseline_path machine_id)
      (record {
        machine_id = machine_id;
        recorded_at = now;
        scenarios = some (scenarios_from [] results);
      })
      store

-- The lines that `_check_baseline` prints, with the values in them.
pub data Message : Type 0 where
  no_baseline : Text → Message
  not_in_baseline : Text → Text → Message
  expected_zero : Text → Metric → ℕ → Message
  regressed improved : Text → Metric → (actual base_val : ℕ) → Message

-- What is printed so far, and `failed`.
pub record Report : Type 0 where
  pub messages : List Message
  pub failed : Bool

abbrev pub fail : Report → Message → Report
fail report m = record { messages = report.messages ++ (m ∷ []); failed = true }

abbrev pub note : Report → Message → Report
note report m = record report { messages = report.messages ++ (m ∷ []) }

-- The body of the loop over the metrics.
unfoldable pub check_metric : Text → Metric → ℕ → ℕ → Report → Report
unfolding nat_eq
check_metric name metric actual base_val report =
    if base_val == 0
    then (if actual == 0 then report else fail report (expected_zero name metric actual))
    else if ltb (21 * base_val) (20 * actual)
    then fail report (regressed name metric actual base_val)
    else if ltb (20 * actual) (19 * base_val)
    then note report (improved name metric actual base_val)
    else report

-- A `KeyError`, with the key.
abbrev pub Checked {ℓ} : Type ℓ → Type ℓ
Checked = Outcome Text

unfoldable pub check_metrics : Result → Dict Text ℕ → List Metric → Report → Checked Report
check_metrics r expected [] report = returned report
check_metrics r expected (m ∷ ms) report = elim (lookup (metric_name m) expected) [
  | none ↦ raised (metric_name m)
  | some base_val ↦
      check_metrics r expected ms (check_metric r.name m (metric_value r m) base_val report)
]

unfoldable pub check_result : Text → Scenarios → Result → Report → Checked Report
check_result machine_id baseline r report = elim (lookup r.name baseline) [
  | none ↦ returned (fail report (not_in_baseline r.name machine_id))
  | some expected ↦ check_metrics r expected gated_metrics report
]

unfoldable pub check_results : Text → Scenarios → List Result → Report → Checked Report
check_results machine_id baseline [] report = returned report
check_results machine_id baseline (r ∷ rs) report =
    check_result machine_id baseline r report >>= check_results machine_id baseline rs

abbrev pub empty_report : Report
empty_report = record { messages = []; failed = false }

abbrev pub exit_status : Report → List Message × ℕ
exit_status report = (report.messages, if report.failed then 1 else 0)

-- What is printed, and the exit status.
unfoldable pub check_baseline : Baselines → Text → List Result → Checked (List Message × ℕ)
check_baseline store machine_id results = elim (load_baseline store machine_id) [
  | none ↦ returned (no_baseline machine_id ∷ [], 1)
  | some baseline ↦ check_results machine_id baseline results empty_report >>= λ report.
      returned (exit_status report)
]
