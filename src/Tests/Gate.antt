-- ===== src/Tests/Gate.antt =====
-- The gate of tools/perf_baseline.py on the results of two scenarios.
use drift_mariadb_client.Base.{
  ℕ, ◌≡◌, ◌↔◌, refl, some, List, [], ◌∷◌, Text, codes, returned, text_eq,
}
use drift_mariadb_client.Base.Int.{pos}
use drift_mariadb_client.Base.Dict.{insert, lookup}
use drift_mariadb_client.Perf.Baseline.{
  bytes_written, bytes_read, Result, Scenarios, Baselines, load_baseline, record_baseline, Message,
  regressed, improved, no_baseline, check_baseline, check_results, check_result, check_metrics,
  check_metric,
}
use drift_mariadb_client.Perf.Baseline.Accepts.{Accepts, check_baseline-iff_Accepts}
use drift_mariadb_client.Perf.Baseline.Recorded.{
  AllNoWorse, check_baseline-record_baseline, record_each, check_baseline-record_each,
}

abbrev result : Text → ℕ → ℕ → Result
result name written read = record {
  name = name;
  iterations = 50;
  elapsed_ms = 12;
  written_bytes = written;
  read_bytes = read;
  written_packets = 10;
  read_packets = 0;
  capture_duration_ms = pos 11;
  capture_run_dir = [];
}

abbrev single : Text
single = codes "rpc_single_result"

abbrev multi : Text
multi = codes "rpc_multi_result"

abbrev recorded : List Result
recorded = result single 100 200 ∷ result multi 40 60 ∷ []

abbrev within : List Result
within = result single 105 150 ∷ result multi 40 60 ∷ []

abbrev above : List Result
above = result single 106 200 ∷ result multi 40 60 ∷ []

abbrev here : Text
here = codes "m"

abbrev there : Text
there = codes "m2"

abbrev store : Baselines
store = record_baseline [] here (codes "now") recorded

-- 5% above is let through, and what is below is reported.
within_passes :
    check_baseline store here within ≡ returned (improved single bytes_read 150 200 ∷ [], 0)
unfolding check_baseline text_eq load_baseline lookup record_baseline insert check_results
    check_result check_metrics check_metric
within_passes = refl

above_fails :
    check_baseline store here above ≡ returned (regressed single bytes_written 106 100 ∷ [], 1)
unfolding check_baseline text_eq load_baseline lookup record_baseline insert check_results
    check_result check_metrics check_metric
above_fails = refl

other_machine : check_baseline store there within ≡ returned (no_baseline there ∷ [], 1)
unfolding check_baseline text_eq load_baseline lookup record_baseline insert check_results
    check_result check_metrics check_metric
other_machine = refl

check_baseline-iff_Accepts_example :
    ((messages : List Message) × (check_baseline store here within ≡ returned (messages, 0))) ↔ (
      (baseline : Scenarios) × (load_baseline store here ≡ some baseline) × Accepts baseline within)
check_baseline-iff_Accepts_example = check_baseline-iff_Accepts store here within

differ : single ≡ multi → ⊥
differ e = cc

check_baseline-record_baseline_example :
    ((messages : List Message) × (check_baseline store here within ≡ returned (messages, 0)))
    ↔ AllNoWorse recorded within
check_baseline-record_baseline_example =
    check_baseline-record_baseline [] here (codes "now") recorded within ((differ, tt), (tt, tt))
      (refl, (refl, tt))

check_baseline-record_each_example :
    ((messages : List Message) × (check_baseline
          (record_each store ((there, codes "later", within) ∷ []))
          here
          within
        ≡ returned (messages, 0)))
    ↔ AllNoWorse recorded within
check_baseline-record_each_example =
    check_baseline-record_each [] here (codes "now") recorded within
      ((there, codes "later", within) ∷ []) ((differ, tt), (tt, tt)) (refl, (refl, tt))
      ((λ e. cc), tt)
