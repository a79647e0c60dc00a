-- ===== src/Perf/Baseline/Accepts.antt =====
-- The gate passes exactly the results that are at most 5% above the baseline.
use drift_mariadb_client.Base.{ℕ, ◌*◌, ◌≤◌, ◌≡◌, ◌↔◌, refl, ◌∙◌, arith}
use drift_mariadb_client.Base.{false, some, List, [], ◌∷◌, Text, returned}
use drift_mariadb_client.Base.{text_eq, inl, inr, Option-cases, >>=-eq-returned}
use drift_mariadb_client.Base.Dict.{Dict, lookup}
use drift_mariadb_client.Perf.Baseline.{
  Metric, metric_name, metric_value, gated_metrics, Result, Scenarios, Baselines, load_baseline,
  Message, Report, check_metric, check_metrics, check_result, check_results, empty_report,
  exit_status, check_baseline,
}

-- At most 5% above the baseline, in whole numbers; above 0 only nothing is.
abbrev pub Within : ℕ → ℕ → Type 0
Within actual base_val = 20 * actual ≤ 21 * base_val

abbrev pub MeetsAll : Result → Dict Text ℕ → List Metric → Type 0
MeetsAll r expected [] = Unit {0}
MeetsAll r expected (m ∷ ms) =
    ((base_val : ℕ) × (lookup (metric_name m) expected ≡ some base_val)
      × Within (metric_value r m) base_val)
    × MeetsAll r expected ms

abbrev pub Accepts : Scenarios → List Result → Type 0
Accepts baseline [] = Unit {0}
Accepts baseline (r ∷ rs) =
    ((expected : Dict Text ℕ) × (lookup r.name baseline ≡ some expected)
      × MeetsAll r expected gated_metrics)
    × Accepts baseline rs

-- One metric: it sets `failed` if and only if it is out of bounds, and never clears it.
check_metric-Within :
    (name : Text) (m : Metric) (actual base_val : ℕ) (report : Report)
    → (check_metric name m actual base_val report).failed ≡ false
    → (report.failed ≡ false) × Within actual base_val
unfolding check_metric
check_metric-Within name m actual base_val report h = ground arith

check_metric_of_Within :
    (name : Text) (m : Metric) (actual base_val : ℕ) (report : Report)
    → Within actual base_val
    → (check_metric name m actual base_val report).failed ≡ report.failed
unfolding check_metric
check_metric_of_Within name m actual base_val report h = ground arith

check_metrics-MeetsAll :
    (r : Result) (expected : Dict Text ℕ) (ms : List Metric) (report out : Report)
    → check_metrics r expected ms report ≡ returned out
    → out.failed ≡ false
    → (report.failed ≡ false) × MeetsAll r expected ms
unfolding check_metrics
check_metrics-MeetsAll r expected [] report out h f = (ground arith, tt)
check_metrics-MeetsAll r expected (m ∷ ms) report out h f =
    elim (Option-cases (lookup (metric_name m) expected)) [
      | inl (base_val, e) ↦
          let next = check_metric r.name m (metric_value r m) base_val report in
          let rest = check_metrics-MeetsAll r expected ms next out (rw (e, check_metrics) at h) f in
          let (clear, within) =
            check_metric-Within r.name m (metric_value r m) base_val report rest.0 in
          (clear, ((base_val, e, within), rest.1))
      | inr e ↦ cc (rw (e, check_metrics) at h)
    ]

check_metrics_of_MeetsAll :
    (r : Result) (expected : Dict Text ℕ) (ms : List Metric) (report : Report)
    → MeetsAll r expected ms
    → (out : Report) × (check_metrics r expected ms report ≡ returned out)
      × (out.failed ≡ report.failed)
unfolding check_metrics
check_metrics_of_MeetsAll r expected [] report h = (report, refl, refl)
check_metrics_of_MeetsAll r expected (m ∷ ms) report ((base_val, e, within), hs) =
    let next = check_metric r.name m (metric_value r m) base_val report in
    let (out, done, kept) = check_metrics_of_MeetsAll r expected ms next hs in
    (
      out,
      rw (e, check_metrics) done,
      kept ∙ check_metric_of_Within r.name m (metric_value r m) base_val report within,
    )

module _ (machine_id : Text) (baseline : Scenarios) where
  check_results-Accepts :
      (rs : List Result) (report out : Report)
      → check_results machine_id baseline rs report ≡ returned out
      → out.failed ≡ false
      → (report.failed ≡ false) × Accepts baseline rs
  unfolding check_results check_result
  check_results-Accepts [] report out h f = (ground arith, tt)
  check_results-Accepts (r ∷ rs) report out h f =
      let (mid, first, later) =
        >>=-eq-returned (check_result machine_id baseline r report)
          (check_results machine_id baseline rs) h in
      let (clear, accepted) = check_results-Accepts rs mid out later f in
      elim (Option-cases (lookup r.name baseline)) [
        | inl (expected, e) ↦
            let (clear', meets) =
              check_metrics-MeetsAll r expected gated_metrics report mid
                (rw (e, check_result) at first) clear in
            (clear', ((expected, e, meets), accepted))
        | inr e ↦ absurd (ground (arith, rw (e, check_result) at first))
      ]

  check_results_of_Accepts :
      (rs : List Result) (report : Report)
      → Accepts baseline rs
      → (out : Report) × (check_results machine_id baseline rs report ≡ returned out)
        × (out.failed ≡ report.failed)
  unfolding check_results check_result
  check_results_of_Accepts [] report h = (report, refl, refl)
  check_results_of_Accepts (r ∷ rs) report ((expected, e, meets), hs) =
      let (mid, first, kept) = check_metrics_of_MeetsAll r expected gated_metrics report meets in
      let (out, later, kept') = check_results_of_Accepts rs mid hs in
      (out, rw (e, check_result, first) later, kept' ∙ kept)

-- The perf gate returns 0 exactly when there is a baseline for the machine in which every result
-- has an entry with every gated metric, and no metric of a result is more than 5% above its
-- entry.
pub check_baseline-iff_Accepts :
    (store : Baselines) (machine_id : Text) (results : List Result)
    → ((messages : List Message) × (check_baseline store machine_id results
          ≡ returned (messages, 0)))
      ↔ ((baseline : Scenarios) × (load_baseline store machine_id ≡ some baseline)
          × Accepts baseline results)
unfolding check_baseline
check_baseline-iff_Accepts store machine_id results = (passes, accepts)
  where
    passes :
        (messages : List Message) × (check_baseline store machine_id results
            ≡ returned (messages, 0))
        → (baseline : Scenarios) × (load_baseline store machine_id ≡ some baseline)
          × Accepts baseline results
    passes (messages, h) = elim (Option-cases (load_baseline store machine_id)) [
      | inl (baseline, e) ↦
          let (out, done, status) =
            >>=-eq-returned (check_results machine_id baseline results empty_report)
              (λ report. returned (exit_status report)) (rw (e, check_baseline) at h) in
          let clear : out.failed ≡ false = ground arith in
          (
            baseline,
            e,
            (check_results-Accepts machine_id baseline results empty_report out done clear).1,
          )
      | inr e ↦ absurd (ground (arith, rw (e, check_baseline) at h))
    ]

    accepts :
        (baseline : Scenarios) × (load_baseline store machine_id ≡ some baseline)
          × Accepts baseline results
        → (messages : List Message) × (check_baseline store machine_id results
            ≡ returned (messages, 0))
    accepts (baseline, e, h) =
        let (out, done, clear) =
          check_results_of_Accepts machine_id baseline results empty_report h in
        (out.messages, rw (e, check_baseline, done, clear))
