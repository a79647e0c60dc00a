-- ===== src/Perf/Main/Rerun.antt =====
-- A recording run, and a gate run after it.
use drift_mariadb_client.Base.{
  ◌≡◌, ◌↔◌, refl, ap, ◌∙◌, true, false, some, List, Text, text_eq, codes, returned, contains,
}
use drift_mariadb_client.Base.{Outcome-cases, inl, inr}
use drift_mariadb_client.Perf.Baseline.{Result, Message, record_baseline, check_baseline}
use drift_mariadb_client.Perf.Baseline.Recorded.{
  DistinctNames, SameScenarios, AllNoWorse, check_baseline-record_baseline,
}
use drift_mariadb_client.Perf.Main.{PerfWorld, PerfStore, run_phases, conclude, main, write_results}

-- The store after a recording run.
abbrev pub recorded_store : PerfWorld → Text → List Result → PerfStore → PerfStore
recorded_store w machine_id results store = record (write_results w results store) {
  baselines = record_baseline store.baselines machine_id w.now results;
}

conclude-gate :
    (w : PerfWorld) (machine_id : Text) (results : List Result) (store : PerfStore)
    → ((after : PerfStore) × (conclude false w (machine_id, results) store ≡ returned (0, after)))
      ↔ ((messages : List Message) × (check_baseline store.baselines machine_id results
            ≡ returned (messages, 0)))
unfolding conclude
conclude-gate w machine_id results store = (
  λ (after, h). elim (Outcome-cases (check_baseline store.baselines machine_id results)) [
    | inl ((messages, n), e) ↦
        let status : n ≡ 0 = cc (rw (conclude, e) at h) in
        (messages, e ∙ ap (λ m. returned (messages, m)) status)
    | inr (key, e) ↦ cc (rw (conclude, e) at h)
  ],
  λ (messages, h). (write_results w results store, rw (conclude, h) refl),
)

conclude-recording :
    (w : PerfWorld) (machine_id : Text) (results : List Result) (store : PerfStore)
    → conclude true w (machine_id, results) store
      ≡ returned (0, recorded_store w machine_id results store)
unfolding conclude
conclude-recording w machine_id results store = refl

-- If a recording run of perf_baseline.py and a later gating run on the same machine have
-- measured results of the same scenarios, with distinct names, then the recording run exits with
-- 0 and leaves files with which the gating run exits with 0 exactly when no gated metric is more
-- than 5% above the recorded one.
pub main-after_recording :
    (recording gating : List Text) (w w' : PerfWorld) (store : PerfStore) (machine_id : Text)
    (recorded measured : List Result)
    → contains recording (codes "--record-baseline") ≡ true
    → contains gating (codes "--record-baseline") ≡ false
    → run_phases recording w ≡ returned (some (machine_id, recorded))
    → run_phases gating w' ≡ returned (some (machine_id, measured))
    → DistinctNames recorded
    → SameScenarios recorded measured
    → (between : PerfStore) × (main recording w store ≡ returned (0, between))
      × (((after : PerfStore) × (main gating w' between ≡ returned (0, after)))
          ↔ AllNoWorse recorded measured)
unfolding main
main-after_recording recording gating w w' store machine_id recorded measured records gates first
      second distinct same =
    let between = recorded_store w machine_id recorded store in
    let gate = conclude-gate w' machine_id measured between in
    let answer =
      check_baseline-record_baseline store.baselines machine_id w.now recorded measured distinct
        same in
    (
      between,
      rw (main, first, records) (conclude-recording w machine_id recorded store),
      rw (main, second, gates)
          ((λ passes. answer.0 (gate.0 passes)), λ none_worse. gate.1 (answer.1 none_worse)),
    )
