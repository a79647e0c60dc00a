-- ===== src/Perf/Baseline/Recorded.antt =====
-- A check against a baseline that was recorded from other results of the same scenarios.
use drift_mariadb_client.Base.{ℕ, ◌≡◌, ◌≢◌, ◌↔◌, refl, sym, ap, ◌∙◌, ◌++◌, arith}
use drift_mariadb_client.Base.{
  some, List, [], ◌∷◌, Text, text_eq, returned, codes, All, length, take, drop, length-append,
  take-length-append,
}
use drift_mariadb_client.Base.Dict.{lookup, insert, lookup-insert, lookup-insert_self}
use drift_mariadb_client.Perf.Baseline.{
  gated_metrics, Result, Scenarios, BaselineFile, Baselines, baseline_path, load_baseline,
  metrics_from, scenarios_from, record_baseline, Message, check_baseline,
}
use drift_mariadb_client.Perf.Baseline.Accepts.{
  Within, MeetsAll, Accepts, check_baseline-iff_Accepts,
}

-- No result has this name.
abbrev pub Absent : Text → List Result → Type 0
Absent name [] = Unit {0}
Absent name (r ∷ rs) = (name ≢ r.name) × Absent name rs

abbrev pub DistinctNames : List Result → Type 0
DistinctNames [] = Unit {0}
DistinctNames (r ∷ rs) = Absent r.name rs × DistinctNames rs

-- Each gated metric of `s` is at most 5% above that of `r`.
abbrev pub NoWorse : Result → Result → Type 0
NoWorse r s =
    Within s.written_bytes r.written_bytes
    × Within s.read_bytes r.read_bytes
    × Within s.written_packets r.written_packets
    × Within s.read_packets r.read_packets

abbrev pub SameScenarios : List Result → List Result → Type 0
SameScenarios [] [] = Unit {0}
SameScenarios (r ∷ rs) (s ∷ ss) = (s.name ≡ r.name) × SameScenarios rs ss
SameScenarios _ _ = ⊥

abbrev pub AllNoWorse : List Result → List Result → Type 0
AllNoWorse (r ∷ rs) (s ∷ ss) = NoWorse r s × AllNoWorse rs ss
AllNoWorse _ _ = Unit {0}

-- The dictionary holds the metrics of every result.
abbrev Records : Scenarios → List Result → Type 0
Records baseline [] = Unit {0}
Records baseline (r ∷ rs) =
    (lookup r.name baseline ≡ some (metrics_from r gated_metrics)) × Records baseline rs

lookup-scenarios_from-Absent :
    (name : Text) (rs : List Result) (d : Scenarios)
    → Absent name rs
    → lookup name (scenarios_from d rs) ≡ lookup name d
unfolding scenarios_from
lookup-scenarios_from-Absent name [] d h = refl
lookup-scenarios_from-Absent name (r ∷ rs) d (other, h) =
    lookup-scenarios_from-Absent name rs (insert r.name (metrics_from r gated_metrics) d) h
    ∙ ground (arith, lookup-insert name r.name (metrics_from r gated_metrics) d)

scenarios_from-Records :
    (rs : List Result) (d : Scenarios) → DistinctNames rs → Records (scenarios_from d rs) rs
unfolding scenarios_from
scenarios_from-Records [] d h = tt
scenarios_from-Records (r ∷ rs) d (fresh, h) = (
  lookup-scenarios_from-Absent r.name rs (insert r.name (metrics_from r gated_metrics) d) fresh
      ∙ lookup-insert_self r.name (metrics_from r gated_metrics) d,
  scenarios_from-Records rs (insert r.name (metrics_from r gated_metrics) d) h,
)

same_base : (actual v b : ℕ) → some v ≡ some b → Within actual b → Within actual v
same_base actual v b e h = ground arith

MeetsAll-NoWorse :
    (r s : Result) → MeetsAll s (metrics_from r gated_metrics) gated_metrics → NoWorse r s
unfolding lookup text_eq
MeetsAll-NoWorse r s ((a, ea, ha), ((b, eb, hb), ((c, ec, hc), ((d, ed, hd), _)))) =
    (same_base _ _ a ea ha, same_base _ _ b eb hb, same_base _ _ c ec hc, same_base _ _ d ed hd)

NoWorse-MeetsAll :
    (r s : Result) → NoWorse r s → MeetsAll s (metrics_from r gated_metrics) gated_metrics
unfolding lookup text_eq
NoWorse-MeetsAll r s (a, b, c, d) = (
  (r.written_bytes, refl, a),
  ((r.read_bytes, refl, b), ((r.written_packets, refl, c), ((r.read_packets, refl, d), tt))),
)

Accepts-AllNoWorse :
    (baseline : Scenarios) (rs ss : List Result)
    → Records baseline rs
    → SameScenarios rs ss
    → Accepts baseline ss
    → AllNoWorse rs ss
Accepts-AllNoWorse baseline [] [] held same h = tt
Accepts-AllNoWorse baseline [] (s ∷ ss) held same h = tt
Accepts-AllNoWorse baseline (r ∷ rs) [] held same h = tt
Accepts-AllNoWorse baseline (r ∷ rs) (s ∷ ss) (here, held) (e, same) ((expected, found, meets), h) =
    let recorded : metrics_from r gated_metrics ≡ expected = cc (ap (λ n. lookup n baseline) e) in
    (MeetsAll-NoWorse r s (rw recorded meets), Accepts-AllNoWorse baseline rs ss held same h)

AllNoWorse-Accepts :
    (baseline : Scenarios) (rs ss : List Result)
    → Records baseline rs
    → SameScenarios rs ss
    → AllNoWorse rs ss
    → Accepts baseline ss
AllNoWorse-Accepts baseline [] [] held same h = tt
AllNoWorse-Accepts baseline [] (s ∷ ss) held same h = absurd same
AllNoWorse-Accepts baseline (r ∷ rs) [] held same h = tt
AllNoWorse-Accepts baseline (r ∷ rs) (s ∷ ss) (here, held) (e, same) (none_worse, h) = (
  (
    metrics_from r gated_metrics,
    ap (λ n. lookup n baseline) e ∙ here,
    NoWorse-MeetsAll r s none_worse,
  ),
  AllNoWorse-Accepts baseline rs ss held same h,
)

load_baseline-record_baseline :
    (store : Baselines) (machine_id now : Text) (rs : List Result)
    → load_baseline (record_baseline store machine_id now rs) machine_id
      ≡ some (scenarios_from [] rs)
unfolding load_baseline record_baseline
load_baseline-record_baseline store machine_id now rs = rw (
  lookup-insert_self (baseline_path machine_id)
      (record {
        machine_id = machine_id;
        recorded_at = now;
        scenarios = some (scenarios_from [] rs);
      })
      store,
  load_baseline,
)

-- After recording results with distinct names on a machine, the gate on that machine returns 0
-- for new results of the same scenarios exactly when no gated metric is more than 5% above the
-- recorded one.
pub check_baseline-record_baseline :
    (store : Baselines) (machine_id now : Text) (recorded measured : List Result)
    → DistinctNames recorded
    → SameScenarios recorded measured
    → ((messages : List Message) × (check_baseline
            (record_baseline store machine_id now recorded)
            machine_id
            measured
          ≡ returned (messages, 0)))
      ↔ AllNoWorse recorded measured
check_baseline-record_baseline store machine_id now rs ss distinct same =
    let gate = check_baseline-iff_Accepts (record_baseline store machine_id now rs) machine_id ss in
    let loaded = load_baseline-record_baseline store machine_id now rs in
    let held = scenarios_from-Records rs [] distinct in
    (
      λ passes.
          let (baseline, found, accepted) = gate.0 passes in
          let e : scenarios_from [] rs ≡ baseline = cc loaded in
          Accepts-AllNoWorse (scenarios_from [] rs) rs ss held same (rw e accepted),
      λ none_worse. gate.1 (
        scenarios_from [] rs,
        loaded,
        AllNoWorse-Accepts (scenarios_from [] rs) rs ss held same none_worse,
      ),
    )

append-cancel : (xs ys end : Text) → xs ++ end ≡ ys ++ end → xs ≡ ys
append-cancel xs ys end h =
    let same : length xs ≡ length ys =
      omega (arith, ap length h, length-append xs end, length-append ys end) in
    sym (take-length-append xs end)
    ∙ ap (λ t. take (length xs) t) h
    ∙ ap (λ n. take n (ys ++ end)) same
    ∙ take-length-append ys end

-- Two machines have two files.
baseline_path-ne : (a b : Text) → a ≢ b → baseline_path a ≢ baseline_path b
unfolding baseline_path
baseline_path-ne a b h e =
    h (append-cancel a b (codes ".json") (ap (λ t. drop (length (codes "perf/baselines/")) t) e))

load_baseline-record_baseline_ne :
    (store : Baselines) (machine_id other now : Text) (rs : List Result)
    → other ≢ machine_id
    → load_baseline (record_baseline store machine_id now rs) other ≡ load_baseline store other
unfolding load_baseline record_baseline
load_baseline-record_baseline_ne store machine_id other now rs h =
    let file : BaselineFile = record {
      machine_id = machine_id;
      recorded_at = now;
      scenarios = some (scenarios_from [] rs);
    } in
    let away = baseline_path-ne other machine_id h in
    let kept : lookup (baseline_path other) (insert (baseline_path machine_id) file store)
        ≡ lookup (baseline_path other) store =
      ground
        (arith, lookup-insert (baseline_path other) (baseline_path machine_id) file store, away) in
    rw (kept, load_baseline)

check_baseline-record_baseline_ne :
    (store : Baselines) (machine_id other now : Text) (recorded measured : List Result)
    → other ≢ machine_id
    → check_baseline (record_baseline store machine_id now recorded) other measured
      ≡ check_baseline store other measured
unfolding check_baseline
check_baseline-record_baseline_ne store machine_id other now rs ss h =
    rw (load_baseline-record_baseline_ne store machine_id other now rs h, check_baseline)

-- Recordings one after another: the machine, the time and the results of each.
abbrev pub record_each : Baselines → List (Text × Text × List Result) → Baselines
record_each store [] = store
record_each store ((machine_id, now, results) ∷ others) =
    record_each (record_baseline store machine_id now results) others

check_baseline-others :
    (store : Baselines) (machine_id : Text) (others : List (Text × Text × List Result))
    (measured : List Result)
    → All (λ o. machine_id ≢ o.0) others
    → check_baseline (record_each store others) machine_id measured
      ≡ check_baseline store machine_id measured
check_baseline-others store machine_id [] measured h = refl
check_baseline-others store machine_id ((other, now, results) ∷ others) measured (h, hs) =
    check_baseline-others (record_baseline store other now results) machine_id others measured hs
    ∙ check_baseline-record_baseline_ne store other machine_id now results measured h

-- After recording results with distinct names on a machine, and after it any results on machines
-- with other ids, each in the file that _baseline_path names, the gate on the first machine
-- returns 0 for new results of the same scenarios exactly when no gated metric is more than 5%
-- above the one recorded there.
pub check_baseline-record_each :
    (store : Baselines) (machine_id now : Text) (recorded measured : List Result)
    (others : List (Text × Text × List Result))
    → DistinctNames recorded
    → SameScenarios recorded measured
    → All (λ o. machine_id ≢ o.0) others
    → ((messages : List Message) × (check_baseline
            (record_each (record_baseline store machine_id now recorded) others)
            machine_id
            measured
          ≡ returned (messages, 0)))
      ↔ AllNoWorse recorded measured
check_baseline-record_each store machine_id now recorded measured others distinct same away =
    let kept =
      check_baseline-others (record_baseline store machine_id now recorded) machine_id others
        measured away in
    rw kept (check_baseline-record_baseline store machine_id now recorded measured distinct same)
