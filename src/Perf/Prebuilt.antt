-- ===== src/Perf/Prebuilt.antt =====
-- The perf plan of tools/emit_test_plan.py builds what `--measure-only` of tools/perf_baseline.py looks for.
use drift_mariadb_client.Base.{
  ◌≡◌, false, ◌++◌, refl, sym, ap, Option, some, List, [], ◌∷◌, map, Text, codes, returned,
  >>=-eq-returned,
}
use drift_mariadb_client.Plan.Source.{module_of}
use drift_mariadb_client.Plan.Emit.{Repo, Job, Plan, in_work, pkg_build}
use drift_mariadb_client.Plan.Curated.{perf_scenarios}
use drift_mariadb_client.Plan.Suite.{phase}
use drift_mariadb_client.Plan.Gates.{deployed_dep_flags, perf_jobs, emit_perf}
use drift_mariadb_client.Perf.Run.{Scenario, scenarios}

abbrev pub out_of : Job → Option Text
out_of j = j.out

abbrev pub binary_of : Scenario → Option Text
binary_of s = some (in_work s.name)

-- One phase, whose outputs are the binaries of the measured scenarios, in order.
abbrev pub BuildsScenarios : Plan → Type 0
BuildsScenarios plan =
    (jobs : List Job) × (plan.phases ≡ phase (codes "build") jobs ∷ [])
    × (map out_of jobs ≡ map binary_of scenarios)

perf_jobs-out :
    (repo : Repo) (dep_flags : List Text) (ss : List (Text × Text)) (jobs : List Job)
    → perf_jobs repo dep_flags ss ≡ returned jobs
    → map out_of jobs ≡ map (λ (s : Text × Text). some (in_work s.0)) ss
unfolding perf_jobs pkg_build
perf_jobs-out repo dep_flags [] jobs h = let e : [] ≡ jobs = cc in rw (← e) refl
perf_jobs-out repo dep_flags ((name, rel) ∷ ss) jobs h =
    let (m, found, h') = >>=-eq-returned (module_of repo.tree rel) _ h in
    let (rest, later, made) = >>=-eq-returned (perf_jobs repo dep_flags ss) _ h' in
    let all : pkg_build name dep_flags repo.pkg_root (m ++ codes "::main") rel false ∷ rest ≡ jobs =
      cc in
    rw (← all) (ap (λ t. some (in_work name) ∷ t) (perf_jobs-out repo dep_flags ss rest later))

-- A perf plan that emit_test_plan.py emits has one build phase, and the outputs of its jobs are,
-- in order, the binaries in the work directory that are named like the scenarios that
-- perf_baseline.py measures.
pub emit_perf-BuildsScenarios :
    (repo : Repo) (plan : Plan) → emit_perf repo ≡ returned plan → BuildsScenarios plan
unfolding emit_perf
emit_perf-BuildsScenarios repo plan h =
    let (dep_flags, found, h') = >>=-eq-returned (deployed_dep_flags repo) _ h in
    let (jobs, built, made) = >>=-eq-returned (perf_jobs repo dep_flags perf_scenarios) _ h' in
    let e : record { name = codes "perf-build"; phases = phase (codes "build") jobs ∷ [] } ≡ plan =
      cc in
    (
      jobs,
      ap (λ (p : Plan). p.phases) (sym e),
      perf_jobs-out repo dep_flags perf_scenarios jobs built,
    )
