-- ===== src/Plan/Gates.antt =====
-- `emit_stress`, `emit_perf`, `emit_one`, `emit_compile`, `emit_app` and `main` of
-- tools/emit_test_plan.py.
use drift_mariadb_client.Base.{ℕ, ◌+◌, true, false, Option, none, some}
use drift_mariadb_client.Base.{List, [], ◌∷◌, ◌++◌, Text, codes, returned, raised, ◌>>=◌}
use drift_mariadb_client.Base.{◌==◌, text_eq, contains, if◌then◌else◌, length}
use drift_mariadb_client.Base.Dict.{lookup}
use drift_mariadb_client.Base.Strings.{starts_with, strip_prefix}
use drift_mariadb_client.Plan.Source.{
  PlanError, no_artifact, not_test_entry, not_inferred, not_app, no_entry_point, missing_key,
  no_app_given, no_file_given, Emit, is_test_entry, module_of, stem,
}
use drift_mariadb_client.Plan.Curated.{perf_scenarios, stress_src}
use drift_mariadb_client.Plan.Suite.{main_of, phase, emit_test}
use drift_mariadb_client.Plan.Emit.{
  Artifact, Repo, manifest_versions, find_artifact, build_context, Job, Phase, Plan, in_work,
  sanitize_flags, compiler, src_build, pkg_build, run_job, serialize,
}

-- `ver[name]`
version_of : Repo → Text → Emit Text
unfolding manifest_versions lookup text_eq
version_of repo name = elim (lookup name (manifest_versions repo)) [
  | none ↦ raised (missing_key name)
  | some v ↦ returned v
]

unfoldable pub deployed_dep_flags : Repo → Emit (List Text)
unfolding version_of
deployed_dep_flags repo = do
  rpc ← version_of repo (codes "mariadb-rpc")
  wire ← version_of repo (codes "mariadb-wire-proto")
  returned (
      codes "--dep"
      ∷ (codes "mariadb-rpc@" ++ rpc)
      ∷ codes "--dep"
      ∷ (codes "mariadb-wire-proto@" ++ wire)
      ∷ [])

abbrev plan : Text → List Phase → Plan
plan name phases = record { name = name; phases = phases }

unfoldable pub emit_stress : Repo → Emit Plan
unfolding deployed_dep_flags module_of pkg_build
emit_stress repo = do
  dep_flags ← deployed_dep_flags repo
  name ← module_of repo.tree stress_src
  let test = codes "rpc_stress_test"
  returned (
      plan (codes "stress") (
        phase (codes "build")
          (pkg_build test dep_flags repo.pkg_root (main_of name) stress_src false ∷ [])
        ∷ phase (codes "run") (serialize (run_job (test ++ codes "#run") test none) 0 ∷ [])
        ∷ []))

-- One build for each perf scenario.
unfoldable pub perf_jobs : Repo → List Text → List (Text × Text) → Emit (List Job)
unfolding module_of pkg_build
perf_jobs repo dep_flags [] = returned []
perf_jobs repo dep_flags ((name, rel) ∷ rest) = do
  m ← module_of repo.tree rel
  jobs ← perf_jobs repo dep_flags rest
  returned (pkg_build name dep_flags repo.pkg_root (main_of m) rel false ∷ jobs)

unfoldable pub emit_perf : Repo → Emit Plan
unfolding deployed_dep_flags perf_jobs
emit_perf repo = do
  dep_flags ← deployed_dep_flags repo
  jobs ← perf_jobs repo dep_flags perf_scenarios
  returned (plan (codes "perf-build") (phase (codes "build") jobs ∷ []))

unfoldable pub infer_artifact : Text → Emit Text
unfolding strip_prefix
infer_artifact rel =
    if starts_with rel (codes "packages/mariadb-wire-proto/")
    then returned (codes "mariadb-wire-proto")
    else if starts_with rel (codes "packages/mariadb-rpc/")
    then returned (codes "mariadb-rpc")
    else if starts_with rel (codes "failpoint-proxy/")
    then returned (codes "mariadb-failpoint-proxy")
    else raised (not_inferred rel)

-- Build one test and run it.
one_plan : Repo → Text → Emit Plan
unfolding infer_artifact build_context module_of stem src_build
one_plan repo rel = do
  artifact ← infer_artifact rel
  context ← build_context repo artifact
  name ← module_of repo.tree rel
  returned (
      plan (codes "one") (
        phase (codes "build") (src_build (stem rel) context (main_of name) rel false ∷ [])
        ∷ phase (codes "run") (run_job (stem rel ++ codes "#run") (stem rel) none ∷ [])
        ∷ []))

unfoldable pub emit_one : Repo → Text → Emit Plan
unfolding one_plan is_test_entry
emit_one repo rel =
    is_test_entry repo.tree rel
    >>= elim [ false ↦ raised (not_test_entry rel) | true ↦ one_plan repo rel ]

-- A job of which only the id and the command are given.
abbrev command_job : Text → List Text → Job
command_job id cmd = record {
  id = id;
  out = none;
  cmd = cmd;
  needs = [];
  wrap = none;
  mode = none;
  group = none;
  order = none;
}

unfoldable pub emit_compile : Repo → Text → Emit Plan
unfolding infer_artifact build_context
emit_compile repo rel = do
  artifact ← infer_artifact rel
  context ← build_context repo artifact
  let extra = (if contains context.srcs rel then [] else rel ∷ [])
  returned (
      plan (codes "compile") (
        phase (codes "compile") (
          command_job (codes "compile-check")
            (compiler ++ (context.dep_flags ++ (sanitize_flags false ++ (context.srcs ++ extra))))
          ∷ [])
        ∷ []))

app_plan : Repo → Text → Text → Emit Plan
unfolding build_context
app_plan repo app_name entry = do
  context ← build_context repo app_name
  returned (
      plan (codes "app") (
        phase (codes "build") (
          record (command_job app_name (
            compiler
            ++ (context.dep_flags
                ++ (codes "--entry"
                    ∷ entry
                    ∷ (context.srcs ++ (codes "-o" ∷ in_work app_name ∷ [])))))) {
                      out = some (in_work app_name);
                    }
          ∷ [])
        ∷ []))

-- The checks on the artifact, in their order.
app_entry : Artifact → Text → Emit Text
unfolding text_eq
app_entry art app_name =
    if elim art.kind [ none ↦ false | some k ↦ k == codes "app" ]
    then elim art.entry_point [
      | none ↦ raised (no_entry_point app_name)
      | some [] ↦ raised (no_entry_point app_name)
      | some (c ∷ entry) ↦ returned (c ∷ entry)
    ]
    else raised (not_app app_name)

unfoldable pub emit_app : Repo → Text → Emit Plan
unfolding app_entry app_plan
emit_app repo app_name = elim (find_artifact repo app_name) [
  | none ↦ raised (no_artifact app_name)
  | some art ↦ app_entry art app_name >>= app_plan repo app_name
]

pub data Gate : Type 0 where
  test stress perf one compile app : Gate

-- An option that is absent or empty exits.
abbrev required : Option Text → PlanError → Emit Text
required none e = raised e
required (some []) e = raised e
required (some (c ∷ s)) e = returned (c ∷ s)

-- `main`, up to the writing of the plan.
unfoldable pub main : Repo → Gate → Option Text → Option Text → Emit Plan
unfolding emit_test emit_stress emit_perf emit_one emit_compile emit_app
main repo test file app_name = emit_test repo
main repo stress file app_name = emit_stress repo
main repo perf file app_name = emit_perf repo
main repo one file app_name = required file no_file_given >>= emit_one repo
main repo compile file app_name = required file no_file_given >>= emit_compile repo
main repo app file app_name = required app_name no_app_given >>= emit_app repo

-- The number of jobs that `main` reports.
abbrev pub job_count : List Phase → ℕ
job_count [] = 0
job_count (p ∷ ps) = length p.jobs + job_count ps
