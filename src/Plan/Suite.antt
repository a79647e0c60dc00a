-- ===== src/Plan/Suite.antt =====
-- `emit_test` of tools/emit_test_plan.py.
pub mod Serial
pub mod Needs
use drift_mariadb_client.Base.{ℕ, ◌+◌, Bool, true, false, not, Option, none, some}
use drift_mariadb_client.Base.{List, [], ◌∷◌, ◌++◌, map, Text, codes, returned, raised, ◌>>=◌}
use drift_mariadb_client.Base.{◌==◌, text_eq, contains, if◌then◌else◌, length}
use drift_mariadb_client.Base.Dict.{Dict, lookup}
use drift_mariadb_client.Base.Strings.{starts_with, strip_prefix}
use drift_mariadb_client.Plan.Source.{
  PlanError, no_artifact, not_test_entry, not_inferred, not_app, no_entry_point, missing_key,
  no_app_given, no_file_given, Emit, is_test_entry, module_of, basename, stem, test_files,
}
use drift_mariadb_client.Plan.Curated.{unit_roots, live_tests}
use drift_mariadb_client.Plan.Emit.{
  Artifact, Repo, manifest_versions, find_artifact, Context, build_context, Job, Phase, Plan,
  in_work, sanitize_flags, compiler, src_build, pkg_build, tagged, run_job, serialize,
}

abbrev pub main_of : Text → Text
main_of module_name = module_name ++ codes "::main"

-- The build jobs of one test, plain and with the address sanitizer.
abbrev pub both_builds : Text → Context → Text → Text → List Job
both_builds qual context entry rel =
    src_build (tagged qual (codes "base")) context entry rel false
    ∷ src_build (tagged qual (codes "asan")) context entry rel true
    ∷ []

abbrev pub run_base : Text → Job
run_base qual = run_job (tagged qual (codes "run-base")) (tagged qual (codes "base")) none

abbrev pub run_memcheck : Text → Job
run_memcheck qual =
    run_job (tagged qual (codes "run-memcheck")) (tagged qual (codes "base"))
      (some (codes "memcheck"))

abbrev pub run_asan : Text → Job
run_asan qual = run_job (tagged qual (codes "run-asan")) (tagged qual (codes "asan")) none

-- What a loop over tests appends to two lists.
abbrev pub Appends : Type 0 → Type 0
Appends B = List Job × List B

-- A `for` loop: what each round appends, in order, unless a round exits.
unfoldable pub for_each {ℓ} :
    {A : Type ℓ} {B : Type 0} → (A → Emit (Appends B)) → List A → Emit (Appends B)
for_each f [] = returned ([], [])
for_each f (x ∷ xs) = do
  first ← f x
  rest ← for_each f xs
  returned (first.0 ++ rest.0, first.1 ++ rest.1)

-- The body of the loop over the files of a unit root, from the answer of `is_test_entry` on.
unfoldable pub unit_entry : Repo → Context → Text → Text → Bool → Emit (Appends Job)
unfolding module_of
unit_entry repo context qual rel false = returned ([], [])
unit_entry repo context qual rel true = do
  name ← module_of repo.tree rel
  returned (
    both_builds qual context (main_of name) rel,
    run_base qual ∷ run_memcheck qual ∷ run_asan qual ∷ [],
  )

unfoldable pub unit_jobs : Repo → Context → Text → Text → Text → Emit (Appends Job)
unfolding is_test_entry unit_entry stem
unit_jobs repo context artifact leaf rel =
    is_test_entry repo.tree rel
    >>= unit_entry repo context (artifact ++ (b'-' ∷ leaf ++ (b'-' ∷ stem rel))) rel

unfoldable pub unit_root : Repo → Text × Text → Emit (Appends Job)
unfolding build_context for_each unit_jobs test_files basename
unit_root repo (artifact, root) = do
  context ← build_context repo artifact
  for_each (unit_jobs repo context artifact (basename root)) (test_files repo.tree root)

-- The body of the loop over the live tests of an artifact: builds, and the name in `live_quals`.
unfoldable pub live_entry : Repo → Context → Text → Text → Bool → Emit (Appends Text)
unfolding module_of
live_entry repo context qual rel false = raised (not_test_entry rel)
live_entry repo context qual rel true = do
  name ← module_of repo.tree rel
  returned (both_builds qual context (main_of name) rel, qual ∷ [])

unfoldable pub live_jobs : Repo → Context → Text → Text → Emit (Appends Text)
unfolding is_test_entry live_entry stem
live_jobs repo context artifact rel =
    is_test_entry repo.tree rel
    >>= live_entry repo context (artifact ++ (codes "-e2e-" ++ stem rel)) rel

unfoldable pub live_artifact : Repo → Text × List Text → Emit (Appends Text)
unfolding build_context for_each live_jobs
live_artifact repo (artifact, files) = do
  context ← build_context repo artifact
  for_each (live_jobs repo context artifact) files

pub data Lane : Type 0 where
  base asan memcheck : Lane

abbrev pub lanes : List Lane
lanes = base ∷ asan ∷ memcheck ∷ []

abbrev pub lane_job : Lane → Text → Job
lane_job base qual = run_base qual
lane_job asan qual = run_asan qual
lane_job memcheck qual = run_memcheck qual

-- The inner and the outer loop over `order` and `run_live`.
unfoldable pub run_lane : Lane → List Text → ℕ × List Job → ℕ × List Job
run_lane lane [] s = s
run_lane lane (qual ∷ quals) (order, jobs) =
    run_lane lane quals (order + 1, jobs ++ (serialize (lane_job lane qual) order ∷ []))

unfoldable pub run_lanes : List Lane → List Text → ℕ × List Job → ℕ × List Job
unfolding run_lane
run_lanes [] quals s = s
run_lanes (lane ∷ rest) quals s = run_lanes rest quals (run_lane lane quals s)

abbrev pub phase : Text → List Job → Phase
phase name jobs = record { name = name; jobs = jobs }

-- `emit_test`, for any roots and curated tests.
unfoldable pub emit_tests : Repo → List (Text × Text) → List (Text × List Text) → Emit Plan
unfolding for_each unit_root live_artifact run_lanes
emit_tests repo roots tests = do
  unit ← for_each (unit_root repo) roots
  live ← for_each (live_artifact repo) tests
  returned (record {
    name = codes "test";
    phases =
        phase (codes "build") (unit.0 ++ live.0)
        ∷ phase (codes "run-unit") unit.1
        ∷ phase (codes "run-live") (run_lanes lanes live.1 (0, [])).1
        ∷ [];
  })

unfoldable pub emit_test : Repo → Emit Plan
unfolding emit_tests
emit_test repo = emit_tests repo unit_roots live_tests
