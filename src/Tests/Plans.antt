-- ===== src/Tests/Plans.antt =====
-- The plan of the test gate for a small repository.
use drift_mariadb_client.Base.{
  ◌≡◌, refl, false, none, List, [], ◌∷◌, ◌++◌, Text, codes, returned, map,
}
use drift_mariadb_client.Base.Order.{sort_by, text_le}
use drift_mariadb_client.Pins.{CertEnv}
use drift_mariadb_client.Plan.Source.{Tree}
use drift_mariadb_client.Plan.Emit.{Artifact, Repo, Context, Job, Plan, pkg_build, serialize}
use drift_mariadb_client.Plan.Suite.{
  both_builds, run_base, run_memcheck, run_asan, phase, emit_tests,
}
use drift_mariadb_client.Plan.Gates.{emit_perf, main}
use drift_mariadb_client.Plan.Curated.{perf_scenarios}
use drift_mariadb_client.Perf.Prebuilt.{BuildsScenarios, emit_perf-BuildsScenarios}
use drift_mariadb_client.Plan.Suite.Serial.{IsTestPlan, emit_tests-IsTestPlan}

abbrev tree : Tree
tree =
    (codes "p/src/lib.drift", codes "module p;\n")
    ∷ (codes "p/tests/a.drift", codes "module p.a;\n\nfn main() {}\n")
    ∷ (codes "p/tests/b.drift", codes "module p.b;\n")
    ∷ (codes "e2e/c.drift", codes "// live\nmodule p.c\npub fn main() {}\n")
    ∷ []

abbrev cert : CertEnv
cert = record {
  cert_mode = none;
  toolchain_root = none;
  drift_is_file = false;
  lock = none;
  lock_emit = λ _. record { returncode = 1; stdout = [] };
}

abbrev artifact : Artifact
artifact = record {
  name = codes "p";
  version = codes "1.0";
  kind = none;
  entry_point = none;
  modules = codes "p/src/lib.drift" ∷ [];
  package_deps = record { name = codes "net"; version = codes "2" } ∷ [];
}

abbrev repo : Repo
repo = record { tree = tree; manifest = artifact ∷ []; cert = cert; pkg_root = codes "pkgs" }

abbrev context : Context
context = record {
  srcs = codes "p/src/lib.drift" ∷ [];
  dep_flags = codes "--dep" ∷ codes "net@2" ∷ [];
}

abbrev roots : List (Text × Text)
roots = (codes "p", codes "p/tests") ∷ []

abbrev live : List (Text × List Text)
live = (codes "p", codes "e2e/c.drift" ∷ []) ∷ []

-- `b.drift` has no `main` and is left out.
abbrev test_plan : Plan
test_plan =
    let a = codes "p-tests-a" in
    let c = codes "p-e2e-c" in
    record {
      name = codes "test";
      phases =
          phase (codes "build") (
            both_builds a context (codes "p.a::main") (codes "p/tests/a.drift")
            ++ both_builds c context (codes "p.c::main") (codes "e2e/c.drift"))
          ∷ phase (codes "run-unit") (run_base a ∷ run_memcheck a ∷ run_asan a ∷ [])
          ∷ phase (codes "run-live") (
              serialize (run_base c) 0
              ∷ serialize (run_asan c) 1
              ∷ serialize (run_memcheck c) 2
              ∷ [])
          ∷ [];
    }

made : emit_tests repo roots live ≡ returned test_plan
unfolding main sort_by text_le
made = refl

emit_tests-IsTestPlan_example : IsTestPlan test_plan
emit_tests-IsTestPlan_example = emit_tests-IsTestPlan repo roots live test_plan made

abbrev published : Text → Artifact
published name = record artifact { name = name }

abbrev file_of : Text × Text → Text × Text
file_of s = (s.1, codes "module m;\n")

abbrev perf_repo : Repo
perf_repo = record repo {
  tree = map file_of perf_scenarios;
  manifest = published (codes "mariadb-rpc") ∷ published (codes "mariadb-wire-proto") ∷ [];
}

abbrev perf_flags : List Text
perf_flags =
    codes "--dep" ∷ codes "mariadb-rpc@1.0" ∷ codes "--dep" ∷ codes "mariadb-wire-proto@1.0" ∷ []

abbrev perf_job : Text × Text → Job
perf_job s = pkg_build s.0 perf_flags (codes "pkgs") (codes "m::main") s.1 false

abbrev perf_plan : Plan
perf_plan = record {
  name = codes "perf-build";
  phases = phase (codes "build") (map perf_job perf_scenarios) ∷ [];
}

perf_made : emit_perf perf_repo ≡ returned perf_plan
unfolding main
perf_made = refl

emit_perf-BuildsScenarios_example : BuildsScenarios perf_plan
emit_perf-BuildsScenarios_example = emit_perf-BuildsScenarios perf_repo perf_plan perf_made
