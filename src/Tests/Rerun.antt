-- ===== src/Tests/Rerun.antt =====
-- Two runs of tools/perf_baseline.py on one machine, in one process and on prebuilt binaries.
use drift_mariadb_client.Base.{
  ℕ, ◌≡◌, ◌↔◌, refl, true, none, some, List, [], ◌∷◌, Text, codes, returned, text_eq,
}
use drift_mariadb_client.Base.Int.{pos}
use drift_mariadb_client.Base.{All}
use drift_mariadb_client.Base.Dict.{Dict, lookup}
use drift_mariadb_client.Perf.Compiled.{CompiledTo, compile_all-CompiledTo}
use drift_mariadb_client.Perf.Run.{scenarios, compile_all}
use drift_mariadb_client.Gate.Process.{exit_code}
use drift_mariadb_client.Perf.Baseline.{Result}
use drift_mariadb_client.Perf.Baseline.Recorded.{AllNoWorse}
use drift_mariadb_client.Perf.Run.{CompileWorld}
use drift_mariadb_client.Perf.Main.{PerfWorld, PerfStore, format, run_phases, main}
use drift_mariadb_client.Perf.Main.Rerun.{main-after_recording}

abbrev result : ℕ → Text → Result
result written name = record {
  name = name;
  iterations = 25;
  elapsed_ms = 12;
  written_bytes = written;
  read_bytes = 30;
  written_packets = 10;
  read_packets = 20;
  capture_duration_ms = pos 11;
  capture_run_dir = [];
}

abbrev compile : CompileWorld
compile = record {
  package_root = codes "/p";
  source = λ _. codes "module m;" ∷ [];
  flocker = none;
  compile_jobs = codes "4";
  compiled = λ _. exit_code 0;
}

abbrev world : ℕ → PerfWorld
world written = record {
  toolchain_root = some (codes "/t");
  driftc = none;
  executable = λ _. true;
  versions = (codes "mariadb-rpc", codes "1") ∷ (codes "mariadb-wire-proto", codes "1") ∷ [];
  deployed = λ _. λ _. true;
  compile = compile;
  machine_id = some (codes "m\n");
  version = format (some (codes "drift-toolchain-info/v1"));
  prebuilt = λ _. true;
  tmp_dir = codes "/tmp/x";
  measured = λ s. λ _. returned (result written s.name);
  stamp = codes "20260101";
  now = codes "2026-01-01";
}

abbrev results : ℕ → List Result
results written =
    result written (codes "rpc_single_result")
    ∷ result written (codes "rpc_multi_result")
    ∷ result written (codes "rpc_error")
    ∷ []

abbrev recording : List Text
recording = codes "perf" ∷ codes "--record-baseline" ∷ []

abbrev gating : List Text
gating = codes "perf" ∷ codes "--measure-only" ∷ codes "--bin-dir" ∷ codes "b" ∷ []

recording_phases : run_phases recording (world 100) ≡ returned (some (codes "m", results 100))
unfolding main lookup
recording_phases = refl

gating_phases : run_phases gating (world 105) ≡ returned (some (codes "m", results 105))
unfolding main lookup
gating_phases = refl

abbrev empty_store : PerfStore
empty_store = record { baselines = []; results = [] }

main-after_recording_example :
    (between : PerfStore) × (main recording (world 100) empty_store ≡ returned (0, between))
    × (((after : PerfStore) × (main gating (world 105) between ≡ returned (0, after)))
        ↔ AllNoWorse (results 100) (results 105))
unfolding text_eq
main-after_recording_example =
    main-after_recording recording gating (world 100) (world 105) empty_store (codes "m")
      (results 100) (results 105) refl refl recording_phases gating_phases
      (((λ e. cc), ((λ e. cc), tt)), (((λ e. cc), tt), (tt, tt))) (refl, (refl, (refl, tt)))

abbrev binaries : Dict Text Text
binaries =
    (codes "rpc_single_result", codes "b/rpc_single_result")
    ∷ (codes "rpc_multi_result", codes "b/rpc_multi_result")
    ∷ (codes "rpc_error", codes "b/rpc_error")
    ∷ []

compiled : compile_all compile (codes "driftc") (world 1).versions (codes "b") ≡ returned binaries
unfolding main lookup
compiled = refl

compile_all-CompiledTo_example : All (CompiledTo compile (codes "b") binaries) scenarios
compile_all-CompiledTo_example =
    compile_all-CompiledTo compile (codes "driftc") (world 1).versions (codes "b") binaries compiled
