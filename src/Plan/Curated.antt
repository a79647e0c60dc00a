-- ===== src/Plan/Curated.antt =====
-- The lists of tools/emit_test_plan.py: unit roots, live tests, perf scenarios.
use drift_mariadb_client.Base.{List, [], ◌∷◌, ◌++◌, Text, codes}

abbrev pub unit_roots : List (Text × Text)
unit_roots =
    (codes "mariadb-wire-proto", codes "packages/mariadb-wire-proto/tests/unit")
    ∷ (codes "mariadb-rpc", codes "packages/mariadb-rpc/tests/unit")
    ∷ (codes "mariadb-failpoint-proxy", codes "failpoint-proxy/tests/unit")
    ∷ []

abbrev wire_e2e : Text → Text
wire_e2e name = codes "packages/mariadb-wire-proto/tests/e2e/" ++ (name ++ codes ".drift")

abbrev rpc_e2e : Text → Text
rpc_e2e name = codes "packages/mariadb-rpc/tests/e2e/" ++ (name ++ codes ".drift")

abbrev pub live_tests : List (Text × List Text)
live_tests =
    (
      codes "mariadb-wire-proto",
      wire_e2e (codes "com_query_smoke_test")
          ∷ wire_e2e (codes "live_tcp_smoke_test")
          ∷ wire_e2e (codes "live_proto_api_smoke_test")
          ∷ wire_e2e (codes "live_session_state_test")
          ∷ wire_e2e (codes "live_tcp_tx_test")
          ∷ wire_e2e (codes "live_tcp_load_test")
          ∷ wire_e2e (codes "live_metadata_suppression_test")
          ∷ [],
    )
    ∷ (
      codes "mariadb-rpc",
      rpc_e2e (codes "connect_state_handoff_stage_isolation_test")
          ∷ rpc_e2e (codes "connect_state_handoff_regression_test")
          ∷ rpc_e2e (codes "live_rpc_smoke_test")
          ∷ rpc_e2e (codes "live_pool_smoke_test")
          ∷ rpc_e2e (codes "pool_release_discard_wakeup_regression_test")
          ∷ rpc_e2e (codes "pool_acquire_timeout_test")
          ∷ rpc_e2e (codes "pool_idle_close_recycle_test")
          ∷ rpc_e2e (codes "live_managed_smoke_test")
          ∷ rpc_e2e (codes "managed_acquire_timeout_test")
          ∷ rpc_e2e (codes "managed_release_wakeup_test")
          ∷ rpc_e2e (codes "managed_idle_close_recycle_test")
          ∷ [],
    )
    ∷ []

abbrev pub perf_scenarios : List (Text × Text)
perf_scenarios =
    (codes "rpc_single_result", codes "perf/scenarios/rpc_single_result_perf.drift")
    ∷ (codes "rpc_multi_result", codes "perf/scenarios/rpc_multi_result_perf.drift")
    ∷ (codes "rpc_error", codes "perf/scenarios/rpc_error_perf.drift")
    ∷ []

abbrev pub stress_src : Text
stress_src = codes "tests/stress/rpc_stress_test.drift"
