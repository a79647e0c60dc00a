-- ===== src/Gate/Run.antt =====
-- `build_proxy`, the table of cases, and `main`.
use drift_mariadb_client.Base.{ℕ, Bool, Option, none, some, List, [], ◌∷◌, ◌++◌}
use drift_mariadb_client.Base.{Text, codes, returned, raised, if◌then◌else◌}
use drift_mariadb_client.Plan.Emit.{Repo}
use drift_mariadb_client.Plan.Gates.{emit_app}
use drift_mariadb_client.Gate.Process.{
  Code, is_success, Signal, sigterm, sigint, Executor, run_plan,
}
use drift_mariadb_client.Gate.Cases.{
  no_binary, build_failed, plan_error, Ending, passed, crashed, failed, Toolchain,
  require_toolchain, CaseWorld, run_case, ShutdownWorld, check_graceful_shutdown,
}

abbrev pub app_name : Text
app_name = codes "mariadb-failpoint-proxy"

-- After the executor: whether the binary is there.
abbrev pub built : Option Code → Bool → Ending
built none has_binary = failed (build_failed none)
built (some code) has_binary =
    if is_success code
    then (if has_binary then passed else failed no_binary)
    else failed (build_failed (some code))

unfoldable pub build_proxy : Toolchain → Repo → Executor → Bool → Ending
unfolding require_toolchain emit_app run_plan
build_proxy t repo e has_binary = elim (require_toolchain t) [
  | raised f ↦ failed f
  | returned _ ↦ elim (emit_app repo app_name) [
    | raised f ↦ failed (plan_error f)
    | returned plan ↦ built (run_plan e).1 has_binary
  ]
]

abbrev e2e : Text → Text
e2e name = codes "packages/mariadb-rpc/tests/e2e/" ++ (name ++ codes ".drift")

abbrev pub events_passthrough : List Text
events_passthrough =
    codes "proxy_start"
    ∷ codes "client_accept"
    ∷ codes "backend_connect"
    ∷ codes "commit_observed"
    ∷ codes "conn_close"
    ∷ []

abbrev pub events_fired : List Text
events_fired =
    codes "proxy_start"
    ∷ codes "client_accept"
    ∷ codes "backend_connect"
    ∷ codes "commit_observed"
    ∷ codes "failpoint_fire"
    ∷ codes "conn_close"
    ∷ []

-- The client tests of `CASES` with the events that they require.
abbrev pub cases : List (Text × List Text)
cases =
    (e2e (codes "live_proxy_passthrough_smoke_test"), events_passthrough)
    ∷ (e2e (codes "live_proxy_pool_commit_ambiguous_test"), events_fired)
    ∷ (e2e (codes "live_proxy_nth_commit_ambiguous_test"), events_fired)
    ∷ (e2e (codes "live_proxy_domain_isolation_test"), events_fired)
    ∷ (e2e (codes "live_proxy_commit_timeout_ambiguous_test"), events_fired)
    ∷ []

abbrev pub shutdown_signals : List Signal
shutdown_signals = sigterm ∷ sigint ∷ []

-- The two loops of `main`, up to the first case that does not pass. What the cases meet is a function.
unfoldable pub run_cases : Toolchain → Repo → (Text → CaseWorld) → List (Text × List Text) → Ending
unfolding run_case
run_cases t repo w [] = passed
run_cases t repo w ((client_test, required_events) ∷ rest) =
    let later = run_cases t repo w rest in
    elim (run_case t repo client_test required_events (w client_test)).1 [
      | passed ↦ later
      | crashed ↦ crashed
      | failed f ↦ failed f
    ]

unfoldable pub check_shutdowns : (Signal → ShutdownWorld) → List Signal → Ending
unfolding check_graceful_shutdown
check_shutdowns w [] = passed
check_shutdowns w (sig ∷ rest) =
    let later = check_shutdowns w rest in
    elim (check_graceful_shutdown sig (w sig)).1 [
      | passed ↦ later
      | crashed ↦ crashed
      | failed f ↦ failed f
    ]

-- What `main` meets.
pub record GateWorld : Type 0 where
  pub toolchain : Toolchain
  pub repo : Repo
  pub build : Executor
  pub has_binary : Bool
  pub at_case : Text → CaseWorld
  pub at_signal : Signal → ShutdownWorld

abbrev pub and_then : Ending → Ending → Ending
and_then passed next = next
and_then crashed next = crashed
and_then (failed f) next = failed f

-- The exit status: `sys.exit` with 1 or a message, and an exception, are all 1.
abbrev pub exit_status : Ending → ℕ
exit_status passed = 0
exit_status _ = 1

unfoldable pub main : GateWorld → ℕ
unfolding build_proxy run_cases check_shutdowns
main w = exit_status (
    and_then (build_proxy w.toolchain w.repo w.build w.has_binary) (
      and_then (run_cases w.toolchain w.repo w.at_case cases)
        (check_shutdowns w.at_signal shutdown_signals)))
