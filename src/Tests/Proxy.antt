-- ===== src/Tests/Proxy.antt =====
-- The gate of tools/proxy_gate_smoke.py on worlds in which all goes well, or one thing does not.
use drift_mariadb_client.Base.{
  ◌≡◌, ◌≢◌, ◌↔◌, refl, true, false, Option, none, some, List, [], ◌∷◌, ◌++◌, map, Text, codes,
  text_eq,
}
use drift_mariadb_client.Base.Order.{sort_by, text_le}
use drift_mariadb_client.Pins.{CertEnv}
use drift_mariadb_client.Plan.Emit.{Artifact, Repo}
use drift_mariadb_client.Plan.Gates
use drift_mariadb_client.Gate.Process.{
  exit_code, killed_by, sigterm, sigint, sigkill, Child, started, Stop, Executor,
}
use drift_mariadb_client.Gate.Cases.{
  Ending, Health, is_ready, wait_ready, reply, no_reply, data_address, backend_address, event_mark,
  Round, Toolchain, CaseWorld, run_case, ShutdownWorld, required_shutdown_events,
  check_graceful_shutdown,
}
use drift_mariadb_client.Gate.Run.{app_name, events_fired, cases, GateWorld, main}
use drift_mariadb_client.Gate.Reaped.{LeftBy, run_case-LeftBy, check_graceful_shutdown-reap}
use drift_mariadb_client.Gate.Passing.{BecomesReady, wait_ready-BecomesReady}
use drift_mariadb_client.Gate.Exit.{AllPass, main-AllPass}

abbrev source : Text
source = codes "module m\nfn main() {}\n"

abbrev file_of : Text × List Text → Text × Text
file_of c = (c.0, source)

abbrev cert : CertEnv
cert = record {
  cert_mode = none;
  toolchain_root = none;
  drift_is_file = false;
  lock = none;
  lock_emit = λ _. record { returncode = 1; stdout = [] };
}

abbrev artifact : Text → Artifact
artifact name = record {
  name = name;
  version = codes "1";
  kind = some (codes "app");
  entry_point = some (codes "m::main");
  modules = [];
  package_deps = [];
}

abbrev repo : Repo
repo = record {
  tree = map file_of cases;
  manifest = artifact app_name ∷ artifact (codes "mariadb-rpc") ∷ [];
  cert = cert;
  pkg_root = codes "/p";
}

abbrev toolchain : Toolchain
toolchain = record { root = some (codes "/t"); has_executor = true }

abbrev good_executor : Executor
good_executor = record { in_time = some (exit_code 0); at_end = exit_code 0 }

abbrev health : Text → Health
health at = record { ok = true; data_listener = some at; backend_listener = some backend_address }

-- No answer at first, then a healthy one with this address.
abbrev rounds : Text → List Round
rounds at =
    record { polled = none; answer = no_reply }
    ∷ record { polled = none; answer = reply (health at) }
    ∷ []

-- The proxy does not react to SIGTERM.
abbrev stubborn : Stop
stubborn = record {
  polled = none;
  at_sigterm = none;
  in_grace = none;
  at_kill = none;
  after_kill = some (killed_by 9);
}

abbrev log_of : List Text → Text
log_of [] = []
log_of (ev ∷ evs) = codes "{" ++ (event_mark ev ++ (codes "}\n" ++ log_of evs))

abbrev case_world : Text → CaseWorld
case_world at = record {
  starts = true;
  rounds = rounds at;
  executor = good_executor;
  stop = stubborn;
  log = log_of events_fired;
}

abbrev shutdown_world : ShutdownWorld
shutdown_world = record {
  starts = true;
  rounds = rounds data_address;
  at_signal = none;
  in_time = some (exit_code 0);
  at_kill = none;
  after_kill = exit_code 0;
  at_end = none;
  at_last_kill = none;
  last = exit_code 0;
  log = log_of required_shutdown_events;
}

abbrev world : Text → GateWorld
world at = record {
  toolchain = toolchain;
  repo = repo;
  build = good_executor;
  has_binary = true;
  at_case = λ _. case_world at;
  at_signal = λ _. shutdown_world;
}

all_is_well : main (world data_address) ≡ 0
unfolding main Gates.main sort_by text_le text_eq
all_is_well = refl

-- Another proxy answers on the control port.
other_proxy : main (world (codes "127.0.0.1:1")) ≡ 1
unfolding main Gates.main sort_by text_le text_eq
other_proxy = refl

main-AllPass_example : (main (world data_address) ≡ 0) ↔ AllPass (world data_address)
main-AllPass_example = main-AllPass (world data_address)

abbrev killed : Child
killed = record {
  returncode = some (killed_by 9);
  signals = sigterm ∷ sigkill ∷ [];
  log_open = false;
}

abbrev first_case : CaseWorld → Option Child × Ending
first_case w = run_case toolchain repo (codes "x.drift") [] w

killed_at_last : (first_case (case_world data_address)).0 ≡ some killed
unfolding run_case text_eq
killed_at_last = refl

run_case-LeftBy_example : LeftBy killed (first_case (case_world data_address)).1
run_case-LeftBy_example =
    run_case-LeftBy toolchain repo (codes "x.drift") [] (case_world data_address) killed
      killed_at_last

abbrev exited : Child
exited = record { returncode = some (exit_code 0); signals = sigint ∷ []; log_open = false }

exits_at_sigint : (check_graceful_shutdown sigint shutdown_world).0 ≡ some exited
unfolding check_graceful_shutdown text_eq
exits_at_sigint = refl

check_graceful_shutdown-reap_example : (exited.log_open ≡ false) × (exited.returncode ≢ none)
check_graceful_shutdown-reap_example =
    check_graceful_shutdown-reap sigint shutdown_world exited exits_at_sigint

wait_ready-BecomesReady_example :
    ((wait_ready (rounds data_address) started).1 ≡ is_ready) ↔ BecomesReady (rounds data_address)
wait_ready-BecomesReady_example = wait_ready-BecomesReady (rounds data_address)
