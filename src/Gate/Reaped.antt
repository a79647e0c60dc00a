-- ===== src/Gate/Reaped.antt =====
-- No path leaves the subprocess running or its log open.
use drift_mariadb_client.Base.{◌≡◌, ◌≢◌, refl, ◌⊎◌, inl, inr, arith, false, none, some}
use drift_mariadb_client.Base.{List, [], ◌∷◌, Text, Option-cases, Bool-cases}
use drift_mariadb_client.Plan.Emit.{Repo}
use drift_mariadb_client.Gate.Process.{
  Signal, sigterm, sigkill, Child, poll, started, Stop, stop_proxy,
}
use drift_mariadb_client.Gate.Cases.{
  Ending, crashed, Round, wait_ready, Toolchain, CaseWorld, run_case, ShutdownWorld, signal_ready,
  reap, after_stop, ready_ending, run_client_test, assert_events_present, check_graceful_shutdown,
}

-- SIGTERM comes first, SIGKILL only after it, and nothing else.
abbrev pub Escalated : List Signal → Type 0
Escalated sent = (sent ≡ []) ⊎ ((sent ≡ sigterm ∷ []) ⊎ (sent ≡ sigterm ∷ sigkill ∷ []))

wait_ready-signals : (rounds : List Round) (c : Child) → (wait_ready rounds c).0.signals ≡ c.signals
unfolding wait_ready
wait_ready-signals [] c = refl
wait_ready-signals (r ∷ rounds) c = ground (arith, wait_ready-signals rounds (poll r.polled c))

stop_proxy-log : (s : Stop) (c : Child) → (stop_proxy s c).log_open ≡ false
unfolding stop_proxy
stop_proxy-log s c = refl

stop_proxy-Escalated : (s : Stop) (c : Child) → c.signals ≡ [] → Escalated (stop_proxy s c).signals
unfolding stop_proxy
stop_proxy-Escalated s c h = ground arith

-- A child that runs on has got both signals.
stop_proxy-signals :
    (s : Stop) (c : Child)
    → c.signals ≡ []
    → (stop_proxy s c).returncode ≡ none
    → (stop_proxy s c).signals ≡ sigterm ∷ sigkill ∷ []
unfolding stop_proxy
stop_proxy-signals s c h e = ground arith

reap-returncode : (w : ShutdownWorld) (c : Child) → (reap w c).returncode ≢ none
reap-returncode w c h = ground arith

reap-log : (w : ShutdownWorld) (c : Child) → (reap w c).log_open ≡ false
reap-log w c = ground arith

-- How a case may leave its subprocess.
pub record LeftBy (c : Child) (ending : Ending) : Type 0 where
  pub log : c.log_open ≡ false
  pub sent : Escalated c.signals
  pub ended : (c.returncode ≢ none) ⊎ ((c.signals ≡ sigterm ∷ sigkill ∷ []) × (ending ≡ crashed))

stopped-LeftBy :
    (s : Stop) (c : Child) (try_ending checked : Ending)
    → c.signals ≡ []
    → LeftBy (stop_proxy s c) (after_stop (stop_proxy s c) try_ending checked)
stopped-LeftBy s c try_ending checked h = record {
  log = stop_proxy-log s c;
  sent = stop_proxy-Escalated s c h;
  ended = elim (Option-cases (stop_proxy s c).returncode) [
    | inl (code, e) ↦ inl (λ none_left. cc)
    | inr e ↦ inr (stop_proxy-signals s c h e, rw e refl)
  ];
}

-- If a case has started the proxy, then however the case ends the log is closed, the proxy got
-- no signals but SIGTERM and after it SIGKILL, and either it has ended, or it got both signals
-- and the case is no pass but crashes.
pub run_case-LeftBy :
    (t : Toolchain) (repo : Repo) (client_test : Text) (required_events : List Text) (w : CaseWorld)
    (c : Child)
    → (run_case t repo client_test required_events w).0 ≡ some c
    → LeftBy c (run_case t repo client_test required_events w).1
unfolding run_case
run_case-LeftBy t repo client_test required_events w c h = elim (Bool-cases w.starts) [
  | inl starts ↦
      let stopped = stop_proxy w.stop (wait_ready w.rounds started).0 in
      let e : stopped ≡ c = cc (rw starts at h) in
      rw (starts, ← e)
        (stopped-LeftBy w.stop (wait_ready w.rounds started).0
          (ready_ending (wait_ready w.rounds started).1
            (run_client_test t repo client_test w.executor))
          (assert_events_present w.log required_events) (wait_ready-signals w.rounds started))
  | inr fails ↦ cc (rw fails at h)
]

-- If a shutdown case has started the proxy, then however it ends the log is closed and the proxy
-- has ended.
pub check_graceful_shutdown-reap :
    (sig : Signal) (w : ShutdownWorld) (c : Child)
    → (check_graceful_shutdown sig w).0 ≡ some c
    → (c.log_open ≡ false) × (c.returncode ≢ none)
unfolding check_graceful_shutdown
check_graceful_shutdown-reap sig w c h = elim (Bool-cases w.starts) [
  | inl starts ↦
      let left = (signal_ready sig w (wait_ready w.rounds started)).0 in
      let e : reap w left ≡ c = cc (rw starts at h) in
      rw (← e) (reap-log w left, reap-returncode w left)
  | inr fails ↦ cc (rw fails at h)
]
