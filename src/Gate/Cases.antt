-- ===== src/Gate/Cases.antt =====
-- `wait_ready`, `run_client_test`, `assert_events_present`, `run_case` and `check_graceful_shutdown`.
use drift_mariadb_client.Base.{
  Bool, true, false, ◌&&◌, ◌||◌, Option, none, some, List, [], ◌∷◌, ◌++◌,
}
use drift_mariadb_client.Base.{Text, codes, Outcome, returned, raised, ◌==◌, text_eq, if◌then◌else◌}
use drift_mariadb_client.Base.Strings.{starts_with, strip_prefix}
use drift_mariadb_client.Plan.Source.{PlanError}
use drift_mariadb_client.Plan.Emit.{Repo}
use drift_mariadb_client.Plan.Gates.{emit_one}
use drift_mariadb_client.Gate.Process.{
  Code, is_success, Signal, sigkill, Child, poll, wait, send_signal, close_log, started, Stop,
  stop_proxy, Executor, run_plan,
}

-- The calls of `_fail`, and the exits of the plan emitter.
pub data Failure : Type 0 where
  no_toolchain_root no_executor : Failure
  build_failed : Option Code → Failure
  no_binary not_ready foreign_proxy no_exit_in_time : Failure
  client_failed : Option Code → Failure
  bad_exit : Code → Failure
  missing_events : List Text → Failure
  plan_error : PlanError → Failure

-- How a case ends; `crashed` by any other exception.
pub data Ending : Type 0 where
  passed crashed : Ending
  failed : Failure → Ending

-- The fields of a health reply.
pub record Health : Type 0 where
  pub ok : Bool
  pub data_listener : Option Text
  pub backend_listener : Option Text

-- What `control_request` does: it returns `None`, it raises for a line that is no JSON, or it replies.
pub data Reply : Type 0 where
  no_reply bad_reply : Reply
  reply : Health → Reply

abbrev pub data_address : Text
data_address = codes "127.0.0.1:45306"

abbrev pub backend_address : Text
backend_address = codes "127.0.0.1:34114"

abbrev pub same : Option Text → Text → Bool
same none want = false
same (some s) want = s == want

-- No mismatches.
abbrev pub is_ours : Health → Bool
is_ours h = same h.data_listener data_address && same h.backend_listener backend_address

-- A round of the loop that begins before the deadline.
pub record Round : Type 0 where
  pub polled : Option Code
  pub answer : Reply

pub data Ready : Type 0 where
  is_ready unready foreign broken : Ready

-- What a reply decides; `none` sleeps and goes on.
abbrev pub decide : Reply → Option Ready
decide no_reply = none
decide bad_reply = some broken
decide (reply h) = if h.ok then (if is_ours h then some is_ready else some foreign) else none

unfoldable pub wait_ready : List Round → Child → Child × Ready
unfolding text_eq
wait_ready [] c = (c, unready)
wait_ready (r ∷ rounds) c =
    let rest = wait_ready rounds (poll r.polled c) in
    elim (poll r.polled c).returncode [
      | some code ↦ (poll r.polled c, unready)
      | none ↦ elim (decide r.answer) [ none ↦ rest | some d ↦ (poll r.polled c, d) ]
    ]

-- `_require_toolchain`: the variable, and whether the executor is there.
pub record Toolchain : Type 0 where
  pub root : Option Text
  pub has_executor : Bool

unfoldable pub require_toolchain : Toolchain → Outcome Failure Bool
require_toolchain t = elim t.root [
  | none ↦ raised no_toolchain_root
  | some [] ↦ raised no_toolchain_root
  | some (c ∷ s) ↦ if t.has_executor then returned true else raised no_executor
]

-- The return code of the client test, or the exit of the emitter or of `_require_toolchain`.
unfoldable pub run_client_test : Toolchain → Repo → Text → Executor → Outcome Failure (Option Code)
unfolding require_toolchain emit_one run_plan
run_client_test t repo rel e = elim (require_toolchain t) [
  | raised f ↦ raised f
  | returned _ ↦ elim (emit_one repo rel) [
    | raised f ↦ raised (plan_error f)
    | returned plan ↦ returned (run_plan e).1
  ]
]

-- `needle in text`
unfoldable pub is_in : Text → Text → Bool
is_in needle [] = needle == []
is_in needle (c ∷ s) = starts_with (c ∷ s) needle || is_in needle s

-- `f'"ev":"{ev}"'`
abbrev pub event_mark : Text → Text
event_mark ev = codes "\"ev\":\"" ++ (ev ++ codes "\"")

unfoldable pub missing_in : Text → List Text → List Text
unfolding is_in text_eq strip_prefix
missing_in log [] = []
missing_in log (ev ∷ evs) =
    let rest = missing_in log evs in if is_in (event_mark ev) log then rest else ev ∷ rest

unfoldable pub assert_events_present : Text → List Text → Ending
unfolding missing_in
assert_events_present log evs = elim (missing_in log evs) [
  | [] ↦ passed
  | ev ∷ rest ↦ failed (missing_events (ev ∷ rest))
]

-- What one case meets: whether the binary starts, the rounds before the deadline, the executor of
-- the client test, the answers in `stop_proxy`, the log at the end.
pub record CaseWorld : Type 0 where
  pub starts : Bool
  pub rounds : List Round
  pub executor : Executor
  pub stop : Stop
  pub log : Text

abbrev pub client_ending : Outcome Failure (Option Code) → Ending
client_ending (raised f) = failed f
client_ending (returned none) = failed (client_failed none)
client_ending (returned (some code)) =
    if is_success code then passed else failed (client_failed (some code))

-- The `try` block from the answer of `wait_ready` on.
abbrev pub ready_ending : Ready → Outcome Failure (Option Code) → Ending
ready_ending is_ready client = client_ending client
ready_ending unready client = failed not_ready
ready_ending foreign client = failed foreign_proxy
ready_ending broken client = crashed

-- After the `finally` block: what it raises goes before what the `try` block raised.
abbrev pub after_stop : Child → Ending → Ending → Ending
after_stop c try_ending checked = elim c.returncode [
  | none ↦ crashed
  | some code ↦ elim try_ending [ passed ↦ checked | crashed ↦ crashed | failed f ↦ failed f ]
]

-- The subprocess at the end, if it was started, and how the case ends.
unfoldable pub run_case : Toolchain → Repo → Text → List Text → CaseWorld → Option Child × Ending
unfolding wait_ready run_client_test stop_proxy assert_events_present
run_case t repo client_test required_events w =
    let (c, ready) = wait_ready w.rounds started in
    let stopped = stop_proxy w.stop c in
    if w.starts
    then (
      some stopped,
      after_stop stopped (ready_ending ready (run_client_test t repo client_test w.executor))
          (assert_events_present w.log required_events),
    )
    else (none, crashed)

-- What a shutdown case meets.
pub record ShutdownWorld : Type 0 where
  pub starts : Bool
  pub rounds : List Round
  pub at_signal : Option Code
  pub in_time : Option Code
  pub at_kill : Option Code
  pub after_kill : Code
  pub at_end : Option Code
  pub at_last_kill : Option Code
  pub last : Code
  pub log : Text

-- The `try` block after the signal: an exit in time, or a kill.
abbrev pub await_exit : ShutdownWorld → Child → Child × Ending
await_exit w c = elim (poll w.in_time c).returncode [
  | some code ↦ (poll w.in_time c, if is_success code then passed else failed (bad_exit code))
  | none ↦
      (wait w.after_kill (send_signal sigkill w.at_kill (poll w.in_time c)), failed no_exit_in_time)
]

abbrev pub signal_ready : Signal → ShutdownWorld → Child × Ready → Child × Ending
signal_ready sig w (c, is_ready) = await_exit w (send_signal sig w.at_signal c)
signal_ready sig w (c, unready) = (c, failed not_ready)
signal_ready sig w (c, foreign) = (c, failed foreign_proxy)
signal_ready sig w (c, broken) = (c, crashed)

-- The `finally` block.
abbrev pub reap : ShutdownWorld → Child → Child
reap w c =
    let polled = poll w.at_end (close_log c) in
    elim polled.returncode [
      | some code ↦ polled
      | none ↦ wait w.last (send_signal sigkill w.at_last_kill polled)
    ]

abbrev pub required_shutdown_events : List Text
required_shutdown_events =
    codes "shutdown_signal"
    ∷ codes "accept_loop_stopped"
    ∷ codes "control_accept_loop_stopped"
    ∷ codes "proxy_shutdown_complete"
    ∷ []

unfoldable pub check_graceful_shutdown : Signal → ShutdownWorld → Option Child × Ending
unfolding wait_ready assert_events_present
check_graceful_shutdown sig w =
    let (c, ending) = signal_ready sig w (wait_ready w.rounds started) in
    if w.starts
    then (
      some (reap w c),
      elim ending [
        | passed ↦ assert_events_present w.log required_shutdown_events
        | crashed ↦ crashed
        | failed f ↦ failed f
      ],
    )
    else (none, crashed)
