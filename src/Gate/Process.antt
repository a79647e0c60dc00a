-- ===== src/Gate/Process.antt =====
-- `subprocess.Popen` as the gate uses it, `_run_plan`, `start_proxy` and `stop_proxy`.
use drift_mariadb_client.Base.{ℕ, zero, Bool, true, false, Option, none, some, List, [], ◌∷◌, ◌++◌}

-- A return code: of an exit, or of a death by a signal, which Python gives as a negative number.
pub data Code : Type 0 where
  exit_code killed_by : ℕ → Code

-- `rc == 0`
abbrev pub is_success : Code → Bool
is_success (exit_code zero) = true
is_success _ = false

pub data Signal : Type 0 where
  sigterm sigint sigkill : Signal

-- A child process as its Popen object knows it, the signals that were sent to it, and its log.
pub record Child : Type 0 where
  pub returncode : Option Code
  pub signals : List Signal
  pub log_open : Bool

-- `poll()` and `wait(timeout=...)`: a code that is known stays; else the answer is what the system
-- says, `none` for a child that runs on, and for `TimeoutExpired`.
abbrev pub poll : Option Code → Child → Child
poll answer c = elim c.returncode [ some code ↦ c | none ↦ record c { returncode = answer } ]

-- `wait()`, which returns when the child has ended.
abbrev pub wait : Code → Child → Child
wait code c = poll (some code) c

-- Nothing is sent to a child that has ended; `send_signal` polls it before.
abbrev pub send_signal : Signal → Option Code → Child → Child
send_signal s answer c = elim (poll answer c).returncode [
  | some code ↦ poll answer c
  | none ↦ record (poll answer c) { signals = c.signals ++ (s ∷ []) }
]

abbrev pub close_log : Child → Child
close_log c = record c { log_open = false }

-- `start_proxy`, when the binary can be started.
abbrev pub started : Child
started = record { returncode = none; signals = []; log_open = true }

-- What the system answers in `stop_proxy`.
pub record Stop : Type 0 where
  pub polled : Option Code
  pub at_sigterm : Option Code
  pub in_grace : Option Code
  pub at_kill : Option Code
  pub after_kill : Option Code

-- The body of `except subprocess.TimeoutExpired`.
abbrev kill_after_grace : Stop → Child → Child
kill_after_grace s c = elim c.returncode [
  | some code ↦ c
  | none ↦ poll s.after_kill (send_signal sigkill s.at_kill c)
]

abbrev terminate : Stop → Child → Child
terminate s c = elim c.returncode [
  | some code ↦ c
  | none ↦ kill_after_grace s (poll s.in_grace (send_signal sigterm s.at_sigterm c))
]

-- A child without a return code afterwards: the last `wait` has raised `TimeoutExpired`.
unfoldable pub stop_proxy : Stop → Child → Child
stop_proxy s c = close_log (terminate s (poll s.polled c))

-- What the system answers in `_run_plan`.
pub record Executor : Type 0 where
  pub in_time : Option Code
  pub at_end : Code

-- The executor, and what `_run_plan` returns: `none` after a timeout. Its group gets the signal.
unfoldable pub run_plan : Executor → Child × Option Code
run_plan e =
    let child : Child = record { returncode = none; signals = []; log_open = false } in
    elim (poll e.in_time child).returncode [
      | some code ↦ (poll e.in_time child, some code)
      | none ↦ (wait e.at_end (record child { signals = sigkill ∷ [] }), none)
    ]
