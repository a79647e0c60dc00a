-- ===== src/Gate/Shutdown.antt =====
-- What it takes for a shutdown case to pass.
use drift_mariadb_client.Base.{
  zero, suc, ◌≡◌, refl, sym, ap, ◌∙◌, ◌⊎◌, inl, inr, arith, true, Option, none, some,
}
use drift_mariadb_client.Base.{List, [], ◌∷◌, Option-cases, Bool-cases, if◌then◌else◌}
use drift_mariadb_client.Gate.Process.{
  Code, exit_code, killed_by, is_success, Signal, Child, poll, send_signal, started,
}
use drift_mariadb_client.Gate.Cases.{
  Ending, passed, failed, bad_exit, no_exit_in_time, decide, Round, Ready, is_ready, unready,
  foreign, broken, wait_ready, missing_in, ShutdownWorld, await_exit, signal_ready,
  assert_events_present, required_shutdown_events, check_graceful_shutdown,
}
use drift_mariadb_client.Gate.Passing.{BecomesReady, wait_ready-BecomesReady, poll-alive}
use drift_mariadb_client.Gate.AllPass.{
  assert_events_present-none, none-assert_events_present, passed_then,
}

-- The proxy exits with 0: before the signal is sent, or after it and in time.
abbrev pub ExitsWell : ShutdownWorld → Type 0
ExitsWell w =
    (w.at_signal ≡ some (exit_code 0)) ⊎ ((w.at_signal ≡ none) × (w.in_time ≡ some (exit_code 0)))

abbrev pub ShutdownPasses : ShutdownWorld → Type 0
ShutdownPasses w =
    (w.starts ≡ true)
    × BecomesReady w.rounds
    × ExitsWell w
    × (missing_in w.log required_shutdown_events ≡ [])

wait_ready-alive :
    (rounds : List Round) (c : Child)
    → c.returncode ≡ none
    → (wait_ready rounds c).1 ≡ is_ready
    → (wait_ready rounds c).0.returncode ≡ none
unfolding wait_ready
wait_ready-alive [] c alive h = cc
wait_ready-alive (r ∷ rounds) c alive h =
    let polled = poll-alive r.polled c alive in
    elim (Option-cases r.polled) [
      | inl (code, e) ↦ cc (rw (wait_ready, polled, e) at h)
      | inr e ↦ elim (Option-cases (decide r.answer)) [
        | inl (d, made) ↦ rw (wait_ready, polled, e, made) (polled ∙ e)
        | inr later ↦
            rw (wait_ready, polled, e, later)
              (wait_ready-alive rounds (poll r.polled c) (polled ∙ e)
                (rw (wait_ready, polled, e, later) at h))
      ]
    ]

success-code :
    (code : Code)
    → (if is_success code then passed else failed (bad_exit code)) ≡ passed
    → code ≡ exit_code 0
success-code (exit_code zero) h = refl
success-code (exit_code (suc n)) h = cc
success-code (killed_by n) h = cc

-- What the wait for the exit comes to.
abbrev exit_ending : Option Code → Ending
exit_ending none = failed no_exit_in_time
exit_ending (some code) = if is_success code then passed else failed (bad_exit code)

await_exit-ended :
    (w : ShutdownWorld) (c : Child) (code : Code)
    → c.returncode ≡ some code
    → (await_exit w c).1 ≡ exit_ending (some code)
await_exit-ended w c code e = ground arith

await_exit-alive :
    (w : ShutdownWorld) (c : Child)
    → c.returncode ≡ none
    → (await_exit w c).1 ≡ exit_ending w.in_time
await_exit-alive w c e = ground arith

send_signal-answer :
    (sig : Signal) (answer : Option Code) (c : Child)
    → c.returncode ≡ none
    → (send_signal sig answer c).returncode ≡ answer
send_signal-answer sig answer c alive = ground arith

exit_ending-passed : (o : Option Code) → exit_ending o ≡ passed → o ≡ some (exit_code 0)
exit_ending-passed none h = cc
exit_ending-passed (some code) h = ap some (success-code code h)

await_exit-ExitsWell :
    (sig : Signal) (w : ShutdownWorld) (c : Child)
    → c.returncode ≡ none
    → (await_exit w (send_signal sig w.at_signal c)).1 ≡ passed
    → ExitsWell w
await_exit-ExitsWell sig w c alive h =
    let sent = send_signal sig w.at_signal c in
    let answered = send_signal-answer sig w.at_signal c alive in
    elim (Option-cases w.at_signal) [
      | inl (code, e) ↦ inl (
          e
          ∙ exit_ending-passed (some code) (sym (await_exit-ended w sent code (answered ∙ e)) ∙ h))
      | inr e ↦
          inr (e, exit_ending-passed w.in_time (sym (await_exit-alive w sent (answered ∙ e)) ∙ h))
    ]

ExitsWell-await_exit :
    (sig : Signal) (w : ShutdownWorld) (c : Child)
    → c.returncode ≡ none
    → ExitsWell w
    → (await_exit w (send_signal sig w.at_signal c)).1 ≡ passed
ExitsWell-await_exit sig w c alive (inl e) =
    await_exit-ended w (send_signal sig w.at_signal c) (exit_code 0)
      (send_signal-answer sig w.at_signal c alive ∙ e)
ExitsWell-await_exit sig w c alive (inr (e, f)) =
    await_exit-alive w (send_signal sig w.at_signal c)
      (send_signal-answer sig w.at_signal c alive ∙ e)
    ∙ ap exit_ending f

signal_ready-passed :
    (sig : Signal) (w : ShutdownWorld) (c : Child) (r : Ready)
    → (signal_ready sig w (c, r)).1 ≡ passed
    → (r ≡ is_ready) × ((await_exit w (send_signal sig w.at_signal c)).1 ≡ passed)
signal_ready-passed sig w c is_ready h = (refl, h)
signal_ready-passed sig w c unready h = cc
signal_ready-passed sig w c foreign h = cc
signal_ready-passed sig w c broken h = cc

pub check_graceful_shutdown-ShutdownPasses :
    (sig : Signal) (w : ShutdownWorld)
    → (check_graceful_shutdown sig w).1 ≡ passed
    → ShutdownPasses w
unfolding check_graceful_shutdown
check_graceful_shutdown-ShutdownPasses sig w h = elim (Bool-cases w.starts) [
  | inl starts ↦
      let waited = wait_ready w.rounds started in
      let (tried, logged) =
        passed_then (signal_ready sig w waited).1
          (assert_events_present w.log required_shutdown_events) (rw starts at h) in
      let (ready, exited) = signal_ready-passed sig w waited.0 waited.1 tried in
      let alive = wait_ready-alive w.rounds started refl ready in
      (
        starts,
        (wait_ready-BecomesReady w.rounds).0 ready,
        await_exit-ExitsWell sig w waited.0 alive exited,
        assert_events_present-none w.log required_shutdown_events logged,
      )
  | inr fails ↦ cc (rw fails at h)
]

pub ShutdownPasses-check_graceful_shutdown :
    (sig : Signal) (w : ShutdownWorld)
    → ShutdownPasses w
    → (check_graceful_shutdown sig w).1 ≡ passed
unfolding check_graceful_shutdown
ShutdownPasses-check_graceful_shutdown sig w (starts, becomes, exits_well, logged) =
    let waited = wait_ready w.rounds started in
    let ready = (wait_ready-BecomesReady w.rounds).1 becomes in
    let exited =
      ExitsWell-await_exit sig w waited.0 (wait_ready-alive w.rounds started refl ready)
        exits_well in
    rw (starts, ready, exited) (none-assert_events_present w.log required_shutdown_events logged)
