-- ===== src/Gate/AllPass.antt =====
-- What it takes for a case with a client test to pass.
use drift_mariadb_client.Base.{zero, suc, ◌≡◌, ◌≢◌, refl, ◌∙◌, inl, inr, true, Option, none, some}
use drift_mariadb_client.Base.{
  List, [], ◌∷◌, Text, Outcome, returned, raised, Option-cases, Bool-cases,
}
use drift_mariadb_client.Plan.Emit.{Repo}
use drift_mariadb_client.Gate.Process.{Code, exit_code, killed_by, Child, started, stop_proxy}
use drift_mariadb_client.Gate.Cases.{
  Failure, Ending, passed, crashed, failed, missing_events, Ready, is_ready, unready, foreign,
  broken, wait_ready, Toolchain, run_client_test, missing_in, CaseWorld, run_case, after_stop,
  ready_ending, client_ending, assert_events_present,
}
use drift_mariadb_client.Gate.Passing.{BecomesReady, wait_ready-BecomesReady}

-- The proxy becomes ready, the client test returns 0, the proxy is stopped, and its log has the events.
abbrev pub CasePasses : Toolchain → Repo → Text × List Text → CaseWorld → Type 0
CasePasses t repo (client_test, required_events) w =
    (w.starts ≡ true)
    × BecomesReady w.rounds
    × (run_client_test t repo client_test w.executor ≡ returned (some (exit_code 0)))
    × ((stop_proxy w.stop (wait_ready w.rounds started).0).returncode ≢ none)
    × (missing_in w.log required_events ≡ [])

pub assert_events_present-none :
    (log : Text) (evs : List Text)
    → assert_events_present log evs ≡ passed
    → missing_in log evs ≡ []
unfolding assert_events_present
assert_events_present-none log evs h = by_missing (missing_in log evs) refl h
  where
    by_missing :
        (ms : List Text)
        → missing_in log evs ≡ ms
        → elim ms as (λ _. Ending) [ [] ↦ passed | ev ∷ rest ↦ failed (missing_events (ev ∷ rest)) ]
          ≡ passed
        → missing_in log evs ≡ []
    by_missing [] e h = e
    by_missing (m ∷ ms) e h = cc

pub none-assert_events_present :
    (log : Text) (evs : List Text)
    → missing_in log evs ≡ []
    → assert_events_present log evs ≡ passed
unfolding assert_events_present
none-assert_events_present log evs e = rw (assert_events_present, e) refl

client_ending-passed :
    (o : Outcome Failure (Option Code))
    → client_ending o ≡ passed
    → o ≡ returned (some (exit_code 0))
client_ending-passed (raised f) h = cc
client_ending-passed (returned none) h = cc
client_ending-passed (returned (some (exit_code zero))) h = refl
client_ending-passed (returned (some (exit_code (suc n)))) h = cc
client_ending-passed (returned (some (killed_by n))) h = cc

ready_ending-passed :
    (r : Ready) (o : Outcome Failure (Option Code))
    → ready_ending r o ≡ passed
    → (r ≡ is_ready) × (o ≡ returned (some (exit_code 0)))
ready_ending-passed is_ready o h = (refl, client_ending-passed o h)
ready_ending-passed unready o h = cc
ready_ending-passed foreign o h = cc
ready_ending-passed broken o h = cc

after_stop-passed :
    (c : Child) (a b : Ending)
    → after_stop c a b ≡ passed
    → (c.returncode ≢ none) × (a ≡ passed) × (b ≡ passed)
after_stop-passed c passed b h = elim (Option-cases c.returncode) [
  | inl (code, e) ↦ ((λ x. cc), refl, rw e at h)
  | inr e ↦ cc (rw e at h)
]
after_stop-passed c crashed b h = elim (Option-cases c.returncode) [
  | inl (code, e) ↦ cc (rw e at h)
  | inr e ↦ cc (rw e at h)
]
after_stop-passed c (failed f) b h = elim (Option-cases c.returncode) [
  | inl (code, e) ↦ cc (rw e at h)
  | inr e ↦ cc (rw e at h)
]

after_stop-ended : (c : Child) (b : Ending) → c.returncode ≢ none → after_stop c passed b ≡ b
after_stop-ended c b h = elim (Option-cases c.returncode) [
  | inl (code, e) ↦ rw e refl
  | inr e ↦ absurd (h e)
]

module _ (t : Toolchain) (repo : Repo) where
  pub run_case-CasePasses :
      (c : Text × List Text) (w : CaseWorld)
      → (run_case t repo c.0 c.1 w).1 ≡ passed
      → CasePasses t repo c w
  unfolding run_case
  run_case-CasePasses c w h = elim (Bool-cases w.starts) [
    | inl starts ↦
        let (stopped, tried, logged) =
          after_stop-passed (stop_proxy w.stop (wait_ready w.rounds started).0)
            (ready_ending (wait_ready w.rounds started).1 (run_client_test t repo c.0 w.executor))
            (assert_events_present w.log c.1) (rw starts at h) in
        let (ready, ran) = ready_ending-passed (wait_ready w.rounds started).1 _ tried in
        (
          starts,
          (wait_ready-BecomesReady w.rounds).0 ready,
          ran,
          stopped,
          assert_events_present-none w.log c.1 logged,
        )
    | inr fails ↦ cc (rw fails at h)
  ]

  pub CasePasses-run_case :
      (c : Text × List Text) (w : CaseWorld)
      → CasePasses t repo c w
      → (run_case t repo c.0 c.1 w).1 ≡ passed
  unfolding run_case
  CasePasses-run_case c w (starts, ready, ran, stopped, logged) =
      rw (starts, (wait_ready-BecomesReady w.rounds).1 ready, ran)
        (after_stop-ended (stop_proxy w.stop (wait_ready w.rounds started).0)
            (assert_events_present w.log c.1) stopped
          ∙ none-assert_events_present w.log c.1 logged)

-- Every path but the first of the `try` block raises.
pub passed_then :
    (e b : Ending)
    → elim e as (λ _. Ending) [ passed ↦ b | crashed ↦ crashed | failed f ↦ failed f ] ≡ passed
    → (e ≡ passed) × (b ≡ passed)
passed_then passed b h = (refl, h)
passed_then crashed b h = cc
passed_then (failed f) b h = cc
