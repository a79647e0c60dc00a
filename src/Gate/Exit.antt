-- ===== src/Gate/Exit.antt =====
-- `main` of tools/proxy_gate_smoke.py exits with 0 exactly when all seven cases pass.
use drift_mariadb_client.Base.{◌≡◌, ◌↔◌, refl, List, [], ◌∷◌, Text, All}
use drift_mariadb_client.Plan.Emit.{Repo}
use drift_mariadb_client.Gate.Process.{Signal}
use drift_mariadb_client.Gate.Cases.{
  Ending, passed, crashed, failed, Toolchain, CaseWorld, run_case, ShutdownWorld,
  check_graceful_shutdown,
}
use drift_mariadb_client.Gate.Run.{
  build_proxy, cases, shutdown_signals, run_cases, check_shutdowns, GateWorld, and_then,
  exit_status, main,
}
use drift_mariadb_client.Gate.AllPass.{
  CasePasses, run_case-CasePasses, CasePasses-run_case, passed_then,
}
use drift_mariadb_client.Gate.Shutdown.{
  ShutdownPasses, check_graceful_shutdown-ShutdownPasses, ShutdownPasses-check_graceful_shutdown,
}

then_passed :
    (e b : Ending)
    → e ≡ passed
    → b ≡ passed
    → elim e as (λ _. Ending) [ passed ↦ b | crashed ↦ crashed | failed f ↦ failed f ] ≡ passed
then_passed e b h k = rw h k

module _ (t : Toolchain) (repo : Repo) (w : Text → CaseWorld) where
  run_cases-CasePasses :
      (cs : List (Text × List Text))
      → (run_cases t repo w cs ≡ passed) ↔ All (λ c. CasePasses t repo c (w c.0)) cs
  unfolding run_cases
  run_cases-CasePasses [] = ((λ _. tt), λ _. refl)
  run_cases-CasePasses (c ∷ cs) =
      let here = (run_case t repo c.0 c.1 (w c.0)).1 in
      let rest = run_cases-CasePasses cs in
      (
        λ h.
            let (first, later) = passed_then here (run_cases t repo w cs) h in
            (run_case-CasePasses t repo c (w c.0) first, rest.0 later),
        λ (h, hs).
            then_passed here (run_cases t repo w cs) (CasePasses-run_case t repo c (w c.0) h)
              (rest.1 hs),
      )

module _ (w : Signal → ShutdownWorld) where
  check_shutdowns-ShutdownPasses :
      (sigs : List Signal)
      → (check_shutdowns w sigs ≡ passed) ↔ All (λ sig. ShutdownPasses (w sig)) sigs
  unfolding check_shutdowns
  check_shutdowns-ShutdownPasses [] = ((λ _. tt), λ _. refl)
  check_shutdowns-ShutdownPasses (sig ∷ sigs) =
      let here = (check_graceful_shutdown sig (w sig)).1 in
      let rest = check_shutdowns-ShutdownPasses sigs in
      (
        λ h.
            let (first, later) = passed_then here (check_shutdowns w sigs) h in
            (check_graceful_shutdown-ShutdownPasses sig (w sig) first, rest.0 later),
        λ (h, hs).
            then_passed here (check_shutdowns w sigs)
              (ShutdownPasses-check_graceful_shutdown sig (w sig) h) (rest.1 hs),
      )

-- The proxy is built, and all cases pass.
abbrev pub AllPass : GateWorld → Type 0
AllPass w =
    (build_proxy w.toolchain w.repo w.build w.has_binary ≡ passed)
    × All (λ c. CasePasses w.toolchain w.repo c (w.at_case c.0)) cases
    × All (λ sig. ShutdownPasses (w.at_signal sig)) shutdown_signals

exit_status-passed : (e : Ending) → exit_status e ≡ 0 → e ≡ passed
exit_status-passed passed h = refl
exit_status-passed crashed h = cc
exit_status-passed (failed f) h = cc

and_then-passed : (a b : Ending) → and_then a b ≡ passed → (a ≡ passed) × (b ≡ passed)
and_then-passed passed b h = (refl, h)
and_then-passed crashed b h = cc
and_then-passed (failed f) b h = cc

-- The proxy gate exits with 0 exactly when the proxy is built and every case passes: in each
-- case the proxy starts and becomes ready, the client test returns 0 and the proxy is stopped,
-- or it exits with 0 at the signal and in time or before the signal; and its log has every
-- required event.
pub main-AllPass : (w : GateWorld) → (main w ≡ 0) ↔ AllPass w
unfolding main
main-AllPass w =
    let built = build_proxy w.toolchain w.repo w.build w.has_binary in
    let ran = run_cases w.toolchain w.repo w.at_case cases in
    let shut = check_shutdowns w.at_signal shutdown_signals in
    let gate = run_cases-CasePasses w.toolchain w.repo w.at_case cases in
    let down = check_shutdowns-ShutdownPasses w.at_signal shutdown_signals in
    (
      λ h.
          let (b, h') = and_then-passed built (and_then ran shut) (exit_status-passed _ h) in
          let (r, s) = and_then-passed ran shut h' in (b, gate.0 r, down.0 s),
      λ (b, r, s). rw (b, gate.1 r, down.1 s) refl,
    )
