-- ===== src/Perf/Compiled.antt =====
-- What `_compile_all` returns.
use drift_mariadb_client.Base.{
  ◌≡◌, ◌≢◌, refl, sym, ap, ◌∙◌, true, List, [], ◌∷◌, ◌++◌, map, Text, codes, text_eq, some, Outcome,
  returned, raised,
}
use drift_mariadb_client.Base.{All, >>=-eq-returned, Bool-cases, inl, inr}
use drift_mariadb_client.Base.Dict.{Dict, insert, lookup}
use drift_mariadb_client.Base.Order.{sort_by, text_le}
use drift_mariadb_client.Gate.Process.{is_success}
use drift_mariadb_client.Perf.Run.{
  Perf, compile_failed, Scenario, scenarios, join, CompileWorld, compile_cmd, start_all, wait_all,
  compile_all, module_of, version_of,
}

returned-injective {ℓ κ} :
    {X : Type ℓ} {A : Type κ} {a b : A} → ◌≡◌ {A = Outcome X A} (returned a) (returned b) → a ≡ b
returned-injective h = cc

abbrev named : Text → Text → Text × Text
named out_dir name = (name, join out_dir name)

module _ (w : CompileWorld) (driftc : Text) (versions : Dict Text Text) (out_dir : Text) where
  abbrev binary_of : Scenario → Text × Text
  binary_of s = named out_dir s.name

  compile_cmd-path :
      (s : Scenario) (r : List Text × Text)
      → compile_cmd w driftc versions s out_dir ≡ returned r
      → r.1 ≡ join out_dir s.name
  unfolding compile_cmd
  compile_cmd-path s r h =
      let (name, found, h1) = >>=-eq-returned (module_of s.file (w.source s.file)) _ h in
      let (rpc, found_rpc, h2) = >>=-eq-returned (version_of versions (codes "mariadb-rpc")) _ h1 in
      let (wire, found_wire, h3) =
        >>=-eq-returned (version_of versions (codes "mariadb-wire-proto")) _ h2 in
      let made = returned-injective h3 in sym (ap (λ (t : List Text × Text). t.1) made)

  start_all-binaries :
      (ss : List Scenario) (procs : List (Text × Text))
      → start_all w driftc versions out_dir ss ≡ returned procs
      → procs ≡ map binary_of ss
  unfolding start_all
  start_all-binaries [] procs h = cc
  start_all-binaries (s ∷ ss) procs h =
      let (started, made, h') = >>=-eq-returned (compile_cmd w driftc versions s out_dir) _ h in
      let (rest, later, done) = >>=-eq-returned (start_all w driftc versions out_dir ss) _ h' in
      let here = compile_cmd-path s started made in
      let all : (s.name, started.1) ∷ rest ≡ procs = returned-injective done in
      sym all ∙ rw (here, start_all-binaries ss rest later) refl

-- The dictionary has the binary of each scenario, and every compilation has exited with 0.
abbrev pub CompiledTo : CompileWorld → Text → Dict Text Text → Scenario → Type 0
CompiledTo w out_dir binaries s =
    (lookup s.name binaries ≡ some (join out_dir s.name)) × (is_success (w.compiled s.name) ≡ true)

abbrev binaries_or_failures : Dict Text Text × List Text → Perf (Dict Text Text)
binaries_or_failures (binaries, []) = returned binaries
binaries_or_failures (binaries, f ∷ fs) = raised (compile_failed (sort_by text_le (f ∷ fs)))

by_failures :
    (s : Dict Text Text × List Text)
    → elim s.1 as (λ _. Perf (Dict Text Text)) [
      | [] ↦ returned s.0
      | f ∷ fs ↦ raised (compile_failed (sort_by text_le (f ∷ fs)))
    ]
      ≡ binaries_or_failures s
by_failures (binaries, []) = refl
by_failures (binaries, f ∷ fs) = refl

-- A failure is not forgotten.
wait_all-ne :
    (w : CompileWorld) (procs : List (Text × Text)) (binaries out : Dict Text Text) (f : Text)
    (fs : List Text)
    → binaries_or_failures (wait_all w procs (binaries, f ∷ fs)) ≢ returned out
unfolding wait_all
wait_all-ne w [] binaries out f fs h = cc
wait_all-ne w ((name, bin_path) ∷ procs) binaries out f fs h =
    elim (Bool-cases (is_success (w.compiled name))) [
      | inl ok ↦
          wait_all-ne w procs (insert name bin_path binaries) out f fs (rw (wait_all, ok) at h)
      | inr bad ↦ wait_all-ne w procs binaries out f (fs ++ (name ∷ [])) (rw (wait_all, bad) at h)
    ]

wait_all-CompiledTo :
    (w : CompileWorld) (out_dir : Text) (binaries : Dict Text Text)
    → binaries_or_failures (wait_all w (map (binary_of w [] [] out_dir) scenarios) ([], []))
      ≡ returned binaries
    → All (CompiledTo w out_dir binaries) scenarios
unfolding wait_all insert lookup text_eq
wait_all-CompiledTo w out_dir binaries h =
    elim (Bool-cases (is_success (w.compiled (codes "rpc_single_result")))) [
      | inl a ↦ elim (Bool-cases (is_success (w.compiled (codes "rpc_multi_result")))) [
        | inl b ↦ elim (Bool-cases (is_success (w.compiled (codes "rpc_error")))) [
          | inl c ↦
              let made = returned-injective (rw (wait_all, a, b, c) at h) in
              rw (← made) ((refl, a), ((refl, b), ((refl, c), tt)))
          | inr c ↦ cc (rw (wait_all, a, b, c) at h)
        ]
        | inr b ↦ absurd (
            wait_all-ne w (named out_dir (codes "rpc_error") ∷ [])
              (named out_dir (codes "rpc_single_result") ∷ []) binaries (codes "rpc_multi_result")
              [] (rw (wait_all, a, b) at h))
      ]
      | inr a ↦ absurd (
          wait_all-ne w
            (named out_dir (codes "rpc_multi_result") ∷ named out_dir (codes "rpc_error") ∷ []) []
            binaries (codes "rpc_single_result") [] (rw (wait_all, a) at h))
    ]

-- If _compile_all returns, then every compilation has exited with 0, and the result has for each
-- scenario the path of its binary in the output directory.
pub compile_all-CompiledTo :
    (w : CompileWorld) (driftc : Text) (versions : Dict Text Text) (out_dir : Text)
    (binaries : Dict Text Text)
    → compile_all w driftc versions out_dir ≡ returned binaries
    → All (CompiledTo w out_dir binaries) scenarios
unfolding compile_all
compile_all-CompiledTo w driftc versions out_dir binaries h =
    let (procs, found, h') = >>=-eq-returned (start_all w driftc versions out_dir scenarios) _ h in
    let each = start_all-binaries w driftc versions out_dir scenarios procs found in
    let compiled = wait_all w procs ([], []) in
    let all = ap (λ ps. binaries_or_failures (wait_all w ps ([], []))) each in
    wait_all-CompiledTo w out_dir binaries (sym all ∙ (sym (by_failures compiled) ∙ h'))
