-- ===== src/Plan/Suite/Serial.antt =====
-- The test gate's plan as a whole: the runs on the database are one sequence.
use drift_mariadb_client.Base.{
  ℕ, suc, ◌+◌, ◌*◌, ◌≡◌, refl, sym, ap, ◌∙◌, arith, List, [], ◌∷◌, ◌++◌, map,
}
use drift_mariadb_client.Base.{
  append-nil, append_assoc, Text, codes, returned, length, length-append, All, All-append,
  >>=-eq-returned,
}
use drift_mariadb_client.Plan.Source.{Emit, flat_each}
use drift_mariadb_client.Plan.Emit.{Repo, Job, Plan, serialize}
use drift_mariadb_client.Plan.Suite.{
  for_each, unit_root, live_artifact, Lane, lanes, lane_job, run_lane, run_lanes, phase, emit_tests,
}
use drift_mariadb_client.Plan.Suite.Needs.{
  IsRunOf, HasBuilds, units-UnitRuns, lives-LiveBuilds, lane_job-IsRunOf, IsRunOf-append_left,
  HasBuilds-append_right, All-map,
}

-- Jobs on the database, with consecutive orders.
abbrev pub numbered : ℕ → List Job → List Job
numbered n [] = []
numbered n (j ∷ js) = serialize j n ∷ numbered (suc n) js

-- Every test in the first lane, then every test in the next.
abbrev pub in_lanes : List Lane → List Text → List Job
in_lanes ls quals = flat_each (λ lane. map (lane_job lane) quals) ls

numbered-append :
    (n : ℕ) (js ks : List Job)
    → numbered n (js ++ ks) ≡ numbered n js ++ numbered (n + length js) ks
numbered-append n [] ks = let e : n + 0 ≡ n = omega arith in rw e
numbered-append n (j ∷ js) ks =
    let e : n + suc (length js) ≡ suc n + length js = omega arith in
    rw e (ap (λ t. serialize j n ∷ t) (numbered-append (suc n) js ks))

run_lane-numbered :
    (lane : Lane) (quals : List Text) (n : ℕ) (jobs : List Job)
    → run_lane lane quals (n, jobs)
      ≡ (n + length quals, jobs ++ numbered n (map (lane_job lane) quals))
unfolding run_lane
run_lane-numbered lane [] n jobs = let e : n + 0 ≡ n = omega arith in rw (e, append-nil)
run_lane-numbered lane (q ∷ qs) n jobs =
    let e : n + suc (length qs) ≡ n + 1 + length qs = omega arith in
    let next : suc n ≡ n + 1 = omega arith in
    rw (
      run_lane-numbered lane qs (n + 1) (jobs ++ (serialize (lane_job lane q) n ∷ [])),
      e,
      next,
      append_assoc,
    )

length-map_lane :
    (lane : Lane) (quals : List Text) → length (map (lane_job lane) quals) ≡ length quals
length-map_lane lane [] = refl
length-map_lane lane (q ∷ qs) = ap suc (length-map_lane lane qs)

run_lanes-numbered :
    (ls : List Lane) (quals : List Text) (n : ℕ) (jobs : List Job)
    → (run_lanes ls quals (n, jobs)).1 ≡ jobs ++ numbered n (in_lanes ls quals)
unfolding run_lanes
run_lanes-numbered [] quals n jobs = sym (append-nil jobs)
run_lanes-numbered (lane ∷ ls) quals n jobs =
    let here = map (lane_job lane) quals in
    ap (λ s. (run_lanes ls quals s).1) (run_lane-numbered lane quals n jobs)
    ∙ run_lanes-numbered ls quals (n + length quals) (jobs ++ numbered n here)
    ∙ rw (numbered-append n here (in_lanes ls quals), length-map_lane lane quals)
        (append_assoc jobs (numbered n here) _)

module _ (builds : List Job) where
  numbered-IsRunOf :
      (n : ℕ) (js : List Job) → All (IsRunOf builds) js → All (IsRunOf builds) (numbered n js)
  numbered-IsRunOf n [] h = tt
  numbered-IsRunOf n (j ∷ js) (h, hs) = (
    record {
      build_id = h.build_id;
      context = h.context;
      entry = h.entry;
      rel = h.rel;
      sanitize = h.sanitize;
      built = h.built;
      needs = h.needs;
      cmd = h.cmd;
      plain = h.plain;
    },
    numbered-IsRunOf (suc n) js hs,
  )

  lane-IsRunOf :
      (lane : Lane) (quals : List Text)
      → All (HasBuilds builds) quals
      → All (IsRunOf builds) (map (lane_job lane) quals)
  lane-IsRunOf lane [] h = tt
  lane-IsRunOf lane (q ∷ qs) (h, hs) = (lane_job-IsRunOf builds q lane h, lane-IsRunOf lane qs hs)

  in_lanes-IsRunOf :
      (ls : List Lane) (quals : List Text)
      → All (HasBuilds builds) quals
      → All (IsRunOf builds) (in_lanes ls quals)
  in_lanes-IsRunOf [] quals h = tt
  in_lanes-IsRunOf (lane ∷ ls) quals h =
      All-append _ (map (lane_job lane) quals) _ (lane-IsRunOf lane quals h)
        (in_lanes-IsRunOf ls quals h)

-- Builds, runs of the unit tests, and runs of the live tests one after the other, lane by lane.
-- Every run uses a binary that the plan builds; there are three runs for each two builds.
pub record IsTestPlan (plan : Plan) : Type 0 where
  pub builds : List Job
  pub unit_runs : List Job
  pub quals : List Text
  pub phases :
      plan.phases
      ≡ phase (codes "build") builds
        ∷ phase (codes "run-unit") unit_runs
        ∷ phase (codes "run-live") (numbered 0 (in_lanes lanes quals))
        ∷ []
  pub unit_built : All (IsRunOf builds) unit_runs
  pub live_built : All (IsRunOf builds) (numbered 0 (in_lanes lanes quals))
  pub count : 3 * length builds ≡ 2 * (length unit_runs + 3 * length quals)

phases_of :
    {made : Plan} (plan : Plan)
    → ◌≡◌ {A = Emit Plan} (returned made) (returned plan)
    → plan.phases ≡ made.phases
phases_of {made} plan h = let e : made ≡ plan = cc in rw e

-- A plan that the test gate emits, for any unit roots and any live tests, has the three phases;
-- every run needs the one build of the plan whose binary it starts, a valgrind run one without
-- the sanitizer; the live runs are all in the lane base, then all in asan, then all in memcheck,
-- on the database group with consecutive orders from 0; and there are three runs for each two
-- builds.
pub emit_tests-IsTestPlan :
    (repo : Repo) (roots : List (Text × Text)) (tests : List (Text × List Text)) (plan : Plan)
    → emit_tests repo roots tests ≡ returned plan
    → IsTestPlan plan
unfolding emit_tests
emit_tests-IsTestPlan repo roots tests plan h =
    let (unit, found, h') = >>=-eq-returned (for_each (unit_root repo) roots) _ h in
    let (live, found', made) = >>=-eq-returned (for_each (live_artifact repo) tests) _ h' in
    let u = units-UnitRuns repo roots unit found in
    let l = lives-LiveBuilds repo tests live found' in
    let builds = unit.0 ++ live.0 in
    let held = All-map _ _ (HasBuilds-append_right unit.0 live.0) live.1 l.builds in
    record {
      builds = builds;
      unit_runs = unit.1;
      quals = live.1;
      phases =
          phases_of plan made
          ∙ ap
              (λ js.
                phase (codes "build") builds
                ∷ phase (codes "run-unit") unit.1
                ∷ phase (codes "run-live") js
                ∷ [])
              (run_lanes-numbered lanes live.1 0 []);
      unit_built = All-map _ _ (IsRunOf-append_left unit.0 live.0) unit.1 u.runs;
      live_built =
          numbered-IsRunOf builds 0 (in_lanes lanes live.1)
            (in_lanes-IsRunOf builds lanes live.1 held);
      count = omega (arith, length-append unit.0 live.0, u.count, l.count);
    }
