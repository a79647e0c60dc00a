-- ===== src/Plan/Suite/Needs.antt =====
-- Every run of the test gate has its build in the plan.
use drift_mariadb_client.Base.{◌*◌, ◌≡◌, refl, arith, Bool, true, false, none}
use drift_mariadb_client.Base.{◌⊎◌, inl, inr, List, [], ◌∷◌, ◌++◌, Text, codes, returned, ◌>>=◌}
use drift_mariadb_client.Base.{length, length-append, All, All-append, >>=-eq-returned}
use drift_mariadb_client.Plan.Source.{Emit, is_test_entry, module_of, basename, test_files}
use drift_mariadb_client.Plan.Emit.{Repo, Context, Job, in_work, src_build, tagged, build_context}
use drift_mariadb_client.Plan.Suite.{
  main_of, both_builds, run_base, run_memcheck, run_asan, Appends, for_each, unit_entry, unit_jobs,
  unit_root, live_entry, live_jobs, live_artifact, Lane, base, asan, memcheck, lane_job,
}

abbrev pub Member : Job → List Job → Type 0
Member x [] = ⊥
Member x (y ∷ ys) = (x ≡ y) ⊎ Member x ys

Member-append_left : (x : Job) (ys zs : List Job) → Member x ys → Member x (ys ++ zs)
Member-append_left x [] zs m = absurd m
Member-append_left x (y ∷ ys) zs (inl e) = inl e
Member-append_left x (y ∷ ys) zs (inr m) = inr (Member-append_left x ys zs m)

Member-append_right : (x : Job) (ys zs : List Job) → Member x zs → Member x (ys ++ zs)
Member-append_right x [] zs m = m
Member-append_right x (y ∷ ys) zs m = inr (Member-append_right x ys zs m)

-- The run's binary is the output of the one build that it needs, and under valgrind that is a build
-- without the sanitizer.
pub record IsRunOf (builds : List Job) (j : Job) : Type 0 where
  pub build_id : Text
  pub context : Context
  pub entry : Text
  pub rel : Text
  pub sanitize : Bool
  pub built : Member (src_build build_id context entry rel sanitize) builds
  pub needs : j.needs ≡ build_id ∷ []
  pub cmd : j.cmd ≡ in_work build_id ∷ []
  pub plain : (j.wrap ≡ none) ⊎ (sanitize ≡ false)

module _ (left right : List Job) where
  pub IsRunOf-append_left : (j : Job) → IsRunOf left j → IsRunOf (left ++ right) j
  IsRunOf-append_left j r = record {
    build_id = r.build_id;
    context = r.context;
    entry = r.entry;
    rel = r.rel;
    sanitize = r.sanitize;
    built = Member-append_left _ left right r.built;
    needs = r.needs;
    cmd = r.cmd;
    plain = r.plain;
  }

  IsRunOf-append_right : (j : Job) → IsRunOf right j → IsRunOf (left ++ right) j
  IsRunOf-append_right j r = record {
    build_id = r.build_id;
    context = r.context;
    entry = r.entry;
    rel = r.rel;
    sanitize = r.sanitize;
    built = Member-append_right _ left right r.built;
    needs = r.needs;
    cmd = r.cmd;
    plain = r.plain;
  }

pub All-map {ℓ κ} :
    {A : Type ℓ} (P Q : A → Type κ) → ((x : A) → P x → Q x) → (xs : List A) → All P xs → All Q xs
All-map P Q f [] h = tt
All-map P Q f (x ∷ xs) (h, hs) = (f x h, All-map P Q f xs hs)

-- A property of what loops append that each round has.
module _ {ℓ κ} {A : Type ℓ} {B : Type 0} (P : Appends B → Type κ) where
  abbrev append_rest : (A → Emit (Appends B)) → List A → Appends B → Emit (Appends B)
  append_rest f xs first = for_each f xs >>= λ rest. returned (first.0 ++ rest.0, first.1 ++ rest.1)

  pub for_each-inv :
      (f : A → Emit (Appends B))
      → P ([], [])
      → ((a b : Appends B) → P a → P b → P (a.0 ++ b.0, a.1 ++ b.1))
      → ((x : A) (r : Appends B) → f x ≡ returned r → P r)
      → (xs : List A) (r : Appends B) → for_each f xs ≡ returned r
      → P r
  unfolding for_each
  for_each-inv f empty join step [] r h = let e : ([], []) ≡ r = cc in rw (← e) empty
  for_each-inv f empty join step (x ∷ xs) r h =
      let (first, here, more) = >>=-eq-returned (f x) (append_rest f xs) h in
      let (rest, there, whole) =
        >>=-eq-returned (for_each f xs) (λ rest. returned (first.0 ++ rest.0, first.1 ++ rest.1))
          more in
      let e : (first.0 ++ rest.0, first.1 ++ rest.1) ≡ r = cc in
      rw (← e) (join first rest (step x first here) (for_each-inv f empty join step xs rest there))

-- The two builds of a test, whichever list they stand in.
pub record HasBuilds (builds : List Job) (qual : Text) : Type 0 where
  pub context : Context
  pub entry : Text
  pub rel : Text
  pub built : All (λ b. Member b builds) (both_builds qual context entry rel)

pub lane_job-IsRunOf :
    (builds : List Job) (qual : Text) (lane : Lane)
    → HasBuilds builds qual
    → IsRunOf builds (lane_job lane qual)
lane_job-IsRunOf builds qual base h = record {
  build_id = tagged qual (codes "base");
  context = h.context;
  entry = h.entry;
  rel = h.rel;
  sanitize = false;
  built = h.built.0;
  needs = refl;
  cmd = refl;
  plain = inl refl;
}
lane_job-IsRunOf builds qual memcheck h = record {
  build_id = tagged qual (codes "base");
  context = h.context;
  entry = h.entry;
  rel = h.rel;
  sanitize = false;
  built = h.built.0;
  needs = refl;
  cmd = refl;
  plain = inr refl;
}
lane_job-IsRunOf builds qual asan h = record {
  build_id = tagged qual (codes "asan");
  context = h.context;
  entry = h.entry;
  rel = h.rel;
  sanitize = true;
  built = h.built.1.0;
  needs = refl;
  cmd = refl;
  plain = inl refl;
}

HasBuilds-both :
    (qual : Text) (context : Context) (entry rel : Text)
    → HasBuilds (both_builds qual context entry rel) qual
HasBuilds-both qual context entry rel = record {
  context = context;
  entry = entry;
  rel = rel;
  built = (inl refl, (inr (inl refl), tt));
}

module _ (left right : List Job) where
  HasBuilds-append_left : (qual : Text) → HasBuilds left qual → HasBuilds (left ++ right) qual
  HasBuilds-append_left qual h = record {
    context = h.context;
    entry = h.entry;
    rel = h.rel;
    built =
        All-map _ _ (λ b m. Member-append_left b left right m)
          (both_builds qual h.context h.entry h.rel) h.built;
  }

  pub HasBuilds-append_right : (qual : Text) → HasBuilds right qual → HasBuilds (left ++ right) qual
  HasBuilds-append_right qual h = record {
    context = h.context;
    entry = h.entry;
    rel = h.rel;
    built =
        All-map _ _ (λ b m. Member-append_right b left right m)
          (both_builds qual h.context h.entry h.rel) h.built;
  }

-- Three runs for each two builds, and each run has its build.
pub record UnitRuns (r : Appends Job) : Type 0 where
  pub runs : All (IsRunOf r.0) r.1
  pub count : 3 * length r.0 ≡ 2 * length r.1

pub record LiveBuilds (r : Appends Text) : Type 0 where
  pub builds : All (HasBuilds r.0) r.1
  pub count : length r.0 ≡ 2 * length r.1

UnitRuns-append : (a b : Appends Job) → UnitRuns a → UnitRuns b → UnitRuns (a.0 ++ b.0, a.1 ++ b.1)
UnitRuns-append a b p q = record {
  runs =
      All-append _ a.1 b.1 (All-map _ _ (IsRunOf-append_left a.0 b.0) a.1 p.runs)
        (All-map _ _ (IsRunOf-append_right a.0 b.0) b.1 q.runs);
  count = omega (arith, length-append a.0 b.0, length-append a.1 b.1, p.count, q.count);
}

LiveBuilds-append :
    (a b : Appends Text) → LiveBuilds a → LiveBuilds b → LiveBuilds (a.0 ++ b.0, a.1 ++ b.1)
LiveBuilds-append a b p q = record {
  builds =
      All-append _ a.1 b.1 (All-map _ _ (HasBuilds-append_left a.0 b.0) a.1 p.builds)
        (All-map _ _ (HasBuilds-append_right a.0 b.0) b.1 q.builds);
  count = omega (arith, length-append a.0 b.0, length-append a.1 b.1, p.count, q.count);
}

unit_entry-UnitRuns :
    (repo : Repo) (context : Context) (qual rel : Text) (entry : Bool) (r : Appends Job)
    → unit_entry repo context qual rel entry ≡ returned r
    → UnitRuns r
unfolding unit_entry
unit_entry-UnitRuns repo context qual rel false r h =
    let e : ([], []) ≡ r = cc in rw (← e) (record { runs = tt; count = refl })
unit_entry-UnitRuns repo context qual rel true r h =
    let (name, found, e) =
      >>=-eq-returned (module_of repo.tree rel)
        (λ name. returned (
          both_builds qual context (main_of name) rel,
          run_base qual ∷ run_memcheck qual ∷ run_asan qual ∷ [],
        ))
        h in
    let builds = HasBuilds-both qual context (main_of name) rel in
    let appended : (
      both_builds qual context (main_of name) rel,
      run_base qual ∷ run_memcheck qual ∷ run_asan qual ∷ [],
    )
        ≡ r =
      cc in
    rw (← appended) (record {
      runs = (
        lane_job-IsRunOf _ qual base builds,
        (lane_job-IsRunOf _ qual memcheck builds, (lane_job-IsRunOf _ qual asan builds, tt)),
      );
      count = refl;
    })

live_entry-LiveBuilds :
    (repo : Repo) (context : Context) (qual rel : Text) (entry : Bool) (r : Appends Text)
    → live_entry repo context qual rel entry ≡ returned r
    → LiveBuilds r
unfolding live_entry
live_entry-LiveBuilds repo context qual rel false r h = cc
live_entry-LiveBuilds repo context qual rel true r h =
    let (name, found, e) =
      >>=-eq-returned (module_of repo.tree rel)
        (λ name. returned (both_builds qual context (main_of name) rel, qual ∷ [])) h in
    let appended : (both_builds qual context (main_of name) rel, qual ∷ []) ≡ r = cc in
    rw (← appended)
      (record { builds = (HasBuilds-both qual context (main_of name) rel, tt); count = refl })

unit_root-UnitRuns :
    (repo : Repo) (root : Text × Text) (r : Appends Job)
    → unit_root repo root ≡ returned r
    → UnitRuns r
unfolding unit_root unit_jobs
unit_root-UnitRuns repo (artifact, root) r h =
    let (context, found, e) = >>=-eq-returned (build_context repo artifact) _ h in
    for_each-inv UnitRuns (unit_jobs repo context artifact (basename root))
      (record { runs = tt; count = refl }) UnitRuns-append
      (λ rel s made.
        let (entry, asked, e) = >>=-eq-returned (is_test_entry repo.tree rel) _ made in
        unit_entry-UnitRuns repo context _ rel entry s e)
      (test_files repo.tree root) r e

live_artifact-LiveBuilds :
    (repo : Repo) (tests : Text × List Text) (r : Appends Text)
    → live_artifact repo tests ≡ returned r
    → LiveBuilds r
unfolding live_artifact live_jobs
live_artifact-LiveBuilds repo (artifact, files) r h =
    let (context, found, e) = >>=-eq-returned (build_context repo artifact) _ h in
    for_each-inv LiveBuilds (live_jobs repo context artifact) (record { builds = tt; count = refl })
      LiveBuilds-append
      (λ rel s made.
        let (entry, asked, e) = >>=-eq-returned (is_test_entry repo.tree rel) _ made in
        live_entry-LiveBuilds repo context _ rel entry s e)
      files r e

pub units-UnitRuns :
    (repo : Repo) (roots : List (Text × Text)) (r : Appends Job)
    → for_each (unit_root repo) roots ≡ returned r
    → UnitRuns r
units-UnitRuns repo roots r h =
    for_each-inv UnitRuns (unit_root repo) (record { runs = tt; count = refl }) UnitRuns-append
      (unit_root-UnitRuns repo) roots r h

pub lives-LiveBuilds :
    (repo : Repo) (tests : List (Text × List Text)) (r : Appends Text)
    → for_each (live_artifact repo) tests ≡ returned r
    → LiveBuilds r
lives-LiveBuilds repo tests r h =
    for_each-inv LiveBuilds (live_artifact repo) (record { builds = tt; count = refl })
      LiveBuilds-append (live_artifact-LiveBuilds repo) tests r h
