-- ===== src/Sql/Twice.antt =====
-- What tools/write_scenario_sql.py leaves of a run directory, and what it does the second time.
use drift_mariadb_client.Base.{ℕ, ◌≡◌, refl, sym, ap, ◌∙◌, ◌⊎◌, inl, inr, Option, none, some}
use drift_mariadb_client.Base.{List, ◌∷◌, Text, text_eq, returned, All}
use drift_mariadb_client.Base.{Option-cases, >>=-eq-returned}
use drift_mariadb_client.Base.Dict.{lookup}
use mathlib.Core.Path.{subst}
use drift_mariadb_client.Sql.{
  Disk, Manifest, PacketDir, or_default, sql_path, source_target, render_sql, queries_of, write_all,
  write_run, process_run_dir,
}
use drift_mariadb_client.Sql.Targets.{
  Among, Left, write_all-Left, rewrites, write_all_again, write_all_others,
}

-- The targets and the transcript of a run directory.
abbrev pub targets_of : PacketDir → Manifest → List Text
targets_of run_dir manifest = sql_path run_dir.path ∷ source_target manifest.source_run_dir

abbrev pub transcript_of : PacketDir → Manifest → List Text → Text
transcript_of run_dir manifest queries =
    render_sql (or_default manifest.scenario run_dir.parent_name)
      (or_default manifest.run_id run_dir.name) queries

-- Whatever a run over a directory does, it either finds no files or reads them all.
process_cases :
    (run_dir : PacketDir) (disk : Disk) (r : ℕ × ℕ × Disk)
    → process_run_dir run_dir disk ≡ returned r
    → ((run_dir.files ≡ none) × (r ≡ (0, 0, disk)))
      ⊎ ((found : Manifest × List (Option Text)) × (queries : List Text) × (run_dir.files
            ≡ some found)
          × (queries_of found.1 ≡ returned queries)
          × (r ≡ write_run run_dir found.0 queries disk))
unfolding process_run_dir
process_cases run_dir disk r h = elim (Option-cases run_dir.files) [
  | inl (found, e) ↦
      let (queries, read, done) =
        >>=-eq-returned (queries_of found.1)
          (λ queries. returned (write_run run_dir found.0 queries disk))
          (rw (e, process_run_dir) at h) in
      inr (found, queries, e, read, cc)
  | inr e ↦ inl (e, cc (rw (e, process_run_dir) at h))
]

pub write_run-process :
    (run_dir : PacketDir) (disk : Disk) (found : Manifest × List (Option Text))
    (queries : List Text)
    → run_dir.files ≡ some found
    → queries_of found.1 ≡ returned queries
    → process_run_dir run_dir disk ≡ returned (write_run run_dir found.0 queries disk)
unfolding process_run_dir write_run
write_run-process run_dir disk found queries e read = rw (e, process_run_dir, read)

process_absent :
    (run_dir : PacketDir) (disk : Disk)
    → run_dir.files ≡ none
    → process_run_dir run_dir disk ≡ returned (0, 0, disk)
unfolding process_run_dir
process_absent run_dir disk e = rw e

-- How many files a further run writes.
abbrev pub rewritten : PacketDir → Manifest → List Text → ℕ
rewritten run_dir manifest queries =
    rewrites (transcript_of run_dir manifest queries) (targets_of run_dir manifest)

write_run_twice :
    (run_dir : PacketDir) (manifest : Manifest) (queries : List Text) (disk : Disk)
    → let disk' = (write_run run_dir manifest queries disk).2 in
      write_run run_dir manifest queries disk' ≡ (1, rewritten run_dir manifest queries, disk')
unfolding write_run
write_run_twice run_dir manifest queries disk =
    let content = transcript_of run_dir manifest queries in
    let ts = targets_of run_dir manifest in
    rw (
      write_all_again content ts disk (write_all ts content disk).1
        (write_all-Left content ts disk))

again :
    (run_dir : PacketDir) (manifest : Manifest) (queries : List Text) (disk : Disk)
    {scanned writes : ℕ} {disk' : Disk}
    → ◌≡◌ {A = ℕ × ℕ × Disk} (scanned, writes, disk') (write_run run_dir manifest queries disk)
    → write_run run_dir manifest queries disk'
      ≡ (scanned, rewritten run_dir manifest queries, disk')
unfolding write_run
again run_dir manifest queries disk done =
    let counted = ap (λ (t : ℕ × ℕ × Disk). t.0) done in
    let left = ap (λ (t : ℕ × ℕ × Disk). t.2) done in
    rw (counted, left) (write_run_twice run_dir manifest queries disk)

-- A further run over a directory: with the files that it read, or without any.
abbrev pub RunsAgain : PacketDir → ℕ → Disk → Type 0
RunsAgain run_dir scanned disk =
    ((run_dir.files ≡ none) × (process_run_dir run_dir disk ≡ returned (scanned, 0, disk)))
    ⊎ ((found : Manifest × List (Option Text)) × (queries : List Text) × (run_dir.files
          ≡ some found)
        × (queries_of found.1 ≡ returned queries)
        × (process_run_dir run_dir disk
            ≡ returned (scanned, rewritten run_dir found.0 queries, disk)))

-- When processing a run directory has returned, processing it again scans as many runs and
-- leaves the disk as it is, and it writes no file where there are no fixture files or the
-- transcript has no carriage return, and else writes each target again.
pub process_run_dir_twice :
    (run_dir : PacketDir) (disk disk' : Disk) (scanned writes : ℕ)
    → process_run_dir run_dir disk ≡ returned (scanned, writes, disk')
    → RunsAgain run_dir scanned disk'
process_run_dir_twice run_dir disk disk' scanned writes h =
    elim (process_cases run_dir disk (scanned, writes, disk') h) [
      | inl (absent, e) ↦
          let nothing : scanned ≡ 0 = ap (λ (t : ℕ × ℕ × Disk). t.0) e in
          inl (absent, process_absent run_dir disk' absent ∙ rw nothing refl)
      | inr (found, queries, e, read, done) ↦ inr (
        found,
        queries,
        e,
        read,
        write_run-process run_dir disk' found queries e read
            ∙ ap returned (again run_dir found.0 queries disk done),
      )
    ]

-- What a run that read its files leaves, and what it leaves of the file `other`.
abbrev pub Wrote : PacketDir → Disk → Disk → Text → Type 0
Wrote run_dir before after other =
    (found : Manifest × List (Option Text)) × (queries : List Text) × (run_dir.files ≡ some found)
    × (queries_of found.1 ≡ returned queries)
    × All (Left (transcript_of run_dir found.0 queries) before after) (targets_of run_dir found.0)
    × (Among other (targets_of run_dir found.0) ⊎ (lookup other after ≡ lookup other before))

-- Processing a run directory, when it returns, either finds no fixture files and changes
-- nothing, or leaves in each of its targets the transcript of the queries, or leaves the target
-- as it was where Python reads it as that transcript; any file is then a target or is as it was.
pub process_run_dir-Wrote :
    (run_dir : PacketDir) (before after : Disk) (scanned writes : ℕ) (other : Text)
    → process_run_dir run_dir before ≡ returned (scanned, writes, after)
    → ((run_dir.files ≡ none) × (after ≡ before)) ⊎ Wrote run_dir before after other
unfolding write_run
process_run_dir-Wrote run_dir before after scanned writes other h =
    elim (process_cases run_dir before (scanned, writes, after) h) [
      | inl (absent, e) ↦ inl (absent, ap (λ (t : ℕ × ℕ × Disk). t.2) e)
      | inr (found, queries, e, read, done) ↦
          let content = transcript_of run_dir found.0 queries in
          let ts = targets_of run_dir found.0 in
          let end : (write_all ts content before).1 ≡ after =
            sym (ap (λ (t : ℕ × ℕ × Disk). t.2) done) in
          inr (
            found,
            queries,
            e,
            read,
            subst (λ d. All (Left content before d) ts) end (write_all-Left content ts before),
            subst (λ d. Among other ts ⊎ (lookup other d ≡ lookup other before)) end
                (write_all_others content ts other before),
          )
    ]
