-- ===== src/Sql/Targets.antt =====
-- `write_if_changed` of tools/write_scenario_sql.py over the targets of a run directory.
use drift_mariadb_client.Base.{
  ℕ, ◌≡◌, ◌≢◌, refl, sym, ap, ◌∙◌, ◌⊎◌, arith, false, inl, inr, Option, some,
}
use drift_mariadb_client.Base.{List, [], ◌∷◌, Text, text_eq, All}
use drift_mariadb_client.Base.{◌==◌, if◌then◌else◌, length, Bool-cases, Option-cases}
use drift_mariadb_client.Base.Dict.{lookup, insert, lookup-insert, lookup-insert_self}
use drift_mariadb_client.Sql.Newlines.{has_cr, read_text-has_cr, read_text-same}
use drift_mariadb_client.Sql.{Disk, read_text, write_if_changed, write_all}

write_if_changed_ne :
    (path content other : Text) (disk : Disk)
    → other ≢ path
    → lookup other (write_if_changed path content disk).1 ≡ lookup other disk
unfolding write_if_changed
write_if_changed_ne path content other disk h =
    ground (arith, lookup-insert other path content disk)

-- Writing what is there changes nothing.
insert_same : (k v : Text) (d : Disk) → lookup k d ≡ some v → insert k v d ≡ d
unfolding lookup insert
insert_same k v [] h = absurd cc
insert_same k v ((j, w) ∷ d) h = elim (Bool-cases (k == j)) [
  | inl here ↦ let same : w ≡ v = ground (arith, h, here) in rw (insert, here, same) refl
  | inr away ↦
      rw (insert, away) (ap (λ t. (j, w) ∷ t) (insert_same k v d (ground (arith, h, away))))
]

-- The path is one of these.
abbrev pub Among : Text → List Text → Type 0
Among other [] = ⊥
Among other (t ∷ ts) = (other ≡ t) ⊎ Among other ts

module _ (content : Text) where
  -- There is a file that Python reads as the content.
  abbrev pub ReadsAs : Option Text → Type 0
  ReadsAs file = (old : Text) × (file ≡ some old) × (read_text old ≡ content)

  -- A target afterwards: it holds the content, or it is as it was and reads as the content.
  abbrev pub Left : Disk → Disk → Text → Type 0
  Left before after t =
      (lookup t after ≡ some content)
      ⊎ ((lookup t after ≡ lookup t before) × ReadsAs (lookup t before))

  -- Between the first file and the last.
  abbrev Mixed : Disk → Disk → Type 0
  Mixed before disk =
      (u : Text) → (lookup u disk ≡ some content) ⊎ (lookup u disk ≡ lookup u before)

  write_cases :
      (t : Text) (disk : Disk)
      → (ReadsAs (lookup t disk) × (write_if_changed t content disk ≡ (0, disk)))
        ⊎ (¬ ReadsAs (lookup t disk)
            × (write_if_changed t content disk ≡ (1, insert t content disk)))
  unfolding write_if_changed
  write_cases t disk = elim (Option-cases (lookup t disk)) [
    | inr e ↦ inr ((λ r. let there = r.1 in cc), ground (arith, e))
    | inl (old, e) ↦ elim (text_eq.dec (read_text old) content) [
      | yes same ↦ inl ((old, e, same), ground (arith, e, same))
      | no differs ↦ inr (
        (λ (other, there, same).
            let one : other ≡ old = cc in differs (ap read_text (sym one) ∙ same)),
        ground (arith, e, differs),
      )
    ]
  ]

  -- After a write the file has the content, and every other file is as it was.
  inserted :
      (t u : Text) (disk : Disk)
      → (lookup u (insert t content disk) ≡ some content)
        ⊎ (lookup u (insert t content disk) ≡ lookup u disk)
  inserted t u disk = elim (Bool-cases (u == t)) [
    | inl here ↦ inl (ground (arith, here, lookup-insert u t content disk))
    | inr away ↦ inr (ground (arith, away, lookup-insert u t content disk))
  ]

  step-Mixed :
      (before disk : Disk) (t : Text)
      → Mixed before disk
      → Mixed before (write_if_changed t content disk).1
  step-Mixed before disk t m u = elim (write_cases t disk) [
    | inl (_, same) ↦ rw same (m u)
    | inr (_, wrote) ↦ rw wrote (elim (inserted t u disk) [
      | inl new ↦ inl new
      | inr kept ↦ elim (m u) [
        | inl old ↦ inl (kept ∙ old)
        | inr as_before ↦ inr (kept ∙ as_before)
      ]
    ])
  ]

  step-Left :
      (before disk : Disk) (t : Text)
      → Mixed before disk
      → Left before (write_if_changed t content disk).1 t
  step-Left before disk t m = elim (write_cases t disk) [
    | inl ((old, there, reads), same) ↦ rw same (elim (m t) [
      | inl new ↦ inl new
      | inr as_before ↦ inr (as_before, (old, sym as_before ∙ there, reads))
    ])
    | inr (_, wrote) ↦ rw wrote (inl (lookup-insert_self t content disk))
  ]

  keep-Left :
      (before disk : Disk) (t u : Text)
      → Left before disk u
      → Left before (write_if_changed t content disk).1 u
  keep-Left before disk t u h = elim (write_cases t disk) [
    | inl (_, same) ↦ rw same h
    | inr (_, wrote) ↦ rw wrote (elim (inserted t u disk) [
      | inl new ↦ inl new
      | inr kept ↦ elim h [
        | inl old ↦ inl (kept ∙ old)
        | inr (as_before, reads) ↦ inr (kept ∙ as_before, reads)
      ]
    ])
  ]

  write_all-keeps :
      (ts : List Text) (u : Text) (before disk : Disk)
      → Left before disk u
      → Left before (write_all ts content disk).1 u
  unfolding write_all
  write_all-keeps [] u before disk h = h
  write_all-keeps (t ∷ ts) u before disk h =
      write_all-keeps ts u before (write_if_changed t content disk).1 (keep-Left before disk t u h)

  write_all-Mixed :
      (ts : List Text) (before disk : Disk)
      → Mixed before disk
      → All (Left before (write_all ts content disk).1) ts
  unfolding write_all
  write_all-Mixed [] before disk m = tt
  write_all-Mixed (t ∷ ts) before disk m =
      let next = (write_if_changed t content disk).1 in
      (
        write_all-keeps ts t before next (step-Left before disk t m),
        write_all-Mixed ts before next (step-Mixed before disk t m),
      )

  -- Every target holds the content, or was left with a text that reads as it.
  pub write_all-Left :
      (ts : List Text) (disk : Disk) → All (Left disk (write_all ts content disk).1) ts
  write_all-Left ts disk = write_all-Mixed ts disk disk (λ u. inr refl)

  -- How many files a further run writes: none, if the content is read as it was written.
  abbrev pub rewrites : List Text → ℕ
  rewrites ts = if has_cr content then length ts else 0

  again_one :
      (before disk : Disk) (t : Text)
      → Left before disk t
      → write_if_changed t content disk ≡ ((if has_cr content then 1 else 0), disk)
  again_one before disk t h = elim (write_cases t disk) [
    | inl ((old, there, reads), same) ↦
        let none_here : has_cr content ≡ false = ap has_cr (sym reads) ∙ read_text-has_cr old in
        rw (same, none_here) refl
    | inr (unread, wrote) ↦ elim h [
      | inr (as_before, (old, there, reads)) ↦ absurd (unread (old, as_before ∙ there, reads))
      | inl held ↦ elim (Bool-cases (has_cr content)) [
        | inl some_here ↦ rw (wrote, some_here, insert_same t content disk held) refl
        | inr none_here ↦ absurd (unread (content, held, read_text-same content none_here))
      ]
    ]
  ]

  pub write_all_again :
      (ts : List Text) (before disk : Disk)
      → All (Left before disk) ts
      → write_all ts content disk ≡ (rewrites ts, disk)
  unfolding write_all
  write_all_again [] before disk h = elim (Bool-cases (has_cr content)) [
    | inl e ↦ rw e refl
    | inr e ↦ rw e refl
  ]
  write_all_again (t ∷ ts) before disk (h, hs) = elim (Bool-cases (has_cr content)) [
    | inl e ↦
        rw (again_one before disk t h, write_all_again ts before disk hs, e)
          (ap (λ n. (n, disk)) (omega arith))
    | inr e ↦ rw (again_one before disk t h, write_all_again ts before disk hs, e) refl
  ]

  -- Any file is a target or is left alone.
  pub write_all_others :
      (ts : List Text) (other : Text) (disk : Disk)
      → Among other ts ⊎ (lookup other (write_all ts content disk).1 ≡ lookup other disk)
  unfolding write_all
  write_all_others [] other disk = inr refl
  write_all_others (t ∷ ts) other disk =
      elim (write_all_others ts other (write_if_changed t content disk).1) [
        | inl later ↦ inl (inr later)
        | inr kept ↦ elim (text_eq.dec other t) [
          | yes here ↦ inl (inl here)
          | no away ↦ inr (kept ∙ write_if_changed_ne t content other disk away)
        ]
      ]
