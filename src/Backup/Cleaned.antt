-- ===== src/Backup/Cleaned.antt =====
-- Which files the retention of backups removes.
use job_finder_agent.Common.{
  ℕ, ◌≡◌, ◌∙◌, refl, Bool, true, false, ◌&&◌, ◌||◌, Option, none, List, [], ◌∷◌, any, All,
  filter_by, filter_by-All, length, String, str_eq, eq_iff, ltb, if◌then◌else◌, arith, Bool-cases,
  inl, inr,
}
use job_finder_agent.Backup.Files.{FilePath, File, Disk, read, unlink, read-unlink}
use job_finder_agent.Backup.{is_dump, with_suffix, cleanup_all, cleanup_backups, cutoff_of}

-- The three files of one backup have these suffixes.
abbrev pub is_part : String → Bool
is_part suffix = str_eq ".json" suffix || str_eq ".sha256" suffix || str_eq ".dump" suffix

-- A dump of the same stem that was modified before the cutoff.
abbrev pub is_outdated : ℕ → String → FilePath × File → Bool
is_outdated cutoff stem e = is_dump e && str_eq e.0.stem stem && ltb e.1.modified cutoff

abbrev remove_backup : FilePath → Disk → Disk
remove_backup p d = unlink (with_suffix ".json" p) (unlink (with_suffix ".sha256" p) (unlink p d))

read-remove_backup :
    (p q : FilePath) (d : Disk)
    → str_eq p.suffix ".dump" ≡ true
    → read q (remove_backup p d)
      ≡ (if str_eq p.stem q.stem && is_part q.suffix then none else read q d)
read-remove_backup p q d dump =
    let is : p.suffix ≡ ".dump" = (eq_iff p.suffix ".dump").0 dump in
    rw
      (
        read-unlink (with_suffix ".json" p) q (unlink (with_suffix ".sha256" p) (unlink p d)),
        read-unlink (with_suffix ".sha256" p) q (unlink p d),
        read-unlink p q d,
        is,
      )
      (elim (Bool-cases (str_eq p.stem q.stem)) [
        | inl e ↦ rw e (elim (Bool-cases (str_eq ".json" q.suffix)) [
          | inl j ↦ rw j refl
          | inr j ↦ rw j (elim (Bool-cases (str_eq ".sha256" q.suffix)) [
            | inl k ↦ rw k refl
            | inr k ↦ rw k refl
          ])
        ])
        | inr e ↦ rw e refl
      ])

removed_first :
    (part same rest : Bool) (x : Option File)
    → (if part && rest then none else (if same && part then none else x))
      ≡ (if part && (same || rest) then none else x)
removed_first false same rest x = ground arith
removed_first true true rest x = ground arith
removed_first true false rest x = ground arith

is_outdated_old :
    (cutoff : ℕ) (stem : String) (p : FilePath) (f : File)
    → is_dump (p, f) ≡ true
    → ltb f.modified cutoff ≡ true
    → is_outdated cutoff stem (p, f) ≡ str_eq p.stem stem
is_outdated_old cutoff stem p f dump old =
    rw (dump, old)
      (elim (Bool-cases (str_eq p.stem stem)) [ inl e ↦ rw e refl | inr e ↦ rw e refl ])

is_outdated_young :
    (cutoff : ℕ) (stem : String) (p : FilePath) (f : File)
    → ltb f.modified cutoff ≡ false
    → is_outdated cutoff stem (p, f) ≡ false
is_outdated_young cutoff stem p f young = elim (Bool-cases (is_dump (p, f))) [
  | inl d ↦
      rw (d, young)
        (elim (Bool-cases (str_eq p.stem stem)) [ inl e ↦ rw e refl | inr e ↦ rw e refl ])
  | inr d ↦ rw d refl
]

module _ (cutoff : ℕ) where
  read-cleanup_all :
      (q : FilePath) (dumps : List (FilePath × File)) (d : Disk)
      → All (λ e. is_dump e ≡ true) dumps
      → read q (cleanup_all cutoff dumps d).1
        ≡ (if is_part q.suffix && any (is_outdated cutoff q.stem) dumps then none else read q d)
  unfolding cleanup_all
  read-cleanup_all q [] d h = ground arith
  read-cleanup_all q ((p, f) ∷ dumps) d h = elim (Bool-cases (ltb f.modified cutoff)) [
    | inl old ↦
        rw
          (
            is_outdated_old cutoff q.stem p f h.0 old,
            old,
            read-cleanup_all q dumps (remove_backup p d) h.1,
            read-remove_backup p q d h.0,
            removed_first (is_part q.suffix) (str_eq p.stem q.stem)
                (any (is_outdated cutoff q.stem) dumps) (read q d),
          )
          refl
    | inr young ↦
        rw (is_outdated_young cutoff q.stem p f young, young, read-cleanup_all q dumps d h.1) refl
  ]

  count-cleanup_all :
      (dumps : List (FilePath × File)) (d : Disk)
      → (cleanup_all cutoff dumps d).0 ≡ length (filter_by (λ e. ltb e.1.modified cutoff) dumps)
  unfolding cleanup_all
  count-cleanup_all [] d = refl
  count-cleanup_all ((p, f) ∷ dumps) d =
      ground (arith, count-cleanup_all dumps d, count-cleanup_all dumps (remove_backup p d))

any-filter_by :
    (p q : FilePath × File → Bool) (xs : List (FilePath × File))
    → ((x : FilePath × File) → q x ≡ true → p x ≡ true)
    → any q (filter_by p xs) ≡ any q xs
any-filter_by p q [] h = refl
any-filter_by p q (x ∷ xs) h = ground (arith, h x, any-filter_by p q xs h)

-- What `cleanup_backups` does to a name: a dump, a checksum or metadata goes exactly where a dump of the
-- same stem was modified before the cutoff; every other file stays as it is. The number is that of the
-- dumps that were modified before the cutoff.
pub cleanup_backups-read :
    (days now : ℕ) (q : FilePath) (d : Disk)
    → let (removed, d') = cleanup_backups days now d in
      (read q d' ≡ (
        if is_part q.suffix && any (is_outdated (cutoff_of days now) q.stem) d
        then none
        else read q d))
      × (removed
          ≡ length (filter_by (λ e. ltb e.1.modified (cutoff_of days now)) (filter_by is_dump d)))
unfolding cleanup_backups
cleanup_backups-read days now q d = (
  read-cleanup_all (cutoff_of days now) q (filter_by is_dump d) d (filter_by-All is_dump d)
      ∙ rw (any-filter_by is_dump (is_outdated (cutoff_of days now) q.stem) d (λ x h. ground arith))
          refl,
  count-cleanup_all (cutoff_of days now) (filter_by is_dump d) d,
)
