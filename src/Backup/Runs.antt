-- ===== src/Backup/Runs.antt =====
-- What a run of the backup comes to; one that fails leaves the earlier backups alone.
use job_finder_agent.Common.{
  ℕ, ◌≡◌, ◌⊎◌, ◌≤◌, refl, ◌∙◌, Bool, true, false, none, some, [], ◌∷◌, String, str_eq, arith,
  Bool-cases, Option-cases, inl, inr,
}
use job_finder_agent.Session.{Exception, ok, raise, other}
use job_finder_agent.Backup.Files.{
  FilePath, File, Disk, read, unlink, write, same_path, name_of, read-write, read-unlink,
}
use job_finder_agent.Backup.{
  Settings, Machine, BackupResult, cleanup_backups, path_at, temporary_at, dump_command,
  list_command, run_command, checksum_line, metadata_of, publish, backup_once, Writing, whole,
  refused, cut_short, write_text,
}

-- What is relied on of pg_dump and pg_restore, and of `str.split` on a digest and a name.
pub record IsLawful (M : Machine) (cfg : Settings) (now : ℕ) : Type 0 where
  -- A listing writes no file, and fails on a file that is empty.
  pub list_writes_nothing :
      (p : FilePath) (d : Disk) → (run_command M cfg (list_command M cfg p) d).1 ≡ d
  pub list_reads :
      (p : FilePath) (d : Disk) (f : File)
      → read p d ≡ some f
      → (run_command M cfg (list_command M cfg p) d).0 ≡ true
      → str_eq f.content "" ≡ false
  -- A dump writes the file that it is told and no other, later than the process looked at the clock.
  pub dump_writes_one :
      (q : FilePath) (d : Disk)
      → same_path (temporary_at M cfg now) q ≡ false
      → read q (run_command M cfg (dump_command M cfg now) d).1 ≡ read q d
  pub dump_is_new :
      (d : Disk) (f : File)
      → (run_command M cfg (dump_command M cfg now) d).0 ≡ true
      → read (temporary_at M cfg now) (run_command M cfg (dump_command M cfg now) d).1 ≡ some f
      → now ≤ f.modified
  pub split-checksum_line :
      (text : String)
      → M.split_spaces (checksum_line M cfg (M.sha256 text) (path_at M cfg now ".dump"))
        ≡ M.sha256 text ∷ name_of (path_at M cfg now ".dump") ∷ []

Writing-cases :
    (x : Writing) → (x ≡ whole) ⊎ (x ≡ refused) ⊎ ((left : String) × (x ≡ cut_short left))
Writing-cases whole = inl refl
Writing-cases refused = inr (inl refl)
Writing-cases (cut_short left) = inr (inr (left, refl))

module _ (M : Machine) (cfg : Settings) (now : ℕ) where
  abbrev pub dump_at : FilePath
  dump_at = path_at M cfg now ".dump"

  abbrev pub dumped : Disk → Bool × Disk
  dumped d = run_command M cfg (dump_command M cfg now) d

  abbrev pub listed : Disk → Bool × Disk
  listed d = run_command M cfg (list_command M cfg (temporary_at M cfg now)) d

  abbrev pub result : BackupResult
  result = record {
    dump_path = dump_at;
    checksum_path = path_at M cfg now ".sha256";
    metadata_path = path_at M cfg now ".json";
  }

  abbrev pub line_file : File → File
  line_file f = record {
    content = checksum_line M cfg (M.sha256 f.content) dump_at;
    modified = M.written;
  }

  -- A file that is written, as a whole or not at all, leaves the other files alone.
  read-write_text :
      (p : FilePath) (text : String) (d : Disk) (q : FilePath)
      → same_path p q ≡ false
      → read q (write_text M cfg p text d).1 ≡ read q d
  unfolding write_text
  read-write_text p text d q apart = elim (Writing-cases (M.writing p)) [
    | inl e ↦ rw (e, write_text, read-write p q _ d, apart) refl
    | inr (inl e) ↦ rw (e, write_text) refl
    | inr (inr (left, e)) ↦ rw (e, write_text, read-write p q _ d, apart) refl
  ]

  write_text-whole :
      (p : FilePath) (text : String) (d : Disk)
      → (write_text M cfg p text d).0 ≡ true
      → (write_text M cfg p text d).1 ≡ write p (record { content = text; modified = M.written }) d
  unfolding write_text
  write_text-whole p text d h = elim (Writing-cases (M.writing p)) [
    | inl e ↦ rw (e, write_text) refl
    | inr (inl e) ↦ cc (rw (e, write_text) at h)
    | inr (inr (left, e)) ↦ cc (rw (e, write_text) at h)
  ]

  read-renamed :
      (d : Disk) (f : File) (q : FilePath)
      → same_path (temporary_at M cfg now) q ≡ false
      → str_eq dump_at.stem q.stem ≡ false
      → read q (write dump_at f (unlink (temporary_at M cfg now) d)) ≡ read q d
  read-renamed d f q apart foreign =
      rw
        (
          read-write dump_at q f (unlink (temporary_at M cfg now) d),
          foreign,
          read-unlink (temporary_at M cfg now) q d,
          apart,
        )
        refl

  -- The files before old backups are removed.
  abbrev pub described : File → Disk → Disk
  described f d =
      write (path_at M cfg now ".json")
        (record { content = metadata_of M cfg now f; modified = M.written })
        (write (path_at M cfg now ".sha256")
          (record {
            content = checksum_line M cfg (M.sha256 f.content) dump_at;
            modified = M.written;
          })
          (write dump_at f (unlink (temporary_at M cfg now) d)))

  -- Both files beside the dump are written, or one of them is not, and only files of the backup's own name
  -- have changed.
  pub publish-described :
      (d : Disk) (f : File)
      → read (temporary_at M cfg now) d ≡ some f
      → (publish M cfg now d
          ≡ (ok result, (cleanup_backups cfg.backup_retention_days now (described f d)).1))
        ⊎ ((d' : Disk) × (publish M cfg now d ≡ (raise (other "OSError"), d'))
            × ((q : FilePath)
                → same_path (temporary_at M cfg now) q ≡ false
                → str_eq dump_at.stem q.stem ≡ false
                → read q d' ≡ read q d))
  unfolding publish
  publish-described d f e =
      let renamed = write dump_at f (unlink (temporary_at M cfg now) d) in
      let line = checksum_line M cfg (M.sha256 f.content) dump_at in
      let sum = write_text M cfg (path_at M cfg now ".sha256") line renamed in
      let about = write_text M cfg (path_at M cfg now ".json") (metadata_of M cfg now f) sum.1 in
      elim (Bool-cases sum.0) [
        | inr fails ↦ inr (
          sum.1,
          ground (arith, e, fails),
          λ q apart foreign.
              read-write_text (path_at M cfg now ".sha256") line renamed q (rw foreign refl)
              ∙ read-renamed d f q apart foreign,
        )
        | inl works ↦ elim (Bool-cases about.0) [
          | inr fails ↦ inr (
            about.1,
            ground (arith, e, works, fails),
            λ q apart foreign.
                read-write_text (path_at M cfg now ".json") (metadata_of M cfg now f) sum.1 q
                  (rw foreign refl)
                ∙ read-write_text (path_at M cfg now ".sha256") line renamed q (rw foreign refl)
                ∙ read-renamed d f q apart foreign,
          )
          | inl fine ↦ inl (
              ground (
                arith,
                e,
                works,
                fine,
                write_text-whole (path_at M cfg now ".sha256") line renamed works,
                write_text-whole (path_at M cfg now ".json") (metadata_of M cfg now f) sum.1 fine,
              ))
        ]
      ]

  pub publish-missing :
      (d : Disk)
      → read (temporary_at M cfg now) d ≡ none
      → publish M cfg now d ≡ (raise (other "FileNotFoundError"), d)
  unfolding publish
  publish-missing d e = ground (arith, e)

  -- Every run ends after the dump, after the listing, or with what it publishes.
  pub backup_once-cases :
      (d : Disk)
      → IsLawful M cfg now
      → ((backup_once M cfg now d ≡ (raise (other "CalledProcessError"), (dumped d).1)))
        ⊎ ((dumped d).0 ≡ true)
          × ((listed (dumped d).1).0 ≡ true)
          × (backup_once M cfg now d ≡ publish M cfg now (dumped d).1)
  unfolding backup_once
  backup_once-cases d L = elim (Bool-cases (dumped d).0) [
    | inr fails ↦ inl (ground (arith, fails))
    | inl works ↦ elim (Bool-cases (listed (dumped d).1).0) [
      | inr fails ↦ inl (
          ground (arith, fails, works, L.list_writes_nothing (temporary_at M cfg now) (dumped d).1))
      | inl fine ↦ inr (
        works,
        fine,
        ground (arith, fine, works, L.list_writes_nothing (temporary_at M cfg now) (dumped d).1),
      )
    ]
  ]

  -- A backup that fails changes no file but its temporary one, and where the checksum or the metadata
  -- cannot be written, files of its own name: the earlier backups stay. Where a command fails, none of
  -- its own names appears. This relies on what pg_dump and pg_restore write.
  pub backup_once_failed :
      (d : Disk) (e : Exception) (q : FilePath)
      → IsLawful M cfg now
      → (backup_once M cfg now d).0 ≡ raise e
      → same_path (temporary_at M cfg now) q ≡ false
      → (read q (backup_once M cfg now d).1 ≡ read q d)
        ⊎ (e ≡ other "OSError") × (str_eq dump_at.stem q.stem ≡ true)
  backup_once_failed d e q L failed apart = elim (backup_once-cases d L) [
    | inl c ↦ rw c (inl (L.dump_writes_one q d apart))
    | inr (works, fine, c) ↦ elim (Option-cases (read (temporary_at M cfg now) (dumped d).1)) [
      | inl missing ↦
          rw (c, publish-missing (dumped d).1 missing) (inl (L.dump_writes_one q d apart))
      | inr (f, there) ↦ elim (publish-described (dumped d).1 f there) [
        | inl done ↦ cc (rw (c, done) at failed)
        | inr (d', raised, others) ↦ elim (Bool-cases (str_eq dump_at.stem q.stem)) [
          | inl own ↦ inr (cc (rw (c, raised) at failed), own)
          | inr foreign ↦
              rw (c, raised) (inl (others q apart foreign ∙ L.dump_writes_one q d apart))
        ]
      ]
    ]
  ]
