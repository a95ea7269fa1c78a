-- ===== src/Backup/Verified.antt =====
-- A backup can be verified later.
use job_finder_agent.Common.{
  ℕ, ◌≡◌, ◌≤◌, refl, ◌∙◌, true, false, some, [], ◌∷◌, any, String, str_eq, eq_refl, ltb,
  if◌then◌else◌, arith, Bool-cases, Option-cases, inl, inr,
}
use job_finder_agent.Session.{ok, raise, other}
use job_finder_agent.Backup.Files.{FilePath, File, Disk, read, unlink, write, read-write, same_path}
use job_finder_agent.Backup.Cleaned.{is_part, is_outdated, cleanup_backups-read}
use job_finder_agent.Backup.{
  Settings, Machine, BackupResult, cleanup_backups, cutoff_of, path_at, temporary_at, list_command,
  run_command, backup_once, compare_checksum, verify_backup,
}
use job_finder_agent.Backup.Runs.{
  IsLawful, dump_at, dumped, result, line_file, described, publish-described, publish-missing,
  backup_once-cases,
}

module _ (cutoff : ℕ) (stem : String) where
  outdated-unlink_dump :
      (d : Disk)
      → any (is_outdated cutoff stem) (unlink (record { stem = stem; suffix = ".dump" }) d) ≡ false
  unfolding unlink
  outdated-unlink_dump [] = refl
  outdated-unlink_dump ((q, f) ∷ d) = elim (Bool-cases (str_eq q.stem stem)) [
    | inl e ↦ elim (Bool-cases (str_eq q.suffix ".dump")) [
      | inl h ↦ rw (e, h) (outdated-unlink_dump d)
      | inr h ↦ rw (e, h) (rw h (outdated-unlink_dump d))
    ]
    | inr e ↦ rw e (elim (Bool-cases (str_eq q.suffix ".dump")) [
      | inl h ↦ rw (h, e) (outdated-unlink_dump d)
      | inr h ↦ rw h (outdated-unlink_dump d)
    ])
  ]

  outdated-unlink :
      (p : FilePath) (d : Disk)
      → any (is_outdated cutoff stem) d ≡ false
      → any (is_outdated cutoff stem) (unlink p d) ≡ false
  unfolding unlink
  outdated-unlink p [] h = refl
  outdated-unlink p ((q, f) ∷ d) h = elim (Bool-cases (is_outdated cutoff stem (q, f))) [
    | inl old ↦ cc (rw old at h)
    | inr new ↦ elim (Bool-cases (same_path q p)) [
      | inl e ↦ rw e (outdated-unlink p d (rw new at h))
      | inr e ↦ rw (e, new) (outdated-unlink p d (rw new at h))
    ]
  ]

  outdated-write :
      (p : FilePath) (f : File) (d : Disk)
      → is_outdated cutoff stem (p, f) ≡ false
      → any (is_outdated cutoff stem) d ≡ false
      → any (is_outdated cutoff stem) (write p f d) ≡ false
  unfolding write
  outdated-write p f d new h = rw (new, outdated-unlink p d h) refl

module _ (M : Machine) (cfg : Settings) (now : ℕ) (f : File) (d : Disk) where
  young_dump :
      now ≤ f.modified
      → (kept : Disk)
      → any
          (is_outdated (cutoff_of cfg.backup_retention_days now) (dump_at M cfg now).stem)
          (write (dump_at M cfg now) f kept)
        ≡ false
  unfolding write
  young_dump new kept =
      let late : ltb f.modified (cutoff_of cfg.backup_retention_days now) ≡ false = ground arith in
      rw
        (
          late,
          eq_refl,
          outdated-unlink_dump (cutoff_of cfg.backup_retention_days now) (dump_at M cfg now).stem
              kept,
        )
        refl

  read-described_dump : read (dump_at M cfg now) (described M cfg now f d) ≡ some f
  read-described_dump =
      rw
        (
          read-write (path_at M cfg now ".json") (dump_at M cfg now) _ _,
          read-write (path_at M cfg now ".sha256") (dump_at M cfg now) _ _,
          read-write (dump_at M cfg now) (dump_at M cfg now) f _,
          eq_refl,
        )
        refl

  read-described_checksum :
      read (path_at M cfg now ".sha256") (described M cfg now f d) ≡ some (line_file M cfg now f)
  read-described_checksum =
      rw
        (
          read-write (path_at M cfg now ".json") (path_at M cfg now ".sha256") _ _,
          read-write (path_at M cfg now ".sha256") (path_at M cfg now ".sha256") _ _,
          eq_refl,
        )
        refl

  described-young :
      now ≤ f.modified
      → any
          (is_outdated (cutoff_of cfg.backup_retention_days now) (dump_at M cfg now).stem)
          (described M cfg now f d)
        ≡ false
  described-young new =
      let cutoff = cutoff_of cfg.backup_retention_days now in
      let stem = (dump_at M cfg now).stem in
      let kept = unlink (temporary_at M cfg now) d in
      outdated-write cutoff stem (path_at M cfg now ".json") _ _ refl (
        outdated-write cutoff stem (path_at M cfg now ".sha256") (line_file M cfg now f)
          (write (dump_at M cfg now) f kept) refl (young_dump new kept))

  -- What was just written survives the removal of old backups.
  after_cleanup :
      (suffix : String)
      → now ≤ f.modified
      → read
          (path_at M cfg now suffix)
          (cleanup_backups cfg.backup_retention_days now (described M cfg now f d)).1
        ≡ read (path_at M cfg now suffix) (described M cfg now f d)
  after_cleanup suffix new =
      (cleanup_backups-read cfg.backup_retention_days now (path_at M cfg now suffix)
        (described M cfg now f d)).0
      ∙ rw (described-young new)
          (elim (Bool-cases (is_part suffix)) [ inl e ↦ rw e refl | inr e ↦ rw e refl ])

module _ (M : Machine) (cfg : Settings) (now : ℕ) where
  verify_backup-compare_checksum :
      (p : FilePath) (e : Disk) (g : File)
      → IsLawful M cfg now
      → read p e ≡ some g
      → (run_command M cfg (list_command M cfg p) e).0 ≡ true
      → (verify_backup M cfg p e).0 ≡ compare_checksum M cfg p (M.sha256 g.content) e
  unfolding verify_backup
  verify_backup-compare_checksum p e g L there fine =
      ground (arith, L.list_writes_nothing p e, L.list_reads p e g there fine)

  compare_checksum-line :
      (f : File) (e : Disk) (digest : String)
      → IsLawful M cfg now
      → read (path_at M cfg now ".sha256") e ≡ some (line_file M cfg now f)
      → compare_checksum M cfg (dump_at M cfg now) digest e ≡ (
          if str_eq (M.sha256 f.content) digest
          then ok digest
          else raise (other "backup checksum mismatch"))
  unfolding compare_checksum
  compare_checksum-line f e digest L there = ground (arith, L.split-checksum_line f.content)

  published :
      (d e : Disk) (g f : File)
      → IsLawful M cfg now
      → now ≤ f.modified
      → let left = (cleanup_backups cfg.backup_retention_days now (described M cfg now f d)).1 in
        read (path_at M cfg now ".sha256") e ≡ read (path_at M cfg now ".sha256") left
        → read (dump_at M cfg now) e ≡ some g
        → (run_command M cfg (list_command M cfg (dump_at M cfg now)) e).0 ≡ true
        → (read (dump_at M cfg now) left ≡ some f)
          × ((verify_backup M cfg (dump_at M cfg now) e).0 ≡ (
              if str_eq (M.sha256 f.content) (M.sha256 g.content)
              then ok (M.sha256 g.content)
              else raise (other "backup checksum mismatch")))
  published d e g f L new kept there fine = (
    after_cleanup M cfg now f d ".dump" new ∙ read-described_dump M cfg now f d,
    verify_backup-compare_checksum (dump_at M cfg now) e g L there fine
        ∙ compare_checksum-line f e (M.sha256 g.content) L (
            kept
            ∙ after_cleanup M cfg now f d ".sha256" new
            ∙ read-described_checksum M cfg now f d),
  )

  -- A backup that returned can be verified as long as its checksum file is as it left it: the dump that it
  -- left is at the path that it returned, not removed by its own clean-up, and whatever content stands
  -- at that path later, if pg_restore can list it, is accepted exactly where it has the digest of that
  -- dump, and refused with a mismatch otherwise. This relies on what pg_dump and pg_restore write.
  pub backup_once-verify_backup :
      (d e : Disk) (returned : BackupResult) (g : File)
      → IsLawful M cfg now
      → let (r, d') = backup_once M cfg now d in
        r ≡ ok returned
        → read returned.checksum_path e ≡ read returned.checksum_path d'
        → read returned.dump_path e ≡ some g
        → (run_command M cfg (list_command M cfg returned.dump_path) e).0 ≡ true
        → (f : File) × (read returned.dump_path d' ≡ some f)
          × ((verify_backup M cfg returned.dump_path e).0 ≡ (
              if str_eq (M.sha256 f.content) (M.sha256 g.content)
              then ok (M.sha256 g.content)
              else raise (other "backup checksum mismatch")))
  backup_once-verify_backup d e returned g L done kept there fine =
      elim (backup_once-cases M cfg now d L) [
        | inl c ↦ cc (rw c at done)
        | inr (works, listing, c) ↦
            let d1 = (dumped M cfg now d).1 in
            elim (Option-cases (read (temporary_at M cfg now) d1)) [
              | inl missing ↦ cc (rw (c, publish-missing M cfg now d1 missing) at done)
              | inr (f, found) ↦ elim (publish-described M cfg now d1 f found) [
                | inr (d', raised, others) ↦ cc (rw (c, raised) at done)
                | inl described ↦
                    let ends = c ∙ described in
                    let same : returned ≡ result M cfg now = cc (rw ends at done) in
                    let (left, verified) =
                      published d1 e g f L (L.dump_is_new d f works found) (rw (ends, same) at kept)
                        (rw same at there) (rw same at fine) in
                    rw (ends, same) (f, left, verified)
              ]
            ]
      ]
