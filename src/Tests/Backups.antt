-- ===== src/Tests/Backups.antt =====
-- Backups of a database whose dump is always the same.
use job_finder_agent.Common.{
  ◌≡◌, ◌⊎◌, ◌∙◌, refl, arith, Bool, true, false, ◌&&◌, none, some, [], ◌∷◌, String, str_eq, any,
  filter_by, length, if◌then◌else◌, ltb, ◌⧺◌, Bool-cases, inl, inr, eq_iff, eq_refl,
}
use job_finder_agent.Session.{ok, raise, other}
use job_finder_agent.Backup.Files.{FilePath, File, Disk, read, write, read-write, same_path}
use job_finder_agent.Backup.{
  Machine, Settings, whole, cut_short, BackupResult, Runner, is_dump, cutoff_of, cleanup_backups,
  path_at, text_of, backup_once, verify_backup,
}
use job_finder_agent.Backup.Cleaned.{is_part, is_outdated, cleanup_backups-read}
use job_finder_agent.Backup.Runs.{IsLawful, backup_once_failed}
use job_finder_agent.Backup.Verified.{backup_once-verify_backup}

abbrev temporary : FilePath
temporary = record { stem = "jobradar-t.dump"; suffix = ".tmp" }

abbrev dump_file : File
dump_file = record { content = "dump"; modified = 50 }

abbrev is_empty_file : String → FilePath × File → Bool
is_empty_file text e = str_eq (text_of "b" e.0) text && str_eq e.1.content ""

-- pg_dump writes its file, and pg_restore cannot list an empty one.
abbrev runner : Runner
runner (program ∷ option ∷ text ∷ []) password d =
    if any (is_empty_file text) d then (false, d) else (true, d)
runner (program ∷ option ∷ file ∷ text ∷ rest) password d = (true, write temporary dump_file d)
runner _ password d = (true, d)

abbrev digest : String → String
digest text = if str_eq text "dump" then "d1" else "d2"

abbrev machine : Machine
machine = record {
  command_runner = runner;
  sha256 = digest;
  strftime = λ t. "t";
  isoformat = λ t. "t";
  json = λ fields. "{}";
  size_text = λ text. "4";
  split_spaces = λ line.
      (if str_eq line ("d1" ⧺ "  " ⧺ ("jobradar-t" ⧺ ".dump") ⧺ "\n") then "d1" else "d2")
      ∷ "jobradar-t.dump"
      ∷ [];
  written = 60;
  writing = λ p. whole;
}

abbrev settings : Settings
settings = record {
  backup_dir = "b";
  backup_retention_days = 7;
  database_url = record {
    host = none;
    username = none;
    port = none;
    password = some "p";
    database = some "jobs";
  };
}

empty_read :
    (p : FilePath) (d : Disk) (f : File)
    → read p d ≡ some f
    → str_eq f.content "" ≡ true
    → any (is_empty_file (text_of "b" p)) d ≡ true
unfolding read
empty_read p [] f h empty = cc
empty_read p ((q, g) ∷ d) f h empty = elim (Bool-cases (same_path q p)) [
  | inl e ↦
      let stems : q.stem ≡ p.stem = ground (arith, eq_iff q.stem p.stem) in
      let suffixes : q.suffix ≡ p.suffix = ground (arith, eq_iff q.suffix p.suffix) in
      let same : g ≡ f = ground (arith, e) in rw (stems, suffixes, same, eq_refl, empty) refl
  | inr e ↦ ground (arith, e, empty_read p d f)
]

machine-IsLawful : IsLawful machine settings 10
machine-IsLawful = record {
  list_writes_nothing = λ p d. elim (Bool-cases (any (is_empty_file (text_of "b" p)) d)) [
    | inl e ↦ rw e refl
    | inr e ↦ rw e refl
  ];
  list_reads = λ p d f there fine. elim (Bool-cases (str_eq f.content "")) [
    | inl e ↦ cc (rw (empty_read p d f there e) at fine)
    | inr e ↦ e
  ];
  dump_writes_one = λ q d apart. read-write temporary q dump_file d ∙ rw apart refl;
  dump_is_new = λ d f works there.
      let same : dump_file ≡ f = cc (rw (read-write temporary temporary dump_file d) at there) in
      rw (← same) (omega arith);
  split-checksum_line =
      λ text. elim (Bool-cases (str_eq text "dump")) [ inl e ↦ rw e refl | inr e ↦ rw e refl ];
}

abbrev backed_up : Disk
backed_up = (backup_once machine settings 10 []).1

abbrev result : BackupResult
result = record {
  dump_path = path_at machine settings 10 ".dump";
  checksum_path = path_at machine settings 10 ".sha256";
  metadata_path = path_at machine settings 10 ".json";
}

backup_once-verify_backup_example :
    (f : File) × (read result.dump_path backed_up ≡ some f)
    × ((verify_backup machine settings result.dump_path backed_up).0 ≡ (
        if str_eq (digest f.content) (digest "dump")
        then ok (digest "dump")
        else raise (other "backup checksum mismatch")))
unfolding backup_once read
backup_once-verify_backup_example =
    backup_once-verify_backup machine settings 10 [] backed_up result dump_file machine-IsLawful
      refl refl refl refl

abbrev earlier : Disk
earlier = (record { stem = "jobradar-s"; suffix = ".dump" }, dump_file) ∷ []

-- The disk is full when the checksum is written.
abbrev full : Machine
full = record machine { writing = λ p. cut_short "d" }

full-IsLawful : IsLawful full settings 10
full-IsLawful = record {
  list_writes_nothing = machine-IsLawful.list_writes_nothing;
  list_reads = machine-IsLawful.list_reads;
  dump_writes_one = machine-IsLawful.dump_writes_one;
  dump_is_new = machine-IsLawful.dump_is_new;
  split-checksum_line = machine-IsLawful.split-checksum_line;
}

backup_once_failed_example :
    let q : FilePath = record { stem = "jobradar-s"; suffix = ".dump" } in
    (read q (backup_once full settings 10 earlier).1 ≡ read q earlier)
    ⊎ (other "OSError" ≡ other "OSError") × (str_eq "jobradar-t" "jobradar-s" ≡ true)
unfolding backup_once read
backup_once_failed_example =
    backup_once_failed full settings 10 earlier (other "OSError")
      (record { stem = "jobradar-s"; suffix = ".dump" }) full-IsLawful refl refl

cleanup_backups-read_example :
    let (removed, d') = cleanup_backups 7 700000 earlier in
    let q : FilePath = record { stem = "jobradar-s"; suffix = ".sha256" } in
    (read q d' ≡ (
      if is_part q.suffix && any (is_outdated (cutoff_of 7 700000) q.stem) earlier
      then none
      else read q earlier))
    × (removed
        ≡ length
            (filter_by (λ e. ltb e.1.modified (cutoff_of 7 700000)) (filter_by is_dump earlier)))
cleanup_backups-read_example =
    cleanup_backups-read 7 700000 (record { stem = "jobradar-s"; suffix = ".sha256" }) earlier
