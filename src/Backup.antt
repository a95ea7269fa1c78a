-- ===== src/Backup.antt =====
-- backup/service.py (app). The commands pg_dump and pg_restore are a parameter, as is what a URL says of
-- its database. A command gets its arguments and the password of its environment, may change the files,
-- and succeeds or ends in a CalledProcessError. Moments are numbers of seconds; the directory is there.
pub mod Files
pub mod Cleaned
pub mod Runs
pub mod Verified
use job_finder_agent.Common.{
  ℕ, suc, ◌*◌, ◌-◌, Bool, true, false, ◌||◌, not, Option, none, some, List, [], ◌∷◌, ◌++◌,
  filter_by, String, str_eq, ltb, or_default, if◌then◌else◌, ◌⧺◌, is_some,
}
use job_finder_agent.Session.{Result, ok, raise, other}
use job_finder_agent.Backup.Files.{FilePath, File, Disk, name_of, read, unlink, write}

pub record Url : Type 0 where
  pub host : Option String
  pub username : Option String
  pub port : Option String
  pub password : Option String
  pub database : Option String

pub record Settings : Type 0 where
  pub backup_dir : String
  pub backup_retention_days : ℕ
  pub database_url : Url

abbrev pub Runner : Type 0
Runner = List String → Option String → Disk → Bool × Disk

-- What comes of the writing of a file: an OSError may leave it as it was, or with a part of its text.
pub data Writing : Type 0 where
  whole refused : Writing
  cut_short : String → Writing

-- From outside: the hash, `strftime`, JSON of the metadata, the text of a size, `str.split()`, and the
-- moment at which the checksum and the metadata are written, and what comes of that.
pub record Machine : Type 0 where
  pub command_runner : Runner
  pub sha256 : String → String
  pub strftime : ℕ → String
  pub isoformat : ℕ → String
  pub json : List (String × Option String) → String
  pub size_text : String → String
  pub split_spaces : String → List String
  pub written : ℕ
  pub writing : FilePath → Writing

pub record BackupResult : Type 0 where
  pub dump_path : FilePath
  pub checksum_path : FilePath
  pub metadata_path : FilePath

abbrev pub with_suffix : String → FilePath → FilePath
with_suffix suffix p = record p { suffix = suffix }

abbrev pub text_of : String → FilePath → String
text_of backup_dir p = backup_dir ⧺ "/" ⧺ name_of p

-- `_database_options`, without the environment, of which the password is what the code sets.
unfoldable pub database_options : Url → List String
database_options url =
    ("--host" ∷ or_default url.host "localhost" ∷ "--username" ∷ or_default url.username "" ∷ [])
    ++ elim url.port [ none ↦ [] | some port ↦ "--port" ∷ port ∷ [] ]

abbrev pub is_dump : FilePath × File → Bool
is_dump e = str_eq e.0.suffix ".dump"

-- The loop of `cleanup_backups` over the dumps that the glob finds.
unfoldable pub cleanup_all : ℕ → List (FilePath × File) → Disk → ℕ × Disk
cleanup_all cutoff [] d = (0, d)
cleanup_all cutoff ((p, f) ∷ dumps) d =
    if ltb f.modified cutoff
    then (let d' = unlink (with_suffix ".json" p) (unlink (with_suffix ".sha256" p) (unlink p d)) in
        let (removed, d'') = cleanup_all cutoff dumps d' in (suc removed, d''))
    else cleanup_all cutoff dumps d

abbrev pub cutoff_of : ℕ → ℕ → ℕ
cutoff_of retention_days now = now - retention_days * 86400

unfoldable pub cleanup_backups : ℕ → ℕ → Disk → ℕ × Disk
unfolding cleanup_all
cleanup_backups retention_days now d =
    cleanup_all (cutoff_of retention_days now) (filter_by is_dump d) d

abbrev is_missing : Option File → Bool
is_missing none = true
is_missing (some f) = str_eq f.content ""

abbrev failed_command : {A : Type 0} → Disk → Result A × Disk
failed_command d = (raise (other "CalledProcessError"), d)

module _ (M : Machine) (cfg : Settings) where
  abbrev pub path_at : ℕ → String → FilePath
  path_at now suffix = record { stem = "jobradar-" ⧺ M.strftime now; suffix = suffix }

  -- The name `stem.dump.tmp`, whose own suffix is `.tmp`.
  abbrev pub temporary_at : ℕ → FilePath
  temporary_at now = record { stem = ("jobradar-" ⧺ M.strftime now) ⧺ ".dump"; suffix = ".tmp" }

  abbrev pub dump_command : ℕ → List String
  dump_command now =
      ("pg_dump" ∷ "--format=custom" ∷ "--file" ∷ text_of cfg.backup_dir (temporary_at now) ∷ [])
      ++ database_options cfg.database_url
      ++ (or_default cfg.database_url.database "" ∷ [])

  abbrev pub list_command : FilePath → List String
  list_command p = "pg_restore" ∷ "--list" ∷ text_of cfg.backup_dir p ∷ []

  -- `_run`
  abbrev pub run_command : List String → Disk → Bool × Disk
  run_command command = M.command_runner command cfg.database_url.password

  abbrev pub checksum_line : String → FilePath → String
  checksum_line digest p = digest ⧺ "  " ⧺ name_of p ⧺ "\n"

  abbrev pub metadata_of : ℕ → File → String
  metadata_of now f =
      M.json (
        ("created_at", some (M.isoformat now))
        ∷ ("database", cfg.database_url.database)
        ∷ ("format", some "custom")
        ∷ ("sha256", some (M.sha256 f.content))
        ∷ ("size_bytes", some (M.size_text f.content))
        ∷ [])
      ⧺ "\n"

  -- `Path.write_text`, and whether the text was written.
  unfoldable pub write_text : FilePath → String → Disk → Bool × Disk
  unfolding write
  write_text p text d = elim (M.writing p) [
    | whole ↦ (true, write p (record { content = text; modified = M.written }) d)
    | refused ↦ (false, d)
    | cut_short left ↦ (false, write p (record { content = left; modified = M.written }) d)
  ]

  -- `backup_once` from the renaming of the temporary file on.
  unfoldable pub publish : ℕ → Disk → Result BackupResult × Disk
  unfolding cleanup_backups write write_text
  publish now d = elim (read (temporary_at now) d) [
    | none ↦ (raise (other "FileNotFoundError"), d)
    | some f ↦
        let dump = path_at now ".dump" in
        let renamed = write dump f (unlink (temporary_at now) d) in
        let (summed, d2) =
          write_text (path_at now ".sha256") (checksum_line (M.sha256 f.content) dump) renamed in
        let (described, d3) = write_text (path_at now ".json") (metadata_of now f) d2 in
        if not summed
        then (raise (other "OSError"), d2)
        else if not described
        then (raise (other "OSError"), d3)
        else (
          ok (record {
            dump_path = dump;
            checksum_path = path_at now ".sha256";
            metadata_path = path_at now ".json";
          }),
          (cleanup_backups cfg.backup_retention_days now d3).1,
        )
  ]

  unfoldable pub backup_once : ℕ → Disk → Result BackupResult × Disk
  unfolding publish
  backup_once now d =
      let (dumped, d1) = run_command (dump_command now) d in
      if not dumped
      then failed_command d1
      else (let (listed, d2) = run_command (list_command (temporary_at now)) d1 in
          if not listed then failed_command d2 else publish now d2)

  -- The comparison with the checksum file, where there is one.
  unfoldable pub compare_checksum : FilePath → String → Disk → Result String
  compare_checksum p digest d = elim (read (with_suffix ".sha256" p) d) [
    | none ↦ ok digest
    | some c ↦ elim (M.split_spaces c.content) [
      | [] ↦ raise (other "IndexError")
      | expected ∷ rest ↦
          if not (str_eq expected digest)
          then raise (other "backup checksum mismatch")
          else ok digest
    ]
  ]

  unfoldable pub verify_backup : FilePath → Disk → Result String × Disk
  unfolding compare_checksum
  verify_backup p d =
      if is_missing (read p d)
      then (raise (other "backup dump is missing or empty"), d)
      else (let (listed, d1) = run_command (list_command p) d in
          if not listed then failed_command d1 else elim (read p d1) [
            | none ↦ (raise (other "FileNotFoundError"), d1)
            | some f ↦ (compare_checksum p (M.sha256 f.content) d1, d1)
          ])

  abbrev pub restore_command : FilePath → List String
  restore_command p =
      ("pg_restore" ∷ "--exit-on-error" ∷ "--no-owner" ∷ [])
      ++ database_options cfg.database_url
      ++ ("--dbname" ∷ or_default cfg.database_url.database "" ∷ text_of cfg.backup_dir p ∷ [])

  unfoldable pub restore_backup : FilePath → Disk → Result (Unit {0}) × Disk
  restore_backup p d =
      if is_missing (read p d)
      then (raise (other "backup dump is missing or empty"), d)
      else (let (restored, d1) = run_command (restore_command p) d in
          if not restored then failed_command d1 else (ok tt, d1))
