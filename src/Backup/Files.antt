-- ===== src/Backup/Files.antt =====
-- A directory of files. A name is its stem and its suffix, as pathlib splits it.
use job_finder_agent.Common.{
  ℕ, ◌≡◌, refl, Bool, true, false, ◌&&◌, Option, none, some, List, [], ◌∷◌, String, str_eq, eq_iff,
  if◌then◌else◌, arith, ◌⧺◌, Bool-cases, inl, inr,
}

pub record FilePath : Type 0 where
  pub stem : String
  pub suffix : String

-- `modified` is `st_mtime`.
pub record File : Type 0 where
  pub content : String
  pub modified : ℕ

abbrev pub Disk : Type 0
Disk = List (FilePath × File)

-- `Path.name`
abbrev pub name_of : FilePath → String
name_of p = p.stem ⧺ p.suffix

abbrev pub same_path : FilePath → FilePath → Bool
same_path p q = str_eq p.stem q.stem && str_eq p.suffix q.suffix

unfoldable pub read : FilePath → Disk → Option File
read p [] = none
read p ((q, f) ∷ d) = if same_path q p then some f else read p d

-- `Path.unlink(missing_ok=True)`
unfoldable pub unlink : FilePath → Disk → Disk
unlink p [] = []
unlink p ((q, f) ∷ d) = if same_path q p then unlink p d else (q, f) ∷ unlink p d

-- `Path.write_text`
unfoldable pub write : FilePath → File → Disk → Disk
unfolding unlink
write p f d = (p, f) ∷ unlink p d

same_path_eq : (p q r : FilePath) → same_path p q ≡ true → same_path p r ≡ same_path q r
same_path_eq p q r h = ground (arith, eq_iff p.stem q.stem, eq_iff p.suffix q.suffix)

same_path_apart :
    (r p q : FilePath) → same_path r p ≡ false → same_path r q ≡ true → same_path p q ≡ false
same_path_apart r p q apart same = ground (
  arith,
  eq_iff r.stem q.stem,
  eq_iff r.suffix q.suffix,
  eq_iff p.stem q.stem,
  eq_iff p.suffix q.suffix,
  eq_iff r.stem p.stem,
  eq_iff r.suffix p.suffix,
)

pub read-unlink :
    (p q : FilePath) (d : Disk) → read q (unlink p d) ≡ (if same_path p q then none else read q d)
unfolding read unlink
read-unlink p q [] = ground arith
read-unlink p q ((r, f) ∷ d) = elim (Bool-cases (same_path r p)) [
  | inl e ↦
      rw (e, read-unlink p q d, same_path_eq r p q e)
        (elim (Bool-cases (same_path p q)) [ inl h ↦ rw h refl | inr h ↦ rw h refl ])
  | inr e ↦
      rw (e, read, read-unlink p q d)
        (elim (Bool-cases (same_path r q)) [
          | inl h ↦ rw (h, same_path_apart r p q e h) refl
          | inr h ↦ rw h refl
        ])
]

pub read-write :
    (p q : FilePath) (f : File) (d : Disk)
    → read q (write p f d) ≡ (if same_path p q then some f else read q d)
unfolding read write
read-write p q f d = ground (arith, read-unlink p q d)
