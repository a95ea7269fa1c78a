-- ===== src/Release.antt =====
-- scripts/release_notes.py: the release notes from the subjects of commits. What git answers is a
-- parameter, and so are the methods of texts.
pub mod Grouped
use job_finder_agent.Common.{
  ℕ, ◌+◌, Bool, true, false, not, Option, none, some, List, [], ◌∷◌, ◌++◌, map, filter_by, String,
  str_eq, if◌then◌else◌, ◌⧺◌, Texts,
}
use text.Mathlib.Text.{find?}

-- `CATEGORIES`
abbrev pub category_names : List (String × String)
category_names =
    ("feat", "Features")
    ∷ ("fix", "Fixes")
    ∷ ("perf", "Performance")
    ∷ ("refactor", "Refactoring")
    ∷ ("docs", "Documentation")
    ∷ ("build", "Build and dependencies")
    ∷ ("ci", "CI/CD")
    ∷ ("chore", "Maintenance")
    ∷ ("test", "Tests")
    ∷ []

-- `CATEGORIES.get(kind, "Other")`
unfoldable pub category_of : String → List (String × String) → String
category_of kind [] = "Other"
category_of kind ((k, name) ∷ names) = if str_eq k kind then name else category_of kind names

-- `(*CATEGORIES.values(), "Other")`
abbrev pub headings : List String
headings = map (λ e. e.1) category_names ++ ("Other" ∷ [])

-- The lists of titles by category.
abbrev pub Groups : Type 0
Groups = List (String × List String)

-- `grouped[category]`, or an empty list where the key is missing.
unfoldable pub titles_of : String → Groups → List String
titles_of category [] = []
titles_of category ((c, titles) ∷ groups) =
    if str_eq c category then titles else titles_of category groups

-- `grouped[category].append(title)`
unfoldable pub append_title : String → String → Groups → Groups
append_title category title [] = (category, title ∷ []) ∷ []
append_title category title ((c, titles) ∷ groups) =
    if str_eq c category
    then (c, titles ++ (title ∷ [])) ∷ groups
    else (c, titles) ∷ append_title category title groups

abbrev is_empty : List String → Bool
is_empty [] = true
is_empty (x ∷ xs) = false

abbrev pub concat_map : {A : Type 0} → (String → List A) → List String → List A
concat_map f [] = []
concat_map f (x ∷ xs) = f x ++ concat_map f xs

-- The lines under one heading.
unfoldable pub section : Groups → String → List String
unfolding titles_of
section groups category =
    if is_empty (titles_of category groups)
    then []
    else ("## " ⧺ category)
      ∷ ""
      ∷ (map (λ item. "- " ⧺ item) (titles_of category groups) ++ ("" ∷ []))

module _ (T : Texts) where
  -- The text before a separator, and the text behind it where it is there: `str.partition`.
  unfoldable pub partition : String → String → String × Option String
  partition separator text = elim (find? text separator) [
    | none ↦ (text, none)
    | some i ↦ (T.until i text, some (T.from (i + 1) text))
  ]

  -- The type of a commit, without its scope.
  abbrev pub kind_of : String → String
  kind_of subject = T.strip (T.lower (partition "(" (partition ":" subject).0).0)

  unfoldable pub categorize : String → String × String
  unfolding partition category_of
  categorize subject =
      let description = (partition ":" subject).1 in
      let title : String = elim description [ none ↦ T.strip subject | some d ↦ T.strip d ] in
      (category_of (kind_of subject) category_names, title)

  -- The loop that fills `grouped`.
  unfoldable pub group_all : List String → Groups → Groups
  unfolding categorize append_title
  group_all [] groups = groups
  group_all (subject ∷ subjects) groups =
      group_all subjects (append_title (categorize subject).0 (categorize subject).1 groups)

  module _ (rstrip : String → String) where
    unfoldable pub render : List String → String → String → String → String
    unfolding group_all section
    render subjects version commit_sha generated_at =
        let lines =
          (("# Release " ⧺ version)
            ∷ ""
            ∷ ("- Commit: `" ⧺ commit_sha ⧺ "`")
            ∷ ("- Generated: " ⧺ generated_at)
            ∷ ""
            ∷ [])
          ++ concat_map (section (group_all subjects [])) headings in
        rstrip (T.join "\n" lines) ⧺ "\n"

    -- `git_subjects`, where `git log` gives its lines or fails.
    unfoldable pub git_subjects :
        (String → Option (List String)) → Option String → String → Option (List String)
    git_subjects git_log from_ref to_ref =
        let revision : String = elim from_ref [
          | none ↦ to_ref
          | some r ↦ if str_eq r "" then to_ref else r ⧺ ".." ⧺ to_ref
        ] in
        elim (git_log revision) [
          | none ↦ none
          | some lines ↦ some (filter_by (λ line. not (str_eq (T.strip line) "")) lines)
        ]

    -- `main` from the parsed arguments on: the exit code, and the notes that are written.
    unfoldable pub main :
        (String → Option String)
        → (String → Option (List String))
        → Option String
        → String
        → String
        → String
        → ℕ × Option String
    unfolding render git_subjects
    main rev_parse git_log from_ref to_ref version generated_at = elim (rev_parse to_ref) [
      | none ↦ (2, none)
      | some sha ↦ elim (git_subjects git_log from_ref to_ref) [
        | none ↦ (2, none)
        | some subjects ↦ (0, some (render subjects version (T.strip sha) generated_at))
      ]
    ]
