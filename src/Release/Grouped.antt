-- ===== src/Release/Grouped.antt =====
-- The release notes lose no commit.
use job_finder_agent.Common.{
  ℕ, suc, ◌≡◌, ◌⊎◌, ◌∙◌, ◌⧺◌, refl, sym, ap, true, false, List, [], ◌∷◌, ◌++◌, map, filter_by, All,
  String, str_eq, eq_iff, if◌then◌else◌, Bool-cases, inl, inr, arith, Texts,
}
use mathlib.Core.List.{Perm, append-nil, append_assoc, perm_middle, perm-append_left_iff}
use mathlib.Core.List.Perm
use mathlib.Core.Path.{fun_ext}
use job_finder_agent.Release.{
  category_names, category_of, headings, Groups, titles_of, append_title, concat_map, categorize,
  kind_of, group_all, section, render,
}

List-cases :
    (xs : List String) → (xs ≡ []) ⊎ ((x : String) × (rest : List String) × (xs ≡ x ∷ rest))
List-cases [] = inl refl
List-cases (x ∷ xs) = inr (x, xs, refl)

apart : (j k c : String) → str_eq j k ≡ false → str_eq j c ≡ true → str_eq k c ≡ false
apart j k c e h = ground (arith, eq_iff j k, eq_iff j c, eq_iff k c)

titles_of-append_title :
    (c k title : String) (groups : Groups)
    → titles_of c (append_title k title groups)
      ≡ titles_of c groups ++ (if str_eq k c then title ∷ [] else [])
unfolding titles_of append_title
titles_of-append_title c k title [] = ground arith
titles_of-append_title c k title ((j, titles) ∷ groups) = elim (Bool-cases (str_eq j k)) [
  | inl e ↦
      let same : j ≡ k = (eq_iff j k).0 e in
      rw (e, titles_of)
        (rw same (elim (Bool-cases (str_eq k c)) [
          | inl h ↦ rw h refl
          | inr h ↦ rw h (sym (append-nil (titles_of c groups)))
        ]))
  | inr e ↦
      rw (e, titles_of)
        (elim (Bool-cases (str_eq j c)) [
          | inl h ↦ rw (h, apart j k c e h) (sym (append-nil titles))
          | inr h ↦ rw h (titles_of-append_title c k title groups)
        ])
]

-- How often a text stands in a list.
abbrev count_text : String → List String → ℕ
count_text k [] = 0
count_text k (c ∷ cs) = if str_eq k c then suc (count_text k cs) else count_text k cs

-- Each category that is given stands once among the headings.
category_of-once :
    (kind : String) (names : List (String × String)) (cs : List String)
    → All (λ e. count_text e.1 cs ≡ 1) names
    → count_text "Other" cs ≡ 1
    → count_text (category_of kind names) cs ≡ 1
unfolding category_of
category_of-once kind [] cs h other = other
category_of-once kind ((k, name) ∷ names) cs h other = elim (Bool-cases (str_eq k kind)) [
  | inl e ↦ rw e h.0
  | inr e ↦ rw e (category_of-once kind names cs h.1 other)
]

module _ (T : Texts) where
  categorize-once : (subject : String) → count_text (categorize T subject).0 headings ≡ 1
  unfolding categorize
  categorize-once subject =
      category_of-once (kind_of T subject) category_names headings
        (refl, (refl, (refl, (refl, (refl, (refl, (refl, (refl, (refl, tt))))))))) refl

  -- The titles of one category, in the order of the subjects.
  abbrev pub titled : List String → String → List String
  titled subjects category =
      map (λ s. (categorize T s).1) (filter_by (λ s. str_eq (categorize T s).0 category) subjects)

  titles_of-group_all :
      (c : String) (subjects : List String) (groups : Groups)
      → titles_of c (group_all T subjects groups) ≡ titles_of c groups ++ titled subjects c
  unfolding group_all
  titles_of-group_all c [] groups = sym (append-nil (titles_of c groups))
  titles_of-group_all c (s ∷ subjects) groups =
      titles_of-group_all c subjects (append_title (categorize T s).0 (categorize T s).1 groups)
      ∙ rw (titles_of-append_title c (categorize T s).0 (categorize T s).1 groups) (
          append_assoc (titles_of c groups) _ (titled subjects c)
          ∙ (elim (Bool-cases (str_eq (categorize T s).0 c)) [
            | inl e ↦ rw e refl
            | inr e ↦ rw e refl
          ]))

-- A title that stands in front of the list of one category.
module _ (k title : String) (f : String → List String) where
  abbrev with_title : String → List String
  with_title c = if str_eq k c then title ∷ f c else f c

  with_title-absent :
      (cs : List String) → count_text k cs ≡ 0 → concat_map with_title cs ≡ concat_map f cs
  with_title-absent [] h = refl
  with_title-absent (c ∷ cs) h = elim (Bool-cases (str_eq k c)) [
    | inl e ↦ absurd (let z : suc (count_text k cs) ≡ 0 = rw e at h in omega arith)
    | inr e ↦ rw e (ap (λ xs. f c ++ xs) (with_title-absent cs (rw e at h)))
  ]

  with_title-perm :
      (cs : List String)
      → count_text k cs ≡ 1
      → Perm (concat_map with_title cs) (title ∷ concat_map f cs)
  with_title-perm [] h = absurd (omega (arith, h))
  with_title-perm (c ∷ cs) h = elim (Bool-cases (str_eq k c)) [
    | inl e ↦
        let none_left : count_text k cs ≡ 0 =
          (let z : suc (count_text k cs) ≡ 1 = rw e at h in omega arith) in
        rw (e, with_title-absent cs none_left) (Perm.refl (title ∷ f c ++ concat_map f cs))
    | inr e ↦ rw e (
        Perm.trans ((perm-append_left_iff (f c)).1 (with_title-perm cs (rw e at h)))
          (perm_middle (f c) (concat_map f cs)))
  ]

module _ (T : Texts) where
  concat_map-cong :
      (f g : String → List String) (cs : List String)
      → ((c : String) → f c ≡ g c)
      → concat_map f cs ≡ concat_map g cs
  concat_map-cong f g cs same = ap (λ h. concat_map h cs) (fun_ext same)

  titled-cons :
      (s : String) (subjects : List String) (c : String)
      → titled T (s ∷ subjects) c
        ≡ with_title (categorize T s).0 (categorize T s).1 (titled T subjects) c
  titled-cons s subjects c = elim (Bool-cases (str_eq (categorize T s).0 c)) [
    | inl e ↦ rw e refl
    | inr e ↦ rw e refl
  ]

  titled-perm :
      (subjects : List String)
      → Perm (concat_map (titled T subjects) headings) (map (λ s. (categorize T s).1) subjects)
  titled-perm [] = Perm.refl []
  titled-perm (s ∷ subjects) =
      rw
        (concat_map-cong (titled T (s ∷ subjects))
          (with_title (categorize T s).0 (categorize T s).1 (titled T subjects)) headings
          (titled-cons s subjects))
        (Perm.trans
          (with_title-perm (categorize T s).0 (categorize T s).1 (titled T subjects) headings
            (categorize-once T s))
          (Perm.cons (categorize T s).1 (titled-perm subjects)))

  -- The lines of one heading with its titles; a heading without any is left out.
  abbrev pub listing : String → List String → List String
  listing category [] = []
  listing category (title ∷ titles) =
      ("## " ⧺ category) ∷ "" ∷ (map (λ item. "- " ⧺ item) (title ∷ titles) ++ ("" ∷ []))

  section-listing :
      (groups : Groups) (category : String)
      → section groups category ≡ listing category (titles_of category groups)
  unfolding section
  section-listing groups category = elim (List-cases (titles_of category groups)) [
    | inl e ↦ rw e refl
    | inr (title, titles, e) ↦ rw e refl
  ]

  concat_map-section :
      (subjects : List String)
      → concat_map (section (group_all T subjects [])) headings
        ≡ concat_map (λ category. listing category (titled T subjects category)) headings
  unfolding titles_of
  concat_map-section subjects =
      concat_map-cong (section (group_all T subjects []))
        (λ category. listing category (titled T subjects category)) headings
        (λ category.
          section-listing (group_all T subjects []) category
          ∙ ap (listing category) (titles_of-group_all T category subjects []))

  -- The notes lose no commit. They are the lines of a title, of the commit and of the moment, and then,
  -- heading by heading, the titles of the commits of its category, each as an item, in the order of the
  -- log. The titles under all headings are together those of all commits, each as often as it occurs.
  pub render-perm :
      (rstrip : String → String) (subjects : List String) (version commit_sha generated_at : String)
      → (render T rstrip subjects version commit_sha generated_at
          ≡ rstrip (
              T.join "\n" (
                (("# Release " ⧺ version)
                  ∷ ""
                  ∷ ("- Commit: `" ⧺ commit_sha ⧺ "`")
                  ∷ ("- Generated: " ⧺ generated_at)
                  ∷ ""
                  ∷ [])
                ++ concat_map (λ category. listing category (titled T subjects category)) headings))
            ⧺ "\n")
        × Perm (concat_map (titled T subjects) headings) (map (λ s. (categorize T s).1) subjects)
  unfolding render
  render-perm rstrip subjects version commit_sha generated_at =
      (rw (concat_map-section subjects) refl, titled-perm subjects)
