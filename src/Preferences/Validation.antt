-- ===== src/Preferences/Validation.antt =====
-- What validated preferences satisfy.
use job_finder_agent.Common.{
  true, ◌≤◌, ◌≡◌, refl, ◌∙◌, sym, false, some, List, [], ◌∷◌, map, any, All, length, String, str_eq,
  leb, ◌==◌, ==_iff, arith, Texts, Bool-cases, inl, inr,
}
use job_finder_agent.Session.{ok, Result-cases}
use job_finder_agent.Preferences.Schemas.{
  PreferenceInput, to_set, clean_values, validate_work_modes, validate_range, clean, validate,
}

-- No text occurs twice.
abbrev AreDistinct : List String → Type 0
AreDistinct [] = Unit
AreDistinct (x ∷ xs) = (any (str_eq x) xs ≡ false) × AreDistinct xs

length-to_set-le : (xs : List String) → length (to_set xs) ≤ length xs
unfolding to_set
length-to_set-le [] = omega arith
length-to_set-le (x ∷ xs) = ground (arith, length-to_set-le xs)

to_set-AreDistinct : (xs : List String) → length (to_set xs) ≡ length xs → AreDistinct xs
unfolding to_set
to_set-AreDistinct [] h = tt
to_set-AreDistinct (x ∷ xs) h = elim (Bool-cases (any (str_eq x) xs)) [
  | inl e ↦ ground (arith, e, length-to_set-le xs)
  | inr e ↦ (e, to_set-AreDistinct xs (ground (arith, e)))
]

any-false :
    (xs : List String) → any (λ v. str_eq v "") xs ≡ false → All (λ v. str_eq v "" ≡ false) xs
any-false [] h = tt
any-false (x ∷ xs) h = (ground arith, any-false xs (ground arith))

length-map : (f : String → String) (xs : List String) → length (map f xs) ≡ length xs
length-map f [] = refl
length-map f (x ∷ xs) = ground (arith, length-map f xs)

module _ (T : Texts) where
  -- The two tests that the values pass.
  clean_values-tests :
      (values : List String) (field_name : String) (cleaned : List String)
      → clean_values T values field_name ≡ ok cleaned
      → (cleaned ≡ map T.strip values)
        × (any (λ v. str_eq v "") (map T.strip values) ≡ false)
        × (length (to_set (map T.casefold (map T.strip values))) ≡ length (map T.strip values))
  unfolding clean_values
  clean_values-tests values field_name cleaned h =
      let stripped = map T.strip values in
      let many = length (to_set (map T.casefold stripped)) in
      elim (Bool-cases (any (λ v. str_eq v "") stripped)) [
        | inl e ↦ ground (arith, e)
        | inr e ↦ elim (Bool-cases (many == length stripped)) [
          | inl same ↦ (ground (arith, e, same), e, (==_iff many (length stripped)).0 same)
          | inr other ↦ ground (arith, e, other)
        ]
      ]

  -- What a validator of a list returns: the stripped entries, none of them empty and no two the same
  -- but for case.
  pub clean_values-ok :
      (values : List String) (field_name : String) (cleaned : List String)
      → clean_values T values field_name ≡ ok cleaned
      → (cleaned ≡ map T.strip values)
        × All (λ v. str_eq v "" ≡ false) cleaned
        × AreDistinct (map T.casefold cleaned)
  clean_values-ok values field_name cleaned h =
      let (same, full, many) = clean_values-tests values field_name cleaned h in
      let stripped = map T.strip values in
      (
        same,
        rw same (any-false stripped full),
        rw same (
            to_set-AreDistinct (map T.casefold stripped)
              (many ∙ sym (length-map T.casefold stripped))),
      )

  map-strip :
      ((v : String) → T.strip (T.strip v) ≡ T.strip v)
      → (xs : List String) → map T.strip (map T.strip xs) ≡ map T.strip xs
  map-strip h [] = refl
  map-strip h (x ∷ xs) = ground (arith, h x, map-strip h xs)

  clean_values-again :
      ((v : String) → T.strip (T.strip v) ≡ T.strip v)
      → (values : List String) (field_name : String) (cleaned : List String)
      → clean_values T values field_name ≡ ok cleaned
      → clean_values T cleaned field_name ≡ ok cleaned
  unfolding clean_values
  clean_values-again strips values field_name cleaned h =
      let (same, full, many) = clean_values-tests values field_name cleaned h in
      let stripped = map T.strip values in
      let fixed = map-strip strips values in
      let equal = (==_iff (length (to_set (map T.casefold stripped))) (length stripped)).1 many in
      rw (same, fixed, full, equal) refl

  clean-again :
      ((v : String) → T.strip (T.strip v) ≡ T.strip v)
      → (values : List String) (field_name : String) (cleaned : List String)
      → clean T values field_name ≡ some cleaned
      → clean T cleaned field_name ≡ some cleaned
  clean-again strips values field_name cleaned h =
      elim (Result-cases (clean_values T values field_name)) [
        | inl (v, e) ↦
            let same : v ≡ cleaned = ground (arith, rw e at h) in
            ground (arith, same, clean_values-again strips values field_name v e)
        | inr (x, e) ↦ cc (rw e at h)
      ]

  -- What the validators made of each part of accepted preferences.
  validate-parts :
      (p q : PreferenceInput)
      → validate T p ≡ some q
      → (clean T p.titles "titles" ≡ some q.titles)
        × (clean T p.skills.must_have "must_have" ≡ some q.skills.must_have)
        × (clean T p.skills.nice_to_have "nice_to_have" ≡ some q.skills.nice_to_have)
        × (clean T p.locations "preferred locations" ≡ some q.locations)
        × (clean T p.work_mode "work_mode" ≡ some q.work_mode)
        × (validate_work_modes q.work_mode ≡ some q.work_mode)
        × (validate_range q.experience ≡ some q.experience)
        × (clean T p.companies "preferred companies" ≡ some q.companies)
        × (clean T p.exclusions "exclusions" ≡ some q.exclusions)
        × (leb q.minimum_score 100 ≡ true)
  unfolding validate validate_work_modes validate_range
  validate-parts p q h = ground (arith, h)

  -- Preferences that were accepted are accepted again as they are, where `str.strip` leaves a stripped
  -- text as it is: what is stored can be read back.
  pub validate-again :
      ((v : String) → T.strip (T.strip v) ≡ T.strip v)
      → (p q : PreferenceInput) → validate T p ≡ some q
      → validate T q ≡ some q
  unfolding validate
  validate-again strips p q h =
      let (a, b, c, d, e, f, g, i, j, n) = validate-parts p q h in
      rw
        (
          clean-again strips p.titles "titles" q.titles a,
          clean-again strips p.skills.must_have "must_have" q.skills.must_have b,
          clean-again strips p.skills.nice_to_have "nice_to_have" q.skills.nice_to_have c,
          clean-again strips p.locations "preferred locations" q.locations d,
          clean-again strips p.work_mode "work_mode" q.work_mode e,
          f,
          g,
          clean-again strips p.companies "preferred companies" q.companies i,
          clean-again strips p.exclusions "exclusions" q.exclusions j,
          n,
        )
        refl
