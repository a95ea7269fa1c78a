-- ===== src/Ingestion/Adapters/Entries.antt =====
-- What becomes of the entries of a page.
use job_finder_agent.Common.{
  ◌+◌, ◌≡◌, ◌⊎◌, refl, inl, inr, true, false, none, some, List, [], ◌∷◌, arith, all, length, String,
  Bool-cases,
}
use job_finder_agent.Ingestion.Adapters.Json.{
  Json, null, boolean, number, text, array, object, Error, key_error, type_error, attribute_error,
  Python, value, error, is_object,
}
use job_finder_agent.Ingestion.Adapters.Postings.{
  RawRecord, Yielded, is_malformed, yield_all, greenhouse_record, lever_record,
}

Python-cases :
    {A : Type 0} (r : Python A) → ((a : A) × (r ≡ value a)) ⊎ ((e : Error) × (r ≡ error e))
Python-cases (value a) = inl (a, refl)
Python-cases (error e) = inr (e, refl)

attribute_error-eq : (e : Error) → is_malformed e ≡ false → e ≡ attribute_error
attribute_error-eq key_error h = cc
attribute_error-eq type_error h = cc
attribute_error-eq attribute_error h = refl

-- Either an AttributeError ends the fetch, or every entry is a dictionary and is yielded or counted as
-- malformed.
abbrev pub IsAccounted : List Json → Yielded → Type 0
IsAccounted jobs y =
    (y.raised ≡ some attribute_error)
    ⊎ (y.raised ≡ none)
      × (all is_object jobs ≡ true)
      × (length y.records + y.malformed ≡ length jobs)

module _ (read : Json → Python RawRecord)
    (refuses : (j : Json) → is_object j ≡ false → read j ≡ error attribute_error) where
  yield_all-IsAccounted : (jobs : List Json) → IsAccounted jobs (yield_all read jobs)
  unfolding yield_all
  yield_all-IsAccounted [] = inr (refl, refl, omega arith)
  yield_all-IsAccounted (job ∷ jobs) = elim (Python-cases (read job)) [
    | inr (e, raised) ↦ elim (Bool-cases (is_malformed e)) [
      | inr crashes ↦ inl (ground (arith, raised, crashes, attribute_error-eq e crashes))
      | inl counted ↦ elim (yield_all-IsAccounted jobs) [
        | inl later ↦ inl (ground (arith, raised, counted, later))
        | inr (none_raised, objects, sum) ↦ elim (Bool-cases (is_object job)) [
          | inl here ↦ inr (
            ground (arith, raised, counted, none_raised),
            ground (arith, here, objects),
            ground (arith, raised, counted, sum),
          )
          | inr other ↦ absurd (ground (arith, raised, counted, refuses job other))
        ]
      ]
    ]
    | inl (p, yields) ↦ elim (yield_all-IsAccounted jobs) [
      | inl later ↦ inl (ground (arith, yields, later))
      | inr (none_raised, objects, sum) ↦ elim (Bool-cases (is_object job)) [
        | inl here ↦ inr (
          ground (arith, yields, none_raised),
          ground (arith, here, objects),
          ground (arith, yields, sum),
        )
        | inr other ↦ absurd (ground (arith, yields, refuses job other))
      ]
    ]
  ]

module _ (json_text : Json → String) where
  greenhouse_record-refuses :
      (j : Json) → is_object j ≡ false → greenhouse_record json_text j ≡ error attribute_error
  unfolding greenhouse_record
  greenhouse_record-refuses null h = refl
  greenhouse_record-refuses (boolean b) h = refl
  greenhouse_record-refuses (number z digits) h = refl
  greenhouse_record-refuses (text s) h = refl
  greenhouse_record-refuses (array xs) h = refl
  greenhouse_record-refuses (object fields) h = cc

  lever_record-refuses :
      (j : Json) → is_object j ≡ false → lever_record json_text j ≡ error attribute_error
  unfolding lever_record
  lever_record-refuses null h = refl
  lever_record-refuses (boolean b) h = refl
  lever_record-refuses (number z digits) h = refl
  lever_record-refuses (text s) h = refl
  lever_record-refuses (array xs) h = refl
  lever_record-refuses (object fields) h = cc

  -- No entry of a page is lost: if no exception ends the fetch, every entry is a dictionary, and the
  -- records and the malformed entries that are counted are together as many as the entries. The only
  -- exception that an entry can end it with is an AttributeError, which is no AdapterError, and one entry
  -- that is no dictionary is enough for that.
  pub adapters-IsAccounted :
      (jobs : List Json)
      → IsAccounted jobs (yield_all (greenhouse_record json_text) jobs)
        × IsAccounted jobs (yield_all (lever_record json_text) jobs)
  adapters-IsAccounted jobs = (
    yield_all-IsAccounted (greenhouse_record json_text) greenhouse_record-refuses jobs,
    yield_all-IsAccounted (lever_record json_text) lever_record-refuses jobs,
  )
