-- ===== src/Deletion/Tables.antt =====
-- Tables that refer to one another by foreign keys: rows that go because of a key, and what is left.
-- A key that may be NULL is an option.
use job_finder_agent.Common.{
  ℕ, ◌≡◌, refl, Bool, true, false, ◌&&◌, not, Option, none, some, List, [], ◌∷◌, any, All,
  filter_by, ◌==◌, Bool-cases, inl, inr, arith, map, update_where,
}

-- The key names one of the rows that go.
abbrev pub named_by : (ℕ → Bool) → Option ℕ → Bool
named_by gone none = false
named_by gone (some k) = gone k

abbrev points_to : (ℕ → Bool) → Option ℕ → Bool
points_to there none = true
points_to there (some k) = there k

module _ {A : Type 0} where
  abbrev pub delete_rows : (A → Bool) → List A → List A
  delete_rows goes rows = filter_by (λ r. not (goes r)) rows

  -- The primary keys of the rows that go, and of all rows.
  abbrev pub ids_of : (A → Bool) → (A → ℕ) → List A → ℕ → Bool
  ids_of goes id rows k = any (λ r. id r == k && goes r) rows

  abbrev pub has_id : (A → ℕ) → List A → ℕ → Bool
  has_id id rows k = any (λ r. id r == k) rows

  has_id-delete_rows :
      (goes : A → Bool) (id : A → ℕ) (rows : List A) (k : ℕ)
      → has_id id rows k ≡ true
      → ids_of goes id rows k ≡ false
      → has_id id (delete_rows goes rows) k ≡ true
  has_id-delete_rows goes id [] k there stays = there
  has_id-delete_rows goes id (r ∷ rows) k there stays =
      ground (arith, has_id-delete_rows goes id rows k)

  pub has_id-deleted :
      (goes : A → Bool) (id : A → ℕ) (k : ℕ) (rows : List A)
      → ((r : A) → goes r ≡ (id r == k))
      → has_id id (delete_rows goes rows) k ≡ false
  has_id-deleted goes id k [] is = refl
  has_id-deleted goes id k (r ∷ rows) is = ground (arith, is r, has_id-deleted goes id k rows is)

  -- Rows that do not go are the same rows in the same order.
  pub filter_by-delete_rows :
      (keep goes : A → Bool) (rows : List A)
      → ((r : A) → keep r ≡ true → goes r ≡ false)
      → filter_by keep (delete_rows goes rows) ≡ filter_by keep rows
  filter_by-delete_rows keep goes [] other = refl
  filter_by-delete_rows keep goes (r ∷ rows) other =
      ground (arith, other r, filter_by-delete_rows keep goes rows other)

  pub filter_by-deleted :
      (drop goes : A → Bool) (rows : List A)
      → ((r : A) → drop r ≡ true → goes r ≡ true)
      → filter_by drop (delete_rows goes rows) ≡ []
  filter_by-deleted drop goes [] all = refl
  filter_by-deleted drop goes (r ∷ rows) all =
      ground (arith, all r, filter_by-deleted drop goes rows all)

-- Every key names a row of the other table.
abbrev pub Refers : {A B : Type 0} → (A → Option ℕ) → List A → (B → ℕ) → List B → Type 0
Refers key rows id parents = All (λ r. points_to (has_id id parents) (key r) ≡ true) rows

module _ {A B : Type 0} (key : A → Option ℕ) (id : B → ℕ) where
  points_to-delete_rows :
      (goes : B → Bool) (parents : List B) (k : Option ℕ)
      → points_to (has_id id parents) k ≡ true
      → named_by (ids_of goes id parents) k ≡ false
      → points_to (has_id id (delete_rows goes parents)) k ≡ true
  points_to-delete_rows goes parents none there stays = refl
  points_to-delete_rows goes parents (some k) there stays =
      has_id-delete_rows goes id parents k there stays

  -- If the rows whose key names a row that goes are among those that go, no key is left dangling.
  pub Refers-delete_rows :
      (goes : A → Bool) (goes' : B → Bool) (parents : List B)
      → ((r : A) → goes r ≡ false → named_by (ids_of goes' id parents) (key r) ≡ false)
      → (rows : List A) → Refers key rows id parents
      → Refers key (delete_rows goes rows) id (delete_rows goes' parents)
  Refers-delete_rows goes goes' parents with_it [] h = tt
  Refers-delete_rows goes goes' parents with_it (r ∷ rows) h = elim (Bool-cases (goes r)) [
    | inl e ↦ rw e (Refers-delete_rows goes goes' parents with_it rows h.1)
    | inr e ↦ rw e (
      points_to-delete_rows goes' parents (key r) h.0 (with_it r e),
      Refers-delete_rows goes goes' parents with_it rows h.1,
    )
  ]

  -- A table that loses rows, beside one that keeps all.
  pub Refers-kept :
      (goes : A → Bool) (parents : List B) (rows : List A)
      → Refers key rows id parents
      → Refers key (delete_rows goes rows) id parents
  Refers-kept goes parents [] h = tt
  Refers-kept goes parents (r ∷ rows) h = elim (Bool-cases (goes r)) [
    | inl e ↦ rw e (Refers-kept goes parents rows h.1)
    | inr e ↦ rw e (h.0, Refers-kept goes parents rows h.1)
  ]

  -- Keys that are set to NULL where they name a row that goes.
  pub Refers-update_where :
      (goes : B → Bool) (parents : List B) (set_null : A → A)
      → ((r : A) → key (set_null r) ≡ none)
      → (rows : List A) → Refers key rows id parents
      → Refers key
          (update_where (λ r. named_by (ids_of goes id parents) (key r)) set_null rows)
          id
          (delete_rows goes parents)
  unfolding update_where
  Refers-update_where goes parents set_null is [] h = tt
  Refers-update_where goes parents set_null is (r ∷ rows) h =
      elim (Bool-cases (named_by (ids_of goes id parents) (key r))) [
        | inl e ↦ rw e (rw (is r) refl, Refers-update_where goes parents set_null is rows h.1)
        | inr e ↦ rw e (
          points_to-delete_rows goes parents (key r) h.0 e,
          Refers-update_where goes parents set_null is rows h.1,
        )
      ]

module _ {A B : Type 0} (f : A → B) where
  -- An update that `f` does not see.
  pub map-update_where :
      (p : A → Bool) (g : A → A) (rows : List A)
      → ((r : A) → f (g r) ≡ f r)
      → map f (update_where p g rows) ≡ map f rows
  unfolding update_where
  map-update_where p g [] same = refl
  map-update_where p g (r ∷ rows) same = ground (arith, same r, map-update_where p g rows same)
