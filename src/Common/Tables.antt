-- ===== src/Common/Tables.antt =====
-- A table is its rows in the order of insertion. The queries of the repositories are
-- `select(…).where(p)` with the first row taken, the same with all rows taken, and
-- `update(…).where(p).values(f)`.
use mathlib.Core.Path.{◌≡◌, refl, subst}
use mathlib.Core.Logic.{inl, inr}
use mathlib.Core.Bool.{Bool, true}
use mathlib.Core.List.{List, [], ◌∷◌, ◌++◌}
use mathlib.Core.Option.{Option, none, some}
use native.Mathlib.Omega.{arith}
use job_finder_agent.Common.Tests.{if◌then◌else◌, Bool-cases}
use job_finder_agent.Common.Lists.{All, length}

module _ {ℓ} {A : Type ℓ} where
  -- `session.scalar(select(T).where(p))`
  unfoldable pub find : (A → Bool) → List A → Option A
  find p [] = none
  find p (x ∷ xs) = if p x then some x else find p xs

  -- `update(T).where(p).values(f)`
  unfoldable pub update_where : (A → Bool) → (A → A) → List A → List A
  update_where p f [] = []
  update_where p f (x ∷ xs) = (if p x then f x else x) ∷ update_where p f xs

  -- `session.add(row)`
  abbrev pub add : A → List A → List A
  add x xs = xs ++ (x ∷ [])

  pub find-satisfies : (p : A → Bool) (xs : List A) {x : A} → find p xs ≡ some x → p x ≡ true
  unfolding find
  find-satisfies p [] h = cc
  find-satisfies p (x ∷ xs) {x = y} h = ground (arith, find-satisfies p xs {x = y})

  -- A row that is found stays found when rows are added.
  pub find-append :
      (p : A → Bool) (xs ys : List A) (x : A) → find p xs ≡ some x → find p (xs ++ ys) ≡ some x
  unfolding find
  find-append p [] ys x h = cc
  find-append p (y ∷ xs) ys x h = ground (arith, find-append p xs ys x)

  pub length-update_where :
      (p : A → Bool) (f : A → A) (xs : List A) → length (update_where p f xs) ≡ length xs
  unfolding update_where
  length-update_where p f [] = refl
  length-update_where p f (x ∷ xs) = ground (arith, length-update_where p f xs)

  -- An update that neither makes a row fit `p` nor stops it from fitting.
  pub find-update_where :
      (p q : A → Bool) (f : A → A) (xs : List A)
      → ((x : A) → p (f x) ≡ p x)
      → find p (update_where q f xs)
        ≡ elim (find p xs) [ none ↦ none | some x ↦ some (if q x then f x else x) ]
  unfolding find update_where
  find-update_where p q f [] h = refl
  find-update_where p q f (x ∷ xs) h = ground (arith, h x, find-update_where p q f xs h)

  pub find-add :
      (p : A → Bool) (xs : List A) (y : A)
      → find p (add y xs)
        ≡ elim (find p xs) [ none ↦ if p y then some y else none | some x ↦ some x ]
  unfolding find
  find-add p [] y = refl
  find-add p (x ∷ xs) y = ground (arith, find-add p xs y)

module _ {ℓ κ} {A : Type ℓ} (P : A → Type κ) where
  pub All-update_where :
      (p : A → Bool) (f : A → A) (xs : List A)
      → ((x : A) → P (if p x then f x else x))
      → All P (update_where p f xs)
  unfolding update_where
  All-update_where p f [] h = tt
  All-update_where p f (x ∷ xs) h = (h x, All-update_where p f xs h)

  pub All-update_where_of {κ'} :
      {Q : A → Type κ'} (p : A → Bool) (f : A → A) (xs : List A)
      → ((x : A) → Q x → P (if p x then f x else x))
      → All Q xs
      → All P (update_where p f xs)
  unfolding update_where
  All-update_where_of p f [] h k = tt
  All-update_where_of p f (x ∷ xs) h k = (h x k.0, All-update_where_of p f xs h k.1)

  pub find-All : (p : A → Bool) (xs : List A) (x : A) → All P xs → find p xs ≡ some x → P x
  unfolding find
  find-All p [] x h e = cc
  find-All p (y ∷ xs) x h e = elim (Bool-cases (p y)) [
    | inl t ↦ let same : y ≡ x = ground (arith, e, t) in subst P same h.0
    | inr t ↦ find-All p xs x h.1 (ground (arith, e, t))
  ]
