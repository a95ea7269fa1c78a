-- ===== src/Common/Orders.antt =====
-- `ORDER BY`, `OFFSET` and `LIMIT`: a stable sort by a Boolean order, and the pages of a list.
use Prim.Native.Nat.{ℕ, zero, suc, ◌+◌, ◌-◌, ◌*◌, ◌≤◌}
use mathlib.Core.Path.{◌≡◌, refl, ◌∙◌, ap}
use mathlib.Core.Logic.{inl, inr}
use mathlib.Core.Bool.{Bool}
use mathlib.Core.List.{List, [], ◌∷◌, ◌++◌}
use mathlib.Core.List.{Perm}
use mathlib.Core.List.Perm
use native.Mathlib.Omega.{arith}
use job_finder_agent.Common.Tests.{if◌then◌else◌, Bool-cases}
use job_finder_agent.Common.Lists.{length, All}

module _ {ℓ} {A : Type ℓ} where
  abbrev pub take : ℕ → List A → List A
  take zero xs = []
  take (suc n) [] = []
  take (suc n) (x ∷ xs) = x ∷ take n xs

  abbrev pub drop : ℕ → List A → List A
  drop zero xs = xs
  drop (suc n) [] = []
  drop (suc n) (x ∷ xs) = drop n xs

  pub take-append-drop : (n : ℕ) (xs : List A) → take n xs ++ drop n xs ≡ xs
  take-append-drop zero xs = refl
  take-append-drop (suc n) [] = refl
  take-append-drop (suc n) (x ∷ xs) = ap (λ ys. x ∷ ys) (take-append-drop n xs)

  drop-nil : (n : ℕ) → drop n [] ≡ []
  drop-nil zero = refl
  drop-nil (suc n) = refl

  drop-drop : (m n : ℕ) (xs : List A) → drop n (drop m xs) ≡ drop (m + n) xs
  drop-drop zero n xs = let e : zero + n ≡ n = omega arith in rw e
  drop-drop (suc m) n [] = rw (drop-nil n, drop-nil (suc m + n))
  drop-drop (suc m) n (x ∷ xs) =
      let e : suc m + n ≡ suc (m + n) = omega arith in rw e (drop-drop m n xs)

  take-nil : (n : ℕ) → take n [] ≡ []
  take-nil zero = refl
  take-nil (suc n) = refl

  take_add : (m n : ℕ) (xs : List A) → take m xs ++ take n (drop m xs) ≡ take (m + n) xs
  take_add zero n xs = let e : zero + n ≡ n = omega arith in rw e
  take_add (suc m) n [] = rw (take-nil n, take-nil (suc m + n))
  take_add (suc m) n (x ∷ xs) =
      let e : suc m + n ≡ suc (m + n) = omega arith in rw e (ap (λ ys. x ∷ ys) (take_add m n xs))

  pub take_all : (n : ℕ) (xs : List A) → length xs ≤ n → take n xs ≡ xs
  take_all zero [] h = refl
  take_all zero (x ∷ xs) h = ground arith
  take_all (suc n) [] h = refl
  take_all (suc n) (x ∷ xs) h = ap (λ ys. x ∷ ys) (take_all n xs (omega arith))

  -- `.offset((page - 1) * size).limit(size)`
  abbrev pub page_of : ℕ → ℕ → List A → List A
  page_of size page xs = take size (drop ((page - 1) * size) xs)

  -- The pages from one on, `n` of them, one after the other.
  abbrev pub pages_from : ℕ → ℕ → ℕ → List A → List A
  pages_from size page zero xs = []
  pages_from size page (suc n) xs = page_of size page xs ++ pages_from size (suc page) n xs

  pages_from-take :
      (size page n : ℕ) (xs : List A)
      → 1 ≤ page
      → pages_from size page n xs ≡ take (n * size) (drop ((page - 1) * size) xs)
  pages_from-take size page zero xs h = let e : zero * size ≡ zero = grind arith in rw e
  pages_from-take size zero (suc n) xs h = absurd (omega (arith, h))
  pages_from-take size (suc page) (suc n) xs h =
      let e : suc n * size ≡ size + n * size = grind arith in
      let f : suc page * size ≡ page * size + size = grind arith in
      let g : suc (suc page) - 1 ≡ suc page = omega arith in
      let here : suc page - 1 ≡ page = omega arith in
      rw (
        pages_from-take size (suc (suc page)) n xs (omega arith),
        g,
        here,
        e,
        f,
        ← drop-drop (page * size) size xs,
        take_add size (n * size) (drop (page * size) xs),
      )

  -- Pages that are enough show the whole list, each entry once and in its order.
  pub pages_from-all :
      (size n : ℕ) (xs : List A) → length xs ≤ n * size → pages_from size 1 n xs ≡ xs
  pages_from-all size n xs h =
      let e : (1 - 1) * size ≡ zero = omega arith in
      pages_from-take size 1 n xs (omega arith) ∙ rw e (take_all (n * size) xs h)

  module _ (before : A → A → Bool) where
    -- Where it belongs, behind the entries that come before it or tie with it.
    abbrev pub insert_by : A → List A → List A
    insert_by x [] = x ∷ []
    insert_by x (y ∷ ys) = if before x y then x ∷ y ∷ ys else y ∷ insert_by x ys

    abbrev pub order_by : List A → List A
    order_by [] = []
    order_by (x ∷ xs) = insert_by x (order_by xs)

    insert_by-perm : (x : A) (xs : List A) → Perm (insert_by x xs) (x ∷ xs)
    insert_by-perm x [] = Perm.refl (x ∷ [])
    insert_by-perm x (y ∷ ys) = elim (Bool-cases (before x y)) [
      | inl e ↦ rw e (Perm.refl (x ∷ y ∷ ys))
      | inr e ↦ rw e (Perm.trans (Perm.cons y (insert_by-perm x ys)) (Perm.swap x y ys))
    ]

    pub order_by-perm : (xs : List A) → Perm (order_by xs) xs
    order_by-perm [] = Perm.refl []
    order_by-perm (x ∷ xs) =
        Perm.trans (insert_by-perm x (order_by xs)) (Perm.cons x (order_by-perm xs))

    length-insert_by : (x : A) (xs : List A) → length (insert_by x xs) ≡ suc (length xs)
    length-insert_by x [] = refl
    length-insert_by x (y ∷ ys) = ground (arith, length-insert_by x ys)

    pub length-order_by : (xs : List A) → length (order_by xs) ≡ length xs
    length-order_by [] = refl
    length-order_by (x ∷ xs) =
        length-insert_by x (order_by xs) ∙ ap (λ n. suc n) (length-order_by xs)

module _ {ℓ κ} {A : Type ℓ} (P : A → Type κ) where
  pub All-take : (n : ℕ) (xs : List A) → All P xs → All P (take n xs)
  All-take zero xs h = tt
  All-take (suc n) [] h = tt
  All-take (suc n) (x ∷ xs) h = (h.0, All-take n xs h.1)

  pub All-drop : (n : ℕ) (xs : List A) → All P xs → All P (drop n xs)
  All-drop zero xs h = h
  All-drop (suc n) [] h = tt
  All-drop (suc n) (x ∷ xs) h = All-drop n xs h.1

  module _ (before : A → A → Bool) where
    pub All-insert_by : (x : A) (xs : List A) → P x → All P xs → All P (insert_by before x xs)
    All-insert_by x [] px h = (px, tt)
    All-insert_by x (y ∷ ys) px h = elim (Bool-cases (before x y)) [
      | inl e ↦ rw e (px, h)
      | inr e ↦ rw e (h.0, All-insert_by x ys px h.1)
    ]

    pub All-order_by : (xs : List A) → All P xs → All P (order_by before xs)
    All-order_by [] h = tt
    All-order_by (x ∷ xs) h = All-insert_by x (order_by before xs) h.0 (All-order_by xs h.1)
