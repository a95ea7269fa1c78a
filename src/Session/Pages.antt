-- ===== src/Session/Pages.antt =====
-- A client that reads the pages of a search, one request after the other.
use job_finder_agent.Common.{
  ℕ, zero, suc, ◌*◌, ◌≤◌, ◌≡◌, refl, ◌∙◌, ap, List, [], ◌++◌, length, page_of, pages_from,
  pages_from-all, arith,
}
use job_finder_agent.Session.{Action, Session, ok, ◌>>=◌, pure}

module _ {D A : Type 0} (fetch : ℕ → Action D (List A × ℕ)) where
  -- Reads `n` pages from one on.
  unfoldable pub read_pages : ℕ → ℕ → Action D (List A)
  read_pages page zero = pure []
  read_pages page (suc n) = do
    (found, total) ← fetch page
    rest ← read_pages (suc page) n
    pure (found ++ rest)

  module _ (size total : ℕ) (xs : List A) (s : Session D)
      (pages : (page : ℕ) → fetch page s ≡ (ok (page_of size page xs, total), s)) where
    read_pages-pages_from : (page n : ℕ) → read_pages page n s ≡ (ok (pages_from size page n xs), s)
    unfolding read_pages
    read_pages-pages_from page zero = refl
    read_pages-pages_from page (suc n) =
        ground (arith, pages page, read_pages-pages_from (suc page) n)

    -- If each page is a part of one list, enough pages are the whole list.
    pub read_pages-all : (n : ℕ) → length xs ≤ n * size → read_pages 1 n s ≡ (ok xs, s)
    read_pages-all n h =
        read_pages-pages_from 1 n ∙ ap (λ ys. (ok ys, s)) (pages_from-all size n xs h)
