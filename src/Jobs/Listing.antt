-- ===== src/Jobs/Listing.antt =====
-- The listing of jobs (repositories/job_query.py of app): its pages, and its rows.
use job_finder_agent.Common.{
  ℕ, ◌-◌, ◌*◌, ◌≤◌, ◌≡◌, refl, subst, true, ◌&&◌, Option, none, some, List, [], ◌∷◌, arith, map,
  All, All-append, filter_by, filter_by-All, length, page_of, order_by, order_by-perm,
  length-order_by, All-take, All-drop, All-order_by, Texts, ap,
}
use mathlib.Core.List.{Perm}
use job_finder_agent.Session.{Session, ok}
use job_finder_agent.Session.Pages.{read_pages, read_pages-all}
use job_finder_agent.Ingestion.Jobs.{Job, MatchResult, Catalog}
use job_finder_agent.Jobs.Query.{
  Columns, JobFilters, is_visible, is_wanted, join_all, is_listed_before, query_rows, list_jobs,
}

module _ (P : Job → Type 0) where
  All-map-const : (job : Job) (ms : List MatchResult) → P job → All P (map (λ m. job) ms)
  All-map-const job [] h = tt
  All-map-const job (m ∷ ms) h = (h, All-map-const job ms h)

  All-join_all :
      (min_score : Option ℕ) (matches : List MatchResult) (jobs : List Job)
      → All P jobs
      → All P (join_all min_score matches jobs)
  All-join_all min_score matches [] h = tt
  All-join_all none matches (job ∷ jobs) h = (h.0, All-join_all none matches jobs h.1)
  All-join_all (some least) matches (job ∷ jobs) h =
      All-append P _ _ (All-map-const job _ h.0) (All-join_all (some least) matches jobs h.1)

join_all-none : (matches : List MatchResult) (jobs : List Job) → join_all none matches jobs ≡ jobs
join_all-none matches [] = refl
join_all-none matches (job ∷ jobs) = ap (λ js. job ∷ js) (join_all-none matches jobs)

module _ (T : Texts) (C : Columns) (user_id size : ℕ) (f : JobFilters) where
  -- The jobs that the user sees and that pass the filters.
  abbrev pub wanted : Catalog → List Job
  wanted d = filter_by (λ job. is_visible user_id d job && is_wanted T C f job) d.jobs

  -- Without a score to reach, a client that reads enough pages of one state has every job exactly once
  -- that the user sees and that passes the filters, in the order of the listing.
  pub list_jobs-wanted :
      (n : ℕ) (s : Session Catalog)
      → f.min_score ≡ none
      → length (wanted s.db) ≤ n * size
      → (read_pages (λ page. list_jobs T C user_id page size f) 1 n s
          ≡ (ok (order_by is_listed_before (wanted s.db)), s))
        × Perm (order_by is_listed_before (wanted s.db)) (wanted s.db)
  unfolding list_jobs query_rows
  list_jobs-wanted n s unscored h =
      let same : query_rows T C user_id f s.db ≡ wanted s.db =
        rw unscored (join_all-none s.db.matches (wanted s.db)) in
      let sorted = order_by is_listed_before (wanted s.db) in
      let enough : length sorted ≤ n * size =
        omega (arith, h, length-order_by is_listed_before (wanted s.db)) in
      (
        read_pages-all (λ page. list_jobs T C user_id page size f) size (length (wanted s.db))
            sorted s
            (λ page.
              ap
                (λ found.
                  (ok (page_of size page (order_by is_listed_before found), length found), s))
                same)
            n enough,
        order_by-perm is_listed_before (wanted s.db),
      )

  -- A listing shows only jobs that the user sees and that pass the filters, with a score to reach too.
  pub list_jobs-All :
      (page total : ℕ) (jobs : List Job) (s : Session Catalog)
      → (list_jobs T C user_id page size f s).0 ≡ ok (jobs, total)
      → All (λ job. (is_visible user_id s.db job && is_wanted T C f job) ≡ true) jobs
  unfolding list_jobs query_rows
  list_jobs-All page total jobs s e =
      let shown : page_of size page (order_by is_listed_before (query_rows T C user_id f s.db))
          ≡ jobs =
        cc in
      subst (All passes) shown (
        All-take passes size _ (
          All-drop passes ((page - 1) * size) _ (
            All-order_by passes is_listed_before (query_rows T C user_id f s.db) (
              All-join_all passes f.min_score s.db.matches (wanted s.db) (
                filter_by-All (λ job. is_visible user_id s.db job && is_wanted T C f job)
                  s.db.jobs)))))
    where
      passes : Job → Type 0
      passes job = (is_visible user_id s.db job && is_wanted T C f job) ≡ true
