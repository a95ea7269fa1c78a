-- ===== src/Audit/Pages.antt =====
-- The pages of a search.
use job_finder_agent.Common.{
  ℕ, ◌*◌, ◌≤◌, ◌≡◌, ◌↔◌, true, refl, List, filter_by, length, page_of, order_by, order_by-perm,
  length-order_by, arith,
}
use mathlib.Core.List.{Perm}
use job_finder_agent.Session.{Session, ok}
use job_finder_agent.Session.Pages.{read_pages, read_pages-all}
use job_finder_agent.Auth.Models.{AuditEvent, Identity}
use job_finder_agent.Audit.Fits.{Fits, fits-Fits, IsNewestFirst, order_by-IsNewestFirst}
use job_finder_agent.Audit.Log.{Filters, fits, is_newer, search_page, search_events, count_events}

module _ (size : ℕ) (f : Filters) where
  -- The events that fit.
  abbrev pub matching : Identity → List AuditEvent
  matching d = filter_by (fits f) d.audit_events

  -- A client that reads enough pages of one state has every event that fits the filters exactly once,
  -- none of them followed by one of a later moment, nor by one of the same moment and a greater
  -- identifier, and the total of each page is the number of these events. An event fits exactly where it has
  -- what each filter that is given asks for; a text that is empty asks for nothing.
  pub search_page-matching :
      (n : ℕ) (s : Session Identity)
      → length (matching s.db) ≤ n * size
      → (read_pages (λ page. search_page page size f) 1 n s
          ≡ (ok (order_by is_newer (matching s.db)), s))
        × Perm (order_by is_newer (matching s.db)) (matching s.db)
        × IsNewestFirst (order_by is_newer (matching s.db))
        × ((e : AuditEvent) → (fits f e ≡ true) ↔ Fits f e)
        × ((page : ℕ)
            → (events : List AuditEvent) × ((search_page page size f s).0
                ≡ ok (events, length (matching s.db))))
  unfolding search_page search_events count_events
  search_page-matching n s h =
      let sorted = order_by is_newer (matching s.db) in
      let enough : length sorted ≤ n * size =
        omega (arith, h, length-order_by is_newer (matching s.db)) in
      (
        read_pages-all (λ page. search_page page size f) size (length (matching s.db)) sorted s
            (λ page. refl) n enough,
        order_by-perm is_newer (matching s.db),
        order_by-IsNewestFirst (matching s.db),
        fits-Fits f,
        λ page. (page_of size page sorted, refl),
      )
