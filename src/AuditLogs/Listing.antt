-- ===== src/AuditLogs/Listing.antt =====
-- The pages of the audit log, and its summary.
use bankproject.Base.{
  ℕ, zero, suc, ◌*◌, ◌≤◌, ◌≡◌, ◌∙◌, refl, sym, ap, String, Bool, true, ◌&&◌, ◌||◌, Option, some,
  List, [], ◌∷◌, ◌++◌, arith, length, leb, ltb, All, drop_rows, IsSorted, count_where, or_else,
  str_eq,
}
use bankproject.Model.{AuditLog}
use bankproject.Prisma.{Prisma}
use bankproject.Handler.{World, Result, ok, err}
use bankproject.Counts.{count_of, count_of-tally_text}
use bankproject.Paging.{skip, read_paging, read_paging-valid}
use bankproject.Paging.Pages.{length-take, pages, page_rows, pages-all}
use bankproject.AuditLogs.{
  ListAuditLogsDto, Printer, passes_log, newest_first, later_first, LogSummary, last_row,
  summarize_logs, find_logs, get_log_summary,
}

newest_connex : (a b : AuditLog) → (newest_first a b || newest_first b a) ≡ true
newest_connex a b = ground arith

newest_trans :
    (a b c : AuditLog) → newest_first a b ≡ true → newest_first b c ≡ true → newest_first a c ≡ true
newest_trans a b c h k = ground arith

later_connex : (a b : AuditLog) → (later_first a b || later_first b a) ≡ true
later_connex a b = ground arith

later_trans :
    (a b c : AuditLog) → later_first a b ≡ true → later_first b c ≡ true → later_first a c ≡ true
later_trans a b c h k = ground arith

length-count_where {ℓ} : {A : Type ℓ} (xs : List A) → length xs ≡ count_where (λ a. true) xs
length-count_where [] = refl
length-count_where (a ∷ xs) = ap suc (length-count_where xs)

count_where-and_true {ℓ} :
    {A : Type ℓ} (p : A → Bool) (xs : List A) → count_where (λ a. p a && true) xs ≡ count_where p xs
count_where-and_true p [] = refl
count_where-and_true p (a ∷ xs) = ground (arith, count_where-and_true p xs)

abbrev pub rows_of {ℓ} : {A : Type 0} {W : Type ℓ} → Result (List A) × W → List A
rows_of (ok rows, w) = rows
rows_of (err e, w) = []

none_after :
    (t : ℕ) (rows : List AuditLog)
    → All (λ l. leb l.created_at t ≡ true) rows
    → count_where (λ l. ltb t l.created_at) rows ≡ 0
none_after t [] h = refl
none_after t (l ∷ rows) h = ground (arith, h.0, none_after t rows h.1)

none_before :
    (t : ℕ) (rows : List AuditLog)
    → All (λ l. leb t l.created_at ≡ true) rows
    → count_where (λ l. ltb l.created_at t) rows ≡ 0
none_before t [] h = refl
none_before t (l ∷ rows) h = ground (arith, h.0, none_before t rows h.1)

-- The last of the rows is the oldest.
last_least :
    (l : AuditLog) (rows : List AuditLog)
    → IsSorted later_first (l ∷ rows)
    → All (λ x. leb (or_else (last_row rows) l).created_at x.created_at ≡ true) (l ∷ rows)
last_least l [] h = (ground arith, tt)
last_least l (r ∷ rows) h =
    let least = last_least r rows h.1 in (ground (arith, least.0, h.0.0), least)

module _ (pg : Prisma) (printer : Printer) (query : ListAuditLogsDto) (w : World) where
  -- All the rows that pass the filters, newest first.
  abbrev pub listing : List AuditLog
  listing = pg.find_ordered (passes_log printer query) newest_first w.db.audit_logs

  find_logs-eq :
      (page : ℕ)
      → find_logs pg printer (record query { paging = record query.paging { page = page } }) w
        ≡ (ok (page_rows (record query.paging { page = page }) listing), w)
  unfolding find_logs
  find_logs-eq page =
      ap (λ rows. (ok rows, w))
        (pg.find_page_lem (passes_log printer query) newest_first
          (skip (record query.paging { page = page })) query.paging.limit w.db.audit_logs)

  -- What is asked for with the pages 1, …, n, one after the other.
  abbrev pub replies : ℕ → List AuditLog
  replies zero = []
  replies (suc n) =
      replies n
      ++ rows_of
          (find_logs pg printer (record query { paging = record query.paging { page = suc n } }) w)

  replies-pages : (n : ℕ) → replies n ≡ pages n query.paging.limit listing
  replies-pages zero = refl
  replies-pages (suc n) = cc (replies-pages n, find_logs-eq (suc n))

  -- A listing of the audit log whose page and limit are valid is given for every page and changes
  -- nothing, and a page has a hundred rows at most. The first n pages, if so many hold all the rows
  -- that pass the filters, hold just these, each as often as it is stored, newest first.
  pub find_logs_pages :
      (asked size : Option (Option ℕ))
      → read_paging asked size ≡ some query.paging
      → (n : ℕ) → count_where (passes_log printer query) w.db.audit_logs ≤ n * query.paging.limit
      → ((page : ℕ)
          → (rows : List AuditLog) × (find_logs pg printer
                (record query { paging = record query.paging { page = page } })
                w
              ≡ (ok rows, w))
            × (length rows ≤ 100))
        × ((p : AuditLog → Bool)
            → count_where p (replies n)
              ≡ count_where (λ r. passes_log printer query r && p r) w.db.audit_logs)
        × IsSorted newest_first (replies n)
  find_logs_pages asked size valid n enough =
      let fine = read_paging-valid asked size valid in
      let found = λ (p : AuditLog → Bool).
        pg.find_ordered_lem (passes_log printer query) p newest_first w.db.audit_logs in
      let many : length listing ≤ n * query.paging.limit = omega (
        arith,
        length-count_where listing,
        found (λ a. true),
        count_where-and_true (passes_log printer query) w.db.audit_logs,
        enough,
      ) in
      let all : replies n ≡ listing =
        replies-pages n ∙ pages-all n query.paging.limit listing many in
      (
        (λ page. (
          page_rows (record query.paging { page = page }) listing,
          find_logs-eq page,
          ground (
            arith,
            fine,
            length-take query.paging.limit
                (drop_rows (skip (record query.paging { page = page })) listing),
          ),
        )),
        (λ p. rw all (found p)),
        rw all (
            pg.find_ordered_sorted (passes_log printer query) newest_first w.db.audit_logs
              newest_connex newest_trans),
      )

  -- The summary of the audit log is given always and changes nothing: it counts the rows that pass
  -- the filters, all of them, those of each action and those of each result, where a row without a
  -- result counts as UNKNOWN; and none of the rows is newer than the newest time or older than the
  -- oldest.
  pub get_log_summary_counts :
      (s : LogSummary) × (get_log_summary pg printer query w ≡ (ok s, w))
      × (s.total ≡ count_where (passes_log printer query) w.db.audit_logs)
      × ((action : String)
          → or_else (count_of action s.by_action) 0
            ≡ count_where
                (λ l. passes_log printer query l && str_eq l.action action)
                w.db.audit_logs)
      × ((outcome : String)
          → or_else (count_of outcome s.by_result) 0
            ≡ count_where
                (λ l. passes_log printer query l && str_eq (or_else l.outcome "UNKNOWN") outcome)
                w.db.audit_logs)
      × (count_where
            (λ l. passes_log printer query l && ltb (or_else s.newest_at 0) l.created_at)
            w.db.audit_logs
          ≡ 0)
      × (count_where
            (λ l. passes_log printer query l && ltb l.created_at (or_else s.oldest_at 0))
            w.db.audit_logs
          ≡ 0)
  unfolding get_log_summary
  get_log_summary_counts =
      let rows = pg.find_ordered (passes_log printer query) later_first w.db.audit_logs in
      let found = λ (p : AuditLog → Bool).
        pg.find_ordered_lem (passes_log printer query) p later_first w.db.audit_logs in
      let sorted =
        pg.find_ordered_sorted (passes_log printer query) later_first w.db.audit_logs later_connex
          later_trans in
      (
        summarize_logs rows,
        refl,
        length-count_where rows
            ∙ found (λ a. true)
            ∙ count_where-and_true (passes_log printer query) w.db.audit_logs,
        (λ action. omega (
          arith,
          count_of-tally_text (λ l. l.action) action rows [],
          found (λ l. str_eq l.action action),
        )),
        (λ outcome. omega (
          arith,
          count_of-tally_text (λ l. or_else l.outcome "UNKNOWN") outcome rows [],
          found (λ l. str_eq (or_else l.outcome "UNKNOWN") outcome),
        )),
        sym (found (λ l. ltb (or_else (summarize_logs rows).newest_at 0) l.created_at))
            ∙ none_newer rows sorted,
        sym (found (λ l. ltb l.created_at (or_else (summarize_logs rows).oldest_at 0)))
            ∙ none_older rows sorted,
      )
    where
      none_newer :
          (rows : List AuditLog)
          → IsSorted later_first rows
          → count_where (λ l. ltb (or_else (summarize_logs rows).newest_at 0) l.created_at) rows ≡ 0
      none_newer [] h = refl
      none_newer (l ∷ rows) h = ground (arith, none_after l.created_at rows h.0)

      none_older :
          (rows : List AuditLog)
          → IsSorted later_first rows
          → count_where (λ l. ltb l.created_at (or_else (summarize_logs rows).oldest_at 0)) rows ≡ 0
      none_older [] h = refl
      none_older (l ∷ rows) h =
          none_before (or_else (last_row rows) l).created_at (l ∷ rows) (last_least l rows h)
