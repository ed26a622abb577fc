-- ===== src/AuditLogs/Tests.antt =====
-- Pages of a small audit log, and the instance of the theorem on them.
use bankproject.Base.{
  ℕ, ◌≤◌, ◌≡◌, refl, String, Bool, ◌&&◌, none, some, List, [], ◌∷◌, arith, length, IsSorted,
  count_where,
}
use bankproject.Model.{AuditLog, named}
use bankproject.Prisma.Listed.{listed}
use bankproject.Handler.{World, ok}
use bankproject.Paging.{read_paging, skip}
use bankproject.Auth.Sample.{people}
use bankproject.AuditLogs.{ListAuditLogsDto, Printer, passes_log, newest_first, find_logs}
use bankproject.AuditLogs.Listing.{replies, find_logs_pages}

abbrev printer : Printer
printer = record { resource_text = λ r. "AUTH"; details_text = λ d. "details" }

abbrev log : ℕ → String → ℕ → AuditLog
log id action at = record {
  id = id;
  action = action;
  resource = some (named "AUTH");
  outcome = some "SUCCESS";
  details = none;
  user_id = some 1;
  created_at = at;
}

abbrev old : World
old = record {
  db = record people {
    audit_logs = log 1 "LOGIN" 10 ∷ log 2 "LOGOUT" 20 ∷ log 3 "LOGIN" 30 ∷ log 4 "LOGIN" 30 ∷ [];
  };
  clock = λ n. n;
  random = λ n. "r";
  others = λ n d. d;
}

abbrev query : ListAuditLogsDto
query = record {
  paging = record { page = 1; limit = 2 };
  action = some "LOGI";
  q = none;
  search = none;
  resource = none;
  outcome = none;
  user_id = none;
  user_id_old = none;
  from_time = none;
  start_date = none;
  to_time = none;
  end_date = none;
}

run_paging : read_paging none (some (some 2)) ≡ some (record { page = 1; limit = 2 })
unfolding read_paging
run_paging = refl

run_too_long : read_paging none (some (some 101)) ≡ none
unfolding read_paging
run_too_long = refl

run_pages :
    replies listed printer query old 2 ≡ log 4 "LOGIN" 30 ∷ log 3 "LOGIN" 30 ∷ log 1 "LOGIN" 10 ∷ []
unfolding find_logs skip
run_pages = refl

find_logs_pages_example :
    ((page : ℕ)
      → (rows : List AuditLog) × (find_logs listed printer
            (record query { paging = record query.paging { page = page } })
            old
          ≡ (ok rows, old))
        × (length rows ≤ 100))
    × ((p : AuditLog → Bool)
        → count_where p (replies listed printer query old 2)
          ≡ count_where (λ r. passes_log printer query r && p r) old.db.audit_logs)
    × IsSorted newest_first (replies listed printer query old 2)
unfolding read_paging
find_logs_pages_example =
    find_logs_pages listed printer query old none (some (some 2)) refl 2 (omega arith)
