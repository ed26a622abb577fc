-- ===== src/AuditLogs.antt =====
-- backend/src/audit-logs/audit-logs.service.ts: the listings of the audit log and their filters.
-- `create` is `create_audit_log` of Store.antt.
pub mod Listing
mod Tests
use bankproject.Base.{
  ℕ, String, Bool, true, false, ◌&&◌, ◌||◌, Option, none, some, List, [], ◌∷◌, ◌==◌, leb, ltb,
  length, map_option, or_else, or_option, opt_is, opt_str_eq, if◌then◌else◌,
}
use bankproject.Text.Search.{holds_text}
use bankproject.Model.{Db, AuditLog, Resource, Details}
use bankproject.Prisma.{Prisma}
use bankproject.Handler.{Handler, ◌>>=◌, gets, require, pure, not_found}
use bankproject.Counts.{TextCounts, tally_text}
use bankproject.Paging.{PaginationDto, skip}
use bankproject.SecurityEvents.{filled}
use bankproject.Transactions.Reversal.{id_set}

-- Names that stand for the same field come one after the other, the one that is read first before
-- the other. A time is given in milliseconds.
pub record ListAuditLogsDto : Type 0 where
  pub paging : PaginationDto
  pub action : Option String
  pub q : Option String
  pub search : Option String
  pub resource : Option String
  pub outcome : Option String
  pub user_id : Option ℕ
  pub user_id_old : Option ℕ
  pub from_time : Option ℕ
  pub start_date : Option ℕ
  pub to_time : Option ℕ
  pub end_date : Option ℕ

-- The texts of the columns that the model keeps as their parts.
pub record Printer : Type 0 where
  pub resource_text : Resource → String
  pub details_text : Details → String

abbrev pub since : Option ℕ → ℕ → Bool
since none at = true
since (some low) at = leb low at

abbrev pub until : Option ℕ → ℕ → Bool
until none at = true
until (some high) at = leb at high

abbrev pub of_user : Option ℕ → Option ℕ → Bool
of_user none column = true
of_user (some id) column = opt_is column id

abbrev pub equals_text : Option String → Option String → Bool
equals_text none column = true
equals_text (some s) column = opt_str_eq column (some s)

-- The filter on the texts: it may be found in any of four columns.
abbrev pub found_anywhere : Printer → Option String → AuditLog → Bool
found_anywhere printer none log = true
found_anywhere printer (some s) log =
    holds_text (some s) (some log.action)
    || holds_text (some s) (map_option printer.resource_text log.resource)
    || holds_text (some s) log.outcome
    || holds_text (some s) (map_option printer.details_text log.details)

-- The `where` object but for the user.
abbrev pub passes_rest : Printer → ListAuditLogsDto → AuditLog → Bool
passes_rest printer query log =
    holds_text (filled query.action) (some log.action)
    && holds_text (filled query.resource) (map_option printer.resource_text log.resource)
    && equals_text (filled query.outcome) log.outcome
    && found_anywhere printer (filled (or_option query.q query.search)) log
    && since (or_option query.from_time query.start_date) log.created_at
    && until (or_option query.to_time query.end_date) log.created_at

-- `buildWhere`
abbrev pub passes_log : Printer → ListAuditLogsDto → AuditLog → Bool
passes_log printer query log =
    passes_rest printer query log
    && of_user (id_set (or_option query.user_id query.user_id_old)) log.user_id

-- `orderBy: [{ createdAt: 'desc' }, { id: 'desc' }]`
abbrev pub newest_first : AuditLog → AuditLog → Bool
newest_first a b = ltb b.created_at a.created_at || (b.created_at == a.created_at && leb b.id a.id)

-- `orderBy: { createdAt: 'desc' }`
abbrev pub later_first : AuditLog → AuditLog → Bool
later_first a b = leb b.created_at a.created_at

pub record LogSummary : Type 0 where
  pub total : ℕ
  pub by_action : TextCounts
  pub by_result : TextCounts
  pub oldest_at : Option ℕ
  pub newest_at : Option ℕ

abbrev pub first_row {ℓ} : {A : Type ℓ} → List A → Option A
first_row [] = none
first_row (x ∷ xs) = some x

abbrev pub last_row {ℓ} : {A : Type ℓ} → List A → Option A
last_row [] = none
last_row (x ∷ xs) = some (or_else (last_row xs) x)

abbrev pub summarize_logs : List AuditLog → LogSummary
summarize_logs logs = record {
  total = length logs;
  by_action = tally_text (λ l. l.action) logs [];
  by_result = tally_text (λ l. or_else l.outcome "UNKNOWN") logs [];
  oldest_at = map_option (λ l. l.created_at) (last_row logs);
  newest_at = map_option (λ l. l.created_at) (first_row logs);
}

module _ (pg : Prisma) (printer : Printer) where
  unfoldable pub find_logs : ListAuditLogsDto → Handler (List AuditLog)
  find_logs query = gets (λ d.
      pg.find_page (passes_log printer query) newest_first (skip query.paging) query.paging.limit
        d.audit_logs)

  unfoldable pub find_logs_by_user : ℕ → ListAuditLogsDto → Handler (List AuditLog)
  find_logs_by_user user_id query = gets (λ d.
      pg.find_page (λ log. passes_rest printer query log && opt_is log.user_id user_id) newest_first
        (skip query.paging) query.paging.limit d.audit_logs)

  unfoldable pub find_log : ℕ → Handler AuditLog
  find_log id = do
    found ← gets (λ d. pg.find (λ log. log.id == id) d.audit_logs)
    require found (not_found "Audit log not found")

  unfoldable pub get_log_summary : ListAuditLogsDto → Handler LogSummary
  get_log_summary query = do
    logs ← gets (λ d. pg.find_ordered (passes_log printer query) later_first d.audit_logs)
    pure (summarize_logs logs)
