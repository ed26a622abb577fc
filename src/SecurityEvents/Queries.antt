-- ===== src/SecurityEvents/Queries.antt =====
-- The listings of backend/src/security-events/security-events.service.ts.
use bankproject.Base.{
  ℕ, ◌≡◌, refl, String, Bool, true, ◌&&◌, ◌||◌, Option, none, some, List, [], ◌∷◌, ◌==◌, leb, ltb,
  length, arith, or_else, or_option, opt_is, str_eq, count_where,
}
use bankproject.Model.{SecurityEvent, RiskLevel, risk_eq}
use bankproject.Prisma.{Prisma}
use bankproject.Handler.{Handler, World, ok, ◌>>=◌, gets, require, pure, not_found}
use bankproject.Counts.{TextCounts, count_of, tally_text, count_of-tally_text}
use bankproject.Paging.{PaginationDto, skip}
use bankproject.Transactions.Reversal.{id_set}
use bankproject.SecurityEvents.{filled}
use bankproject.Soc.Report.{risk_text}

-- Names that stand for the same field come one after the other, in the order in which they are
-- read. A time is given in milliseconds.
pub record ListSecurityEventsDto : Type 0 where
  pub paging : PaginationDto
  pub event_type : Option String
  pub event_type_old : Option String
  pub type_old : Option String
  pub risk_level : Option RiskLevel
  pub risk_level_old : Option RiskLevel
  pub severity : Option RiskLevel
  pub user_id : Option ℕ
  pub user_id_old : Option ℕ
  pub from_time : Option ℕ
  pub start_date : Option ℕ
  pub to_time : Option ℕ
  pub end_date : Option ℕ

abbrev pub is_type : Option String → String → Bool
is_type none column = true
is_type (some s) column = str_eq column s

abbrev pub is_risk : Option RiskLevel → RiskLevel → Bool
is_risk none column = true
is_risk (some r) column = risk_eq column r

abbrev pub is_about : Option ℕ → Option ℕ → Bool
is_about none column = true
is_about (some id) column = opt_is column id

abbrev pub not_before : Option ℕ → ℕ → Bool
not_before none at = true
not_before (some low) at = leb low at

abbrev pub not_after : Option ℕ → ℕ → Bool
not_after none at = true
not_after (some high) at = leb at high

-- `buildWhere`
abbrev pub passes_event : ListSecurityEventsDto → SecurityEvent → Bool
passes_event query e =
    is_type (filled (or_option query.event_type (or_option query.event_type_old query.type_old)))
      e.event_type
    && is_risk (or_option query.risk_level (or_option query.risk_level_old query.severity))
        e.risk_level
    && is_about (id_set (or_option query.user_id query.user_id_old)) e.user_id
    && not_before (or_option query.from_time query.start_date) e.created_at
    && not_after (or_option query.to_time query.end_date) e.created_at

abbrev pub newer_event_first : SecurityEvent → SecurityEvent → Bool
newer_event_first a b =
    ltb b.created_at a.created_at || (b.created_at == a.created_at && leb b.id a.id)

abbrev pub later_event_first : SecurityEvent → SecurityEvent → Bool
later_event_first a b = leb b.created_at a.created_at

pub record EventSummary : Type 0 where
  pub total : ℕ
  pub by_event_type : TextCounts
  pub by_risk_level : TextCounts
  pub latest_event_at : Option ℕ

abbrev pub latest : List SecurityEvent → Option ℕ
latest [] = none
latest (e ∷ es) = some e.created_at

abbrev pub summarize_events : List SecurityEvent → EventSummary
summarize_events events = record {
  total = length events;
  by_event_type = tally_text (λ e. e.event_type) events [];
  by_risk_level = tally_text (λ e. risk_text e.risk_level) events [];
  latest_event_at = latest events;
}

module _ (pg : Prisma) where
  unfoldable pub find_events : ListSecurityEventsDto → Handler (List SecurityEvent)
  find_events query = gets (λ d.
      pg.find_page (passes_event query) newer_event_first (skip query.paging) query.paging.limit
        d.security_events)

  unfoldable pub find_event : ℕ → Handler SecurityEvent
  find_event id = do
    found ← gets (λ d. pg.find (λ e. e.id == id) d.security_events)
    require found (not_found "Security event not found")

  unfoldable pub get_event_summary : ListSecurityEventsDto → Handler EventSummary
  get_event_summary query = do
    events ← gets (λ d. pg.find_ordered (passes_event query) later_event_first d.security_events)
    pure (summarize_events events)

  unfoldable pub get_type_counts : ListSecurityEventsDto → Handler TextCounts
  unfolding get_event_summary
  get_type_counts query = do summary ← get_event_summary query; pure summary.by_event_type

-- The counts by type are those of the stored events that pass the filters.
pub get_type_counts_lem :
    (pg : Prisma) (query : ListSecurityEventsDto) (w : World)
    → (c : TextCounts) × (get_type_counts pg query w ≡ (ok c, w))
      × ((kind : String)
          → or_else (count_of kind c) 0
            ≡ count_where
                (λ e. passes_event query e && str_eq e.event_type kind)
                w.db.security_events)
unfolding get_type_counts
get_type_counts_lem pg query w =
    let events = pg.find_ordered (passes_event query) later_event_first w.db.security_events in
    (
      tally_text (λ e. e.event_type) events [],
      refl,
      λ kind. omega (
        arith,
        count_of-tally_text (λ e. e.event_type) kind events [],
        pg.find_ordered_lem (passes_event query) (λ e. str_eq e.event_type kind) later_event_first
            w.db.security_events,
      ),
    )
