-- ===== src/SecurityEvents.antt =====
-- backend/src/security-events/security-events.service.ts.
pub mod Queries
pub mod Reporting
mod Tests
use bankproject.Base.{
  ℕ, String, Bool, true, false, ◌&&◌, not, Option, none, some, List, [], ◌∷◌, ◌++◌, ◌==◌, or_else,
  or_option, if◌then◌else◌,
}
use bankproject.Text.{trim, is_truthy}
use bankproject.Model.{Db, SecurityEvent, RiskLevel, Value, number, text, risk_of, numbered, json}
use bankproject.Prisma.{Prisma}
use bankproject.Handler.{
  Handler, ◌>>=◌, ◌>>◌, gets, require, pure, transaction, branch, bad_request, not_found,
}
use bankproject.Store.{create_audit_log, create_security_event}
use bankproject.Auth.Tables.{has_uid}

-- The names in camel and in snake case stand for the same fields.
pub record CreateSecurityEventDto : Type 0 where
  pub event_type : Option String
  pub event_type_old : Option String
  pub risk_level : Option RiskLevel
  pub severity : Option RiskLevel
  pub description : String
  pub user_id : Option ℕ
  pub user_id_old : Option ℕ
  pub source : Option String
  pub event_data : Option Value
  pub event_data_old : Option Value

-- A text that is missing or empty is none.
abbrev pub filled : Option String → Option String
filled none = none
filled (some s) = if is_truthy s then some s else none

abbrev pub source_field : Option String → List (String × Value)
source_field none = []
source_field (some s) = ("source", text (trim s)) ∷ []

abbrev pub data_field : Option Value → List (String × Value)
data_field none = []
data_field (some v) = ("eventData", v) ∷ []

-- Whether the event is about a user other than the one who reports it: an id of 0 is none.
abbrev pub is_other : Option ℕ → ℕ → Bool
is_other none actor = false
is_other (some id) actor = not (id == 0) && not (id == actor)

module _ (pg : Prisma) where
  -- The user that the event is about has to exist.
  unfoldable pub check_subject : Option ℕ → ℕ → Handler (Unit {0})
  check_subject requested actor =
      branch (is_other requested actor)
        (do
          subject ← gets (λ d. pg.find (has_uid (or_else requested actor)) d.users)
          user ← require subject (not_found "Event subject user not found")
          pure tt)
        (pure tt)

  -- The body of the transaction.
  unfoldable pub record_event :
      CreateSecurityEventDto → ℕ → String → RiskLevel → Handler SecurityEvent
  record_event dto actor event_type risk_level = do
    created ← create_security_event pg (record {
      event_type = trim event_type;
      description = trim dto.description;
      risk_level = risk_level;
      user_id = some (or_else (or_option dto.user_id dto.user_id_old) actor);
    })
    l ← create_audit_log pg (record {
      user_id = some actor;
      action = "SECURITY_EVENT_CREATED";
      resource = some (numbered "SecurityEvent" created.id);
      outcome = some "SUCCESS";
      details = some (
          json (
            ("eventType", text created.event_type)
            ∷ ("riskLevel", risk_of (some created.risk_level))
            ∷ ("subjectUserId", number (or_else created.user_id 0))
            ∷ (source_field (filled dto.source)
                ++ data_field (or_option dto.event_data dto.event_data_old))));
    })
    pure created

  unfoldable pub create_event : CreateSecurityEventDto → ℕ → Handler SecurityEvent
  create_event dto actor = do
    event_type ←
        require (filled (or_option dto.event_type dto.event_type_old))
          (bad_request "eventType is required")
    risk_level ←
        require (or_option dto.risk_level dto.severity) (bad_request "riskLevel is required")
    check_subject (or_option dto.user_id dto.user_id_old) actor
    transaction (record_event dto actor event_type risk_level)
