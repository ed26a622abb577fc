-- ===== src/Soc.antt =====
-- The investigation cases of backend/src/soc/soc.service.ts: `createCase` and `updateCaseStatus`.
pub mod Cases
pub mod Opening
pub mod Notes
pub mod Report
pub mod Summary
mod Tests
use bankproject.Base.{
  ℕ, ◌≡◌, refl, String, Bool, true, false, ◌||◌, Option, none, some, List, [], ◌∷◌, ◌==◌, is_some,
  if◌then◌else◌, map_option,
}
use bankproject.Text.{trim}
use bankproject.Model.{
  Db, FraudAlert, InvestigationCase, AlertStatus, open_alert, investigating, resolved,
  false_positive, alert_eq, numbered, number, text, alert_status_of, json,
}
use bankproject.Prisma.{Prisma}
use bankproject.Handler.{
  branch, on_option, Handler, ◌>>=◌, ◌>>◌, gets, now, attempt, require, throw_if, pure, not_found,
  bad_request, unique_violation, record_missing,
}
use bankproject.Store.{create_audit_log}
use bankproject.FraudAlerts.{has_alert_id}
use bankproject.Soc.Notes.{set_alert_status}

abbrev pub is_case_of : ℕ → InvestigationCase → Bool
is_case_of alert_id c = c.alert_id == alert_id

abbrev pub has_case_id : ℕ → InvestigationCase → Bool
has_case_id id c = c.id == id

abbrev pub case_clash : InvestigationCase → InvestigationCase → Bool
case_clash a b = is_case_of a.alert_id b

abbrev pub is_closed : AlertStatus → Bool
is_closed status = alert_eq status resolved || alert_eq status false_positive

-- The outcome that a status has: the status itself where it closes the case.
abbrev pub outcome_of : AlertStatus → Option AlertStatus
outcome_of status = if is_closed status then some status else none

abbrev pub case_row : ℕ → AlertStatus → String → String → ℕ → ℕ → ℕ → InvestigationCase
case_row alert_id status analyst summary user_id at id = record {
  id = id;
  status = if is_closed status then status else investigating;
  assigned_analyst = trim analyst;
  summary = trim summary;
  outcome = outcome_of status;
  alert_id = alert_id;
  created_by_id = some user_id;
  updated_by_id = some user_id;
  created_at = at;
}

abbrev pub with_case_status : AlertStatus → ℕ → InvestigationCase → InvestigationCase
with_case_status status user_id c = record c {
  status = status;
  outcome = outcome_of status;
  updated_by_id = some user_id;
}

module _ (pg : Prisma) where
  -- The alert of a new case is no longer just open.
  unfoldable pub take_up : ℕ → FraudAlert → ℕ → Handler (Unit {0})
  take_up alert_id alert user_id =
      branch (alert_eq alert.status open_alert)
        (do a ← set_alert_status pg alert_id investigating user_id; pure tt) (pure tt)

  unfoldable pub create_case : ℕ → String → String → ℕ → Handler InvestigationCase
  unfolding take_up
  create_case alert_id analyst summary user_id = do
    found ← gets (λ d. pg.find (has_alert_id alert_id) d.fraud_alerts)
    alert ← require found (not_found "Fraud alert not found")
    existing ← gets (λ d. pg.find (is_case_of alert_id) d.cases)
    throw_if (is_some existing) (bad_request "An investigation case already exists for this alert")
    take_up alert_id alert user_id
    at ← now
    c ←
        attempt
          (λ d.
            map_option (λ r. (r.0, record d { cases = r.1 }))
              (pg.create (λ c. c.id) case_clash
                (case_row alert_id alert.status analyst summary user_id at) d.cases))
          unique_violation
    l ← create_audit_log pg (record {
      user_id = some user_id;
      action = "INVESTIGATION_CASE_CREATED";
      resource = some (numbered "InvestigationCase" c.id);
      outcome = some "SUCCESS";
      details = some (
          json (
            ("alertId", number alert_id)
            ∷ ("assignedAnalyst", text (trim analyst))
            ∷ ("summary", text (trim summary))
            ∷ []));
    })
    pure c

  unfoldable pub update_case_status : ℕ → AlertStatus → ℕ → Handler InvestigationCase
  update_case_status id status user_id = do
    found ← gets (λ d. pg.find (has_case_id id) d.cases)
    case ← require found (not_found "Investigation case not found")
    throw_if (alert_eq case.status status)
        (bad_request "Investigation case already has the requested status")
    a ← set_alert_status pg case.alert_id status user_id
    updated ←
        attempt
          (λ d.
            map_option (λ r. (r.0, record d { cases = r.1 }))
              (pg.update (has_case_id id) (with_case_status status user_id) d.cases))
          record_missing
    l ← create_audit_log pg (record {
      user_id = some user_id;
      action = "INVESTIGATION_CASE_STATUS_CHANGED";
      resource = some (numbered "InvestigationCase" id);
      outcome = some "SUCCESS";
      details = some (
          json (
            ("caseId", number id)
            ∷ ("alertId", number case.alert_id)
            ∷ ("previousStatus", alert_status_of case.status)
            ∷ ("newStatus", alert_status_of status)
            ∷ []));
    })
    pure updated
