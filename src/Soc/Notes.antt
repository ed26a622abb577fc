-- ===== src/Soc/Notes.antt =====
-- `addNote` and `updateAlertStatus` of backend/src/soc/soc.service.ts.
use bankproject.Base.{ℕ, String, some, [], ◌∷◌}
use bankproject.Text.{trim}
use bankproject.Model.{FraudAlert, AlertStatus, numbered, text, json}
use bankproject.Prisma.{Prisma}
use bankproject.Handler.{Handler, ◌>>=◌, gets, require, pure, not_found}
use bankproject.Store.{AuditData, create_audit_log}
use bankproject.FraudAlerts.{has_alert_id, update_alert_status}

abbrev pub note_audit : ℕ → String → ℕ → AuditData
note_audit id note analyst_id = record {
  user_id = some analyst_id;
  action = "FRAUD_ALERT_NOTE_ADDED";
  resource = some (numbered "FraudAlert" id);
  outcome = some "SUCCESS";
  details = some (json (("note", text (trim note)) ∷ []));
}

module _ (pg : Prisma) where
  unfoldable pub add_note : ℕ → String → ℕ → Handler (Unit {0})
  add_note id note analyst_id = do
    found ← gets (λ d. pg.find (has_alert_id id) d.fraud_alerts)
    alert ← require found (not_found "Fraud alert not found")
    l ← create_audit_log pg (note_audit id note analyst_id)
    pure tt

  -- The change of the status, and the alert as it is stored then.
  unfoldable pub set_alert_status : ℕ → AlertStatus → ℕ → Handler FraudAlert
  set_alert_status id status analyst_id = do
    a ← update_alert_status pg id status analyst_id
    found ← gets (λ d. pg.find (has_alert_id id) d.fraud_alerts)
    require found (not_found "Fraud alert not found")
