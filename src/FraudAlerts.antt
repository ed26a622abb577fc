-- ===== src/FraudAlerts.antt =====
-- `updateStatus` and `getSummary` of backend/src/fraud-alerts/fraud-alerts.service.ts. The
-- listings `findAll` and `findOne` are in FraudAlerts.Listing.
pub mod Summary
pub mod Listing
mod Tests
use bankproject.Base.{
  ℕ, ◌+◌, ◌≡◌, refl, String, Bool, true, false, ◌&&◌, Option, none, some, List, [], ◌∷◌, ◌==◌, leb,
  map_option, or_option, arith, count_where, filter_where, length, update_where, Option-cases,
  Bool-cases, Memᴰ, inl, inr,
}
use bankproject.Model.{
  Db, FraudAlert, AlertStatus, open_alert, investigating, resolved, false_positive, alert_eq,
  RiskLevel, risk_eq, numbered, number, alert_status_of, risk_of, json,
}
use bankproject.Prisma.{Prisma}
use bankproject.Handler.{
  Handler, World, ok, ◌>>=◌, ◌>>◌, gets, attempt, require, throw_if, pure, not_found, bad_request,
  record_missing,
}
use bankproject.Store.{AuditData, audit_row, create_audit_log}
use bankproject.Store.Effects.{create_audit_log_lem}

abbrev pub has_alert_id : ℕ → FraudAlert → Bool
has_alert_id id a = a.id == id

abbrev pub alert_audit : ℕ → AlertStatus → AlertStatus → ℕ → FraudAlert → AuditData
alert_audit id old status analyst_id alert = record {
  user_id = some analyst_id;
  action = "FRAUD_ALERT_STATUS_CHANGED";
  resource = some (numbered "FraudAlert" id);
  outcome = some "SUCCESS";
  details = some (
      json (
        ("fraudAlertId", number id)
        ∷ ("transactionId", number alert.transaction_id)
        ∷ ("previousStatus", alert_status_of old)
        ∷ ("newStatus", alert_status_of status)
        ∷ ("riskScore", number alert.risk_score)
        ∷ ("riskLevel", risk_of (some alert.risk_level))
        ∷ []));
}

module _ (pg : Prisma) where
  unfoldable pub update_alert_status : ℕ → AlertStatus → ℕ → Handler FraudAlert
  update_alert_status id status analyst_id = do
    found ← gets (λ d. pg.find (has_alert_id id) d.fraud_alerts)
    existing ← require found (not_found "Fraud alert not found")
    throw_if (alert_eq existing.status status)
        (bad_request "Fraud alert already has the requested status")
    updated ←
        attempt
          (λ d.
            map_option (λ r. (r.0, record d { fraud_alerts = r.1 }))
              (pg.update (has_alert_id id) (λ a. record a { status = status }) d.fraud_alerts))
          record_missing
    l ← create_audit_log pg (alert_audit id existing.status status analyst_id updated)
    pure updated

module _ (pg : Prisma) (id : ℕ) (status : AlertStatus) (analyst_id : ℕ) (w : World) where
  -- A change of an alert's status sets the status of that alert to another one and leaves the
  -- alerts otherwise as they were; one row is added to the audit log, for the analyst and with the
  -- status before and after.
  pub update_alert_status-ok :
      {a : FraudAlert}
      → (update_alert_status pg id status analyst_id w).0 ≡ ok a
      → (old : FraudAlert) × Memᴰ old w.db.fraud_alerts
        × (old.id ≡ id)
        × (alert_eq old.status status ≡ false)
        × (a ≡ record old { status = status })
        × ((update_alert_status pg id status analyst_id w).1.db.fraud_alerts
            ≡ update_where (has_alert_id id) (λ x. record x { status = status }) w.db.fraud_alerts)
        × ((update_alert_status pg id status analyst_id w).1.db.audit_logs
            ≡ audit_row
                (alert_audit id old.status status analyst_id (record old { status = status }))
                (w.clock 0)
                (pg.fresh (λ r. r.id) w.db.audit_logs)
              ∷ w.db.audit_logs)
  unfolding update_alert_status
  update_alert_status-ok {a} e =
      let set = λ (x : FraudAlert). record x { status = status } in
      let one = pg.update_lem (has_alert_id id) set w.db.fraud_alerts in
      let v = record w {
        db = record w.db { fraud_alerts = update_where (has_alert_id id) set w.db.fraud_alerts };
      } in
      elim (Option-cases (pg.find (has_alert_id id) w.db.fraud_alerts)) [
        | inl missing ↦ absurd (ground (arith, missing))
        | inr (old, found) ↦
            let (m, q) = pg.find_some (has_alert_id id) w.db.fraud_alerts found in
            let l =
              create_audit_log_lem pg
                (alert_audit id old.status status analyst_id (record old { status = status })) v in
            elim (Bool-cases (alert_eq old.status status)) [
              | inl same ↦ absurd (ground (arith, found, same))
              | inr other ↦ (
                old,
                m,
                ground (arith, q),
                other,
                ground (arith, found, other, one, l),
                ground (arith, found, other, one, l),
                ground (arith, found, other, one, l),
              )
            ]
      ]
