-- ===== src/FraudAlerts/Tests.antt =====
-- The change and the listing of one alert.
use bankproject.Base.{◌+◌, or_else, none, some, true, ◌≡◌, refl, false, [], ◌∷◌, Memᴰ, update_where}
use bankproject.Model.{
  RiskLevel, risk_code, risk_eq, alert_code, investigating, FraudAlert, AlertStatus, open_alert,
  resolved, alert_eq, high,
}
use bankproject.Prisma.Listed.{listed}
use bankproject.Handler.{World, ok, err, not_found}
use bankproject.Paging.{skip}
use bankproject.Store.{create_audit_log, audit_row}
use bankproject.Auth.Sample.{people, at_work}
use bankproject.FraudAlerts.Summary.{
  ListFraudAlertsDto, AlertSummary, count_at, get_summary, passing, get_summary_counts,
}
use bankproject.FraudAlerts.Listing.{find_alerts, find_alert, alert_view}
use bankproject.FraudAlerts.{has_alert_id, alert_audit, update_alert_status, update_alert_status-ok}

ran : Unit {0}
unfolding update_alert_status create_audit_log
ran = tt

abbrev alert : AlertStatus → FraudAlert
alert status = record {
  id = 3;
  risk_score = 90;
  risk_level = high;
  reason = "odd";
  status = status;
  transaction_id = 8;
  created_at = 0;
}

abbrev desk : World
desk = at_work (record people { fraud_alerts = alert open_alert ∷ [] })

update_alert_status-ok_example :
    (old : FraudAlert) × Memᴰ old desk.db.fraud_alerts
    × (old.id ≡ 3)
    × (alert_eq old.status resolved ≡ false)
    × (alert resolved ≡ record old { status = resolved })
    × ((update_alert_status listed 3 resolved 2 desk).1.db.fraud_alerts
        ≡ update_where (has_alert_id 3) (λ x. record x { status = resolved }) desk.db.fraud_alerts)
    × ((update_alert_status listed 3 resolved 2 desk).1.db.audit_logs
        ≡ audit_row
            (alert_audit 3 old.status resolved 2 (record old { status = resolved }))
            1000000
            1
          ∷ [])
unfolding ran
update_alert_status-ok_example = update_alert_status-ok listed 3 resolved 2 desk refl

abbrev query : ListFraudAlertsDto
query = record {
  risk_level = none;
  severity = some high;
  status = none;
  min_risk_score = some 50;
  max_risk_score = none;
}

get_summary_counts_example :
    (s : AlertSummary) × (get_summary listed query desk ≡ (ok s, desk))
    × (s.total ≡ passing listed query desk (λ a. true))
    × (s.open_count
        ≡ passing listed query desk (λ a. alert_eq a.status open_alert)
          + passing listed query desk (λ a. alert_eq a.status investigating))
    × ((r : RiskLevel)
        → or_else (count_at (risk_code r) s.by_risk_level) 0
          ≡ passing listed query desk (λ a. risk_eq a.risk_level r))
    × ((t : AlertStatus)
        → or_else (count_at (alert_code t) s.by_status) 0
          ≡ passing listed query desk (λ a. alert_eq a.status t))
get_summary_counts_example = get_summary_counts listed query desk

abbrev any_alert : ListFraudAlertsDto
any_alert = record {
  risk_level = some high;
  severity = none;
  status = none;
  min_risk_score = some 50;
  max_risk_score = none;
}

run_listing :
    (find_alerts listed (record { page = 1; limit = 20 }) any_alert desk).0
    ≡ ok (alert_view listed false desk.db (alert open_alert) ∷ [])
unfolding find_alerts skip
run_listing = refl

run_missing : (find_alert listed 4 desk).0 ≡ err (not_found "Fraud alert not found")
unfolding find_alert
run_missing = refl
