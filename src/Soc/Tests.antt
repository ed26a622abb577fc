-- ===== src/Soc/Tests.antt =====
-- A case of a sample alert.
use bankproject.Base.{◌≡◌, refl, [], ◌∷◌, All, update_where, if◌then◌else◌}
use bankproject.Text.{trim, is_space}
use bankproject.Model.{
  FraudAlert, InvestigationCase, AlertStatus, open_alert, investigating, resolved, alert_eq, high,
}
use bankproject.Prisma.Listed.{listed}
use bankproject.Handler.{World, ok, err, bad_request}
use bankproject.Store.{create_audit_log}
use bankproject.FraudAlerts.{has_alert_id, update_alert_status}
use bankproject.Auth.Sample.{people, at_work}
use bankproject.Soc.{
  has_case_id, with_case_status, case_row, is_closed, take_up, create_case, update_case_status,
}
use bankproject.Soc.Cases.{
  IsSettled, with_alert_status, update_case_status_refused, update_case_status_moves,
}
use bankproject.Soc.Opening.{create_case_opens}

ran : Unit {0}
unfolding trim is_space create_audit_log update_alert_status take_up create_case update_case_status
ran = tt

abbrev alert : AlertStatus → FraudAlert
alert status = record {
  id = 3;
  risk_score = 90;
  risk_level = high;
  reason = "odd";
  status = status;
  transaction_id = 8;
  created_at = 0;
}

abbrev inquiry : InvestigationCase
inquiry = case_row 3 investigating "Eve" "odd" 2 0 1

abbrev desk : AlertStatus → World
desk status = at_work (record people { fraud_alerts = alert status ∷ []; cases = inquiry ∷ [] })

abbrev morning : World
morning = at_work (record people { fraud_alerts = alert open_alert ∷ [] })

update_case_status_refused_example :
    update_case_status listed 1 resolved 2 (desk resolved)
    ≡ (err (bad_request "Fraud alert already has the requested status"), desk resolved)
unfolding ran
update_case_status_refused_example =
    update_case_status_refused listed 1 resolved 2 (desk resolved) {case = inquiry}
      {alert = alert resolved} refl refl refl refl

update_case_status_moves_example :
    ((update_case_status listed 1 resolved 2 (desk investigating)).0
      ≡ ok (with_case_status resolved 2 inquiry))
    × ((update_case_status listed 1 resolved 2 (desk investigating)).1.db.cases
        ≡ update_where (has_case_id 1) (with_case_status resolved 2) (inquiry ∷ []))
    × ((update_case_status listed 1 resolved 2 (desk investigating)).1.db.fraud_alerts
        ≡ update_where (has_alert_id 3) (with_alert_status resolved) (alert investigating ∷ []))
    × All IsSettled (update_case_status listed 1 resolved 2 (desk investigating)).1.db.cases
unfolding ran
update_case_status_moves_example =
    update_case_status_moves listed 1 resolved 2 (desk investigating) {case = inquiry}
      {alert = alert investigating} refl refl refl refl (refl, tt)

create_case_opens_example :
    (c : InvestigationCase) × ((create_case listed 3 " Eve" "odd" 2 morning).0 ≡ ok c)
    × ((create_case listed 3 " Eve" "odd" 2 morning).1.db.cases ≡ c ∷ [])
    × (c.alert_id ≡ 3)
    × IsSettled c
    × (c.status ≡ (if is_closed open_alert then open_alert else investigating))
    × ((create_case listed 3 " Eve" "odd" 2 morning).1.db.fraud_alerts ≡ (
        if alert_eq open_alert open_alert
        then update_where (has_alert_id 3) (with_alert_status investigating) (alert open_alert ∷ [])
        else alert open_alert ∷ []))
unfolding ran
create_case_opens_example =
    create_case_opens listed 3 " Eve" "odd" 2 morning {alert = alert open_alert} refl refl
