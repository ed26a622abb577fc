-- ===== src/Soc/Cases.antt =====
-- An investigation case and its alert.
use bankproject.Base.{
  ℕ, ◌≡◌, refl, true, false, some, [], ◌∷◌, arith, All, update_where, Option-cases, inl, inr,
}
use bankproject.Model.{
  FraudAlert, InvestigationCase, AlertStatus, alert_eq, numbered, number, alert_status_of, json,
}
use bankproject.Prisma.{Prisma}
use bankproject.Prisma.Found.{All-update_where, any_where_of_Memᴰ, any-update_where}
use bankproject.Handler.{World, ok, err, bad_request}
use bankproject.Store.{AuditData}
use bankproject.Store.Effects.{create_audit_log_lem, logged}
use bankproject.FraudAlerts.{has_alert_id, alert_audit, update_alert_status}
use bankproject.Soc.Notes.{set_alert_status}
use bankproject.Soc.{has_case_id, outcome_of, with_case_status, update_case_status}

-- The outcome of a case is there just where its status closes it.
abbrev pub IsSettled : InvestigationCase → Type 0
IsSettled c = c.outcome ≡ outcome_of c.status

abbrev pub with_alert_status : AlertStatus → FraudAlert → FraudAlert
with_alert_status status a = record a { status = status }

module _ (pg : Prisma) (id : ℕ) (status : AlertStatus) (user_id : ℕ) (w : World) where
  -- What a change of an alert leaves: the alerts changed, a row of the audit log and nothing else.
  abbrev pub alerted : FraudAlert → World
  alerted old =
      logged pg (alert_audit id old.status status user_id (with_alert_status status old))
        (record w {
          db = record w.db {
            fraud_alerts =
                update_where (has_alert_id id) (with_alert_status status) w.db.fraud_alerts;
          };
        })

  update_alert_status-alerted :
      {old : FraudAlert}
      → pg.find (has_alert_id id) w.db.fraud_alerts ≡ some old
      → alert_eq old.status status ≡ false
      → update_alert_status pg id status user_id w
        ≡ (ok (with_alert_status status old), alerted old)
  unfolding update_alert_status
  update_alert_status-alerted {old} found other =
      let one = pg.update_lem (has_alert_id id) (with_alert_status status) w.db.fraud_alerts in
      let l =
        create_audit_log_lem pg
          (alert_audit id old.status status user_id (with_alert_status status old))
          (record w {
            db = record w.db {
              fraud_alerts =
                  update_where (has_alert_id id) (with_alert_status status) w.db.fraud_alerts;
            };
          }) in
      ground (arith, found, other, one, l)

  update_alert_status-refuses :
      {old : FraudAlert}
      → pg.find (has_alert_id id) w.db.fraud_alerts ≡ some old
      → alert_eq old.status status ≡ true
      → update_alert_status pg id status user_id w
        ≡ (err (bad_request "Fraud alert already has the requested status"), w)
  unfolding update_alert_status
  update_alert_status-refuses found same = ground (arith, found, same)

  -- The alert is still there when it is read again.
  pub set_alert_status-alerted :
      {old : FraudAlert}
      → pg.find (has_alert_id id) w.db.fraud_alerts ≡ some old
      → alert_eq old.status status ≡ false
      → (a : FraudAlert) × (set_alert_status pg id status user_id w ≡ (ok a, alerted old))
  unfolding set_alert_status
  set_alert_status-alerted {old} found other =
      let set = update_where (has_alert_id id) (with_alert_status status) w.db.fraud_alerts in
      let first = update_alert_status-alerted found other in
      elim (Option-cases (pg.find (has_alert_id id) set)) [
        | inl gone ↦
            let (m, q) = pg.find_some (has_alert_id id) w.db.fraud_alerts found in
            let there = any_where_of_Memᴰ (has_alert_id id) m q in
            let kept =
              any-update_where (has_alert_id id) (has_alert_id id) (with_alert_status status)
                w.db.fraud_alerts (λ a. refl) in
            absurd (ground (arith, pg.find_none (has_alert_id id) set gone, kept, there))
        | inr (a, again) ↦ (a, ground (arith, first, again))
      ]

  pub set_alert_status_refuses :
      {old : FraudAlert}
      → pg.find (has_alert_id id) w.db.fraud_alerts ≡ some old
      → alert_eq old.status status ≡ true
      → set_alert_status pg id status user_id w
        ≡ (err (bad_request "Fraud alert already has the requested status"), w)
  unfolding set_alert_status
  set_alert_status_refuses found same = ground (arith, update_alert_status-refuses found same)

module _ (pg : Prisma) (id : ℕ) (status : AlertStatus) (user_id : ℕ) (w : World) where
  -- A case cannot be given a status that its alert has already: the request is refused and nothing
  -- changes, though the case has another status.
  pub update_case_status_refused :
      {case : InvestigationCase} {alert : FraudAlert}
      → pg.find (has_case_id id) w.db.cases ≡ some case
      → alert_eq case.status status ≡ false
      → pg.find (has_alert_id case.alert_id) w.db.fraud_alerts ≡ some alert
      → alert_eq alert.status status ≡ true
      → update_case_status pg id status user_id w
        ≡ (err (bad_request "Fraud alert already has the requested status"), w)
  unfolding update_case_status
  update_case_status_refused {case} found other of same =
      ground
        (arith, found, other, set_alert_status_refuses pg case.alert_id status user_id w of same)

  abbrev case_audit : InvestigationCase → AuditData
  case_audit case = record {
    user_id = some user_id;
    action = "INVESTIGATION_CASE_STATUS_CHANGED";
    resource = some (numbered "InvestigationCase" id);
    outcome = some "SUCCESS";
    details = some (
        json (
          ("caseId", number id)
          ∷ ("alertId", number case.alert_id)
          ∷ ("previousStatus", alert_status_of case.status)
          ∷ ("newStatus", alert_status_of status)
          ∷ []));
  }

  -- A case with another status is given the new one, together with its alert, if the alert does not
  -- have it: the outcome of the case follows the status, so that every case is settled as before,
  -- and the other cases and alerts stay.
  pub update_case_status_moves :
      {case : InvestigationCase} {alert : FraudAlert}
      → pg.find (has_case_id id) w.db.cases ≡ some case
      → alert_eq case.status status ≡ false
      → pg.find (has_alert_id case.alert_id) w.db.fraud_alerts ≡ some alert
      → alert_eq alert.status status ≡ false
      → All IsSettled w.db.cases
      → ((update_case_status pg id status user_id w).0 ≡ ok (with_case_status status user_id case))
        × ((update_case_status pg id status user_id w).1.db.cases
            ≡ update_where (has_case_id id) (with_case_status status user_id) w.db.cases)
        × ((update_case_status pg id status user_id w).1.db.fraud_alerts
            ≡ update_where
                (has_alert_id case.alert_id)
                (with_alert_status status)
                w.db.fraud_alerts)
        × All IsSettled (update_case_status pg id status user_id w).1.db.cases
  unfolding update_case_status
  update_case_status_moves {case} {alert} found other of new settled =
      let (a, first) = set_alert_status-alerted pg case.alert_id status user_id w of new in
      let one = pg.update_lem (has_case_id id) (with_case_status status user_id) w.db.cases in
      let v = alerted pg case.alert_id status user_id w alert in
      let l = create_audit_log_lem pg (case_audit case) (record v {
        db = record v.db {
          cases = update_where (has_case_id id) (with_case_status status user_id) w.db.cases;
        };
      }) in
      let cases : (update_case_status pg id status user_id w).1.db.cases
          ≡ update_where (has_case_id id) (with_case_status status user_id) w.db.cases =
        ground (arith, found, other, first, one, l) in
      (
        ground (arith, found, other, first, one, l),
        cases,
        ground (arith, found, other, first, one, l),
        rw cases (
            All-update_where IsSettled (has_case_id id) (with_case_status status user_id) w.db.cases
              (λ c p s. refl) settled),
      )
