-- ===== src/Soc/Opening.antt =====
-- A case is opened for an alert.
use bankproject.Base.{
  ℕ, suc, ◌≡◌, refl, String, true, false, none, some, [], ◌∷◌, arith, update_where, Bool-cases, inl,
  inr, if◌then◌else◌,
}
use bankproject.Model.{
  FraudAlert, InvestigationCase, AlertStatus, open_alert, investigating, resolved, false_positive,
  alert_eq, numbered, number, json, text,
}
use bankproject.Text.{trim}
use bankproject.Prisma.{Prisma}
use bankproject.Handler.{World, ok}
use bankproject.Store.Effects.{create_audit_log_lem}
use bankproject.FraudAlerts.{has_alert_id}
use bankproject.Soc.{is_case_of, is_closed, outcome_of, take_up, create_case, case_row, case_clash}
use bankproject.Soc.Cases.{IsSettled, with_alert_status, alerted, set_alert_status-alerted}

settled_row :
    (s : AlertStatus) → outcome_of s ≡ outcome_of (if is_closed s then s else investigating)
settled_row open_alert = refl
settled_row investigating = refl
settled_row resolved = refl
settled_row false_positive = refl

module _ (pg : Prisma) (alert_id : ℕ) (analyst summary : String) (user_id : ℕ) (w : World) where
  take_up-world :
      {alert : FraudAlert}
      → pg.find (has_alert_id alert_id) w.db.fraud_alerts ≡ some alert
      → (v : World) × (take_up pg alert_id alert user_id w ≡ (ok tt, v))
        × (v.db.cases ≡ w.db.cases)
        × (v.db.fraud_alerts ≡ (
            if alert_eq alert.status open_alert
            then update_where
                (has_alert_id alert_id)
                (with_alert_status investigating)
                w.db.fraud_alerts
            else w.db.fraud_alerts))
  unfolding take_up
  take_up-world {alert} found = elim (Bool-cases (alert_eq alert.status open_alert)) [
    | inl is ↦
        let new : alert_eq alert.status investigating ≡ false = not_investigating alert.status is in
        let (a, first) = set_alert_status-alerted pg alert_id investigating user_id w found new in
        (
          alerted pg alert_id investigating user_id w alert,
          ground (arith, is, first),
          refl,
          ground (arith, is),
        )
    | inr other ↦ (w, ground (arith, other), refl, ground (arith, other))
  ]
    where
      not_investigating :
          (s : AlertStatus) → alert_eq s open_alert ≡ true → alert_eq s investigating ≡ false
      not_investigating s h = ground (arith, h)

  -- A case is opened for every stored alert that has none: it belongs to the alert, it is settled,
  -- it is closed if the alert is and under investigation otherwise, and an alert that was open is
  -- then under investigation too; the other cases and alerts stay.
  pub create_case_opens :
      {alert : FraudAlert}
      → pg.find (has_alert_id alert_id) w.db.fraud_alerts ≡ some alert
      → pg.find (is_case_of alert_id) w.db.cases ≡ none
      → (c : InvestigationCase) × ((create_case pg alert_id analyst summary user_id w).0 ≡ ok c)
        × ((create_case pg alert_id analyst summary user_id w).1.db.cases ≡ c ∷ w.db.cases)
        × (c.alert_id ≡ alert_id)
        × IsSettled c
        × (c.status ≡ (if is_closed alert.status then alert.status else investigating))
        × ((create_case pg alert_id analyst summary user_id w).1.db.fraud_alerts ≡ (
            if alert_eq alert.status open_alert
            then update_where
                (has_alert_id alert_id)
                (with_alert_status investigating)
                w.db.fraud_alerts
            else w.db.fraud_alerts))
  unfolding create_case
  create_case_opens {alert} found new =
      let (v, path, cases, alerts) = take_up-world found in
      let row = case_row alert_id alert.status analyst summary user_id (v.clock 0) in
      let c = row (pg.fresh (λ c. c.id) w.db.cases) in
      let one = pg.create_lem (λ c. c.id) case_clash row w.db.cases in
      let free = pg.find_none (is_case_of alert_id) w.db.cases new in
      let l =
        create_audit_log_lem pg
          (record {
            user_id = some user_id;
            action = "INVESTIGATION_CASE_CREATED";
            resource = some (numbered "InvestigationCase" c.id);
            outcome = some "SUCCESS";
            details = some (
                json (
                  ("alertId", number alert_id)
                  ∷ ("assignedAnalyst", text (trim analyst))
                  ∷ ("summary", text (trim summary))
                  ∷ []));
          })
          (record v {
            clock = λ n. v.clock (suc n);
            db = record v.db { cases = c ∷ w.db.cases };
          }) in
      (
        c,
        ground (arith, found, new, path, cases, one, free, l),
        ground (arith, found, new, path, cases, one, free, l),
        refl,
        settled_row alert.status,
        refl,
        ground (arith, found, new, path, cases, alerts, one, free, l),
      )
