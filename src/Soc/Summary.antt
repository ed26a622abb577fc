-- ===== src/Soc/Summary.antt =====
-- The counts of backend/src/soc/soc.service.ts: `getSummary`, `getRiskDistribution`,
-- `getCasesByStatus`, `getSecurityEventsByType` and `getSecurityReport`.
mod Tests
use bankproject.Base.{
  ℕ, ◌+◌, ◌≤◌, ◌≡◌, ◌∙◌, refl, sym, String, Bool, true, false, ◌&&◌, ◌||◌, Option, some, List, [],
  ◌∷◌, arith, or_else, str_eq, count_where, Bool-cases, inl, inr,
}
use bankproject.Model.{
  Db, FraudAlert, InvestigationCase, SecurityEvent, RiskLevel, low, medium, high, critical,
  risk_code, risk_eq, AlertStatus, open_alert, investigating, resolved, false_positive, alert_eq,
}
use bankproject.Prisma.{Prisma}
use bankproject.Handler.{Handler, World, ok, ◌>>=◌, gets, now, pure}
use bankproject.Counts.{TextCounts, count_of, tally_text, count_of-tally_text}
use bankproject.Soc.Report.{risk_text, alert_text, later_alert_first}

pub record SocSummary : Type 0 where
  pub total_alerts : ℕ
  pub critical_alerts : ℕ
  pub open_cases : ℕ
  pub total_security_events : ℕ

pub record SecurityReport : Type 0 where
  pub generated_at : ℕ
  pub summary : SocSummary
  pub risk_distribution : TextCounts
  pub cases_by_status : TextCounts

abbrev pub no_risks : TextCounts
no_risks = ("LOW", 0) ∷ ("MEDIUM", 0) ∷ ("HIGH", 0) ∷ ("CRITICAL", 0) ∷ []

abbrev pub no_cases : TextCounts
no_cases = ("OPEN", 0) ∷ ("INVESTIGATING", 0) ∷ ("RESOLVED", 0) ∷ ("FALSE_POSITIVE", 0) ∷ []

abbrev pub is_open_case : InvestigationCase → Bool
is_open_case c = alert_eq c.status open_alert || alert_eq c.status investigating

module _ (pg : Prisma) where
  unfoldable pub get_soc_summary : Handler SocSummary
  get_soc_summary = gets (λ d. record {
    total_alerts = pg.count (λ a. true) d.fraud_alerts;
    critical_alerts = pg.count (λ a. risk_eq a.risk_level critical) d.fraud_alerts;
    open_cases = pg.count is_open_case d.cases;
    total_security_events = pg.count (λ e. true) d.security_events;
  })

  unfoldable pub get_risk_distribution : Handler TextCounts
  get_risk_distribution = gets (λ d.
      tally_text (λ a. risk_text a.risk_level)
        (pg.find_ordered (λ a. true) later_alert_first d.fraud_alerts) no_risks)

  unfoldable pub get_cases_by_status : Handler TextCounts
  get_cases_by_status =
      gets (λ d. tally_text (λ c. alert_text c.status) (pg.find_many (λ c. true) d.cases) no_cases)

  unfoldable pub get_security_events_by_type : Handler TextCounts
  get_security_events_by_type =
      gets (λ d. tally_text (λ e. e.event_type) (pg.find_many (λ e. true) d.security_events) [])

  unfoldable pub get_security_report : Handler SecurityReport
  unfolding get_soc_summary get_risk_distribution get_cases_by_status
  get_security_report = do
    at ← now
    summary ← get_soc_summary
    risks ← get_risk_distribution
    cases ← get_cases_by_status
    pure (record {
      generated_at = at;
      summary = summary;
      risk_distribution = risks;
      cases_by_status = cases;
    })

risk_text_eq : (a b : RiskLevel) → str_eq (risk_text a) (risk_text b) ≡ risk_eq a b
risk_text_eq low low = refl
risk_text_eq low medium = refl
risk_text_eq low high = refl
risk_text_eq low critical = refl
risk_text_eq medium low = refl
risk_text_eq medium medium = refl
risk_text_eq medium high = refl
risk_text_eq medium critical = refl
risk_text_eq high low = refl
risk_text_eq high medium = refl
risk_text_eq high high = refl
risk_text_eq high critical = refl
risk_text_eq critical low = refl
risk_text_eq critical medium = refl
risk_text_eq critical high = refl
risk_text_eq critical critical = refl

alert_text_eq : (a b : AlertStatus) → str_eq (alert_text a) (alert_text b) ≡ alert_eq a b
alert_text_eq open_alert open_alert = refl
alert_text_eq open_alert investigating = refl
alert_text_eq open_alert resolved = refl
alert_text_eq open_alert false_positive = refl
alert_text_eq investigating open_alert = refl
alert_text_eq investigating investigating = refl
alert_text_eq investigating resolved = refl
alert_text_eq investigating false_positive = refl
alert_text_eq resolved open_alert = refl
alert_text_eq resolved investigating = refl
alert_text_eq resolved resolved = refl
alert_text_eq resolved false_positive = refl
alert_text_eq false_positive open_alert = refl
alert_text_eq false_positive investigating = refl
alert_text_eq false_positive resolved = refl
alert_text_eq false_positive false_positive = refl

count-ext {ℓ} :
    {A : Type ℓ} (p q : A → Bool) (xs : List A)
    → ((x : A) → p x ≡ q x)
    → count_where p xs ≡ count_where q xs
count-ext p q [] h = refl
count-ext p q (x ∷ xs) h = ground (arith, h x, count-ext p q xs h)

risk_code-bound : (r : RiskLevel) → risk_code r ≤ 3
risk_code-bound low = omega arith
risk_code-bound medium = omega arith
risk_code-bound high = omega arith
risk_code-bound critical = omega arith

no_risk : (r : RiskLevel) → or_else (count_of (risk_text r) no_risks) 0 ≡ 0
no_risk low = refl
no_risk medium = refl
no_risk high = refl
no_risk critical = refl

no_case : (s : AlertStatus) → or_else (count_of (alert_text s) no_cases) 0 ≡ 0
no_case open_alert = refl
no_case investigating = refl
no_case resolved = refl
no_case false_positive = refl

by_case :
    (cases : List InvestigationCase)
    → count_where is_open_case cases
      ≡ count_where (λ c. alert_eq c.status open_alert) cases
        + count_where (λ c. alert_eq c.status investigating) cases
by_case [] = omega arith
by_case (c ∷ cases) = ground (arith, by_case cases)

by_risk :
    (alerts : List FraudAlert)
    → count_where (λ a. true) alerts
      ≡ count_where (λ a. risk_eq a.risk_level low) alerts
        + count_where (λ a. risk_eq a.risk_level medium) alerts
        + count_where (λ a. risk_eq a.risk_level high) alerts
        + count_where (λ a. risk_eq a.risk_level critical) alerts
by_risk [] = omega arith
by_risk (a ∷ alerts) = ground (arith, by_risk alerts, risk_code-bound a.risk_level)

module _ (pg : Prisma) (w : World) where
  -- The report is given always and changes nothing in the database. Its distribution counts the
  -- stored alerts of each risk level, and its cases those of each status; the alerts of all levels
  -- are together the total of the summary, those at the critical level are its critical alerts,
  -- and the cases that are open or under investigation are its open cases.
  pub get_security_report-consistent :
      (r : SecurityReport) × ((get_security_report pg w).0 ≡ ok r)
      × ((get_security_report pg w).1.db ≡ w.db)
      × ((level : RiskLevel)
          → or_else (count_of (risk_text level) r.risk_distribution) 0
            ≡ count_where (λ a. risk_eq a.risk_level level) w.db.fraud_alerts)
      × ((status : AlertStatus)
          → or_else (count_of (alert_text status) r.cases_by_status) 0
            ≡ count_where (λ c. alert_eq c.status status) w.db.cases)
      × (r.summary.total_alerts
          ≡ or_else (count_of "LOW" r.risk_distribution) 0
            + or_else (count_of "MEDIUM" r.risk_distribution) 0
            + or_else (count_of "HIGH" r.risk_distribution) 0
            + or_else (count_of "CRITICAL" r.risk_distribution) 0)
      × (r.summary.critical_alerts ≡ or_else (count_of "CRITICAL" r.risk_distribution) 0)
      × (r.summary.open_cases
          ≡ or_else (count_of "OPEN" r.cases_by_status) 0
            + or_else (count_of "INVESTIGATING" r.cases_by_status) 0)
  unfolding get_security_report
  get_security_report-consistent =
      let alerts = pg.find_ordered (λ a. true) later_alert_first w.db.fraud_alerts in
      let cases = pg.find_many (λ c. true) w.db.cases in
      let risk : (level : RiskLevel)
          → or_else
              (count_of (risk_text level)
                (tally_text (λ a. risk_text a.risk_level) alerts no_risks))
              0
            ≡ count_where (λ a. risk_eq a.risk_level level) w.db.fraud_alerts =
        λ level. omega (
          arith,
          count_of-tally_text (λ a. risk_text a.risk_level) (risk_text level) alerts no_risks,
          no_risk level,
          count-ext (λ a. str_eq (risk_text a.risk_level) (risk_text level))
              (λ a. risk_eq a.risk_level level) alerts (λ a. risk_text_eq a.risk_level level),
          pg.find_ordered_lem (λ a. true) (λ a. risk_eq a.risk_level level) later_alert_first
              w.db.fraud_alerts,
        ) in
      let case : (status : AlertStatus)
          → or_else
              (count_of (alert_text status) (tally_text (λ c. alert_text c.status) cases no_cases))
              0
            ≡ count_where (λ c. alert_eq c.status status) w.db.cases =
        λ status. omega (
          arith,
          count_of-tally_text (λ c. alert_text c.status) (alert_text status) cases no_cases,
          no_case status,
          count-ext (λ c. str_eq (alert_text c.status) (alert_text status))
              (λ c. alert_eq c.status status) cases (λ c. alert_text_eq c.status status),
          pg.find_many_lem (λ c. true) (λ c. alert_eq c.status status) w.db.cases,
        ) in
      (
        _,
        refl,
        refl,
        risk,
        case,
        omega (
          arith,
          pg.count_lem (λ a. true) w.db.fraud_alerts,
          by_risk w.db.fraud_alerts,
          risk low,
          risk medium,
          risk high,
          risk critical,
        ),
        pg.count_lem (λ a. risk_eq a.risk_level critical) w.db.fraud_alerts ∙ sym (risk critical),
        omega (
          arith,
          pg.count_lem is_open_case w.db.cases,
          by_case w.db.cases,
          case open_alert,
          case investigating,
        ),
      )
