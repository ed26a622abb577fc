-- ===== src/Soc/Summary/Tests.antt =====
-- The report on a small bank, and the instance of the theorem on it.
use bankproject.Base.{ℕ, ◌+◌, ◌≡◌, [], ◌∷◌, or_else, count_where}
use bankproject.Model.{
  RiskLevel, high, critical, risk_eq, AlertStatus, open_alert, resolved, alert_eq, FraudAlert,
}
use bankproject.Prisma.Listed.{listed}
use bankproject.Handler.{World, ok}
use bankproject.Counts.{count_of}
use bankproject.Transactions.Sample.{bank}
use bankproject.Soc.Report.{risk_text, alert_text}
use bankproject.Soc.Summary.{SecurityReport, get_security_report, get_security_report-consistent}

abbrev alert : ℕ → RiskLevel → AlertStatus → FraudAlert
alert id level status = record {
  id = id;
  risk_score = 90;
  risk_level = level;
  reason = "odd";
  status = status;
  transaction_id = id;
  created_at = 9;
}

abbrev watched : World
watched = record {
  db = record bank {
    fraud_alerts = alert 1 high open_alert ∷ alert 2 critical resolved ∷ alert 3 high resolved ∷ [];
  };
  clock = λ n. n;
  random = λ n. "r";
  others = λ n d. d;
}

get_security_report-consistent_example :
    (r : SecurityReport) × ((get_security_report listed watched).0 ≡ ok r)
    × ((get_security_report listed watched).1.db ≡ watched.db)
    × ((level : RiskLevel)
        → or_else (count_of (risk_text level) r.risk_distribution) 0
          ≡ count_where (λ a. risk_eq a.risk_level level) watched.db.fraud_alerts)
    × ((status : AlertStatus)
        → or_else (count_of (alert_text status) r.cases_by_status) 0
          ≡ count_where (λ c. alert_eq c.status status) watched.db.cases)
    × (r.summary.total_alerts
        ≡ or_else (count_of "LOW" r.risk_distribution) 0
          + or_else (count_of "MEDIUM" r.risk_distribution) 0
          + or_else (count_of "HIGH" r.risk_distribution) 0
          + or_else (count_of "CRITICAL" r.risk_distribution) 0)
    × (r.summary.critical_alerts ≡ or_else (count_of "CRITICAL" r.risk_distribution) 0)
    × (r.summary.open_cases
        ≡ or_else (count_of "OPEN" r.cases_by_status) 0
          + or_else (count_of "INVESTIGATING" r.cases_by_status) 0)
get_security_report-consistent_example = get_security_report-consistent listed watched
