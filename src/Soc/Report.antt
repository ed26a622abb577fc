-- ===== src/Soc/Report.antt =====
-- `getAlertsCsv` of backend/src/soc/soc.service.ts: the alerts as comma-separated values.
pub mod Reader
mod Tests
use Prim.Native.Char.{Char, code}
use Prim.Native.String.{◌++◌}
use bankproject.Base.{
  ℕ, String, Bool, true, false, ◌==◌, Option, none, some, List, [], ◌∷◌, map, leb, if◌then◌else◌,
}
use bankproject.Text.Split.{join_with}
use bankproject.Model.{
  FraudAlert, Transaction, RiskLevel, low, medium, high, critical, TransactionStatus, pending,
  approved, completed, rejected, flagged, reversed, AlertStatus, open_alert, investigating,
  resolved, false_positive,
}
use bankproject.Prisma.{Prisma}
use bankproject.Handler.{Handler, ◌>>=◌, gets, pure}
use bankproject.Transactions.Reversal.{is_transaction}

-- `s.replaceAll('"', '""')`
unfoldable pub double_quotes : String → String
double_quotes String.[] = String.[]
double_quotes (String.◌∷◌ c s) =
    let rest = double_quotes s in
    if code c == b'"' then String.◌∷◌ c (String.◌∷◌ c rest) else String.◌∷◌ c rest

-- The text of a value, which may be null.
unfoldable pub escape : Option String → String
escape none = "\"\""
escape (some s) = "\"" ++ (double_quotes s ++ "\"")

abbrev pub csv_line : List (Option String) → String
csv_line row = join_with "," (map escape row)

-- The texts that JavaScript gives a number, an amount of cents and a time.
pub record Texts : Type 0 where
  pub number_text : ℕ → String
  pub money_text : ℕ → String
  pub time_text : ℕ → String

abbrev pub risk_text : RiskLevel → String
risk_text low = "LOW"
risk_text medium = "MEDIUM"
risk_text high = "HIGH"
risk_text critical = "CRITICAL"

abbrev pub decision_text : TransactionStatus → String
decision_text pending = "PENDING"
decision_text approved = "APPROVED"
decision_text completed = "COMPLETED"
decision_text rejected = "REJECTED"
decision_text flagged = "FLAGGED"
decision_text reversed = "REVERSED"

abbrev pub alert_text : AlertStatus → String
alert_text open_alert = "OPEN"
alert_text investigating = "INVESTIGATING"
alert_text resolved = "RESOLVED"
alert_text false_positive = "FALSE_POSITIVE"

-- An alert as `mapAlert` gives it, each value in its text; the columns are never null.
pub record AlertRow : Type 0 where
  pub id : String
  pub amount : String
  pub currency : String
  pub risk_score : String
  pub severity : String
  pub decision : String
  pub status : String
  pub transaction_id : String
  pub reference : String
  pub created_at : String

abbrev pub map_alert : Texts → FraudAlert → Transaction → AlertRow
map_alert texts a t = record {
  id = texts.number_text a.id;
  amount = texts.money_text t.amount;
  currency = t.currency;
  risk_score = texts.number_text a.risk_score;
  severity = risk_text a.risk_level;
  decision = decision_text t.status;
  status = alert_text a.status;
  transaction_id = texts.number_text a.transaction_id;
  reference = t.reference;
  created_at = texts.time_text a.created_at;
}

abbrev pub header : List String
header =
    "id" ∷ "amount" ∷ "currency" ∷ "risk_score" ∷ "severity" ∷ "decision" ∷ "status"
    ∷ "transaction_id" ∷ "reference" ∷ "created_at" ∷ []

abbrev pub csv_fields : AlertRow → List (Option String)
csv_fields row =
    some row.id
    ∷ some row.amount
    ∷ some row.currency
    ∷ some row.risk_score
    ∷ some row.severity
    ∷ some row.decision
    ∷ some row.status
    ∷ some row.transaction_id
    ∷ some row.reference
    ∷ some row.created_at
    ∷ []

unfoldable pub alerts_csv : List AlertRow → String
alerts_csv rows = join_with "\n" (join_with "," header ∷ map (λ r. csv_line (csv_fields r)) rows)

-- `orderBy: { createdAt: 'desc' }`
abbrev pub later_alert_first : FraudAlert → FraudAlert → Bool
later_alert_first a b = leb b.created_at a.created_at

-- The alerts with the transactions that they point to; the schema requires one for each.
abbrev pub joined : Prisma → Texts → List Transaction → List FraudAlert → List AlertRow
joined pg texts transactions [] = []
joined pg texts transactions (a ∷ rest) =
    let rows = joined pg texts transactions rest in
    elim (pg.find (is_transaction a.transaction_id) transactions) [
      | none ↦ rows
      | some t ↦ map_alert texts a t ∷ rows
    ]

module _ (pg : Prisma) (texts : Texts) where
  unfoldable pub get_alerts : Handler (List AlertRow)
  get_alerts = gets (λ d.
      joined pg texts d.transactions (pg.find_ordered (λ a. true) later_alert_first d.fraud_alerts))

  unfoldable pub get_alerts_csv : Handler String
  unfolding get_alerts
  get_alerts_csv = do rows ← get_alerts; pure (alerts_csv rows)
