-- ===== src/Store.antt =====
-- The writes that several services share, over the client of the database.
pub mod Effects
use bankproject.Base.{
  ℕ, ◌≡◌, String, Bool, false, ◌||◌, Option, none, some, List, str_eq, ◌==◌, opt_str_clash,
  map_option,
}
use bankproject.Model.{
  Db, AuditLog, SecurityEvent, RiskLevel, Resource, Details, Transaction, FraudAlert, LoginAttempt,
}
use bankproject.Prisma.{Prisma}
use bankproject.Handler.{Handler, ◌>>=◌, attempt, now, unique_violation}

pub record AuditData : Type 0 where
  pub user_id : Option ℕ
  pub action : String
  pub resource : Option Resource
  pub outcome : Option String
  pub details : Option Details

pub record EventData : Type 0 where
  pub event_type : String
  pub description : String
  pub risk_level : RiskLevel
  pub user_id : Option ℕ

pub record AttemptData : Type 0 where
  pub successful : Bool
  pub device_info : Option String
  pub ip_address : Option String
  pub user_id : Option ℕ

-- No column of the table is unique but its key.
abbrev pub no_clash {ℓ} : {R : Type ℓ} → R → R → Bool
no_clash a b = false

abbrev pub audit_row : AuditData → ℕ → ℕ → AuditLog
audit_row a at id = record {
  id = id;
  action = a.action;
  resource = a.resource;
  outcome = a.outcome;
  details = a.details;
  user_id = a.user_id;
  created_at = at;
}

abbrev pub event_row : EventData → ℕ → ℕ → SecurityEvent
event_row e at id = record {
  id = id;
  event_type = e.event_type;
  description = e.description;
  risk_level = e.risk_level;
  user_id = e.user_id;
  created_at = at;
}

abbrev pub attempt_row : AttemptData → ℕ → ℕ → LoginAttempt
attempt_row a at id = record {
  id = id;
  successful = a.successful;
  device_info = a.device_info;
  ip_address = a.ip_address;
  user_id = a.user_id;
  created_at = at;
}

-- The unique columns of a transaction: its reference and its idempotency key.
abbrev pub transaction_clash : Transaction → Transaction → Bool
transaction_clash a b =
    str_eq b.reference a.reference || opt_str_clash b.idempotency_key a.idempotency_key

abbrev pub alert_clash : FraudAlert → FraudAlert → Bool
alert_clash a b = a.transaction_id == b.transaction_id

module _ (pg : Prisma) where
  unfoldable pub create_audit_log : AuditData → Handler AuditLog
  create_audit_log a = do
    at ← now
    attempt
        (λ d.
          map_option (λ r. (r.0, record d { audit_logs = r.1 }))
            (pg.create (λ r. r.id) no_clash (audit_row a at) d.audit_logs))
        unique_violation

  unfoldable pub create_security_event : EventData → Handler SecurityEvent
  create_security_event e = do
    at ← now
    attempt
        (λ d.
          map_option (λ r. (r.0, record d { security_events = r.1 }))
            (pg.create (λ r. r.id) no_clash (event_row e at) d.security_events))
        unique_violation

  unfoldable pub create_login_attempt : AttemptData → Handler LoginAttempt
  create_login_attempt a = do
    at ← now
    attempt
        (λ d.
          map_option (λ r. (r.0, record d { login_attempts = r.1 }))
            (pg.create (λ r. r.id) no_clash (attempt_row a at) d.login_attempts))
        unique_violation

  -- The row is given its key and the time of its creation.
  unfoldable pub create_transaction : (ℕ → ℕ → Transaction) → Handler Transaction
  create_transaction row = do
    at ← now
    attempt
        (λ d.
          map_option (λ r. (r.0, record d { transactions = r.1 }))
            (pg.create (λ r. r.id) transaction_clash (row at) d.transactions))
        unique_violation

  unfoldable pub create_fraud_alert : (ℕ → ℕ → FraudAlert) → Handler FraudAlert
  create_fraud_alert row = do
    at ← now
    attempt
        (λ d.
          map_option (λ r. (r.0, record d { fraud_alerts = r.1 }))
            (pg.create (λ r. r.id) alert_clash (row at) d.fraud_alerts))
        unique_violation
