-- ===== src/Model/Rows.antt =====
-- One record for each model of the schema, and the database that holds their tables.
use bankproject.Base.{ℕ, String, Bool, Option, List}
use bankproject.Int.{ℤ}
use bankproject.Model.Enums.{
  UserRole, UserStatus, TransactionStatus, TransactionType, RiskLevel, AlertStatus,
}

pub record User : Type 0 where
  pub id : ℕ
  pub email : String
  pub password_hash : String
  pub first_name : String
  pub last_name : String
  pub role : UserRole
  pub status : UserStatus
  pub mfa_enabled : Bool
  pub mfa_secret_encrypted : Option String
  pub mfa_verified_at : Option ℕ
  pub created_at : ℕ
  pub token_version : ℕ

pub record RefreshToken : Type 0 where
  pub id : ℕ
  pub token_hash : String
  pub device_id : Option String
  pub user_id : ℕ
  pub expires_at : ℕ
  pub revoked_at : Option ℕ
  pub created_at : ℕ

pub record PasswordResetToken : Type 0 where
  pub id : ℕ
  pub token_hash : String
  pub user_id : ℕ
  pub expires_at : ℕ
  pub used_at : Option ℕ
  pub created_at : ℕ

pub record MfaRecoveryCode : Type 0 where
  pub id : ℕ
  pub code_hash : String
  pub user_id : ℕ
  pub used_at : Option ℕ
  pub created_at : ℕ

pub record BankAccount : Type 0 where
  pub id : ℕ
  pub account_number : String
  pub balance : ℤ
  pub currency : String
  pub user_id : ℕ
  pub created_at : ℕ

pub record Beneficiary : Type 0 where
  pub id : ℕ
  pub name : String
  pub account_number : String
  pub bank_name : Option String
  pub owner_id : ℕ
  pub created_at : ℕ

pub record Transaction : Type 0 where
  pub id : ℕ
  pub reference : String
  pub idempotency_key : Option String
  pub idempotency_fingerprint : Option String
  pub amount : ℕ
  pub currency : String
  pub description : Option String
  pub kind : TransactionType
  pub status : TransactionStatus
  pub sender_account_id : Option ℕ
  pub receiver_account_id : Option ℕ
  pub risk_score : Option ℕ
  pub risk_level : Option RiskLevel
  pub reversed_at : Option ℕ
  pub reversed_by_id : Option ℕ
  pub reversal_reason : Option String
  pub created_at : ℕ

pub record Device : Type 0 where
  pub id : ℕ
  pub device_id : String
  pub browser : Option String
  pub os : Option String
  pub trusted : Bool
  pub user_id : ℕ
  pub first_seen : ℕ
  pub last_seen : ℕ

pub record LoginAttempt : Type 0 where
  pub id : ℕ
  pub successful : Bool
  pub device_info : Option String
  pub ip_address : Option String
  pub user_id : Option ℕ
  pub created_at : ℕ

pub record FraudAlert : Type 0 where
  pub id : ℕ
  pub risk_score : ℕ
  pub risk_level : RiskLevel
  pub reason : String
  pub status : AlertStatus
  pub transaction_id : ℕ
  pub created_at : ℕ

pub record InvestigationCase : Type 0 where
  pub id : ℕ
  pub status : AlertStatus
  pub assigned_analyst : String
  pub summary : String
  pub outcome : Option AlertStatus
  pub alert_id : ℕ
  pub created_by_id : Option ℕ
  pub updated_by_id : Option ℕ
  pub created_at : ℕ

pub record SecurityEvent : Type 0 where
  pub id : ℕ
  pub event_type : String
  pub description : String
  pub risk_level : RiskLevel
  pub user_id : Option ℕ
  pub created_at : ℕ

-- A text such as `Transaction:7` is kept as the parts that the template joins.
pub data Resource : Type 0 where
  named : String → Resource
  numbered : String → ℕ → Resource

-- The value of a field that goes into `JSON.stringify`.
pub data Value : Type 0 where
  number : ℕ → Value
  money : ℕ → Value
  text : String → Value
  null : Value
  role_of : UserRole → Value
  user_status_of : UserStatus → Value
  alert_status_of : AlertStatus → Value
  risk_of : Option RiskLevel → Value

-- A plain text, or the object of which the JSON text is stored.
pub data Details : Type 0 where
  plain : String → Details
  json : List (String × Value) → Details

pub record AuditLog : Type 0 where
  pub id : ℕ
  pub action : String
  pub resource : Option Resource
  pub outcome : Option String
  pub details : Option Details
  pub user_id : Option ℕ
  pub created_at : ℕ

pub record Db : Type 0 where
  pub users : List User
  pub refresh_tokens : List RefreshToken
  pub reset_tokens : List PasswordResetToken
  pub recovery_codes : List MfaRecoveryCode
  pub accounts : List BankAccount
  pub beneficiaries : List Beneficiary
  pub transactions : List Transaction
  pub devices : List Device
  pub login_attempts : List LoginAttempt
  pub fraud_alerts : List FraudAlert
  pub cases : List InvestigationCase
  pub security_events : List SecurityEvent
  pub audit_logs : List AuditLog
