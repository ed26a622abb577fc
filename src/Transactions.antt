-- ===== src/Transactions.antt =====
-- backend/src/transactions: the data of a transfer and of its reply.
pub mod Idempotency
pub mod Limits
pub mod Checks
pub mod Transfer
pub mod Settlement
pub mod Reversal
pub mod Sample
mod Tests
use bankproject.Base.{ℕ, String, Bool, Option}
use bankproject.Model.{
  Transaction, FraudAlert, BankAccount, Beneficiary, Details, TransactionStatus, RiskLevel,
}
use bankproject.Fraud.{FraudAnalysisResponse}

pub record CreateTransferDto : Type 0 where
  pub sender_account_id : ℕ
  pub beneficiary_id : ℕ
  pub amount : ℕ
  pub description : Option String

pub record TransferReply : Type 0 where
  pub message : String
  pub transaction : Transaction
  pub fraud_alert : Option FraudAlert
  pub fraud_analysis : Option FraudAnalysisResponse
  pub idempotent_replay : Bool

-- What the services use of the platform: a digest of a text (or of the object whose JSON text is
-- hashed), and the local calendar of the clock.
pub record Platform : Type 0 where
  pub sha256 : Details → String
  pub start_of_day : ℕ → ℕ
  pub hour_of_day : ℕ → ℕ

-- The rows that the checks have found, and the keys under which the transfer is recorded.
pub record Checked : Type 0 where
  pub user_id : ℕ
  pub dto : CreateTransferDto
  pub sender : BankAccount
  pub receiver : BankAccount
  pub reference : String
  pub idempotency_key : Option String
  pub idempotency_fingerprint : Option String
