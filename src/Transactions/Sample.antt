-- ===== src/Transactions/Sample.antt =====
-- A small bank, for the runs and the instances of the theorems.
use bankproject.Base.{ℕ, ◌+◌, String, false, none, some, [], ◌∷◌}
use bankproject.Int.{pos}
use bankproject.Model.{
  Db, BankAccount, Beneficiary, Transaction, low, high, completed, TransactionType,
}
use bankproject.Handler.{World}
use bankproject.Fraud.{FraudEngine, FraudAnalysisResponse, approve}
use bankproject.Transactions.{CreateTransferDto, TransferReply, Platform, Checked}

abbrev pub account : ℕ → String → ℕ → ℕ → BankAccount
account id number cents owner = record {
  id = id;
  account_number = number;
  balance = pos cents;
  currency = "USD";
  user_id = owner;
  created_at = 0;
}

abbrev pub ann : Beneficiary
ann = record {
  id = 1;
  name = "Ann";
  account_number = "BS2";
  bank_name = none;
  owner_id = 1;
  created_at = 0;
}

abbrev pub bank : Db
bank = record {
  users = [];
  refresh_tokens = [];
  reset_tokens = [];
  recovery_codes = [];
  accounts = account 1 "BS1" 5000 1 ∷ account 2 "BS2" 100 2 ∷ account 3 "BS3" 70 1 ∷ [];
  beneficiaries = ann ∷ [];
  transactions = [];
  devices = [];
  login_attempts = [];
  fraud_alerts = [];
  cases = [];
  security_events = [];
  audit_logs = [];
}

-- No other request commits anything.
abbrev pub world : World
world = record { db = bank; clock = λ n. 100000000 + n; random = λ n. "r"; others = λ n d. d }

abbrev pub platform : Platform
platform = record { sha256 = λ d. "digest"; start_of_day = λ t. 0; hour_of_day = λ t. 12 }

abbrev pub calm : FraudEngine
calm request = some (record { risk_score = 3; severity = low; decision = approve; reasons = [] })

abbrev pub alarmed : FraudEngine
alarmed request =
    some (record { risk_score = 90; severity = high; decision = approve; reasons = "odd" ∷ [] })

abbrev pub dto : CreateTransferDto
dto = record { sender_account_id = 1; beneficiary_id = 1; amount = 1200; description = none }

abbrev pub row : ℕ → Transaction
row at = record {
  id = 1;
  reference = "TX-r";
  idempotency_key = some "k";
  idempotency_fingerprint = some "digest";
  amount = 1200;
  currency = "USD";
  description = none;
  kind = TransactionType.transfer;
  status = completed;
  sender_account_id = some 1;
  receiver_account_id = some 2;
  risk_score = some 3;
  risk_level = some low;
  reversed_at = none;
  reversed_by_id = none;
  reversal_reason = none;
  created_at = at;
}

abbrev pub analysis : FraudAnalysisResponse
analysis = record { risk_score = 3; risk_level = low; is_flagged = false; reasons = [] }

abbrev pub receipt : ℕ → TransferReply
receipt at = record {
  message = "Transaction completed successfully";
  transaction = row at;
  fraud_alert = none;
  fraud_analysis = some analysis;
  idempotent_replay = false;
}

abbrev pub checked : Checked
checked = record {
  user_id = 1;
  dto = dto;
  sender = account 1 "BS1" 5000 1;
  receiver = account 2 "BS2" 100 2;
  reference = "TX-r";
  idempotency_key = some "k";
  idempotency_fingerprint = some "digest";
}

-- Another request records a transfer under the same key before the closing transaction.
abbrev pub raced : World
raced = record world { others = λ n d. record d { transactions = row 7 ∷ d.transactions } }

-- Another request spends the money before it.
abbrev pub spent : World
spent = record world {
  others = λ n d. record d { accounts = account 1 "BS1" 10 1 ∷ account 2 "BS2" 100 2 ∷ [] };
}
