-- ===== src/Transactions/Settlement.antt =====
-- The three transactions that end a transfer in
-- backend/src/transactions/transactions.service.ts: `recordFraudServiceFailure`, the flagged
-- transfer that moves no money, and the completed one.
pub mod Money
pub mod Laws
use bankproject.Base.{
  ℕ, String, Bool, true, false, ◌&&◌, not, Option, none, some, List, [], ◌∷◌, ◌==◌, map_option,
  if◌then◌else◌,
}
use bankproject.Int.{pos, ◌+ℤ◌, ◌-ℤ◌, leb_ℤ}
use bankproject.Text.{trim}
use bankproject.Model.{
  Db, BankAccount, Transaction, TransactionStatus, RiskLevel, high, transfer, rejected, flagged,
  completed, FraudAlert, open_alert, numbered, number, money, text, risk_of, json,
}
use bankproject.Prisma.{Prisma}
use bankproject.Handler.{
  Handler, ◌>>=◌, ◌>>◌, attempt, run, throw_if, pure, bad_request, record_missing,
}
use bankproject.Fraud.{FraudAnalysisResponse}
use bankproject.Store.{
  create_audit_log, create_security_event, create_transaction, create_fraud_alert,
}
use bankproject.Transactions.{TransferReply, Checked}

-- The row that records a checked transfer.
abbrev pub transaction_row :
    Checked → TransactionStatus → Option ℕ → Option RiskLevel → ℕ → ℕ → Transaction
transaction_row c status score level at id = record {
  id = id;
  reference = c.reference;
  idempotency_key = c.idempotency_key;
  idempotency_fingerprint = c.idempotency_fingerprint;
  amount = c.dto.amount;
  currency = c.sender.currency;
  description = map_option trim c.dto.description;
  kind = transfer;
  status = status;
  sender_account_id = some c.sender.id;
  receiver_account_id = some c.receiver.id;
  risk_score = score;
  risk_level = level;
  reversed_at = none;
  reversed_by_id = none;
  reversal_reason = none;
  created_at = at;
}

-- `reasons.join('; ')`
abbrev pub join : List String → String
join [] = ""
join (r ∷ []) = r
join (r ∷ s ∷ rs) = Prim.Native.String.◌++◌ r (Prim.Native.String.◌++◌ "; " (join (s ∷ rs)))

-- `balance: { gte: amount }` on the sender's own account
abbrev pub covers : ℕ → ℕ → ℕ → BankAccount → Bool
covers id user_id amount a = a.id == id && a.user_id == user_id && leb_ℤ (pos amount) a.balance

abbrev pub has_id : ℕ → BankAccount → Bool
has_id id a = a.id == id

abbrev pub decrement : ℕ → BankAccount → BankAccount
decrement amount a = record a { balance = a.balance -ℤ pos amount }

abbrev pub increment : ℕ → BankAccount → BankAccount
increment amount a = record a { balance = a.balance +ℤ pos amount }

module _ (pg : Prisma) where
  -- `updateMany` on the accounts, and the count
  unfoldable pub debit : (BankAccount → Bool) → ℕ → Handler ℕ
  debit p amount = run (λ d.
      let r = pg.update_many p (decrement amount) d.accounts in (r.0, record d { accounts = r.1 }))

  unfoldable pub credit : ℕ → ℕ → Handler BankAccount
  credit id amount =
      attempt
        (λ d.
          map_option (λ r. (r.0, record d { accounts = r.1 }))
            (pg.update (has_id id) (increment amount) d.accounts))
        record_missing

  unfoldable pub record_fraud_service_failure : Checked → Handler (Unit {0})
  record_fraud_service_failure c = do
    t ← create_transaction pg (transaction_row c rejected none none)
    e ← create_security_event pg (record {
      event_type = "FRAUD_SERVICE_UNAVAILABLE";
      description = "Transfer was rejected because fraud detection service was unavailable";
      risk_level = high;
      user_id = some c.user_id;
    })
    l ← create_audit_log pg (record {
      user_id = some c.user_id;
      action = "TRANSFER_REJECTED_FRAUD_SERVICE_UNAVAILABLE";
      resource = some (numbered "Transaction" t.id);
      outcome = some "FAILURE";
      details = some (
          json (
            ("reference", text c.reference)
            ∷ ("amount", money c.dto.amount)
            ∷ ("currency", text c.sender.currency)
            ∷ ("senderAccountId", number c.sender.id)
            ∷ ("receiverAccountId", number c.receiver.id)
            ∷ []));
    })
    pure tt

  unfoldable pub flag : Checked → FraudAnalysisResponse → Handler TransferReply
  flag c analysis = do
    t ←
        create_transaction pg
          (transaction_row c flagged (some analysis.risk_score) (some analysis.risk_level))
    alert ← create_fraud_alert pg (λ at id. record {
      id = id;
      risk_score = analysis.risk_score;
      risk_level = analysis.risk_level;
      reason = join analysis.reasons;
      status = open_alert;
      transaction_id = t.id;
      created_at = at;
    })
    l ← create_audit_log pg (record {
      user_id = some c.user_id;
      action = "TRANSFER_FLAGGED";
      resource = some (numbered "Transaction" t.id);
      outcome = some "SUCCESS";
      details = some (
          json (
            ("reference", text c.reference)
            ∷ ("amount", money c.dto.amount)
            ∷ ("currency", text c.sender.currency)
            ∷ ("fraudAlertId", number alert.id)
            ∷ ("riskScore", number analysis.risk_score)
            ∷ ("riskLevel", risk_of (some analysis.risk_level))
            ∷ []));
    })
    pure (record {
      message = "Transaction flagged for security review";
      transaction = t;
      fraud_alert = some alert;
      fraud_analysis = some analysis;
      idempotent_replay = false;
    })

  unfoldable pub complete : Checked → FraudAnalysisResponse → Handler TransferReply
  complete c analysis = do
    n ← debit (covers c.sender.id c.user_id c.dto.amount) c.dto.amount
    throw_if (not (n == 1)) (bad_request "Insufficient balance")
    a ← credit c.receiver.id c.dto.amount
    t ←
        create_transaction pg
          (transaction_row c completed (some analysis.risk_score) (some analysis.risk_level))
    l ← create_audit_log pg (record {
      user_id = some c.user_id;
      action = "TRANSFER_COMPLETED";
      resource = some (numbered "Transaction" t.id);
      outcome = some "SUCCESS";
      details = some (
          json (
            ("reference", text c.reference)
            ∷ ("amount", money c.dto.amount)
            ∷ ("currency", text c.sender.currency)
            ∷ ("senderAccountId", number c.sender.id)
            ∷ ("receiverAccountId", number c.receiver.id)
            ∷ ("riskScore", number analysis.risk_score)
            ∷ ("riskLevel", risk_of (some analysis.risk_level))
            ∷ []));
    })
    pure (record {
      message = "Transaction completed successfully";
      transaction = t;
      fraud_alert = none;
      fraud_analysis = some analysis;
      idempotent_replay = false;
    })
