-- ===== src/Transactions/Checks.antt =====
-- The checks of `transfer` in backend/src/transactions/transactions.service.ts, in their order
-- (steps 1 to 7), and the features that are sent to the fraud engine (steps 8 to 11).
use bankproject.Base.{
  ℕ, ◌-◌, String, Bool, ◌&&◌, not, Option, ltb, leb, ◌==◌, opt_is, str_eq, if◌then◌else◌,
}
use bankproject.Int.{pos, leb_ℤ}
use bankproject.Model.{BankAccount, Beneficiary, Transaction, AuditLog}
use bankproject.Prisma.{Prisma}
use bankproject.Handler.{
  Handler, ◌>>=◌, ◌>>◌, gets, now, random_text, require, throw_if, pure, bad_request, not_found,
}
use bankproject.Fraud.{Average, FraudAnalysisRequest}
use bankproject.Devices.{is_new_device, day}
use bankproject.Transactions.{CreateTransferDto, Platform, Checked}
use bankproject.Transactions.Limits.{enforce_transfer_limits}

abbrev pub hour : ℕ
hour = 3600000

abbrev pub is_account_of : ℕ → ℕ → BankAccount → Bool
is_account_of id user_id a = a.id == id && a.user_id == user_id

abbrev pub is_beneficiary_of : ℕ → ℕ → Beneficiary → Bool
is_beneficiary_of id owner b = b.id == id && b.owner_id == owner

abbrev pub has_number : String → BankAccount → Bool
has_number account_number a = str_eq a.account_number account_number

abbrev pub is_sent_by : ℕ → Transaction → Bool
is_sent_by account t = opt_is t.sender_account_id account

abbrev pub is_failed_login_since : ℕ → ℕ → AuditLog → Bool
is_failed_login_since user_id start l =
    opt_is l.user_id user_id && str_eq l.action "LOGIN_FAILED" && leb start l.created_at

-- `_avg.amount ?? dto.amount`
abbrev pub average_or : ℕ → ℕ → ℕ → Average
average_or amount sum rows =
    if rows == 0 then record { sum = amount; rows = 1 } else record { sum = sum; rows = rows }

module _ (pg : Prisma) (platform : Platform) where
  -- Steps 1 to 7. The found beneficiary is returned beside the rest, for its age.
  unfoldable pub check_transfer :
      ℕ → CreateTransferDto → Option String → Option String → Handler (Checked × Beneficiary)
  check_transfer user_id dto key fingerprint = do
    found_sender ← gets (λ d. pg.find (is_account_of dto.sender_account_id user_id) d.accounts)
    sender ← require found_sender (not_found "Sender account not found")
    found_beneficiary ←
        gets (λ d. pg.find (is_beneficiary_of dto.beneficiary_id user_id) d.beneficiaries)
    beneficiary ← require found_beneficiary (not_found "Beneficiary not found")
    found_receiver ← gets (λ d. pg.find (has_number beneficiary.account_number) d.accounts)
    receiver ← require found_receiver (not_found "Beneficiary bank account not found")
    throw_if (sender.id == receiver.id)
        (bad_request "You cannot transfer money to the same account")
    throw_if (not (str_eq sender.currency receiver.currency))
        (bad_request "Account currencies do not match")
    throw_if (not (leb_ℤ (pos dto.amount) sender.balance)) (bad_request "Insufficient balance")
    enforce_transfer_limits pg platform sender.id dto.amount
    uuid ← random_text
    pure (
      record {
        user_id = user_id;
        dto = dto;
        sender = sender;
        receiver = receiver;
        reference = Prim.Native.String.◌++◌ "TX-" uuid;
        idempotency_key = key;
        idempotency_fingerprint = fingerprint;
      },
      beneficiary,
    )

  -- Steps 8 to 11: what the fraud engine is asked about.
  unfoldable pub fraud_features : Checked → Beneficiary → String → Handler FraudAnalysisRequest
  fraud_features c beneficiary device_id = do
    new_device ← is_new_device pg c.user_id device_id
    hour_ago ← now
    last_hour ← gets (λ d.
        pg.count (λ t. is_sent_by c.sender.id t && leb (hour_ago - hour) t.created_at)
          d.transactions)
    sum ← gets (λ d. pg.total (is_sent_by c.sender.id) (λ t. t.amount) d.transactions)
    rows ← gets (λ d. pg.count (is_sent_by c.sender.id) d.transactions)
    failed ← gets (λ d. pg.count (is_failed_login_since c.user_id (hour_ago - hour)) d.audit_logs)
    at ← now
    hour_at ← now
    pure (record {
      amount = c.dto.amount;
      average_amount = average_or c.dto.amount sum rows;
      new_device = new_device;
      new_beneficiary = ltb (at - beneficiary.created_at) day;
      transactions_last_hour = last_hour;
      failed_logins_last_hour = failed;
      transaction_hour = platform.hour_of_day hour_at;
    })
