-- ===== src/Transactions/Idempotency.antt =====
-- `normalizeIdempotencyKey`, `getTransferFingerprint` and `findIdempotentTransfer` of
-- backend/src/transactions/transactions.service.ts.
use bankproject.Base.{
  ℕ, String, Bool, true, false, not, Option, none, some, [], ◌∷◌, if◌then◌else◌, ◌==◌, opt_str_eq,
  map_option,
}
use bankproject.Text.{trim, is_truthy}
use bankproject.Model.{
  Db, Transaction, TransactionStatus, rejected, flagged, BankAccount, FraudAlert, Value, number,
  money, text, null, json,
}
use bankproject.Prisma.{Prisma}
use bankproject.Handler.{on_option, Handler, ◌>>=◌, ◌>>◌, gets, pure, throw_if, conflict}
use bankproject.Transactions.{CreateTransferDto, TransferReply, Platform}

-- `idempotencyKey?.trim()`, where an empty key counts as none
unfoldable pub normalize_idempotency_key : Option String → Option String
normalize_idempotency_key none = none
normalize_idempotency_key (some key) =
    let normalized = trim key in if is_truthy normalized then some normalized else none

abbrev pub text_or_null : Option String → Value
text_or_null none = null
text_or_null (some s) = text s

unfoldable pub transfer_fingerprint : Platform → ℕ → CreateTransferDto → String
transfer_fingerprint platform user_id dto = platform.sha256 (
    json (
      ("userId", number user_id)
      ∷ ("senderAccountId", number dto.sender_account_id)
      ∷ ("beneficiaryId", number dto.beneficiary_id)
      ∷ ("amount", money dto.amount)
      ∷ ("description", text_or_null (map_option trim dto.description))
      ∷ []))

abbrev pub replay_message : TransactionStatus → String
replay_message rejected = "Transfer rejected because fraud detection service is unavailable"
replay_message flagged = "Transaction flagged for security review"
replay_message _ = "Transaction completed successfully"

abbrev pub has_key : String → Transaction → Bool
has_key key t = opt_str_eq t.idempotency_key (some key)

-- `senderAccount?.userId === userId`
abbrev pub is_owned_by : ℕ → Option BankAccount → Bool
is_owned_by user_id none = false
is_owned_by user_id (some a) = a.user_id == user_id

module _ (pg : Prisma) where
  abbrev pub account_of : Option ℕ → Db → Option BankAccount
  account_of none d = none
  account_of (some id) d = pg.find (λ a. a.id == id) d.accounts

  abbrev pub alert_of : Transaction → Db → Option FraudAlert
  alert_of t d = pg.find (λ a. a.transaction_id == t.id) d.fraud_alerts

  -- The checks on a transaction that was recorded under the key, and the reply for it.
  unfoldable pub replay : ℕ → String → Transaction → Handler TransferReply
  replay user_id fingerprint existing = do
    sender ← gets (account_of existing.sender_account_id)
    throw_if (not (is_owned_by user_id sender)) (conflict "Idempotency key is already in use")
    throw_if (not (opt_str_eq existing.idempotency_fingerprint (some fingerprint)))
        (conflict "Idempotency key was already used for a different transfer")
    alert ← gets (alert_of existing)
    pure (record {
      message = replay_message existing.status;
      transaction = existing;
      fraud_alert = alert;
      fraud_analysis = none;
      idempotent_replay = true;
    })

  unfoldable pub find_idempotent_transfer : ℕ → String → String → Handler (Option TransferReply)
  unfolding replay
  find_idempotent_transfer user_id key fingerprint = do
    found ← gets (λ d. pg.find (has_key key) d.transactions)
    on_option found (pure none)
        (λ existing. do reply ← replay user_id fingerprint existing; pure (some reply))
