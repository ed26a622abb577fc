-- ===== src/Transactions/Reversal.antt =====
-- `reverse` of backend/src/transactions/transactions.service.ts.
pub mod Money
pub mod Once
pub mod Roundtrip
mod Tests
use bankproject.Base.{
  ℕ, String, Bool, true, false, ◌&&◌, ◌||◌, not, Option, none, some, List, [], ◌∷◌, ◌==◌,
  map_option, or_else, is_some, if◌then◌else◌, str_eq,
}
use bankproject.Int.{ℤ, pos, leb_ℤ}
use bankproject.Text.{trim}
use bankproject.Model.{
  Db, BankAccount, Transaction, TransactionStatus, completed, reversed, status_eq, transfer,
  type_eq, medium, numbered, number, money, text, json,
}
use bankproject.Prisma.{Prisma}
use bankproject.Handler.{
  Handler, ◌>>=◌, ◌>>◌, gets, run, now, require, throw, throw_if, pure, transaction, bad_request,
  not_found, conflict,
}
use bankproject.Store.{create_audit_log, create_security_event}
use bankproject.Transactions.Idempotency.{account_of, is_owned_by}
use bankproject.Transactions.Settlement.{debit, credit}

-- The accounts of a transaction, where both are set: `!id` holds of null and of 0.
abbrev pub id_set : Option ℕ → Option ℕ
id_set none = none
id_set (some id) = if id == 0 then none else some id

abbrev pub balance_of : Option BankAccount → ℤ
balance_of none = pos 0
balance_of (some a) = a.balance

abbrev pub holds : ℕ → ℕ → BankAccount → Bool
holds id amount a = a.id == id && leb_ℤ (pos amount) a.balance

abbrev pub is_transaction : ℕ → Transaction → Bool
is_transaction id t = t.id == id

abbrev pub is_completed : ℕ → Transaction → Bool
is_completed id t = t.id == id && status_eq t.status completed

abbrev pub undone : ℕ → ℕ → String → Transaction → Transaction
undone at user_id reason t = record t {
  status = reversed;
  reversed_at = some at;
  reversed_by_id = some user_id;
  reversal_reason = some reason;
}

-- The facts that the checks have established about the original.
pub record Reversible : Type 0 where
  pub original : Transaction
  pub sender_id : ℕ
  pub receiver_id : ℕ

module _ (pg : Prisma) where
  unfoldable pub check_reversal : ℕ → ℕ → Handler Reversible
  check_reversal user_id id = do
    found ← gets (λ d. pg.find (is_transaction id) d.transactions)
    original ← require found (not_found "Transaction not found")
    sender ← gets (account_of pg original.sender_account_id)
    throw_if (not (is_owned_by user_id sender)) (not_found "Transaction not found")
    throw_if (not (type_eq original.kind transfer)) (bad_request "Only transfers can be reversed")
    throw_if (status_eq original.status reversed) (conflict "Transaction has already been reversed")
    throw_if (not (status_eq original.status completed))
        (bad_request "Only completed transfers can be reversed")
    sender_id ←
        require (id_set original.sender_account_id)
          (bad_request "Transaction accounts are incomplete")
    receiver_id ←
        require (id_set original.receiver_account_id)
          (bad_request "Transaction accounts are incomplete")
    receiver ← gets (account_of pg original.receiver_account_id)
    throw_if (not (leb_ℤ (pos original.amount) (balance_of receiver)))
        (bad_request "Receiver account has insufficient balance for reversal")
    pure (record { original = original; sender_id = sender_id; receiver_id = receiver_id })

  -- The body of the transaction.
  unfoldable pub undo : ℕ → String → Reversible → Handler (Option Transaction)
  undo user_id reason c = do
    n ← debit pg (holds c.receiver_id c.original.amount) c.original.amount
    throw_if (not (n == 1)) (bad_request "Receiver account has insufficient balance for reversal")
    a ← credit pg c.sender_id c.original.amount
    at ← now
    m ← run (λ d.
        let r =
          pg.update_many (is_completed c.original.id) (undone at user_id reason) d.transactions in
        (r.0, record d { transactions = r.1 }))
    throw_if (not (m == 1)) (conflict "Transaction could not be reversed")
    updated ← gets (λ d. pg.find (is_transaction c.original.id) d.transactions)
    l ← create_audit_log pg (record {
      user_id = some user_id;
      action = "TRANSFER_REVERSED";
      resource = some (numbered "Transaction" c.original.id);
      outcome = some "SUCCESS";
      details = some (
          json (
            ("reference", text c.original.reference)
            ∷ ("amount", money c.original.amount)
            ∷ ("currency", text c.original.currency)
            ∷ ("senderAccountId", number c.sender_id)
            ∷ ("receiverAccountId", number c.receiver_id)
            ∷ ("reason", text reason)
            ∷ []));
    })
    e ← create_security_event pg (record {
      event_type = "TRANSFER_REVERSED";
      description =
          Prim.Native.String.◌++◌ "Transfer "
            (Prim.Native.String.◌++◌ c.original.reference " was reversed");
      risk_level = medium;
      user_id = some user_id;
    })
    pure updated

  unfoldable pub reverse : ℕ → ℕ → String → Handler (Option Transaction)
  reverse user_id id reason = do
    c ← check_reversal user_id id
    transaction (undo user_id (trim reason) c)
