-- ===== src/Transactions/Settlement/Laws.antt =====
-- What each of the three closing transactions does to the accounts.
use bankproject.Base.{
  ◌≡◌, ◌∙◌, some, List, arith, count_where, update_where, Option-cases, inl, inr,
}
use bankproject.Model.{BankAccount}
use bankproject.Prisma.{Prisma}
use bankproject.Handler.{World, ok}
use bankproject.Fraud.{FraudAnalysisResponse}
use bankproject.Store.{
  create_audit_log, create_security_event, create_transaction, create_fraud_alert,
}
use bankproject.Transactions.{TransferReply, Checked}
use bankproject.Transactions.Settlement.{
  covers, has_id, decrement, increment, debit, credit, record_fraud_service_failure, flag, complete,
}
use bankproject.Transactions.Settlement.Money.{
  total, IsSolvent, IsKeyed, total-decrement, total-increment, decrement-IsSolvent,
  increment-IsSolvent, decrement-IsKeyed, increment-IsKeyed, count-eq-1_of_find,
}

-- A failed analysis leaves the accounts alone.
pub record_fraud_service_failure-accounts :
    (pg : Prisma) (c : Checked) (w : World)
    → (record_fraud_service_failure pg c w).1.db.accounts ≡ w.db.accounts
unfolding record_fraud_service_failure create_transaction create_security_event create_audit_log
record_fraud_service_failure-accounts pg c w = ground arith

module _ (pg : Prisma) (c : Checked) (analysis : FraudAnalysisResponse) (w : World) where
  abbrev debited : List BankAccount
  debited =
      update_where (covers c.sender.id c.user_id c.dto.amount) (decrement c.dto.amount)
        w.db.accounts

  pub record IsMoved (t : List BankAccount) : Type 0 where
    pub covered : count_where (covers c.sender.id c.user_id c.dto.amount) w.db.accounts ≡ 1
    pub receiver : BankAccount
    pub found : pg.find (has_id c.receiver.id) debited ≡ some receiver
    pub moved : t ≡ update_where (has_id c.receiver.id) (increment c.dto.amount) debited

  ruled : Unit {0}
  unfolding complete debit credit create_transaction create_audit_log
  ruled = tt

  pub complete-IsMoved :
      {r : TransferReply}
      → (complete pg c analysis w).0 ≡ ok r
      → IsMoved (complete pg c analysis w).1.db.accounts
  unfolding ruled
  complete-IsMoved e =
      let many =
        pg.update_many_lem (covers c.sender.id c.user_id c.dto.amount) (decrement c.dto.amount)
          w.db.accounts in
      let one = pg.update_lem (has_id c.receiver.id) (increment c.dto.amount) debited in
      elim (Option-cases (pg.find (has_id c.receiver.id) debited)) [
        | inl missing ↦ absurd (ground (arith, many, one, missing))
        | inr (a, found) ↦ record {
          covered = ground (arith, many);
          receiver = a;
          found = found;
          moved = ground (arith, many, one, found);
        }
      ]

  -- A flagged transfer leaves the accounts alone.
  pub flag-accounts : (flag pg c analysis w).1.db.accounts ≡ w.db.accounts
  unfolding flag create_transaction create_fraud_alert create_audit_log
  flag-accounts = ground arith

  IsMoved-total :
      (t : List BankAccount) → IsKeyed w.db.accounts → IsMoved t → total t ≡ total w.db.accounts
  IsMoved-total t k m =
      let p = covers c.sender.id c.user_id c.dto.amount in
      let keyed = decrement-IsKeyed p c.dto.amount w.db.accounts k in
      let one = count-eq-1_of_find pg c.receiver.id debited keyed m.found in
      rw m.moved (
        total-increment (has_id c.receiver.id) c.dto.amount debited one
        ∙ total-decrement p c.dto.amount w.db.accounts m.covered)

  -- Money is neither made nor lost.
  pub complete-total :
      {r : TransferReply}
      → IsKeyed w.db.accounts
      → (complete pg c analysis w).0 ≡ ok r
      → total (complete pg c analysis w).1.db.accounts ≡ total w.db.accounts
  complete-total k e = IsMoved-total _ k (complete-IsMoved e)

  pub complete-IsSolvent :
      {r : TransferReply}
      → IsSolvent w.db.accounts
      → (complete pg c analysis w).0 ≡ ok r
      → IsSolvent (complete pg c analysis w).1.db.accounts
  complete-IsSolvent s e = rw ((complete-IsMoved e).moved) (
      increment-IsSolvent (has_id c.receiver.id) c.dto.amount debited
        (decrement-IsSolvent c.sender.id c.user_id c.dto.amount w.db.accounts s))

  pub complete-IsKeyed :
      {r : TransferReply}
      → IsKeyed w.db.accounts
      → (complete pg c analysis w).0 ≡ ok r
      → IsKeyed (complete pg c analysis w).1.db.accounts
  complete-IsKeyed k e = rw ((complete-IsMoved e).moved) (
      increment-IsKeyed (has_id c.receiver.id) c.dto.amount debited (
        decrement-IsKeyed (covers c.sender.id c.user_id c.dto.amount) c.dto.amount w.db.accounts k))
