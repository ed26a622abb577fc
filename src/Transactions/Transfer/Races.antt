-- ===== src/Transactions/Transfer/Races.antt =====
-- Requests that race with a transfer: the checks may be out of date when the closing transaction
-- begins.
use bankproject.Base.{
  ◌≡◌, ◌∙◌, String, Bool, true, false, some, List, [], ◌∷◌, arith, any_where, count_where, inl, inr,
  if◌then◌else◌,
}
use bankproject.Model.{Transaction, TransactionStatus, flagged, completed}
use bankproject.Prisma.{Prisma}
use bankproject.Handler.{World, ok, err, Error, bad_request, Handler, begin, transaction}
use bankproject.Handler.Laws.{commit-err, commit-result, Result-cases}
use bankproject.Fraud.{FraudAnalysisResponse}
use bankproject.Store.{transaction_clash, create_transaction}
use bankproject.Transactions.{Checked, TransferReply}
use bankproject.Transactions.Idempotency.{has_key}
use bankproject.Transactions.Settlement.{
  transaction_row, covers, decrement, debit, credit, flag, complete,
}
use bankproject.Transactions.Transfer.{settle}

-- A row with a taken key clashes with the table.
pub clash_of_key :
    (row : Transaction) (key : String) (t : List Transaction)
    → row.idempotency_key ≡ some key
    → any_where (has_key key) t ≡ true
    → any_where (transaction_clash row) t ≡ true
clash_of_key row key [] k h = cc
clash_of_key row key (x ∷ t) k h = ground (arith, clash_of_key row key t k)

-- A transaction that cannot succeed fails, and writes nothing.
transaction_fails :
    {A : Type 0} (m : Handler A) (w : World)
    → ((a : A) → (m (begin w)).0 ≡ ok a → ⊥)
    → ((e : Error) × ((transaction m w).0 ≡ err e)) × ((transaction m w).1.db ≡ (begin w).db)
transaction_fails m w never = elim (Result-cases (m (begin w)).0) [
  | inl (a, e) ↦ absurd (never a e)
  | inr (x, e) ↦
      ((x, commit-result (begin w) (m (begin w)) ∙ e), commit-err (begin w) (m (begin w)) e)
]

module _ (pg : Prisma) (c : Checked) (analysis : FraudAnalysisResponse) (key : String)
    (k : c.idempotency_key ≡ some key) (w : World)
    (taken : any_where (has_key key) w.db.transactions ≡ true) where
  clashing :
      (status : TransactionStatus)
      → any_where
          (transaction_clash (
            transaction_row c status
              (some analysis.risk_score)
              (some analysis.risk_level)
              (w.clock 0)
              (pg.fresh (λ r. r.id) w.db.transactions)))
          w.db.transactions
        ≡ true
  clashing status =
      clash_of_key
        (transaction_row c status (some analysis.risk_score) (some analysis.risk_level) (w.clock 0)
          (pg.fresh (λ r. r.id) w.db.transactions))
        key w.db.transactions k taken

  flag_taken : {r : TransferReply} → (flag pg c analysis w).0 ≡ ok r → ⊥
  unfolding flag create_transaction
  flag_taken e = ground (
    arith,
    clashing flagged,
    pg.create_lem (λ r. r.id) transaction_clash
        (transaction_row c flagged (some analysis.risk_score) (some analysis.risk_level)
          (w.clock 0))
        w.db.transactions,
  )

  complete_taken : {r : TransferReply} → (complete pg c analysis w).0 ≡ ok r → ⊥
  unfolding complete debit credit create_transaction
  complete_taken e = ground (
    arith,
    clashing completed,
    pg.create_lem (λ r. r.id) transaction_clash
        (transaction_row c completed (some analysis.risk_score) (some analysis.risk_level)
          (w.clock 0))
        w.db.transactions,
  )

module _ (pg : Prisma) (c : Checked) (analysis : FraudAnalysisResponse) (w : World) where
  -- If the sender's account no longer covers the amount when the closing transaction begins, the
  -- transfer is refused and the transaction writes nothing.
  complete_overdrawn :
      count_where (covers c.sender.id c.user_id c.dto.amount) (begin w).db.accounts ≡ 0
      → ((transaction (complete pg c analysis) w).0 ≡ err (bad_request "Insufficient balance"))
        × ((transaction (complete pg c analysis) w).1.db ≡ (begin w).db)
  unfolding complete debit
  complete_overdrawn none_left =
      let law =
        pg.update_many_lem (covers c.sender.id c.user_id c.dto.amount) (decrement c.dto.amount)
          (begin w).db.accounts in
      let refused : (complete pg c analysis (begin w)).0
          ≡ err (bad_request "Insufficient balance") =
        ground (arith, law, none_left) in
      (
        commit-result (begin w) (complete pg c analysis (begin w)) ∙ refused,
        commit-err (begin w) (complete pg c analysis (begin w)) refused,
      )

  -- If another request has recorded a transfer under the same idempotency key by the time the
  -- closing transaction begins, the transfer fails and the transaction writes nothing: of two
  -- requests with one key at most one moves money.
  pub settle_key_taken :
      (key : String)
      → c.idempotency_key ≡ some key
      → any_where (has_key key) (begin w).db.transactions ≡ true
      → ((e : Error) × ((settle pg c analysis w).0 ≡ err e))
        × ((settle pg c analysis w).1.db ≡ (begin w).db)
  unfolding settle
  settle_key_taken key k taken = go analysis.is_flagged
    where
      Fails : Handler TransferReply → Type 0
      Fails m = ((e : Error) × ((m w).0 ≡ err e)) × ((m w).1.db ≡ (begin w).db)

      go :
          (b : Bool)
          → Fails
              (if b then transaction (flag pg c analysis) else transaction (complete pg c analysis))
      go true =
          transaction_fails (flag pg c analysis) w
            (λ r. flag_taken pg c analysis key k (begin w) taken)
      go false =
          transaction_fails (complete pg c analysis) w
            (λ r. complete_taken pg c analysis key k (begin w) taken)
