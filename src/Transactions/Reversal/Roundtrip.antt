-- ===== src/Transactions/Reversal/Roundtrip.antt =====
-- A transfer that is reversed leaves the balances as they were.
use bankproject.Base.{
  ℕ, ◌≡◌, ◌≢◌, ◌∙◌, sym, ap, subst, String, Option, some, map, arith, Option-cases, inl, inr,
}
use bankproject.Text.{trim}
use bankproject.Model.{Transaction}
use bankproject.Prisma.{Prisma}
use bankproject.Handler.{World, ok, begin, transaction}
use bankproject.Handler.Laws.{commit-result}
use bankproject.Fraud.{FraudAnalysisResponse}
use bankproject.Transactions.{Checked, TransferReply}
use bankproject.Transactions.Settlement.{complete}
use bankproject.Transactions.Settlement.Money.{IsKeyed}
use bankproject.Transactions.Transfer.Moves.{moved, complete_moves, map-moved-IsKeyed}
use bankproject.Transactions.Transfer.Recorded.{complete-IsRecorded}
use bankproject.Transactions.Reversal.{Reversible, is_transaction, check_reversal, reverse}
use bankproject.Transactions.Reversal.Money.{reverse-checked, undo_moves, map-moved-moved}

check_reversal-original :
    (pg : Prisma) (user_id id : ℕ) (w : World) {c : Reversible}
    → (check_reversal pg user_id id w).0 ≡ ok c
    → (pg.find (is_transaction id) w.db.transactions ≡ some c.original)
      × (c.original.sender_account_id ≡ some c.sender_id)
      × (c.original.receiver_account_id ≡ some c.receiver_id)
unfolding check_reversal
check_reversal-original pg user_id id w {c} e =
    elim (Option-cases (pg.find (is_transaction id) w.db.transactions)) [
      | inl missing ↦ absurd (ground (arith, missing))
      | inr (x, found) ↦ (ground (arith, found), ground (arith, found), ground (arith, found))
    ]

module _ (pg : Prisma) (c : Checked) (analysis : FraudAnalysisResponse) (user_id : ℕ)
    (reason : String) (w v : World) where
  -- A transfer that has completed between two different accounts and is then reversed leaves every
  -- account as the transfer's closing transaction found it, if account ids were unique, the record
  -- of the transfer is still found and no one has touched the accounts in between.
  pub transfer_reversed :
      {r : TransferReply} {u : Option Transaction}
      → IsKeyed (begin w).db.accounts
      → c.sender.id ≢ c.receiver.id
      → (transaction (complete pg c analysis) w).0 ≡ ok r
      → pg.find (is_transaction r.transaction.id) v.db.transactions ≡ some r.transaction
      → (begin v).db.accounts ≡ (transaction (complete pg c analysis) w).1.db.accounts
      → (reverse pg user_id r.transaction.id reason v).0 ≡ ok u
      → (reverse pg user_id r.transaction.id reason v).1.db.accounts ≡ (begin w).db.accounts
  transfer_reversed {r} keyed ne e listed kept e' =
      let done = sym (commit-result (begin w) (complete pg c analysis (begin w))) ∙ e in
      let recorded = complete-IsRecorded pg c analysis (begin w) done in
      let (b, checked, undone, path) = reverse-checked pg user_id r.transaction.id reason v e' in
      let (found, sent, received) = check_reversal-original pg user_id r.transaction.id v checked in
      let same : b.original ≡ r.transaction = cc (found, listed) in
      let sender : b.sender_id ≡ c.sender.id =
        ground (arith, sent, recorded.sent, ap (λ (t : Transaction). t.sender_account_id) same) in
      let receiver : b.receiver_id ≡ c.receiver.id = ground (
        arith,
        received,
        recorded.received,
        ap (λ (t : Transaction). t.receiver_account_id) same,
      ) in
      let amount : b.original.amount ≡ c.dto.amount =
        ap (λ (t : Transaction). t.amount) same ∙ recorded.amount in
      let first = complete_moves pg c analysis w keyed ne e in
      let now_keyed =
        subst IsKeyed (sym (kept ∙ first))
          (map-moved-IsKeyed c.sender.id c.receiver.id c.dto.amount (begin w).db.accounts keyed) in
      let apart : b.receiver_id ≢ b.sender_id = λ q. ne (sym sender ∙ sym q ∙ receiver) in
      let second = undo_moves pg user_id (trim reason) b (begin v) now_keyed apart undone in
      ap (λ z. z.db.accounts) path
      ∙ second
      ∙ ap (map (moved b.receiver_id b.sender_id b.original.amount)) (kept ∙ first)
      ∙ rw (sender, receiver, amount)
          (map-moved-moved c.sender.id c.receiver.id c.dto.amount (begin w).db.accounts ne)
