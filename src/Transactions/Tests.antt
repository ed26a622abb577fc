-- ===== src/Transactions/Tests.antt =====
-- Transfers at a small bank.
use bankproject.Base.{◌≡◌, refl, true, none, some, [], ◌∷◌, ◌⊎◌, arith, map}
use bankproject.Text.{trim}
use bankproject.Int.{◌+ℤ◌, ◌-ℤ◌}
use bankproject.Model.{Db, Transaction, rejected}
use bankproject.Prisma.Listed.{listed}
use bankproject.Handler.{World, ok, err, Error, begin, transaction, unavailable}
use bankproject.Fraud.{FraudEngine, analyze_transaction}
use bankproject.Devices.{is_new_device}
use bankproject.Store.{
  create_transaction, create_fraud_alert, create_audit_log, create_security_event,
}
use bankproject.Transactions.{TransferReply}
use bankproject.Transactions.Idempotency.{
  normalize_idempotency_key, transfer_fingerprint, find_idempotent_transfer,
}
use bankproject.Transactions.Limits.{enforce_transfer_limits}
use bankproject.Transactions.Checks.{check_transfer, fraud_features}
use bankproject.Transactions.Settlement.{
  complete, flag, record_fraud_service_failure, debit, credit,
}
use bankproject.Transactions.Settlement.Money.{total}
use bankproject.Transactions.Transfer.{transfer, settle}
use bankproject.Transactions.Transfer.Conservation.{transfer_conserves}
use bankproject.Transactions.Transfer.Safety.{Justified, transfer-IsAllowed}
use bankproject.Transactions.Transfer.Moves.{moved, complete_moves}
use bankproject.Transactions.Transfer.Races.{settle_key_taken}
use bankproject.Transactions.Transfer.Retry.{transfer_retried}
use bankproject.Transactions.Reversal.{reverse, check_reversal, undo}
use bankproject.Transactions.Sample.{
  account, bank, world, platform, calm, alarmed, dto, row, analysis, receipt, checked, raced,
}

abbrev after : FraudEngine → Db
after engine = (transfer listed platform engine 1 dto "phone" (some " k ") world).1.db

abbrev left : World
left = (transaction (complete listed checked analysis) world).1

ran : Unit {0}
unfolding transfer normalize_idempotency_key transfer_fingerprint trim find_idempotent_transfer
    check_transfer enforce_transfer_limits fraud_features is_new_device analyze_transaction complete
    flag record_fraud_service_failure debit credit create_transaction create_fraud_alert
    create_audit_log create_security_event ◌-ℤ◌ ◌+ℤ◌ reverse check_reversal undo
ran = tt

run_calm :
    (after calm).accounts
    ≡ account 1 "BS1" 3800 1 ∷ account 2 "BS2" 1300 2 ∷ account 3 "BS3" 70 1 ∷ []
unfolding ran
run_calm = refl

run_alarmed : (after alarmed).accounts ≡ bank.accounts
unfolding ran
run_alarmed = refl

run_receipt :
    (transfer listed platform calm 1 dto "phone" (some " k ") world).0 ≡ ok (receipt 100000004)
unfolding ran
run_receipt = refl

run_complete : (transaction (complete listed checked analysis) world).0 ≡ ok (receipt 100000000)
unfolding ran
run_complete = refl

-- Without a fraud engine the transfer is recorded as rejected and nothing moves.
run_unavailable :
    let (r, w) = transfer listed platform (λ q. none) 1 dto "phone" none world in
    (r ≡ err (unavailable "Fraud detection service is unavailable"))
    × (w.db.accounts ≡ bank.accounts)
    × (map (λ (t : Transaction). t.status) w.db.transactions ≡ rejected ∷ [])
unfolding ran
run_unavailable = (refl, refl, refl)

transfer_conserves_example :
    let t = (after calm).accounts in
    (total t ≡ total bank.accounts) ⊎ (total t ≡ total bank.accounts)
transfer_conserves_example =
    transfer_conserves listed platform calm 1 dto "phone" (some " k ") world (omega arith)
      (omega arith)

transfer-IsAllowed_example :
    Justified listed platform calm 1 dto "phone" world
      (receipt 100000004)
      (transfer listed platform calm 1 dto "phone" (some " k ") world).1
transfer-IsAllowed_example =
    transfer-IsAllowed listed platform calm 1 dto "phone" (some " k ") world run_receipt

complete_moves_example : left.db.accounts ≡ map (moved 1 2 1200) bank.accounts
complete_moves_example =
    complete_moves listed checked analysis world (omega arith) (omega arith) run_complete

settle_key_taken_example :
    ((e : Error) × ((settle listed checked analysis raced).0 ≡ err e))
    × ((settle listed checked analysis raced).1.db ≡ (begin raced).db)
settle_key_taken_example = settle_key_taken listed checked analysis raced "k" refl refl

transfer_retried_example :
    (again : TransferReply) × (transfer listed platform calm 1 dto "laptop"
        (some " k ")
        (record world { db = after calm })
      ≡ (ok again, record world { db = after calm }))
    × (again.transaction ≡ row 100000004)
    × (again.idempotent_replay ≡ true)
unfolding ran
transfer_retried_example =
    transfer_retried listed platform calm 1 dto " k " "k" "phone" "laptop" world
      (record world { db = after calm }) refl run_receipt refl refl
