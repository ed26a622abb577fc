-- ===== src/Transactions/Reversal/Tests.antt =====
-- Reversals at a small bank.
use bankproject.Base.{◌≡◌, refl, some, arith}
use bankproject.Text.{trim}
use bankproject.Int.{◌+ℤ◌, ◌-ℤ◌}
use bankproject.Model.{Db, Transaction, reversed}
use bankproject.Prisma.Listed.{listed}
use bankproject.Handler.{World, ok, err, Error, transaction}
use bankproject.Fraud.{analyze_transaction}
use bankproject.Devices.{is_new_device}
use bankproject.Store.{
  create_transaction, create_fraud_alert, create_audit_log, create_security_event,
}
use bankproject.Transactions.Idempotency.{
  normalize_idempotency_key, transfer_fingerprint, find_idempotent_transfer,
}
use bankproject.Transactions.Limits.{enforce_transfer_limits}
use bankproject.Transactions.Checks.{check_transfer, fraud_features}
use bankproject.Transactions.Settlement.{
  complete, flag, record_fraud_service_failure, debit, credit,
}
use bankproject.Transactions.Transfer.{transfer}
use bankproject.Transactions.Reversal.{reverse, check_reversal, undo}
use bankproject.Transactions.Reversal.Once.{reverse_once}
use bankproject.Transactions.Reversal.Roundtrip.{transfer_reversed}
use bankproject.Transactions.Sample.{bank, world, row, analysis, receipt, checked}

abbrev left : World
left = (transaction (complete listed checked analysis) world).1

ran : Unit {0}
unfolding transfer normalize_idempotency_key transfer_fingerprint trim find_idempotent_transfer
    check_transfer enforce_transfer_limits fraud_features is_new_device analyze_transaction complete
    flag record_fraud_service_failure debit credit create_transaction create_fraud_alert
    create_audit_log create_security_event ◌-ℤ◌ ◌+ℤ◌ reverse check_reversal undo
ran = tt

run_complete : (transaction (complete listed checked analysis) world).0 ≡ ok (receipt 100000000)
unfolding ran
run_complete = refl

abbrev reversing : Db → World
reversing d = record world { db = d }

run_reverse : (reverse listed 1 1 " oops " (reversing left.db)).1.db.accounts ≡ bank.accounts
unfolding ran
run_reverse = refl

abbrev undone_row : Transaction
undone_row = record (row 100000000) {
  status = reversed;
  reversed_at = some 100000000;
  reversed_by_id = some 1;
  reversal_reason = some "oops";
}

run_reversed : (reverse listed 1 1 "oops" (reversing left.db)).0 ≡ ok (some undone_row)
unfolding ran
run_reversed = refl

reverse_once_example :
    let v = reversing (reverse listed 1 1 "oops" (reversing left.db)).1.db in
    (e : Error) × (reverse listed 2 1 "again" v ≡ (err e, v))
unfolding ran
reverse_once_example =
    reverse_once listed 1 2 1 "oops" "again" (reversing left.db)
      (reversing (reverse listed 1 1 "oops" (reversing left.db)).1.db) (omega arith) run_reversed
      refl

transfer_reversed_example :
    (reverse listed 1 1 "oops" (reversing left.db)).1.db.accounts ≡ bank.accounts
unfolding ran
transfer_reversed_example =
    transfer_reversed listed checked analysis 1 "oops" world (reversing left.db) (omega arith)
      (omega arith) run_complete refl refl run_reversed
