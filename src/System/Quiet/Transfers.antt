-- ===== src/System/Quiet/Transfers.antt =====
-- What of a transfer and of a reversal leaves the accounts as they are.
use bankproject.Base.{ℕ, String, Option, List}
use bankproject.Model.{Transaction, FraudAlert, Beneficiary, BankAccount}
use bankproject.Prisma.{Prisma}
use bankproject.Handler.{
  World, Result, ok, err, bad_request, unauthorized, forbidden, not_found, conflict, unavailable,
  internal, unique_violation, record_missing, transaction, throw, ◌>>◌,
}
use bankproject.Handler.Keeps.{IsSteady}
use bankproject.Store.{create_transaction, create_fraud_alert}
use bankproject.Fraud.{
  FraudEngine, FraudAnalysisRequest, FraudAnalysisResponse, analyze_transaction,
}
use bankproject.Devices.{is_new_device}
use bankproject.Transactions.{CreateTransferDto, Platform, Checked}
use bankproject.Transactions.Idempotency.{replay, find_idempotent_transfer}
use bankproject.Transactions.Limits.{enforce_transfer_limits}
use bankproject.Transactions.Checks.{check_transfer, fraud_features}
use bankproject.Transactions.Settlement.{record_fraud_service_failure, flag}
use bankproject.Transactions.Reversal.{check_reversal}
use bankproject.Transactions.Transfer.{rescue, analyze}
use bankproject.System.Quiet.{IsQuiet, quiet_rules}
use bankproject.System.Quiet.Writes.{write_rules}

module _ (pg : Prisma) where
  pub IsQuiet-create_transaction : (row : ℕ → ℕ → Transaction) → IsQuiet (create_transaction pg row)
  unfolding create_transaction
  IsQuiet-create_transaction row = search quiet_rules

  pub IsQuiet-create_fraud_alert : (row : ℕ → ℕ → FraudAlert) → IsQuiet (create_fraud_alert pg row)
  unfolding create_fraud_alert
  IsQuiet-create_fraud_alert row = search quiet_rules

  pub IsQuiet-flag : (c : Checked) (a : FraudAnalysisResponse) → IsQuiet (flag pg c a)
  unfolding flag
  IsQuiet-flag c a =
      search (write_rules, IsQuiet-create_transaction, IsQuiet-create_fraud_alert) depth 80 fits
        4000

  IsQuiet-record_failure : (c : Checked) → IsQuiet (record_fraud_service_failure pg c)
  unfolding record_fraud_service_failure
  IsQuiet-record_failure c = search (write_rules, IsQuiet-create_transaction) depth 80 fits 4000

  IsQuiet-replay : (u : ℕ) (f : String) (t : Transaction) → IsQuiet (replay pg u f t)
  unfolding replay
  IsQuiet-replay u f t = search write_rules depth 80 fits 4000

  pub IsQuiet-find_idempotent_transfer :
      (u : ℕ) (k f : String) → IsQuiet (find_idempotent_transfer pg u k f)
  unfolding find_idempotent_transfer
  IsQuiet-find_idempotent_transfer u k f = search (write_rules, IsQuiet-replay) depth 80 fits 4000

  pub IsQuiet-check_reversal : (u id : ℕ) → IsQuiet (check_reversal pg u id)
  unfolding check_reversal
  IsQuiet-check_reversal u id = search write_rules depth 80 fits 4000

IsQuiet-analyze_transaction :
    (engine : FraudEngine) (r : FraudAnalysisRequest) → IsQuiet (analyze_transaction engine r)
unfolding analyze_transaction
IsQuiet-analyze_transaction engine r = search write_rules depth 80 fits 4000

module _ (pg : Prisma) (platform : Platform) where
  IsQuiet-enforce_transfer_limits : (a n : ℕ) → IsQuiet (enforce_transfer_limits pg platform a n)
  unfolding enforce_transfer_limits
  IsQuiet-enforce_transfer_limits a n = search write_rules depth 80 fits 4000

  pub IsQuiet-check_transfer :
      (u : ℕ) (dto : CreateTransferDto) (k f : Option String)
      → IsQuiet (check_transfer pg platform u dto k f)
  unfolding check_transfer
  IsQuiet-check_transfer u dto k f =
      search (write_rules, IsQuiet-enforce_transfer_limits) depth 80 fits 4000

  IsQuiet-is_new_device : (u : ℕ) (d : String) → IsQuiet (is_new_device pg u d)
  unfolding is_new_device
  IsQuiet-is_new_device u d = search write_rules depth 80 fits 4000

  pub IsQuiet-fraud_features :
      (c : Checked) (b : Beneficiary) (d : String) → IsQuiet (fraud_features pg platform c b d)
  unfolding fraud_features
  IsQuiet-fraud_features c b d = search (write_rules, IsQuiet-is_new_device) depth 80 fits 4000

  pub IsQuiet-analyze :
      (engine : FraudEngine) (c : Checked) (r : FraudAnalysisRequest)
      → IsQuiet (analyze pg platform engine c r)
  unfolding analyze rescue
  IsQuiet-analyze engine c r = record {
    at = λ Q. record {
      at = λ w h.
          go Q (analyze_transaction engine r w)
            (((IsQuiet-analyze_transaction engine r).at Q).at w h);
    };
  }
    where
      recorded :
          (message : String)
          → IsQuiet (
              transaction (record_fraud_service_failure pg c)
              >> throw {A = FraudAnalysisResponse} (unavailable message))
      recorded message = search (write_rules, IsQuiet-record_failure) depth 80 fits 4000

      go :
          (Q : List BankAccount → Type 0) (q : Result FraudAnalysisResponse × World)
          → IsSteady (λ d. Q d.accounts) q.1
          → IsSteady (λ d. Q d.accounts) (rescue pg c q).1
      go Q (ok a, v) h = h
      go Q (err (unavailable m), v) h = ((recorded m).at Q).at v h
      go Q (err (bad_request m), v) h = h
      go Q (err (unauthorized m), v) h = h
      go Q (err (forbidden m), v) h = h
      go Q (err (not_found m), v) h = h
      go Q (err (conflict m), v) h = h
      go Q (err (internal m), v) h = h
      go Q (err unique_violation, v) h = h
      go Q (err record_missing, v) h = h
