-- ===== src/Transactions/Transfer/Money.antt =====
-- The accounts under a whole transfer: the checks read only, and only the closing transaction
-- writes.
use bankproject.Base.{
  ℕ, String, List, ◌≡◌, ◌∙◌, refl, Bool, true, false, Option, none, some, if◌then◌else◌, arith,
}
use bankproject.Model.{Beneficiary, BankAccount}
use bankproject.Prisma.{Prisma}
use bankproject.Handler.{World, ok, unavailable, begin, transaction, throw, ◌>>=◌}
use bankproject.Handler.Laws.{transaction_keeps, bind_keeps}
use bankproject.Fraud.{
  FraudEngine, FraudAnalysisRequest, FraudAnalysisResponse, analyze_transaction,
  FraudEngineResponse,
}
use bankproject.Devices.{is_new_device}
use bankproject.Transactions.{CreateTransferDto, TransferReply, Platform, Checked}
use bankproject.Transactions.Idempotency.{
  find_idempotent_transfer, normalize_idempotency_key, transfer_fingerprint,
}
use bankproject.Transactions.Limits.{enforce_transfer_limits}
use bankproject.Transactions.Checks.{check_transfer, fraud_features}
use bankproject.Transactions.Settlement.{flag, complete, record_fraud_service_failure}
use bankproject.Transactions.Settlement.Laws.{flag-accounts, record_fraud_service_failure-accounts}
use bankproject.Transactions.Transfer.{
  analyze, settle, transfer_anew, unless_replayed, transfer_under, transfer,
}

-- The database and what the other requests will commit are as before.
abbrev pub IsUntouched : World → World → Type 0
IsUntouched w v = (v.db ≡ w.db) × (v.others ≡ w.others)

pub IsUntouched-trans : (u v w : World) → IsUntouched u v → IsUntouched v w → IsUntouched u w
IsUntouched-trans u v w p q = (q.0 ∙ p.0, q.1 ∙ p.1)

module _ (pg : Prisma) (platform : Platform) where
  pub enforce_transfer_limits-IsUntouched :
      (account amount : ℕ) (w : World)
      → IsUntouched w (enforce_transfer_limits pg platform account amount w).1
  unfolding enforce_transfer_limits
  enforce_transfer_limits-IsUntouched account amount w = ground arith

  pub check_transfer-IsUntouched :
      (user_id : ℕ) (dto : CreateTransferDto) (key fingerprint : Option String) (w : World)
      → IsUntouched w (check_transfer pg platform user_id dto key fingerprint w).1
  unfolding check_transfer enforce_transfer_limits
  check_transfer-IsUntouched user_id dto key fingerprint w = ground arith

  pub fraud_features-IsUntouched :
      (c : Checked) (b : Beneficiary) (device_id : String) (w : World)
      → IsUntouched w (fraud_features pg platform c b device_id w).1
  unfolding fraud_features is_new_device
  fraud_features-IsUntouched c b device_id w = ground arith

  pub find_idempotent_transfer-IsUntouched :
      (user_id : ℕ) (key fingerprint : String) (w : World)
      → IsUntouched w (find_idempotent_transfer pg user_id key fingerprint w).1
  unfolding find_idempotent_transfer
  find_idempotent_transfer-IsUntouched user_id key fingerprint w = ground arith

-- A property of the accounts that a completed transfer keeps, and that holds of them both now and
-- once the other requests have committed.
module _ (pg : Prisma) (platform : Platform) (engine : FraudEngine) (P : List BankAccount → Type 0)
    (keep : (c : Checked) (analysis : FraudAnalysisResponse) (v : World) (r : TransferReply)
      → (complete pg c analysis v).0 ≡ ok r
      → P v.db.accounts
      → P (complete pg c analysis v).1.db.accounts) where
  abbrev Holds : World → Type 0
  Holds w = P w.db.accounts × P (w.others 0 w.db).accounts

  Holds-IsUntouched : (w v : World) → IsUntouched w v → Holds w → Holds v
  Holds-IsUntouched w v same h = (rw (same.0) h.0, rw (same.0, same.1) h.1)

  settle_keeps :
      (c : Checked) (analysis : FraudAnalysisResponse) (w : World)
      → Holds w
      → P (settle pg c analysis w).1.db.accounts
  unfolding settle
  settle_keeps c analysis w h = go analysis.is_flagged
    where
      go :
          (b : Bool)
          → P
              ((if b
                  then transaction (flag pg c analysis)
                  else transaction (complete pg c analysis))
                w).1.db.accounts
      go true =
          transaction_keeps (λ d. P d.accounts) (flag pg c analysis) w
            (λ r _. rw (flag-accounts pg c analysis (begin w)) h.1) h.1
      go false =
          transaction_keeps (λ d. P d.accounts) (complete pg c analysis) w
            (λ r done. keep c analysis (begin w) r done h.1) h.1

  analyze-IsUntouched :
      (c : Checked) (q : FraudAnalysisRequest) (w : World) (a : FraudAnalysisResponse)
      → (analyze pg platform engine c q w).0 ≡ ok a
      → IsUntouched w (analyze pg platform engine c q w).1
  unfolding analyze analyze_transaction
  analyze-IsUntouched c q w a e = ground arith

  analyze_keeps :
      (c : Checked) (q : FraudAnalysisRequest) (w : World)
      → Holds w
      → P (analyze pg platform engine c q w).1.db.accounts
  unfolding analyze analyze_transaction
  analyze_keeps c q w h = go (engine q) refl
    where
      failed : P (transaction (record_fraud_service_failure pg c) w).1.db.accounts
      failed =
          transaction_keeps (λ d. P d.accounts) (record_fraud_service_failure pg c) w
            (λ _ _. rw (record_fraud_service_failure-accounts pg c (begin w)) h.1) h.1

      go :
          (r : Option FraudEngineResponse)
          → engine q ≡ r
          → P (analyze pg platform engine c q w).1.db.accounts
      go none e =
          rw (e, analyze, analyze_transaction)
            (bind_keeps (λ v. P v.db.accounts) (transaction (record_fraud_service_failure pg c))
              (λ _. throw (unavailable "Fraud detection service is unavailable")) w failed
              (λ _ _. failed))
      go (some s) e = rw (e, analyze, analyze_transaction) h.0

  checked_keeps :
      (c : Checked) (b : Beneficiary) (device_id : String) (w : World)
      → Holds w
      → P
          ((fraud_features pg platform c b device_id >>= λ q.
              analyze pg platform engine c q >>= λ a. settle pg c a)
            w).1.db.accounts
  checked_keeps c b device_id w h =
      let features = fraud_features pg platform c b device_id in
      let w1 = (features w).1 in
      let h1 = Holds-IsUntouched w w1 (fraud_features-IsUntouched pg platform c b device_id w) h in
      bind_keeps (λ v. P v.db.accounts) features
        (λ q. analyze pg platform engine c q >>= λ a. settle pg c a) w h1.0
        λ q _.
          bind_keeps (λ v. P v.db.accounts) (analyze pg platform engine c q) (λ a. settle pg c a) w1
            (analyze_keeps c q w1 h1)
            λ a e. settle_keeps c a (analyze pg platform engine c q w1).1 (
              Holds-IsUntouched w1 (analyze pg platform engine c q w1).1
                (analyze-IsUntouched c q w1 a e) h1)

  transfer_anew_keeps :
      (user_id : ℕ) (dto : CreateTransferDto) (device_id : String) (key fingerprint : Option String)
      (w : World)
      → Holds w
      → P (transfer_anew pg platform engine user_id dto device_id key fingerprint w).1.db.accounts
  unfolding transfer_anew
  transfer_anew_keeps user_id dto device_id key fingerprint w h =
      let checks = check_transfer pg platform user_id dto key fingerprint in
      let w1 = (checks w).1 in
      let h1 =
        Holds-IsUntouched w w1
          (check_transfer-IsUntouched pg platform user_id dto key fingerprint w) h in
      bind_keeps (λ v. P v.db.accounts) checks
        (λ found. fraud_features pg platform found.0 found.1 device_id >>= λ q.
          analyze pg platform engine found.0 q >>= λ a. settle pg found.0 a)
        w h1.0 λ found _. checked_keeps found.0 found.1 device_id w1 h1

  unless_replayed_keeps :
      (user_id : ℕ) (dto : CreateTransferDto) (device_id key : String) (o : Option TransferReply)
      (w : World)
      → Holds w
      → P (unless_replayed pg platform engine user_id dto device_id key o w).1.db.accounts
  unfolding unless_replayed
  unless_replayed_keeps user_id dto device_id key (some reply) w h = h.0
  unless_replayed_keeps user_id dto device_id key none w h =
      transfer_anew_keeps user_id dto device_id _ _ w h

  transfer_under_keeps :
      (user_id : ℕ) (dto : CreateTransferDto) (device_id : String) (key : Option String) (w : World)
      → Holds w
      → P (transfer_under pg platform engine user_id dto device_id key w).1.db.accounts
  unfolding transfer_under
  transfer_under_keeps user_id dto device_id none w h =
      transfer_anew_keeps user_id dto device_id none none w h
  transfer_under_keeps user_id dto device_id (some k) w h =
      let print = transfer_fingerprint platform user_id dto in
      let look = find_idempotent_transfer pg user_id k print in
      let h1 =
        Holds-IsUntouched w (look w).1
          (find_idempotent_transfer-IsUntouched pg platform user_id k print w) h in
      bind_keeps (λ v. P v.db.accounts) look
        (λ o. unless_replayed pg platform engine user_id dto device_id k o) w h1.0
        (λ o _. unless_replayed_keeps user_id dto device_id k o (look w).1 h1)

  pub transfer_keeps :
      (user_id : ℕ) (dto : CreateTransferDto) (device_id : String) (key : Option String) (w : World)
      → Holds w
      → P (transfer pg platform engine user_id dto device_id key w).1.db.accounts
  unfolding transfer
  transfer_keeps user_id dto device_id raw_key w h =
      transfer_under_keeps user_id dto device_id (normalize_idempotency_key raw_key) w h
