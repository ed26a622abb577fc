-- ===== src/Transactions/Transfer.antt =====
-- `transfer` of backend/src/transactions/transactions.service.ts, from the controller's checks on
-- the headers to the transaction that ends it.
pub mod Money
pub mod Conservation
pub mod Moves
pub mod Safety
pub mod Races
pub mod Recorded
pub mod Retry
use bankproject.Base.{
  ℕ, String, Bool, true, false, ◌&&◌, not, Option, none, some, ltb, map_option, is_some,
}
use bankproject.Text.{trim, is_truthy}
use bankproject.Model.{Beneficiary}
use bankproject.Prisma.{Prisma}
use bankproject.Handler.{
  World, Error, unavailable, Result, ok, err, Handler, ◌>>=◌, ◌>>◌, pure, throw, throw_if,
  transaction, bad_request, branch,
}
use bankproject.Fraud.{
  FraudEngine, FraudAnalysisRequest, FraudAnalysisResponse, analyze_transaction,
}
use bankproject.Transactions.{CreateTransferDto, TransferReply, Platform, Checked}
use bankproject.Transactions.Idempotency.{
  normalize_idempotency_key, transfer_fingerprint, find_idempotent_transfer,
}
use bankproject.Transactions.Checks.{check_transfer, fraud_features}
use bankproject.Transactions.Settlement.{record_fraud_service_failure, flag, complete}

module _ (pg : Prisma) where
  -- The `catch` after the analysis: a failed request is recorded, then thrown on.
  unfoldable pub rescue :
      Checked → Result FraudAnalysisResponse × World → Result FraudAnalysisResponse × World
  rescue c (ok analysis, w) = (ok analysis, w)
  rescue c (err (unavailable message), w) =
      (transaction (record_fraud_service_failure pg c) >> throw (unavailable message)) w
  rescue c (err e, w) = (err e, w)

  -- What follows the analysis: the flagged transfer is kept for review, any other is carried out.
  unfoldable pub settle : Checked → FraudAnalysisResponse → Handler TransferReply
  settle c analysis =
      branch analysis.is_flagged (transaction (flag pg c analysis))
        (transaction (complete pg c analysis))

module _ (pg : Prisma) (platform : Platform) (engine : FraudEngine) where
  unfoldable pub analyze : Checked → FraudAnalysisRequest → Handler FraudAnalysisResponse
  unfolding rescue
  analyze c request w = rescue pg c (analyze_transaction engine request w)

  -- A transfer that is not a replay.
  unfoldable pub transfer_anew :
      ℕ → CreateTransferDto → String → Option String → Option String → Handler TransferReply
  unfolding analyze settle
  transfer_anew user_id dto device_id key fingerprint = do
    found ← check_transfer pg platform user_id dto key fingerprint
    request ← fraud_features pg platform found.0 found.1 device_id
    analysis ← analyze found.0 request
    settle pg found.0 analysis

  -- What follows the search for a transfer under the same key.
  unfoldable pub unless_replayed :
      ℕ → CreateTransferDto → String → String → Option TransferReply → Handler TransferReply
  unless_replayed user_id dto device_id key (some reply) = pure reply
  unless_replayed user_id dto device_id key none =
      transfer_anew user_id dto device_id (some key)
        (some (transfer_fingerprint platform user_id dto))

  unfoldable pub transfer_under :
      ℕ → CreateTransferDto → String → Option String → Handler TransferReply
  transfer_under user_id dto device_id none = transfer_anew user_id dto device_id none none
  transfer_under user_id dto device_id (some key) = do
    replayed ← find_idempotent_transfer pg user_id key (transfer_fingerprint platform user_id dto)
    unless_replayed user_id dto device_id key replayed

  unfoldable pub transfer : ℕ → CreateTransferDto → String → Option String → Handler TransferReply
  unfolding transfer_anew unless_replayed transfer_under
  transfer user_id dto device_id raw_key =
      transfer_under user_id dto device_id (normalize_idempotency_key raw_key)

  -- `transfer` of the controller: the checks on the headers. An absent device header is none.
  unfoldable pub post_transfer :
      ℕ → CreateTransferDto → Option String → Option String → Handler TransferReply
  post_transfer user_id dto none raw_key = throw (bad_request "X-Device-ID header is required")
  post_transfer user_id dto (some device_id) raw_key = do
    throw_if (not (is_truthy device_id)) (bad_request "X-Device-ID header is required")
    throw_if
        (elim raw_key [
          | none ↦ false
          | some k ↦ is_truthy k && ltb 120 (Prim.Native.String.count (trim k))
        ])
        (bad_request "X-Idempotency-Key is too long")
    transfer user_id dto device_id raw_key
