-- ===== src/Fraud.antt =====
-- backend/src/fraud/fraud.service.ts: the call of the fraud engine, an HTTP service that is a
-- parameter: none where the request fails.
use bankproject.Base.{ℕ, String, Bool, true, false, Option, List}
use bankproject.Model.{RiskLevel, high, critical}
use bankproject.Handler.{Handler, unavailable, pure, throw, on_option}

-- The mean of a column, as its sum and the number of rows.
pub record Average : Type 0 where
  pub sum : ℕ
  pub rows : ℕ

pub record FraudAnalysisRequest : Type 0 where
  pub amount : ℕ
  pub average_amount : Average
  pub new_device : Bool
  pub new_beneficiary : Bool
  pub transactions_last_hour : ℕ
  pub failed_logins_last_hour : ℕ
  pub transaction_hour : ℕ

pub data Decision : Type 0 where
  approve review block : Decision

pub record FraudEngineResponse : Type 0 where
  pub risk_score : ℕ
  pub severity : RiskLevel
  pub decision : Decision
  pub reasons : List String

pub record FraudAnalysisResponse : Type 0 where
  pub risk_score : ℕ
  pub risk_level : RiskLevel
  pub is_flagged : Bool
  pub reasons : List String

abbrev pub is_severe : RiskLevel → Bool
is_severe high = true
is_severe critical = true
is_severe _ = false

abbrev pub FraudEngine : Type 0
FraudEngine = FraudAnalysisRequest → Option FraudEngineResponse

unfoldable pub analyze_transaction :
    FraudEngine → FraudAnalysisRequest → Handler FraudAnalysisResponse
analyze_transaction engine request =
    on_option (engine request) (throw (unavailable "Fraud detection service is unavailable"))
      (λ result. pure (record {
        risk_score = result.risk_score;
        risk_level = result.severity;
        is_flagged = is_severe result.severity;
        reasons = result.reasons;
      }))
