-- ===== src/Model/Enums.antt =====
-- The enumerations of the schema, each with the equality test that `===` is on its values.
use bankproject.Base.{ℕ, Bool, ◌==◌}

pub data UserRole : Type 0 where
  customer bank_employee fraud_analyst security_analyst admin : UserRole

pub data UserStatus : Type 0 where
  active locked suspended : UserStatus

pub data TransactionStatus : Type 0 where
  pending approved completed rejected flagged reversed : TransactionStatus

pub data TransactionType : Type 0 where
  transfer deposit withdrawal : TransactionType

pub data RiskLevel : Type 0 where
  low medium high critical : RiskLevel

pub data AlertStatus : Type 0 where
  open_alert investigating resolved false_positive : AlertStatus

abbrev pub role_code : UserRole → ℕ
role_code customer = 0
role_code bank_employee = 1
role_code fraud_analyst = 2
role_code security_analyst = 3
role_code admin = 4

abbrev pub role_eq : UserRole → UserRole → Bool
role_eq a b = role_code a == role_code b

abbrev pub user_status_code : UserStatus → ℕ
user_status_code active = 0
user_status_code locked = 1
user_status_code suspended = 2

abbrev pub user_status_eq : UserStatus → UserStatus → Bool
user_status_eq a b = user_status_code a == user_status_code b

abbrev pub status_code : TransactionStatus → ℕ
status_code pending = 0
status_code approved = 1
status_code completed = 2
status_code rejected = 3
status_code flagged = 4
status_code reversed = 5

abbrev pub status_eq : TransactionStatus → TransactionStatus → Bool
status_eq a b = status_code a == status_code b

abbrev pub type_code : TransactionType → ℕ
type_code transfer = 0
type_code deposit = 1
type_code withdrawal = 2

abbrev pub type_eq : TransactionType → TransactionType → Bool
type_eq a b = type_code a == type_code b

abbrev pub risk_code : RiskLevel → ℕ
risk_code low = 0
risk_code medium = 1
risk_code high = 2
risk_code critical = 3

abbrev pub risk_eq : RiskLevel → RiskLevel → Bool
risk_eq a b = risk_code a == risk_code b

abbrev pub alert_code : AlertStatus → ℕ
alert_code open_alert = 0
alert_code investigating = 1
alert_code resolved = 2
alert_code false_positive = 3

abbrev pub alert_eq : AlertStatus → AlertStatus → Bool
alert_eq a b = alert_code a == alert_code b
