-- ===== src/Auth/Sample.antt =====
-- A user with a session, a reset token and a recovery code, for the runs and the instances of the
-- theorems.
use bankproject.Base.{ℕ, ◌+◌, String, false, none, some, [], ◌∷◌, refl, str_eq, if◌then◌else◌}
use text.Mathlib.TextEquality.{eq_iff}
use bankproject.Model.{Db, User, RefreshToken, UserRole, UserStatus, customer, admin, active}
use bankproject.Handler.{World}
use bankproject.Auth.{Crypto}
use bankproject.Auth.Sessions.{access_claims}
use bankproject.Auth.Login.{LoginDto}

abbrev pub person : ℕ → String → UserRole → UserStatus → User
person id email role status = record {
  id = id;
  email = email;
  password_hash = "pw";
  first_name = "Ann";
  last_name = "Lee";
  role = role;
  status = status;
  mfa_enabled = false;
  mfa_secret_encrypted = none;
  mfa_verified_at = none;
  created_at = 0;
  token_version = 4;
}

abbrev pub session : RefreshToken
session = record {
  id = 1;
  token_hash = "t1";
  device_id = some "phone";
  user_id = 1;
  expires_at = 5000000;
  revoked_at = none;
  created_at = 0;
}

abbrev pub people : Db
people = record {
  users = person 1 "ann@b" customer active ∷ person 2 "bob@b" admin active ∷ [];
  refresh_tokens = session ∷ [];
  reset_tokens =
      record {
        id = 1;
        token_hash = "reset";
        user_id = 1;
        expires_at = 5000000;
        used_at = none;
        created_at = 0;
      }
      ∷ [];
  recovery_codes =
      record { id = 1; code_hash = "AB"; user_id = 1; used_at = none; created_at = 0 } ∷ [];
  accounts = [];
  beneficiaries = [];
  transactions = [];
  devices = [];
  login_attempts = [];
  fraud_alerts = [];
  cases = [];
  security_events = [];
  audit_logs = [];
}

abbrev pub at_work : Db → World
at_work d = record { db = d; clock = λ n. 1000000 + n; random = λ n. "r"; others = λ n d. d }

-- Nothing is hidden: a digest and a password's hash are the text itself, and one token verifies.
abbrev pub clear : Crypto
clear = record {
  digest = λ s. s;
  hash = λ p salt. p;
  compare = str_eq;
  sign = λ at life c. "signed";
  verify = λ at token.
      if str_eq token "signed"
      then some (access_claims (person 1 "ann@b" customer active))
      else none;
  compare-hash = λ p salt. (eq_iff p p).1 refl;
}

abbrev pub credentials : String → LoginDto
credentials password = record { email = " Ann@b "; password = password }
