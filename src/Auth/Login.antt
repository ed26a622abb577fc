-- ===== src/Auth/Login.antt =====
-- `register` and `login` of backend/src/auth/auth.service.ts.
pub mod SecondStep
pub mod Lockout
pub mod Entry
mod Tests
use bankproject.Base.{
  ℕ, ◌+◌, ◌-◌, String, Bool, true, false, ◌&&◌, ◌||◌, not, Option, none, some, List, [], ◌∷◌, ◌++◌,
  ◌==◌, leb, str_eq, opt_is, opt_str_eq, is_some, if◌then◌else◌, map_option,
}
use bankproject.Text.{trim, to_lower, is_present}
use bankproject.Model.{
  Db, User, LoginAttempt, customer, active, locked, suspended, user_status_eq, RiskLevel, low,
  medium, high, named, Value, text, Details, json, plain,
}
use bankproject.Prisma.{Prisma}
use bankproject.Handler.{
  branch, on_option, Handler, ◌>>=◌, ◌>>◌, gets, now, random_text, require, throw, throw_if, pure,
  unauthorized, conflict, attempt, unique_violation,
}
use bankproject.Devices.{Registration, register_device}
use bankproject.Store.{
  AuditData, EventData, AttemptData, create_audit_log, create_security_event, create_login_attempt,
}
use bankproject.Auth.{Claims, Crypto, Totp}
use bankproject.Auth.Tables.{has_uid, has_email, bump, update_user}
use bankproject.Auth.Sessions.{Session, issue_session}
use bankproject.Auth.Password.{auth_audit, auth_event}
use bankproject.Auth.Mfa.{verify_user_code, consume_recovery_code}

pub record LoginDto : Type 0 where
  pub email : String
  pub password : String

pub record RegisterDto : Type 0 where
  pub email : String
  pub first_name : String
  pub last_name : String
  pub password : String

pub data LoginReply : Type 0 where
  signed_in : Session → LoginReply
  -- the challenge's token
  mfa_required : String → LoginReply

-- Fifteen minutes in milliseconds.
abbrev pub lock_window : ℕ
lock_window = 900000

abbrev pub email_clash : User → User → Bool
email_clash a b = str_eq b.email a.email

-- The columns that are not given take the schema's defaults.
abbrev pub new_user : String → String → String → String → ℕ → ℕ → User
new_user email first last hash at id = record {
  id = id;
  email = email;
  password_hash = hash;
  first_name = first;
  last_name = last;
  role = customer;
  status = active;
  mfa_enabled = false;
  mfa_secret_encrypted = none;
  mfa_verified_at = none;
  created_at = at;
  token_version = 0;
}

abbrev pub with_ip : Option String → List (String × Value)
with_ip none = []
with_ip (some ip) = if is_present (some ip) then ("ipAddress", text ip) ∷ [] else []

abbrev pub stored_ip : Option String → Option String
stored_ip ip = if is_present ip then ip else none

abbrev pub attempt_data : Bool → Option String → Option String → Option ℕ → AttemptData
attempt_data successful device_id ip user_id = record {
  successful = successful;
  device_info = device_id;
  ip_address = stored_ip ip;
  user_id = user_id;
}

abbrev pub failure : Option ℕ → List (String × Value) → AuditData
failure user_id fields = record {
  user_id = user_id;
  action = "LOGIN_FAILED";
  resource = some (named "AUTH");
  outcome = some "FAILURE";
  details = some (json fields);
}

abbrev pub is_failure_of : ℕ → ℕ → LoginAttempt → Bool
is_failure_of user_id since l =
    opt_is l.user_id user_id && not l.successful && leb since l.created_at

abbrev pub mfa_claims : User → String → Claims
mfa_claims u device_id = record {
  sub = some u.id;
  email = u.email;
  role = u.role;
  kind = "mfa";
  purpose = some "mfa-login";
  device_id = some device_id;
  token_version = some u.token_version;
}

abbrev pub lock : User → User
lock u = bump (record u { status = locked })

module _ (pg : Prisma) (crypto : Crypto) where
  unfoldable pub register : RegisterDto → Handler User
  register dto = do
    existing ← gets (λ d. pg.find (has_email (to_lower (trim dto.email))) d.users)
    throw_if (is_some existing) (conflict "An account with this email already exists")
    salt ← random_text
    at ← now
    attempt
        (λ d.
          map_option (λ r. (r.0, record d { users = r.1 }))
            (pg.create (λ u. u.id) email_clash
              (new_user (to_lower (trim dto.email)) (trim dto.first_name) (trim dto.last_name)
                (crypto.hash dto.password salt) at)
              d.users))
        unique_violation

  unfoldable pub unknown_user : String → String → Option String → Handler LoginReply
  unknown_user email device_id ip = do
    a ← create_login_attempt pg (attempt_data false (some device_id) ip none)
    l ← create_audit_log pg (
        failure none (
          ("email", text email)
          ∷ ("deviceId", text device_id)
          ∷ ("reason", text "UNKNOWN_USER")
          ∷ with_ip ip))
    throw (unauthorized "Invalid email or password")

  -- After a wrong password: the account is locked at the fifth failure within the window.
  unfoldable pub wrong_password : User → String → Option String → Handler LoginReply
  wrong_password user device_id ip = do
    a ← create_login_attempt pg (attempt_data false (some device_id) ip (some user.id))
    l ← create_audit_log pg (
        failure (some user.id)
          (("deviceId", text device_id) ∷ ("reason", text "INVALID_PASSWORD") ∷ with_ip ip))
    at ← now
    n ← gets (λ d. pg.count (is_failure_of user.id (at - lock_window)) d.login_attempts)
    branch (leb 5 n)
        (do
          u ← update_user pg user.id lock
          e ← create_security_event pg (
              auth_event user.id "ACCOUNT_LOCKED"
                "Account locked after 5 failed login attempts within 15 minutes" high)
          m ← create_audit_log pg (
              auth_audit user.id "ACCOUNT_LOCKED"
                "Account locked after repeated failed login attempts within 15 minutes.")
          throw (unauthorized "Account locked because of repeated failed login attempts"))
        (throw (unauthorized "Invalid email or password"))

  unfoldable pub note_device : User → String → Registration → Handler (Unit {0})
  note_device user device_id device =
      branch device.is_new_device
        (do
          e ← create_security_event pg (
              auth_event user.id "NEW_DEVICE_LOGIN"
                (Prim.Native.String.◌++◌ "Successful password authentication from new device: "
                  device_id)
                medium)
          pure tt)
        (pure tt)

  unfoldable pub answer_login : User → String → Option String → Registration → Handler LoginReply
  answer_login user device_id ip device =
      branch user.mfa_enabled
        (do at ← now; pure (mfa_required (crypto.sign at (some 300) (mfa_claims user device_id))))
        (do
          a ← create_login_attempt pg (attempt_data true (some device_id) ip (some user.id))
          session ← issue_session pg crypto user (some device_id) (some device)
          pure (signed_in session))

  -- After the right password.
  unfoldable pub right_password : User → String → Option String → Option String → Handler LoginReply
  right_password user device_id agent ip = do
    device ← register_device pg user.id device_id agent
    note_device user device_id device
    answer_login user device_id ip device

  unfoldable pub login : LoginDto → String → Option String → Option String → Handler LoginReply
  unfolding unknown_user wrong_password right_password
  login dto device_id agent ip = do
    found ← gets (λ d. pg.find (has_email (to_lower (trim dto.email))) d.users)
    on_option found (unknown_user (to_lower (trim dto.email)) device_id ip) (λ user. do
      throw_if (user_status_eq user.status locked) (unauthorized "Account is locked")
      throw_if (user_status_eq user.status suspended) (unauthorized "Account is suspended")
      branch (crypto.compare dto.password user.password_hash)
          (right_password user device_id agent ip) (wrong_password user device_id ip))
