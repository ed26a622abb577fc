-- ===== src/Auth/Password.antt =====
-- `changePassword`, `forgotPassword` and `resetPassword` of backend/src/auth/auth.service.ts.
pub mod Cutoff
pub mod Reset
use bankproject.Base.{
  ℕ, ◌+◌, String, Bool, true, false, ◌&&◌, ◌||◌, not, Option, none, some, List, ◌==◌, leb, ltb,
  str_eq, is_some, if◌then◌else◌,
}
use bankproject.Text.{trim, to_lower}
use bankproject.Model.{
  Db, User, PasswordResetToken, active, user_status_eq, low, medium, named, plain,
}
use bankproject.Prisma.{Prisma}
use bankproject.Handler.{
  branch, on_option, Handler, World, ◌>>=◌, ◌>>◌, gets, now, random_text, require, throw, throw_if,
  pure, transaction, unauthorized, not_found, bad_request,
}
use bankproject.Store.{AuditData, EventData, create_audit_log, create_security_event}
use bankproject.Auth.{Crypto}
use bankproject.Auth.Tables.{
  has_uid, has_email, is_live_of, bump, update_user, revoke_tokens, create_reset_row,
  use_reset_tokens, delete_reset_tokens,
}

-- An hour in milliseconds.
abbrev pub reset_life : ℕ
reset_life = 3600000

abbrev pub with_password : String → User → User
with_password hash u = bump (record u { password_hash = hash })

abbrev pub has_reset_hash : String → PasswordResetToken → Bool
has_reset_hash hash t = str_eq t.token_hash hash

-- `id, usedAt: null, expiresAt: { gt: now }`
abbrev pub is_usable : ℕ → ℕ → PasswordResetToken → Bool
is_usable id at t = t.id == id && not (is_some t.used_at) && ltb at t.expires_at

abbrev pub used : ℕ → PasswordResetToken → PasswordResetToken
used at t = record t { used_at = some at }

abbrev pub auth_audit : ℕ → String → String → AuditData
auth_audit user_id action details = record {
  user_id = some user_id;
  action = action;
  resource = some (named "AUTH");
  outcome = some "SUCCESS";
  details = some (plain details);
}

abbrev pub auth_event : ℕ → String → String → bankproject.Model.RiskLevel → EventData
auth_event user_id kind description risk = record {
  event_type = kind;
  description = description;
  risk_level = risk;
  user_id = some user_id;
}

module _ (pg : Prisma) (crypto : Crypto) where
  -- The body of the transaction of `changePassword`.
  unfoldable pub store_password : ℕ → String → ℕ → Handler (Unit {0})
  store_password user_id hash at = do
    u ← update_user pg user_id (with_password hash)
    n ← revoke_tokens pg (is_live_of user_id) at
    e ← create_security_event pg (
        auth_event user_id "PASSWORD_CHANGED" "Account password was changed and sessions revoked"
          low)
    l ← create_audit_log pg (
        auth_audit user_id "PASSWORD_CHANGED"
          "Password changed and active refresh sessions revoked.")
    pure tt

  unfoldable pub change_password : ℕ → String → String → Handler (Unit {0})
  change_password user_id current new = do
    throw_if (str_eq current new)
        (bad_request "New password must be different from the current password")
    found ← gets (λ d. pg.find (has_uid user_id) d.users)
    user ← require found (not_found "User not found")
    branch (crypto.compare current user.password_hash)
        (do
          salt ← random_text
          at ← now
          transaction (store_password user_id (crypto.hash new salt) at))
        (do
          e ← create_security_event pg (
              auth_event user_id "PASSWORD_CHANGE_FAILED"
                "Failed attempt to change account password" medium)
          throw (unauthorized "Invalid current password"))

  -- The body of the transaction of `forgotPassword`.
  unfoldable pub store_reset : ℕ → String → Handler (Unit {0})
  store_reset user_id token = do
    delete_reset_tokens pg (λ t. t.user_id == user_id)
    at ← now
    r ← create_reset_row pg (λ created id. record {
      id = id;
      token_hash = crypto.digest token;
      user_id = user_id;
      expires_at = at + reset_life;
      used_at = none;
      created_at = created;
    })
    e ← create_security_event pg (
        auth_event user_id "PASSWORD_RESET_REQUESTED"
          "A password reset was requested for the account" medium)
    l ← create_audit_log pg (
        auth_audit user_id "PASSWORD_RESET_REQUESTED"
          "Password reset was requested for the account.")
    pure tt

  -- Nothing is done for an unknown address or an account that is not active.
  unfoldable pub request_reset : Option User → Handler (Unit {0})
  request_reset none = pure tt
  request_reset (some user) =
      branch (user_status_eq user.status active)
        (do token ← random_text; transaction (store_reset user.id token)) (pure tt)

  unfoldable pub forgot_password : String → Handler String
  unfolding request_reset
  forgot_password email = do
    user ← gets (λ d. pg.find (has_email (to_lower (trim email))) d.users)
    request_reset user
    pure "If an account exists for that email, password reset instructions have been sent."

  unfoldable pub check_reset : String → Handler PasswordResetToken
  check_reset token = do
    found ← gets (λ d. pg.find (has_reset_hash (crypto.digest (trim token))) d.reset_tokens)
    stored ← require found (unauthorized "Invalid or expired password reset token")
    throw_if (is_some stored.used_at) (unauthorized "Invalid or expired password reset token")
    at ← now
    throw_if (leb stored.expires_at at) (unauthorized "Invalid or expired password reset token")
    pure stored

  -- The body of the transaction of `resetPassword`.
  unfoldable pub consume_reset : PasswordResetToken → String → ℕ → Handler (Unit {0})
  consume_reset stored hash at = do
    n ← use_reset_tokens pg (is_usable stored.id at) (used at)
    throw_if (not (n == 1)) (unauthorized "Invalid or expired password reset token")
    u ← update_user pg stored.user_id (with_password hash)
    m ← revoke_tokens pg (is_live_of stored.user_id) at
    e ← create_security_event pg (
        auth_event stored.user_id "PASSWORD_RESET_COMPLETED"
          "Password reset completed and sessions revoked" medium)
    l ← create_audit_log pg (
        auth_audit stored.user_id "PASSWORD_RESET_COMPLETED"
          "Password reset completed and active sessions revoked.")
    pure tt

  unfoldable pub reset_password : String → String → Handler (Unit {0})
  reset_password token new = do
    stored ← check_reset token
    salt ← random_text
    at ← now
    transaction (consume_reset stored (crypto.hash new salt) at)
