-- ===== src/Auth/Login/SecondStep.antt =====
-- The second step of a login, `verifyMfaLogin` and `verifyMfaRecoveryLogin` of
-- backend/src/auth/auth.service.ts.
pub mod Confirmed
use bankproject.Base.{
  ℕ, String, Bool, true, false, not, Option, none, some, ◌==◌, str_eq, opt_str_eq,
}
use bankproject.Model.{User, active, user_status_eq, low, medium, high}
use bankproject.Prisma.{Prisma}
use bankproject.Handler.{
  Handler, ◌>>=◌, ◌>>◌, gets, now, require, throw, throw_if, pure, unauthorized,
}
use bankproject.Store.{create_audit_log, create_security_event, create_login_attempt}
use bankproject.Auth.{Claims, Crypto, Totp}
use bankproject.Auth.Tables.{has_uid}
use bankproject.Auth.Sessions.{Session, issue_session}
use bankproject.Auth.Password.{auth_audit, auth_event}
use bankproject.Auth.Mfa.{verify_user_code, consume_recovery_code}
use bankproject.Auth.Login.{attempt_data}

module _ (pg : Prisma) (crypto : Crypto) where
  unfoldable pub verify_mfa_challenge : String → Handler (Claims × ℕ × ℕ)
  verify_mfa_challenge token = do
    at ← now
    payload ← require (crypto.verify at token) (unauthorized "Invalid or expired MFA challenge")
    throw_if (not (str_eq payload.kind "mfa")) (unauthorized "Invalid MFA challenge")
    throw_if (not (opt_str_eq payload.purpose (some "mfa-login")))
        (unauthorized "Invalid MFA challenge")
    sub ← require payload.sub (unauthorized "Invalid MFA challenge")
    version ← require payload.token_version (unauthorized "Invalid MFA challenge")
    pure (payload, sub, version)

  unfoldable pub get_mfa_user : ℕ → ℕ → Handler User
  get_mfa_user sub version = do
    found ← gets (λ d. pg.find (has_uid sub) d.users)
    user ← require found (unauthorized "User account no longer exists")
    throw_if (not (user_status_eq user.status active)) (unauthorized "Account is not active")
    throw_if (not user.mfa_enabled) (unauthorized "MFA is not enabled for this account")
    throw_if (not (user.token_version == version)) (unauthorized "MFA challenge is no longer valid")
    pure user

  unfoldable pub answer_code : Claims → User → Option String → Bool → Handler Session
  answer_code payload user ip true = do
    a ← create_login_attempt pg (attempt_data true payload.device_id ip (some user.id))
    e ←
        create_security_event pg
          (auth_event user.id "MFA_LOGIN_SUCCESS" "User successfully completed MFA login" low)
    issue_session pg crypto user payload.device_id none
  answer_code payload user ip false = do
    e ←
        create_security_event pg
          (auth_event user.id "MFA_LOGIN_FAILED" "Invalid MFA code during login" medium)
    throw (unauthorized "Invalid MFA code")

  unfoldable pub verify_mfa_login : Totp → String → String → Option String → Handler Session
  verify_mfa_login totp token code ip = do
    payload ← verify_mfa_challenge token
    user ← get_mfa_user payload.1 payload.2
    valid ← verify_user_code pg crypto totp user.id code
    answer_code payload.0 user ip valid

  unfoldable pub answer_recovery_code : Claims → User → Option String → Bool → Handler Session
  answer_recovery_code payload user ip true = do
    a ← create_login_attempt pg (attempt_data true payload.device_id ip (some user.id))
    e ← create_security_event pg (
        auth_event user.id "MFA_RECOVERY_LOGIN_SUCCESS"
          "User authenticated using an MFA recovery code" medium)
    l ← create_audit_log pg (
        auth_audit user.id "MFA_RECOVERY_CODE_USED"
          "A one-time MFA recovery code was used for authentication.")
    issue_session pg crypto user payload.device_id none
  answer_recovery_code payload user ip false = do
    e ← create_security_event pg (
        auth_event user.id "MFA_RECOVERY_LOGIN_FAILED" "Invalid or already used MFA recovery code"
          high)
    throw (unauthorized "Invalid or already used recovery code")

  unfoldable pub verify_mfa_recovery_login : String → String → Option String → Handler Session
  verify_mfa_recovery_login token code ip = do
    payload ← verify_mfa_challenge token
    user ← get_mfa_user payload.1 payload.2
    valid ← consume_recovery_code pg crypto user.id code
    answer_recovery_code payload.0 user ip valid
