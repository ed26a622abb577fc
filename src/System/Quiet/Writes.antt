-- ===== src/System/Quiet/Writes.antt =====
-- Writes to the other tables leave the accounts as they are.
use bankproject.Base.{ℕ, Bool}
use bankproject.Model.{User, RefreshToken, PasswordResetToken}
use bankproject.Prisma.{Prisma}
use bankproject.Store.{
  AuditData, EventData, AttemptData, create_audit_log, create_security_event, create_login_attempt,
}
use bankproject.Auth.Tables.{
  update_user, revoke_tokens, create_refresh_row, create_reset_row, use_reset_tokens,
  delete_reset_tokens,
}
use bankproject.System.Quiet.{IsQuiet, quiet_rules}

module _ (pg : Prisma) where
  pub IsQuiet-create_audit_log : (a : AuditData) → IsQuiet (create_audit_log pg a)
  unfolding create_audit_log
  IsQuiet-create_audit_log a = search quiet_rules

  pub IsQuiet-create_security_event : (e : EventData) → IsQuiet (create_security_event pg e)
  unfolding create_security_event
  IsQuiet-create_security_event e = search quiet_rules

  pub IsQuiet-create_login_attempt : (a : AttemptData) → IsQuiet (create_login_attempt pg a)
  unfolding create_login_attempt
  IsQuiet-create_login_attempt a = search quiet_rules

  pub IsQuiet-update_user : (id : ℕ) (f : User → User) → IsQuiet (update_user pg id f)
  unfolding update_user
  IsQuiet-update_user id f = search quiet_rules

  pub IsQuiet-revoke_tokens : (p : RefreshToken → Bool) (at : ℕ) → IsQuiet (revoke_tokens pg p at)
  unfolding revoke_tokens
  IsQuiet-revoke_tokens p at = search quiet_rules

  pub IsQuiet-create_refresh_row :
      (row : ℕ → ℕ → RefreshToken) → IsQuiet (create_refresh_row pg row)
  unfolding create_refresh_row
  IsQuiet-create_refresh_row row = search quiet_rules

  pub IsQuiet-create_reset_row :
      (row : ℕ → ℕ → PasswordResetToken) → IsQuiet (create_reset_row pg row)
  unfolding create_reset_row
  IsQuiet-create_reset_row row = search quiet_rules

  pub IsQuiet-use_reset_tokens :
      (p : PasswordResetToken → Bool) (f : PasswordResetToken → PasswordResetToken)
      → IsQuiet (use_reset_tokens pg p f)
  unfolding use_reset_tokens
  IsQuiet-use_reset_tokens p f = search quiet_rules

  pub IsQuiet-delete_reset_tokens :
      (p : PasswordResetToken → Bool) → IsQuiet (delete_reset_tokens pg p)
  unfolding delete_reset_tokens
  IsQuiet-delete_reset_tokens p = search quiet_rules

pub ruleset write_rules = (
  quiet_rules, IsQuiet-create_audit_log, IsQuiet-create_security_event,
  IsQuiet-create_login_attempt, IsQuiet-update_user, IsQuiet-revoke_tokens,
  IsQuiet-create_refresh_row, IsQuiet-create_reset_row, IsQuiet-use_reset_tokens,
  IsQuiet-delete_reset_tokens,
)
