-- ===== src/System/Quiet/Logins.antt =====
-- Logins and the second factor leave the accounts as they are.
use bankproject.Base.{ℕ, String, Bool, true, false, Option}
use bankproject.Model.{User, MfaRecoveryCode}
use bankproject.Prisma.{Prisma}
use bankproject.System.Quiet.{IsQuiet}
use bankproject.System.Quiet.Writes.{write_rules}
use bankproject.Auth.{Crypto, Totp, Claims}
use bankproject.Devices.{Registration, register_device, set_trust, revoke_device_sessions}
use bankproject.Auth.Mfa.{verify_user_code, spend_code, consume_recovery_code}
use bankproject.Auth.Mfa.Disable.{disable_failed, check_disable, clear_mfa, disable}
use bankproject.Auth.Login.{
  LoginDto, RegisterDto, register, unknown_user, wrong_password, note_device, answer_login,
  right_password, login,
}
use bankproject.Auth.Login.SecondStep.{
  verify_mfa_challenge, get_mfa_user, verify_mfa_login, answer_code, verify_mfa_recovery_login,
  answer_recovery_code,
}
use bankproject.System.Quiet.Sessions.{IsQuiet-issue_session}

module _ (pg : Prisma) where
  pub IsQuiet-register_device :
      (id : ℕ) (d : String) (a : Option String) → IsQuiet (register_device pg id d a)
  unfolding register_device
  IsQuiet-register_device id d a = search (write_rules) depth 80 fits 4000

  pub IsQuiet-set_trust : (u id : ℕ) (b : Bool) → IsQuiet (set_trust pg u id b)
  unfolding set_trust
  IsQuiet-set_trust u id b = search (write_rules) depth 80 fits 4000

  pub IsQuiet-revoke_device_sessions : (u id : ℕ) → IsQuiet (revoke_device_sessions pg u id)
  unfolding revoke_device_sessions
  IsQuiet-revoke_device_sessions u id = search (write_rules) depth 80 fits 4000

module _ (pg : Prisma) (crypto : Crypto) where
  pub IsQuiet-verify_user_code :
      (totp : Totp) (id : ℕ) (c : String) → IsQuiet (verify_user_code pg crypto totp id c)
  unfolding verify_user_code
  IsQuiet-verify_user_code totp id c = search (write_rules) depth 80 fits 4000

  pub IsQuiet-spend_code : (s : MfaRecoveryCode) (id : ℕ) → IsQuiet (spend_code pg crypto s id)
  unfolding spend_code
  IsQuiet-spend_code s id = search (write_rules) depth 80 fits 4000

  pub IsQuiet-consume_recovery_code :
      (id : ℕ) (c : String) → IsQuiet (consume_recovery_code pg crypto id c)
  unfolding consume_recovery_code
  IsQuiet-consume_recovery_code id c = search (write_rules, IsQuiet-spend_code) depth 80 fits 4000

  pub IsQuiet-check_disable :
      (totp : Totp) (id : ℕ) (p c : String) → IsQuiet (check_disable pg crypto totp id p c)
  unfolding check_disable disable_failed
  IsQuiet-check_disable totp id p c = search (write_rules) depth 80 fits 4000

  pub IsQuiet-clear_mfa : (id at : ℕ) → IsQuiet (clear_mfa pg id at)
  unfolding clear_mfa
  IsQuiet-clear_mfa id at = search (write_rules) depth 80 fits 4000

  pub IsQuiet-disable :
      (totp : Totp) (id : ℕ) (p c : String) → IsQuiet (disable pg crypto totp id p c)
  unfolding disable
  IsQuiet-disable totp id p c =
      search (write_rules, IsQuiet-check_disable, IsQuiet-clear_mfa) depth 80 fits 4000

  pub IsQuiet-register : (d : RegisterDto) → IsQuiet (register pg crypto d)
  unfolding register
  IsQuiet-register d = search (write_rules) depth 80 fits 4000

  pub IsQuiet-unknown_user :
      (e d : String) (ip : Option String) → IsQuiet (unknown_user pg crypto e d ip)
  unfolding unknown_user
  IsQuiet-unknown_user e d ip = search (write_rules) depth 80 fits 4000

  pub IsQuiet-wrong_password :
      (u : User) (d : String) (ip : Option String) → IsQuiet (wrong_password pg crypto u d ip)
  unfolding wrong_password
  IsQuiet-wrong_password u d ip = search (write_rules) depth 80 fits 4000

  pub IsQuiet-note_device :
      (u : User) (d : String) (r : Registration) → IsQuiet (note_device pg crypto u d r)
  unfolding note_device
  IsQuiet-note_device u d r = search (write_rules) depth 80 fits 4000

  pub IsQuiet-answer_login :
      (u : User) (d : String) (ip : Option String) (r : Registration)
      → IsQuiet (answer_login pg crypto u d ip r)
  unfolding answer_login
  IsQuiet-answer_login u d ip r = search (write_rules, IsQuiet-issue_session) depth 80 fits 4000

  pub IsQuiet-right_password :
      (u : User) (d : String) (a ip : Option String) → IsQuiet (right_password pg crypto u d a ip)
  unfolding right_password
  IsQuiet-right_password u d a ip =
      search (write_rules, IsQuiet-register_device, IsQuiet-note_device, IsQuiet-answer_login) depth
        80 fits 4000

  pub IsQuiet-login :
      (dto : LoginDto) (d : String) (a ip : Option String) → IsQuiet (login pg crypto dto d a ip)
  unfolding login
  IsQuiet-login dto d a ip =
      search (write_rules, IsQuiet-unknown_user, IsQuiet-wrong_password, IsQuiet-right_password)
        depth 80 fits 4000

  pub IsQuiet-verify_mfa_challenge : (t : String) → IsQuiet (verify_mfa_challenge pg crypto t)
  unfolding verify_mfa_challenge
  IsQuiet-verify_mfa_challenge t = search (write_rules) depth 80 fits 4000

  pub IsQuiet-get_mfa_user : (s v : ℕ) → IsQuiet (get_mfa_user pg crypto s v)
  unfolding get_mfa_user
  IsQuiet-get_mfa_user s v = search (write_rules) depth 80 fits 4000

  pub IsQuiet-answer_code :
      (p : Claims) (u : User) (ip : Option String) (b : Bool)
      → IsQuiet (answer_code pg crypto p u ip b)
  unfolding answer_code
  IsQuiet-answer_code p u ip true = search (write_rules, IsQuiet-issue_session) depth 80 fits 4000
  IsQuiet-answer_code p u ip false = search (write_rules) depth 80 fits 4000

  pub IsQuiet-verify_mfa_login :
      (totp : Totp) (t c : String) (ip : Option String)
      → IsQuiet (verify_mfa_login pg crypto totp t c ip)
  unfolding verify_mfa_login
  IsQuiet-verify_mfa_login totp t c ip =
      search
        (
          write_rules, IsQuiet-verify_mfa_challenge, IsQuiet-get_mfa_user, IsQuiet-verify_user_code,
          IsQuiet-answer_code,
        )
        depth 80 fits 4000

  pub IsQuiet-answer_recovery_code :
      (p : Claims) (u : User) (ip : Option String) (b : Bool)
      → IsQuiet (answer_recovery_code pg crypto p u ip b)
  unfolding answer_recovery_code
  IsQuiet-answer_recovery_code p u ip true =
      search (write_rules, IsQuiet-issue_session) depth 80 fits 4000
  IsQuiet-answer_recovery_code p u ip false = search (write_rules) depth 80 fits 4000

  pub IsQuiet-verify_mfa_recovery_login :
      (t c : String) (ip : Option String) → IsQuiet (verify_mfa_recovery_login pg crypto t c ip)
  unfolding verify_mfa_recovery_login
  IsQuiet-verify_mfa_recovery_login t c ip =
      search
        (
          write_rules, IsQuiet-verify_mfa_challenge, IsQuiet-get_mfa_user,
          IsQuiet-consume_recovery_code, IsQuiet-answer_recovery_code,
        )
        depth 80 fits 4000
