-- ===== src/System/Quiet/Passwords.antt =====
-- Passwords leave the accounts as they are.
use bankproject.Base.{ℕ, String, Option, none, some}
use bankproject.Model.{User, PasswordResetToken}
use bankproject.Prisma.{Prisma}
use bankproject.System.Quiet.{IsQuiet}
use bankproject.System.Quiet.Writes.{write_rules}
use bankproject.Auth.{Crypto}
use bankproject.Auth.Password.{
  store_password, change_password, store_reset, request_reset, forgot_password, check_reset,
  consume_reset, reset_password,
}

module _ (pg : Prisma) (crypto : Crypto) where
  pub IsQuiet-store_password :
      (id : ℕ) (h : String) (at : ℕ) → IsQuiet (store_password pg crypto id h at)
  unfolding store_password
  IsQuiet-store_password id h at = search (write_rules) depth 80 fits 4000

  pub IsQuiet-change_password :
      (id : ℕ) (old new : String) → IsQuiet (change_password pg crypto id old new)
  unfolding change_password
  IsQuiet-change_password id old new =
      search (write_rules, IsQuiet-store_password) depth 80 fits 4000

  pub IsQuiet-store_reset : (id : ℕ) (t : String) → IsQuiet (store_reset pg crypto id t)
  unfolding store_reset
  IsQuiet-store_reset id t = search (write_rules) depth 80 fits 4000

  pub IsQuiet-request_reset : (u : Option User) → IsQuiet (request_reset pg crypto u)
  unfolding request_reset
  IsQuiet-request_reset none = search write_rules depth 80 fits 4000
  IsQuiet-request_reset (some u) = search (write_rules, IsQuiet-store_reset) depth 80 fits 4000

  pub IsQuiet-forgot_password : (e : String) → IsQuiet (forgot_password pg crypto e)
  unfolding forgot_password
  IsQuiet-forgot_password e = search (write_rules, IsQuiet-request_reset) depth 80 fits 4000

  pub IsQuiet-check_reset : (t : String) → IsQuiet (check_reset pg crypto t)
  unfolding check_reset
  IsQuiet-check_reset t = search (write_rules) depth 80 fits 4000

  pub IsQuiet-consume_reset :
      (t : PasswordResetToken) (h : String) (at : ℕ) → IsQuiet (consume_reset pg crypto t h at)
  unfolding consume_reset
  IsQuiet-consume_reset t h at = search (write_rules) depth 80 fits 4000

  pub IsQuiet-reset_password : (t new : String) → IsQuiet (reset_password pg crypto t new)
  unfolding reset_password
  IsQuiet-reset_password t new =
      search (write_rules, IsQuiet-check_reset, IsQuiet-consume_reset) depth 80 fits 4000
