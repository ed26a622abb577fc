-- ===== src/System/Quiet/Sessions.antt =====
-- Sessions leave the accounts as they are.
use bankproject.Base.{ℕ, String, Option, none, some}
use bankproject.Model.{User, RefreshToken}
use bankproject.Prisma.{Prisma}
use bankproject.System.Quiet.{IsQuiet}
use bankproject.System.Quiet.Writes.{write_rules}
use bankproject.Auth.{Crypto}
use bankproject.Devices.{Registration}
use bankproject.Auth.Sessions.{
  refresh, check_refresh, rotate, revoke_device, create_refresh_token, issue_session, logout,
  revoke_session, revoke_all, revoke_all_sessions,
}

module _ (pg : Prisma) (crypto : Crypto) where
  pub IsQuiet-revoke_device : (id : ℕ) (d : Option String) → IsQuiet (revoke_device pg crypto id d)
  unfolding revoke_device
  IsQuiet-revoke_device id none = search (write_rules) depth 80 fits 4000
  IsQuiet-revoke_device id (some d) = search (write_rules) depth 80 fits 4000

  pub IsQuiet-create_refresh_token :
      (id : ℕ) (d : Option String) → IsQuiet (create_refresh_token pg crypto id d)
  unfolding create_refresh_token
  IsQuiet-create_refresh_token id d = search (write_rules, IsQuiet-revoke_device) depth 80 fits 4000

  pub IsQuiet-issue_session :
      (u : User) (d : Option String) (r : Option Registration)
      → IsQuiet (issue_session pg crypto u d r)
  unfolding issue_session
  IsQuiet-issue_session u d r =
      search (write_rules, IsQuiet-create_refresh_token) depth 80 fits 4000

  pub IsQuiet-rotate :
      (s : RefreshToken) (u : User) (t : String) (at : ℕ) → IsQuiet (rotate pg crypto s u t at)
  unfolding rotate
  IsQuiet-rotate s u t at = search (write_rules) depth 80 fits 4000

  pub IsQuiet-check_refresh : (t : String) → IsQuiet (check_refresh pg crypto t)
  unfolding check_refresh
  IsQuiet-check_refresh t = search (write_rules) depth 80 fits 4000

  pub IsQuiet-refresh : (t : String) → IsQuiet (refresh pg crypto t)
  unfolding refresh
  IsQuiet-refresh t = search (write_rules, IsQuiet-check_refresh, IsQuiet-rotate) depth 80 fits 4000

  pub IsQuiet-logout : (t : String) → IsQuiet (logout pg crypto t)
  unfolding logout
  IsQuiet-logout t = search (write_rules) depth 80 fits 4000

  pub IsQuiet-revoke_session : (u id : ℕ) → IsQuiet (revoke_session pg crypto u id)
  unfolding revoke_session
  IsQuiet-revoke_session u id = search (write_rules) depth 80 fits 4000

  pub IsQuiet-revoke_all : (id : ℕ) → IsQuiet (revoke_all pg crypto id)
  unfolding revoke_all
  IsQuiet-revoke_all id = search (write_rules) depth 80 fits 4000

  pub IsQuiet-revoke_all_sessions : (id : ℕ) → IsQuiet (revoke_all_sessions pg crypto id)
  unfolding revoke_all_sessions
  IsQuiet-revoke_all_sessions id = search (write_rules, IsQuiet-revoke_all) depth 80 fits 4000
