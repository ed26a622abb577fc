-- ===== src/System/Runs.antt =====
-- The databases that the requests lead to, whatever their order, and what stays so in all of them.
use bankproject.Base.{ℕ, String, Option, none, some, List}
use bankproject.Int.{ℤ}
use bankproject.Transactions.Settlement.Money.{IsKeyed}
use bankproject.System.Ledger.{Ledger, kept, IsSound, Ledger-IsSound, Ledger-IsKeyed, Ledger-trans}
use bankproject.Model.{Db, BankAccount}
use bankproject.Handler.{Handler, World}
use bankproject.Handler.Keeps.{keeps_rules}
use bankproject.Auth.Guards.{Principal}
use bankproject.Auth.Login.{LoginDto}
use bankproject.System.Quiet.Sessions.{
  IsQuiet-refresh, IsQuiet-logout, IsQuiet-revoke_session, IsQuiet-revoke_all_sessions,
}
use bankproject.System.Quiet.Passwords.{
  IsQuiet-change_password, IsQuiet-forgot_password, IsQuiet-reset_password,
}
use bankproject.System.Quiet.Logins.{
  IsQuiet-register, IsQuiet-login, IsQuiet-verify_mfa_login, IsQuiet-verify_mfa_recovery_login,
  IsQuiet-disable, IsQuiet-set_trust, IsQuiet-revoke_device_sessions,
}
use bankproject.System.Quiet.Staff.{
  IsQuiet-update_role, IsQuiet-update_status, IsQuiet-create_beneficiary,
  IsQuiet-remove_beneficiary, IsQuiet-update_alert_status, IsQuiet-create_case,
  IsQuiet-update_case_status, IsQuiet-set_alert_status,
}
use bankproject.System.Quiet.Setup.{
  IsQuiet-setup, IsQuiet-verify_setup, IsQuiet-regenerate, IsQuiet-auth_guard, IsQuiet-roles_guard,
  IsQuiet-create_event, IsQuiet-add_note,
}
use bankproject.System.Money.{
  Refines, Refines-quiet, Refines-transfer, Refines-reverse, Refines-create_account,
}
use bankproject.System.Routes.{
  Parts, PublicRoute, Route, Request, AuthRoute, DeviceRoute, AccountRoute, BeneficiaryRoute,
  TransactionRoute, AdminRoute, AlertRoute, SocRoute, EventRoute, on_auth, on_devices, on_accounts,
  on_beneficiaries, on_transactions, on_admin, on_alerts, on_soc, on_events, serve_auth,
  serve_devices, serve_accounts, serve_beneficiaries, serve_transactions, serve_admin, serve_alerts,
  serve_soc, serve_events, visits, calls, done, login_on, visit, perform, guarded, serve,
  post_register, post_login, post_mfa_login, post_recovery_login, post_refresh, post_logout,
  post_forgot_password, post_reset_password, post_revoke_all, post_mfa_setup, post_change_password,
  delete_session, post_mfa_verify, post_mfa_regenerate, post_mfa_disable, patch_trust,
  patch_untrust, delete_device_sessions, post_account, post_beneficiary, delete_beneficiary,
  post_transaction, post_reverse, patch_role, patch_status, patch_alert, patch_soc_alert, post_note,
  post_case, patch_case, post_event,
}

-- From one database to another by any number of requests. What others commit while a request runs
-- comes from requests too.
pub data Run (p : Parts) : Db → Db → Type 0 where
  here : {d : Db} → Run p d d
  then :
      {d : Db} (w : World)
      → Run p d w.db
      → ((n : ℕ) (x : Db) → Run p x (w.others n x))
      → (r : Request) → Run p d (serve p r w).1.db

ruleset service_rules = (
  IsQuiet-refresh, IsQuiet-logout, IsQuiet-revoke_session, IsQuiet-revoke_all_sessions,
  IsQuiet-change_password, IsQuiet-forgot_password, IsQuiet-reset_password, IsQuiet-register,
  IsQuiet-login, IsQuiet-verify_mfa_login, IsQuiet-verify_mfa_recovery_login, IsQuiet-disable,
  IsQuiet-set_trust, IsQuiet-revoke_device_sessions, IsQuiet-update_role, IsQuiet-update_status,
  IsQuiet-create_beneficiary, IsQuiet-remove_beneficiary, IsQuiet-update_alert_status,
  IsQuiet-create_case, IsQuiet-update_case_status, IsQuiet-setup, IsQuiet-verify_setup,
  IsQuiet-regenerate, IsQuiet-create_event, IsQuiet-add_note, IsQuiet-set_alert_status,
)

module _ (p : Parts) (t : List BankAccount) (keyed : IsKeyed t) where
  Refines-done : {A : Type 0} (h : Handler A) → Refines t h → Refines t (done h)
  Refines-done h k = search (keeps_rules, k)

  Refines-login_on : (dto : LoginDto) (d a ip : Option String) → Refines t (login_on p dto d a ip)
  unfolding login_on
  Refines-login_on dto none a ip = search keeps_rules
  Refines-login_on dto (some d) a ip =
      search (keeps_rules, Refines-done, Refines-quiet, IsQuiet-login)

  Refines-visit : (r : PublicRoute) → Refines t (visit p r)
  unfolding visit
  Refines-visit (post_register dto) = search (Refines-done, Refines-quiet, service_rules)
  Refines-visit (post_login dto d a ip) = Refines-login_on dto d a ip
  Refines-visit (post_mfa_login s c ip) = search (Refines-done, Refines-quiet, service_rules)
  Refines-visit (post_recovery_login s c ip) = search (Refines-done, Refines-quiet, service_rules)
  Refines-visit (post_refresh s) = search (Refines-done, Refines-quiet, service_rules)
  Refines-visit (post_logout s) = search (Refines-done, Refines-quiet, service_rules)
  Refines-visit (post_forgot_password e) = search (Refines-done, Refines-quiet, service_rules)
  Refines-visit (post_reset_password s n) = search (Refines-done, Refines-quiet, service_rules)

  Refines-auth : (r : AuthRoute) (u : Principal) → Refines t (serve_auth p r u)
  unfolding serve_auth
  Refines-auth post_revoke_all u = search (Refines-done, Refines-quiet, service_rules)
  Refines-auth post_mfa_setup u = search (Refines-done, Refines-quiet, service_rules)
  Refines-auth (post_change_password c n) u = search (Refines-done, Refines-quiet, service_rules)
  Refines-auth (delete_session id) u = search (Refines-done, Refines-quiet, service_rules)
  Refines-auth (post_mfa_verify c) u = search (Refines-done, Refines-quiet, service_rules)
  Refines-auth (post_mfa_regenerate w c) u = search (Refines-done, Refines-quiet, service_rules)
  Refines-auth (post_mfa_disable w c) u = search (Refines-done, Refines-quiet, service_rules)

  Refines-devices : (r : DeviceRoute) (u : Principal) → Refines t (serve_devices p r u)
  unfolding serve_devices
  Refines-devices (patch_trust id) u = search (Refines-done, Refines-quiet, service_rules)
  Refines-devices (patch_untrust id) u = search (Refines-done, Refines-quiet, service_rules)
  Refines-devices (delete_device_sessions id) u =
      search (Refines-done, Refines-quiet, service_rules)

  Refines-accounts : (r : AccountRoute) (u : Principal) → Refines t (serve_accounts p r u)
  unfolding serve_accounts
  Refines-accounts (post_account c) u = search (Refines-done, Refines-create_account)

  Refines-beneficiaries :
      (r : BeneficiaryRoute) (u : Principal) → Refines t (serve_beneficiaries p r u)
  unfolding serve_beneficiaries
  Refines-beneficiaries (post_beneficiary dto) u =
      search (Refines-done, Refines-quiet, service_rules)
  Refines-beneficiaries (delete_beneficiary id) u =
      search (Refines-done, Refines-quiet, service_rules)

  Refines-transactions :
      (r : TransactionRoute) (u : Principal) → Refines t (serve_transactions p r u)
  unfolding serve_transactions
  Refines-transactions (post_transaction dto d k) u = search (Refines-done, Refines-transfer)
  Refines-transactions (post_reverse id r) u = search (Refines-done, Refines-reverse)

  Refines-admin : (r : AdminRoute) (u : Principal) → Refines t (serve_admin p r u)
  unfolding serve_admin
  Refines-admin (patch_role id r) u = search (Refines-done, Refines-quiet, service_rules)
  Refines-admin (patch_status id s) u = search (Refines-done, Refines-quiet, service_rules)

  Refines-alerts : (r : AlertRoute) (u : Principal) → Refines t (serve_alerts p r u)
  unfolding serve_alerts
  Refines-alerts (patch_alert id s) u = search (Refines-done, Refines-quiet, service_rules)

  Refines-soc : (r : SocRoute) (u : Principal) → Refines t (serve_soc p r u)
  unfolding serve_soc
  Refines-soc (patch_soc_alert id s) u = search (Refines-done, Refines-quiet, service_rules)
  Refines-soc (post_note id n) u = search (Refines-done, Refines-quiet, service_rules)
  Refines-soc (post_case id a s) u = search (Refines-done, Refines-quiet, service_rules)
  Refines-soc (patch_case id s) u = search (Refines-done, Refines-quiet, service_rules)

  Refines-events : (r : EventRoute) (u : Principal) → Refines t (serve_events p r u)
  unfolding serve_events
  Refines-events (post_event dto) u = search (Refines-done, Refines-quiet, service_rules)

  Refines-perform : (r : Route) (u : Principal) → Refines t (perform p r u)
  unfolding perform
  Refines-perform (on_auth r) u = Refines-auth r u
  Refines-perform (on_devices r) u = Refines-devices r u
  Refines-perform (on_accounts r) u = Refines-accounts r u
  Refines-perform (on_beneficiaries r) u = Refines-beneficiaries r u
  Refines-perform (on_transactions r) u = Refines-transactions r u
  Refines-perform (on_admin r) u = Refines-admin r u
  Refines-perform (on_alerts r) u = Refines-alerts r u
  Refines-perform (on_soc r) u = Refines-soc r u
  Refines-perform (on_events r) u = Refines-events r u

  Refines-guarded : (header : Option String) (r : Route) → Refines t (guarded p header r)
  unfolding guarded
  Refines-guarded header r =
      search (keeps_rules, Refines-quiet, IsQuiet-auth_guard, IsQuiet-roles_guard, Refines-perform)

  Refines-serve : (r : Request) → Refines t (serve p r)
  unfolding serve
  Refines-serve (visits r) = Refines-visit r
  Refines-serve (calls header r) = Refines-guarded header r

module _ (p : Parts) where
  -- Whatever requests are served, in whatever order and with whatever commits in between, what has
  -- become of the accounts in the end is what the ledger allows: accounts that were opened empty
  -- under new ids, and payments out of accounts that held the amount. The account ids have to be
  -- unique at first.
  pub Run-Ledger : {d e : Db} → Run p d e → IsKeyed d.accounts → Ledger d.accounts e.accounts
  Run-Ledger here keyed = kept
  Run-Ledger {d} (then w run others r) keyed =
      ((Refines-serve p d.accounts keyed r).at w (record {
        here = Run-Ledger run keyed;
        to_come = λ n x l. Ledger-trans l (Run-Ledger (others n x) (Ledger-IsKeyed l keyed));
      })).here

  -- Whatever requests are served, in whatever order and with whatever commits in between, if at
  -- first no two accounts have one id, no balance is below zero and all balances are m together,
  -- then so it is in the end: no request makes money, loses any, or overdraws an account.
  pub Run-IsSound : (m : ℤ) {d e : Db} → Run p d e → IsSound m d.accounts → IsSound m e.accounts
  Run-IsSound m run s = Ledger-IsSound m (Run-Ledger run s.keyed) s
