-- ===== src/System/Routes.antt =====
-- The routes of the controllers that change something, backend/src/*/*.controller.ts, each with
-- the guards before it. The routes that only read are left out.
use bankproject.Base.{ℕ, String, true, false, not, Option, none, some, List, [], ◌∷◌}
use bankproject.Text.{is_truthy}
use bankproject.Model.{
  UserRole, customer, bank_employee, fraud_analyst, security_analyst, admin, UserStatus,
  AlertStatus,
}
use bankproject.Prisma.{Prisma}
use bankproject.Handler.{Handler, ◌>>=◌, ◌>>◌, pure, throw, throw_if, bad_request}
use bankproject.Fraud.{FraudEngine}
use bankproject.Devices.{set_trust, revoke_device_sessions}
use bankproject.Auth.{Crypto, Totp}
use bankproject.Auth.Guards.{Principal, auth_guard, roles_guard}
use bankproject.Auth.Sessions.{refresh, logout, revoke_session, revoke_all_sessions}
use bankproject.Auth.Password.{change_password, forgot_password, reset_password}
use bankproject.Auth.Mfa.Disable.{disable}
use bankproject.Auth.Mfa.Setup.{Seal, setup, verify_setup, regenerate_recovery_codes}
use bankproject.Auth.Login.{RegisterDto, LoginDto, register, login}
use bankproject.Auth.Login.SecondStep.{verify_mfa_login, verify_mfa_recovery_login}
use bankproject.Users.{update_role, update_status}
use bankproject.Accounts.{create_account}
use bankproject.Beneficiaries.{CreateBeneficiaryDto, create_beneficiary, remove_beneficiary}
use bankproject.Transactions.{CreateTransferDto, Platform}
use bankproject.Transactions.Transfer.{post_transfer}
use bankproject.Transactions.Reversal.{reverse}
use bankproject.FraudAlerts.{update_alert_status}
use bankproject.Soc.{create_case, update_case_status}
use bankproject.Soc.Notes.{add_note, set_alert_status}
use bankproject.SecurityEvents.{CreateSecurityEventDto, create_event}

-- What the services are built over; `draws` bounds the draws of an account number.
pub record Parts : Type 1 where
  pub pg : Prisma
  pub crypto : Crypto
  pub totp : Totp
  pub seal : Seal
  pub platform : Platform
  pub engine : FraudEngine
  pub draws : ℕ

-- The routes that need no token.
pub data PublicRoute : Type 0 where
  post_register : RegisterDto → PublicRoute
  post_login : LoginDto → (device agent ip : Option String) → PublicRoute
  post_mfa_login : (token code : String) → (ip : Option String) → PublicRoute
  post_recovery_login : (token code : String) → (ip : Option String) → PublicRoute
  post_refresh : (token : String) → PublicRoute
  post_logout : (token : String) → PublicRoute
  post_forgot_password : (email : String) → PublicRoute
  post_reset_password : (token new : String) → PublicRoute

-- The routes of auth.controller.ts behind `AuthGuard`.
pub data AuthRoute : Type 0 where
  post_revoke_all post_mfa_setup : AuthRoute
  post_change_password : (current new : String) → AuthRoute
  delete_session : (id : ℕ) → AuthRoute
  post_mfa_verify : (code : String) → AuthRoute
  post_mfa_regenerate post_mfa_disable : (password code : String) → AuthRoute

pub data DeviceRoute : Type 0 where
  patch_trust patch_untrust delete_device_sessions : (id : ℕ) → DeviceRoute

pub data AccountRoute : Type 0 where
  post_account : (currency : String) → AccountRoute

pub data BeneficiaryRoute : Type 0 where
  post_beneficiary : CreateBeneficiaryDto → BeneficiaryRoute
  delete_beneficiary : (id : ℕ) → BeneficiaryRoute

pub data TransactionRoute : Type 0 where
  post_transaction : CreateTransferDto → (device key : Option String) → TransactionRoute
  post_reverse : (id : ℕ) → (reason : String) → TransactionRoute

pub data AdminRoute : Type 0 where
  patch_role : (id : ℕ) → UserRole → AdminRoute
  patch_status : (id : ℕ) → UserStatus → AdminRoute

pub data AlertRoute : Type 0 where
  patch_alert : (id : ℕ) → AlertStatus → AlertRoute

pub data SocRoute : Type 0 where
  patch_soc_alert : (id : ℕ) → AlertStatus → SocRoute
  post_note : (id : ℕ) → (note : String) → SocRoute
  post_case : (alert_id : ℕ) → (analyst summary : String) → SocRoute
  patch_case : (id : ℕ) → AlertStatus → SocRoute

pub data EventRoute : Type 0 where
  post_event : CreateSecurityEventDto → EventRoute

-- The routes behind `AuthGuard`, by controller.
pub data Route : Type 0 where
  on_auth : AuthRoute → Route
  on_devices : DeviceRoute → Route
  on_accounts : AccountRoute → Route
  on_beneficiaries : BeneficiaryRoute → Route
  on_transactions : TransactionRoute → Route
  on_admin : AdminRoute → Route
  on_alerts : AlertRoute → Route
  on_soc : SocRoute → Route
  on_events : EventRoute → Route

-- The `@Roles` of the controllers: none where `RolesGuard` does not stand before the route.
abbrev pub required_roles : Route → Option (List UserRole)
required_roles (on_auth route) = none
required_roles (on_devices route) = none
required_roles (on_accounts route) = some (customer ∷ bank_employee ∷ [])
required_roles (on_beneficiaries route) = some (customer ∷ bank_employee ∷ [])
required_roles (on_transactions route) = some (customer ∷ bank_employee ∷ [])
required_roles (on_admin route) = some (admin ∷ [])
required_roles (on_alerts route) = some (fraud_analyst ∷ security_analyst ∷ admin ∷ [])
required_roles (on_soc route) = some (fraud_analyst ∷ security_analyst ∷ admin ∷ [])
required_roles (on_events route) = some (security_analyst ∷ admin ∷ [])

-- The reply of a route is left out.
abbrev pub done : {A : Type 0} → Handler A → Handler (Unit {0})
done m = m >> pure tt

module _ (p : Parts) where
  -- `login` of the controller: the device has to be named.
  unfoldable pub login_on :
      LoginDto → Option String → Option String → Option String → Handler (Unit {0})
  login_on dto none agent ip = throw (bad_request "X-Device-ID header is required")
  login_on dto (some device) agent ip = do
    throw_if (not (is_truthy device)) (bad_request "X-Device-ID header is required")
    done (login p.pg p.crypto dto device agent ip)

  unfoldable pub visit : PublicRoute → Handler (Unit {0})
  visit (post_register dto) = done (register p.pg p.crypto dto)
  visit (post_login dto device agent ip) = login_on dto device agent ip
  visit (post_mfa_login token code ip) = done (verify_mfa_login p.pg p.crypto p.totp token code ip)
  visit (post_recovery_login token code ip) =
      done (verify_mfa_recovery_login p.pg p.crypto token code ip)
  visit (post_refresh token) = done (refresh p.pg p.crypto token)
  visit (post_logout token) = done (logout p.pg p.crypto token)
  visit (post_forgot_password email) = done (forgot_password p.pg p.crypto email)
  visit (post_reset_password token new) = done (reset_password p.pg p.crypto token new)

  unfoldable pub serve_auth : AuthRoute → Principal → Handler (Unit {0})
  serve_auth post_revoke_all user = done (revoke_all_sessions p.pg p.crypto user.sub)
  serve_auth post_mfa_setup user = done (setup p.pg p.seal user.sub)
  serve_auth (post_change_password current new) user =
      done (change_password p.pg p.crypto user.sub current new)
  serve_auth (delete_session id) user = done (revoke_session p.pg p.crypto user.sub id)
  serve_auth (post_mfa_verify code) user = done (verify_setup p.pg p.crypto p.totp user.sub code)
  serve_auth (post_mfa_regenerate password code) user =
      done (regenerate_recovery_codes p.pg p.crypto p.totp user.sub password code)
  serve_auth (post_mfa_disable password code) user =
      done (disable p.pg p.crypto p.totp user.sub password code)

  unfoldable pub serve_devices : DeviceRoute → Principal → Handler (Unit {0})
  serve_devices (patch_trust id) user = done (set_trust p.pg user.sub id true)
  serve_devices (patch_untrust id) user = done (set_trust p.pg user.sub id false)
  serve_devices (delete_device_sessions id) user = done (revoke_device_sessions p.pg user.sub id)

  unfoldable pub serve_accounts : AccountRoute → Principal → Handler (Unit {0})
  serve_accounts (post_account currency) user = done (create_account p.pg p.draws user.sub currency)

  unfoldable pub serve_beneficiaries : BeneficiaryRoute → Principal → Handler (Unit {0})
  serve_beneficiaries (post_beneficiary dto) user = done (create_beneficiary p.pg user.sub dto)
  serve_beneficiaries (delete_beneficiary id) user = done (remove_beneficiary p.pg user.sub id)

  unfoldable pub serve_transactions : TransactionRoute → Principal → Handler (Unit {0})
  serve_transactions (post_transaction dto device key) user =
      done (post_transfer p.pg p.platform p.engine user.sub dto device key)
  serve_transactions (post_reverse id reason) user = done (reverse p.pg user.sub id reason)

  unfoldable pub serve_admin : AdminRoute → Principal → Handler (Unit {0})
  serve_admin (patch_role id role) user = done (update_role p.pg user.sub id role)
  serve_admin (patch_status id status) user = done (update_status p.pg user.sub id status)

  unfoldable pub serve_alerts : AlertRoute → Principal → Handler (Unit {0})
  serve_alerts (patch_alert id status) user = done (update_alert_status p.pg id status user.sub)

  unfoldable pub serve_soc : SocRoute → Principal → Handler (Unit {0})
  serve_soc (patch_soc_alert id status) user = done (set_alert_status p.pg id status user.sub)
  serve_soc (post_note id note) user = done (add_note p.pg id note user.sub)
  serve_soc (post_case id analyst summary) user =
      done (create_case p.pg id analyst summary user.sub)
  serve_soc (patch_case id status) user = done (update_case_status p.pg id status user.sub)

  unfoldable pub serve_events : EventRoute → Principal → Handler (Unit {0})
  serve_events (post_event dto) user = done (create_event p.pg dto user.sub)

  unfoldable pub perform : Route → Principal → Handler (Unit {0})
  perform (on_auth route) user = serve_auth route user
  perform (on_devices route) user = serve_devices route user
  perform (on_accounts route) user = serve_accounts route user
  perform (on_beneficiaries route) user = serve_beneficiaries route user
  perform (on_transactions route) user = serve_transactions route user
  perform (on_admin route) user = serve_admin route user
  perform (on_alerts route) user = serve_alerts route user
  perform (on_soc route) user = serve_soc route user
  perform (on_events route) user = serve_events route user

  -- The guards, then the route.
  unfoldable pub guarded : Option String → Route → Handler (Unit {0})
  guarded header route = do
    user ← auth_guard p.pg p.crypto header
    roles_guard (required_roles route) (some user)
    perform route user

pub data Request : Type 0 where
  visits : PublicRoute → Request
  -- with the `Authorization` header
  calls : Option String → Route → Request

unfoldable pub serve : Parts → Request → Handler (Unit {0})
serve p (visits route) = visit p route
serve p (calls header route) = guarded p header route
