-- ===== src/Users.antt =====
-- backend/src/users/users.service.ts, and `updateUserStatus` of backend/src/admin/admin.service.ts.
-- `findById` and `findAll` are in Users.Listing.
pub mod Roles
pub mod Listing
mod Tests
use bankproject.Base.{
  ℕ, String, Bool, true, false, ◌&&◌, ◌||◌, not, Option, none, some, [], ◌∷◌, ◌==◌, if◌then◌else◌,
}
use bankproject.Model.{
  Db, User, UserRole, role_eq, customer, bank_employee, fraud_analyst, security_analyst, admin,
  UserStatus, active, locked, suspended, user_status_eq, low, medium, high, numbered, number, text,
  user_status_of, plain, json,
}
use bankproject.Prisma.{Prisma}
use bankproject.Handler.{
  branch, on_option, Handler, ◌>>=◌, ◌>>◌, gets, now, require, throw_if, pure, transaction,
  not_found, bad_request,
}
use bankproject.Store.{create_audit_log, create_security_event}
use bankproject.Auth.Tables.{has_uid, is_live_of, bump, update_user, revoke_tokens}

abbrev pub role_text : UserRole → String
role_text customer = "CUSTOMER"
role_text bank_employee = "BANK_EMPLOYEE"
role_text fraud_analyst = "FRAUD_ANALYST"
role_text security_analyst = "SECURITY_ANALYST"
role_text admin = "ADMIN"

abbrev pub user_status_text : UserStatus → String
user_status_text active = "ACTIVE"
user_status_text locked = "LOCKED"
user_status_text suspended = "SUSPENDED"

-- `${start}${old} to ${new}`
abbrev pub from_to : String → String → String → String
from_to start old new =
    Prim.Native.String.◌++◌ start (Prim.Native.String.◌++◌ old (Prim.Native.String.◌++◌ " to " new))

abbrev pub with_role : UserRole → User → User
with_role role u = bump (record u { role = role })

abbrev pub with_status : UserStatus → User → User
with_status status u = bump (record u { status = status })

module _ (pg : Prisma) where
  -- The body of the transaction of `updateRole`.
  unfoldable pub store_role : ℕ → ℕ → UserRole → UserRole → Handler User
  store_role admin_id target_id old role = do
    user ← update_user pg target_id (with_role role)
    l ← create_audit_log pg (record {
      user_id = some admin_id;
      action = "USER_ROLE_CHANGED";
      resource = some (numbered "USER" target_id);
      outcome = some "SUCCESS";
      details = some (plain (from_to "Role changed from " (role_text old) (role_text role)));
    })
    e ← create_security_event pg (record {
      event_type = "USER_ROLE_CHANGED";
      description = from_to "User role changed from " (role_text old) (role_text role);
      risk_level = medium;
      user_id = some target_id;
    })
    pure user

  unfoldable pub update_role : ℕ → ℕ → UserRole → Handler User
  update_role admin_id target_id role = do
    found ← gets (λ d. pg.find (has_uid target_id) d.users)
    target ← require found (not_found "User not found")
    throw_if (admin_id == target_id && not (role_eq role admin))
        (bad_request "You cannot remove your own admin role")
    throw_if (role_eq target.role role) (bad_request "User already has this role")
    transaction (store_role admin_id target_id target.role role)

  -- A user who is locked or suspended is signed out everywhere.
  unfoldable pub sign_out : ℕ → UserStatus → Handler (Unit {0})
  sign_out target_id status =
      branch (user_status_eq status locked || user_status_eq status suspended)
        (do at ← now; n ← revoke_tokens pg (is_live_of target_id) at; pure tt) (pure tt)

  -- The body of the transaction of `updateStatus`.
  unfoldable pub store_status : ℕ → ℕ → UserStatus → UserStatus → Handler User
  store_status admin_id target_id old status = do
    user ← update_user pg target_id (with_status status)
    sign_out target_id status
    l ← create_audit_log pg (record {
      user_id = some admin_id;
      action = "USER_STATUS_CHANGED";
      resource = some (numbered "USER" target_id);
      outcome = some "SUCCESS";
      details =
          some (
            plain
              (from_to "Status changed from " (user_status_text old) (user_status_text status)));
    })
    e ← create_security_event pg (record {
      event_type = "USER_STATUS_CHANGED";
      description =
          from_to "User status changed from " (user_status_text old) (user_status_text status);
      risk_level = if user_status_eq status active then low else high;
      user_id = some target_id;
    })
    pure user

  unfoldable pub update_status : ℕ → ℕ → UserStatus → Handler User
  update_status admin_id target_id status = do
    found ← gets (λ d. pg.find (has_uid target_id) d.users)
    target ← require found (not_found "User not found")
    throw_if (admin_id == target_id && not (user_status_eq status active))
        (bad_request "You cannot lock or suspend your own account")
    throw_if (user_status_eq target.status status) (bad_request "User already has this status")
    transaction (store_status admin_id target_id target.status status)

  -- The administration's own change of a status: no transaction, and the sessions stay.
  unfoldable pub update_user_status : ℕ → UserStatus → ℕ → Handler User
  update_user_status target_id status admin_id = do
    throw_if (target_id == admin_id) (bad_request "You cannot change your own account status")
    found ← gets (λ d. pg.find (has_uid target_id) d.users)
    target ← require found (not_found "User not found")
    user ← update_user pg target_id (λ u. record u { status = status })
    l ← create_audit_log pg (record {
      user_id = some admin_id;
      action = "USER_STATUS_CHANGED";
      resource = some (numbered "User" target_id);
      outcome = some "SUCCESS";
      details = some (
          json (
            ("targetUserId", number target_id)
            ∷ ("email", text target.email)
            ∷ ("previousStatus", user_status_of target.status)
            ∷ ("newStatus", user_status_of status)
            ∷ []));
    })
    pure user
