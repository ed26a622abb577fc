-- ===== src/Users/Tests.antt =====
-- Changes of roles and states at the sample users.
use bankproject.Base.{ℕ, ◌≡◌, ◌≢◌, refl, arith}
use bankproject.Model.{customer, locked, suspended}
use bankproject.Prisma.Listed.{listed}
use bankproject.Handler.{err, bad_request}
use bankproject.Store.{create_audit_log, create_security_event}
use bankproject.Auth.Tables.{update_user, revoke_tokens}
use bankproject.Auth.Sessions.Revocation.{IsCutOff}
use bankproject.Auth.Sample.{people, at_work}
use bankproject.Users.{
  store_role, update_role, sign_out, store_status, update_status, update_user_status,
}
use bankproject.Users.Roles.{update_status-IsCutOff}

abbrev chief : ℕ
chief = 2

ran : Unit {0}
unfolding create_audit_log create_security_event update_user revoke_tokens store_role update_role
    sign_out store_status update_status update_user_status
ran = tt

run_own_role :
    (update_role listed 2 2 customer (at_work people)).0
    ≡ err (bad_request "You cannot remove your own admin role")
unfolding ran
run_own_role = refl

-- The administration's own change leaves the session and the token version.
run_administration :
    (update_user_status listed 1 locked 2 (at_work people)).1.db.refresh_tokens
    ≡ people.refresh_tokens
unfolding ran
run_administration = refl

update_status-IsCutOff_example :
    (chief ≢ 1) × IsCutOff 1 4 (update_status listed 2 1 suspended (at_work people)).1.db
unfolding ran
update_status-IsCutOff_example =
    update_status-IsCutOff listed chief 1 suspended 4 (at_work people) refl refl
      ((λ h. omega arith), ((λ h. omega arith), tt))
