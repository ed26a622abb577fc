-- ===== src/Auth/Tests.antt =====
-- Sessions, passwords and tokens of a sample user.
use bankproject.Base.{ℕ, ◌≡◌, refl, arith, true, some, count_where, update_where, Memᴰ}
use text.Mathlib.TextEquality.{eq_iff}
use bankproject.Text.{trim, to_lower, words}
use bankproject.Model.{User, PasswordResetToken, customer, active}
use bankproject.Prisma.Listed.{listed}
use bankproject.Handler.{World, ok, err, Error, unauthorized}
use bankproject.Store.{create_audit_log, create_security_event}
use bankproject.Auth.Tables.{
  is_live_of, update_user, revoke_tokens, create_refresh_row, use_reset_tokens,
}
use bankproject.Auth.Sessions.{check_refresh, rotate, refresh, revoke_all_sessions, access_claims}
use bankproject.Auth.Sessions.Rotation.Once.{refresh_once}
use bankproject.Auth.Sessions.Revocation.{IsCutOff, revoke_all_sessions-IsCutOff}
use bankproject.Auth.Password.{
  store_password, change_password, check_reset, consume_reset, reset_password, is_usable, used,
}
use bankproject.Auth.Password.Cutoff.{IsRenewed, change_password-IsRenewed}
use bankproject.Auth.Password.Reset.{IsResettable, reset_password-IsRenewed}
use bankproject.Auth.Guards.{extract_token, auth_guard}
use bankproject.Auth.Guards.Access.{IsAuthentic, auth_guard-IsAuthentic, auth_guard_refuses}
use bankproject.Auth.Sample.{person, session, people, at_work, clear}

ran : Unit {0}
unfolding trim to_lower words create_audit_log create_security_event update_user revoke_tokens
    create_refresh_row use_reset_tokens check_refresh rotate refresh revoke_all_sessions
    store_password change_password check_reset consume_reset reset_password extract_token auth_guard
ran = tt

abbrev home : World
home = at_work people

abbrev rotated : World
rotated = (refresh listed clear "t1" home).1

abbrev cut_off : World
cut_off = (revoke_all_sessions listed clear 1 home).1

run_refresh :
    (refresh listed clear "t1" home).0
    ≡ ok (record { access_token = "signed"; refresh_token = "r" })
unfolding ran
run_refresh = refl

run_revoked : (revoke_all_sessions listed clear 1 home).0 ≡ ok 1
unfolding ran
run_revoked = refl

run_entry :
    (auth_guard listed clear (some "Bearer signed") home).0
    ≡ ok (record { sub = 1; email = "ann@b"; role = customer })
unfolding ran
run_entry = refl

run_kept_out :
    (auth_guard listed clear (some "Bearer signed") cut_off).0
    ≡ err (unauthorized "Session has been revoked")
unfolding ran
run_kept_out = refl

refresh_once_example :
    (e : Error) × ((refresh listed clear "t1" rotated).0 ≡ err e)
    × ((refresh listed clear "t1" rotated).1.db ≡ rotated.db)
unfolding ran
refresh_once_example =
    refresh_once listed clear "t1" home rotated {stored = session} refl refl ((λ h. refl), tt)
      (λ h. cc ((eq_iff "r" "t1").1 h)) refl

revoke_all_sessions-IsCutOff_example :
    (1 ≡ count_where (is_live_of 1) people.refresh_tokens) × IsCutOff 1 4 cut_off.db
unfolding ran
revoke_all_sessions-IsCutOff_example =
    revoke_all_sessions-IsCutOff listed clear 1 4 home refl
      ((λ h. omega arith), ((λ h. omega arith), tt))

change_password-IsRenewed_example :
    ((user : User) × Memᴰ user people.users
      × (user.id ≡ 1)
      × (clear.compare "pw" user.password_hash ≡ true))
    × IsRenewed clear 1 4 "new" (change_password listed clear 1 "pw" "new" home).1.db
unfolding ran
change_password-IsRenewed_example =
    change_password-IsRenewed listed clear 1 4 "pw" "new" home refl
      ((λ h. omega arith), ((λ h. omega arith), tt))

reset_password-IsRenewed_example :
    (stored : PasswordResetToken) × (at : ℕ) × IsResettable clear " reset"
      (home.clock 0)
      people
      stored
    × (count_where (is_usable stored.id at) people.reset_tokens ≡ 1)
    × ((reset_password listed clear " reset" "new" home).1.db.reset_tokens
        ≡ update_where (is_usable stored.id at) (used at) people.reset_tokens)
    × IsRenewed clear stored.user_id 4 "new" (reset_password listed clear " reset" "new" home).1.db
unfolding ran
reset_password-IsRenewed_example =
    reset_password-IsRenewed listed clear " reset" "new" 4 home refl
      (λ id. ((λ h. omega arith), ((λ h. omega arith), tt)))

auth_guard-IsAuthentic_example :
    IsAuthentic clear
      (some "Bearer signed")
      (home.clock 0)
      people
      (record { sub = 1; email = "ann@b"; role = customer })
unfolding ran
auth_guard-IsAuthentic_example =
    auth_guard-IsAuthentic listed clear (some "Bearer signed") home refl

sample-IsCutOff : IsCutOff 1 4 cut_off.db
unfolding ran
sample-IsCutOff = record {
  none_live = refl;
  passed = ((λ h. omega arith), ((λ h. omega arith), tt));
}

auth_guard_refuses_example :
    (e : Error) × ((auth_guard listed clear (some "Bearer signed") cut_off).0 ≡ err e)
    × ((auth_guard listed clear (some "Bearer signed") cut_off).1.db ≡ cut_off.db)
unfolding ran
auth_guard_refuses_example =
    auth_guard_refuses listed clear (some "Bearer signed") cut_off {token = "signed"}
      {claims = access_claims (person 1 "ann@b" customer active)} {version = 4} refl refl refl refl
      (omega arith) sample-IsCutOff
