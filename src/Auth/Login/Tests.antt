-- ===== src/Auth/Login/Tests.antt =====
-- Logins, second factors and the sessions of one device of a sample user.
use bankproject.Base.{
  ℕ, ◌≡◌, refl, arith, true, false, none, some, [], ◌∷◌, count_where, update_where, Memᴰ,
}
use bankproject.Text.{trim, to_lower, to_upper, drop_dashes}
use bankproject.Model.{RefreshToken, User, LoginAttempt, MfaRecoveryCode, customer, active}
use bankproject.Prisma.Listed.{listed}
use bankproject.Handler.{World, ok, err, unauthorized}
use bankproject.Store.{create_audit_log, create_security_event, create_login_attempt, attempt_row}
use bankproject.Devices.{register_device, new_device}
use bankproject.Auth.Tables.{revoked, update_user, revoke_tokens, create_refresh_row}
use bankproject.Auth.Sessions.{is_live_device, revoke_device, create_refresh_token, issue_session}
use bankproject.Auth.Mfa.{consume_recovery_code, spend_code, verify_user_code}
use bankproject.Auth.Mfa.Disable.{
  IsProven, IsCleared, check_disable, clear_mfa, disable, disable-IsCleared,
}
use bankproject.Auth.Sessions.Device.{create_refresh_token_alone}
use bankproject.Auth.Mfa.Once.{consume_once}
use bankproject.Auth.Login.{
  LoginReply, signed_in, login, answer_login, note_device, attempt_data, mfa_claims,
}
use bankproject.Auth.Login.SecondStep.{
  verify_mfa_challenge, get_mfa_user, verify_mfa_login, answer_code, verify_mfa_recovery_login,
  answer_recovery_code,
}
use bankproject.Auth.Login.SecondStep.Confirmed.{
  IsChallenged, later, verify_mfa_login-IsChallenged, verify_mfa_recovery_login-IsChallenged,
}
use bankproject.Auth.Login.Lockout.{login_locks, email_of}
use bankproject.Auth.Login.Entry.{Answers, login-Answers}
use bankproject.Auth.{Crypto}
use bankproject.Auth.Sample.{person, people, at_work, clear, credentials}

ran : Unit {0}
unfolding verify_user_code verify_mfa_challenge get_mfa_user verify_mfa_login answer_code
    verify_mfa_recovery_login answer_recovery_code trim to_lower to_upper drop_dashes
    create_audit_log create_security_event create_login_attempt register_device update_user
    revoke_tokens create_refresh_row revoke_device create_refresh_token issue_session
    consume_recovery_code spend_code check_disable clear_mfa disable login answer_login note_device
ran = tt

abbrev home : World
home = at_work people

abbrev code : MfaRecoveryCode
code = record { id = 1; code_hash = "AB"; user_id = 1; used_at = none; created_at = 0 }

consume_once_example :
    (code.user_id ≡ 1)
    × (code.used_at ≡ none)
    × (consume_recovery_code listed clear 2 "a-b"
          (consume_recovery_code listed clear 1 "a-b" home).1
        ≡ (ok false, (consume_recovery_code listed clear 1 "a-b" home).1))
unfolding ran
consume_once_example =
    consume_once listed clear "a-b" home (consume_recovery_code listed clear 1 "a-b" home).1 2
      {stored = code} refl refl ((λ h. refl), tt) refl

abbrev answer : LoginReply
answer = signed_in (record {
  tokens = record { access_token = "signed"; refresh_token = "r" };
  device = some (record { device = new_device 1 "phone" none 1000000 1; is_new_device = true });
  user = person 1 "ann@b" customer active;
})

login-Answers_example :
    (user : User) × Memᴰ user people.users
    × (user.email ≡ email_of (credentials "pw"))
    × (user.status ≡ active)
    × (clear.compare "pw" user.password_hash ≡ true)
    × Answers clear user "phone" answer
unfolding ran
login-Answers_example = login-Answers listed clear (credentials "pw") "phone" none none home refl

abbrev once : ℕ → LoginAttempt
once id = attempt_row (attempt_data false (some "phone") none (some 1)) 900000 id

-- Four failures of the sample user a little before.
abbrev failing : World
failing = at_work (record people { login_attempts = once 4 ∷ once 3 ∷ once 2 ∷ once 1 ∷ [] })

login_locks_example :
    ((login listed clear (credentials "bad") "phone" none none failing).0
      ≡ err (unauthorized "Account locked because of repeated failed login attempts"))
    × (login listed clear
          (credentials "pw")
          "phone"
          none
          none
          (login listed clear (credentials "bad") "phone" none none failing).1
        ≡ (
          err (unauthorized "Account is locked"),
          (login listed clear (credentials "bad") "phone" none none failing).1,
        ))
unfolding ran
login_locks_example =
    login_locks listed clear (credentials "bad") "phone" none none failing
      {user = person 1 "ann@b" customer active} refl refl refl (omega arith)
      ((λ h. refl), ((λ h. cc), tt))
      (login listed clear (credentials "bad") "phone" none none failing).1 (credentials "pw")
      "phone" none none refl refl

-- The sample user with the second factor.
abbrev guarded : World
guarded = at_work (record people {
  users =
      record (person 1 "ann@b" customer active) {
        mfa_enabled = true;
        mfa_secret_encrypted = some "s";
      }
      ∷ [];
})

disable-IsCleared_example :
    IsProven listed clear (λ at secret code. some true) 1 "pw" "123456" (guarded.clock 0) guarded.db
    × IsCleared 1 guarded.db
        (disable listed clear (λ at secret code. some true) 1 "pw" "123456" guarded).1.db
unfolding ran
disable-IsCleared_example =
    disable-IsCleared listed clear (λ at secret code. some true) 1 "pw" "123456" guarded refl

create_refresh_token_alone_example :
    ("r" ≡ home.random 0)
    × (count_where
          (is_live_device 1 "phone")
          (create_refresh_token listed clear 1 (some "phone") home).1.db.refresh_tokens
        ≡ 1)
    × (added : RefreshToken) × (added.token_hash ≡ clear.digest "r")
    × ((create_refresh_token listed clear 1 (some "phone") home).1.db.refresh_tokens
        ≡ added
          ∷ update_where (is_live_device 1 "phone") (revoked (home.clock 1)) people.refresh_tokens)
unfolding ran
create_refresh_token_alone_example =
    create_refresh_token_alone listed clear 1 "phone" home refl refl

-- The challenge of the guarded user verifies.
abbrev challenging : Crypto
challenging = record clear {
  verify = λ at token. some (
      mfa_claims
        (record (person 1 "ann@b" customer active) {
          mfa_enabled = true;
          mfa_secret_encrypted = some "s";
        })
        "phone");
}

verify_mfa_login-IsChallenged_example :
    (user : User) × IsChallenged challenging "c" (guarded.clock 0) guarded.db user
    × ((verify_user_code listed challenging
          (λ at secret code. some true)
          user.id
          "123456"
          (later listed challenging "c" guarded)).0
        ≡ ok true)
unfolding ran
verify_mfa_login-IsChallenged_example =
    verify_mfa_login-IsChallenged listed challenging "c" guarded (λ at secret code. some true)
      "123456" none refl

verify_mfa_recovery_login-IsChallenged_example :
    (user : User) × IsChallenged challenging "c" (guarded.clock 0) guarded.db user
    × ((consume_recovery_code listed challenging user.id "a-b"
          (later listed challenging "c" guarded)).0
        ≡ ok true)
unfolding ran
verify_mfa_recovery_login-IsChallenged_example =
    verify_mfa_recovery_login-IsChallenged listed challenging "c" guarded "a-b" none refl
