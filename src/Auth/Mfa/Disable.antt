-- ===== src/Auth/Mfa/Disable.antt =====
-- `disable` of backend/src/auth/mfa.service.ts: the second factor is taken off an account.
use bankproject.Base.{
  ℕ, suc, ◌≡◌, ◌∙◌, refl, sym, ap, String, Bool, true, false, none, some, List, [], ◌∷◌, Memᴰ,
  arith, if◌then◌else◌, count_where, filter_where, update_where, ◌==◌, Option-cases, Bool-cases,
  inl, inr,
}
use bankproject.Model.{Db, User, MfaRecoveryCode, medium}
use bankproject.Prisma.{Prisma}
use bankproject.Handler.{
  branch, Handler, World, ok, begin, ◌>>=◌, ◌>>◌, gets, now, run, require, throw, pure, transaction,
  internal, not_found, bad_request, unauthorized,
}
use bankproject.Handler.Laws.{commit-ok, commit-result, bind-ok, bind-eq}
use bankproject.Store.{create_audit_log, create_security_event}
use bankproject.Store.Effects.{create_audit_log_lem, create_security_event_lem, noted}
use bankproject.Auth.{Crypto, Totp}
use bankproject.Auth.Tables.{has_uid, is_live_of, revoked, update_user, revoke_tokens}
use bankproject.Auth.Sessions.Revocation.{none_live_of}
use bankproject.Auth.Password.{auth_audit, auth_event}
use bankproject.Auth.Mfa.{secret_of}

abbrev pub without_mfa : User → User
without_mfa u = record u {
  mfa_enabled = false;
  mfa_secret_encrypted = none;
  mfa_verified_at = none;
}

abbrev pub is_code_of : ℕ → MfaRecoveryCode → Bool
is_code_of user_id c = c.user_id == user_id

module _ (pg : Prisma) where
  -- A wrong password and a wrong code are noted and refused alike.
  unfoldable pub disable_failed : {A : Type 0} → ℕ → Handler A
  disable_failed user_id = do
    e ← create_security_event pg (
        auth_event user_id "MFA_DISABLE_FAILED"
          "Failed attempt to disable multi-factor authentication" medium)
    throw (unauthorized "Invalid password or MFA code")

  unfoldable pub check_disable : Crypto → Totp → ℕ → String → String → Handler User
  unfolding disable_failed
  check_disable crypto totp user_id password code = do
    found ← gets (λ d. pg.find (has_uid user_id) d.users)
    user ← require found (not_found "User not found")
    secret ← require (secret_of (some user)) (bad_request "MFA is not enabled")
    branch (crypto.compare password user.password_hash)
        (do
          at ← now
          valid ← require (totp at secret code) (internal "Unable to decrypt MFA secret")
          branch valid (pure user) (disable_failed user_id))
        (disable_failed user_id)

  -- The body of the transaction.
  unfoldable pub clear_mfa : ℕ → ℕ → Handler (Unit {0})
  clear_mfa user_id at = do
    u ← update_user pg user_id without_mfa
    run (λ d.
        (tt, record d { recovery_codes = pg.delete_many (is_code_of user_id) d.recovery_codes }))
    n ← revoke_tokens pg (is_live_of user_id) at
    e ← create_security_event pg (
        auth_event user_id "MFA_DISABLED"
          "Multi-factor authentication was disabled and active refresh sessions were revoked"
          medium)
    l ← create_audit_log pg (
        auth_audit user_id "MFA_DISABLED"
          "User disabled MFA. Recovery codes were deleted and active refresh tokens were revoked.")
    pure tt

  unfoldable pub disable : Crypto → Totp → ℕ → String → String → Handler (Unit {0})
  disable crypto totp user_id password code = do
    user ← check_disable crypto totp user_id password code
    at ← now
    transaction (clear_mfa user_id at)

pub no_codes_left :
    (user_id : ℕ) (t : List MfaRecoveryCode)
    → count_where
        (is_code_of user_id)
        (filter_where (λ c. if is_code_of user_id c then false else true) t)
      ≡ 0
no_codes_left user_id [] = refl
no_codes_left user_id (c ∷ t) = ground (arith, no_codes_left user_id t)

-- What the second factor leaves behind: nothing of its own, and no live session.
pub record IsCleared (user_id : ℕ) (before after : Db) : Type 0 where
  pub users : after.users ≡ update_where (has_uid user_id) without_mfa before.users
  pub no_codes : count_where (is_code_of user_id) after.recovery_codes ≡ 0
  pub none_live : count_where (is_live_of user_id) after.refresh_tokens ≡ 0

module _ (pg : Prisma) where
  clear_mfa-IsCleared :
      (user_id at : ℕ) (w : World)
      → (clear_mfa pg user_id at w).0 ≡ ok tt
      → IsCleared user_id w.db (clear_mfa pg user_id at w).1.db
  unfolding clear_mfa update_user revoke_tokens
  clear_mfa-IsCleared user_id at w e =
      let one = pg.update_lem (has_uid user_id) without_mfa w.db.users in
      let gone = pg.delete_many_lem (is_code_of user_id) w.db.recovery_codes in
      let many = pg.update_many_lem (is_live_of user_id) (revoked at) w.db.refresh_tokens in
      let zero = no_codes_left user_id w.db.recovery_codes in
      let none = none_live_of user_id at w.db.refresh_tokens in
      let v = record w {
        db = record w.db {
          users = update_where (has_uid user_id) without_mfa w.db.users;
          recovery_codes =
              filter_where (λ c. if is_code_of user_id c then false else true) w.db.recovery_codes;
          refresh_tokens = update_where (is_live_of user_id) (revoked at) w.db.refresh_tokens;
        };
      } in
      let event =
        auth_event user_id "MFA_DISABLED"
          "Multi-factor authentication was disabled and active refresh sessions were revoked"
          medium in
      let n = create_security_event_lem pg event v in
      let l =
        create_audit_log_lem pg
          (auth_audit user_id "MFA_DISABLED"
            "User disabled MFA. Recovery codes were deleted and active refresh tokens were revoked.")
          (noted pg event v) in
      elim (Option-cases (pg.find (has_uid user_id) w.db.users)) [
        | inl missing ↦ absurd (ground (arith, one, missing))
        | inr (u, found) ↦ record {
          users = ground (arith, one, gone, many, found, n, l);
          no_codes = ground (arith, one, gone, many, found, n, l, zero);
          none_live = ground (arith, one, gone, many, found, n, l, none);
        }
      ]

  -- What is shown by whoever takes the second factor off.
  pub record IsProven (crypto : Crypto) (totp : Totp) (user_id : ℕ) (password code : String)
      (at : ℕ) (d : Db) : Type 0 where
    pub user : User
    pub listed : Memᴰ user d.users
    pub is_user : user.id ≡ user_id
    pub opens : crypto.compare password user.password_hash ≡ true
    pub secret : String
    pub stored : secret_of (some user) ≡ some secret
    pub valid : totp at secret code ≡ some true

  check_disable-IsProven :
      (crypto : Crypto) (totp : Totp) (user_id : ℕ) (password code : String) (w : World)
      {user : User}
      → (check_disable pg crypto totp user_id password code w).0 ≡ ok user
      → IsProven crypto totp user_id password code (w.clock 0) w.db
        × ((check_disable pg crypto totp user_id password code w).1
            ≡ record w { clock = λ n. w.clock (suc n) })
  unfolding check_disable disable_failed
  check_disable-IsProven crypto totp user_id password code w e =
      let fail = λ (v : World).
        create_security_event_lem pg
          (auth_event user_id "MFA_DISABLE_FAILED"
            "Failed attempt to disable multi-factor authentication" medium)
          v in
      let later = record w { clock = λ n. w.clock (suc n) } in
      elim (Option-cases (pg.find (has_uid user_id) w.db.users)) [
        | inl missing ↦ absurd (ground (arith, missing))
        | inr (u, found) ↦ elim (Option-cases (secret_of (some u))) [
          | inl unset ↦ absurd (ground (arith, found, unset))
          | inr (secret, set) ↦ elim (Bool-cases (crypto.compare password u.password_hash)) [
            | inr wrong ↦ absurd (ground (arith, found, set, wrong, fail w))
            | inl right ↦ elim (Option-cases (totp (w.clock 0) secret code)) [
              | inl broken ↦ absurd (ground (arith, found, set, right, broken))
              | inr (b, tested) ↦ elim (Bool-cases b) [
                | inr bad ↦ absurd (ground (arith, found, set, right, tested, bad, fail later))
                | inl good ↦
                    let (m, q) = pg.find_some (has_uid user_id) w.db.users found in
                    (
                      record {
                        user = u;
                        listed = m;
                        is_user = ground (arith, q);
                        opens = right;
                        secret = secret;
                        stored = set;
                        valid = tested ∙ ap some good;
                      },
                      ground (arith, found, set, right, tested, good),
                    )
              ]
            ]
          ]
        ]
      ]

module _ (pg : Prisma) (crypto : Crypto) (totp : Totp) (user_id : ℕ) (password code : String)
    (w : World) where
  -- The second factor is taken off only by one who gives the password of the stored user and a
  -- code that is valid now for its secret; then every row of the user is without it, no recovery
  -- code of the user is left and no refresh token is live, and the other users are as they were
  -- when the transaction began.
  pub disable-IsCleared :
      (disable pg crypto totp user_id password code w).0 ≡ ok tt
      → IsProven pg crypto totp user_id password code (w.clock 0) w.db
        × IsCleared user_id (w.others 0 w.db) (disable pg crypto totp user_id password code w).1.db
  unfolding disable
  disable-IsCleared e =
      let check = check_disable pg crypto totp user_id password code in
      let close = λ (u : User). now >>= λ at. transaction (clear_mfa pg user_id at) in
      let (u, checked, rest) = bind-ok check close w e in
      let (proven, left) = check_disable-IsProven pg crypto totp user_id password code w checked in
      let v = record w { clock = λ n. w.clock (suc (suc n)) } in
      let body = clear_mfa pg user_id (w.clock 1) in
      let path : disable pg crypto totp user_id password code w ≡ transaction body v =
        bind-eq check close w checked ∙ ap (close u) left in
      let done = sym (commit-result (begin v) (body (begin v))) ∙ sym (ap (λ z. z.0) path) ∙ e in
      (
        proven,
        rw (path, commit-ok (begin v) (body (begin v)) done)
            (clear_mfa-IsCleared pg user_id (w.clock 1) (begin v) done),
      )
