-- ===== src/Auth/Password/Cutoff.antt =====
-- A new password, and what it does to the sessions of the account.
use bankproject.Base.{
  ℕ, suc, ◌≡◌, ◌∙◌, refl, sym, ap, String, true, List, [], ◌∷◌, arith, count_where, update_where,
  All, Option-cases, Bool-cases, str_eq, Memᴰ, inl, inr,
}
use bankproject.Model.{Db, User, PasswordResetToken, low, medium}
use bankproject.Prisma.{Prisma}
use bankproject.Handler.{World, ok, begin, transaction}
use bankproject.Handler.Laws.{commit-ok, commit-result}
use bankproject.Store.{create_security_event}
use bankproject.Store.Effects.{create_audit_log_lem, create_security_event_lem}
use bankproject.Auth.{Crypto}
use bankproject.Auth.Tables.{
  has_uid, is_live_of, revoked, revoke_tokens, update_user, use_reset_tokens,
}
use bankproject.Auth.Sessions.Revocation.{IsUpTo, IsCut, IsCutOff, cut, cut-IsCutOff}
use bankproject.Auth.Password.{
  with_password, auth_audit, auth_event, is_usable, used, store_password, change_password,
  consume_reset,
}

store_password-IsCut :
    (pg : Prisma) (crypto : Crypto) (user_id : ℕ) (hash : String) (at : ℕ) (w : World)
    → (store_password pg crypto user_id hash at w).0 ≡ ok tt
    → IsCut user_id (with_password hash) at w (store_password pg crypto user_id hash at w).1.db
unfolding store_password revoke_tokens update_user
store_password-IsCut pg crypto user_id hash at w e =
    let v = cut user_id (with_password hash) at w in
    let many = pg.update_many_lem (is_live_of user_id) (revoked at) w.db.refresh_tokens in
    let one = pg.update_lem (has_uid user_id) (with_password hash) w.db.users in
    let event =
      create_security_event_lem pg
        (auth_event user_id "PASSWORD_CHANGED" "Account password was changed and sessions revoked"
          low)
        v in
    let logs =
      create_audit_log_lem pg
        (auth_audit user_id "PASSWORD_CHANGED"
          "Password changed and active refresh sessions revoked.")
        (create_security_event pg
          (auth_event user_id "PASSWORD_CHANGED" "Account password was changed and sessions revoked"
            low)
          v).1 in
    elim (Option-cases (pg.find (has_uid user_id) w.db.users)) [
      | inl missing ↦ absurd (ground (arith, many, one, missing))
      | inr (u, found) ↦ record {
        users = ground (arith, many, one, found, event, logs);
        tokens = ground (arith, many, one, found, event, logs);
      }
    ]

pub consume_reset-IsCut :
    (pg : Prisma) (crypto : Crypto) (stored : PasswordResetToken) (hash : String) (at : ℕ)
    (w : World)
    → (consume_reset pg crypto stored hash at w).0 ≡ ok tt
    → (count_where (is_usable stored.id at) w.db.reset_tokens ≡ 1)
      × ((consume_reset pg crypto stored hash at w).1.db.reset_tokens
          ≡ update_where (is_usable stored.id at) (used at) w.db.reset_tokens)
      × IsCut stored.user_id
          (with_password hash)
          at
          w
          (consume_reset pg crypto stored hash at w).1.db
unfolding consume_reset revoke_tokens update_user use_reset_tokens
consume_reset-IsCut pg crypto stored hash at w e =
    let user_id = stored.user_id in
    let f = with_password hash in
    let w' = record w {
      db = record w.db {
        reset_tokens = update_where (is_usable stored.id at) (used at) w.db.reset_tokens;
      };
    } in
    let v = cut user_id f at w' in
    let once = pg.update_many_lem (is_usable stored.id at) (used at) w.db.reset_tokens in
    let many = pg.update_many_lem (is_live_of user_id) (revoked at) w.db.refresh_tokens in
    let one = pg.update_lem (has_uid user_id) f w.db.users in
    let event =
      create_security_event_lem pg
        (auth_event user_id "PASSWORD_RESET_COMPLETED"
          "Password reset completed and sessions revoked" medium)
        v in
    let logs =
      create_audit_log_lem pg
        (auth_audit user_id "PASSWORD_RESET_COMPLETED"
          "Password reset completed and active sessions revoked.")
        (create_security_event pg
          (auth_event user_id "PASSWORD_RESET_COMPLETED"
            "Password reset completed and sessions revoked" medium)
          v).1 in
    elim (Option-cases (pg.find (has_uid user_id) w.db.users)) [
      | inl missing ↦ absurd (ground (arith, once, many, one, missing))
      | inr (u, found) ↦ (
        ground (arith, once, many, one, found),
        ground (arith, once, many, one, found, event, logs),
        record {
          users = ground (arith, once, many, one, found, event, logs);
          tokens = ground (arith, once, many, one, found, event, logs);
        },
      )
    ]

opens_with :
    (crypto : Crypto) (user_id : ℕ) (new salt : String) (t : List User)
    → All
        (λ u. u.id ≡ user_id → crypto.compare new u.password_hash ≡ true)
        (update_where (has_uid user_id) (with_password (crypto.hash new salt)) t)
opens_with crypto user_id new salt [] = tt
opens_with crypto user_id new salt (u ∷ t) =
    ground (arith, crypto.compare-hash new salt, opens_with crypto user_id new salt t)

-- What a new password does to the account: every session is cut off, and the account opens with
-- the new password.
pub record IsRenewed (crypto : Crypto) (user_id version : ℕ) (new : String) (d : Db) : Type 0 where
  pub off : IsCutOff user_id version d
  pub opens : All (λ u. u.id ≡ user_id → crypto.compare new u.password_hash ≡ true) d.users

pub cut-IsRenewed :
    (crypto : Crypto) (user_id version at : ℕ) (new salt : String) (w : World) {d : Db}
    → IsUpTo user_id version w.db
    → IsCut user_id (with_password (crypto.hash new salt)) at w d
    → IsRenewed crypto user_id version new d
cut-IsRenewed crypto user_id version at new salt w old c = record {
  off = cut-IsCutOff user_id version at (with_password (crypto.hash new salt)) w (λ u. refl) c old;
  opens = rw c.users (opens_with crypto user_id new salt w.db.users);
}

module _ (pg : Prisma) (crypto : Crypto) (user_id version : ℕ) (current new : String)
    (w : World) where
  -- The world in which the closing transaction of a change is called.
  abbrev changing : World
  changing = record w { random = λ n. w.random (suc n); clock = λ n. w.clock (suc n) }

  change_password-ok :
      (change_password pg crypto user_id current new w).0 ≡ ok tt
      → (user : User) × Memᴰ user w.db.users
        × (user.id ≡ user_id)
        × (crypto.compare current user.password_hash ≡ true)
        × (change_password pg crypto user_id current new w
            ≡ transaction
                (store_password pg crypto user_id (crypto.hash new (w.random 0)) (w.clock 0))
                changing)
  unfolding change_password
  change_password-ok e = elim (Option-cases (pg.find (has_uid user_id) w.db.users)) [
    | inl missing ↦ absurd (ground (arith, missing))
    | inr (u, found) ↦
        let (m, q) = pg.find_some (has_uid user_id) w.db.users found in
        elim (Bool-cases (str_eq current new)) [
          | inl equal ↦ absurd (ground (arith, equal))
          | inr other ↦ elim (Bool-cases (crypto.compare current u.password_hash)) [
            | inr wrong ↦ absurd (
                ground (
                  arith,
                  other,
                  found,
                  wrong,
                  create_security_event_lem pg
                      (auth_event user_id "PASSWORD_CHANGE_FAILED"
                        "Failed attempt to change account password" medium)
                      w,
                ))
            | inl right ↦ (u, m, ground arith, right, rw (other, found, right) refl)
          ]
        ]
  ]

  -- A password is changed only for a stored user whose password the caller gave; then the account
  -- opens with the new one, no refresh token of the user is live and the token version is past the
  -- given one, if the user's rows had at least that version when the transaction began.
  pub change_password-IsRenewed :
      (change_password pg crypto user_id current new w).0 ≡ ok tt
      → IsUpTo user_id version (w.others 0 w.db)
      → ((user : User) × Memᴰ user w.db.users
          × (user.id ≡ user_id)
          × (crypto.compare current user.password_hash ≡ true))
        × IsRenewed crypto user_id version new
            (change_password pg crypto user_id current new w).1.db
  change_password-IsRenewed e old =
      let (u, m, is, right, path) = change_password-ok e in
      let body = store_password pg crypto user_id (crypto.hash new (w.random 0)) (w.clock 0) in
      let done =
        sym (commit-result (begin changing) (body (begin changing)))
        ∙ sym (ap (λ z. z.0) path)
        ∙ e in
      let c =
        store_password-IsCut pg crypto user_id (crypto.hash new (w.random 0)) (w.clock 0)
          (begin changing) done in
      (
        (u, m, is, right),
        rw (path, commit-ok (begin changing) (body (begin changing)) done)
            (cut-IsRenewed crypto user_id version (w.clock 0) new (w.random 0) (begin changing) old
              c),
      )
