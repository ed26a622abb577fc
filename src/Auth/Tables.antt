-- ===== src/Auth/Tables.antt =====
-- The queries that backend/src/auth/auth.service.ts, mfa.service.ts and users.service.ts send, by
-- table.
use bankproject.Base.{ℕ, ◌+◌, String, Bool, ◌&&◌, not, some, ◌==◌, str_eq, is_some, map_option}
use bankproject.Model.{User, RefreshToken, PasswordResetToken}
use bankproject.Prisma.{Prisma}
use bankproject.Handler.{Handler, ◌>>=◌, attempt, run, now, record_missing, unique_violation}

abbrev pub has_uid : ℕ → User → Bool
has_uid id u = u.id == id

abbrev pub has_email : String → User → Bool
has_email email u = str_eq u.email email

-- `userId, revokedAt: null`
abbrev pub is_live_of : ℕ → RefreshToken → Bool
is_live_of user_id t = t.user_id == user_id && not (is_some t.revoked_at)

-- `id, revokedAt: null`
abbrev pub is_live : ℕ → RefreshToken → Bool
is_live id t = t.id == id && not (is_some t.revoked_at)

abbrev pub revoked : ℕ → RefreshToken → RefreshToken
revoked at t = record t { revoked_at = some at }

abbrev pub refresh_clash : RefreshToken → RefreshToken → Bool
refresh_clash a b = str_eq b.token_hash a.token_hash

abbrev pub reset_clash : PasswordResetToken → PasswordResetToken → Bool
reset_clash a b = str_eq b.token_hash a.token_hash

abbrev pub bump : User → User
bump u = record u { token_version = u.token_version + 1 }

module _ (pg : Prisma) where
  unfoldable pub update_user : ℕ → (User → User) → Handler User
  update_user id f =
      attempt
        (λ d. map_option (λ r. (r.0, record d { users = r.1 })) (pg.update (has_uid id) f d.users))
        record_missing

  unfoldable pub revoke_tokens : (RefreshToken → Bool) → ℕ → Handler ℕ
  revoke_tokens p at = run (λ d.
      let r = pg.update_many p (revoked at) d.refresh_tokens in
      (r.0, record d { refresh_tokens = r.1 }))

  unfoldable pub create_refresh_row : (ℕ → ℕ → RefreshToken) → Handler RefreshToken
  create_refresh_row row = do
    at ← now
    attempt
        (λ d.
          map_option (λ r. (r.0, record d { refresh_tokens = r.1 }))
            (pg.create (λ r. r.id) refresh_clash (row at) d.refresh_tokens))
        unique_violation

  unfoldable pub create_reset_row : (ℕ → ℕ → PasswordResetToken) → Handler PasswordResetToken
  create_reset_row row = do
    at ← now
    attempt
        (λ d.
          map_option (λ r. (r.0, record d { reset_tokens = r.1 }))
            (pg.create (λ r. r.id) reset_clash (row at) d.reset_tokens))
        unique_violation

  unfoldable pub use_reset_tokens :
      (PasswordResetToken → Bool) → (PasswordResetToken → PasswordResetToken) → Handler ℕ
  use_reset_tokens p f =
      run (λ d. let r = pg.update_many p f d.reset_tokens in (r.0, record d { reset_tokens = r.1 }))

  unfoldable pub delete_reset_tokens : (PasswordResetToken → Bool) → Handler (Unit {0})
  delete_reset_tokens p =
      run (λ d. (tt, record d { reset_tokens = pg.delete_many p d.reset_tokens }))
