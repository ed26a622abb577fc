-- ===== src/Auth/Mfa.antt =====
-- The second factor, backend/src/auth/mfa.service.ts: the check of a code and the use of a
-- recovery code.
pub mod Once
pub mod Disable
pub mod Setup
use bankproject.Base.{
  ℕ, String, Bool, true, false, ◌&&◌, not, Option, none, some, ◌==◌, str_eq, is_some, if◌then◌else◌,
}
use bankproject.Text.{trim, to_upper, drop_dashes, is_truthy}
use bankproject.Model.{Db, User, MfaRecoveryCode}
use bankproject.Prisma.{Prisma}
use bankproject.Handler.{branch, on_option, Handler, ◌>>=◌, gets, now, run, require, pure, internal}
use bankproject.Auth.{Crypto, Totp}
use bankproject.Auth.Tables.{has_uid}

abbrev pub normalize_recovery_code : String → String
normalize_recovery_code code = to_upper (trim (drop_dashes code))

abbrev pub hash_recovery_code : Crypto → String → String
hash_recovery_code crypto code = crypto.digest (normalize_recovery_code code)

abbrev pub has_code_hash : String → MfaRecoveryCode → Bool
has_code_hash hash c = str_eq c.code_hash hash

-- `id, userId, usedAt: null`
abbrev pub is_unused_code : ℕ → ℕ → MfaRecoveryCode → Bool
is_unused_code id user_id c = c.id == id && c.user_id == user_id && not (is_some c.used_at)

abbrev pub spent_code : ℕ → MfaRecoveryCode → MfaRecoveryCode
spent_code at c = record c { used_at = some at }

-- The secret of a user who has the second factor set up and enabled.
abbrev pub secret_of : Option User → Option String
secret_of none = none
secret_of (some u) = elim u.mfa_enabled [
  | true ↦ elim u.mfa_secret_encrypted [
    | some secret ↦ if is_truthy secret then some secret else none
    | none ↦ none
  ]
  | false ↦ none
]

module _ (pg : Prisma) (crypto : Crypto) (totp : Totp) where
  unfoldable pub verify_user_code : ℕ → String → Handler Bool
  verify_user_code user_id code = do
    user ← gets (λ d. pg.find (has_uid user_id) d.users)
    on_option (secret_of user) (pure false) (λ secret. do
      at ← now
      require (totp at secret code) (internal "Unable to decrypt MFA secret"))

module _ (pg : Prisma) (crypto : Crypto) where
  unfoldable pub spend_code : MfaRecoveryCode → ℕ → Handler Bool
  spend_code stored user_id =
      branch (stored.user_id == user_id && not (is_some stored.used_at))
        (do
          at ← now
          n ← run (λ d.
              let r =
                pg.update_many (is_unused_code stored.id user_id) (spent_code at)
                  d.recovery_codes in
              (r.0, record d { recovery_codes = r.1 }))
          pure (n == 1))
        (pure false)

  unfoldable pub consume_recovery_code : ℕ → String → Handler Bool
  consume_recovery_code user_id code = do
    found ← gets (λ d. pg.find (has_code_hash (hash_recovery_code crypto code)) d.recovery_codes)
    on_option found (pure false) (λ stored. spend_code stored user_id)
