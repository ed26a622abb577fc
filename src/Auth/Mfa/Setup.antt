-- ===== src/Auth/Mfa/Setup.antt =====
-- backend/src/auth/mfa.service.ts: the second factor is set up, put on, and its recovery codes are
-- replaced.
pub mod Codes
pub mod Cipher
pub mod Enabled
mod Tests
use bankproject.Base.{
  ℕ, zero, suc, String, Bool, true, false, not, Option, none, some, List, [], ◌∷◌, map, map_option,
  str_eq, if◌then◌else◌,
}
use bankproject.Text.{to_upper, is_truthy}
use bankproject.Text.Split.{slice, split, join_with}
use bankproject.Model.{Db, User, MfaRecoveryCode, low, medium}
use bankproject.Prisma.{Prisma}
use bankproject.Handler.{
  Handler, ◌>>=◌, ◌>>◌, gets, now, random_text, run, attempt, require, throw, throw_if, branch,
  pure, transaction, not_found, bad_request, unauthorized, internal, unique_violation,
}
use bankproject.Store.{create_audit_log, create_security_event}
use bankproject.Auth.{Crypto, Totp}
use bankproject.Auth.Tables.{has_uid, update_user}
use bankproject.Auth.Password.{auth_audit, auth_event}
use bankproject.Auth.Mfa.{secret_of, hash_recovery_code}
use bankproject.Auth.Mfa.Disable.{is_code_of}

-- Groups of five, of the 20 hexadecimal digits of 10 random bytes.
unfoldable pub recovery_code : String → String
recovery_code drawn =
    let raw = to_upper drawn in
    join_with "-" (slice 0 5 raw ∷ slice 5 10 raw ∷ slice 10 15 raw ∷ slice 15 20 raw ∷ [])

unfoldable pub generate_recovery_code_set : ℕ → Handler (List String)
generate_recovery_code_set zero = pure []
generate_recovery_code_set (suc n) = do
  drawn ← random_text
  rest ← generate_recovery_code_set n
  pure (recovery_code drawn ∷ rest)

-- `if (!user.mfaSecretEncrypted)`
abbrev pub set_up : User → Option String
set_up u = elim u.mfa_secret_encrypted [
  | some secret ↦ if is_truthy secret then some secret else none
  | none ↦ none
]

abbrev pub pending : String → User → User
pending secret u = record u {
  mfa_enabled = false;
  mfa_secret_encrypted = some secret;
  mfa_verified_at = none;
}

abbrev pub with_mfa : ℕ → User → User
with_mfa at u = record u { mfa_enabled = true; mfa_verified_at = some at }

abbrev pub code_row : Crypto → ℕ → ℕ → String → ℕ → MfaRecoveryCode
code_row crypto user_id at code id = record {
  id = id;
  code_hash = hash_recovery_code crypto code;
  user_id = user_id;
  used_at = none;
  created_at = at;
}

abbrev pub code_clash : MfaRecoveryCode → MfaRecoveryCode → Bool
code_clash a b = str_eq b.code_hash a.code_hash

-- The cipher of the secrets: what it seals at a given start is its tag and its text.
abbrev pub Seal : Type 0
Seal = String → String → String × String

-- `encryptSecret`, with the start `iv` that was drawn
unfoldable pub encrypt_secret : Seal → String → String → String
encrypt_secret seal iv secret = join_with "." (iv ∷ (seal iv secret).0 ∷ (seal iv secret).1 ∷ [])

-- The three parts of a sealed text, where none is empty.
abbrev pub sealed_parts : List String → Option (String × String × String)
sealed_parts (iv ∷ tag ∷ text ∷ _) =
    if is_truthy iv
    then (if is_truthy tag then (if is_truthy text then some (iv, tag, text) else none) else none)
    else none
sealed_parts _ = none

-- `decryptSecret`: none where it throws
unfoldable pub decrypt_secret : (String → String → String → Option String) → String → Option String
decrypt_secret unseal value = elim (sealed_parts (split b'.' value)) [
  | none ↦ none
  | some (iv, tag, text) ↦ unseal iv tag text
]

module _ (pg : Prisma) where
  -- The secret is shown to the user, who has to prove that it was kept.
  unfoldable pub setup : Seal → ℕ → Handler String
  setup seal user_id = do
    found ← gets (λ d. pg.find (has_uid user_id) d.users)
    user ← require found (not_found "User not found")
    throw_if user.mfa_enabled (bad_request "MFA is already enabled")
    secret ← random_text
    iv ← random_text
    u ← update_user pg user_id (pending (encrypt_secret seal iv secret))
    pure secret

  -- The old codes are deleted and the new ones are stored, as digests.
  unfoldable pub store_codes : Crypto → ℕ → List String → Handler (Unit {0})
  store_codes crypto user_id codes = do
    run (λ d.
        (tt, record d { recovery_codes = pg.delete_many (is_code_of user_id) d.recovery_codes }))
    at ← now
    attempt
        (λ d.
          map_option (λ t. (tt, record d { recovery_codes = t }))
            (pg.create_many (λ c. c.id) code_clash (map (code_row crypto user_id at) codes)
              d.recovery_codes))
        unique_violation

  -- The body of the transaction of `verifySetup`.
  unfoldable pub enable_mfa : Crypto → ℕ → List String → Handler (Unit {0})
  enable_mfa crypto user_id codes = do
    at ← now
    u ← update_user pg user_id (with_mfa at)
    store_codes crypto user_id codes
    e ←
        create_security_event pg
          (auth_event user_id "MFA_ENABLED" "Multi-factor authentication was enabled" low)
    l ← create_audit_log pg (
        auth_audit user_id "MFA_ENABLED"
          "User enabled multi-factor authentication and recovery codes were generated.")
    pure tt

  -- What is checked before the factor is put on.
  unfoldable pub check_setup : Totp → ℕ → String → Handler (Unit {0})
  check_setup totp user_id code = do
    found ← gets (λ d. pg.find (has_uid user_id) d.users)
    user ← require found (not_found "User not found")
    throw_if user.mfa_enabled (bad_request "MFA is already enabled")
    secret ← require (set_up user) (bad_request "MFA setup has not been started")
    at ← now
    valid ← require (totp at secret code) (internal "Unable to decrypt MFA secret")
    throw_if (not valid) (unauthorized "Invalid MFA code")

  unfoldable pub verify_setup : Crypto → Totp → ℕ → String → Handler (List String)
  verify_setup crypto totp user_id code = do
    check_setup totp user_id code
    codes ← generate_recovery_code_set 10
    transaction (enable_mfa crypto user_id codes)
    pure codes

  unfoldable pub replace_recovery_codes : Crypto → ℕ → Handler (List String)
  replace_recovery_codes crypto user_id = do
    codes ← generate_recovery_code_set 10
    transaction (store_codes crypto user_id codes)
    pure codes

  unfoldable pub regenerate_failed : {A : Type 0} → ℕ → Handler A
  regenerate_failed user_id = do
    e ← create_security_event pg (
        auth_event user_id "MFA_RECOVERY_CODES_REGEN_FAILED"
          "Failed attempt to regenerate MFA recovery codes" medium)
    throw (unauthorized "Invalid password or MFA code")

  unfoldable pub check_regenerate : Crypto → Totp → ℕ → String → String → Handler (Unit {0})
  unfolding regenerate_failed
  check_regenerate crypto totp user_id password code = do
    found ← gets (λ d. pg.find (has_uid user_id) d.users)
    user ← require found (not_found "User not found")
    secret ← require (secret_of (some user)) (bad_request "MFA is not enabled")
    branch (crypto.compare password user.password_hash)
        (do
          at ← now
          valid ← require (totp at secret code) (internal "Unable to decrypt MFA secret")
          branch valid (pure tt) (regenerate_failed user_id))
        (regenerate_failed user_id)

  -- The transaction that notes it follows the one that has replaced the codes.
  unfoldable pub note_regenerated : ℕ → Handler (Unit {0})
  note_regenerated user_id = do
    e ← create_security_event pg (
        auth_event user_id "MFA_RECOVERY_CODES_REGENERATED" "User regenerated MFA recovery codes"
          medium)
    l ← create_audit_log pg (
        auth_audit user_id "MFA_RECOVERY_CODES_REGENERATED"
          "Previous recovery codes were invalidated and replaced.")
    pure tt

  unfoldable pub regenerate_recovery_codes :
      Crypto → Totp → ℕ → String → String → Handler (List String)
  regenerate_recovery_codes crypto totp user_id password code = do
    check_regenerate crypto totp user_id password code
    codes ← replace_recovery_codes crypto user_id
    transaction (note_regenerated user_id)
    pure codes
