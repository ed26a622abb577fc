-- ===== src/Auth/Mfa/Setup/Cipher.antt =====
-- `setup` of backend/src/auth/mfa.service.ts, and the text in which it stores the secret.
use Prim.Native.Char.{Char}
use bankproject.Base.{
  ℕ, ◌≡◌, ◌&&◌, not, String, Bool, true, false, Option, some, [], ◌∷◌, arith, Memᴰ, update_where,
  Option-cases, Bool-cases, inl, inr,
}
use bankproject.Model.{User}
use bankproject.Prisma.{Prisma}
use bankproject.Handler.{World, ok}
use bankproject.Auth.Tables.{has_uid, update_user}
use bankproject.Text.{is_truthy}
use bankproject.Text.Split.{has_char}
use bankproject.Text.Split.Laws.{split-join_with}
use bankproject.Auth.Mfa.Setup.{Seal, pending, encrypt_secret, decrypt_secret, setup}

-- Hexadecimal digits, at least one.
abbrev pub is_hex_text : String → Bool
is_hex_text s = is_truthy s && not (has_char b'.' s)

abbrev dot : Char
dot = "."

module _ (seal : Seal) (unseal : String → String → String → Option String) where
  -- What the secret was stored as is read back as the secret, if the cipher opens at the same
  -- start what it has sealed there, and its start, its tag and its text are hexadecimal digits.
  pub decrypt_secret-encrypt_secret :
      (iv secret : String)
      → is_hex_text iv ≡ true
      → is_hex_text (seal iv secret).0 ≡ true
      → is_hex_text (seal iv secret).1 ≡ true
      → unseal iv (seal iv secret).0 (seal iv secret).1 ≡ some secret
      → decrypt_secret unseal (encrypt_secret seal iv secret) ≡ some secret
  unfolding encrypt_secret decrypt_secret
  decrypt_secret-encrypt_secret iv secret start tag text opens =
      let parts =
        split-join_with dot iv ((seal iv secret).0 ∷ (seal iv secret).1 ∷ [])
          (ground arith, (ground arith, (ground arith, tt))) in
      ground (arith, parts, opens)

module _ (pg : Prisma) (seal : Seal) (unseal : String → String → String → Option String)
    (user_id : ℕ) (w : World) where
  -- A set-up succeeds only for a stored user whose second factor is off. It puts the sealed secret
  -- in the user's rows, where the factor stays off, and in no other; and what is read back from
  -- there is the secret that was shown, if the cipher opens at the same start what it has sealed
  -- there, and its start, its tag and its text are hexadecimal digits.
  pub setup-pending :
      {secret : String}
      → is_hex_text (w.random 1) ≡ true
      → is_hex_text (seal (w.random 1) (w.random 0)).0 ≡ true
      → is_hex_text (seal (w.random 1) (w.random 0)).1 ≡ true
      → unseal (w.random 1) (seal (w.random 1) (w.random 0)).0 (seal (w.random 1) (w.random 0)).1
        ≡ some (w.random 0)
      → (setup pg seal user_id w).0 ≡ ok secret
      → ((user : User) × Memᴰ user w.db.users × (user.id ≡ user_id) × (user.mfa_enabled ≡ false))
        × (stored : String) × ((setup pg seal user_id w).1.db.users
            ≡ update_where (has_uid user_id) (pending stored) w.db.users)
        × (decrypt_secret unseal stored ≡ some secret)
  unfolding setup update_user
  setup-pending {secret} start tag text opens e =
      let stored = encrypt_secret seal (w.random 1) (w.random 0) in
      let one = pg.update_lem (has_uid user_id) (pending stored) w.db.users in
      let back =
        decrypt_secret-encrypt_secret seal unseal (w.random 1) (w.random 0) start tag text opens in
      elim (Option-cases (pg.find (has_uid user_id) w.db.users)) [
        | inl missing ↦ absurd (ground (arith, missing))
        | inr (u, found) ↦ elim (Bool-cases u.mfa_enabled) [
          | inl enabled ↦ absurd (ground (arith, found, enabled))
          | inr off ↦
              let (m, q) = pg.find_some (has_uid user_id) w.db.users found in
              let shown : w.random 0 ≡ secret = ground (arith, e, found, off, one) in
              (
                (u, m, ground (arith, q), off),
                stored,
                ground (arith, found, off, one),
                rw (← shown) back,
              )
        ]
      ]
