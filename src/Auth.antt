-- ===== src/Auth.antt =====
-- backend/src/auth: what its services share. The digests, the password hashes and the signed
-- tokens come from `crypto`, `bcrypt` and @nestjs/jwt, and are a parameter with the law that the
-- services rely on.
pub mod Tables
pub mod Sessions
pub mod Password
pub mod Guards
pub mod Mfa
pub mod Login
pub mod Sample
mod Tests
use bankproject.Base.{ℕ, ◌≡◌, String, Bool, true, Option}
use bankproject.Model.{UserRole}

-- What a signed token says. `sub` and `token_version` are none where they are no whole numbers;
-- `kind` is the field `type`.
pub record Claims : Type 0 where
  pub sub : Option ℕ
  pub email : String
  pub role : UserRole
  pub kind : String
  pub purpose : Option String
  pub device_id : Option String
  pub token_version : Option ℕ

pub record Crypto : Type 0 where
  pub digest : String → String
  -- of a password, with a random salt
  pub hash : String → String → String
  pub compare : String → String → Bool
  -- at a time and for so many seconds, if that is limited here
  pub sign : ℕ → Option ℕ → Claims → String
  pub verify : ℕ → String → Option Claims
  pub compare-hash : (password salt : String) → compare password (hash password salt) ≡ true

-- What otplib and the cipher of backend/src/auth/mfa.service.ts answer: whether a code is valid at
-- a time for a stored secret, or none where the secret does not decrypt.
abbrev pub Totp : Type 0
Totp = ℕ → String → String → Option Bool
