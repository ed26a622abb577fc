-- ===== src/Auth/Sessions.antt =====
-- The refresh sessions of backend/src/auth/auth.service.ts: `createRefreshToken`, `issueSession`,
-- `refresh`, `logout`, `revokeSession` and `revokeAllSessions`. `getSessions` is in Own.
pub mod Device
pub mod Rotation
pub mod Revocation
use bankproject.Base.{
  ℕ, ◌+◌, String, Bool, true, false, ◌&&◌, not, Option, none, some, List, [], ◌∷◌, ◌==◌, leb,
  str_eq, opt_str_eq, is_some, if◌then◌else◌,
}
use bankproject.Text.{is_present}
use bankproject.Model.{
  Db, User, RefreshToken, active, user_status_eq, named, Value, text, json, plain,
}
use bankproject.Prisma.{Prisma}
use bankproject.Handler.{
  branch, on_option, Handler, World, ◌>>=◌, ◌>>◌, gets, now, random_text, require, throw_if, pure,
  transaction, unauthorized, not_found, record_missing,
}
use bankproject.Devices.{Registration}
use bankproject.Store.{create_audit_log}
use bankproject.Auth.{Claims, Crypto}
use bankproject.Auth.Tables.{
  has_uid, is_live_of, is_live, bump, update_user, revoke_tokens, create_refresh_row,
}

-- Seven days in milliseconds.
abbrev pub refresh_life : ℕ
refresh_life = 604800000

abbrev pub has_hash : String → RefreshToken → Bool
has_hash hash t = str_eq t.token_hash hash

abbrev pub is_live_hash : String → RefreshToken → Bool
is_live_hash hash t = str_eq t.token_hash hash && not (is_some t.revoked_at)

-- `id, userId, revokedAt: null`
abbrev pub is_session_of : ℕ → ℕ → RefreshToken → Bool
is_session_of id user_id t = t.id == id && t.user_id == user_id && not (is_some t.revoked_at)

-- `userId, deviceId, revokedAt: null`
abbrev pub is_live_device : ℕ → String → RefreshToken → Bool
is_live_device user_id device_id t =
    t.user_id == user_id && opt_str_eq t.device_id (some device_id) && not (is_some t.revoked_at)

-- `...(deviceId ? { deviceId } : {})`: an empty device id is not stored
abbrev pub stored_device : Option String → Option String
stored_device device_id = if is_present device_id then device_id else none

abbrev pub refresh_row : String → Option String → ℕ → ℕ → ℕ → ℕ → RefreshToken
refresh_row hash device_id user_id expires at id = record {
  id = id;
  token_hash = hash;
  device_id = stored_device device_id;
  user_id = user_id;
  expires_at = expires;
  revoked_at = none;
  created_at = at;
}

abbrev pub access_claims : User → Claims
access_claims u = record {
  sub = some u.id;
  email = u.email;
  role = u.role;
  kind = "access";
  purpose = none;
  device_id = none;
  token_version = some u.token_version;
}

pub record Tokens : Type 0 where
  pub access_token : String
  pub refresh_token : String

-- What a login answers: the tokens, what is known of the device, and the user's public columns.
pub record Session : Type 0 where
  pub tokens : Tokens
  pub device : Option Registration
  pub user : User

-- A field that `JSON.stringify` leaves out where it is undefined
abbrev pub device_field : Option String → List (String × Value)
device_field none = []
device_field (some device_id) = ("deviceId", text device_id) ∷ []

module _ (pg : Prisma) (crypto : Crypto) where
  -- The sessions of the device are revoked before the new one is stored.
  unfoldable pub revoke_device : ℕ → Option String → Handler (Unit {0})
  revoke_device user_id none = pure tt
  revoke_device user_id (some device_id) =
      branch (is_present (some device_id))
        (do at ← now; n ← revoke_tokens pg (is_live_device user_id device_id) at; pure tt) (pure tt)

  unfoldable pub create_refresh_token : ℕ → Option String → Handler String
  create_refresh_token user_id device_id = do
    token ← random_text
    at ← now
    revoke_device user_id device_id
    row ←
        create_refresh_row pg
          (refresh_row (crypto.digest token) device_id user_id (at + refresh_life))
    pure token

  -- The user's data is as it was read; its token version is read again.
  unfoldable pub issue_session : User → Option String → Option Registration → Handler Session
  issue_session user device_id device = do
    found ← gets (λ d. pg.find (has_uid user.id) d.users)
    current ← require found (unauthorized "User account no longer exists")
    at ← now
    token ← create_refresh_token user.id device_id
    l ← create_audit_log pg (record {
      user_id = some user.id;
      action = "LOGIN_SUCCESS";
      resource = some (named "AUTH");
      outcome = some "SUCCESS";
      details = some (json (device_field device_id));
    })
    pure (record {
      tokens = record {
        access_token =
            crypto.sign at none
              (access_claims (record user { token_version = current.token_version }));
        refresh_token = token;
      };
      device = device;
      user = user;
    })

  -- The checks of `refresh`, and the row and the user that they find.
  unfoldable pub check_refresh : String → Handler (RefreshToken × User)
  check_refresh token = do
    found ← gets (λ d. pg.find (has_hash (crypto.digest token)) d.refresh_tokens)
    stored ← require found (unauthorized "Invalid refresh token")
    owner ← gets (λ d. pg.find (has_uid stored.user_id) d.users)
    user ← require owner record_missing
    throw_if (is_some stored.revoked_at) (unauthorized "Refresh token has been revoked")
    at ← now
    throw_if (leb stored.expires_at at) (unauthorized "Refresh token has expired")
    throw_if (not (user_status_eq user.status active)) (unauthorized "Account is not active")
    pure (stored, user)

  -- The body of the transaction: the old token is revoked, and the new one stored.
  unfoldable pub rotate : RefreshToken → User → String → ℕ → Handler (Unit {0})
  rotate stored user token at = do
    n ← revoke_tokens pg (is_live stored.id) at
    throw_if (not (n == 1)) (unauthorized "Refresh token has already been used or revoked")
    later ← now
    row ←
        create_refresh_row pg
          (refresh_row (crypto.digest token) stored.device_id user.id (later + refresh_life))
    pure tt

  unfoldable pub refresh : String → Handler Tokens
  refresh token = do
    found ← check_refresh token
    fresh ← random_text
    at ← now
    transaction (rotate found.0 found.1 fresh at)
    signed ← now
    pure (record {
      access_token = crypto.sign signed none (access_claims found.1);
      refresh_token = fresh;
    })

  unfoldable pub logout : String → Handler (Unit {0})
  logout token = do at ← now; n ← revoke_tokens pg (is_live_hash (crypto.digest token)) at; pure tt

  unfoldable pub revoke_session : ℕ → ℕ → Handler (Unit {0})
  revoke_session user_id id = do
    at ← now
    n ← revoke_tokens pg (is_session_of id user_id) at
    throw_if (n == 0) (not_found "Session not found")

  unfoldable pub revoke_all : ℕ → Handler ℕ
  revoke_all user_id = do
    at ← now
    n ← revoke_tokens pg (is_live_of user_id) at
    u ← update_user pg user_id bump
    l ← create_audit_log pg (record {
      user_id = some user_id;
      action = "ALL_SESSIONS_REVOKED";
      resource = some (named "AUTH");
      outcome = some "SUCCESS";
      details = some (plain "All active refresh sessions were revoked.");
    })
    pure n

  -- How many were revoked is returned.
  unfoldable pub revoke_all_sessions : ℕ → Handler ℕ
  unfolding revoke_all
  revoke_all_sessions user_id = transaction (revoke_all user_id)
