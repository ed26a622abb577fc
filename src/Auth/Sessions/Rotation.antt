-- ===== src/Auth/Sessions/Rotation.antt =====
-- Which refresh tokens are accepted, and what a rotation stores.
pub mod Once
use bankproject.Base.{
  ℕ, suc, ◌+◌, ◌<◌, ◌≡◌, ◌∙◌, refl, sym, ap, subst, ◌≢◌, String, true, none, some, List, [], ◌∷◌,
  Memᴰ, arith, ◌⊎◌, count_where, update_where, All, Option-cases, inl, inr, is_some,
}
use mathlib.Core.Path.{subst₂}
use text.Mathlib.TextEquality.{eq_iff}
use bankproject.Model.{
  Db, User, RefreshToken, UserStatus, active, locked, suspended, user_status_eq,
}
use bankproject.Prisma.{Prisma}
use bankproject.Prisma.Found.{All-Memᴰ}
use bankproject.Handler.{
  World, ok, err, Error, begin, Handler, transaction, unauthorized, ◌>>=◌, ◌>>◌, now, random_text,
  pure,
}
use bankproject.Handler.Laws.{
  bind-ok, bind-eq, bind-err, commit-ok, commit-err, commit-result, Result-cases,
}
use bankproject.Auth.{Crypto}
use bankproject.Auth.Tables.{
  has_uid, is_live, revoked, revoke_tokens, create_refresh_row, refresh_clash,
}
use bankproject.Auth.Sessions.{
  Tokens, has_hash, refresh_row, refresh_life, access_claims, check_refresh, rotate, refresh,
}

-- What the database says of a refresh token that is accepted at a time.
pub record IsAccepted (crypto : Crypto) (token : String) (at : ℕ) (d : Db) (stored : RefreshToken)
    (user : User) : Type 0 where
  pub listed : Memᴰ stored d.refresh_tokens
  pub hashed : stored.token_hash ≡ crypto.digest token
  pub live : stored.revoked_at ≡ none
  pub fresh : at < stored.expires_at
  pub owner : Memᴰ user d.users
  pub owned : user.id ≡ stored.user_id
  pub is_active : user.status ≡ active

pub status_eq_active : (s : UserStatus) → user_status_eq s active ≡ true → s ≡ active
status_eq_active active h = refl
status_eq_active locked h = cc
status_eq_active suspended h = cc

module _ (pg : Prisma) (crypto : Crypto) (token : String) (w : World) where
  check_refresh-IsAccepted :
      {found : RefreshToken × User}
      → (check_refresh pg crypto token w).0 ≡ ok found
      → IsAccepted crypto token (w.clock 0) w.db found.0 found.1
  unfolding check_refresh
  check_refresh-IsAccepted {found = found'} e =
      elim (Option-cases (pg.find (has_hash (crypto.digest token)) w.db.refresh_tokens)) [
        | inl missing ↦ absurd (ground (arith, missing))
        | inr (t, found) ↦ elim (Option-cases (pg.find (has_uid t.user_id) w.db.users)) [
          | inl missing ↦ absurd (ground (arith, missing, found))
          | inr (u, owner) ↦
              let (m, q) =
                pg.find_some (has_hash (crypto.digest token)) w.db.refresh_tokens found in
              let (n, p) = pg.find_some (has_uid t.user_id) w.db.users owner in
              let same : (t, u) ≡ found' = ground (arith, found, owner) in
              subst (λ f. IsAccepted crypto token (w.clock 0) w.db f.0 f.1) same
                (record {
                  listed = m;
                  hashed = (eq_iff _ _).0 q;
                  live = ground (arith, found, owner);
                  fresh = ground (arith, found, owner);
                  owner = n;
                  owned = ground (arith, p);
                  is_active = status_eq_active u.status (ground (arith, found, owner));
                })
        ]
      ]

  check_refresh-found :
      {found : RefreshToken × User}
      → (check_refresh pg crypto token w).0 ≡ ok found
      → pg.find (has_hash (crypto.digest token)) w.db.refresh_tokens ≡ some found.0
  unfolding check_refresh
  check_refresh-found {found = found'} e =
      elim (Option-cases (pg.find (has_hash (crypto.digest token)) w.db.refresh_tokens)) [
        | inl missing ↦ absurd (ground (arith, missing))
        | inr (t, found) ↦ elim (Option-cases (pg.find (has_uid t.user_id) w.db.users)) [
          | inl missing ↦ absurd (ground (arith, missing, found))
          | inr (u, owner) ↦ ground (arith, found, owner)
        ]
      ]

  check_refresh-db : (check_refresh pg crypto token w).1.db ≡ w.db
  unfolding check_refresh
  check_refresh-db = ground arith

  check_refresh-random : (check_refresh pg crypto token w).1.random ≡ w.random
  unfolding check_refresh
  check_refresh-random = ground arith

  check_refresh-others : (check_refresh pg crypto token w).1.others ≡ w.others
  unfolding check_refresh
  check_refresh-others = ground arith

module _ (pg : Prisma) (crypto : Crypto) (stored : RefreshToken) (user : User) (fresh : String)
    (at : ℕ) (w : World) where
  pub record IsRotated (after : List RefreshToken) : Type 0 where
    pub was_live : count_where (is_live stored.id) w.db.refresh_tokens ≡ 1
    pub added : RefreshToken
    pub new : added.token_hash ≡ crypto.digest fresh
    pub rotated : after ≡ added ∷ update_where (is_live stored.id) (revoked at) w.db.refresh_tokens

  rotate-IsRotated :
      (rotate pg crypto stored user fresh at w).0 ≡ ok tt
      → IsRotated (rotate pg crypto stored user fresh at w).1.db.refresh_tokens
  unfolding rotate revoke_tokens create_refresh_row
  rotate-IsRotated e =
      let many = pg.update_many_lem (is_live stored.id) (revoked at) w.db.refresh_tokens in
      let rest = update_where (is_live stored.id) (revoked at) w.db.refresh_tokens in
      let row =
        refresh_row (crypto.digest fresh) stored.device_id user.id (w.clock 0 + refresh_life)
          (w.clock 1) in
      let one = pg.create_lem (λ r. r.id) refresh_clash row rest in
      record {
        was_live = ground (arith, many);
        added = row (pg.fresh (λ r. r.id) rest);
        new = refl;
        rotated = ground (arith, many, one);
      }

  -- If another request has used or revoked the token by the time the rotation begins, no token is
  -- stored.
  rotate_raced :
      count_where (is_live stored.id) (begin w).db.refresh_tokens ≡ 0
      → ((transaction (rotate pg crypto stored user fresh at) w).0
          ≡ err (unauthorized "Refresh token has already been used or revoked"))
        × ((transaction (rotate pg crypto stored user fresh at) w).1.db ≡ (begin w).db)
  unfolding rotate revoke_tokens
  rotate_raced none_left =
      let law = pg.update_many_lem (is_live stored.id) (revoked at) (begin w).db.refresh_tokens in
      let refused : (rotate pg crypto stored user fresh at (begin w)).0
          ≡ err (unauthorized "Refresh token has already been used or revoked") =
        ground (arith, law, none_left) in
      (
        commit-result (begin w) (rotate pg crypto stored user fresh at (begin w)) ∙ refused,
        commit-err (begin w) (rotate pg crypto stored user fresh at (begin w)) refused,
      )
