-- ===== src/Auth/Sessions/Device.antt =====
-- The sessions of one device of a user.
use bankproject.Base.{
  ℕ, ◌+◌, ◌≡◌, refl, sym, ap, String, true, some, List, [], ◌∷◌, arith, count_where, update_where,
  str_eq,
}
use text.Mathlib.TextEquality.{eq_iff}
use bankproject.Text.{is_truthy}
use bankproject.Model.{RefreshToken}
use bankproject.Prisma.{Prisma}
use bankproject.Handler.{World, ok}
use bankproject.Auth.{Crypto}
use bankproject.Auth.Tables.{revoked, revoke_tokens, create_refresh_row, refresh_clash}
use bankproject.Auth.Sessions.{
  is_live_device, refresh_row, refresh_life, revoke_device, create_refresh_token,
}

none_live_on :
    (user_id at : ℕ) (device : String) (t : List RefreshToken)
    → count_where
        (is_live_device user_id device)
        (update_where (is_live_device user_id device) (revoked at) t)
      ≡ 0
none_live_on user_id at device [] = refl
none_live_on user_id at device (r ∷ t) = ground (arith, none_live_on user_id at device t)

module _ (pg : Prisma) (crypto : Crypto) (user_id : ℕ) (device : String) (w : World) where
  -- A session that is stored for a device is the only live one of the user on that device: the
  -- earlier ones are revoked, and the other rows stay.
  pub create_refresh_token_alone :
      {token : String}
      → is_truthy device ≡ true
      → (create_refresh_token pg crypto user_id (some device) w).0 ≡ ok token
      → (token ≡ w.random 0)
        × (count_where
              (is_live_device user_id device)
              (create_refresh_token pg crypto user_id (some device) w).1.db.refresh_tokens
            ≡ 1)
        × (added : RefreshToken) × (added.token_hash ≡ crypto.digest token)
        × ((create_refresh_token pg crypto user_id (some device) w).1.db.refresh_tokens
            ≡ added
              ∷ update_where
                  (is_live_device user_id device)
                  (revoked (w.clock 1))
                  w.db.refresh_tokens)
  unfolding create_refresh_token revoke_device revoke_tokens create_refresh_row
  create_refresh_token_alone {token} named e =
      let at = w.clock 1 in
      let hash = crypto.digest (w.random 0) in
      let rest = update_where (is_live_device user_id device) (revoked at) w.db.refresh_tokens in
      let many =
        pg.update_many_lem (is_live_device user_id device) (revoked at) w.db.refresh_tokens in
      let row = refresh_row hash (some device) user_id (w.clock 0 + refresh_life) (w.clock 2) in
      let one = pg.create_lem (λ r. r.id) refresh_clash row rest in
      let zero = none_live_on user_id at device w.db.refresh_tokens in
      let same : str_eq device device ≡ true = (eq_iff device device).1 refl in
      let added = row (pg.fresh (λ r. r.id) rest) in
      let is : token ≡ w.random 0 = ground (arith, named, many, one) in
      (
        is,
        ground (arith, named, many, one, zero, same),
        added,
        ap crypto.digest (sym is),
        ground (arith, named, many, one),
      )
