-- ===== src/Auth/Sessions/Revocation.antt =====
-- An account that is cut off: none of its refresh tokens is live, and its token version is past
-- that of the access tokens signed before.
use bankproject.Base.{
  ℕ, suc, ◌+◌, ◌≤◌, ◌<◌, ◌≡◌, ◌∙◌, refl, sym, some, List, [], ◌∷◌, arith, count_where, update_where,
  All, Option-cases, inl, inr,
}
use bankproject.Model.{Db, User, RefreshToken, named, plain}
use bankproject.Prisma.{Prisma}
use bankproject.Handler.{World, ok, begin}
use bankproject.Handler.Laws.{commit-ok, commit-result}
use bankproject.Store.{AuditData}
use bankproject.Store.Effects.{create_audit_log_lem}
use bankproject.Auth.{Crypto}
use bankproject.Auth.Tables.{has_uid, is_live_of, revoked, bump, revoke_tokens, update_user}
use bankproject.Auth.Sessions.{revoke_all, revoke_all_sessions}

-- Every row of the user has at least that token version.
abbrev pub IsUpTo : ℕ → ℕ → Db → Type 0
IsUpTo user_id version d = All (λ u. u.id ≡ user_id → version ≤ u.token_version) d.users

pub record IsCutOff (user_id version : ℕ) (d : Db) : Type 0 where
  pub none_live : count_where (is_live_of user_id) d.refresh_tokens ≡ 0
  pub passed : All (λ u. u.id ≡ user_id → version < u.token_version) d.users

pub none_live_of :
    (user_id at : ℕ) (t : List RefreshToken)
    → count_where (is_live_of user_id) (update_where (is_live_of user_id) (revoked at) t) ≡ 0
none_live_of user_id at [] = refl
none_live_of user_id at (r ∷ t) = ground (arith, none_live_of user_id at t)

pub versions_passed :
    (user_id version : ℕ) (f : User → User)
    → ((u : User) → (f u).token_version ≡ u.token_version + 1)
    → (t : List User) → All (λ u. u.id ≡ user_id → version ≤ u.token_version) t
    → All (λ u. u.id ≡ user_id → version < u.token_version) (update_where (has_uid user_id) f t)
versions_passed user_id version f up [] h = tt
versions_passed user_id version f up (u ∷ t) h =
    ground (arith, h.0, up u, versions_passed user_id version f up t h.1)

-- The database when the tokens are revoked and the user is changed.
abbrev pub cut : ℕ → (User → User) → ℕ → World → World
cut user_id f at w = record w {
  db = record w.db {
    refresh_tokens = update_where (is_live_of user_id) (revoked at) w.db.refresh_tokens;
    users = update_where (has_uid user_id) f w.db.users;
  };
}

pub record IsCut (user_id : ℕ) (f : User → User) (at : ℕ) (w : World) (d : Db) : Type 0 where
  pub users : d.users ≡ (cut user_id f at w).db.users
  pub tokens : d.refresh_tokens ≡ (cut user_id f at w).db.refresh_tokens

pub cut-IsCutOff :
    (user_id version at : ℕ) (f : User → User) (w : World) {d : Db}
    → ((u : User) → (f u).token_version ≡ u.token_version + 1)
    → IsCut user_id f at w d
    → IsUpTo user_id version w.db
    → IsCutOff user_id version d
cut-IsCutOff user_id version at f w up c old = record {
  none_live = rw c.tokens (none_live_of user_id at w.db.refresh_tokens);
  passed = rw c.users (versions_passed user_id version f up w.db.users old);
}

-- What `revoke_all` notes.
abbrev all_revoked : ℕ → AuditData
all_revoked user_id = record {
  user_id = some user_id;
  action = "ALL_SESSIONS_REVOKED";
  resource = some (named "AUTH");
  outcome = some "SUCCESS";
  details = some (plain "All active refresh sessions were revoked.");
}

revoke_all-IsCut :
    (pg : Prisma) (crypto : Crypto) (user_id : ℕ) (w : World) {n : ℕ}
    → (revoke_all pg crypto user_id w).0 ≡ ok n
    → (n ≡ count_where (is_live_of user_id) w.db.refresh_tokens)
      × (IsCut user_id bump (w.clock 0) w (revoke_all pg crypto user_id w).1.db)
unfolding revoke_all revoke_tokens update_user
revoke_all-IsCut pg crypto user_id w e =
    let many = pg.update_many_lem (is_live_of user_id) (revoked (w.clock 0)) w.db.refresh_tokens in
    let one = pg.update_lem (has_uid user_id) bump w.db.users in
    let logs =
      create_audit_log_lem pg (all_revoked user_id)
        (record (cut user_id bump (w.clock 0) w) { clock = λ n. w.clock (suc n) }) in
    elim (Option-cases (pg.find (has_uid user_id) w.db.users)) [
      | inl missing ↦ absurd (ground (arith, many, one, missing))
      | inr (u, found) ↦ (
        ground (arith, many, one, found, logs),
        record {
          users = ground (arith, many, one, found, logs);
          tokens = ground (arith, many, one, found, logs);
        },
      )
    ]

module _ (pg : Prisma) (crypto : Crypto) (user_id version : ℕ) (w : World) where
  -- After a user's sessions have all been revoked, no refresh token of the user is live and the
  -- token version is past that of every access token signed before, if the user's rows had at
  -- least that version when the transaction began; the answer is how many tokens were live then.
  pub revoke_all_sessions-IsCutOff :
      {n : ℕ}
      → (revoke_all_sessions pg crypto user_id w).0 ≡ ok n
      → IsUpTo user_id version (w.others 0 w.db)
      → (n ≡ count_where (is_live_of user_id) (w.others 0 w.db).refresh_tokens)
        × IsCutOff user_id version (revoke_all_sessions pg crypto user_id w).1.db
  unfolding revoke_all_sessions
  revoke_all_sessions-IsCutOff e old =
      let body = revoke_all pg crypto user_id in
      let done = sym (commit-result (begin w) (body (begin w))) ∙ e in
      let (counted, c) = revoke_all-IsCut pg crypto user_id (begin w) done in
      (
        counted,
        rw (commit-ok (begin w) (body (begin w)) done)
            (cut-IsCutOff user_id version (w.clock 0) bump (begin w) (λ u. refl) c old),
      )
