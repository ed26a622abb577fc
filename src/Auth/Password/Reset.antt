-- ===== src/Auth/Password/Reset.antt =====
-- A password reset and its token.
use bankproject.Base.{
  ℕ, suc, ◌<◌, ◌≡◌, ◌∙◌, refl, sym, String, none, arith, count_where, update_where, Option-cases,
  Memᴰ, inl, inr, subst,
}
use mathlib.Core.Path.{subst₂}
use text.Mathlib.TextEquality.{eq_iff}
use bankproject.Text.{trim}
use bankproject.Model.{Db, PasswordResetToken}
use bankproject.Prisma.{Prisma}
use bankproject.Handler.{World, ok, begin, Handler, transaction, ◌>>=◌, random_text, now}
use bankproject.Handler.Laws.{commit-ok, commit-result, bind-ok, bind-eq}
use bankproject.Auth.{Crypto}
use bankproject.Auth.Sessions.Revocation.{IsUpTo}
use bankproject.Auth.Password.{
  is_usable, used, consume_reset, check_reset, reset_password, has_reset_hash,
}
use bankproject.Auth.Password.Cutoff.{IsRenewed, cut-IsRenewed, consume_reset-IsCut}

-- What the database says of a reset token that is accepted at a time.
pub record IsResettable (crypto : Crypto) (token : String) (at : ℕ) (d : Db)
    (stored : PasswordResetToken) : Type 0 where
  pub listed : Memᴰ stored d.reset_tokens
  pub hashed : stored.token_hash ≡ crypto.digest (trim token)
  pub unused : stored.used_at ≡ none
  pub fresh : at < stored.expires_at

module _ (pg : Prisma) (crypto : Crypto) (token : String) (w : World) where
  check_reset-IsResettable :
      {stored : PasswordResetToken}
      → (check_reset pg crypto token w).0 ≡ ok stored
      → IsResettable crypto token (w.clock 0) w.db stored
  unfolding check_reset
  check_reset-IsResettable {stored} e =
      elim (Option-cases
        (pg.find (has_reset_hash (crypto.digest (trim token))) w.db.reset_tokens)) [
          | inl missing ↦ absurd (ground (arith, missing))
          | inr (t, found) ↦
              let (m, q) =
                pg.find_some (has_reset_hash (crypto.digest (trim token))) w.db.reset_tokens
                  found in
              let same : t ≡ stored = ground (arith, found) in
              subst (λ t. IsResettable crypto token (w.clock 0) w.db t) same
                (record {
                  listed = m;
                  hashed = (eq_iff _ _).0 q;
                  unused = ground (arith, found);
                  fresh = ground (arith, found);
                })
        ]

  check_reset-world :
      ((check_reset pg crypto token w).1.db ≡ w.db)
      × ((check_reset pg crypto token w).1.random ≡ w.random)
      × ((check_reset pg crypto token w).1.others ≡ w.others)
  unfolding check_reset
  check_reset-world = (ground arith, ground arith, ground arith)

-- What follows the checks of a reset.
abbrev renew : Prisma → Crypto → String → PasswordResetToken → Handler (Unit {0})
renew pg crypto new stored = do
  salt ← random_text
  at ← now
  transaction (consume_reset pg crypto stored (crypto.hash new salt) at)

module _ (pg : Prisma) (crypto : Crypto) (token new : String) (version : ℕ) (w : World) where
  -- The world in which the closing transaction of a reset is called.
  abbrev resetting : World
  resetting =
      let u = (check_reset pg crypto token w).1 in
      record u { random = λ n. u.random (suc n); clock = λ n. u.clock (suc n) }

  -- A password is reset only with a stored token that is neither used nor expired, and that no
  -- other request has used by the time the transaction begins; the token is then used, the account
  -- of the token opens with the new password, none of its refresh tokens is live and its token
  -- version is past the given one, if every user's was at least that one when the transaction began.
  pub reset_password-IsRenewed :
      (reset_password pg crypto token new w).0 ≡ ok tt
      → ((id : ℕ) → IsUpTo id version (w.others 0 w.db))
      → (stored : PasswordResetToken) × (at : ℕ) × IsResettable crypto token (w.clock 0) w.db stored
        × (count_where (is_usable stored.id at) (w.others 0 w.db).reset_tokens ≡ 1)
        × ((reset_password pg crypto token new w).1.db.reset_tokens
            ≡ update_where (is_usable stored.id at) (used at) (w.others 0 w.db).reset_tokens)
        × IsRenewed crypto stored.user_id version new (reset_password pg crypto token new w).1.db
  unfolding reset_password
  reset_password-IsRenewed e old =
      let check = check_reset pg crypto token in
      let u = (check w).1 in
      let (stored, checked, rest) = bind-ok check (renew pg crypto new) w e in
      let at = u.clock 0 in
      let body = consume_reset pg crypto stored (crypto.hash new (u.random 0)) at in
      let done = sym (commit-result (begin resetting) (body (begin resetting))) ∙ rest in
      let path =
        bind-eq check (renew pg crypto new) w checked
        ∙ commit-ok (begin resetting) (body (begin resetting)) done in
      let (db, random, others) = check_reset-world pg crypto token w in
      let begun : (begin resetting).db ≡ w.others 0 w.db =
        subst₂ (λ (o : ℕ → Db → Db) (d : Db). o 0 d ≡ w.others 0 w.db) (sym others) (sym db) refl in
      let (once, spent, c) =
        consume_reset-IsCut pg crypto stored (crypto.hash new (u.random 0)) at (begin resetting)
          done in
      let old' = subst (λ d. IsUpTo stored.user_id version d) (sym begun) (old stored.user_id) in
      (
        stored,
        at,
        check_reset-IsResettable pg crypto token w checked,
        rw (← begun) once,
        rw (path, ← begun) spent,
        rw path (
            cut-IsRenewed crypto stored.user_id version at new (u.random 0) (begin resetting) old'
              c),
      )
