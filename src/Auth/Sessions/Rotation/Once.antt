-- ===== src/Auth/Sessions/Rotation/Once.antt =====
-- A second refresh with a refresh token that has been used.
use bankproject.Base.{
  ℕ, suc, ◌≡◌, ◌∙◌, refl, sym, ap, ◌≢◌, String, true, none, some, List, [], ◌∷◌, arith, ◌⊎◌,
  update_where, All, inl, inr, is_some,
}
use mathlib.Core.Path.{subst₂}
use text.Mathlib.TextEquality.{eq_iff}
use bankproject.Model.{Db, User, RefreshToken}
use bankproject.Prisma.{Prisma}
use bankproject.Prisma.Found.{All-Memᴰ}
use bankproject.Handler.{
  World, ok, err, Error, begin, Handler, transaction, ◌>>=◌, ◌>>◌, now, random_text, pure,
}
use bankproject.Handler.Laws.{bind-ok, bind-eq, bind-err, commit-ok, commit-result, Result-cases}
use bankproject.Auth.{Crypto}
use bankproject.Auth.Tables.{is_live, revoked}
use bankproject.Auth.Sessions.{Tokens, has_hash, access_claims, check_refresh, rotate, refresh}
use bankproject.Auth.Sessions.Rotation.{
  check_refresh-IsAccepted, check_refresh-found, check_refresh-db, check_refresh-random,
  check_refresh-others, IsRotated, rotate-IsRotated,
}

-- A row of that hash is revoked.
abbrev IsSpent : String → RefreshToken → Type 0
IsSpent hash t = has_hash hash t ≡ true → is_some t.revoked_at ≡ true

All-IsSpent :
    (hash : String) (id at : ℕ) (t : List RefreshToken)
    → All (λ r. has_hash hash r ≡ true → r.id ≡ id) t
    → All (IsSpent hash) (update_where (is_live id) (revoked at) t)
All-IsSpent hash id at [] h = tt
All-IsSpent hash id at (r ∷ t) h = ground (arith, h.0, All-IsSpent hash id at t h.1)

check_refresh-not_ok :
    (pg : Prisma) (crypto : Crypto) (token : String) (w : World) {found : RefreshToken × User}
    → All (IsSpent (crypto.digest token)) w.db.refresh_tokens
    → (check_refresh pg crypto token w).0 ≡ ok found
    → ⊥
check_refresh-not_ok pg crypto token w {found} spent e =
    let a = check_refresh-IsAccepted pg crypto token w e in
    let is = All-Memᴰ (IsSpent (crypto.digest token)) a.listed spent ((eq_iff _ _).1 a.hashed) in
    cc (is, ap (λ o. is_some o) a.live)

-- What follows the checks of a refresh.
abbrev finish : Crypto → RefreshToken × User → String → Handler Tokens
finish crypto found fresh = do
  signed ← now
  pure (record {
    access_token = crypto.sign signed none (access_claims found.1);
    refresh_token = fresh;
  })

abbrev proceed : Prisma → Crypto → RefreshToken × User → Handler Tokens
proceed pg crypto found = do
  fresh ← random_text
  at ← now
  transaction (rotate pg crypto found.0 found.1 fresh at)
  finish crypto found fresh

module _ (pg : Prisma) (crypto : Crypto) (token : String) (w v : World) where
  -- The world in which the closing transaction is called.
  abbrev closing : World
  closing =
      let u = (check_refresh pg crypto token w).1 in
      record u { random = λ n. u.random (suc n); clock = λ n. u.clock (suc n) }

  refresh-IsRotated :
      {r : Tokens}
      → (refresh pg crypto token w).0 ≡ ok r
      → (found : RefreshToken × User) × ((check_refresh pg crypto token w).0 ≡ ok found)
        × IsRotated pg crypto found.0 found.1
            (w.random 0)
            ((check_refresh pg crypto token w).1.clock 0)
            (begin closing)
            (refresh pg crypto token w).1.db.refresh_tokens
  unfolding refresh
  refresh-IsRotated {r} e =
      let check = check_refresh pg crypto token in
      let u = (check w).1 in
      let (found, checked, rest) = bind-ok check (proceed pg crypto) w e in
      let fresh = u.random 0 in
      let at = u.clock 0 in
      let body = rotate pg crypto found.0 found.1 fresh at in
      let last = λ (x : Unit {0}). finish crypto found fresh in
      let (x, done, end) = bind-ok (transaction body) last closing rest in
      let done' = sym (commit-result (begin closing) (body (begin closing))) ∙ done in
      let path =
        bind-eq check (proceed pg crypto) w checked
        ∙ bind-eq (transaction body) last closing done in
      let rotated = rotate-IsRotated pg crypto found.0 found.1 fresh at (begin closing) done' in
      let same =
        ap (λ z. z.1.db.refresh_tokens) (commit-ok (begin closing) (body (begin closing)) done') in
      let kept = λ (f : String) (t : List RefreshToken).
        IsRotated pg crypto found.0 found.1 f at (begin closing) t in
      (
        found,
        checked,
        subst₂ kept (ap (λ g. g 0) (check_refresh-random pg crypto token w))
            (sym (ap (λ z. z.1.db.refresh_tokens) path ∙ same)) rotated,
      )

  refused :
      All (IsSpent (crypto.digest token)) v.db.refresh_tokens
      → ((found : RefreshToken × User) × ((check_refresh pg crypto token v).0 ≡ ok found))
        ⊎ ((e : Error) × ((check_refresh pg crypto token v).0 ≡ err e))
      → (e : Error) × ((refresh pg crypto token v).0 ≡ err e)
        × ((refresh pg crypto token v).1.db ≡ v.db)
  unfolding refresh
  refused spent (inl (found, good)) = absurd (check_refresh-not_ok pg crypto token v spent good)
  refused spent (inr (e, bad)) =
      let path = bind-err (check_refresh pg crypto token) (proceed pg crypto) v bad in
      (e, ap (λ z. z.0) path, ap (λ z. z.1.db) path ∙ check_refresh-db pg crypto token v)

  -- After a refresh token has been used, it is refused from then on and refusing it changes
  -- nothing, if the database is as the refresh left it, the new token has another digest, and the
  -- row that the refresh found was still the only one with that digest when its transaction began.
  pub refresh_once :
      {r : Tokens} {stored : RefreshToken}
      → (refresh pg crypto token w).0 ≡ ok r
      → pg.find (has_hash (crypto.digest token)) w.db.refresh_tokens ≡ some stored
      → All
          (λ t. has_hash (crypto.digest token) t ≡ true → t.id ≡ stored.id)
          (w.others 0 w.db).refresh_tokens
      → crypto.digest (w.random 0) ≢ crypto.digest token
      → v.db ≡ (refresh pg crypto token w).1.db
      → (e : Error) × ((refresh pg crypto token v).0 ≡ err e)
        × ((refresh pg crypto token v).1.db ≡ v.db)
  refresh_once {stored} e found only differ same =
      let (f, checked, m) = refresh-IsRotated e in
      let hash = crypto.digest token in
      let at = (check_refresh pg crypto token w).1.clock 0 in
      let is : f.0 ≡ stored = ground (arith, check_refresh-found pg crypto token w checked) in
      let begun : (begin closing).db ≡ w.others 0 w.db =
        subst₂ (λ (o : ℕ → Db → Db) (d : Db). o 0 d ≡ w.others 0 w.db)
          (sym (check_refresh-others pg crypto token w)) (sym (check_refresh-db pg crypto token w))
          refl in
      let only' : All (λ t. has_hash hash t ≡ true → t.id ≡ f.0.id)
          (begin closing).db.refresh_tokens =
        subst₂
          (λ (x : RefreshToken) (d : Db).
            All (λ t. has_hash hash t ≡ true → t.id ≡ x.id) d.refresh_tokens)
          (sym is) (sym begun) only in
      let added' : IsSpent hash m.added = λ q. absurd (differ (sym m.new ∙ (eq_iff _ _).0 q)) in
      let spent : All (IsSpent hash) v.db.refresh_tokens =
        rw (same, m.rotated)
          (added', All-IsSpent hash f.0.id at (begin closing).db.refresh_tokens only') in
      refused spent (Result-cases (check_refresh pg crypto token v).0)
