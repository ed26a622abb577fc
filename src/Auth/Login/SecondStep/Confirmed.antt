-- ===== src/Auth/Login/SecondStep/Confirmed.antt =====
-- Who gets a session from the second step of a login.
use bankproject.Base.{
  ℕ, suc, ◌≡◌, ◌∙◌, refl, sym, ap, subst, String, Bool, true, false, Option, some, Memᴰ, arith,
  opt_str_eq, Option-cases, inl, inr,
}
use text.Mathlib.TextEquality.{eq_iff}
use bankproject.Model.{Db, User, active, medium, high}
use bankproject.Prisma.{Prisma}
use bankproject.Handler.{World, ok, ◌>>=◌}
use bankproject.Handler.Laws.{bind-ok}
use bankproject.Store.Effects.{create_security_event_lem}
use bankproject.Auth.{Claims, Crypto, Totp}
use bankproject.Auth.Tables.{has_uid}
use bankproject.Auth.Sessions.{Session}
use bankproject.Auth.Sessions.Rotation.{status_eq_active}
use bankproject.Auth.Mfa.{verify_user_code, consume_recovery_code}
use bankproject.Auth.Login.SecondStep.{
  verify_mfa_challenge, get_mfa_user, verify_mfa_login, answer_code, verify_mfa_recovery_login,
  answer_recovery_code,
}
use bankproject.Auth.Password.{auth_event}

-- A challenge that is valid at a time, for a user who has the second factor and the token version
-- of the challenge.
pub record IsChallenged (crypto : Crypto) (token : String) (at : ℕ) (d : Db) (user : User)
    : Type 0 where
  pub claims : Claims
  pub signed : crypto.verify at token ≡ some claims
  pub is_mfa : claims.kind ≡ "mfa"
  pub for_login : opt_str_eq claims.purpose (some "mfa-login") ≡ true
  pub listed : Memᴰ user d.users
  pub subject : claims.sub ≡ some user.id
  pub current : claims.token_version ≡ some user.token_version
  pub is_active : user.status ≡ active
  pub has_factor : user.mfa_enabled ≡ true

module _ (pg : Prisma) (crypto : Crypto) (token : String) (w : World) where
  abbrev pub later : World
  later = record w { clock = λ n. w.clock (suc n) }

  verify_mfa_challenge-ok :
      {c : Claims} {sub version : ℕ}
      → (verify_mfa_challenge pg crypto token w).0 ≡ ok (c, sub, version)
      → (crypto.verify (w.clock 0) token ≡ some c)
        × (c.kind ≡ "mfa")
        × (opt_str_eq c.purpose (some "mfa-login") ≡ true)
        × (c.sub ≡ some sub)
        × (c.token_version ≡ some version)
        × ((verify_mfa_challenge pg crypto token w).1 ≡ later)
  unfolding verify_mfa_challenge
  verify_mfa_challenge-ok {c} {sub} {version} e =
      elim (Option-cases (crypto.verify (w.clock 0) token)) [
        | inl bad ↦ absurd (ground (arith, bad))
        | inr (p, signed) ↦ elim (Option-cases p.sub) [
          | inl bad ↦ absurd (ground (arith, signed, bad))
          | inr (s, subject) ↦ elim (Option-cases p.token_version) [
            | inl bad ↦ absurd (ground (arith, signed, subject, bad))
            | inr (v, versioned) ↦
                let is : p ≡ c = ground (arith, signed, subject, versioned) in
                (
                  signed ∙ ap some is,
                  (eq_iff _ _).0 (ground (arith, signed, subject, versioned)),
                  ground (arith, signed, subject, versioned),
                  ground (arith, signed, subject, versioned),
                  ground (arith, signed, subject, versioned),
                  ground (arith, signed, subject, versioned),
                )
          ]
        ]
      ]

  get_mfa_user-ok :
      (sub version : ℕ) {user : User}
      → (get_mfa_user pg crypto sub version later).0 ≡ ok user
      → Memᴰ user w.db.users
        × (user.id ≡ sub)
        × (user.status ≡ active)
        × (user.mfa_enabled ≡ true)
        × (user.token_version ≡ version)
        × ((get_mfa_user pg crypto sub version later).1 ≡ later)
  unfolding get_mfa_user
  get_mfa_user-ok sub version {user} e = elim (Option-cases (pg.find (has_uid sub) w.db.users)) [
    | inl bad ↦ absurd (ground (arith, bad))
    | inr (u, found) ↦
        let (m, q) = pg.find_some (has_uid sub) w.db.users found in
        let is : u ≡ user = ground (arith, found) in
        (
          subst (λ x. Memᴰ x w.db.users) is m,
          ground (arith, q, is),
          status_eq_active user.status (ground (arith, found, is)),
          ground (arith, found, is),
          ground (arith, found, is),
          ground (arith, found, is),
        )
  ]

  challenged :
      {c : Claims} {sub version : ℕ} {user : User}
      → (verify_mfa_challenge pg crypto token w).0 ≡ ok (c, sub, version)
      → (get_mfa_user pg crypto sub version later).0 ≡ ok user
      → IsChallenged crypto token (w.clock 0) w.db user
  challenged {c} {sub} {version} {user} e f =
      let (signed, kind, purpose, subject, versioned, left) = verify_mfa_challenge-ok e in
      let (m, is, on, factor, current, same) = get_mfa_user-ok sub version f in
      record {
        claims = c;
        signed = signed;
        is_mfa = kind;
        for_login = purpose;
        listed = m;
        subject = subject ∙ ap some (sym is);
        current = versioned ∙ ap some (sym current);
        is_active = on;
        has_factor = factor;
      }

  -- The second step gives a session only on a challenge that verifies now, for a stored and active
  -- user who has the second factor and the challenge's token version, and only if the code is
  -- accepted for that user.
  pub verify_mfa_login-IsChallenged :
      (totp : Totp) (code : String) (ip : Option String) {s : Session}
      → (verify_mfa_login pg crypto totp token code ip w).0 ≡ ok s
      → (user : User) × IsChallenged crypto token (w.clock 0) w.db user
        × ((verify_user_code pg crypto totp user.id code later).0 ≡ ok true)
  unfolding verify_mfa_login answer_code
  verify_mfa_login-IsChallenged totp code ip {s} e =
      let check = verify_user_code pg crypto totp in
      let last = λ (p : Claims × ℕ × ℕ) (u : User).
        check u.id code >>= λ valid. answer_code pg crypto p.0 u ip valid in
      let (p, challenge, rest) =
        bind-ok (verify_mfa_challenge pg crypto token)
          (λ p. get_mfa_user pg crypto p.1 p.2 >>= λ u. last p u) w e in
      let left = (verify_mfa_challenge-ok challenge).5 in
      let next = λ (v : World). ((get_mfa_user pg crypto p.1 p.2 >>= λ u. last p u) v).0 ≡ ok s in
      let (u, known, end) =
        bind-ok (get_mfa_user pg crypto p.1 p.2) (λ u. last p u) later (subst next left rest) in
      let same = (get_mfa_user-ok p.1 p.2 known).5 in
      let (b, checked, answer) =
        bind-ok (check u.id code) (λ valid. answer_code pg crypto p.0 u ip valid) later
          (subst (λ v. (last p u v).0 ≡ ok s) same end) in
      (u, challenged challenge known, checked ∙ ap ok (go b p u (check u.id code later).1 answer))
    where
      go :
          (b : Bool) (p : Claims × ℕ × ℕ) (u : User) (v : World)
          → (answer_code pg crypto p.0 u ip b v).0 ≡ ok s
          → b ≡ true
      go true p u v h = refl
      go false p u v h = absurd (
          ground (
            arith,
            create_security_event_lem pg
                (auth_event u.id "MFA_LOGIN_FAILED" "Invalid MFA code during login" medium) v,
          ))

  -- A recovery code gives a session only on a challenge that verifies now, for a stored and active
  -- user who has the second factor and the challenge's token version, and only if the code is
  -- accepted for that user.
  pub verify_mfa_recovery_login-IsChallenged :
      (code : String) (ip : Option String) {s : Session}
      → (verify_mfa_recovery_login pg crypto token code ip w).0 ≡ ok s
      → (user : User) × IsChallenged crypto token (w.clock 0) w.db user
        × ((consume_recovery_code pg crypto user.id code later).0 ≡ ok true)
  unfolding verify_mfa_recovery_login answer_recovery_code
  verify_mfa_recovery_login-IsChallenged code ip {s} e =
      let check = λ (id : ℕ). consume_recovery_code pg crypto id code in
      let last = λ (p : Claims × ℕ × ℕ) (u : User).
        check u.id >>= λ valid. answer_recovery_code pg crypto p.0 u ip valid in
      let (p, challenge, rest) =
        bind-ok (verify_mfa_challenge pg crypto token)
          (λ p. get_mfa_user pg crypto p.1 p.2 >>= λ u. last p u) w e in
      let left = (verify_mfa_challenge-ok challenge).5 in
      let next = λ (v : World). ((get_mfa_user pg crypto p.1 p.2 >>= λ u. last p u) v).0 ≡ ok s in
      let (u, known, end) =
        bind-ok (get_mfa_user pg crypto p.1 p.2) (λ u. last p u) later (subst next left rest) in
      let same = (get_mfa_user-ok p.1 p.2 known).5 in
      let (b, checked, answer) =
        bind-ok (check u.id) (λ valid. answer_recovery_code pg crypto p.0 u ip valid) later
          (subst (λ v. (last p u v).0 ≡ ok s) same end) in
      (u, challenged challenge known, checked ∙ ap ok (go b p u (check u.id later).1 answer))
    where
      go :
          (b : Bool) (p : Claims × ℕ × ℕ) (u : User) (v : World)
          → (answer_recovery_code pg crypto p.0 u ip b v).0 ≡ ok s
          → b ≡ true
      go true p u v h = refl
      go false p u v h = absurd (
          ground (
            arith,
            create_security_event_lem pg
                (auth_event u.id "MFA_RECOVERY_LOGIN_FAILED"
                  "Invalid or already used MFA recovery code" high)
                v,
          ))
