-- ===== src/Auth/Guards/Access.antt =====
-- Which requests the guard lets in.
use bankproject.Base.{
  ℕ, ◌≤◌, ◌<◌, ◌≡◌, refl, sym, String, true, false, Option, none, some, Memᴰ, arith, Option-cases,
  inl, inr,
}
use text.Mathlib.TextEquality.{eq_iff}
use bankproject.Model.{
  Db, User, UserStatus, UserRole, active, locked, suspended, user_status_eq, role_eq, customer,
  bank_employee, fraud_analyst, security_analyst, admin,
}
use bankproject.Prisma.{Prisma}
use bankproject.Prisma.Found.{All-Memᴰ}
use bankproject.Handler.{World, ok, err, Error}
use bankproject.Handler.Laws.{Result-cases}
use bankproject.Auth.{Claims, Crypto}
use bankproject.Auth.Tables.{has_uid}
use bankproject.Auth.Sessions.Revocation.{IsCutOff}
use bankproject.Auth.Guards.{Principal, extract_token, auth_guard, positive}

pub role_eq_same : (a b : UserRole) → role_eq a b ≡ true → a ≡ b
role_eq_same customer customer h = refl
role_eq_same bank_employee bank_employee h = refl
role_eq_same fraud_analyst fraud_analyst h = refl
role_eq_same security_analyst security_analyst h = refl
role_eq_same admin admin h = refl
role_eq_same a b h = cc

status_active :
    (s : UserStatus)
    → user_status_eq s locked ≡ false
    → user_status_eq s suspended ≡ false
    → s ≡ active
status_active active h k = refl
status_active locked h k = cc
status_active suspended h k = cc

positive-some : (o : Option ℕ) {n : ℕ} → positive o ≡ some n → (o ≡ some n) × (0 < n)
positive-some none h = cc
positive-some (some n) h = ground arith

-- What a request shows that the guard lets in as a principal.
pub record IsAuthentic (crypto : Crypto) (header : Option String) (at : ℕ) (d : Db) (p : Principal)
    : Type 0 where
  pub token : String
  pub sent : extract_token header ≡ some token
  pub claims : Claims
  pub signed : crypto.verify at token ≡ some claims
  pub is_access : claims.kind ≡ "access"
  pub user : User
  pub listed : Memᴰ user d.users
  pub subject : claims.sub ≡ some user.id
  pub is_active : user.status ≡ active
  pub same_role : claims.role ≡ user.role
  pub current : claims.token_version ≡ some user.token_version
  pub is_user : p ≡ record { sub = user.id; email = user.email; role = user.role }

module _ (pg : Prisma) (crypto : Crypto) (header : Option String) (w : World) where
  -- A request that the guard lets in carries a token that verifies now as an access token, whose
  -- subject is a stored user that is active, has the role of the token and its token version; the
  -- request is then made as that user.
  pub auth_guard-IsAuthentic :
      {p : Principal}
      → (auth_guard pg crypto header w).0 ≡ ok p
      → IsAuthentic crypto header (w.clock 0) w.db p
  unfolding auth_guard
  auth_guard-IsAuthentic {p} e = elim (Option-cases (extract_token header)) [
    | inl none_sent ↦ absurd (ground (arith, none_sent))
    | inr (token, sent) ↦ elim (Option-cases (crypto.verify (w.clock 0) token)) [
      | inl bad ↦ absurd (ground (arith, sent, bad))
      | inr (c, signed) ↦ elim (Option-cases (positive c.sub)) [
        | inl bad ↦ absurd (ground (arith, sent, signed, bad))
        | inr (sub, positive_sub) ↦ elim (Option-cases c.token_version) [
          | inl bad ↦ absurd (ground (arith, sent, signed, positive_sub, bad))
          | inr (version, versioned) ↦ elim (Option-cases (pg.find (has_uid sub) w.db.users)) [
            | inl bad ↦ absurd (ground (arith, sent, signed, positive_sub, versioned, bad))
            | inr (u, found) ↦
                let (m, q) = pg.find_some (has_uid sub) w.db.users found in
                record {
                  token = token;
                  sent = sent;
                  claims = c;
                  signed = signed;
                  is_access =
                      (eq_iff _ _).0 (ground (arith, sent, signed, positive_sub, versioned, found));
                  user = u;
                  listed = m;
                  subject = ground (arith, q, positive-some c.sub positive_sub);
                  is_active =
                      status_active u.status
                        (ground (arith, sent, signed, positive_sub, versioned, found))
                        (ground (arith, sent, signed, positive_sub, versioned, found));
                  same_role = sym (
                      role_eq_same u.role c.role
                        (ground (arith, sent, signed, positive_sub, versioned, found)));
                  current = ground (arith, sent, signed, positive_sub, versioned, found);
                  is_user = ground (arith, sent, signed, positive_sub, versioned, found);
                }
          ]
        ]
      ]
    ]
  ]

  pub auth_guard-db : (auth_guard pg crypto header w).1.db ≡ w.db
  unfolding auth_guard
  auth_guard-db = ground arith

  -- The access tokens of an account that is cut off are refused: a request with a token that was
  -- signed for the user at the given version, or at an earlier one, is an error, and changes
  -- nothing.
  pub auth_guard_refuses :
      {token : String} {claims : Claims} {user_id signed version : ℕ}
      → extract_token header ≡ some token
      → crypto.verify (w.clock 0) token ≡ some claims
      → claims.sub ≡ some user_id
      → claims.token_version ≡ some signed
      → signed ≤ version
      → IsCutOff user_id version w.db
      → (e : Error) × ((auth_guard pg crypto header w).0 ≡ err e)
        × ((auth_guard pg crypto header w).1.db ≡ w.db)
  auth_guard_refuses {token} {claims} {user_id} {signed} {version} sent verified sub at old off =
      elim (Result-cases (auth_guard pg crypto header w).0) [
        | inr (e, bad) ↦ (e, bad, auth_guard-db)
        | inl (p, good) ↦
            let a = auth_guard-IsAuthentic good in
            let one : a.token ≡ token = ground (arith, a.sent, sent) in
            let same : a.claims ≡ claims = ground (arith, a.signed, one, verified) in
            let past =
              All-Memᴰ (λ u. u.id ≡ user_id → version < u.token_version) a.listed off.passed in
            let is : a.user.id ≡ user_id = ground (arith, a.subject, same, sub) in
            let now : a.user.token_version ≡ signed = ground (arith, a.current, same, at) in
            absurd (ground (arith, past is, now, old))
      ]
