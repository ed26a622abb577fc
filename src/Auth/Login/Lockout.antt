-- ===== src/Auth/Login/Lockout.antt =====
-- Failed logins, and the lock that they lead to.
use bankproject.Base.{
  ℕ, suc, ◌-◌, ◌≤◌, ◌<◌, ◌≡◌, ◌∙◌, refl, sym, ap, String, Bool, true, false, Option, none, some,
  List, [], ◌∷◌, Memᴰ, arith, count_where, any_where, update_where, All, leb, Option-cases, inl,
  inr,
}
use bankproject.Text.{trim, to_lower}
use bankproject.Model.{User, active, locked, high, text}
use bankproject.Prisma.{Prisma}
use bankproject.Prisma.Found.{any_where_of_Memᴰ, All-Memᴰ, any-update_where}
use bankproject.Handler.{World, err, unauthorized}
use bankproject.Store.{create_security_event, attempt_row}
use bankproject.Store.Effects.{
  create_audit_log_lem, create_security_event_lem, create_login_attempt_lem, attempted, logged,
}
use bankproject.Auth.{Crypto}
use bankproject.Auth.Tables.{has_uid, has_email, update_user}
use bankproject.Auth.Password.{auth_audit, auth_event}
use bankproject.Auth.Login.{
  LoginDto, attempt_data, failure, with_ip, lock, lock_window, is_failure_of, unknown_user,
  right_password, wrong_password, login,
}

module _ (pg : Prisma) (crypto : Crypto) (user : User) (device_id : String) (ip : Option String)
    (w : World) where
  -- The world after the failure has been noted, when the failures are counted.
  abbrev pub failed : World
  failed =
      logged pg
        (failure (some user.id)
          (("deviceId", text device_id) ∷ ("reason", text "INVALID_PASSWORD") ∷ with_ip ip))
        (attempted pg (attempt_data false (some device_id) ip (some user.id)) w)

  -- The failures of the user within the window that ends when they are counted, this one included.
  abbrev pub failures : ℕ
  failures =
      count_where (is_failure_of user.id (failed.clock 0 - lock_window)) failed.db.login_attempts

  abbrev closed : World
  closed = record failed {
    clock = λ n. failed.clock (suc n);
    db = record failed.db { users = update_where (has_uid user.id) lock w.db.users };
  }

  pub wrong_password-locks :
      5 ≤ failures
      → Memᴰ user w.db.users
      → ((wrong_password pg crypto user device_id ip w).0
          ≡ err (unauthorized "Account locked because of repeated failed login attempts"))
        × ((wrong_password pg crypto user device_id ip w).1.db.users
            ≡ update_where (has_uid user.id) lock w.db.users)
  unfolding wrong_password update_user
  wrong_password-locks five listed =
      let a =
        create_login_attempt_lem pg (attempt_data false (some device_id) ip (some user.id)) w in
      let l =
        create_audit_log_lem pg
          (failure (some user.id)
            (("deviceId", text device_id) ∷ ("reason", text "INVALID_PASSWORD") ∷ with_ip ip))
          (attempted pg (attempt_data false (some device_id) ip (some user.id)) w) in
      let n =
        pg.count_lem (is_failure_of user.id (failed.clock 0 - lock_window))
          failed.db.login_attempts in
      let one = pg.update_lem (has_uid user.id) lock w.db.users in
      let five' : leb 5 failures ≡ true = ground arith in
      elim (Option-cases (pg.find (has_uid user.id) w.db.users)) [
        | inl missing ↦ absurd (
            cc (
              any_where_of_Memᴰ (has_uid user.id) listed (ground arith),
              pg.find_none (has_uid user.id) w.db.users missing,
            ))
        | inr (u, found) ↦
            let event =
              create_security_event_lem pg
                (auth_event user.id "ACCOUNT_LOCKED"
                  "Account locked after 5 failed login attempts within 15 minutes" high)
                closed in
            let logs =
              create_audit_log_lem pg
                (auth_audit user.id "ACCOUNT_LOCKED"
                  "Account locked after repeated failed login attempts within 15 minutes.")
                (create_security_event pg
                  (auth_event user.id "ACCOUNT_LOCKED"
                    "Account locked after 5 failed login attempts within 15 minutes" high)
                  closed).1 in
            (
              ground (arith, a, l, n, five', one, found, event, logs),
              ground (arith, a, l, n, five', one, found, event, logs),
            )
      ]

  pub wrong_password-refuses :
      failures < 5
      → ((wrong_password pg crypto user device_id ip w).0
          ≡ err (unauthorized "Invalid email or password"))
        × ((wrong_password pg crypto user device_id ip w).1
            ≡ record failed { clock = λ n. failed.clock (suc n) })
  unfolding wrong_password
  wrong_password-refuses few =
      let a =
        create_login_attempt_lem pg (attempt_data false (some device_id) ip (some user.id)) w in
      let l =
        create_audit_log_lem pg
          (failure (some user.id)
            (("deviceId", text device_id) ∷ ("reason", text "INVALID_PASSWORD") ∷ with_ip ip))
          (attempted pg (attempt_data false (some device_id) ip (some user.id)) w) in
      let n =
        pg.count_lem (is_failure_of user.id (failed.clock 0 - lock_window))
          failed.db.login_attempts in
      let five' : leb 5 failures ≡ false = ground arith in
      (ground (arith, a, l, n, five'), ground (arith, a, l, n, five'))

abbrev pub email_of : LoginDto → String
email_of dto = to_lower (trim dto.email)

All-locked :
    (email : String) (id : ℕ) (t : List User)
    → All (λ u. has_email email u ≡ true → u.id ≡ id) t
    → All (λ u. has_email email u ≡ true → u.status ≡ locked) (update_where (has_uid id) lock t)
All-locked email id [] h = tt
All-locked email id (u ∷ t) h = ground (arith, h.0, All-locked email id t h.1)

module _ (pg : Prisma) (crypto : Crypto) (dto : LoginDto) (device_id : String)
    (agent ip : Option String) (w : World) where
  pub login-wrong :
      {user : User}
      → pg.find (has_email (email_of dto)) w.db.users ≡ some user
      → user.status ≡ active
      → crypto.compare dto.password user.password_hash ≡ false
      → login pg crypto dto device_id agent ip w ≡ wrong_password pg crypto user device_id ip w
  unfolding login
  login-wrong found is wrong = rw (found, is, wrong) refl

  pub login-right :
      {user : User}
      → pg.find (has_email (email_of dto)) w.db.users ≡ some user
      → user.status ≡ active
      → crypto.compare dto.password user.password_hash ≡ true
      → login pg crypto dto device_id agent ip w
        ≡ right_password pg crypto user device_id agent ip w
  unfolding login
  login-right found is right = simp (found, is, right)

  pub login-unknown :
      pg.find (has_email (email_of dto)) w.db.users ≡ none
      → login pg crypto dto device_id agent ip w
        ≡ unknown_user pg crypto (email_of dto) device_id ip w
  unfolding login
  login-unknown missing = rw missing refl

  login-locked :
      All (λ u. has_email (email_of dto) u ≡ true → u.status ≡ locked) w.db.users
      → {user : User} → pg.find (has_email (email_of dto)) w.db.users ≡ some user
      → login pg crypto dto device_id agent ip w ≡ (err (unauthorized "Account is locked"), w)
  unfolding login
  login-locked all {user} found =
      let (m, q) = pg.find_some (has_email (email_of dto)) w.db.users found in
      let is = All-Memᴰ (λ u. has_email (email_of dto) u ≡ true → u.status ≡ locked) m all q in
      rw (found, is) refl

module _ (pg : Prisma) (crypto : Crypto) (dto : LoginDto) (device_id : String)
    (agent ip : Option String) (w : World) {user : User} where
  -- A wrong password for an active account, with fewer than five failures in the last fifteen
  -- minutes, this one included, is refused and leaves every user as it was; the failure is noted.
  login_refused :
      pg.find (has_email (email_of dto)) w.db.users ≡ some user
      → user.status ≡ active
      → crypto.compare dto.password user.password_hash ≡ false
      → failures pg crypto user device_id ip w < 5
      → ((login pg crypto dto device_id agent ip w).0
          ≡ err (unauthorized "Invalid email or password"))
        × ((login pg crypto dto device_id agent ip w).1.db.users ≡ w.db.users)
        × ((login pg crypto dto device_id agent ip w).1.db.login_attempts
            ≡ attempt_row
                (attempt_data false (some device_id) ip (some user.id))
                (w.clock 0)
                (pg.fresh (λ r. r.id) w.db.login_attempts)
              ∷ w.db.login_attempts)
  login_refused found is wrong few =
      let path = login-wrong pg crypto dto device_id agent ip w found is wrong in
      let (refused, left) = wrong_password-refuses pg crypto user device_id ip w few in
      (
        ap (λ z. z.0) path ∙ refused,
        ap (λ z. z.1.db.users) path ∙ ap (λ v. v.db.users) left,
        ap (λ z. z.1.db.login_attempts) path ∙ ap (λ v. v.db.login_attempts) left,
      )

  -- The fifth failure within fifteen minutes locks the account: the login is refused, and from
  -- then on a login with that address is refused whatever the password, and changes nothing, in a
  -- database whose users are as this login left them, if the address stands in the rows of one
  -- user only.
  pub login_locks :
      pg.find (has_email (email_of dto)) w.db.users ≡ some user
      → user.status ≡ active
      → crypto.compare dto.password user.password_hash ≡ false
      → 5 ≤ failures pg crypto user device_id ip w
      → All (λ u. has_email (email_of dto) u ≡ true → u.id ≡ user.id) w.db.users
      → (v : World) (later : LoginDto) (device : String) (agent' ip' : Option String)
      → v.db.users ≡ (login pg crypto dto device_id agent ip w).1.db.users
      → email_of later ≡ email_of dto
      → ((login pg crypto dto device_id agent ip w).0
          ≡ err (unauthorized "Account locked because of repeated failed login attempts"))
        × (login pg crypto later device agent' ip' v ≡ (err (unauthorized "Account is locked"), v))
  login_locks found is wrong five only v later device agent' ip' same email =
      let path = login-wrong pg crypto dto device_id agent ip w found is wrong in
      let (m, q) = pg.find_some (has_email (email_of dto)) w.db.users found in
      let (refused, users) = wrong_password-locks pg crypto user device_id ip w five m in
      let now = same ∙ ap (λ z. z.1.db.users) path ∙ users in
      let all : All (λ u. has_email (email_of later) u ≡ true → u.status ≡ locked) v.db.users =
        rw (now, email) (All-locked (email_of dto) user.id w.db.users only) in
      (
        ap (λ z. z.0) path ∙ refused,
        elim (Option-cases (pg.find (has_email (email_of later)) v.db.users)) [
          | inr (u, f) ↦ login-locked pg crypto later device agent' ip' v all f
          | inl missing ↦
              let gone = pg.find_none (has_email (email_of later)) v.db.users missing in
              let here = any_where_of_Memᴰ (has_email (email_of dto)) m q in
              let kept =
                any-update_where (has_email (email_of dto)) (has_uid user.id) lock w.db.users
                  (λ u. refl) in
              absurd (
                clash (ap (λ e. any_where (has_email e) v.db.users) (sym email) ∙ gone)
                  (ap (λ t. any_where (has_email (email_of dto)) t) now ∙ kept ∙ here))
        ],
      )
    where
      clash : {b : Bool} → b ≡ false → b ≡ true → ⊥
      clash h k = cc
