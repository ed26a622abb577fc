-- ===== src/Auth/Login/Entry.antt =====
-- Who gets a session: the password, and the second factor where it is enabled.
use bankproject.Base.{
  ℕ, ◌≡◌, ◌∙◌, refl, sym, ap, String, true, false, Option, none, some, Memᴰ, leb, ◌∷◌, Option-cases,
  Bool-cases, inl, inr, arith,
}
use package.text.Mathlib.TextEquality.{eq_iff}
use bankproject.Model.{text, Db, User, active, locked, suspended, user_status_eq}
use bankproject.Prisma.{Prisma}
use bankproject.Handler.{World, ok, ◌>>=◌, pure}
use bankproject.Handler.Laws.{bind-ok}
use bankproject.Store.Effects.{create_audit_log_lem, create_login_attempt_lem, attempted}
use bankproject.Devices.{Registration, register_device}
use bankproject.Auth.{Crypto}
use bankproject.Auth.Tables.{has_email}
use bankproject.Auth.Sessions.{Session, issue_session}
use bankproject.Auth.Login.{
  LoginDto, LoginReply, signed_in, mfa_required, mfa_claims, attempt_data, unknown_user,
  wrong_password, right_password, answer_login, note_device, failure, with_ip, login,
}
use bankproject.Auth.Login.Lockout.{
  email_of, login-unknown, login-wrong, login-right, failures, wrong_password-locks,
  wrong_password-refuses,
}

-- A session only without a second factor; else a challenge of five minutes for the device.
abbrev pub Answers : Crypto → User → String → LoginReply → Type 0
Answers crypto user device_id (signed_in s) = (user.mfa_enabled ≡ false) × (s.user ≡ user)
Answers crypto user device_id (mfa_required token) =
    (user.mfa_enabled ≡ true)
    × (at : ℕ) × (token ≡ crypto.sign at (some 300) (mfa_claims user device_id))

active_of :
    (s : bankproject.Model.UserStatus)
    → user_status_eq s locked ≡ false
    → user_status_eq s suspended ≡ false
    → s ≡ active
active_of active h k = refl
active_of locked h k = cc
active_of suspended h k = cc

module _ (pg : Prisma) (crypto : Crypto) where
  issue_session-user :
      (user : User) (device_id : Option String) (device : Option Registration) (w : World)
      {s : Session}
      → (issue_session pg crypto user device_id device w).0 ≡ ok s
      → s.user ≡ user
  unfolding issue_session
  issue_session-user user device_id device w e = ground arith

  unknown_user-not_ok :
      (email device_id : String) (ip : Option String) (w : World) {r : LoginReply}
      → (unknown_user pg crypto email device_id ip w).0 ≡ ok r
      → ⊥
  unfolding unknown_user
  unknown_user-not_ok email device_id ip w e =
      let attempt = attempt_data false (some device_id) ip none in
      let a = create_login_attempt_lem pg attempt w in
      let l =
        create_audit_log_lem pg
          (failure none (
            ("email", text email)
            ∷ ("deviceId", text device_id)
            ∷ ("reason", text "UNKNOWN_USER")
            ∷ with_ip ip))
          (attempted pg attempt w) in
      ground (arith, a, l)

  wrong_password-not_ok :
      (user : User) (device_id : String) (ip : Option String) (w : World) {r : LoginReply}
      → Memᴰ user w.db.users
      → (wrong_password pg crypto user device_id ip w).0 ≡ ok r
      → ⊥
  wrong_password-not_ok user device_id ip w m e =
      elim (Bool-cases (leb 5 (failures pg crypto user device_id ip w))) [
        | inl five ↦
            cc (e, (wrong_password-locks pg crypto user device_id ip w (ground (arith, five)) m).0)
        | inr few ↦
            cc (e, (wrong_password-refuses pg crypto user device_id ip w (ground (arith, few))).0)
      ]

  answer_login-Answers :
      (user : User) (device_id : String) (ip : Option String) (device : Registration) (w : World)
      {r : LoginReply}
      → (answer_login pg crypto user device_id ip device w).0 ≡ ok r
      → Answers crypto user device_id r
  unfolding answer_login
  answer_login-Answers user device_id ip device w {r} e = elim (Bool-cases user.mfa_enabled) [
    | inl on ↦
        let is : r ≡ mfa_required (crypto.sign (w.clock 0) (some 300) (mfa_claims user device_id)) =
          ground (arith, on) in
        rw is (on, w.clock 0, refl)
    | inr off ↦
        let attempt = attempt_data true (some device_id) ip (some user.id) in
        let issue = issue_session pg crypto user (some device_id) (some device) in
        let a = create_login_attempt_lem pg attempt w in
        let v = attempted pg attempt w in
        let end : ((issue >>= λ s. pure (signed_in s)) v).0 ≡ ok r = ground (arith, off, a) in
        let (s, issued, last) = bind-ok issue (λ s. pure (signed_in s)) v end in
        let is : r ≡ signed_in s = ground arith in
        rw is (off, issue_session-user user (some device_id) (some device) v issued)
  ]

  right_password-Answers :
      (user : User) (device_id : String) (agent ip : Option String) (w : World) {r : LoginReply}
      → (right_password pg crypto user device_id agent ip w).0 ≡ ok r
      → Answers crypto user device_id r
  unfolding right_password
  right_password-Answers user device_id agent ip w {r} e =
      let register = register_device pg user.id device_id agent in
      let note = λ (device : Registration). note_device pg crypto user device_id device in
      let answer =
        λ (device : Registration) (x : Unit {0}). answer_login pg crypto user device_id ip device in
      let (device, known, rest) = bind-ok register (λ device. note device >>= answer device) w e in
      let v = (register w).1 in
      let (x, noted, end) = bind-ok (note device) (answer device) v rest in
      answer_login-Answers user device_id ip device (note device v).1 end

module _ (pg : Prisma) (crypto : Crypto) (dto : LoginDto) (device_id : String)
    (agent ip : Option String) (w : World) where
  -- A login is answered only for the stored user of that address, if the account is active and the
  -- password is right: with a session if no second factor is enabled, and otherwise with no more
  -- than the challenge for the device that the request names, signed for five minutes.
  pub login-Answers :
      {r : LoginReply}
      → (login pg crypto dto device_id agent ip w).0 ≡ ok r
      → (user : User) × Memᴰ user w.db.users
        × (user.email ≡ email_of dto)
        × (user.status ≡ active)
        × (crypto.compare dto.password user.password_hash ≡ true)
        × Answers crypto user device_id r
  unfolding login
  login-Answers {r} e = elim (Option-cases (pg.find (has_email (email_of dto)) w.db.users)) [
    | inl missing ↦ absurd (
        unknown_user-not_ok pg crypto (email_of dto) device_id ip w
          (sym (ap (λ z. z.0) (login-unknown pg crypto dto device_id agent ip w missing)) ∙ e))
    | inr (u, found) ↦
        let (m, q) = pg.find_some (has_email (email_of dto)) w.db.users found in
        elim (Bool-cases (user_status_eq u.status locked)) [
          | inl shut ↦ absurd (ground (arith, found, shut))
          | inr unlocked ↦ elim (Bool-cases (user_status_eq u.status suspended)) [
            | inl shut ↦ absurd (ground (arith, found, unlocked, shut))
            | inr free ↦
                let is = active_of u.status unlocked free in
                elim (Bool-cases (crypto.compare dto.password u.password_hash)) [
                  | inr wrong ↦ absurd (
                      wrong_password-not_ok pg crypto u device_id ip w m (
                        sym (
                          ap (λ z. z.0)
                            (login-wrong pg crypto dto device_id agent ip w found is wrong))
                        ∙ e))
                  | inl right ↦ (
                    u,
                    m,
                    (eq_iff _ _).0 q,
                    is,
                    right,
                    right_password-Answers pg crypto u device_id agent ip w (
                        sym (
                          ap (λ z. z.0)
                            (login-right pg crypto dto device_id agent ip w found is right))
                        ∙ e),
                  )
                ]
          ]
        ]
  ]
