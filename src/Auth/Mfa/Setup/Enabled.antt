-- ===== src/Auth/Mfa/Setup/Enabled.antt =====
-- `verifySetup` of backend/src/auth/mfa.service.ts, and what the user has afterwards.
use bankproject.Base.{
  ℕ, zero, suc, ◌≡◌, ◌∙◌, refl, sym, ap, String, true, false, some, List, [], ◌∷◌, map, arith,
  length, All, Memᴰ, count_where, filter_where, update_where, Option-cases, Bool-cases, inl, inr,
  if◌then◌else◌,
}
use bankproject.Model.{Db, User, MfaRecoveryCode, low}
use bankproject.Prisma.{Prisma}
use bankproject.Handler.{World, ok, begin, transaction, ◌>>=◌, ◌>>◌, pure}
use bankproject.Handler.Laws.{bind-ok, bind-eq, commit-ok, commit-result}
use bankproject.Store.Effects.{create_audit_log_lem, create_security_event_lem, noted}
use bankproject.Auth.{Crypto, Totp}
use bankproject.Auth.Tables.{has_uid, update_user}
use bankproject.Auth.Password.{auth_audit, auth_event}
use bankproject.Auth.Mfa.{consume_recovery_code, hash_recovery_code}
use bankproject.Auth.Mfa.Disable.{is_code_of, no_codes_left}
use bankproject.Auth.Mfa.Setup.{
  recovery_code, generate_recovery_code_set, set_up, with_mfa, code_row, code_clash, store_codes,
  enable_mfa, check_setup, verify_setup,
}
use bankproject.Auth.Mfa.Setup.Codes.{
  IsKeyed, IsReady, insert-IsStored, filter_where-IsKeyed, consume-ready,
}

pub generate_lem :
    (n : ℕ) (w : World)
    → (codes : List String) × (f : ℕ → String) × (length codes ≡ n)
      × (generate_recovery_code_set n w ≡ (ok codes, record w { random = f }))
unfolding generate_recovery_code_set
generate_lem zero w = ([], w.random, refl, refl)
generate_lem (suc n) w =
    let v = record w { random = λ k. w.random (suc k) } in
    let (codes, f, size, path) = generate_lem n v in
    let code = recovery_code (w.random 0) in
    let rest = λ (cs : List String). pure (code ∷ cs) in
    (
      code ∷ codes,
      f,
      ap suc size,
      bind-eq (generate_recovery_code_set n) rest v (ap (λ z. z.0) path)
          ∙ ap (λ z. rest codes z.1) path,
    )

module _ (pg : Prisma) (crypto : Crypto) (user_id : ℕ) where
  -- What the user's second factor is after the closing transaction.
  pub record IsEnabled (codes : List String) (before after : Db) (at : ℕ) : Type 0 where
    pub users : after.users ≡ update_where (has_uid user_id) (with_mfa at) before.users
    pub keyed : IsKeyed after.recovery_codes
    pub ready : All (λ c. IsReady user_id (hash_recovery_code crypto c) after.recovery_codes) codes
    pub only : count_where (is_code_of user_id) after.recovery_codes ≡ length codes

  enable_mfa-IsEnabled :
      (codes : List String) (w : World)
      → IsKeyed w.db.recovery_codes
      → (enable_mfa pg crypto user_id codes w).0 ≡ ok tt
      → IsEnabled codes w.db (enable_mfa pg crypto user_id codes w).1.db (w.clock 0)
  unfolding enable_mfa update_user store_codes
  enable_mfa-IsEnabled codes w k e =
      let users = update_where (has_uid user_id) (with_mfa (w.clock 0)) w.db.users in
      let others = λ (c : MfaRecoveryCode). if is_code_of user_id c then false else true in
      let kept = filter_where others w.db.recovery_codes in
      let one = pg.update_lem (has_uid user_id) (with_mfa (w.clock 0)) w.db.users in
      let gone = pg.delete_many_lem (is_code_of user_id) w.db.recovery_codes in
      let made =
        pg.create_many (λ c. c.id) code_clash (map (code_row crypto user_id (w.clock 1)) codes)
          kept in
      elim (Option-cases (pg.find (has_uid user_id) w.db.users)) [
        | inl missing ↦ absurd (ground (arith, one, missing))
        | inr (u, found) ↦ elim (Option-cases made) [
          | inl clash ↦ absurd (ground (arith, one, gone, found, clash))
          | inr (t, stored) ↦
              let s =
                insert-IsStored pg crypto user_id (w.clock 1) codes stored
                  (filter_where-IsKeyed others w.db.recovery_codes k) in
              let v = record w {
                db = record w.db { users = users; recovery_codes = t };
                clock = λ n. w.clock (suc (suc n));
              } in
              let event =
                auth_event user_id "MFA_ENABLED" "Multi-factor authentication was enabled" low in
              let note = create_security_event_lem pg event v in
              let log =
                create_audit_log_lem pg
                  (auth_audit user_id "MFA_ENABLED"
                    "User enabled multi-factor authentication and recovery codes were generated.")
                  (noted pg event v) in
              let end : (enable_mfa pg crypto user_id codes w).1.db.recovery_codes ≡ t =
                ground (arith, one, gone, found, stored, note, log) in
              record {
                users = ground (arith, one, gone, found, stored, note, log);
                keyed = rw end s.keyed;
                ready = rw end s.ready;
                only = rw end (ground (arith, s.count, no_codes_left user_id w.db.recovery_codes));
              }
        ]
      ]

  check_setup-world :
      (totp : Totp) (code : String) (w : World)
      → (check_setup pg totp user_id code w).0 ≡ ok tt
      → (user : User) × Memᴰ user w.db.users
        × (user.id ≡ user_id)
        × (user.mfa_enabled ≡ false)
        × (secret : String) × (set_up user ≡ some secret)
        × (totp (w.clock 0) secret code ≡ some true)
        × ((check_setup pg totp user_id code w).1 ≡ record w { clock = λ n. w.clock (suc n) })
  unfolding check_setup
  check_setup-world totp code w e = elim (Option-cases (pg.find (has_uid user_id) w.db.users)) [
    | inl missing ↦ absurd (ground (arith, missing))
    | inr (u, found) ↦ elim (Bool-cases u.mfa_enabled) [
      | inl enabled ↦ absurd (ground (arith, found, enabled))
      | inr off ↦ elim (Option-cases (set_up u)) [
        | inl unset ↦ absurd (ground (arith, found, off, unset))
        | inr (secret, set) ↦ elim (Option-cases (totp (w.clock 0) secret code)) [
          | inl broken ↦ absurd (ground (arith, found, off, set, broken))
          | inr (b, tested) ↦ elim (Bool-cases b) [
            | inr bad ↦ absurd (ground (arith, found, off, set, tested, bad))
            | inl good ↦
                let (m, q) = pg.find_some (has_uid user_id) w.db.users found in
                (
                  u,
                  m,
                  ground (arith, q),
                  off,
                  secret,
                  set,
                  tested ∙ ap some good,
                  ground (arith, found, off, set, tested, good),
                )
          ]
        ]
      ]
    ]
  ]

module _ (pg : Prisma) (crypto : Crypto) (totp : Totp) (user_id : ℕ) (code : String)
    (w : World) where
  -- The second factor is put on only for a stored user who had it off, after a set-up, with a code
  -- that is valid now for the secret of the set-up. If no two recovery codes had one id when the
  -- transaction began, then ten codes are shown, the user's rows have the factor on, the stored
  -- codes of the user are ten, and each of the ten that are shown is accepted for the user next.
  pub verify_setup-IsEnabled :
      {codes : List String}
      → IsKeyed (w.others 0 w.db).recovery_codes
      → (verify_setup pg crypto totp user_id code w).0 ≡ ok codes
      → let after = (verify_setup pg crypto totp user_id code w).1 in
        ((user : User) × Memᴰ user w.db.users
          × (user.id ≡ user_id)
          × (user.mfa_enabled ≡ false)
          × (secret : String) × (set_up user ≡ some secret)
          × (totp (w.clock 0) secret code ≡ some true))
        × (length codes ≡ 10)
        × (after.db.users
            ≡ update_where (has_uid user_id) (with_mfa (w.clock 1)) (w.others 0 w.db).users)
        × (count_where (is_code_of user_id) after.db.recovery_codes ≡ 10)
        × All (λ c. (consume_recovery_code pg crypto user_id c after).0 ≡ ok true) codes
  unfolding verify_setup
  verify_setup-IsEnabled {codes} k e =
      let check = check_setup pg totp user_id code in
      let close = λ (cs : List String). transaction (enable_mfa pg crypto user_id cs) >> pure cs in
      let next = λ (x : Unit {0}). generate_recovery_code_set 10 >>= close in
      let (unit, checked, rest) = bind-ok check next w e in
      let (user, m, is, off, secret, set, valid, left) =
        check_setup-world pg crypto user_id totp code w checked in
      let v = record w { clock = λ n. w.clock (suc n) } in
      let (cs, f, size, drawn) = generate_lem 10 v in
      let u = record v { random = f } in
      let body = enable_mfa pg crypto user_id cs in
      let path : verify_setup pg crypto totp user_id code w ≡ close cs u =
        bind-eq check next w checked
        ∙ ap (next unit) left
        ∙ bind-eq (generate_recovery_code_set 10) close v (ap (λ z. z.0) drawn)
        ∙ ap (λ z. close cs z.1) drawn in
      let (x, committed, shown) =
        bind-ok (transaction body) (λ y. pure cs) u (sym (ap (λ z. z.0) path) ∙ e) in
      let enabled = sym (commit-result (begin u) (body (begin u))) ∙ committed in
      let after : (verify_setup pg crypto totp user_id code w).1 ≡ (body (begin u)).1 =
        ap (λ z. z.1) path
        ∙ ap (λ z. z.1) (bind-eq (transaction body) (λ y. pure cs) u committed)
        ∙ ap (λ z. z.1) (commit-ok (begin u) (body (begin u)) enabled) in
      let end = enable_mfa-IsEnabled pg crypto user_id cs (begin u) k enabled in
      let same : cs ≡ codes = ground (arith, shown) in
      (
        (user, m, is, off, secret, set, valid),
        rw (← same) size,
        ap (λ z. z.db.users) after ∙ end.users,
        ap (λ z. count_where (is_code_of user_id) z.db.recovery_codes) after ∙ end.only ∙ size,
        rw (← same, after) (accepted (body (begin u)).1 end.keyed cs end.ready),
      )
    where
      accepted :
          (v : World)
          → IsKeyed v.db.recovery_codes
          → (cs : List String)
          → All (λ c. IsReady user_id (hash_recovery_code crypto c) v.db.recovery_codes) cs
          → All (λ c. (consume_recovery_code pg crypto user_id c v).0 ≡ ok true) cs
      accepted v k [] h = tt
      accepted v k (c ∷ cs) h = (consume-ready pg crypto user_id c v k h.0, accepted v k cs h.1)
