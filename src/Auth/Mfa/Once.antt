-- ===== src/Auth/Mfa/Once.antt =====
-- The use of a recovery code.
use bankproject.Base.{
  ℕ, ◌≡◌, ◌∙◌, refl, sym, ap, String, true, false, none, some, List, [], ◌∷◌, arith, count_where,
  update_where, All, ◌==◌, Option-cases, Bool-cases, inl, inr, is_some, not, ◌&&◌,
}
use bankproject.Model.{MfaRecoveryCode}
use bankproject.Prisma.{Prisma}
use bankproject.Prisma.Found.{All-Memᴰ}
use bankproject.Handler.{World, ok}
use bankproject.Auth.{Crypto}
use bankproject.Auth.Mfa.{
  has_code_hash, hash_recovery_code, is_unused_code, spent_code, spend_code, consume_recovery_code,
}

abbrev pub IsSpentCode : String → MfaRecoveryCode → Type 0
IsSpentCode hash c = has_code_hash hash c ≡ true → is_some c.used_at ≡ true

spent_codes :
    (hash : String) (id user_id at : ℕ) (t : List MfaRecoveryCode)
    → All (λ c. has_code_hash hash c ≡ true → (c.id ≡ id) × (c.user_id ≡ user_id)) t
    → All (IsSpentCode hash) (update_where (is_unused_code id user_id) (spent_code at) t)
spent_codes hash id user_id at [] h = tt
spent_codes hash id user_id at (c ∷ t) h = ground (arith, h.0, spent_codes hash id user_id at t h.1)

module _ (pg : Prisma) (crypto : Crypto) (code : String) (w : World) where
  consume-spent :
      (user_id : ℕ)
      → All (IsSpentCode (hash_recovery_code crypto code)) w.db.recovery_codes
      → consume_recovery_code pg crypto user_id code w ≡ (ok false, w)
  unfolding consume_recovery_code spend_code
  consume-spent user_id spent =
      let p = has_code_hash (hash_recovery_code crypto code) in
      elim (Option-cases (pg.find p w.db.recovery_codes)) [
        | inl missing ↦ rw missing refl
        | inr (c, found) ↦
            let (m, q) = pg.find_some p w.db.recovery_codes found in
            let s = All-Memᴰ (IsSpentCode (hash_recovery_code crypto code)) m spent q in
            elim (Bool-cases (c.user_id == user_id)) [
              | inl e ↦ rw (found, spend_code, e, s) refl
              | inr e ↦ rw (found, spend_code, e) refl
            ]
      ]

  consume-ok :
      {user_id : ℕ}
      → (consume_recovery_code pg crypto user_id code w).0 ≡ ok true
      → (stored : MfaRecoveryCode) × (pg.find
            (has_code_hash (hash_recovery_code crypto code))
            w.db.recovery_codes
          ≡ some stored)
        × (stored.user_id ≡ user_id)
        × (stored.used_at ≡ none)
        × (count_where (is_unused_code stored.id user_id) w.db.recovery_codes ≡ 1)
        × ((consume_recovery_code pg crypto user_id code w).1.db.recovery_codes
            ≡ update_where
                (is_unused_code stored.id user_id)
                (spent_code (w.clock 0))
                w.db.recovery_codes)
  unfolding consume_recovery_code spend_code
  consume-ok {user_id} e =
      let p = has_code_hash (hash_recovery_code crypto code) in
      elim (Option-cases (pg.find p w.db.recovery_codes)) [
        | inl missing ↦ absurd (ground (arith, missing))
        | inr (c, found) ↦
            let many =
              pg.update_many_lem (is_unused_code c.id user_id) (spent_code (w.clock 0))
                w.db.recovery_codes in
            elim (Bool-cases (c.user_id == user_id && not (is_some c.used_at))) [
              | inr bad ↦ absurd (ground (arith, found, bad))
              | inl good ↦ (
                c,
                found,
                ground (arith, good),
                ground (arith, good),
                ground (arith, found, good, many),
                ground (arith, found, good, many),
              )
            ]
      ]

module _ (pg : Prisma) (crypto : Crypto) (code : String) (w v : World) where
  -- A recovery code that was accepted for a user was stored for that user and unused, and it is
  -- not accepted again for anyone, which changes nothing, in a database whose recovery codes are
  -- as the first use left them, if its digest stood in no row but one.
  pub consume_once :
      {user_id : ℕ} (other : ℕ) {stored : MfaRecoveryCode}
      → (consume_recovery_code pg crypto user_id code w).0 ≡ ok true
      → pg.find (has_code_hash (hash_recovery_code crypto code)) w.db.recovery_codes ≡ some stored
      → All
          (λ c. has_code_hash (hash_recovery_code crypto code) c ≡ true → c ≡ stored)
          w.db.recovery_codes
      → v.db.recovery_codes ≡ (consume_recovery_code pg crypto user_id code w).1.db.recovery_codes
      → (stored.user_id ≡ user_id)
        × (stored.used_at ≡ none)
        × (consume_recovery_code pg crypto other code v ≡ (ok false, v))
  consume_once {user_id} other {stored} e found only same =
      let (c, is, owned, unused, once, left) = consume-ok pg crypto code w e in
      let eq : c ≡ stored = ground (arith, is, found) in
      let all : All (IsSpentCode (hash_recovery_code crypto code)) v.db.recovery_codes =
        rw (same, left)
          (spent_codes (hash_recovery_code crypto code) c.id user_id (w.clock 0) w.db.recovery_codes
            (only_row c user_id eq owned w.db.recovery_codes only)) in
      (rw (← eq) owned, rw (← eq) unused, consume-spent pg crypto code v other all)
    where
      only_row :
          (c : MfaRecoveryCode) (user_id : ℕ)
          → c ≡ stored
          → c.user_id ≡ user_id
          → (t : List MfaRecoveryCode)
          → All (λ c. has_code_hash (hash_recovery_code crypto code) c ≡ true → c ≡ stored) t
          → All
              (λ x.
                has_code_hash (hash_recovery_code crypto code) x ≡ true
                → (x.id ≡ c.id) × (x.user_id ≡ user_id))
              t
      only_row c user_id eq owned [] h = tt
      only_row c user_id eq owned (x ∷ t) h = (
        (λ q.
            let is = h.0 q in
            (ap (λ r. r.id) (is ∙ sym eq), ap (λ r. r.user_id) (is ∙ sym eq) ∙ owned)),
        only_row c user_id eq owned t h.1,
      )
