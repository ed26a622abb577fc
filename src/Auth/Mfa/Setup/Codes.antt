-- ===== src/Auth/Mfa/Setup/Codes.antt =====
-- The recovery codes that are stored when a set of them is shown, and that each is good for one
-- use.
use bankproject.Base.{
  ℕ, suc, ◌+◌, ◌≡◌, ◌∙◌, refl, sym, subst, String, Bool, true, false, Option, none, some, List, [],
  ◌∷◌, map, Memᴰ, ◌==◌, arith, length, All, count_where, any_where, filter_where, Option-cases,
  Bool-cases, inl, inr,
}
use text.Mathlib.TextEquality.{eq_iff}
use bankproject.Model.{MfaRecoveryCode}
use bankproject.Prisma.{Prisma}
use bankproject.Prisma.Found.{count-eq-0_of_any, count-pos_of_any, any_where_of_Memᴰ, All-Memᴰ}
use bankproject.Handler.{World, ok}
use bankproject.Auth.{Crypto}
use bankproject.Auth.Mfa.{
  has_code_hash, hash_recovery_code, is_unused_code, spent_code, spend_code, consume_recovery_code,
}
use bankproject.Auth.Mfa.Disable.{is_code_of}
use bankproject.Auth.Mfa.Setup.{code_row, code_clash}

abbrev pub has_cid : ℕ → MfaRecoveryCode → Bool
has_cid id c = c.id == id

-- The key of the table.
abbrev pub IsKeyed : List MfaRecoveryCode → Type 0
IsKeyed [] = Unit
IsKeyed (c ∷ t) = (count_where (has_cid c.id) t ≡ 0) × IsKeyed t

abbrev pub IsFree : ℕ → String → MfaRecoveryCode → Type 0
IsFree user_id hash c = has_code_hash hash c ≡ true → (c.user_id ≡ user_id) × (c.used_at ≡ none)

-- A code with this digest stands in the table, and wherever it stands it is the user's and unused.
pub record IsReady (user_id : ℕ) (hash : String) (t : List MfaRecoveryCode) : Type 0 where
  pub free : All (IsFree user_id hash) t
  pub stored : any_where (has_code_hash hash) t ≡ true

count-filter :
    (p : MfaRecoveryCode → Bool) (q : MfaRecoveryCode → Bool) (t : List MfaRecoveryCode)
    → count_where p t ≡ 0
    → count_where p (filter_where q t) ≡ 0
count-filter p q [] h = refl
count-filter p q (c ∷ t) h = ground (arith, count-filter p q t)

pub filter_where-IsKeyed :
    (q : MfaRecoveryCode → Bool) (t : List MfaRecoveryCode) → IsKeyed t → IsKeyed (filter_where q t)
filter_where-IsKeyed q [] k = tt
filter_where-IsKeyed q (c ∷ t) k = elim (Bool-cases (q c)) [
  | inl e ↦ rw (e, IsKeyed) (count-filter (has_cid c.id) q t k.0, filter_where-IsKeyed q t k.1)
  | inr e ↦ rw (e, IsKeyed) (filter_where-IsKeyed q t k.1)
]

fresh_hash :
    (user_id : ℕ) (hash : String) (t : List MfaRecoveryCode)
    → any_where (has_code_hash hash) t ≡ false
    → All (IsFree user_id hash) t
fresh_hash user_id hash [] h = tt
fresh_hash user_id hash (c ∷ t) h =
    ((λ q. absurd (ground (arith, q, h))), fresh_hash user_id hash t (ground (arith, h)))

no_more :
    (p : MfaRecoveryCode → Bool) (id : ℕ) (t : List MfaRecoveryCode)
    → ((c : MfaRecoveryCode) → p c ≡ true → c.id ≡ id)
    → count_where (has_cid id) t ≡ 0
    → count_where p t ≡ 0
no_more p id [] key h = refl
no_more p id (c ∷ t) key h = ground (arith, key c, no_more p id t key)

-- A test that implies one key finds the row that it is true of, and no other.
only_one :
    (p : MfaRecoveryCode → Bool) {r : MfaRecoveryCode} (t : List MfaRecoveryCode)
    → IsKeyed t
    → Memᴰ r t
    → p r ≡ true
    → ((c : MfaRecoveryCode) → p c ≡ true → c.id ≡ r.id)
    → count_where p t ≡ 1
only_one p [] k m h key = elim m [ ]
only_one p {r} (c ∷ t) k (Memᴰ.head e) h key =
    let found : p c ≡ true = rw (← e) h in
    let same : c.id ≡ r.id = key c found in
    ground (arith, found, no_more p c.id t (λ d q. key d q ∙ sym same) k.0)
only_one p {r} (c ∷ t) k (Memᴰ.tail m) h key = elim (Bool-cases (p c)) [
  | inr e ↦ ground (arith, e, only_one p t k.1 m h key)
  | inl e ↦ absurd (
      ground (
        arith,
        k.0,
        count-pos_of_any (has_cid c.id) t
            (any_where_of_Memᴰ (has_cid c.id) m (ground (arith, key c e))),
      ))
]

module _ (pg : Prisma) (crypto : Crypto) (user_id at : ℕ) where
  abbrev rows : List String → List (ℕ → MfaRecoveryCode)
  rows codes = map (code_row crypto user_id at) codes

  abbrev insert : List String → List MfaRecoveryCode → Option (List MfaRecoveryCode)
  insert codes t = pg.create_many (λ c. c.id) code_clash (rows codes) t

  record IsAdded (code : String) (t u : List MfaRecoveryCode) : Type 0 where
    row : MfaRecoveryCode
    owned : row.user_id ≡ user_id
    unused : row.used_at ≡ none
    digest : row.code_hash ≡ hash_recovery_code crypto code
    shape : u ≡ row ∷ t
    new_key : count_where (has_cid row.id) t ≡ 0
    new_hash : any_where (has_code_hash (hash_recovery_code crypto code)) t ≡ false

  insert-cons :
      (code : String) (codes : List String) (t u : List MfaRecoveryCode)
      → insert (code ∷ codes) t ≡ some u
      → (v : List MfaRecoveryCode) × IsAdded code t v × (insert codes v ≡ some u)
  insert-cons code codes t u e =
      let row = code_row crypto user_id at code in
      let made = row (pg.fresh (λ c. c.id) t) in
      let many = pg.create_many_cons (λ c. c.id) code_clash row (rows codes) t in
      let one = pg.create_lem (λ c. c.id) code_clash row t in
      elim (Bool-cases (any_where (code_clash made) t)) [
        | inl clash ↦ absurd (ground (arith, e, many, one, clash))
        | inr new ↦ (
          made ∷ t,
          record {
            row = made;
            owned = refl;
            unused = refl;
            digest = refl;
            shape = refl;
            new_key = count-eq-0_of_any (has_cid made.id) t (pg.fresh_new (λ c. c.id) t);
            new_hash = new;
          },
          ground (arith, e, many, one, new),
        )
      ]

  added-IsReady :
      {code : String} {t u : List MfaRecoveryCode}
      → IsAdded code t u
      → IsReady user_id (hash_recovery_code crypto code) u
  added-IsReady {code} {t} a =
      let ready : IsReady user_id (hash_recovery_code crypto code) (a.row ∷ t) = record {
        free = (
          (λ q. (a.owned, a.unused)),
          fresh_hash user_id (hash_recovery_code crypto code) t a.new_hash,
        );
        stored =
            ground (arith, a.digest, (eq_iff a.row.code_hash (hash_recovery_code crypto code)).1);
      } in
      rw (a.shape) ready

  keep-IsReady :
      {code hash : String} {t u : List MfaRecoveryCode}
      → IsAdded code t u
      → IsReady user_id hash t
      → IsReady user_id hash u
  keep-IsReady {code} {hash} {t} a r =
      let ready : IsReady user_id hash (a.row ∷ t) = record {
        free = ((λ q. (a.owned, a.unused)), r.free);
        stored = ground (arith, r.stored);
      } in
      rw (a.shape) ready

  added-IsKeyed :
      {code : String} {t u : List MfaRecoveryCode} → IsAdded code t u → IsKeyed t → IsKeyed u
  added-IsKeyed {code} {t} a k =
      let keyed : IsKeyed (a.row ∷ t) = (a.new_key, k) in rw (a.shape) keyed

  added_count :
      {code : String} {t u : List MfaRecoveryCode}
      → IsAdded code t u
      → count_where (is_code_of user_id) u ≡ suc (count_where (is_code_of user_id) t)
  added_count a = rw (a.shape) (ground (arith, a.owned))

  insert-keeps :
      (codes : List String) {hash : String} {t u : List MfaRecoveryCode}
      → insert codes t ≡ some u
      → IsReady user_id hash t
      → IsReady user_id hash u
  insert-keeps [] {hash} {t} {u} e r =
      subst (IsReady user_id hash) (ground (arith, e, pg.create_many_nil (λ c. c.id) code_clash t))
        r
  insert-keeps (code ∷ codes) {hash} {t} {u} e r =
      let (v, a, rest) = insert-cons code codes t u e in insert-keeps codes rest (keep-IsReady a r)

  -- All of the codes are stored, and nothing else of the user.
  pub record IsStored (codes : List String) (t u : List MfaRecoveryCode) : Type 0 where
    pub keyed : IsKeyed u
    pub ready : All (λ c. IsReady user_id (hash_recovery_code crypto c) u) codes
    pub count :
        count_where (is_code_of user_id) u ≡ length codes + count_where (is_code_of user_id) t

  pub insert-IsStored :
      (codes : List String) {t u : List MfaRecoveryCode}
      → insert codes t ≡ some u
      → IsKeyed t
      → IsStored codes t u
  insert-IsStored [] {t} {u} e k =
      let same : t ≡ u = ground (arith, e, pg.create_many_nil (λ c. c.id) code_clash t) in
      record { keyed = subst IsKeyed same k; ready = tt; count = rw (← same) (omega arith) }
  insert-IsStored (code ∷ codes) {t} {u} e k =
      let (v, a, rest) = insert-cons code codes t u e in
      let s = insert-IsStored codes rest (added-IsKeyed a k) in
      record {
        keyed = s.keyed;
        ready = (insert-keeps codes rest (added-IsReady a), s.ready);
        count = ground (arith, s.count, added_count a);
      }

module _ (pg : Prisma) (crypto : Crypto) (user_id : ℕ) (code : String) (w : World) where
  -- A code that is ready is accepted.
  pub consume-ready :
      IsKeyed w.db.recovery_codes
      → IsReady user_id (hash_recovery_code crypto code) w.db.recovery_codes
      → (consume_recovery_code pg crypto user_id code w).0 ≡ ok true
  unfolding consume_recovery_code spend_code
  consume-ready k r =
      let p = has_code_hash (hash_recovery_code crypto code) in
      let t = w.db.recovery_codes in
      elim (Option-cases (pg.find p t)) [
        | inl missing ↦ absurd (ground (arith, r.stored, pg.find_none p t missing))
        | inr (c, found) ↦
            let (m, q) = pg.find_some p t found in
            let (owned, unused) =
              All-Memᴰ (IsFree user_id (hash_recovery_code crypto code)) m r.free q in
            let spent = is_unused_code c.id user_id in
            let once =
              only_one spent t k m (ground (arith, owned, unused)) (λ d h. ground (arith, h)) in
            ground (
              arith,
              found,
              owned,
              unused,
              once,
              pg.update_many_lem spent (spent_code (w.clock 0)) t,
            )
      ]
