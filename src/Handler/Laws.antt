-- ===== src/Handler/Laws.antt =====
-- Rules for handlers: cases on a result, and what a transaction keeps.
use bankproject.Base.{◌≡◌, refl, ◌⊎◌, inl, inr}
use bankproject.Model.{Db}
use bankproject.Handler.{World, Result, ok, err, Error, Handler, ◌>>=◌, begin, commit, transaction}

pub Result-cases :
    {A : Type 0} (r : Result A) → ((a : A) × (r ≡ ok a)) ⊎ ((e : Error) × (r ≡ err e))
Result-cases (ok a) = inl (a, refl)
Result-cases (err e) = inr (e, refl)

module _ {A : Type 0} where
  pub commit-ok : (w : World) (q : Result A × World) {a : A} → q.0 ≡ ok a → commit w q ≡ q
  commit-ok w (ok b, v) h = refl
  commit-ok w (err e, v) h = cc

  -- A transaction whose body throws leaves the database as it found it.
  pub commit-err :
      (w : World) (q : Result A × World) {e : Error} → q.0 ≡ err e → (commit w q).1.db ≡ w.db
  commit-err w (ok b, v) h = cc
  commit-err w (err e, v) h = refl

  pub commit-result : (w : World) (q : Result A × World) → (commit w q).0 ≡ q.0
  commit-result w (ok b, v) = refl
  commit-result w (err e, v) = refl

  -- What the database satisfies when a transaction begins it satisfies at its end, if the body
  -- keeps it wherever it succeeds.
  pub transaction_keeps :
      (P : Db → Type 0) (m : Handler A) (w : World)
      → ((a : A) → (m (begin w)).0 ≡ ok a → P (m (begin w)).1.db)
      → P (begin w).db
      → P (transaction m w).1.db
  transaction_keeps P m w keep h = elim (Result-cases (m (begin w)).0) [
    | inl (a, e) ↦ rw (commit-ok (begin w) (m (begin w)) e) (keep a e)
    | inr (x, e) ↦ rw (commit-err (begin w) (m (begin w)) e) h
  ]

  pub bind_keeps :
      {B : Type 0} (P : World → Type 0) (m : Handler A) (f : A → Handler B) (w : World)
      → P (m w).1
      → ((a : A) → (m w).0 ≡ ok a → P (f a (m w).1).1)
      → P ((m >>= f) w).1
  bind_keeps {B} P m f w before after = go (m w).0 refl
    where
      go :
          (r : Result A)
          → (m w).0 ≡ r
          → P
              (elim r as (λ _. Result B × World) [
                | ok a ↦ f a (m w).1
                | err e ↦ (err e, (m w).1)
              ]).1
      go (ok a) e = after a e
      go (err x) e = before

-- Inversion of a handler that succeeds.
pub bind-ok :
    {A B : Type 0} (m : Handler A) (f : A → Handler B) (w : World) {b : B}
    → ((m >>= f) w).0 ≡ ok b
    → (a : A) × ((m w).0 ≡ ok a) × ((f a (m w).1).0 ≡ ok b)
bind-ok {A} {B} m f w {b} h = go (m w).0 refl h
  where
    go :
        (r : Result A)
        → (m w).0 ≡ r
        → (elim r as (λ _. Result B × World) [ ok a ↦ f a (m w).1 | err e ↦ (err e, (m w).1) ]).0
          ≡ ok b
        → (a : A) × ((m w).0 ≡ ok a) × ((f a (m w).1).0 ≡ ok b)
    go (ok a) e q = (a, e, q)
    go (err x) e q = cc

pub bind-eq :
    {A B : Type 0} (m : Handler A) (f : A → Handler B) (w : World) {a : A}
    → (m w).0 ≡ ok a
    → (m >>= f) w ≡ f a (m w).1
bind-eq m f w e = rw (e, ◌>>=◌)

pub bind-err :
    {A B : Type 0} (m : Handler A) (f : A → Handler B) (w : World) {e : Error}
    → (m w).0 ≡ err e
    → (m >>= f) w ≡ (err e, (m w).1)
bind-err m f w e = rw (e, ◌>>=◌)
