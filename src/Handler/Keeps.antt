-- ===== src/Handler/Keeps.antt =====
-- What a request keeps of the database, if what the other requests commit keeps it: one rule for
-- each way to build a handler, after which `search` walks a `do` block.
use bankproject.Base.{ℕ, suc, ◌≡◌, refl, sym, subst, Bool, true, false, Option, none, some}
use bankproject.Model.{Db}
use bankproject.Handler.{
  World, Result, ok, err, Error, Handler, ◌>>=◌, begin, commit, pure, throw, gets, require, attempt,
  run, throw_if, branch, on_option, now, random_text, transaction,
}

-- It holds now, and the commits that are to come keep it.
pub record IsSteady (P : Db → Type 0) (w : World) : Type 0 where
  pub here : P w.db
  pub to_come : (n : ℕ) (d : Db) → P d → P (w.others n d)

pub record Keeps (P : Db → Type 0) {A : Type 0} (m : Handler A) : Type 0 where
  pub at : (w : World) → IsSteady P w → IsSteady P (m w).1

module _ {P : Db → Type 0} {A : Type 0} where
  pub Keeps-pure : (a : A) → Keeps P (pure a)
  Keeps-pure a = record { at = λ w h. h }

  pub Keeps-throw : (e : Error) → Keeps P (throw {A = A} e)
  Keeps-throw e = record { at = λ w h. h }

  pub Keeps-gets : (f : Db → A) → Keeps P (gets f)
  Keeps-gets f = record { at = λ w h. h }

  pub Keeps-require : (o : Option A) (e : Error) → Keeps P (require o e)
  Keeps-require none e = record { at = λ w h. h }
  Keeps-require (some a) e = record { at = λ w h. h }

  pub Keeps-run : (f : Db → A × Db) → ((d : Db) → P d → P (f d).1) → Keeps P (run f)
  Keeps-run f k = record { at = λ w h. record { here = k w.db h.here; to_come = h.to_come } }

  pub Keeps-attempt :
      (f : Db → Option (A × Db)) (e : Error)
      → ((d : Db) (a : A) (d' : Db) → f d ≡ some (a, d') → P d → P d')
      → Keeps P (attempt f e)
  Keeps-attempt f e k = record { at = λ w h. go w h (f w.db) refl }
    where
      go :
          (w : World)
          → IsSteady P w
          → (o : Option (A × Db)) → f w.db ≡ o
          → IsSteady P
              (elim o as (λ _. Result A × World) [
                | none ↦ (err e, w)
                | some (a, d) ↦ (ok a, record w { db = d })
              ]).1
      go w h none q = h
      go w h (some (a, d)) q = record { here = k w.db a d q h.here; to_come = h.to_come }

  pub Keeps-transaction : (m : Handler A) → Keeps P m → Keeps P (transaction m)
  Keeps-transaction m k = record {
    at = λ w h.
        let b : IsSteady P (begin w) = record {
          here = h.to_come 0 w.db h.here;
          to_come = λ n. h.to_come (suc n);
        } in
        go (begin w) b (m (begin w)) (k.at (begin w) b);
  }
    where
      go :
          (w : World)
          → IsSteady P w
          → (q : Result A × World) → IsSteady P q.1
          → IsSteady P (commit w q).1
      go w h (ok a, v) k = k
      go w h (err e, v) k = record { here = h.here; to_come = k.to_come }

  -- A body that keeps it only where it succeeds: the transaction is rolled back otherwise.
  pub Keeps-commit :
      (m : Handler A)
      → ((w : World) (a : A) → (m w).0 ≡ ok a → P w.db → P (m w).1.db)
      → ((w : World) → (m w).1.others ≡ w.others)
      → Keeps P (transaction m)
  Keeps-commit m done same = record {
    at = λ w h.
        let b : IsSteady P (begin w) = record {
          here = h.to_come 0 w.db h.here;
          to_come = λ n. h.to_come (suc n);
        } in
        go (begin w) b (m (begin w)) (done (begin w)) (same (begin w));
  }
    where
      go :
          (w : World)
          → IsSteady P w
          → (q : Result A × World) → ((a : A) → q.0 ≡ ok a → P w.db → P q.1.db)
          → q.1.others ≡ w.others
          → IsSteady P (commit w q).1
      go w h (ok a, v) k e = record {
        here = k a refl h.here;
        to_come = subst (λ o. (n : ℕ) (d : Db) → P d → P (o n d)) (sym e) h.to_come;
      }
      go w h (err x, v) k e = record {
        here = h.here;
        to_come = subst (λ o. (n : ℕ) (d : Db) → P d → P (o n d)) (sym e) h.to_come;
      }

  pub Keeps-if : (b : Bool) (m n : Handler A) → Keeps P m → Keeps P n → Keeps P (branch b m n)
  Keeps-if true m n km kn = km
  Keeps-if false m n km kn = kn

module _ {P : Db → Type 0} where
  pub Keeps-throw_if : (c : Bool) (e : Error) → Keeps P (throw_if c e)
  Keeps-throw_if c e = record { at = λ w h. record { here = h.here; to_come = h.to_come } }

  pub Keeps-now : Keeps P now
  Keeps-now = record { at = λ w h. record { here = h.here; to_come = h.to_come } }

  pub Keeps-random_text : Keeps P random_text
  Keeps-random_text = record { at = λ w h. record { here = h.here; to_come = h.to_come } }

module _ {P : Db → Type 0} {A B : Type 0} where
  pub Keeps-bind :
      (m : Handler A) (f : A → Handler B)
      → Keeps P m
      → ((a : A) → Keeps P (f a))
      → Keeps P (m >>= f)
  Keeps-bind m f km kf = record { at = λ w h. go (m w) (km.at w h) }
    where
      go :
          (q : Result A × World)
          → IsSteady P q.1
          → IsSteady P
              (elim q.0 as (λ _. Result B × World) [ ok a ↦ f a q.1 | err e ↦ (err e, q.1) ]).1
      go (ok a, v) h = (kf a).at v h
      go (err e, v) h = h

  pub Keeps-option :
      (o : Option A) (m : Handler B) (f : A → Handler B)
      → Keeps P m
      → ((a : A) → Keeps P (f a))
      → Keeps P (on_option o m f)
  Keeps-option none m f km kf = km
  Keeps-option (some a) m f km kf = kf a

pub ruleset keeps_rules = (
  Keeps-pure, Keeps-throw, Keeps-gets, Keeps-require, Keeps-throw_if, Keeps-now, Keeps-random_text,
  Keeps-transaction, Keeps-if, Keeps-option, Keeps-bind,
)
