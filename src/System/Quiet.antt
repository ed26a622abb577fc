-- ===== src/System/Quiet.antt =====
-- Handlers that leave the accounts to others: they keep whatever holds of the accounts.
pub mod Writes
pub mod Sessions
pub mod Passwords
pub mod Logins
pub mod Staff
pub mod Transfers
pub mod Setup
use bankproject.Base.{
  ℕ, ◌≡◌, refl, sym, ap, subst, ◌∙◌, inl, inr, Option-cases, String, Bool, true, false, Option,
  none, some, List, map_option, arith,
}
use bankproject.Model.{Db, BankAccount}
use bankproject.Handler.{
  Handler, Error, ◌>>=◌, pure, throw, gets, require, attempt, run, throw_if, branch, on_option, now,
  random_text, transaction,
}
use bankproject.Handler.Keeps.{
  Keeps, Keeps-pure, Keeps-throw, Keeps-gets, Keeps-require, Keeps-throw_if, Keeps-now,
  Keeps-random_text, Keeps-transaction, Keeps-if, Keeps-option, Keeps-bind, Keeps-run,
  Keeps-attempt,
}

pub record IsQuiet {A : Type 0} (m : Handler A) : Type 1 where
  pub at : (Q : List BankAccount → Type 0) → Keeps (λ d. Q d.accounts) m

module _ {A : Type 0} where
  pub IsQuiet-pure : (a : A) → IsQuiet (pure a)
  IsQuiet-pure a = record { at = λ Q. Keeps-pure a }

  pub IsQuiet-throw : (e : Error) → IsQuiet (throw {A = A} e)
  IsQuiet-throw e = record { at = λ Q. Keeps-throw e }

  pub IsQuiet-gets : (f : Db → A) → IsQuiet (gets f)
  IsQuiet-gets f = record { at = λ Q. Keeps-gets f }

  pub IsQuiet-require : (o : Option A) (e : Error) → IsQuiet (require o e)
  IsQuiet-require o e = record { at = λ Q. Keeps-require o e }

  pub IsQuiet-run : (f : Db → A × Db) → ((d : Db) → (f d).1.accounts ≡ d.accounts) → IsQuiet (run f)
  IsQuiet-run f same = record { at = λ Q. Keeps-run f (λ d h. subst Q (sym (same d)) h) }

  pub IsQuiet-attempt :
      {R : Type 0} (f : Db → Option R) (g : Db → R → A × Db) (e : Error)
      → ((d : Db) (r : R) → (g d r).1.accounts ≡ d.accounts)
      → IsQuiet (attempt (λ d. map_option (g d) (f d)) e)
  IsQuiet-attempt {R} f g e same = record {
    at = λ Q.
        Keeps-attempt (λ d. map_option (g d) (f d)) e
          λ d a d' q h. subst Q (moved d a d' (f d) q) h;
  }
    where
      moved :
          (d : Db) (a : A) (d' : Db) (o : Option R)
          → map_option (g d) o ≡ some (a, d')
          → d.accounts ≡ d'.accounts
      moved d a d' none q = cc
      moved d a d' (some r) q = ground (arith, same d r, q)

  pub IsQuiet-transaction : (m : Handler A) → IsQuiet m → IsQuiet (transaction m)
  IsQuiet-transaction m k = record { at = λ Q. Keeps-transaction m (k.at Q) }

  pub IsQuiet-if : (b : Bool) (m n : Handler A) → IsQuiet m → IsQuiet n → IsQuiet (branch b m n)
  IsQuiet-if b m n km kn = record { at = λ Q. Keeps-if b m n (km.at Q) (kn.at Q) }

pub IsQuiet-throw_if : (c : Bool) (e : Error) → IsQuiet (throw_if c e)
IsQuiet-throw_if c e = record { at = λ Q. Keeps-throw_if c e }

pub IsQuiet-now : IsQuiet now
IsQuiet-now = record { at = λ Q. Keeps-now }

pub IsQuiet-random_text : IsQuiet random_text
IsQuiet-random_text = record { at = λ Q. Keeps-random_text }

module _ {A B : Type 0} where
  pub IsQuiet-bind :
      (m : Handler A) (f : A → Handler B)
      → IsQuiet m
      → ((a : A) → IsQuiet (f a))
      → IsQuiet (m >>= f)
  IsQuiet-bind m f km kf = record { at = λ Q. Keeps-bind m f (km.at Q) (λ a. (kf a).at Q) }

  pub IsQuiet-option :
      (o : Option A) (m : Handler B) (f : A → Handler B)
      → IsQuiet m
      → ((a : A) → IsQuiet (f a))
      → IsQuiet (on_option o m f)
  IsQuiet-option o m f km kf = record { at = λ Q. Keeps-option o m f (km.at Q) (λ a. (kf a).at Q) }

pub ruleset quiet_rules = (
  IsQuiet-pure, IsQuiet-throw, IsQuiet-gets, IsQuiet-require, IsQuiet-throw_if, IsQuiet-now,
  IsQuiet-random_text, IsQuiet-transaction, IsQuiet-if, IsQuiet-option, IsQuiet-run,
  IsQuiet-attempt, IsQuiet-bind,
)
