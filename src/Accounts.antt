-- ===== src/Accounts.antt =====
-- `createAccount` of backend/src/accounts/accounts.service.ts. `getMyAccounts` is in Own.
mod Tests
use bankproject.Base.{
  ℕ, zero, suc, refl, sym, ap, subst, ◌∙◌, Option-cases, inl, inr, ◌+◌, ◌≡◌, ◌<◌, String, Bool,
  true, false, ◌&&◌, Option, none, some, List, ◌∷◌, ◌==◌, str_eq, is_some, map_option, arith,
  any_where,
}
use bankproject.Int.{pos}
use bankproject.Model.{Db, User, BankAccount}
use bankproject.Prisma.{Prisma}
use bankproject.Prisma.Found.{any_where_of_Memᴰ}
use bankproject.Handler.{
  Handler, World, ok, err, ◌>>=◌, ◌>>◌, gets, now, random_text, attempt, require, pure, not_found,
  on_option, internal, unique_violation,
}
use bankproject.Handler.Laws.{bind-eq}
use bankproject.Auth.Tables.{has_uid}

abbrev pub has_number_of : String → BankAccount → Bool
has_number_of number a = str_eq a.account_number number

abbrev pub account_clash : BankAccount → BankAccount → Bool
account_clash a b = str_eq b.account_number a.account_number

abbrev pub new_account : String → String → ℕ → ℕ → ℕ → BankAccount
new_account number currency user_id at id = record {
  id = id;
  account_number = number;
  balance = pos 0;
  currency = currency;
  user_id = user_id;
  created_at = at;
}

module _ (pg : Prisma) where
  -- The loop draws a number until one is free: the fuel bounds the draws.
  unfoldable pub generate_account_number : ℕ → Handler (Option String)
  generate_account_number zero = pure none
  generate_account_number (suc fuel) = do
    drawn ← random_text
    existing ← gets (λ d. pg.find (has_number_of (Prim.Native.String.◌++◌ "BS" drawn)) d.accounts)
    on_option existing (pure (some (Prim.Native.String.◌++◌ "BS" drawn)))
        (λ _. generate_account_number fuel)

  unfoldable pub create_account : ℕ → ℕ → String → Handler BankAccount
  create_account fuel user_id currency = do
    found ← gets (λ d. pg.find (has_uid user_id) d.users)
    user ← require found (not_found "User not found")
    drawn ← generate_account_number fuel
    number ← require drawn (internal "out of fuel")
    at ← now
    attempt
        (λ d.
          map_option (λ r. (r.0, record d { accounts = r.1 }))
            (pg.create (λ a. a.id) account_clash (new_account number currency user_id at)
              d.accounts))
        unique_violation

abbrev pub drawn_number : String → String
drawn_number drawn = Prim.Native.String.◌++◌ "BS" drawn

abbrev pub is_taken : String → Db → Bool
is_taken number d = any_where (has_number_of number) d.accounts

module _ (pg : Prisma) where
  generate_account_number-free :
      (fuel k : ℕ) (w : World)
      → k < fuel
      → is_taken (drawn_number (w.random k)) w.db ≡ false
      → (number : String) × (f : ℕ → String) × (generate_account_number pg fuel w
          ≡ (ok (some number), record w { random = f }))
        × (is_taken number w.db ≡ false)
  unfolding generate_account_number
  generate_account_number-free (suc fuel) zero w h free =
      let number = drawn_number (w.random 0) in
      elim (Option-cases (pg.find (has_number_of number) w.db.accounts)) [
        | inl none_has ↦ (
          number,
          (λ n. w.random (suc n)),
          rw none_has refl,
          pg.find_none (has_number_of number) w.db.accounts none_has,
        )
        | inr (a, found) ↦
            let (m, q) = pg.find_some (has_number_of number) w.db.accounts found in
            absurd (cc (any_where_of_Memᴰ (has_number_of number) m q, free))
      ]
  generate_account_number-free (suc fuel) (suc k) w h free =
      let number = drawn_number (w.random 0) in
      elim (Option-cases (pg.find (has_number_of number) w.db.accounts)) [
        | inl none_has ↦ (
          number,
          (λ n. w.random (suc n)),
          rw none_has refl,
          pg.find_none (has_number_of number) w.db.accounts none_has,
        )
        | inr (a, found) ↦
            let v = record w { random = λ n. w.random (suc n) } in
            let (next, f, path, unused) =
              generate_account_number-free fuel k v (omega (arith, h)) free in
            (next, f, rw found path, unused)
      ]
  generate_account_number-free zero k w h free = absurd (omega (arith, h))

module _ (pg : Prisma) (fuel k user_id : ℕ) (currency : String) (w : World) where
  -- An account is created for every stored user, if one of the numbers drawn within the fuel is
  -- free: it is empty, it belongs to the user, its number stood in no row, and the other accounts
  -- stay.
  pub create_account_returns :
      {user : User}
      → pg.find (has_uid user_id) w.db.users ≡ some user
      → k < fuel
      → is_taken (drawn_number (w.random k)) w.db ≡ false
      → (a : BankAccount) × ((create_account pg fuel user_id currency w).0 ≡ ok a)
        × ((create_account pg fuel user_id currency w).1.db.accounts ≡ a ∷ w.db.accounts)
        × (a.balance ≡ pos 0)
        × (a.user_id ≡ user_id)
        × (is_taken a.account_number w.db ≡ false)
  unfolding create_account
  create_account_returns known h free =
      let (number, f, path, unused) = generate_account_number-free pg fuel k w h free in
      let row = new_account number currency user_id (w.clock 0) in
      let one = pg.create_lem (λ a. a.id) account_clash row w.db.accounts in
      (
        row (pg.fresh (λ a. a.id) w.db.accounts),
        ground (arith, known, path, one, unused),
        ground (arith, known, path, one, unused),
        refl,
        refl,
        unused,
      )
