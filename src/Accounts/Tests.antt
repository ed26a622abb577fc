-- ===== src/Accounts/Tests.antt =====
-- An account of a sample user, whose first number is taken.
use bankproject.Base.{ℕ, zero, suc, ◌≡◌, refl, arith, String, false, [], ◌∷◌}
use bankproject.Int.{pos}
use bankproject.Model.{BankAccount, customer, active}
use bankproject.Prisma.Listed.{listed}
use bankproject.Handler.{World, ok}
use bankproject.Auth.Sample.{person, people, at_work}
use bankproject.Accounts.{
  new_account, generate_account_number, create_account, is_taken, create_account_returns,
}

ran : Unit {0}
unfolding generate_account_number create_account
ran = tt

-- The texts that are drawn: "7" first.
abbrev draws : ℕ → String
draws zero = "7"
draws (suc n) = "8"

abbrev crowded : World
crowded = record (at_work (record people { accounts = new_account "BS7" "USD" 2 0 1 ∷ [] })) {
  random = draws;
}

create_account_returns_example :
    (a : BankAccount) × ((create_account listed 2 1 "USD" crowded).0 ≡ ok a)
    × ((create_account listed 2 1 "USD" crowded).1.db.accounts ≡ a ∷ crowded.db.accounts)
    × (a.balance ≡ pos 0)
    × (a.user_id ≡ 1)
    × (is_taken a.account_number crowded.db ≡ false)
unfolding ran
create_account_returns_example =
    create_account_returns listed 2 1 1 "USD" crowded {user = person 1 "ann@b" customer active} refl
      (omega arith) refl
