-- ===== src/System/Ledger.antt =====
-- The bank as its clients see it: accounts that are opened empty, and payments out of the money
-- that an account holds. What the requests do to the table of accounts is measured by it.
use bankproject.Base.{
  ℕ, ◌≤◌, ◌≡◌, ◌∙◌, refl, Bool, true, List, [], ◌∷◌, arith, count_where, update_where,
}
use bankproject.Int.{ℤ, pos, int_laws}
use bankproject.Model.{BankAccount}
use bankproject.Prisma.Found.{count-update_where}
use bankproject.Transactions.Settlement.{has_id, decrement, increment}
use bankproject.Transactions.Settlement.Money.{
  total, IsSolvent, IsKeyed, total-decrement, total-increment, increment-IsSolvent,
  increment-IsKeyed, decrement-IsKeyed, guarded-IsSolvent, count-le-1_of_IsKeyed,
}
use bankproject.Transactions.Transfer.Moves.{update_where-covers}
use bankproject.Transactions.Reversal.{holds}

-- A payment: the amount is taken from one account and given to another.
abbrev pub pay : ℕ → ℕ → ℕ → List BankAccount → List BankAccount
pay from to amount t =
    update_where (has_id to) (increment amount) (update_where (has_id from) (decrement amount) t)

-- What may become of the accounts t.
pub data Ledger (t : List BankAccount) : List BankAccount → Type 0 where
  kept : Ledger t t
  -- an account with a new id and no money
  opened :
      {u : List BankAccount}
      → Ledger t u
      → (a : BankAccount) → a.balance ≡ pos 0
      → count_where (has_id a.id) u ≡ 0
      → Ledger t (a ∷ u)
  -- out of an account that holds the amount, into one that there is
  paid :
      {u : List BankAccount}
      → Ledger t u
      → (from to amount : ℕ) → count_where (holds from amount) u ≡ 1
      → count_where (has_id to) u ≡ 1
      → Ledger t (pay from to amount u)

pub Ledger-trans : {t u v : List BankAccount} → Ledger t u → Ledger u v → Ledger t v
Ledger-trans l kept = l
Ledger-trans l (opened r a e new) = opened (Ledger-trans l r) a e new
Ledger-trans l (paid r from to amount out in_to) = paid (Ledger-trans l r) from to amount out in_to

pub count_mono {ℓ} :
    {A : Type ℓ} (p q : A → Bool) (xs : List A)
    → ((x : A) → p x ≡ true → q x ≡ true)
    → count_where p xs ≤ count_where q xs
count_mono p q [] h = omega arith
count_mono p q (x ∷ xs) h = ground (arith, h x, count_mono p q xs h)

-- The sum of the balances is m, none is below zero, and no two accounts share an id.
pub record IsSound (m : ℤ) (t : List BankAccount) : Type 0 where
  pub keyed : IsKeyed t
  pub solvent : IsSolvent t
  pub sum : total t ≡ m

pub Ledger-IsKeyed : {t u : List BankAccount} → Ledger t u → IsKeyed t → IsKeyed u
Ledger-IsKeyed kept k = k
Ledger-IsKeyed (opened l a e new) k = (new, Ledger-IsKeyed l k)
Ledger-IsKeyed (paid {u} l from to amount out in_to) k =
    increment-IsKeyed (has_id to) amount (update_where (has_id from) (decrement amount) u)
      (decrement-IsKeyed (has_id from) amount u (Ledger-IsKeyed l k))

pay-IsSound :
    (m : ℤ) (from to amount : ℕ) (u : List BankAccount)
    → count_where (holds from amount) u ≡ 1
    → count_where (has_id to) u ≡ 1
    → IsSound m u
    → IsSound m (pay from to amount u)
pay-IsSound m from to amount u out in_to s =
    let debited = update_where (has_id from) (decrement amount) u in
    let holder : count_where (has_id from) u ≡ 1 = omega (
      arith,
      out,
      count_mono (holds from amount) (has_id from) u (λ a q. ground arith),
      count-le-1_of_IsKeyed from u s.keyed,
    ) in
    let there : count_where (has_id to) debited ≡ 1 =
      count-update_where (has_id to) (has_id from) (decrement amount) u (λ a q. refl) ∙ in_to in
    let same =
      update_where-covers from (holds from amount) (decrement amount) u (λ a q. ground arith)
        s.keyed out in
    record {
      keyed =
          increment-IsKeyed (has_id to) amount debited
            (decrement-IsKeyed (has_id from) amount u s.keyed);
      solvent = increment-IsSolvent (has_id to) amount debited (
          rw (← same)
            (guarded-IsSolvent (holds from amount) amount u (λ a q. ground arith) s.solvent));
      sum =
          total-increment (has_id to) amount debited there
          ∙ total-decrement (has_id from) amount u holder
          ∙ s.sum;
    }

-- Nothing that the ledger allows makes money or loses any.
pub Ledger-IsSound : (m : ℤ) {t u : List BankAccount} → Ledger t u → IsSound m t → IsSound m u
Ledger-IsSound m kept s = s
Ledger-IsSound m (opened l a e new) s =
    let r = Ledger-IsSound m l s in
    record {
      keyed = (new, r.keyed);
      solvent = (rw e (omega arith), r.solvent);
      sum = grind (int_laws, e, r.sum);
    }
Ledger-IsSound m (paid {u} l from to amount out in_to) s =
    pay-IsSound m from to amount u out in_to (Ledger-IsSound m l s)
