-- ===== src/Transactions/Settlement/Money.antt =====
-- The money in the accounts, and what a debit and a credit of rows do to it.
use bankproject.Base.{
  ℕ, ◌≤◌, ◌≡◌, refl, ap, Bool, true, some, List, [], ◌∷◌, arith, count_where, update_where, All,
}
use bankproject.Int.{ℤ, pos, ◌+ℤ◌, ◌≤ℤ◌, leb_ℤ, int_laws}
use bankproject.Model.{BankAccount}
use bankproject.Prisma.{Prisma}
use bankproject.Prisma.Found.{
  any_where_of_Memᴰ, count-pos_of_any, All-update_where, count-update_where,
}
use bankproject.Transactions.Settlement.{covers, has_id, decrement, increment}

-- The sum of the balances.
abbrev pub total : List BankAccount → ℤ
total [] = pos 0
total (a ∷ t) = a.balance +ℤ total t

abbrev pub IsFunded : BankAccount → Type 0
IsFunded a = pos 0 ≤ℤ a.balance

-- No balance is below zero.
abbrev pub IsSolvent : List BankAccount → Type 0
IsSolvent = All IsFunded

-- The key of the table: no two accounts have one id.
abbrev pub IsKeyed : List BankAccount → Type 0
IsKeyed [] = Unit
IsKeyed (a ∷ t) = (count_where (has_id a.id) t ≡ 0) × IsKeyed t

update_where-none {ℓ} :
    {A : Type ℓ} (p : A → Bool) (f : A → A) (t : List A)
    → count_where p t ≡ 0
    → update_where p f t ≡ t
update_where-none p f [] h = refl
update_where-none p f (x ∷ t) h = ground (arith, update_where-none p f t)

-- One row is debited.
pub total-decrement :
    (p : BankAccount → Bool) (amount : ℕ) (t : List BankAccount)
    → count_where p t ≡ 1
    → total (update_where p (decrement amount) t) +ℤ pos amount ≡ total t
total-decrement p amount [] h = absurd (omega arith)
total-decrement p amount (a ∷ t) h =
    grind (int_laws, total-decrement p amount t, update_where-none p (decrement amount) t)

pub total-increment :
    (p : BankAccount → Bool) (amount : ℕ) (t : List BankAccount)
    → count_where p t ≡ 1
    → total (update_where p (increment amount) t) ≡ total t +ℤ pos amount
total-increment p amount [] h = absurd (omega arith)
total-increment p amount (a ∷ t) h =
    grind (int_laws, total-increment p amount t, update_where-none p (increment amount) t)

-- A debit under a guard on the balance leaves every balance at zero or more.
pub guarded-IsSolvent :
    (p : BankAccount → Bool) (amount : ℕ) (t : List BankAccount)
    → ((a : BankAccount) → p a ≡ true → leb_ℤ (pos amount) a.balance ≡ true)
    → IsSolvent t
    → IsSolvent (update_where p (decrement amount) t)
guarded-IsSolvent p amount t guard h =
    All-update_where IsFunded p (decrement amount) t (λ a e _. grind (int_laws, guard a e)) h

pub decrement-IsSolvent :
    (id user_id amount : ℕ) (t : List BankAccount)
    → IsSolvent t
    → IsSolvent (update_where (covers id user_id amount) (decrement amount) t)
decrement-IsSolvent id user_id amount t =
    guarded-IsSolvent (covers id user_id amount) amount t (λ a e. ground arith)

pub increment-IsSolvent :
    (p : BankAccount → Bool) (amount : ℕ) (t : List BankAccount)
    → IsSolvent t
    → IsSolvent (update_where p (increment amount) t)
increment-IsSolvent p amount t h =
    All-update_where IsFunded p (increment amount) t (λ a e q. omega int_laws) h

pub decrement-IsKeyed :
    (p : BankAccount → Bool) (amount : ℕ) (t : List BankAccount)
    → IsKeyed t
    → IsKeyed (update_where p (decrement amount) t)
decrement-IsKeyed p amount [] h = tt
decrement-IsKeyed p amount (a ∷ t) h = ground (
  arith,
  decrement-IsKeyed p amount t,
  count-update_where (has_id a.id) p (decrement amount) t (λ x e. refl),
)

pub increment-IsKeyed :
    (p : BankAccount → Bool) (amount : ℕ) (t : List BankAccount)
    → IsKeyed t
    → IsKeyed (update_where p (increment amount) t)
increment-IsKeyed p amount [] h = tt
increment-IsKeyed p amount (a ∷ t) h = ground (
  arith,
  increment-IsKeyed p amount t,
  count-update_where (has_id a.id) p (increment amount) t (λ x e. refl),
)

pub count-le-1_of_IsKeyed :
    (id : ℕ) (t : List BankAccount) → IsKeyed t → count_where (has_id id) t ≤ 1
count-le-1_of_IsKeyed id [] h = omega arith
count-le-1_of_IsKeyed id (a ∷ t) h =
    ground (
      arith,
      count-le-1_of_IsKeyed id t h.1,
      λ (e : a.id ≡ id). ap (λ k. count_where (has_id k) t) e,
    )

-- The row that is found by its id is the only one.
pub count-eq-1_of_find :
    (pg : Prisma) (id : ℕ) (t : List BankAccount) {a : BankAccount}
    → IsKeyed t
    → pg.find (has_id id) t ≡ some a
    → count_where (has_id id) t ≡ 1
count-eq-1_of_find pg id t k e =
    let (m, q) = pg.find_some (has_id id) t e in
    omega (
      arith,
      count-le-1_of_IsKeyed id t k,
      count-pos_of_any _ t (any_where_of_Memᴰ (has_id id) m q),
    )
