-- ===== src/Transactions/Transfer/Moves.antt =====
-- Where the money of a completed transfer goes.
use bankproject.Base.{
  ℕ, ◌≡◌, ◌∙◌, ◌≢◌, refl, ap, sym, Bool, true, List, [], ◌∷◌, map, arith, ◌==◌, count_where,
  update_where, if◌then◌else◌,
}
use bankproject.Model.{BankAccount}
use bankproject.Prisma.{Prisma}
use bankproject.Handler.{World, ok, begin, transaction}
use bankproject.Handler.Laws.{commit-ok, commit-result}
use bankproject.Fraud.{FraudAnalysisResponse}
use bankproject.Transactions.{TransferReply, Checked}
use bankproject.Transactions.Settlement.{covers, has_id, decrement, increment, complete}
use bankproject.Transactions.Settlement.Money.{IsKeyed}
use bankproject.Transactions.Settlement.Laws.{complete-IsMoved}

-- The specification of a transfer on one account.
abbrev pub moved : ℕ → ℕ → ℕ → BankAccount → BankAccount
moved sender receiver amount a =
    if a.id == sender
    then decrement amount a
    else if a.id == receiver
    then increment amount a
    else a

update_where-none_of_id :
    (id : ℕ) (p : BankAccount → Bool) (f : BankAccount → BankAccount) (t : List BankAccount)
    → ((a : BankAccount) → p a ≡ true → has_id id a ≡ true)
    → count_where (has_id id) t ≡ 0
    → (update_where p f t ≡ t) × (count_where p t ≡ 0)
update_where-none_of_id id p f [] only h = (refl, refl)
update_where-none_of_id id p f (a ∷ t) only h =
    ground (arith, only a, update_where-none_of_id id p f t only)

-- The guard picks the row of that id, where it picks one.
pub update_where-covers :
    (id : ℕ) (p : BankAccount → Bool) (f : BankAccount → BankAccount) (t : List BankAccount)
    → ((a : BankAccount) → p a ≡ true → has_id id a ≡ true)
    → IsKeyed t
    → count_where p t ≡ 1
    → update_where p f t ≡ update_where (has_id id) f t
update_where-covers id p f [] only k h = refl
update_where-covers id p f (a ∷ t) only k h = ground (
  arith,
  only a,
  update_where-covers id p f t only k.1,
  update_where-none_of_id id p f t only,
  update_where-none_of_id id (has_id id) f t (λ x e. e),
  λ (e : a.id ≡ id). ap (λ i. count_where (has_id i) t) e,
)

pub update_where-moved :
    (sender receiver amount : ℕ) (t : List BankAccount)
    → sender ≢ receiver
    → update_where
        (has_id receiver)
        (increment amount)
        (update_where (has_id sender) (decrement amount) t)
      ≡ map (moved sender receiver amount) t
update_where-moved sender receiver amount [] ne = refl
update_where-moved sender receiver amount (a ∷ t) ne =
    ground (arith, update_where-moved sender receiver amount t ne)

-- A transfer that completes between two different accounts takes the amount from the sender's
-- account, gives it to the receiver's, and leaves every other account as the closing transaction
-- found it, if account ids are unique then.
pub complete_moves :
    (pg : Prisma) (c : Checked) (analysis : FraudAnalysisResponse) (w : World) {r : TransferReply}
    → IsKeyed (begin w).db.accounts
    → c.sender.id ≢ c.receiver.id
    → (transaction (complete pg c analysis) w).0 ≡ ok r
    → (transaction (complete pg c analysis) w).1.db.accounts
      ≡ map (moved c.sender.id c.receiver.id c.dto.amount) (begin w).db.accounts
complete_moves pg c analysis w k ne e =
    let body = complete pg c analysis (begin w) in
    let done = sym (commit-result (begin w) body) ∙ e in
    let m = complete-IsMoved pg c analysis (begin w) done in
    let p = covers c.sender.id c.user_id c.dto.amount in
    rw (commit-ok (begin w) body done) (
      m.moved
      ∙ ap (update_where (has_id c.receiver.id) (increment c.dto.amount)) (
          update_where-covers c.sender.id p (decrement c.dto.amount) (begin w).db.accounts
            (λ a q. ground arith) k m.covered)
      ∙ update_where-moved c.sender.id c.receiver.id c.dto.amount (begin w).db.accounts ne)

moved-id :
    (sender receiver amount : ℕ) (a : BankAccount) → (moved sender receiver amount a).id ≡ a.id
moved-id sender receiver amount a = ground arith

count-map-moved :
    (sender receiver amount id : ℕ) (t : List BankAccount)
    → count_where (has_id id) (map (moved sender receiver amount) t) ≡ count_where (has_id id) t
count-map-moved sender receiver amount id [] = refl
count-map-moved sender receiver amount id (a ∷ t) =
    ground (arith, moved-id sender receiver amount a, count-map-moved sender receiver amount id t)

pub map-moved-IsKeyed :
    (sender receiver amount : ℕ) (t : List BankAccount)
    → IsKeyed t
    → IsKeyed (map (moved sender receiver amount) t)
map-moved-IsKeyed sender receiver amount [] k = tt
map-moved-IsKeyed sender receiver amount (a ∷ t) k = (
  ap (λ i. count_where (has_id i) (map (moved sender receiver amount) t))
        (moved-id sender receiver amount a)
      ∙ count-map-moved sender receiver amount a.id t
      ∙ k.0,
  map-moved-IsKeyed sender receiver amount t k.1,
)
