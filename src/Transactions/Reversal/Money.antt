-- ===== src/Transactions/Reversal/Money.antt =====
-- A reversal moves the money back, and makes or loses none.
use bankproject.Base.{
  ℕ, ◌≡◌, ◌∙◌, ◌≢◌, refl, sym, ap, String, Option, some, List, map, [], ◌∷◌, arith, count_where,
  update_where, Option-cases, inl, inr, ◌⊎◌,
}
use bankproject.Text.{trim}
use bankproject.Model.{BankAccount, Transaction}
use bankproject.Prisma.{Prisma}
use bankproject.Handler.{World, ok, begin, transaction}
use bankproject.Handler.Laws.{
  transaction_keeps, bind_keeps, bind-ok, bind-eq, commit-ok, commit-result,
}
use bankproject.Store.{create_audit_log, create_security_event}
use bankproject.Int.{ℤ, pos, ◌+ℤ◌, ◌-ℤ◌, int_laws}
use bankproject.Transactions.Settlement.{has_id, decrement, increment, debit, credit}
use bankproject.Transactions.Settlement.Money.{
  total, IsSolvent, IsKeyed, total-decrement, total-increment, increment-IsSolvent,
  decrement-IsKeyed, increment-IsKeyed, count-eq-1_of_find, guarded-IsSolvent,
}
use bankproject.Transactions.Transfer.Moves.{moved, update_where-covers, update_where-moved}
use bankproject.Transactions.Reversal.{
  Reversible, holds, is_completed, undone, check_reversal, undo, reverse,
}

module _ (pg : Prisma) (user_id : ℕ) (reason : String) (c : Reversible) (w : World) where
  abbrev debited : List BankAccount
  debited =
      update_where (holds c.receiver_id c.original.amount) (decrement c.original.amount)
        w.db.accounts

  pub record IsMovedBack (t : List BankAccount) (u : List Transaction) : Type 0 where
    pub covered : count_where (holds c.receiver_id c.original.amount) w.db.accounts ≡ 1
    pub sender : BankAccount
    pub found : pg.find (has_id c.sender_id) debited ≡ some sender
    pub moved_back : t ≡ update_where (has_id c.sender_id) (increment c.original.amount) debited
    pub was_completed : count_where (is_completed c.original.id) w.db.transactions ≡ 1
    pub marked :
        u
        ≡ update_where
            (is_completed c.original.id)
            (undone (w.clock 0) user_id reason)
            w.db.transactions

  pub undo-IsMovedBack :
      {r : Option Transaction}
      → (undo pg user_id reason c w).0 ≡ ok r
      → IsMovedBack
          (undo pg user_id reason c w).1.db.accounts
          (undo pg user_id reason c w).1.db.transactions
  unfolding undo debit credit create_audit_log create_security_event
  undo-IsMovedBack e =
      let many =
        pg.update_many_lem (holds c.receiver_id c.original.amount) (decrement c.original.amount)
          w.db.accounts in
      let one = pg.update_lem (has_id c.sender_id) (increment c.original.amount) debited in
      let mark =
        pg.update_many_lem (is_completed c.original.id) (undone (w.clock 0) user_id reason)
          w.db.transactions in
      elim (Option-cases (pg.find (has_id c.sender_id) debited)) [
        | inl missing ↦ absurd (ground (arith, many, one, missing))
        | inr (a, found) ↦ record {
          covered = ground (arith, many);
          sender = a;
          found = found;
          moved_back = ground (arith, many, one, mark, found);
          was_completed = ground (arith, many, one, mark, found);
          marked = ground (arith, many, one, mark, found);
        }
      ]

  debited-IsKeyed : IsKeyed w.db.accounts → IsKeyed debited
  debited-IsKeyed k =
      decrement-IsKeyed (holds c.receiver_id c.original.amount) c.original.amount w.db.accounts k

  pub undo-total :
      {r : Option Transaction}
      → IsKeyed w.db.accounts
      → (undo pg user_id reason c w).0 ≡ ok r
      → total (undo pg user_id reason c w).1.db.accounts ≡ total w.db.accounts
  undo-total k e =
      let m = undo-IsMovedBack e in
      let one = count-eq-1_of_find pg c.sender_id debited (debited-IsKeyed k) m.found in
      rw (m.moved_back) (
        total-increment (has_id c.sender_id) c.original.amount debited one
        ∙ total-decrement (holds c.receiver_id c.original.amount) c.original.amount w.db.accounts
            m.covered)

  pub undo-IsSolvent :
      {r : Option Transaction}
      → IsSolvent w.db.accounts
      → (undo pg user_id reason c w).0 ≡ ok r
      → IsSolvent (undo pg user_id reason c w).1.db.accounts
  undo-IsSolvent s e = rw ((undo-IsMovedBack e).moved_back) (
      increment-IsSolvent (has_id c.sender_id) c.original.amount debited (
        guarded-IsSolvent (holds c.receiver_id c.original.amount) c.original.amount w.db.accounts
          (λ a q. ground arith) s))

  pub undo-IsKeyed :
      {r : Option Transaction}
      → IsKeyed w.db.accounts
      → (undo pg user_id reason c w).0 ≡ ok r
      → IsKeyed (undo pg user_id reason c w).1.db.accounts
  undo-IsKeyed k e =
      rw ((undo-IsMovedBack e).moved_back)
        (increment-IsKeyed (has_id c.sender_id) c.original.amount debited (debited-IsKeyed k))

  pub undo_moves :
      {r : Option Transaction}
      → IsKeyed w.db.accounts
      → c.receiver_id ≢ c.sender_id
      → (undo pg user_id reason c w).0 ≡ ok r
      → (undo pg user_id reason c w).1.db.accounts
        ≡ map (moved c.receiver_id c.sender_id c.original.amount) w.db.accounts
  undo_moves k ne e =
      let m = undo-IsMovedBack e in
      let p = holds c.receiver_id c.original.amount in
      m.moved_back
      ∙ ap (update_where (has_id c.sender_id) (increment c.original.amount)) (
          update_where-covers c.receiver_id p (decrement c.original.amount) w.db.accounts
            (λ a q. ground arith) k m.covered)
      ∙ update_where-moved c.receiver_id c.sender_id c.original.amount w.db.accounts ne

pub check_reversal-world :
    (pg : Prisma) (user_id id : ℕ) (w : World) → (check_reversal pg user_id id w).1 ≡ w
unfolding check_reversal
check_reversal-world pg user_id id w = ground arith

module _ (pg : Prisma) (user_id id : ℕ) (reason : String) (w : World) where
  reverse_keeps :
      (P : List BankAccount → Type 0)
      → ((c : Reversible) (v : World) (r : Option Transaction)
          → (undo pg user_id (trim reason) c v).0 ≡ ok r
          → P v.db.accounts
          → P (undo pg user_id (trim reason) c v).1.db.accounts)
      → P w.db.accounts
      → P (w.others 0 w.db).accounts
      → P (reverse pg user_id id reason w).1.db.accounts
  unfolding reverse
  reverse_keeps P keep h h' =
      let same = check_reversal-world pg user_id id w in
      bind_keeps (λ v. P v.db.accounts) (check_reversal pg user_id id)
        (λ c. transaction (undo pg user_id (trim reason) c)) w (rw same h)
        λ c _. rw same (
          transaction_keeps (λ d. P d.accounts) (undo pg user_id (trim reason) c) w
            (λ r e. keep c (begin w) r e h') h')

  -- Whatever a reversal's outcome is, the sum of all balances is afterwards what it was at its
  -- start, or what the other requests had made it when its transaction began, if account ids are
  -- unique at both times.
  reverse_conserves :
      IsKeyed w.db.accounts
      → IsKeyed (w.others 0 w.db).accounts
      → let after = (reverse pg user_id id reason w).1.db.accounts in
        (total after ≡ total w.db.accounts) ⊎ (total after ≡ total (w.others 0 w.db).accounts)
  reverse_conserves k k' =
      let (_, result) =
        reverse_keeps
          (λ t.
            IsKeyed t
            × ((total t ≡ total w.db.accounts) ⊎ (total t ≡ total (w.others 0 w.db).accounts)))
          (λ c v r e h. (
            undo-IsKeyed pg user_id (trim reason) c v h.0 e,
            elim h.1 [
              | inl p ↦ inl (undo-total pg user_id (trim reason) c v h.0 e ∙ p)
              | inr p ↦ inr (undo-total pg user_id (trim reason) c v h.0 e ∙ p)
            ],
          ))
          (k, inl refl) (k', inr refl) in
      result

  -- If no balance is below zero at the start of a reversal, nor when its transaction begins, none
  -- is below zero after it: the receiver has not spent the money by then.
  reverse-IsSolvent :
      IsSolvent w.db.accounts
      → IsSolvent (w.others 0 w.db).accounts
      → IsSolvent (reverse pg user_id id reason w).1.db.accounts
  reverse-IsSolvent s s' =
      reverse_keeps IsSolvent (λ c v r e h. undo-IsSolvent pg user_id (trim reason) c v h e) s s'

sub-add : (b x : ℤ) → b -ℤ x +ℤ x ≡ b
sub-add b x = grind int_laws

add-sub : (b x : ℤ) → b +ℤ x -ℤ x ≡ b
add-sub b x = grind int_laws

moved-moved :
    (sender receiver amount : ℕ) (a : BankAccount)
    → sender ≢ receiver
    → moved receiver sender amount (moved sender receiver amount a) ≡ a
moved-moved sender receiver amount a ne = ground (
  arith,
  ap (λ (b : ℤ). record a { balance = b }) (sub-add a.balance (pos amount)),
  ap (λ (b : ℤ). record a { balance = b }) (add-sub a.balance (pos amount)),
)

pub map-moved-moved :
    (sender receiver amount : ℕ) (t : List BankAccount)
    → sender ≢ receiver
    → map (moved receiver sender amount) (map (moved sender receiver amount) t) ≡ t
map-moved-moved sender receiver amount [] ne = refl
map-moved-moved sender receiver amount (a ∷ t) ne =
    cc (moved-moved sender receiver amount a ne, map-moved-moved sender receiver amount t ne)

module _ (pg : Prisma) (user_id id : ℕ) (reason : String) (w : World) where
  -- The rows that a successful reversal has found.
  pub reverse-checked :
      {r : Option Transaction}
      → (reverse pg user_id id reason w).0 ≡ ok r
      → (c : Reversible) × ((check_reversal pg user_id id w).0 ≡ ok c)
        × ((undo pg user_id (trim reason) c (begin w)).0 ≡ ok r)
        × ((reverse pg user_id id reason w).1 ≡ (undo pg user_id (trim reason) c (begin w)).1)
  unfolding reverse
  reverse-checked e =
      let closing = λ (c : Reversible). transaction (undo pg user_id (trim reason) c) in
      let same = check_reversal-world pg user_id id w in
      let (c, checked, done) = bind-ok (check_reversal pg user_id id) closing w e in
      let body = undo pg user_id (trim reason) c (begin w) in
      let done' = sym (commit-result (begin w) body) ∙ (rw same at done) in
      (
        c,
        checked,
        done',
        ap (λ z. z.1)
            (bind-eq (check_reversal pg user_id id) closing w checked
              ∙ ap (closing c) same
              ∙ commit-ok (begin w) body done'),
      )
