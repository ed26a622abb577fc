-- ===== src/System/Money.antt =====
-- The requests that write to the accounts do what the ledger allows.
use bankproject.Base.{
  ℕ, zero, suc, ◌≡◌, refl, sym, subst, ◌∙◌, Option-cases, inl, inr, String, Bool, true, Option,
  none, some, List, ◌∷◌, arith, map_option, count_where, update_where,
}
use bankproject.Model.{BankAccount}
use bankproject.Prisma.{Prisma}
use bankproject.Prisma.Found.{count-eq-0_of_any, count-update_where}
use bankproject.Handler.{
  Handler, World, transaction, ◌>>=◌, random_text, attempt, gets, on_option, pure, unique_violation,
}
use bankproject.Handler.Keeps.{Keeps, Keeps-attempt, Keeps-commit, keeps_rules}
use bankproject.Store.{create_audit_log, create_security_event, create_transaction}
use bankproject.Fraud.{FraudEngine, FraudAnalysisResponse}
use bankproject.Accounts.{
  account_clash, new_account, has_number_of, drawn_number, generate_account_number, create_account,
}
use bankproject.Transactions.{CreateTransferDto, TransferReply, Platform, Checked}
use bankproject.Transactions.Settlement.{
  debit, credit, flag, complete, has_id, covers, decrement, increment,
}
use bankproject.Transactions.Settlement.Money.{
  IsKeyed, decrement-IsKeyed, count-le-1_of_IsKeyed, count-eq-1_of_find,
}
use bankproject.Transactions.Settlement.Laws.{complete-IsMoved}
use bankproject.Transactions.Transfer.{
  settle, transfer_anew, unless_replayed, transfer_under, transfer, post_transfer,
}
use bankproject.Transactions.Transfer.Moves.{update_where-covers}
use bankproject.Transactions.Reversal.{Reversible, holds, undo, reverse}
use bankproject.Transactions.Reversal.Money.{undo-IsMovedBack}
use bankproject.System.Ledger.{Ledger, opened, paid, count_mono, Ledger-IsKeyed}
use bankproject.System.Quiet.{IsQuiet, IsQuiet-pure, quiet_rules}
use bankproject.System.Quiet.Transfers.{
  IsQuiet-flag, IsQuiet-find_idempotent_transfer, IsQuiet-check_reversal, IsQuiet-check_transfer,
  IsQuiet-fraud_features, IsQuiet-analyze,
}

-- From the accounts t a handler goes on as the ledger allows.
abbrev pub Refines : List BankAccount → {A : Type 0} → Handler A → Type 0
Refines t h = Keeps (λ d. Ledger t d.accounts) h

pub Refines-quiet : (t : List BankAccount) {A : Type 0} (h : Handler A) → IsQuiet h → Refines t h
Refines-quiet t h q = q.at (Ledger t)

module _ (pg : Prisma) {t : List BankAccount} where
  -- A guarded debit of one row and a credit of another are a payment.
  moved-Ledger :
      (p : BankAccount → Bool) (from to amount : ℕ)
      → ((a : BankAccount) → p a ≡ true → holds from amount a ≡ true)
      → (u : List BankAccount) → IsKeyed t
      → Ledger t u
      → count_where p u ≡ 1
      → {a : BankAccount} → pg.find (has_id to) (update_where p (decrement amount) u) ≡ some a
      → {v : List BankAccount}
      → v ≡ update_where (has_id to) (increment amount) (update_where p (decrement amount) u)
      → Ledger t v
  moved-Ledger p from to amount guard u k l covered found moved =
      let keyed = Ledger-IsKeyed l k in
      let debited = update_where p (decrement amount) u in
      let only : (a : BankAccount) → p a ≡ true → has_id from a ≡ true =
        λ a q. ground (arith, guard a q) in
      let out : count_where (holds from amount) u ≡ 1 = omega (
        arith,
        covered,
        count_mono p (holds from amount) u guard,
        count_mono (holds from amount) (has_id from) u (λ a q. ground arith),
        count-le-1_of_IsKeyed from u keyed,
      ) in
      let there : count_where (has_id to) u ≡ 1 =
        sym (count-update_where (has_id to) p (decrement amount) u (λ a q. refl))
        ∙ count-eq-1_of_find pg to debited (decrement-IsKeyed p amount u keyed) found in
      let same = update_where-covers from p (decrement amount) u only keyed covered in
      rw (moved, same) (paid l from to amount out there)

module _ (pg : Prisma) (c : Checked) (a : FraudAnalysisResponse) (t : List BankAccount)
    (keyed : IsKeyed t) where
  complete-others : (w : World) → (complete pg c a w).1.others ≡ w.others
  unfolding complete debit credit create_transaction create_audit_log
  complete-others w = ground arith

  Refines-complete : Refines t (transaction (complete pg c a))
  Refines-complete =
      Keeps-commit (complete pg c a)
        (λ w r e h.
          let m = complete-IsMoved pg c a w e in
          moved-Ledger pg (covers c.sender.id c.user_id c.dto.amount) c.sender.id c.receiver.id
            c.dto.amount (λ b q. ground arith) w.db.accounts keyed h m.covered m.found m.moved)
        complete-others

  Refines-flag : Refines t (transaction (flag pg c a))
  Refines-flag = Refines-quiet t (transaction (flag pg c a)) (search (quiet_rules, IsQuiet-flag))

  Refines-settle : Refines t (settle pg c a)
  unfolding settle
  Refines-settle = search (keeps_rules, Refines-complete, Refines-flag)

module _ (pg : Prisma) (platform : Platform) (engine : FraudEngine) (t : List BankAccount)
    (keyed : IsKeyed t) (user_id : ℕ) (dto : CreateTransferDto) where
  Refines-anew :
      (d : String) (k f : Option String)
      → Refines t (transfer_anew pg platform engine user_id dto d k f)
  unfolding transfer_anew
  Refines-anew d k f =
      search
        (
          keeps_rules, Refines-quiet, IsQuiet-check_transfer, IsQuiet-fraud_features,
          IsQuiet-analyze, Refines-settle,
        )
        depth 80 fits 4000

  Refines-unless :
      (d k : String) (r : Option TransferReply)
      → Refines t (unless_replayed pg platform engine user_id dto d k r)
  unfolding unless_replayed
  Refines-unless d k none = search Refines-anew
  Refines-unless d k (some r) = search keeps_rules

  Refines-under :
      (d : String) (k : Option String)
      → Refines t (transfer_under pg platform engine user_id dto d k)
  unfolding transfer_under
  Refines-under d none = search Refines-anew
  Refines-under d (some k) =
      search (keeps_rules, Refines-quiet, IsQuiet-find_idempotent_transfer, Refines-unless) depth 80
        fits 4000

  pub Refines-transfer :
      (d k : Option String) → Refines t (post_transfer pg platform engine user_id dto d k)
  unfolding post_transfer transfer
  Refines-transfer none k = search keeps_rules
  Refines-transfer (some d) k = search (keeps_rules, Refines-under) depth 80 fits 4000

module _ (pg : Prisma) (t : List BankAccount) (keyed : IsKeyed t) (user_id : ℕ) where
  undo-others :
      (reason : String) (c : Reversible) (w : World)
      → (undo pg user_id reason c w).1.others ≡ w.others
  unfolding undo debit credit create_audit_log create_security_event
  undo-others reason c w = ground arith

  Refines-undo :
      (reason : String) (c : Reversible) → Refines t (transaction (undo pg user_id reason c))
  Refines-undo reason c =
      Keeps-commit (undo pg user_id reason c)
        (λ w r e h.
          let m = undo-IsMovedBack pg user_id reason c w e in
          moved-Ledger pg (holds c.receiver_id c.original.amount) c.receiver_id c.sender_id
            c.original.amount (λ b q. q) w.db.accounts keyed h m.covered m.found m.moved_back)
        (undo-others reason c)

  pub Refines-reverse : (id : ℕ) (reason : String) → Refines t (reverse pg user_id id reason)
  unfolding reverse
  Refines-reverse id reason =
      search (keeps_rules, Refines-quiet, IsQuiet-check_reversal, Refines-undo) depth 80 fits 4000

  IsQuiet-try :
      (rest : Handler (Option String))
      → IsQuiet rest
      → IsQuiet (do
        drawn ← random_text
        existing ← gets (λ d. pg.find (has_number_of (drawn_number drawn)) d.accounts)
        on_option existing (pure (some (drawn_number drawn))) (λ _. rest))
  IsQuiet-try rest quiet = search quiet_rules depth 80 fits 4000

  IsQuiet-draw : (fuel : ℕ) → IsQuiet (generate_account_number pg fuel)
  unfolding generate_account_number
  IsQuiet-draw zero = IsQuiet-pure none
  IsQuiet-draw (suc fuel) = IsQuiet-try (generate_account_number pg fuel) (IsQuiet-draw fuel)

  -- A new row is empty and its id is not taken.
  create-Ledger :
      (number currency : String) (at : ℕ) (u : List BankAccount) (a : BankAccount)
      (v : List BankAccount)
      → pg.create (λ b. b.id) account_clash (new_account number currency user_id at) u ≡ some (a, v)
      → Ledger t u
      → Ledger t v
  create-Ledger number currency at u a v e l =
      let row = new_account number currency user_id at (pg.fresh (λ b. b.id) u) in
      let made : v ≡ row ∷ u = ground (
        arith,
        e,
        pg.create_lem (λ b. b.id) account_clash (new_account number currency user_id at) u,
      ) in
      rw made (opened l row refl (count-eq-0_of_any (has_id row.id) u (pg.fresh_new (λ b. b.id) u)))

  Refines-insert :
      (number currency : String) (at : ℕ)
      → Refines t {A = BankAccount} (
          attempt
            (λ d.
              map_option
                (λ r. (r.0, record d { accounts = r.1 }))
                (pg.create
                  (λ a. a.id)
                  account_clash
                  (new_account number currency user_id at)
                  d.accounts))
            unique_violation)
  Refines-insert number currency at = Keeps-attempt _ unique_violation λ d a d' e h.
      let made =
        pg.create (λ b. b.id) account_clash (new_account number currency user_id at) d.accounts in
      elim (Option-cases made) [
        | inl q ↦ absurd (ground (arith, e, q))
        | inr ((b, u), q) ↦
            let same : u ≡ d'.accounts = ground (arith, e, q) in
            subst (Ledger t) same (create-Ledger number currency at d.accounts b u q h)
      ]

  pub Refines-create_account :
      (fuel : ℕ) (currency : String) → Refines t (create_account pg fuel user_id currency)
  unfolding create_account
  Refines-create_account fuel currency =
      search (keeps_rules, Refines-quiet, IsQuiet-draw, Refines-insert) depth 80 fits 4000
