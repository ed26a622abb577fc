-- ===== src/Transactions/Transfer/Conservation.antt =====
-- Money under `transfer` of backend/src/transactions/transactions.service.ts.
use bankproject.Base.{ℕ, String, Option, ◌≡◌, ◌∙◌, refl, ◌⊎◌, inl, inr}
use bankproject.Prisma.{Prisma}
use bankproject.Handler.{World}
use bankproject.Fraud.{FraudEngine}
use bankproject.Transactions.{CreateTransferDto, Platform}
use bankproject.Transactions.Settlement.Money.{total, IsSolvent, IsKeyed}
use bankproject.Transactions.Settlement.Laws.{complete-total, complete-IsSolvent, complete-IsKeyed}
use bankproject.Transactions.Transfer.{transfer}
use bankproject.Transactions.Transfer.Money.{transfer_keeps}

module _ (pg : Prisma) (platform : Platform) (engine : FraudEngine) (user_id : ℕ)
    (dto : CreateTransferDto) (device_id : String) (key : Option String) (w : World) where
  -- Whatever a transfer's outcome is, the sum of all balances is afterwards what it was at its
  -- start, or what the other requests had made it when its closing transaction began, if account
  -- ids are unique at both times.
  pub transfer_conserves :
      IsKeyed w.db.accounts
      → IsKeyed (w.others 0 w.db).accounts
      → let after = (transfer pg platform engine user_id dto device_id key w).1.db.accounts in
        (total after ≡ total w.db.accounts) ⊎ (total after ≡ total (w.others 0 w.db).accounts)
  transfer_conserves k k' =
      let (_, result) =
        transfer_keeps pg platform engine
          (λ t.
            IsKeyed t
            × ((total t ≡ total w.db.accounts) ⊎ (total t ≡ total (w.others 0 w.db).accounts)))
          (λ c a v r e h. (
            complete-IsKeyed pg c a v h.0 e,
            elim h.1 [
              | inl p ↦ inl (complete-total pg c a v h.0 e ∙ p)
              | inr p ↦ inr (complete-total pg c a v h.0 e ∙ p)
            ],
          ))
          user_id dto device_id key w ((k, inl refl), (k', inr refl)) in
      result

  -- If no balance is below zero at the start of a transfer, nor when its closing transaction
  -- begins, none is below zero after it.
  transfer-IsSolvent :
      IsSolvent w.db.accounts
      → IsSolvent (w.others 0 w.db).accounts
      → IsSolvent (transfer pg platform engine user_id dto device_id key w).1.db.accounts
  transfer-IsSolvent s s' =
      transfer_keeps pg platform engine IsSolvent (λ c a v r e h. complete-IsSolvent pg c a v h e)
        user_id dto device_id key w (s, s')
