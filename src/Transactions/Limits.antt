-- ===== src/Transactions/Limits.antt =====
-- `enforceTransferLimits` of backend/src/transactions/transactions.service.ts. Amounts are in
-- cents; up to the limits, a sum of two amounts as doubles exceeds the limit exactly when the sum
-- of the cents does.
use bankproject.Base.{ℕ, ◌+◌, Bool, true, false, ◌&&◌, ltb, leb, opt_is}
use bankproject.Model.{Transaction, TransactionStatus, completed, flagged, transfer, type_eq}
use bankproject.Prisma.{Prisma}
use bankproject.Handler.{Handler, ◌>>=◌, ◌>>◌, gets, now, throw_if, bad_request}
use bankproject.Transactions.{Platform}

abbrev pub per_transfer_limit : ℕ
per_transfer_limit = 1000000

abbrev pub daily_transfer_limit : ℕ
daily_transfer_limit = 2500000

-- The statuses that count towards the daily limit.
abbrev pub counts_for_limit : TransactionStatus → Bool
counts_for_limit completed = true
counts_for_limit flagged = true
counts_for_limit _ = false

abbrev pub is_used_since : ℕ → ℕ → Transaction → Bool
is_used_since account start t =
    opt_is t.sender_account_id account
    && type_eq t.kind transfer
    && counts_for_limit t.status
    && leb start t.created_at

unfoldable pub enforce_transfer_limits : Prisma → Platform → ℕ → ℕ → Handler (Unit {0})
enforce_transfer_limits pg platform account amount = do
  throw_if (ltb per_transfer_limit amount)
      (bad_request "Transfer amount exceeds the per-transfer limit of 10000")
  at ← now
  used_today ← gets (λ d.
      pg.total (is_used_since account (platform.start_of_day at)) (λ t. t.amount) d.transactions)
  throw_if (ltb daily_transfer_limit (used_today + amount))
      (bad_request "Transfer would exceed the daily transfer limit of 25000")
