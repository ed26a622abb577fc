-- ===== src/Own.antt =====
-- The listings that a user asks for: `getMyAccounts`, `getSessions`, `getMyDevices`, `findMine` and
-- `getMyTransactions` of the services under backend/src.
pub mod Listing
pub mod Mine
mod Tests
use bankproject.Base.{
  ℕ, suc, ◌≡◌, ◌∙◌, refl, sym, Bool, true, false, not, ◌&&◌, ◌||◌, Option, none, some, List, [],
  ◌∷◌, ◌==◌, leb, ltb, is_some, arith, All, IsSorted, count_where, any_where, ap, ◌≤◌, ◌<◌,
  Bool-cases, inl, inr, ◌⊎◌, Memᴰ, Option-cases,
}
use bankproject.Model.{Db, BankAccount, RefreshToken, Device, Beneficiary, Transaction}
use bankproject.Prisma.{Prisma}
use bankproject.Prisma.Found.{any_where_of_Memᴰ}
use bankproject.Handler.{Handler, World, ok, ◌>>=◌, gets, now}

-- `orderBy: { …: 'desc' }`
abbrev pub latest_first {ℓ} : {R : Type ℓ} → (R → ℕ) → R → R → Bool
latest_first key a b = leb (key b) (key a)

abbrev pub is_my_account : ℕ → BankAccount → Bool
is_my_account user_id a = a.user_id == user_id

-- `userId, revokedAt: null, expiresAt: { gt: now }`
abbrev pub is_my_session : ℕ → ℕ → RefreshToken → Bool
is_my_session user_id at t =
    t.user_id == user_id && not (is_some t.revoked_at) && ltb at t.expires_at

abbrev pub is_my_device : ℕ → Device → Bool
is_my_device user_id x = x.user_id == user_id

abbrev pub is_my_beneficiary : ℕ → Beneficiary → Bool
is_my_beneficiary user_id b = b.owner_id == user_id

-- Whether an account that a transaction points to is the user's.
abbrev pub is_mine : List BankAccount → ℕ → Option ℕ → Bool
is_mine accounts user_id none = false
is_mine accounts user_id (some id) = any_where (λ a. a.id == id && a.user_id == user_id) accounts

abbrev pub is_my_transaction : List BankAccount → ℕ → Transaction → Bool
is_my_transaction accounts user_id t =
    is_mine accounts user_id t.sender_account_id || is_mine accounts user_id t.receiver_account_id

module _ (pg : Prisma) where
  unfoldable pub get_my_accounts : ℕ → Handler (List BankAccount)
  get_my_accounts user_id =
      gets
        (λ d. pg.find_ordered (is_my_account user_id) (latest_first (λ a. a.created_at)) d.accounts)

  unfoldable pub get_sessions : ℕ → Handler (List RefreshToken)
  get_sessions user_id = do
    at ← now
    gets (λ d.
        pg.find_ordered (is_my_session user_id at) (latest_first (λ t. t.created_at))
          d.refresh_tokens)

  unfoldable pub get_my_devices : ℕ → Handler (List Device)
  get_my_devices user_id =
      gets (λ d. pg.find_ordered (is_my_device user_id) (latest_first (λ x. x.last_seen)) d.devices)

  unfoldable pub find_mine : ℕ → Handler (List Beneficiary)
  find_mine user_id = gets (λ d.
      pg.find_ordered (is_my_beneficiary user_id) (latest_first (λ b. b.created_at))
        d.beneficiaries)

  unfoldable pub get_my_transactions : ℕ → Handler (List Transaction)
  get_my_transactions user_id = gets (λ d.
      pg.find_ordered (is_my_transaction d.accounts user_id) (latest_first (λ t. t.created_at))
        d.transactions)
