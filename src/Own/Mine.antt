-- ===== src/Own/Mine.antt =====
-- Whose rows the listings of Own show.
use bankproject.Base.{
  ℕ, suc, ◌≡◌, refl, true, ◌&&◌, Option, none, some, List, [], ◌∷◌, ◌==◌, arith, ap, ◌<◌,
  Bool-cases, inl, inr, ◌⊎◌, Memᴰ, Option-cases,
}
use bankproject.Model.{BankAccount, RefreshToken, Device, Beneficiary, Transaction}
use bankproject.Prisma.{Prisma}
use bankproject.Prisma.Found.{any_where_of_Memᴰ}
use bankproject.Handler.{World, ok}
use bankproject.Own.Listing.{IsListing, ordered-IsListing}
use bankproject.Own.{
  is_my_account, is_my_session, is_my_device, is_my_beneficiary, is_mine, is_my_transaction,
  get_my_accounts, get_sessions, get_my_devices, find_mine, get_my_transactions,
}

-- A session of the user that is neither revoked nor expired.
pub record IsOpen (user_id at : ℕ) (t : RefreshToken) : Type 0 where
  pub owner : t.user_id ≡ user_id
  pub unrevoked : t.revoked_at ≡ none
  pub unexpired : at < t.expires_at

-- A transaction that takes from a stored account of the user or gives to one.
pub record IsParty (accounts : List BankAccount) (user_id : ℕ) (t : Transaction) : Type 0 where
  pub account : BankAccount
  pub stored : Memᴰ account accounts
  pub owner : account.user_id ≡ user_id
  pub side : (t.sender_account_id ≡ some account.id) ⊎ (t.receiver_account_id ≡ some account.id)

session-IsOpen :
    (user_id at : ℕ) (t : RefreshToken) → is_my_session user_id at t ≡ true → IsOpen user_id at t
session-IsOpen user_id at t h = elim (Option-cases t.revoked_at) [
  | inl e ↦ record { owner = ground (arith, h, e); unrevoked = e; unexpired = ground (arith, h, e) }
  | inr (r, e) ↦ absurd (ground (arith, h, e))
]

open-is_my_session :
    (user_id at : ℕ) (t : RefreshToken) → IsOpen user_id at t → is_my_session user_id at t ≡ true
open-is_my_session user_id at t h = ground (arith, h.owner, h.unrevoked, h.unexpired)

is_mine-account :
    (user_id : ℕ) (column : Option ℕ) (accounts : List BankAccount)
    → is_mine accounts user_id column ≡ true
    → (a : BankAccount) × Memᴰ a accounts × (a.user_id ≡ user_id) × (column ≡ some a.id)
is_mine-account user_id none accounts h = absurd (cc h)
is_mine-account user_id (some id) [] h = absurd (cc h)
is_mine-account user_id (some id) (a ∷ accounts) h =
    elim (Bool-cases (a.id == id && a.user_id == user_id)) [
      | inl holds ↦ (a, Memᴰ.head refl, ground (arith, holds), ap some (ground (arith, holds)))
      | inr fails ↦
          let (b, m, own, e) =
            is_mine-account user_id (some id) accounts (ground (arith, h, fails)) in
          (b, Memᴰ.tail m, own, e)
    ]

account-is_mine :
    (user_id : ℕ) (accounts : List BankAccount) (a : BankAccount)
    → Memᴰ a accounts
    → a.user_id ≡ user_id
    → is_mine accounts user_id (some a.id) ≡ true
account-is_mine user_id accounts a m own =
    any_where_of_Memᴰ (λ b. b.id == a.id && b.user_id == user_id) m (ground (arith, own))

transaction-IsParty :
    (accounts : List BankAccount) (user_id : ℕ) (t : Transaction)
    → is_my_transaction accounts user_id t ≡ true
    → IsParty accounts user_id t
transaction-IsParty accounts user_id t h =
    elim (Bool-cases (is_mine accounts user_id t.sender_account_id)) [
      | inl holds ↦
          let (a, m, own, e) = is_mine-account user_id t.sender_account_id accounts holds in
          record { account = a; stored = m; owner = own; side = inl e }
      | inr fails ↦
          let (a, m, own, e) =
            is_mine-account user_id t.receiver_account_id accounts (ground (arith, h, fails)) in
          record { account = a; stored = m; owner = own; side = inr e }
    ]

party-is_my_transaction :
    (accounts : List BankAccount) (user_id : ℕ) (t : Transaction)
    → IsParty accounts user_id t
    → is_my_transaction accounts user_id t ≡ true
party-is_my_transaction accounts user_id t h =
    let own = account-is_mine user_id accounts h.account h.stored h.owner in
    elim h.side [ inl e ↦ ground (arith, own, e) | inr e ↦ ground (arith, own, e) ]

module _ (pg : Prisma) (user_id : ℕ) (w : World) where
  -- A user is shown just the own rows, each as often as it is stored and the latest first: the
  -- accounts, devices and beneficiaries of the user, the sessions of the user that are not revoked
  -- and expire later than now, and the transactions that take from a stored account of the user or
  -- give to one. The listings are given always and change nothing in the database.
  pub own_listings :
      ((rows : List BankAccount) × (get_my_accounts pg user_id w ≡ (ok rows, w))
        × IsListing (λ a. a.user_id ≡ user_id) (λ a. a.created_at) w.db.accounts rows)
      × ((rows : List RefreshToken) × (get_sessions pg user_id w
            ≡ (ok rows, record w { clock = λ n. w.clock (suc n) }))
          × IsListing (IsOpen user_id (w.clock 0)) (λ t. t.created_at) w.db.refresh_tokens rows)
      × ((rows : List Device) × (get_my_devices pg user_id w ≡ (ok rows, w))
          × IsListing (λ x. x.user_id ≡ user_id) (λ x. x.last_seen) w.db.devices rows)
      × ((rows : List Beneficiary) × (find_mine pg user_id w ≡ (ok rows, w))
          × IsListing (λ b. b.owner_id ≡ user_id) (λ b. b.created_at) w.db.beneficiaries rows)
      × ((rows : List Transaction) × (get_my_transactions pg user_id w ≡ (ok rows, w))
          × IsListing (IsParty w.db.accounts user_id) (λ t. t.created_at) w.db.transactions rows)
  unfolding get_my_accounts get_sessions get_my_devices find_mine get_my_transactions
  own_listings = (
    (
      _,
      refl,
      ordered-IsListing pg (is_my_account user_id) (λ a. a.user_id ≡ user_id) (λ a. a.created_at)
          w.db.accounts (λ a h. ground (arith, h)) (λ a h. ground (arith, h)),
    ),
    (
      _,
      refl,
      ordered-IsListing pg (is_my_session user_id (w.clock 0)) (IsOpen user_id (w.clock 0))
          (λ t. t.created_at) w.db.refresh_tokens (session-IsOpen user_id (w.clock 0))
          (open-is_my_session user_id (w.clock 0)),
    ),
    (
      _,
      refl,
      ordered-IsListing pg (is_my_device user_id) (λ x. x.user_id ≡ user_id) (λ x. x.last_seen)
          w.db.devices (λ x h. ground (arith, h)) (λ x h. ground (arith, h)),
    ),
    (
      _,
      refl,
      ordered-IsListing pg (is_my_beneficiary user_id) (λ b. b.owner_id ≡ user_id)
          (λ b. b.created_at) w.db.beneficiaries (λ b h. ground (arith, h))
          (λ b h. ground (arith, h)),
    ),
    (
      _,
      refl,
      ordered-IsListing pg (is_my_transaction w.db.accounts user_id) (IsParty w.db.accounts user_id)
          (λ t. t.created_at) w.db.transactions (transaction-IsParty w.db.accounts user_id)
          (party-is_my_transaction w.db.accounts user_id),
    ),
  )
