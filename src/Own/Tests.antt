-- ===== src/Own/Tests.antt =====
-- The listings of a customer of a small bank, and the instance of the theorem on them.
use bankproject.Base.{suc, ◌≡◌, refl, List, [], ◌∷◌, some}
use bankproject.Model.{BankAccount, RefreshToken, Device, Beneficiary, Transaction}
use bankproject.Prisma.Listed.{listed}
use bankproject.Handler.{World, ok}
use bankproject.Transactions.Sample.{account, bank, row}
use bankproject.Own.Listing.{IsListing}
use bankproject.Own.Mine.{IsOpen, IsParty, own_listings}
use bankproject.Own.{get_my_accounts, get_sessions, get_my_devices, find_mine, get_my_transactions}

abbrev busy : World
busy = record {
  db = record bank {
    transactions =
        row 5
        ∷ record (row 9) { id = 2; sender_account_id = some 2; receiver_account_id = some 2 }
        ∷ [];
  };
  clock = λ n. n;
  random = λ n. "r";
  others = λ n d. d;
}

run_accounts :
    (get_my_accounts listed 1 busy).0 ≡ ok (account 1 "BS1" 5000 1 ∷ account 3 "BS3" 70 1 ∷ [])
unfolding get_my_accounts
run_accounts = refl

run_transactions : (get_my_transactions listed 1 busy).0 ≡ ok (row 5 ∷ [])
unfolding get_my_transactions
run_transactions = refl

own_listings_example :
    ((rows : List BankAccount) × (get_my_accounts listed 1 busy ≡ (ok rows, busy))
      × IsListing (λ a. a.user_id ≡ 1) (λ a. a.created_at) busy.db.accounts rows)
    × ((rows : List RefreshToken) × (get_sessions listed 1 busy
          ≡ (ok rows, record busy { clock = λ n. busy.clock (suc n) }))
        × IsListing (IsOpen 1 (busy.clock 0)) (λ t. t.created_at) busy.db.refresh_tokens rows)
    × ((rows : List Device) × (get_my_devices listed 1 busy ≡ (ok rows, busy))
        × IsListing (λ x. x.user_id ≡ 1) (λ x. x.last_seen) busy.db.devices rows)
    × ((rows : List Beneficiary) × (find_mine listed 1 busy ≡ (ok rows, busy))
        × IsListing (λ b. b.owner_id ≡ 1) (λ b. b.created_at) busy.db.beneficiaries rows)
    × ((rows : List Transaction) × (get_my_transactions listed 1 busy ≡ (ok rows, busy))
        × IsListing (IsParty busy.db.accounts 1) (λ t. t.created_at) busy.db.transactions rows)
own_listings_example = own_listings listed 1 busy
