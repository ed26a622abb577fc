-- ===== src/FraudAlerts/Listing.antt =====
-- `findAll` and `findOne` of backend/src/fraud-alerts/fraud-alerts.service.ts: an alert with its
-- transaction, the accounts of the transaction and their owners.
use bankproject.Base.{
  ℕ, zero, suc, ◌≤◌, ◌≡◌, ◌∙◌, refl, ap, String, Bool, true, false, not, Option, none, some, List,
  [], ◌∷◌, ◌==◌, arith, length, All, map_option, take_rows, drop_rows, Option-cases, Memᴰ, inl, inr,
  any_where, ◌⊎◌,
}
use bankproject.Int.{ℤ}
use bankproject.Model.{Db, User, UserStatus, BankAccount, Transaction, FraudAlert}
use bankproject.Prisma.{Prisma}
use bankproject.Handler.{Handler, World, ok, err, ◌>>=◌, gets, require, not_found}
use bankproject.Paging.{PaginationDto, skip}
use bankproject.Paging.Pages.{length-take}
use bankproject.Own.{latest_first}
use bankproject.Own.Listing.{every_counted, none_outside}
use bankproject.FraudAlerts.Summary.{ListFraudAlertsDto, passes}

-- The selected columns of a user; `status` is none where it is not selected.
pub record Owner : Type 0 where
  pub id : ℕ
  pub email : String
  pub first_name : String
  pub last_name : String
  pub status : Option UserStatus

-- The selected columns of an account; `balance` is none where it is not selected. The user is none
-- where no row is pointed to.
pub record AccountView : Type 0 where
  pub id : ℕ
  pub account_number : String
  pub currency : String
  pub balance : Option ℤ
  pub user : Option Owner

pub record AlertView : Type 0 where
  pub alert : FraudAlert
  pub transaction : Option Transaction
  pub sender_account : Option AccountView
  pub receiver_account : Option AccountView

-- `select`: a listing leaves out the balance and the status, a single alert shows them.
abbrev pub selected {ℓ} : {A : Type ℓ} → Bool → A → Option A
selected false x = none
selected true x = some x

abbrev pub and_then {ℓ ℓ'} : {A : Type ℓ} {B : Type ℓ'} → Option A → (A → Option B) → Option B
and_then none f = none
and_then (some x) f = f x

abbrev pub owner_view : Bool → User → Owner
owner_view full u = record {
  id = u.id;
  email = u.email;
  first_name = u.first_name;
  last_name = u.last_name;
  status = selected full u.status;
}

abbrev pub map_rows {ℓ ℓ'} : {A : Type ℓ} {B : Type ℓ'} → (A → B) → List A → List B
map_rows f [] = []
map_rows f (x ∷ xs) = f x ∷ map_rows f xs

module _ (pg : Prisma) where
  abbrev pub account_view : Bool → Db → BankAccount → AccountView
  account_view full d a = record {
    id = a.id;
    account_number = a.account_number;
    currency = a.currency;
    balance = selected full a.balance;
    user = map_option (owner_view full) (pg.find (λ u. u.id == a.user_id) d.users);
  }

  -- The account that a column of a transaction points to.
  abbrev pub linked : Bool → Db → Option ℕ → Option AccountView
  linked full d column =
      and_then column
        (λ id. map_option (account_view full d) (pg.find (λ a. a.id == id) d.accounts))

  -- The `include` object.
  abbrev pub alert_view : Bool → Db → FraudAlert → AlertView
  alert_view full d a =
      let t = pg.find (λ (t : Transaction). t.id == a.transaction_id) d.transactions in
      record {
        alert = a;
        transaction = t;
        sender_account = and_then t (λ x. linked full d x.sender_account_id);
        receiver_account = and_then t (λ x. linked full d x.receiver_account_id);
      }

  unfoldable pub find_alerts : PaginationDto → ListFraudAlertsDto → Handler (List AlertView)
  find_alerts paging query = gets (λ d. map_rows (alert_view false d) (
      pg.find_page (passes query) (latest_first (λ a. a.created_at)) (skip paging) paging.limit
        d.fraud_alerts))

  unfoldable pub find_alert : ℕ → Handler AlertView
  find_alert id = do
    found ← gets (λ d.
        map_option (alert_view true d) (pg.find (λ (a : FraudAlert). a.id == id) d.fraud_alerts))
    require found (not_found "Fraud alert not found")

abbrev pub WithoutStatus : Option Owner → Type 0
WithoutStatus none = Unit
WithoutStatus (some u) = u.status ≡ none

-- Neither the balance of an account nor the status of its owner is shown.
abbrev pub WithoutBalance : Option AccountView → Type 0
WithoutBalance none = Unit
WithoutBalance (some a) = (a.balance ≡ none) × WithoutStatus a.user

pub record IsListed (query : ListFraudAlertsDto) (v : AlertView) : Type 0 where
  pub chosen : passes query v.alert ≡ true
  pub sender : WithoutBalance v.sender_account
  pub receiver : WithoutBalance v.receiver_account

All-take {ℓ κ} :
    {A : Type ℓ} (P : A → Type κ) (n : ℕ) (xs : List A) → All P xs → All P (take_rows n xs)
All-take P zero xs h = tt
All-take P (suc n) [] h = tt
All-take P (suc n) (x ∷ xs) h = (h.0, All-take P n xs h.1)

All-drop {ℓ κ} :
    {A : Type ℓ} (P : A → Type κ) (n : ℕ) (xs : List A) → All P xs → All P (drop_rows n xs)
All-drop P zero xs h = h
All-drop P (suc n) [] h = tt
All-drop P (suc n) (x ∷ xs) h = All-drop P n xs h.1

All-map_rows {ℓ ℓ' κ κ'} :
    {A : Type ℓ} {B : Type ℓ'} (P : A → Type κ) (Q : B → Type κ') (f : A → B)
    → ((x : A) → P x → Q (f x))
    → (xs : List A) → All P xs
    → All Q (map_rows f xs)
All-map_rows P Q f g [] h = tt
All-map_rows P Q f g (x ∷ xs) h = (g x h.0, All-map_rows P Q f g xs h.1)

length-map_rows {ℓ ℓ'} :
    {A : Type ℓ} {B : Type ℓ'} (f : A → B) (xs : List A) → length (map_rows f xs) ≡ length xs
length-map_rows f [] = refl
length-map_rows f (x ∷ xs) = ap suc (length-map_rows f xs)

module _ (pg : Prisma) (w : World) where
  linked-WithoutBalance : (column : Option ℕ) → WithoutBalance (linked pg false w.db column)
  linked-WithoutBalance none = tt
  linked-WithoutBalance (some id) = shown (pg.find (λ a. a.id == id) w.db.accounts)
    where
      owned : (u : Option User) → WithoutStatus (map_option (owner_view false) u)
      owned none = tt
      owned (some u) = refl

      shown : (a : Option BankAccount) → WithoutBalance (map_option (account_view pg false w.db) a)
      shown none = tt
      shown (some a) = (refl, owned (pg.find (λ u. u.id == a.user_id) w.db.users))

  and_then-WithoutBalance :
      (t : Option Transaction) (column : Transaction → Option ℕ)
      → WithoutBalance (and_then t (λ x. linked pg false w.db (column x)))
  and_then-WithoutBalance none column = tt
  and_then-WithoutBalance (some x) column = linked-WithoutBalance (column x)

  -- A page of the fraud alerts is given always and changes nothing. It has no more alerts than the
  -- limit, each of them passes the filters, and neither the balance of an account nor the status of
  -- its owner is shown.
  pub find_alerts-IsListed :
      (paging : PaginationDto) (query : ListFraudAlertsDto)
      → (rows : List AlertView) × (find_alerts pg paging query w ≡ (ok rows, w))
        × (length rows ≤ paging.limit)
        × All (IsListed query) rows
  unfolding find_alerts
  find_alerts-IsListed paging query =
      let sorted =
        pg.find_ordered (passes query) (latest_first (λ a. a.created_at)) w.db.fraud_alerts in
      let page = take_rows paging.limit (drop_rows (skip paging) sorted) in
      let chosen = every_counted (passes query) sorted (
        pg.find_ordered_lem (passes query) (λ a. not (passes query a))
          (latest_first (λ a. a.created_at)) w.db.fraud_alerts
        ∙ none_outside (passes query) w.db.fraud_alerts) in
      (
        map_rows (alert_view pg false w.db) page,
        ap (λ rows. (ok (map_rows (alert_view pg false w.db) rows), w))
            (pg.find_page_lem (passes query) (latest_first (λ a. a.created_at)) (skip paging)
              paging.limit w.db.fraud_alerts),
        omega (
          arith,
          length-map_rows (alert_view pg false w.db) page,
          length-take paging.limit (drop_rows (skip paging) sorted),
        ),
        All-map_rows (λ a. passes query a ≡ true) (IsListed query) (alert_view pg false w.db) listed
            page
            (All-take (λ a. passes query a ≡ true) paging.limit (drop_rows (skip paging) sorted)
              (All-drop (λ a. passes query a ≡ true) (skip paging) sorted chosen)),
      )
    where
      listed :
          (a : FraudAlert) → passes query a ≡ true → IsListed query (alert_view pg false w.db a)
      listed a h = record {
        chosen = h;
        sender =
            and_then-WithoutBalance
              (pg.find (λ (t : Transaction). t.id == a.transaction_id) w.db.transactions)
              (λ x. x.sender_account_id);
        receiver =
            and_then-WithoutBalance
              (pg.find (λ (t : Transaction). t.id == a.transaction_id) w.db.transactions)
              (λ x. x.receiver_account_id);
      }

  -- A stored alert is shown with what it points to, and an alert that is not stored is not found;
  -- nothing changes.
  pub find_alert_shows :
      (id : ℕ)
      → ((a : FraudAlert) × Memᴰ a w.db.fraud_alerts
          × (a.id ≡ id)
          × (find_alert pg id w ≡ (ok (alert_view pg true w.db a), w)))
        ⊎ ((any_where (λ (a : FraudAlert). a.id == id) w.db.fraud_alerts ≡ false)
            × (find_alert pg id w ≡ (err (not_found "Fraud alert not found"), w)))
  unfolding find_alert
  find_alert_shows id =
      elim (Option-cases (pg.find (λ (a : FraudAlert). a.id == id) w.db.fraud_alerts)) [
        | inl missing ↦ inr (
          pg.find_none (λ (a : FraudAlert). a.id == id) w.db.fraud_alerts missing,
          ground (arith, missing),
        )
        | inr (a, found) ↦
            let (m, q) = pg.find_some (λ (a : FraudAlert). a.id == id) w.db.fraud_alerts found in
            inl (a, m, ground (arith, q), ground (arith, found))
      ]
