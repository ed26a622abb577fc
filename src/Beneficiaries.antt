-- ===== src/Beneficiaries.antt =====
-- backend/src/beneficiaries/beneficiaries.service.ts. `findMine` is in Own.
mod Tests
use bankproject.Base.{
  ℕ, ◌+◌, ◌≡◌, subst, ◌∙◌, refl, sym, ap, String, Bool, true, false, ◌&&◌, Option, none, some, List,
  ◌∷◌, Memᴰ, ◌==◌, str_eq, is_some, map_option, or_else, if◌then◌else◌, arith, any_where,
  filter_where, count_where, Option-cases, inl, inr,
}
use text.Mathlib.TextEquality.{eq_iff}
use bankproject.Text.{trim}
use bankproject.Model.{Db, BankAccount, Beneficiary}
use bankproject.Prisma.{Prisma}
use bankproject.Handler.{
  Handler, World, ok, ◌>>=◌, ◌>>◌, gets, now, run, attempt, require, throw_if, pure, not_found,
  bad_request, unique_violation,
}
use bankproject.Store.{no_clash}
use bankproject.Store.Effects.{create-no_clash}

pub record CreateBeneficiaryDto : Type 0 where
  pub name : String
  pub account_number : String
  pub bank_name : Option String

abbrev pub has_account_number : String → BankAccount → Bool
has_account_number number a = str_eq a.account_number number

abbrev pub names : ℕ → String → Beneficiary → Bool
names owner number b = b.owner_id == owner && str_eq b.account_number number

abbrev pub is_owned : ℕ → ℕ → Beneficiary → Bool
is_owned id owner b = b.id == id && b.owner_id == owner

abbrev pub beneficiary_row : ℕ → CreateBeneficiaryDto → ℕ → ℕ → Beneficiary
beneficiary_row owner dto at id = record {
  id = id;
  name = trim dto.name;
  account_number = trim dto.account_number;
  bank_name = some (or_else (map_option trim dto.bank_name) "BankShield");
  owner_id = owner;
  created_at = at;
}

module _ (pg : Prisma) where
  unfoldable pub create_beneficiary : ℕ → CreateBeneficiaryDto → Handler Beneficiary
  create_beneficiary owner dto = do
    found ← gets (λ d. pg.find (has_account_number (trim dto.account_number)) d.accounts)
    receiver ← require found (not_found "Bank account does not exist")
    throw_if (receiver.user_id == owner)
        (bad_request "You cannot add your own account as a beneficiary")
    existing ← gets (λ d. pg.find (names owner (trim dto.account_number)) d.beneficiaries)
    throw_if (is_some existing) (bad_request "Beneficiary already exists")
    at ← now
    attempt
        (λ d.
          map_option (λ r. (r.0, record d { beneficiaries = r.1 }))
            (pg.create (λ b. b.id) no_clash (beneficiary_row owner dto at) d.beneficiaries))
        unique_violation

  unfoldable pub remove_beneficiary : ℕ → ℕ → Handler (Unit {0})
  remove_beneficiary owner id = do
    found ← gets (λ d. pg.find (is_owned id owner) d.beneficiaries)
    b ← require found (not_found "Beneficiary not found")
    run (λ d. (tt, record d { beneficiaries = pg.delete_many (λ x. x.id == id) d.beneficiaries }))

module _ (pg : Prisma) (owner : ℕ) (dto : CreateBeneficiaryDto) (w : World) where
  pub record IsAdded (b : Beneficiary) (after : List Beneficiary) : Type 0 where
    pub account : BankAccount
    pub listed : Memᴰ account w.db.accounts
    pub foreign : (account.user_id == owner) ≡ false
    pub number : account.account_number ≡ b.account_number
    pub owned : b.owner_id ≡ owner
    pub first : any_where (names owner b.account_number) w.db.beneficiaries ≡ false
    pub added : after ≡ b ∷ w.db.beneficiaries

  -- A beneficiary is added only for a stored account of another user whose number it takes, and
  -- only if the owner has none for that number yet; it becomes the owner's, and the others stay.
  pub create_beneficiary-IsAdded :
      {b : Beneficiary}
      → (create_beneficiary pg owner dto w).0 ≡ ok b
      → IsAdded b (create_beneficiary pg owner dto w).1.db.beneficiaries
  unfolding create_beneficiary
  create_beneficiary-IsAdded {b} e =
      let one =
        create-no_clash pg (λ b. b.id) (beneficiary_row owner dto (w.clock 0)) w.db.beneficiaries in
      let number = trim dto.account_number in
      elim (Option-cases (pg.find (has_account_number number) w.db.accounts)) [
        | inl missing ↦ absurd (ground (arith, missing))
        | inr (a, found) ↦ elim (Option-cases (pg.find (names owner number) w.db.beneficiaries)) [
          | inr (x, known) ↦ absurd (ground (arith, found, known))
          | inl new ↦
              let (m, q) = pg.find_some (has_account_number number) w.db.accounts found in
              let row =
                beneficiary_row owner dto (w.clock 0) (pg.fresh (λ b. b.id) w.db.beneficiaries) in
              let is : row ≡ b = ground (arith, found, new, one) in
              record {
                account = a;
                listed = m;
                foreign = ground (arith, found, new);
                number = (eq_iff _ _).0 q ∙ ap (λ r. r.account_number) is;
                owned = ap (λ r. r.owner_id) (sym is);
                first =
                    subst (λ r. any_where (names owner r.account_number) w.db.beneficiaries ≡ false)
                      is (pg.find_none (names owner number) w.db.beneficiaries new);
                added = ground (arith, found, new, one);
              }
        ]
      ]
