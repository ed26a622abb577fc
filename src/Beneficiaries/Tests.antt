-- ===== src/Beneficiaries/Tests.antt =====
-- A beneficiary of a sample user.
use bankproject.Base.{refl, none, [], ◌∷◌}
use bankproject.Text.{trim, is_space}
use bankproject.Prisma.Listed.{listed}
use bankproject.Handler.{World}
use bankproject.Auth.Sample.{people, at_work}
use bankproject.Accounts.{new_account}
use bankproject.Beneficiaries.{
  CreateBeneficiaryDto, beneficiary_row, create_beneficiary, IsAdded, create_beneficiary-IsAdded,
}

ran : Unit {0}
unfolding trim is_space create_beneficiary
ran = tt

abbrev shop : World
shop = at_work (record people { accounts = new_account "BS7" "USD" 2 0 1 ∷ [] })

abbrev bob : CreateBeneficiaryDto
bob = record { name = " Bob"; account_number = "BS7 "; bank_name = none }

create_beneficiary-IsAdded_example :
    IsAdded listed 1 bob shop
      (beneficiary_row 1 bob 1000000 1)
      (create_beneficiary listed 1 bob shop).1.db.beneficiaries
unfolding ran
create_beneficiary-IsAdded_example = create_beneficiary-IsAdded listed 1 bob shop refl
