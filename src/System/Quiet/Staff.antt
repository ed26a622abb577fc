-- ===== src/System/Quiet/Staff.antt =====
-- What the staff does and beneficiaries leave the accounts as they are.
use bankproject.Base.{ℕ, String}
use bankproject.Model.{UserRole, UserStatus, AlertStatus, FraudAlert}
use bankproject.Prisma.{Prisma}
use bankproject.System.Quiet.{IsQuiet}
use bankproject.System.Quiet.Writes.{write_rules}
use bankproject.Users.{
  store_role, update_role, sign_out, store_status, update_status, update_user_status,
}
use bankproject.Beneficiaries.{CreateBeneficiaryDto, create_beneficiary, remove_beneficiary}
use bankproject.FraudAlerts.{update_alert_status}
use bankproject.Soc.Notes.{set_alert_status}
use bankproject.Soc.{take_up, create_case, update_case_status}

module _ (pg : Prisma) where
  pub IsQuiet-store_role : (a t : ℕ) (old new : UserRole) → IsQuiet (store_role pg a t old new)
  unfolding store_role
  IsQuiet-store_role a t old new = search (write_rules) depth 80 fits 4000

  pub IsQuiet-update_role : (a t : ℕ) (new : UserRole) → IsQuiet (update_role pg a t new)
  unfolding update_role
  IsQuiet-update_role a t new = search (write_rules, IsQuiet-store_role) depth 80 fits 4000

  pub IsQuiet-sign_out : (t : ℕ) (s : UserStatus) → IsQuiet (sign_out pg t s)
  unfolding sign_out
  IsQuiet-sign_out t s = search (write_rules) depth 80 fits 4000

  pub IsQuiet-store_status :
      (a t : ℕ) (old new : UserStatus) → IsQuiet (store_status pg a t old new)
  unfolding store_status
  IsQuiet-store_status a t old new = search (write_rules, IsQuiet-sign_out) depth 80 fits 4000

  pub IsQuiet-update_status : (a t : ℕ) (new : UserStatus) → IsQuiet (update_status pg a t new)
  unfolding update_status
  IsQuiet-update_status a t new = search (write_rules, IsQuiet-store_status) depth 80 fits 4000

  pub IsQuiet-update_user_status :
      (t : ℕ) (s : UserStatus) (a : ℕ) → IsQuiet (update_user_status pg t s a)
  unfolding update_user_status
  IsQuiet-update_user_status t s a = search (write_rules) depth 80 fits 4000

  pub IsQuiet-create_beneficiary :
      (o : ℕ) (d : CreateBeneficiaryDto) → IsQuiet (create_beneficiary pg o d)
  unfolding create_beneficiary
  IsQuiet-create_beneficiary o d = search (write_rules) depth 80 fits 4000

  pub IsQuiet-remove_beneficiary : (o id : ℕ) → IsQuiet (remove_beneficiary pg o id)
  unfolding remove_beneficiary
  IsQuiet-remove_beneficiary o id = search (write_rules) depth 80 fits 4000

  pub IsQuiet-update_alert_status :
      (id : ℕ) (s : AlertStatus) (a : ℕ) → IsQuiet (update_alert_status pg id s a)
  unfolding update_alert_status
  IsQuiet-update_alert_status id s a = search (write_rules) depth 80 fits 4000

  pub IsQuiet-set_alert_status :
      (id : ℕ) (s : AlertStatus) (a : ℕ) → IsQuiet (set_alert_status pg id s a)
  unfolding set_alert_status
  IsQuiet-set_alert_status id s a =
      search (write_rules, IsQuiet-update_alert_status) depth 80 fits 4000

  pub IsQuiet-take_up : (id : ℕ) (a : FraudAlert) (u : ℕ) → IsQuiet (take_up pg id a u)
  unfolding take_up
  IsQuiet-take_up id a u = search (write_rules, IsQuiet-set_alert_status) depth 80 fits 4000

  pub IsQuiet-create_case : (id : ℕ) (a s : String) (u : ℕ) → IsQuiet (create_case pg id a s u)
  unfolding create_case
  IsQuiet-create_case id a s u = search (write_rules, IsQuiet-take_up) depth 80 fits 4000

  pub IsQuiet-update_case_status :
      (id : ℕ) (s : AlertStatus) (u : ℕ) → IsQuiet (update_case_status pg id s u)
  unfolding update_case_status
  IsQuiet-update_case_status id s u =
      search (write_rules, IsQuiet-set_alert_status) depth 80 fits 4000
