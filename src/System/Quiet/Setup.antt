-- ===== src/System/Quiet/Setup.antt =====
-- The set-up of the second factor, the guards and reported events leave the accounts as they are.
use bankproject.Base.{ℕ, zero, suc, String, Option, none, some, List, [], ◌∷◌}
use bankproject.Model.{UserRole, RiskLevel}
use bankproject.Prisma.{Prisma}
use bankproject.Handler.{Handler, ◌>>=◌, pure, random_text}
use bankproject.Auth.{Crypto, Totp}
use bankproject.Auth.Guards.{Principal, auth_guard, roles_guard}
use bankproject.Auth.Mfa.Setup.{
  Seal, recovery_code, generate_recovery_code_set, setup, store_codes, enable_mfa, check_setup,
  verify_setup, replace_recovery_codes, regenerate_failed, check_regenerate, note_regenerated,
  regenerate_recovery_codes,
}
use bankproject.SecurityEvents.{CreateSecurityEventDto, check_subject, record_event, create_event}
use bankproject.Soc.Notes.{add_note}
use bankproject.System.Quiet.{IsQuiet, IsQuiet-pure, quiet_rules}
use bankproject.System.Quiet.Writes.{write_rules}

IsQuiet-one_more :
    (rest : Handler (List String))
    → IsQuiet rest
    → IsQuiet (do drawn ← random_text; codes ← rest; pure (recovery_code drawn ∷ codes))
IsQuiet-one_more rest quiet = search quiet_rules depth 80 fits 4000

IsQuiet-generate : (n : ℕ) → IsQuiet (generate_recovery_code_set n)
unfolding generate_recovery_code_set
IsQuiet-generate zero = IsQuiet-pure []
IsQuiet-generate (suc n) = IsQuiet-one_more (generate_recovery_code_set n) (IsQuiet-generate n)

module _ (pg : Prisma) where
  pub IsQuiet-setup : (seal : Seal) (u : ℕ) → IsQuiet (setup pg seal u)
  unfolding setup
  IsQuiet-setup seal u = search write_rules depth 80 fits 4000

  IsQuiet-store_codes :
      (crypto : Crypto) (u : ℕ) (codes : List String) → IsQuiet (store_codes pg crypto u codes)
  unfolding store_codes
  IsQuiet-store_codes crypto u codes = search write_rules depth 80 fits 4000

  IsQuiet-enable_mfa :
      (crypto : Crypto) (u : ℕ) (codes : List String) → IsQuiet (enable_mfa pg crypto u codes)
  unfolding enable_mfa
  IsQuiet-enable_mfa crypto u codes = search (write_rules, IsQuiet-store_codes) depth 80 fits 4000

  IsQuiet-check_setup : (totp : Totp) (u : ℕ) (code : String) → IsQuiet (check_setup pg totp u code)
  unfolding check_setup
  IsQuiet-check_setup totp u code = search write_rules depth 80 fits 4000

  pub IsQuiet-verify_setup :
      (crypto : Crypto) (totp : Totp) (u : ℕ) (code : String)
      → IsQuiet (verify_setup pg crypto totp u code)
  unfolding verify_setup
  IsQuiet-verify_setup crypto totp u code =
      search (write_rules, IsQuiet-check_setup, IsQuiet-generate, IsQuiet-enable_mfa) depth 80 fits
        4000

  IsQuiet-replace : (crypto : Crypto) (u : ℕ) → IsQuiet (replace_recovery_codes pg crypto u)
  unfolding replace_recovery_codes
  IsQuiet-replace crypto u =
      search (write_rules, IsQuiet-generate, IsQuiet-store_codes) depth 80 fits 4000

  IsQuiet-check_regenerate :
      (crypto : Crypto) (totp : Totp) (u : ℕ) (p c : String)
      → IsQuiet (check_regenerate pg crypto totp u p c)
  unfolding check_regenerate regenerate_failed
  IsQuiet-check_regenerate crypto totp u p c = search write_rules depth 80 fits 4000

  IsQuiet-note : (u : ℕ) → IsQuiet (note_regenerated pg u)
  unfolding note_regenerated
  IsQuiet-note u = search write_rules depth 80 fits 4000

  pub IsQuiet-regenerate :
      (crypto : Crypto) (totp : Totp) (u : ℕ) (p c : String)
      → IsQuiet (regenerate_recovery_codes pg crypto totp u p c)
  unfolding regenerate_recovery_codes
  IsQuiet-regenerate crypto totp u p c =
      search (write_rules, IsQuiet-check_regenerate, IsQuiet-replace, IsQuiet-note) depth 80 fits
        4000

  pub IsQuiet-auth_guard : (crypto : Crypto) (h : Option String) → IsQuiet (auth_guard pg crypto h)
  unfolding auth_guard
  IsQuiet-auth_guard crypto h = search write_rules depth 80 fits 4000

  IsQuiet-check_subject : (r : Option ℕ) (a : ℕ) → IsQuiet (check_subject pg r a)
  unfolding check_subject
  IsQuiet-check_subject r a = search write_rules depth 80 fits 4000

  IsQuiet-record_event :
      (dto : CreateSecurityEventDto) (a : ℕ) (t : String) (r : RiskLevel)
      → IsQuiet (record_event pg dto a t r)
  unfolding record_event
  IsQuiet-record_event dto a t r = search write_rules depth 80 fits 4000

  pub IsQuiet-create_event :
      (dto : CreateSecurityEventDto) (a : ℕ) → IsQuiet (create_event pg dto a)
  unfolding create_event
  IsQuiet-create_event dto a =
      search (write_rules, IsQuiet-check_subject, IsQuiet-record_event) depth 80 fits 4000

  pub IsQuiet-add_note : (id : ℕ) (n : String) (a : ℕ) → IsQuiet (add_note pg id n a)
  unfolding add_note
  IsQuiet-add_note id n a = search write_rules depth 80 fits 4000

pub IsQuiet-roles_guard :
    (r : Option (List UserRole)) (p : Option Principal) → IsQuiet (roles_guard r p)
unfolding roles_guard
IsQuiet-roles_guard none p = search quiet_rules
IsQuiet-roles_guard (some []) p = search quiet_rules
IsQuiet-roles_guard (some (r ∷ rs)) none = search quiet_rules
IsQuiet-roles_guard (some (r ∷ rs)) (some p) = search quiet_rules
