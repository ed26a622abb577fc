-- ===== src/Auth/Mfa/Setup/Tests.antt =====
-- A set-up, the code that puts the factor on, and the instances of the theorems on them.
use bankproject.Base.{
  ℕ, ◌+◌, ◌≡◌, refl, String, true, false, some, List, [], ◌∷◌, Memᴰ, Option, All, length,
  count_where, update_where,
}
use bankproject.Text.{to_upper, trim, drop_dashes}
use bankproject.Text.Split.{split, join_with, take_chars, drop_chars}
use bankproject.Model.{User}
use bankproject.Prisma.Listed.{listed}
use bankproject.Handler.{World, ok}
use bankproject.Store.{create_audit_log, create_security_event}
use bankproject.Auth.{Totp}
use bankproject.Auth.Tables.{has_uid, update_user}
use bankproject.Auth.Sample.{people, clear}
use bankproject.Auth.Mfa.{consume_recovery_code, spend_code}
use bankproject.Auth.Mfa.Disable.{is_code_of}
use bankproject.Auth.Mfa.Setup.{
  Seal, recovery_code, generate_recovery_code_set, set_up, pending, with_mfa, encrypt_secret,
  decrypt_secret, setup, store_codes, enable_mfa, check_setup, verify_setup,
}
use bankproject.Auth.Mfa.Setup.Cipher.{setup-pending}
use bankproject.Auth.Mfa.Setup.Enabled.{verify_setup-IsEnabled}

-- Nothing is hidden.
abbrev glass : Seal
glass iv secret = ("aa", secret)

abbrev open_glass : String → String → String → Option String
open_glass iv tag text = some text

abbrev any_code : Totp
any_code at secret code = some true

-- No two of the first texts that are drawn are the same.
abbrev draws : ℕ → String
draws n =
    String.◌∷◌ (Prim.Native.String.char_at "abcdefghijklmnopqrstuvwxyz" n) "0112233445566778899"

abbrev start : World
start = record { db = people; clock = λ n. 1000000 + n; random = draws; others = λ n d. d }

abbrev later : World
later = (setup listed glass 1 start).1

ran : Unit {0}
unfolding setup update_user encrypt_secret decrypt_secret split join_with take_chars drop_chars
    to_upper trim drop_dashes recovery_code generate_recovery_code_set store_codes enable_mfa
    check_setup verify_setup create_audit_log create_security_event consume_recovery_code spend_code
ran = tt

abbrev shown : List String
shown =
    "C0112-23344-55667-78899" ∷ "D0112-23344-55667-78899" ∷ "E0112-23344-55667-78899"
    ∷ "F0112-23344-55667-78899" ∷ "G0112-23344-55667-78899" ∷ "H0112-23344-55667-78899"
    ∷ "I0112-23344-55667-78899" ∷ "J0112-23344-55667-78899" ∷ "K0112-23344-55667-78899"
    ∷ "L0112-23344-55667-78899" ∷ []

run_shown : (verify_setup listed clear any_code 1 "123456" later).0 ≡ ok shown
unfolding ran
run_shown = refl

setup-pending_example :
    ((user : User) × Memᴰ user people.users × (user.id ≡ 1) × (user.mfa_enabled ≡ false))
    × (stored : String) × (later.db.users ≡ update_where (has_uid 1) (pending stored) people.users)
    × (decrypt_secret open_glass stored ≡ some "a0112233445566778899")
unfolding ran
setup-pending_example = setup-pending listed glass open_glass 1 start refl refl refl refl refl

verify_setup-IsEnabled_example :
    let after = (verify_setup listed clear any_code 1 "123456" later).1 in
    ((user : User) × Memᴰ user later.db.users
      × (user.id ≡ 1)
      × (user.mfa_enabled ≡ false)
      × (secret : String) × (set_up user ≡ some secret)
      × (any_code (later.clock 0) secret "123456" ≡ some true))
    × (length shown ≡ 10)
    × (after.db.users ≡ update_where (has_uid 1) (with_mfa (later.clock 1)) later.db.users)
    × (count_where (is_code_of 1) after.db.recovery_codes ≡ 10)
    × All (λ c. (consume_recovery_code listed clear 1 c after).0 ≡ ok true) shown
unfolding ran
verify_setup-IsEnabled_example =
    verify_setup-IsEnabled listed clear any_code 1 "123456" later (refl, tt) refl
