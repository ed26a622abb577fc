-- ===== src/Config/Tests.antt =====
-- A start in production and one that is refused, and the instance of the theorem on the first.
use bankproject.Base.{
  ◌≡◌, refl, String, true, false, Bool, Option, none, some, str_eq, if◌then◌else◌, ◌⊎◌,
}
use bankproject.Text.{trim, to_lower}
use bankproject.Text.Split.{split, join_with}
use bankproject.Http.{listed_origins}
use bankproject.Config.{
  Url, Platform, Environment, read_string, url_errors, cors_origins, settings_errors, read_settings,
  accepted, refused, validate_configuration,
}
use bankproject.Config.Checks.{IsSafe}
use bankproject.Config.Safe.{validate_configuration-IsSafe}

abbrev at_host : String → String → Url
at_host protocol hostname = record {
  protocol = protocol;
  hostname = hostname;
  pathname = "/";
  search = "";
  hash = "";
}

abbrev url : String → Option Url
url s =
    if str_eq s "postgresql://db/bank"
    then some (at_host "postgresql:" "db")
    else if str_eq s "https://soc.example"
    then some (at_host "https:" "soc.example")
    else if str_eq s "http://[::1]:8000"
    then some (at_host "http:" "[::1]")
    else none

url_bracketed : (s : String) {u : Url} → url s ≡ some u → str_eq u.hostname "::1" ≡ false
url_bracketed s =
    go (str_eq s "postgresql://db/bank") (str_eq s "https://soc.example")
      (str_eq s "http://[::1]:8000")
  where
    host_of :
        (x : Url) {u : Url}
        → str_eq x.hostname "::1" ≡ false
        → some x ≡ some u
        → str_eq u.hostname "::1" ≡ false
    host_of x e h = cc (e, h)

    go :
        (a b c : Bool) {u : Url}
        → (if a
            then some (at_host "postgresql:" "db")
            else if b
            then some (at_host "https:" "soc.example")
            else if c
            then some (at_host "http:" "[::1]")
            else none)
          ≡ some u
        → str_eq u.hostname "::1" ≡ false
    go true b c h = host_of (at_host "postgresql:" "db") refl h
    go false true c h = host_of (at_host "https:" "soc.example") refl h
    go false false true h = host_of (at_host "http:" "[::1]") refl h
    go false false false h = absurd (cc h)

abbrev platform : Platform
platform = record {
  url = url;
  number = λ s. if str_eq s "3000" then some 3000 else none;
  bracketed = url_bracketed;
}

abbrev production : Environment
production key =
    if str_eq key "DATABASE_URL"
    then some "postgresql://db/bank"
    else if str_eq key "FRAUD_ENGINE_URL"
    then some " https://soc.example"
    else if str_eq key "JWT_SECRET"
    then some "0123456789abcdef0123456789abcdef"
    else if str_eq key "MFA_ENCRYPTION_KEY"
    then some "0123456789abcdef0123456789abcdef0123456789abcdef0123456789ABCDEF"
    else if str_eq key "NODE_ENV"
    then some "production"
    else if str_eq key "CORS_ORIGINS"
    then some "https://soc.example"
    else none

abbrev local_only : Environment
local_only key = if str_eq key "CORS_ORIGINS" then none else production key

-- A production start whose fraud engine is this machine, by its IPv6 address.
abbrev looped : Environment
looped key = if str_eq key "FRAUD_ENGINE_URL" then some "http://[::1]:8000" else production key

ran : Unit {0}
unfolding validate_configuration read_settings settings_errors url_errors read_string cors_origins
    listed_origins split trim to_lower join_with
ran = tt

run_production :
    validate_configuration platform production ≡ accepted (read_settings platform production)
unfolding ran
run_production = refl

run_looped : validate_configuration platform looped ≡ accepted (read_settings platform looped)
unfolding ran
run_looped = refl

run_local_only : (message : String) × (validate_configuration platform local_only ≡ refused message)
unfolding ran
run_local_only = (_, refl)

validate_configuration-IsSafe_example :
    ((validate_configuration platform production ≡ accepted (read_settings platform production))
      × IsSafe platform (read_settings platform production))
    ⊎ ((message : String) × (validate_configuration platform production ≡ refused message)
        × (¬ IsSafe platform (read_settings platform production)))
validate_configuration-IsSafe_example = validate_configuration-IsSafe platform production
