-- ===== src/Config.antt =====
-- backend/src/config/configuration.ts: what the back end starts with.
pub mod Checks
pub mod Safe
mod Tests
use Prim.Native.Char.{Char, code}
use bankproject.Base.{
  ℕ, ◌+◌, String, Bool, true, false, not, ◌&&◌, ◌||◌, Option, none, some, List, [], ◌∷◌, ◌++◌, ◌==◌,
  leb, str_eq, ◌≡◌, any_where, if◌then◌else◌,
}
use bankproject.Text.{trim, is_truthy, to_lower}
use bankproject.Text.Split.{join_with}
use bankproject.Text.Search.{contains}
use bankproject.Http.{all_chars, chars, default_origins, listed_origins}

pub record Url : Type 0 where
  pub protocol : String
  pub hostname : String
  pub pathname : String
  pub search : String
  pub hash : String

-- `new URL(s)`, none where it throws, and `Number(s)` where that is a whole number of zero or more.
pub record Platform : Type 0 where
  pub url : String → Option Url
  pub number : String → Option ℕ
  -- a host that is an IPv6 address stands in brackets
  pub bracketed : (s : String) {u : Url} → url s ≡ some u → str_eq u.hostname "::1" ≡ false

-- The variables of the environment that are texts.
abbrev pub Environment : Type 0
Environment = String → Option String

unfoldable pub read_string : Environment → String → String
read_string config key = elim (config key) [ none ↦ "" | some s ↦ trim s ]

abbrev pub includes : List String → String → Bool
includes texts s = any_where (str_eq s) texts

-- An error if a test fails.
abbrev pub unless : Bool → String → List String
unless true message = []
unless false message = message ∷ []

abbrev pub infix_text : String → String → String
infix_text = Prim.Native.String.◌++◌

-- `requirePostgresUrl` and `requireHttpUrl`: the errors of one URL, for the protocols that it may
-- have.
unfoldable pub url_errors : Platform → List String → String → String → String → List String
url_errors platform protocols complaint key value =
    if is_truthy value
    then elim (platform.url value) [
      | none ↦ infix_text key " must be a valid URL" ∷ []
      | some u ↦ unless (includes protocols u.protocol) (infix_text key complaint)
    ]
    else infix_text key " is required" ∷ []

abbrev pub postgres_errors : Platform → String → String → List String
postgres_errors platform =
    url_errors platform ("postgres:" ∷ "postgresql:" ∷ []) " must be a PostgreSQL connection URL"

abbrev pub http_errors : Platform → String → String → List String
http_errors platform = url_errors platform ("http:" ∷ "https:" ∷ []) " must use http or https"

-- An origin is a web address without a path, a query or a fragment.
abbrev pub is_origin : Platform → String → Bool
is_origin platform s = elim (platform.url s) [
  | none ↦ false
  | some u ↦
      includes ("http:" ∷ "https:" ∷ []) u.protocol
      && str_eq u.pathname "/"
      && not (is_truthy u.search)
      && not (is_truthy u.hash)
]

abbrev pub origin_errors : Platform → List String → List String
origin_errors platform [] = []
origin_errors platform (o ∷ os) =
    unless (is_origin platform o) (infix_text "CORS_ORIGINS contains an invalid origin: " o)
    ++ origin_errors platform os

unfoldable pub cors_origins : String → List String
cors_origins configured =
    if is_truthy configured then listed_origins configured else default_origins

abbrev pub is_local : Platform → String → Bool
is_local platform s = elim (platform.url s) [
  | none ↦ false
  | some u ↦ includes ("localhost" ∷ "127.0.0.1" ∷ "::1" ∷ []) u.hostname
]

-- `/replace-with|change-me|changeme/i.test(s)`
abbrev pub is_placeholder : String → Bool
is_placeholder s =
    contains "replace-with" (to_lower s)
    || contains "change-me" (to_lower s)
    || contains "changeme" (to_lower s)

abbrev pub is_hex : ℕ → Bool
is_hex c = (leb b'0' c && leb c b'9') || (leb b'a' c && leb c b'f') || (leb b'A' c && leb c b'F')

-- `/^[0-9a-f]{64}$/i.test(s)`
abbrev pub is_key : String → Bool
is_key s = chars s == 64 && all_chars is_hex s

abbrev pub or_text : String → String → String
or_text s default = if is_truthy s then s else default

abbrev pub is_port : Option ℕ → Bool
is_port none = false
is_port (some n) = leb 1 n && leb n 65535

-- `s.length`: a character beyond the first plane counts twice.
abbrev pub units : String → ℕ
units String.[] = 0
units (String.◌∷◌ c s) = if leb 0x10000 (code c) then 2 + units s else 1 + units s

pub record Settings : Type 0 where
  pub database_url : String
  pub fraud_engine_url : String
  pub jwt_secret : String
  pub mfa_encryption_key : String
  pub node_env : String
  pub port : Option ℕ
  pub origins : List String
  -- the variable as it was given
  pub configured_origins : String

unfoldable pub read_settings : Platform → Environment → Settings
unfolding read_string cors_origins
read_settings platform config = record {
  database_url = read_string config "DATABASE_URL";
  fraud_engine_url = read_string config "FRAUD_ENGINE_URL";
  jwt_secret = read_string config "JWT_SECRET";
  mfa_encryption_key = read_string config "MFA_ENCRYPTION_KEY";
  node_env = or_text (read_string config "NODE_ENV") "development";
  port = platform.number (or_text (read_string config "PORT") "3000");
  origins = cors_origins (read_string config "CORS_ORIGINS");
  configured_origins = read_string config "CORS_ORIGINS";
}

abbrev pub is_production : Settings → Bool
is_production s = str_eq s.node_env "production"

-- The errors of each check, in the order of the checks.
abbrev pub checks : Platform → Settings → List (List String)
checks platform s =
    postgres_errors platform "DATABASE_URL" s.database_url
    ∷ http_errors platform "FRAUD_ENGINE_URL" s.fraud_engine_url
    ∷ unless (leb 32 (units s.jwt_secret) && not (is_placeholder s.jwt_secret))
        "JWT_SECRET must be at least 32 characters and must be replaced"
    ∷ unless (is_key s.mfa_encryption_key)
        "MFA_ENCRYPTION_KEY must be exactly 64 hexadecimal characters"
    ∷ unless (is_port s.port) "PORT must be an integer between 1 and 65535"
    ∷ unless (includes ("development" ∷ "test" ∷ "production" ∷ []) s.node_env)
        "NODE_ENV must be development, test, or production"
    ∷ unless (not (is_production s && not (is_truthy s.configured_origins)))
        "CORS_ORIGINS must be explicitly configured in production"
    ∷ origin_errors platform s.origins
    ∷ unless (not (is_production s && is_local platform s.database_url))
        "DATABASE_URL must not point to localhost in production"
    ∷ unless (not (is_production s && is_local platform s.fraud_engine_url))
        "FRAUD_ENGINE_URL must not point to localhost in production"
    ∷ []

abbrev pub flatten {ℓ} : {A : Type ℓ} → List (List A) → List A
flatten [] = []
flatten (xs ∷ xss) = xs ++ flatten xss

unfoldable pub settings_errors : Platform → Settings → List String
settings_errors platform s = flatten (checks platform s)

-- The settings, or the message of the error that is thrown.
pub data Outcome : Type 0 where
  accepted : Settings → Outcome
  refused : String → Outcome

abbrev pub outcome_of : List String → Settings → Outcome
outcome_of [] s = accepted s
outcome_of (e ∷ es) s =
    refused (infix_text "Invalid BankShield configuration: " (join_with "; " (e ∷ es)))

unfoldable pub validate_configuration : Platform → Environment → Outcome
unfolding read_settings settings_errors
validate_configuration platform config =
    let s = read_settings platform config in outcome_of (settings_errors platform s) s
