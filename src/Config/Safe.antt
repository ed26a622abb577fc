-- ===== src/Config/Safe.antt =====
-- What the back end starts with: just the safe settings.
use bankproject.Base.{
  ℕ, ◌≤◌, ◌≡◌, refl, ap, String, true, ◌&&◌, Option, none, some, List, [], ◌∷◌, arith, Bool-cases,
  str_eq, not, inl, inr, ◌⊎◌,
}
use bankproject.Text.{is_truthy}
use bankproject.Config.{
  Platform, Environment, is_local, is_port, Settings, is_production, checks, settings_errors,
  read_settings, accepted, refused, outcome_of, validate_configuration,
}
use bankproject.Config.Checks.{
  IsSafe, flatten_nil, unless_nil, flatten_of_nil, unless-true, url_errors-IsAddress,
  address-url_errors, origin_errors-IsOrigin, valid-origin_errors, all_chars-IsHexText,
  hex-all_chars, remote-is_local, is_local-IsRemote,
}

module _ (platform : Platform) where
  port_of : (o : Option ℕ) → is_port o ≡ true → (n : ℕ) × (o ≡ some n) × (1 ≤ n) × (n ≤ 65535)
  port_of none e = absurd (cc e)
  port_of (some n) e = (n, refl, ground (arith, e), ground (arith, e))

  settings_errors_nil : (s : Settings) → settings_errors platform s ≡ [] → IsSafe platform s
  unfolding settings_errors
  settings_errors_nil s h =
      let (
        first,
        (
          second,
          (secret, (key, (port, (env, (cors, (origins, (local_database, (local_engine, end)))))))),
        ),
      ) =
        flatten_nil platform (checks platform s) h in
      let database = url_errors-IsAddress platform _ _ _ _ s.database_url first in
      let engine = url_errors-IsAddress platform _ _ _ _ s.fraud_engine_url second in
      let long = unless_nil platform _ _ secret in
      let hex = unless_nil platform _ _ key in
      let known = unless_nil platform _ _ env in
      let given = unless_nil platform _ _ cors in
      let far = unless_nil platform _ _ local_database in
      let away = unless_nil platform _ _ local_engine in
      let (n, is, low, high) = port_of s.port (unless_nil platform _ _ port) in
      record {
        database = database;
        engine = engine;
        secret = ground (arith, long);
        unlike_example = ground (arith, long);
        unlike_dashed = ground (arith, long);
        unlike_joined = ground (arith, long);
        key_chars = ground (arith, hex);
        key_hex = all_chars-IsHexText platform s.mfa_encryption_key (ground (arith, hex));
        number = n;
        port = is;
        port_low = low;
        port_high = high;
        env = ground (arith, known);
        origins = origin_errors-IsOrigin platform s.origins origins;
        production = elim (Bool-cases (str_eq s.node_env "production")) [
          | inl p ↦ inr (
            ground (arith, p, given),
            is_local-IsRemote platform s.database_url database.parsed database.read
                (ground (arith, p, far)),
            is_local-IsRemote platform s.fraud_engine_url engine.parsed engine.read
                (ground (arith, p, away)),
          )
          | inr p ↦ inl p
        ];
      }

  -- What is asked of a start in production.
  production_tests :
      (s : Settings) (safe : IsSafe platform s)
      → (not (is_production s && not (is_truthy s.configured_origins)) ≡ true)
        × (not (is_production s && is_local platform s.database_url) ≡ true)
        × (not (is_production s && is_local platform s.fraud_engine_url) ≡ true)
  production_tests s safe = elim safe.production [
    | inl p ↦ (ground (arith, p), ground (arith, p), ground (arith, p))
    | inr (given, database, engine) ↦ (
      ground (arith, given),
      ground (
        arith,
        remote-is_local platform s.database_url safe.database.parsed safe.database.read database,
      ),
      ground (
        arith,
        remote-is_local platform s.fraud_engine_url safe.engine.parsed safe.engine.read engine,
      ),
    )
  ]

  safe-settings_errors : (s : Settings) → IsSafe platform s → settings_errors platform s ≡ []
  unfolding settings_errors
  safe-settings_errors s safe =
      let (given, database, engine) = production_tests s safe in
      flatten_of_nil platform (checks platform s) (
        address-url_errors platform _ _ _ _ s.database_url safe.database,
        (
          address-url_errors platform _ _ _ _ s.fraud_engine_url safe.engine,
          (
            unless-true platform _ _ (
                ground (
                  arith, safe.secret, safe.unlike_example, safe.unlike_dashed, safe.unlike_joined,
                )),
            (
              unless-true platform _ _ (
                  ground (
                    arith,
                    safe.key_chars,
                    hex-all_chars platform s.mfa_encryption_key safe.key_hex,
                  )),
              (
                unless-true platform _ _ (ground (arith, safe.port, safe.port_low, safe.port_high)),
                (
                  unless-true platform _ _ (ground (arith, safe.env)),
                  (
                    unless-true platform _ _ given,
                    (
                      valid-origin_errors platform s.origins safe.origins,
                      (unless-true platform _ _ database, (unless-true platform _ _ engine, tt)),
                    ),
                  ),
                ),
              ),
            ),
          ),
        ),
      )

  -- The back end starts just with safe settings, which are then those that are read from the
  -- environment: a PostgreSQL address, a web address of the fraud engine, a secret of 32 characters
  -- or more that is no placeholder, a key of 64 hexadecimal digits, a port from 1 to 65535, a known
  -- environment and valid origins; in production the origins are given and the host of neither
  -- address is localhost or 127.0.0.1. With any other settings it is refused with a message.
  pub validate_configuration-IsSafe :
      (config : Environment)
      → ((validate_configuration platform config ≡ accepted (read_settings platform config))
          × IsSafe platform (read_settings platform config))
        ⊎ ((message : String) × (validate_configuration platform config ≡ refused message)
            × (¬ IsSafe platform (read_settings platform config)))
  unfolding validate_configuration
  validate_configuration-IsSafe config =
      let s = read_settings platform config in go s (settings_errors platform s) refl
    where
      go :
          (s : Settings) (es : List String)
          → settings_errors platform s ≡ es
          → ((outcome_of (settings_errors platform s) s ≡ accepted s) × IsSafe platform s)
            ⊎ ((message : String) × (outcome_of (settings_errors platform s) s ≡ refused message)
                × (¬ IsSafe platform s))
      go s [] e = inl (ap (λ x. outcome_of x s) e, settings_errors_nil s e)
      go s (x ∷ xs) e =
          inr (_, ap (λ y. outcome_of y s) e, λ safe. cc (e, safe-settings_errors s safe))
