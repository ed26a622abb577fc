-- ===== src/Config/Checks.antt =====
-- What the settings of a safe start are, and what each check says of them.
use Prim.Native.Char.{code}
use bankproject.Base.{
  ℕ, ◌≤◌, ◌≡◌, refl, String, Bool, true, false, ◌&&◌, some, List, [], ◌∷◌, ◌++◌, arith, All, leb,
  str_eq, Bool-cases, ◌||◌, Option-cases, inl, inr, ◌⊎◌,
}
use bankproject.Text.{is_truthy, to_lower}
use bankproject.Text.Search.{contains}
use bankproject.Http.{all_chars, chars}
use bankproject.Config.{
  Url, is_hex, Platform, unless, url_errors, is_origin, origin_errors, is_local, units, Settings,
  flatten, infix_text,
}

-- The host is not the machine itself by the name `localhost` or by the address 127.0.0.1.
pub record IsRemote (u : Url) : Type 0 where
  pub named : str_eq u.hostname "localhost" ≡ false
  pub numbered : str_eq u.hostname "127.0.0.1" ≡ false

abbrev pub IsHex : ℕ → Type 0
IsHex c = ((48 ≤ c) × (c ≤ 57)) ⊎ ((65 ≤ c) × (c ≤ 70)) ⊎ ((97 ≤ c) × (c ≤ 102))

abbrev pub IsHexText : String → Type 0
IsHexText String.[] = Unit
IsHexText (String.◌∷◌ c s) = IsHex (code c) × IsHexText s

module _ (platform : Platform) where
  -- A text that is read as a URL with one of two protocols.
  pub record IsAddress (one other s : String) : Type 0 where
    pub given : is_truthy s ≡ true
    pub parsed : Url
    pub read : platform.url s ≡ some parsed
    pub protocol : (str_eq parsed.protocol one || str_eq parsed.protocol other) ≡ true

  pub record IsOrigin (s : String) : Type 0 where
    pub parsed : Url
    pub read : platform.url s ≡ some parsed
    pub protocol : (str_eq parsed.protocol "http:" || str_eq parsed.protocol "https:") ≡ true
    pub path : str_eq parsed.pathname "/" ≡ true
    pub search : is_truthy parsed.search ≡ false
    pub hash : is_truthy parsed.hash ≡ false

  pub record IsSafe (s : Settings) : Type 0 where
    pub database : IsAddress "postgres:" "postgresql:" s.database_url
    pub engine : IsAddress "http:" "https:" s.fraud_engine_url
    pub secret : 32 ≤ units s.jwt_secret
    pub unlike_example : contains "replace-with" (to_lower s.jwt_secret) ≡ false
    pub unlike_dashed : contains "change-me" (to_lower s.jwt_secret) ≡ false
    pub unlike_joined : contains "changeme" (to_lower s.jwt_secret) ≡ false
    pub key_chars : chars s.mfa_encryption_key ≡ 64
    pub key_hex : IsHexText s.mfa_encryption_key
    pub number : ℕ
    pub port : s.port ≡ some number
    pub port_low : 1 ≤ number
    pub port_high : number ≤ 65535
    pub env :
        (str_eq s.node_env "development"
          || str_eq s.node_env "test"
          || str_eq s.node_env "production")
        ≡ true
    pub origins : All IsOrigin s.origins
    pub production :
        (str_eq s.node_env "production" ≡ false)
        ⊎ ((is_truthy s.configured_origins ≡ true)
            × IsRemote database.parsed
            × IsRemote engine.parsed)

  pub split_nil {ℓ} : {A : Type ℓ} (xs ys : List A) → xs ++ ys ≡ [] → (xs ≡ []) × (ys ≡ [])
  split_nil [] ys h = (refl, h)
  split_nil (x ∷ xs) ys h = absurd (cc h)

  pub flatten_nil {ℓ} :
      {A : Type ℓ} (xss : List (List A)) → flatten xss ≡ [] → All (λ xs. xs ≡ []) xss
  flatten_nil [] h = tt
  flatten_nil (xs ∷ xss) h = let (a, b) = split_nil xs (flatten xss) h in (a, flatten_nil xss b)

  pub unless_nil : (b : Bool) (m : String) → unless b m ≡ [] → b ≡ true
  unless_nil true m h = refl
  unless_nil false m h = absurd (cc h)

  pub flatten_of_nil {ℓ} :
      {A : Type ℓ} (xss : List (List A)) → All (λ xs. xs ≡ []) xss → flatten xss ≡ []
  flatten_of_nil [] h = refl
  flatten_of_nil (xs ∷ xss) h = cc (h.0, flatten_of_nil xss h.1)

  pub unless-true : (b : Bool) (m : String) → b ≡ true → unless b m ≡ []
  unless-true true m h = refl
  unless-true false m h = absurd (cc h)

  pub url_errors-IsAddress :
      (one other complaint key s : String)
      → url_errors platform (one ∷ other ∷ []) complaint key s ≡ []
      → IsAddress one other s
  unfolding url_errors
  url_errors-IsAddress one other complaint key s h = elim (Option-cases (platform.url s)) [
    | inl e ↦ absurd (ground (arith, h, e))
    | inr (u, e) ↦ record {
      given = ground (arith, h, e);
      parsed = u;
      read = e;
      protocol = ground (arith, h, e);
    }
  ]

  pub address-url_errors :
      (one other complaint key s : String)
      → IsAddress one other s
      → url_errors platform (one ∷ other ∷ []) complaint key s ≡ []
  unfolding url_errors
  address-url_errors one other complaint key s h = ground (arith, h.given, h.read, h.protocol)

  is_origin-IsOrigin : (o : String) → is_origin platform o ≡ true → IsOrigin o
  is_origin-IsOrigin o h = elim (Option-cases (platform.url o)) [
    | inl e ↦ absurd (ground (arith, h, e))
    | inr (u, e) ↦ record {
      parsed = u;
      read = e;
      protocol = ground (arith, h, e);
      path = ground (arith, h, e);
      search = ground (arith, h, e);
      hash = ground (arith, h, e);
    }
  ]

  valid-is_origin : (o : String) → IsOrigin o → is_origin platform o ≡ true
  valid-is_origin o h = ground (arith, h.read, h.protocol, h.path, h.search, h.hash)

  pub origin_errors-IsOrigin : (os : List String) → origin_errors platform os ≡ [] → All IsOrigin os
  origin_errors-IsOrigin [] h = tt
  origin_errors-IsOrigin (o ∷ os) h =
      let (a, b) =
        split_nil
          (unless (is_origin platform o) (infix_text "CORS_ORIGINS contains an invalid origin: " o))
          (origin_errors platform os) h in
      (is_origin-IsOrigin o (unless_nil _ _ a), origin_errors-IsOrigin os b)

  pub valid-origin_errors : (os : List String) → All IsOrigin os → origin_errors platform os ≡ []
  valid-origin_errors [] h = refl
  valid-origin_errors (o ∷ os) h = ground (arith, valid-is_origin o h.0, valid-origin_errors os h.1)

  pub all_chars-IsHexText : (s : String) → all_chars is_hex s ≡ true → IsHexText s
  all_chars-IsHexText String.[] h = tt
  all_chars-IsHexText (String.◌∷◌ c s) h =
      (hex (code c) (ground (arith, h)), all_chars-IsHexText s (ground (arith, h)))
    where
      hex : (n : ℕ) → is_hex n ≡ true → IsHex n
      hex n e = elim (Bool-cases (leb 48 n && leb n 57)) [
        | inl digit ↦ inl (ground (arith, digit), ground (arith, digit))
        | inr other ↦ elim (Bool-cases (leb 65 n && leb n 70)) [
          | inl upper ↦ inr (inl (ground (arith, upper), ground (arith, upper)))
          | inr lower ↦ inr (inr (ground (arith, e, other, lower), ground (arith, e, other, lower)))
        ]
      ]

  pub hex-all_chars : (s : String) → IsHexText s → all_chars is_hex s ≡ true
  hex-all_chars String.[] h = refl
  hex-all_chars (String.◌∷◌ c s) h = ground (arith, hex (code c) h.0, hex-all_chars s h.1)
    where
      hex : (n : ℕ) → IsHex n → is_hex n ≡ true
      hex n (inl e) = ground (arith, e.0, e.1)
      hex n (inr (inl e)) = ground (arith, e.0, e.1)
      hex n (inr (inr e)) = ground (arith, e.0, e.1)

  pub remote-is_local :
      (s : String) (u : Url) → platform.url s ≡ some u → IsRemote u → is_local platform s ≡ false
  remote-is_local s u e h = ground (arith, e, h.named, h.numbered, platform.bracketed s e)

  pub is_local-IsRemote :
      (s : String) (u : Url) → platform.url s ≡ some u → is_local platform s ≡ false → IsRemote u
  is_local-IsRemote s u e h = record {
    named = ground (arith, e, h);
    numbered = ground (arith, e, h);
  }
