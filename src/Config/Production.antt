-- ===== src/Config/Production.antt =====
-- What Validate of backend/internal/config/config.go asks in staging and production, and Validate as a
-- whole.
use Prim.Native.String.{◌++◌ as text_append}
use online_prorab.Common.{
  ℕ, ◌*◌, String, Bool, true, false, not, ◌&&◌, ◌||◌, Option, none, some, List, [], ◌∷◌, ◌++◌, leb,
  str_eq, if◌then◌else◌,
}
use online_prorab.Common.Int.{is_below, is_above}
use online_prorab.Text.{trim_space, contains, to_lower, has_suffix, trim_dot}
use online_prorab.Config.{Config, Ip, Tls, Net, is_production, is_staging, is_production_like}
use online_prorab.Config.Key.{Float, is_unsafe_signing_key}
use online_prorab.Config.Values.{minute}
use online_prorab.Config.Rules.{
  problem, is_blank, some_of, base_problems, storage_problems, limit_problems, review_problems,
  staging_problems, price_problems, staging_phone_set, staging_code_set, is_twilio_or_nikita,
  is_cons,
}
use online_prorab.Config.Validate.{sms_problems, validate_obank_config, sandbox_problems}

abbrev is_local_ip : Option Ip → Bool
is_local_ip none = false
is_local_ip (some ip) = ip.is_loopback || ip.is_unspecified

abbrev verifies : Option Tls → Bool
verifies none = false
verifies (some tls) = not tls.insecure_skip_verify && not (is_blank tls.server_name)

-- usesVerifiedPostgresTLS.
unfoldable pub uses_verified_postgres_tls : Option Tls → Bool
uses_verified_postgres_tls tls = verifies tls

-- The problems with "; " between them.
abbrev joined_from : String → List String → String
joined_from p [] = p
joined_from p (q ∷ ps) = text_append p (text_append "; " (joined_from q ps))

abbrev pub joined : List String → Option String
joined [] = none
joined (p ∷ ps) = some (joined_from p ps)

module _ {A : Type 0} (net : Net A) where
  abbrev is_local_host : String → Bool
  is_local_host host =
      str_eq host "localhost" || has_suffix host ".localhost" || is_local_ip (net.parse_ip host)

  unfoldable pub is_unsafe_production_origin : String → Bool
  is_unsafe_production_origin origin = elim (net.parse_url (trim_space origin)) [
    | none ↦ true
    | some u ↦
        not (str_eq u.scheme "https")
        || str_eq u.host ""
        || u.has_user
        || not (str_eq u.opaque "")
        || not (str_eq u.path "")
        || not (str_eq u.raw_query "")
        || u.force_query
        || not (str_eq u.fragment "")
        || contains u.host "*"
        || is_local_host (trim_dot (to_lower u.hostname))
  ]

  abbrev masked_prefix : Option (A × ℕ) → Option (A × ℕ)
  masked_prefix none = none
  masked_prefix (some (addr, bits)) =
      if net.is_4in6 addr then none else some (net.masked addr bits, bits)

  unfoldable pub parse_trusted_proxy_cidr : String → Option (A × ℕ)
  parse_trusted_proxy_cidr value = elim (net.parse_addr (trim_space value)) [
    | some addr ↦ some (net.unmap addr, net.bit_len (net.unmap addr))
    | none ↦ masked_prefix (net.parse_prefix (trim_space value))
  ]

  -- A prefix that was parsed is valid.
  unfoldable pub is_narrow_trusted_proxy_prefix : A × ℕ → Bool
  is_narrow_trusted_proxy_prefix (addr, bits) =
      not (net.is_unspecified addr) && leb (if net.is_4 addr then 16 else 64) bits

  abbrev pub is_narrow_proxy : String → Bool
  is_narrow_proxy value = elim (parse_trusted_proxy_cidr value) [
    | none ↦ false
    | some prefix ↦ is_narrow_trusted_proxy_prefix prefix
  ]

  abbrev hosts_tls_problems : Option (Option Tls × List (Option Tls)) → List String
  hosts_tls_problems none =
      "DATABASE_URL must be a valid PostgreSQL URL with verified TLS in staging and production" ∷ []
  hosts_tls_problems (some (first, fallbacks)) =
      if not (uses_verified_postgres_tls first)
      then "DATABASE_URL must use sslmode=verify-full in staging and production" ∷ []
      else problem (some_of (λ tls. not (uses_verified_postgres_tls tls)) fallbacks)
          "DATABASE_URL must use sslmode=verify-full for every staging and production database host"

  unfoldable pub validate_verified_database_tls : String → List String
  validate_verified_database_tls database_url = hosts_tls_problems (net.parse_database database_url)

  abbrev pub proxy_problems : Config → List String
  proxy_problems c =
      if not (is_cons c.trusted_proxy_cidrs)
      then "TRUSTED_PROXY_CIDRS must identify the reverse proxies that reach the API" ∷ []
      else problem (some_of (λ value. not (is_narrow_proxy value)) c.trusted_proxy_cidrs)
          "TRUSTED_PROXY_CIDRS must use IPv4 prefixes of /16 or longer and IPv6 prefixes of /64 or longer"

  module _ {W : Type 0} (fl : Float W) where
    abbrev pub secret_problems : Config → List String
    secret_problems c =
        problem (is_staging c && c.review_only_mode) "REVIEW_ONLY_MODE is not allowed in staging"
        ++ (problem (is_blank c.jwt_secret) "JWT_SECRET is required in staging and production"
            ++ (problem (is_unsafe_signing_key fl c.jwt_secret)
                  "JWT_SECRET must be a high-entropy random value in staging and production"
                ++ problem
                    (is_below c.access_token_ttl (5 * minute)
                      || is_above c.access_token_ttl (60 * minute))
                    "ACCESS_TOKEN_TTL_MINUTES must be between 5 and 60 in staging and production"))

    abbrev pub origin_problems : Config → List String
    origin_problems c =
        problem (not (is_cons c.cors_allowed_origins))
          "CORS_ALLOWED_ORIGINS is required in staging and production"
        ++ problem (some_of is_unsafe_production_origin c.cors_allowed_origins)
            "CORS_ALLOWED_ORIGINS contains an insecure origin"

    abbrev pub provider_problems : Config → List String
    provider_problems c =
        problem
          (is_staging c
            && not (is_twilio_or_nikita c)
            && not (staging_phone_set c && staging_code_set c))
          "SMS_PROVIDER=twilio or nikita is required in staging"
        ++ problem (is_production c && not c.review_only_mode && not (is_twilio_or_nikita c))
            "SMS_PROVIDER=twilio or nikita is required in production unless REVIEW_ONLY_MODE is enabled"

    abbrev pub production_like_problems : Config → List String
    production_like_problems c =
        secret_problems c
        ++ (origin_problems c
            ++ (proxy_problems c
                ++ (provider_problems c ++ validate_verified_database_tls c.database_url)))

    unfoldable pub problems : Config → List String
    problems c =
        base_problems c
        ++ (storage_problems c
            ++ (limit_problems c
                ++ (sms_problems net c
                    ++ (validate_obank_config net c
                        ++ (review_problems c
                            ++ (staging_problems c
                                ++ (price_problems c
                                    ++ (sandbox_problems net c
                                        ++ (if is_production_like c
                                            then production_like_problems c
                                            else [])))))))))

    -- Validate: the error, if there is one.
    unfoldable pub validate : Config → Option String
    validate c = joined (problems c)
