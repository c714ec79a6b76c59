-- ===== src/Config/Hardened.antt =====
-- What Validate of backend/internal/config/config.go promises of staging and production.
use online_prorab.Common.{
  ℕ, ◌*◌, ◌≤◌, String, ◌≡◌, refl, sym, ap, ◌∙◌, inl, inr, Bool, true, false, not, ◌||◌, Option,
  none, some, List, [], arith, eq_iff, str_eq, length, Bool-cases, Option-cases,
}
use online_prorab.Common.Int.{ℤ, pos, negsuc, is_below, is_above}
use online_prorab.Text.{trim_space, equal_fold}
use online_prorab.Config.{
  Config, Tls, Net, is_production, is_staging, is_development, is_production_like,
}
use online_prorab.Config.Key.{Float, bytes, is_unsafe_signing_key, has_repeated_signing_key_pattern}
use online_prorab.Config.Runs.{has_run, sequential_run_lem}
use online_prorab.Config.Values.{minute, contains_string}
use online_prorab.Config.Rules.{is_blank, storage_problems, some_of}
use online_prorab.Config.Validate.{sms_problems, provider_config_problems, test_mode_problems}
use online_prorab.Config.Production.{
  validate, validate_verified_database_tls, uses_verified_postgres_tls, is_unsafe_production_origin,
  is_narrow_proxy,
}
use online_prorab.Config.State.{jwt_secret_of, access_token_ttl_of, settings_of}
use online_prorab.Config.Safe.{some_of-none, checked, clean, Checked, append_none}

-- The secret is used as it is configured, has 32 bytes or more, no twelve bytes in sequence and no
-- repeated pattern.
pub record IsStrong (secret : String) : Type 0 where
  pub long : 32 ≤ length (bytes (trim_space secret))
  pub no_run : has_run (bytes (trim_space secret)) ≡ false
  pub no_pattern : has_repeated_signing_key_pattern (bytes (trim_space secret)) ≡ false

module _ {A : Type 0} (net : Net A) where
  -- Every host of the database is reached with TLS that checks its name.
  unfoldable pub AllVerified : String → Type 0
  AllVerified url =
      (first : Option Tls) × (fallbacks : List (Option Tls)) × (net.parse_database url
        ≡ some (first, fallbacks))
      × (uses_verified_postgres_tls first ≡ true)
      × (some_of (λ tls. not (uses_verified_postgres_tls tls)) fallbacks ≡ false)

  pub record IsHardened (c : Config) : Type 0 where
    pub secret_kept : jwt_secret_of c ≡ c.jwt_secret
    pub secret : IsStrong c.jwt_secret
    pub session :
        (ttl : ℕ) × (access_token_ttl_of c ≡ pos ttl) × (5 * minute ≤ ttl) × (ttl ≤ 60 * minute)
    pub no_dev_codes : (has_sender : Bool) → (settings_of c has_sender).dev_sms_code_enabled ≡ false
    pub no_test_mode : c.nikita_test_mode ≡ false
    pub origins :
        (origin : String)
        → contains_string c.cors_allowed_origins origin ≡ true
        → is_unsafe_production_origin net origin ≡ false
    pub proxies :
        (value : String)
        → contains_string c.trusted_proxy_cidrs value ≡ true
        → is_narrow_proxy net value ≡ true
    pub database : AllVerified c.database_url
    pub store : (c.storage_driver ≡ "s3") × (str_eq c.s3_bucket c.s3_deletion_ledger_bucket ≡ false)

other_environment :
    (s : String)
    → (equal_fold s "production" || equal_fold s "staging") ≡ true
    → equal_fold s "development" ≡ false
unfolding equal_fold
other_environment String.[] h = refl
other_environment (String.◌∷◌ x s) h = ground arith

live_environment : (c : Config) → is_production_like c ≡ true → is_development c ≡ false
unfolding is_production_like is_production is_staging is_development
live_environment c live = other_environment c.env live

blank : is_blank "" ≡ true
unfolding trim_space
blank = refl

bounded :
    (low high : ℕ) (n : ℤ)
    → (is_below n low || is_above n high) ≡ false
    → (k : ℕ) × (n ≡ pos k) × (low ≤ k) × (k ≤ high)
bounded low high (pos k) h = (k, refl, ground arith, ground arith)
bounded low high (negsuc k) h = absurd (ground arith)

module _ {A W : Type 0} (net : Net A) (fl : Float W) (c : Config) (valid : validate net fl c ≡ none)
    (live : is_production_like c ≡ true) where
  ok_checks : Checked net fl c valid live
  ok_checks = checked net fl c valid live

  kept : jwt_secret_of c ≡ c.jwt_secret
  unfolding jwt_secret_of
  kept = elim (Bool-cases (str_eq c.jwt_secret "")) [
    | inl e ↦
        let same : is_blank c.jwt_secret ≡ is_blank "" =
          ap (λ s. is_blank s) ((eq_iff c.jwt_secret "").0 e) in
        absurd (ground (arith, blank, same, ok_checks.secret))
    | inr e ↦ ground arith
  ]

  strong : IsStrong c.jwt_secret
  unfolding is_unsafe_signing_key
  strong =
      let h = ok_checks.key in
      record {
        long = ground (arith, h);
        no_run = sym (sequential_run_lem (bytes (trim_space c.jwt_secret))) ∙ ground (arith, h);
        no_pattern = ground (arith, h);
      }

  timed : (ttl : ℕ) × (access_token_ttl_of c ≡ pos ttl) × (5 * minute ≤ ttl) × (ttl ≤ 60 * minute)
  unfolding access_token_ttl_of
  timed =
      let (ttl, e, lo, hi) = bounded (5 * minute) (60 * minute) c.access_token_ttl ok_checks.ttl in
      (ttl, ground (arith, e, lo), lo, hi)

  proxies_narrow :
      (value : String)
      → contains_string c.trusted_proxy_cidrs value ≡ true
      → is_narrow_proxy net value ≡ true
  proxies_narrow value m =
      let h : some_of (λ v. not (is_narrow_proxy net v)) c.trusted_proxy_cidrs ≡ false =
        ground (arith, ok_checks.proxies) in
      let out = some_of-none (λ v. not (is_narrow_proxy net v)) c.trusted_proxy_cidrs value h m in
      ground (arith, out)

  stored : (c.storage_driver ≡ "s3") × (str_eq c.s3_bucket c.s3_deletion_ledger_bucket ≡ false)
  unfolding storage_problems
  stored =
      let h : storage_problems c ≡ [] = (clean net fl c valid).storage in
      let driver : str_eq c.storage_driver "s3" ≡ true = ground (arith, h, live) in
      ((eq_iff c.storage_driver "s3").0 driver, ground (arith, h, driver))

  database_verified : AllVerified net c.database_url
  unfolding validate_verified_database_tls AllVerified
  database_verified = elim (Option-cases (net.parse_database c.database_url)) [
    | inl e ↦ absurd (ground (arith, ok_checks.tls))
    | inr ((first, fallbacks), e) ↦
        (first, fallbacks, e, ground (arith, ok_checks.tls), ground (arith, ok_checks.tls))
  ]

  pub untested : (c.dev_sms_code_enabled ≡ false) × (c.nikita_test_mode ≡ false)
  unfolding sms_problems
  untested =
      let h : test_mode_problems net c ≡ [] =
        (append_none (provider_config_problems net c) (test_mode_problems net c)
          (clean net fl c valid).sms).1 in
      let other = live_environment c live in (ground (arith, h, other), ground (arith, h, other))

  -- A staging or production configuration that Validate accepts is hardened: the tokens are signed with
  -- the configured secret, which has 32 bytes or more, no twelve bytes in sequence and no repeated
  -- pattern; access tokens live for 5 to 60 minutes; no login code is shown or sent in a test mode;
  -- every CORS origin is a safe one and every trusted proxy a narrow prefix; every host of the
  -- database is reached with verified TLS; and files are in S3, with a bucket of its own for the
  -- ledger of deletions.
  pub validate-IsHardened : IsHardened net c
  unfolding settings_of
  validate-IsHardened = record {
    secret_kept = kept;
    secret = strong;
    session = timed;
    no_dev_codes = λ has_sender. untested.0;
    no_test_mode = untested.1;
    origins = λ origin m.
        some_of-none (is_unsafe_production_origin net) c.cors_allowed_origins origin
          ok_checks.origins m;
    proxies = proxies_narrow;
    database = database_verified;
    store = stored;
  }
