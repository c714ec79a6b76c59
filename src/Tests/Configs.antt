-- ===== src/Tests/Configs.antt =====
-- A production configuration that is accepted, a key in sequence, and numbers of the environment.
use online_prorab.Common.{
  ℕ, ◌+◌, ◌*◌, ◌/◌, String, ◌≡◌, ◌⊎◌, refl, true, false, none, some, [], ◌∷◌, ltb, ◌==◌, str_eq,
  if◌then◌else◌,
}
use online_prorab.Common.Int.{pos}
use online_prorab.Payment.Reserve.{Request}
use online_prorab.Config.Rules.{
  base_problems, storage_problems, limit_problems, is_official_nikita_api_url, review_problems,
  price_problems, staging_problems,
}
use online_prorab.Text.{
  equal_fold, trim_space, contains, has_prefix, has_suffix, lower_contains, to_lower, trim_dot,
}
use online_prorab.Config.Validate.{
  sms_problems, provider_config_problems, validate_nikita_config, validate_obank_config,
  validate_obank_url, sandbox_problems,
}
use online_prorab.Bank.{parse_int, digits}
use online_prorab.Payment.Handlers.{checkout_price}
use online_prorab.Payment.{safe_idempotency_key, production_obank_sandbox_mode}
use online_prorab.Subscription.{plan_by_code, plan_price}
use online_prorab.Config.State.{settings_of, server_of, payment_config_of, pricing_of}
use online_prorab.Config.{
  Config, OBankConfig, Url, Net, is_development, is_staging, is_production, is_production_like,
}
use online_prorab.Config.Key.{
  Float, bytes, has_long_sequential_signing_key_run, estimated_signing_key_entropy_bits,
  has_repeated_signing_key_pattern, is_unsafe_signing_key, repeats, run_from,
  signing_key_character_rank,
}
use online_prorab.Config.Runs.{has_run, sequential_run_lem}
use online_prorab.Config.Values.{
  minute, megabyte, IsExact, get_env_int, get_duration_minutes, get_megabytes, scaled-IsExact,
}
use online_prorab.Config.Production.{
  validate, problems, is_narrow_trusted_proxy_prefix, is_unsafe_production_origin,
  parse_trusted_proxy_cidr, uses_verified_postgres_tls, validate_verified_database_tls,
}
use online_prorab.Config.Codes.{IsReviewCode, IsTestCode, IsRandomCode, issued_code_lem}
use online_prorab.Login.{
  generate_sms_code, issue_sms_code, issue_sms_code_for_phone, six_digits, is_review_phone,
  is_staging_test_phone, development_sms_fallback_enabled,
}
use online_prorab.Config.Hardened.{IsHardened, validate-IsHardened}
use online_prorab.Config.Prices.{IsCharged, checkout_price_lem}

-- Whole numbers in place of floats; each term of the sum is positive here.
abbrev floats : Float ℕ
floats = record {
  of = λ n. n;
  divided = λ a b. b / a;
  times = λ a b. a * b;
  minus = λ a b. a + b;
  log2 = λ n. n;
  less = ltb;
}

abbrev app_url : Url
app_url = record {
  scheme = "https";
  host = "app.example.kg";
  hostname = "app.example.kg";
  port = "";
  path = "";
  escaped_path = "";
  opaque = "";
  raw_query = "";
  fragment = "";
  has_user = false;
  force_query = false;
}

abbrev nikita_url : Url
nikita_url = record app_url {
  host = "smspro.nikita.kg";
  hostname = "smspro.nikita.kg";
  path = "/api/message";
  escaped_path = "/api/message";
}

abbrev net : Net ℕ
net = record {
  parse_url =
      λ s. some (if str_eq s "https://smspro.nikita.kg/api/message" then nikita_url else app_url);
  parse_ip = λ s. none;
  split_host_port = λ s. some "";
  parse_addr = λ s. none;
  parse_prefix = λ s. some (10, 16);
  unmap = λ a. a;
  bit_len = λ a. 32;
  is_4in6 = λ a. false;
  is_4 = λ a. true;
  is_unspecified = λ a. a == 0;
  masked = λ a bits. a;
  parse_database =
      λ s. some (some (record { insecure_skip_verify = false; server_name = "db.example.kg" }), []);
}

abbrev obank : OBankConfig
obank = record {
  enabled = true;
  sid = "4672496329";
  password = "F7XDBNPLSJC8Z2K";
  api_url = "https://api.dengi.kg";
  api_version = pos 1005;
  test = false;
  test_only_phone = "";
  test_price_kgs = pos 0;
  result_url = "https://app.example.kg";
  return_url = "https://app.example.kg";
}

abbrev config : Config
config = record {
  env = "production";
  http_addr = ":8080";
  database_url = "postgres://db.example.kg/prorab";
  jwt_secret = "kT9vQ2mX7bZ4pL8wR3nY6cJ1hF5gD0sA";
  access_token_ttl = pos (15 * minute);
  dev_sms_code_enabled = false;
  cors_allowed_origins = "https://app.example.kg" ∷ [];
  storage_driver = "s3";
  trusted_proxy_cidrs = "10.0.0.0/16" ∷ [];
  upload_dir = "uploads";
  max_upload_bytes = pos (25 * megabyte);
  s3_region = "eu-central-1";
  s3_bucket = "files";
  s3_deletion_ledger_bucket = "ledger";
  aws_access_key_id = "";
  aws_secret_access_key = "";
  aws_session_token = "";
  sms_provider = "nikita";
  staging_test_sms_phone = "";
  staging_test_sms_code = "";
  staging_test_payment_price_kgs = pos 0;
  subscription_price_override_kgs = pos 0;
  review_only_mode = false;
  review_sms_phone = "";
  review_sms_phones = [];
  review_sms_code = "";
  twilio_account_sid = "";
  twilio_api_key_sid = "";
  twilio_api_key_secret = "";
  twilio_from = "";
  twilio_messaging_service_sid = "";
  nikita_api_url = "https://smspro.nikita.kg/api/message";
  nikita_login = "login";
  nikita_password = "password";
  nikita_sender = "Prorab";
  nikita_test_mode = false;
  obank = obank;
}

abbrev request : Request
request = record {
  plan_id = "max";
  billing_period = "year";
  idempotency_key = "checkout-0123456789";
}

accepted : validate net floats config ≡ none
unfolding validate problems base_problems is_development equal_fold is_staging is_production
    trim_space storage_problems is_production_like limit_problems sms_problems
    provider_config_problems validate_nikita_config is_official_nikita_api_url validate_obank_config
    validate_obank_url review_problems bytes estimated_signing_key_entropy_bits
    has_long_sequential_signing_key_run has_repeated_signing_key_pattern is_unsafe_signing_key
    repeats run_from signing_key_character_rank is_narrow_trusted_proxy_prefix
    is_unsafe_production_origin parse_trusted_proxy_cidr uses_verified_postgres_tls
    validate_verified_database_tls price_problems staging_problems sandbox_problems contains
    has_prefix has_suffix lower_contains to_lower trim_dot
accepted = refl

validate-IsHardened_example : IsHardened net config
unfolding is_production_like is_production equal_fold
validate-IsHardened_example = validate-IsHardened net floats config accepted refl

checkout_price_lem_example : IsCharged config request 51000
unfolding checkout_price safe_idempotency_key plan_by_code production_obank_sandbox_mode server_of
    payment_config_of is_production equal_fold plan_price pricing_of is_staging
checkout_price_lem_example = checkout_price_lem net floats config accepted true request 51000 refl

random_code :
    issue_sms_code_for_phone (settings_of config true) (some 42) "+996700123456" ≡ some "000042"
unfolding issue_sms_code_for_phone issue_sms_code development_sms_fallback_enabled generate_sms_code
    six_digits is_review_phone is_staging_test_phone settings_of is_staging is_development
    equal_fold
random_code = refl

issued_code_lem_example :
    IsReviewCode config (settings_of config true) "+996700123456" "000042"
    ⊎ IsTestCode config (settings_of config true) "+996700123456" "000042"
    ⊎ IsRandomCode (settings_of config true) (some 42) "+996700123456" "000042"
unfolding is_production_like is_production equal_fold
issued_code_lem_example =
    issued_code_lem net floats config accepted true "+996700123456" refl (some 42) "000042"
      random_code

abbrev weak : String
weak = "X9abcdefghijklm"

sequential_run_lem_example : has_long_sequential_signing_key_run (bytes weak) ≡ has_run (bytes weak)
sequential_run_lem_example = sequential_run_lem (bytes weak)

fifteen : get_env_int " 15 " (pos 60) ≡ some (pos 15)
unfolding trim_space parse_int digits get_env_int
fifteen = refl

scaled-IsExact_example :
    IsExact minute (pos 15) (get_duration_minutes " 15 " (pos 60))
    × IsExact megabyte (pos 15) (get_megabytes " 15 " (pos 60))
scaled-IsExact_example = scaled-IsExact " 15 " (pos 60) (pos 15) fifteen
