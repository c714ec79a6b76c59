-- ===== src/Config.antt =====
-- backend/internal/config/config.go. A configuration has here what Validate looks at; the packages net,
-- net/url and netip and the driver of the database are outside, as the functions of `Net`.
pub mod Key
pub mod Runs
pub mod Values
pub mod Rules
pub mod Validate
pub mod Production
pub mod State
pub mod Safe
pub mod Hardened
pub mod Prices
pub mod Codes
use online_prorab.Common.{
  ℕ, ◌+◌, String, Bool, true, false, not, ◌&&◌, ◌||◌, Option, none, some, List, [], ◌∷◌, leb, ltb,
  str_eq, if◌then◌else◌,
}
use online_prorab.Common.Int.{ℤ}
use online_prorab.Text.{equal_fold}

pub record OBankConfig : Type 0 where
  pub enabled : Bool
  pub sid : String
  pub password : String
  pub api_url : String
  pub api_version : ℤ
  pub test : Bool
  pub test_only_phone : String
  pub test_price_kgs : ℤ
  pub result_url : String
  pub return_url : String

pub record Config : Type 0 where
  pub env : String
  pub http_addr : String
  pub database_url : String
  pub jwt_secret : String
  pub access_token_ttl : ℤ
  pub dev_sms_code_enabled : Bool
  pub cors_allowed_origins : List String
  pub storage_driver : String
  pub trusted_proxy_cidrs : List String
  pub upload_dir : String
  pub max_upload_bytes : ℤ
  pub s3_region : String
  pub s3_bucket : String
  pub s3_deletion_ledger_bucket : String
  pub aws_access_key_id : String
  pub aws_secret_access_key : String
  pub aws_session_token : String
  pub sms_provider : String
  pub staging_test_sms_phone : String
  pub staging_test_sms_code : String
  pub staging_test_payment_price_kgs : ℤ
  pub subscription_price_override_kgs : ℤ
  pub review_only_mode : Bool
  pub review_sms_phone : String
  pub review_sms_phones : List String
  pub review_sms_code : String
  pub twilio_account_sid : String
  pub twilio_api_key_sid : String
  pub twilio_api_key_secret : String
  pub twilio_from : String
  pub twilio_messaging_service_sid : String
  pub nikita_api_url : String
  pub nikita_login : String
  pub nikita_password : String
  pub nikita_sender : String
  pub nikita_test_mode : Bool
  pub obank : OBankConfig

unfoldable pub is_production : Config → Bool
is_production c = equal_fold c.env "production"

unfoldable pub is_development : Config → Bool
is_development c = equal_fold c.env "development"

unfoldable pub is_staging : Config → Bool
is_staging c = equal_fold c.env "staging"

unfoldable pub is_production_like : Config → Bool
is_production_like c = is_production c || is_staging c

-- What `url.Parse` gives; `has_user` is `User != nil`.
pub record Url : Type 0 where
  pub scheme : String
  pub host : String
  pub hostname : String
  pub port : String
  pub path : String
  pub escaped_path : String
  pub opaque : String
  pub raw_query : String
  pub fragment : String
  pub has_user : Bool
  pub force_query : Bool

-- What `net.ParseIP` gives, as far as it is asked.
pub record Ip : Type 0 where
  pub is_loopback : Bool
  pub is_unspecified : Bool

-- The `tls.Config` of a database host.
pub record Tls : Type 0 where
  pub insecure_skip_verify : Bool
  pub server_name : String

-- `parse_database` is pgxpool.ParseConfig: the first host and the fallbacks.
pub record Net (A : Type 0) : Type 0 where
  pub parse_url : String → Option Url
  pub parse_ip : String → Option Ip
  pub split_host_port : String → Option String
  pub parse_addr : String → Option A
  pub parse_prefix : String → Option (A × ℕ)
  pub unmap : A → A
  pub bit_len : A → ℕ
  pub is_4in6 : A → Bool
  pub is_4 : A → Bool
  pub is_unspecified : A → Bool
  pub masked : A → ℕ → A
  pub parse_database : String → Option (Option Tls × List (Option Tls))
