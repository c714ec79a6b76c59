-- ===== src/Config/State.antt =====
-- SetState of backend/internal/httpapi/state.go: what the handlers get of a configuration.
use online_prorab.Common.{◌*◌, String, Bool, str_eq, if◌then◌else◌}
use online_prorab.Common.Int.{ℤ, pos, is_nonpositive, positive_part}
use online_prorab.Subscription.{Pricing}
use online_prorab.Payment.{Config as PaymentConfig}
use online_prorab.Payment.Handlers.{Server}
use online_prorab.Login.{Settings}
use online_prorab.Config.{Config, is_production, is_development, is_staging}
use online_prorab.Config.Values.{minute}

-- The secret that tokens are signed with.
unfoldable pub jwt_secret_of : Config → String
jwt_secret_of c = if str_eq c.jwt_secret "" then "dev-only-change-me" else c.jwt_secret

unfoldable pub access_token_ttl_of : Config → ℤ
access_token_ttl_of c =
    if is_nonpositive c.access_token_ttl then pos (15 * minute) else c.access_token_ttl

-- Prices are asked only whether they are above 0.
unfoldable pub pricing_of : Config → Pricing
pricing_of c = record {
  is_staging = is_staging c;
  override_kgs = positive_part c.subscription_price_override_kgs;
  obank_enabled = c.obank.enabled;
  obank_test = c.obank.test;
  staging_test_price_kgs = positive_part c.staging_test_payment_price_kgs;
}

unfoldable pub payment_config_of : Config → PaymentConfig
payment_config_of c = record {
  is_production = is_production c;
  enabled = c.obank.enabled;
  test = c.obank.test;
  sid = c.obank.sid;
  password = c.obank.password;
  test_only_phone = c.obank.test_only_phone;
  test_price_kgs = positive_part c.obank.test_price_kgs;
}

unfoldable pub server_of : Config → (has_db : Bool) → Server
server_of c has_db = record {
  config = payment_config_of c;
  pricing = pricing_of c;
  has_db = has_db;
}

unfoldable pub settings_of : Config → (has_sender : Bool) → Settings
settings_of c has_sender = record {
  review_only_mode = c.review_only_mode;
  review_sms_phone = c.review_sms_phone;
  review_sms_phones = c.review_sms_phones;
  review_sms_code = c.review_sms_code;
  is_staging = is_staging c;
  staging_test_sms_phone = c.staging_test_sms_phone;
  staging_test_sms_code = c.staging_test_sms_code;
  is_development = is_development c;
  dev_sms_code_enabled = c.dev_sms_code_enabled;
  has_sender = has_sender;
}
