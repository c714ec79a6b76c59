-- ===== src/Config/Rules.antt =====
-- The problems that Validate of backend/internal/config/config.go finds in the values alone.
use online_prorab.Common.{
  ℕ, String, Bool, true, false, not, ◌&&◌, ◌||◌, List, [], ◌∷◌, ◌++◌, ltb, str_eq, if◌then◌else◌,
  differs,
}
use online_prorab.Common.Int.{ℤ, is_nonpositive, is_below, is_above}
use online_prorab.Text.{trim_space, equal_fold, byte_len, has_prefix}
use online_prorab.Config.{
  Config, Url, is_production, is_development, is_staging, is_production_like,
}
use online_prorab.Config.Values.{is_valid_phone, is_six_digit_code}

-- `problems = append(problems, message)` under a test.
abbrev pub problem : Bool → String → List String
problem test message = if test then message ∷ [] else []

abbrev pub is_blank : String → Bool
is_blank s = str_eq (trim_space s) ""

abbrev pub some_of : {A : Type 0} → (A → Bool) → List A → Bool
some_of p [] = false
some_of p (x ∷ xs) = p x || some_of p xs

unfoldable pub base_problems : Config → List String
base_problems c =
    problem (not (is_development c) && not (is_staging c) && not (is_production c))
      "APP_ENV must be explicitly set to development, staging, or production"
    ++ (problem (is_blank c.http_addr) "HTTP_ADDR is required"
        ++ (problem (is_blank c.database_url) "DATABASE_URL is required"
            ++ problem (is_blank c.upload_dir) "UPLOAD_DIR is required"))

abbrev pub s3_problems : Config → List String
s3_problems c =
    problem (str_eq c.s3_region "") "S3_REGION is required when STORAGE_DRIVER=s3"
    ++ (problem (str_eq c.s3_bucket "") "S3_BUCKET is required when STORAGE_DRIVER=s3"
        ++ (problem (str_eq c.s3_deletion_ledger_bucket "")
              "S3_DELETION_LEDGER_BUCKET is required when STORAGE_DRIVER=s3"
            ++ (problem
                  (not (str_eq c.s3_bucket "") && str_eq c.s3_bucket c.s3_deletion_ledger_bucket)
                  "S3_BUCKET and S3_DELETION_LEDGER_BUCKET must be different"
                ++ (problem
                      (differs (str_eq c.aws_access_key_id "") (str_eq c.aws_secret_access_key ""))
                      "AWS_ACCESS_KEY_ID and AWS_SECRET_ACCESS_KEY must be configured together"
                    ++ problem
                        (not (str_eq c.aws_session_token "") && str_eq c.aws_access_key_id "")
                        "AWS_SESSION_TOKEN requires AWS access key credentials"))))

unfoldable pub storage_problems : Config → List String
storage_problems c =
    problem (not (str_eq c.storage_driver "local") && not (str_eq c.storage_driver "s3"))
      "STORAGE_DRIVER must be local or s3"
    ++ (problem (is_production_like c && not (str_eq c.storage_driver "s3"))
          "STORAGE_DRIVER=s3 is required in staging and production"
        ++ (if str_eq c.storage_driver "s3" then s3_problems c else []))

unfoldable pub limit_problems : Config → List String
limit_problems c =
    problem (is_nonpositive c.access_token_ttl) "ACCESS_TOKEN_TTL_MINUTES must be greater than 0"
    ++ problem (is_nonpositive c.max_upload_bytes) "MAX_UPLOAD_MB must be greater than 0"

abbrev pub is_short : String → ℕ → Bool
is_short s n = ltb (byte_len s) n

unfoldable pub validate_twilio_config : Config → List String
validate_twilio_config c =
    let from_set = not (is_blank c.twilio_from) in
    let service_set = not (is_blank c.twilio_messaging_service_sid) in
    problem (not (has_prefix c.twilio_account_sid "AC") || is_short c.twilio_account_sid 10)
      "TWILIO_ACCOUNT_SID is required and must be an Account SID"
    ++ (problem (not (has_prefix c.twilio_api_key_sid "SK") || is_short c.twilio_api_key_sid 10)
          "TWILIO_API_KEY_SID is required and must be an API Key SID"
        ++ (problem (is_short c.twilio_api_key_secret 16) "TWILIO_API_KEY_SECRET is required"
            ++ (problem (not (differs from_set service_set))
                  "configure exactly one of TWILIO_FROM or TWILIO_MESSAGING_SERVICE_SID"
                ++ problem
                    (service_set
                      && (not (has_prefix c.twilio_messaging_service_sid "MG")
                          || is_short c.twilio_messaging_service_sid 10))
                    "TWILIO_MESSAGING_SERVICE_SID must be a Messaging Service SID")))

unfoldable pub is_official_nikita_api_url : Url → Bool
is_official_nikita_api_url u =
    equal_fold u.scheme "https"
    && not u.has_user
    && str_eq u.opaque ""
    && equal_fold u.hostname "smspro.nikita.kg"
    && (str_eq u.port "" || str_eq u.port "443")
    && str_eq u.escaped_path "/api/message"
    && str_eq u.raw_query ""
    && not u.force_query
    && str_eq u.fragment ""

abbrev pub is_twilio_or_nikita : Config → Bool
is_twilio_or_nikita c = str_eq c.sms_provider "twilio" || str_eq c.sms_provider "nikita"

abbrev pub is_cons : List String → Bool
is_cons [] = false
is_cons (x ∷ xs) = true

unfoldable pub review_problems : Config → List String
review_problems c =
    let phone_set = not (str_eq c.review_sms_phone "") || is_cons c.review_sms_phones in
    let code_set = not (str_eq c.review_sms_code "") in
    problem (differs phone_set code_set)
      "REVIEW_SMS_PHONE and REVIEW_SMS_CODE must be configured together"
    ++ (problem ((phone_set || code_set) && not c.review_only_mode)
          "REVIEW_ONLY_MODE=true is required when review credentials are configured"
        ++ (problem (some_of (λ phone. not (is_valid_phone phone)) c.review_sms_phones)
              "REVIEW_SMS_PHONES must contain valid E.164 phone numbers"
            ++ (problem
                  (not (str_eq c.review_sms_phone "") && not (is_valid_phone c.review_sms_phone))
                  "REVIEW_SMS_PHONE must be a valid E.164 phone number"
                ++ (problem (code_set && not (is_six_digit_code c.review_sms_code))
                      "REVIEW_SMS_CODE must be exactly 6 digits"
                    ++ problem (c.review_only_mode && not (is_production c))
                        "REVIEW_ONLY_MODE is allowed only when APP_ENV=production"))))

abbrev pub staging_phone_set : Config → Bool
staging_phone_set c = not (str_eq c.staging_test_sms_phone "")

abbrev pub staging_code_set : Config → Bool
staging_code_set c = not (str_eq c.staging_test_sms_code "")

unfoldable pub staging_problems : Config → List String
staging_problems c =
    problem (differs (staging_phone_set c) (staging_code_set c))
      "STAGING_TEST_SMS_PHONE and STAGING_TEST_SMS_CODE must be configured together"
    ++ (problem ((staging_phone_set c || staging_code_set c) && not (is_staging c))
          "STAGING_TEST_SMS_PHONE and STAGING_TEST_SMS_CODE are allowed only when APP_ENV=staging"
        ++ (problem (staging_phone_set c && not (is_valid_phone c.staging_test_sms_phone))
              "STAGING_TEST_SMS_PHONE must be a valid E.164 phone number"
            ++ problem (staging_code_set c && not (is_six_digit_code c.staging_test_sms_code))
                "STAGING_TEST_SMS_CODE must be exactly 6 digits"))

abbrev pub out_of_range : ℤ → Bool
out_of_range n = is_below n 0 || is_above n 100

unfoldable pub price_problems : Config → List String
price_problems c =
    problem (out_of_range c.staging_test_payment_price_kgs)
      "STAGING_TEST_PAYMENT_PRICE_KGS must be 0 or between 1 and 100"
    ++ (problem (is_above c.staging_test_payment_price_kgs 0 && not (is_staging c))
          "STAGING_TEST_PAYMENT_PRICE_KGS is allowed only when APP_ENV=staging"
        ++ (problem
              (is_above c.staging_test_payment_price_kgs 0
                && (not c.obank.enabled || not c.obank.test))
              "STAGING_TEST_PAYMENT_PRICE_KGS requires OBANK_ENABLED=true and OBANK_TEST=true"
            ++ (problem (out_of_range c.subscription_price_override_kgs)
                  "SUBSCRIPTION_PRICE_OVERRIDE_KGS must be 0 or between 1 and 100"
                ++ (problem (is_above c.subscription_price_override_kgs 0 && not (is_staging c))
                      "SUBSCRIPTION_PRICE_OVERRIDE_KGS is allowed only when APP_ENV=staging"
                    ++ (problem
                          (is_above c.subscription_price_override_kgs 0 && not c.obank.enabled)
                          "SUBSCRIPTION_PRICE_OVERRIDE_KGS requires OBANK_ENABLED=true"
                        ++ problem (out_of_range c.obank.test_price_kgs)
                            "OBANK_TEST_PRICE_KGS must be 0 or between 1 and 100")))))
