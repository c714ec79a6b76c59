-- ===== src/Config/Validate.antt =====
-- The problems that Validate of backend/internal/config/config.go finds in URLs and addresses.
use online_prorab.Common.{
  String, Bool, false, not, ◌&&◌, ◌||◌, Option, none, some, List, [], ◌∷◌, ◌++◌, str_eq,
  if◌then◌else◌,
}
use online_prorab.Common.Int.{pos, eq_ℤ, is_nonpositive, is_below, is_above}
use online_prorab.Text.{trim_space, equal_fold}
use online_prorab.Config.{
  Config, Url, Ip, Net, is_production, is_development, is_staging, is_production_like,
}
use online_prorab.Config.Values.{is_valid_phone}
use online_prorab.Config.Rules.{
  problem, is_blank, is_twilio_or_nikita, validate_twilio_config, is_official_nikita_api_url,
}

abbrev absolute : Option Url → Option Url
absolute none = none
absolute (some u) = if str_eq u.scheme "" || str_eq u.host "" then none else some u

abbrev nikita_url_problems : Config → Option Url → List String
nikita_url_problems c none = "NIKITA_API_URL must be a valid absolute URL" ∷ []
nikita_url_problems c (some u) =
    problem (is_production_like c && not (is_official_nikita_api_url u))
      "NIKITA_API_URL must be the official HTTPS endpoint https://smspro.nikita.kg/api/message in staging and production"

module _ {A : Type 0} (net : Net A) where
  unfoldable pub validate_nikita_config : Config → List String
  validate_nikita_config c =
      (if is_blank c.nikita_api_url
        then "NIKITA_API_URL is required" ∷ []
        else nikita_url_problems c (absolute (net.parse_url (trim_space c.nikita_api_url))))
      ++ (problem (is_blank c.nikita_login) "NIKITA_LOGIN is required"
          ++ (problem (is_blank c.nikita_password) "NIKITA_PASSWORD is required"
              ++ problem (is_blank c.nikita_sender) "NIKITA_SENDER is required"))

  abbrev is_loopback_ip : Option Ip → Bool
  is_loopback_ip none = false
  is_loopback_ip (some ip) = ip.is_loopback

  unfoldable pub is_loopback_hostname : String → Bool
  is_loopback_hostname host = equal_fold host "localhost" || is_loopback_ip (net.parse_ip host)

  unfoldable pub is_loopback_http_addr : String → Bool
  is_loopback_http_addr addr = elim (net.split_host_port (trim_space addr)) [
    | none ↦ false
    | some host ↦ is_loopback_hostname host
  ]

  unfoldable pub provider_config_problems : Config → List String
  provider_config_problems c =
      problem (not (str_eq c.sms_provider "") && not (is_twilio_or_nikita c))
        "SMS_PROVIDER must be twilio or nikita when configured"
      ++ ((if str_eq c.sms_provider "twilio" then validate_twilio_config c else [])
          ++ (if str_eq c.sms_provider "nikita" then validate_nikita_config c else []))

  abbrev pub test_mode_problems : Config → List String
  test_mode_problems c =
      problem (c.dev_sms_code_enabled && not (is_development c))
        "DEV_SMS_CODE_ENABLED is allowed only when APP_ENV=development"
      ++ (problem (c.dev_sms_code_enabled && not (is_loopback_http_addr c.http_addr))
            "DEV_SMS_CODE_ENABLED requires HTTP_ADDR to use a loopback address"
          ++ (problem (c.nikita_test_mode && not (is_development c))
                "NIKITA_TEST_MODE is allowed only when APP_ENV=development"
              ++ problem (c.nikita_test_mode && not (is_loopback_http_addr c.http_addr))
                  "NIKITA_TEST_MODE requires HTTP_ADDR to use a loopback address"))

  unfoldable pub sms_problems : Config → List String
  sms_problems c = provider_config_problems c ++ test_mode_problems c

  abbrev is_plain : Url → Bool
  is_plain u =
      not (str_eq u.host "") && not u.has_user && str_eq u.raw_query "" && str_eq u.fragment ""

  -- validateOBankURL finds nothing wrong.
  unfoldable pub validate_obank_url : String → (allow_local_http : Bool) → Bool
  validate_obank_url value allow_local_http = elim (net.parse_url (trim_space value)) [
    | none ↦ false
    | some u ↦
        is_plain u
        && (str_eq u.scheme "https"
            || allow_local_http && str_eq u.scheme "http" && is_loopback_hostname u.hostname)
  ]

  abbrev bad_obank_url : Config → String → Bool
  bad_obank_url c value = str_eq value "" || not (validate_obank_url value (is_development c))

  unfoldable pub validate_obank_config : Config → List String
  validate_obank_config c =
      if not c.obank.enabled
      then []
      else problem (str_eq c.obank.sid "" || str_eq c.obank.password "")
          "OBANK_SID and OBANK_PASSWORD are required when OBANK_ENABLED=true"
        ++ (problem (is_nonpositive c.obank.api_version) "OBANK_API_VERSION must be greater than 0"
            ++ (problem (bad_obank_url c c.obank.api_url) "OBANK_API_URL must be a valid HTTPS URL"
                ++ (problem (bad_obank_url c c.obank.result_url)
                      "OBANK_RESULT_URL must be a valid HTTPS callback URL"
                    ++ (problem (bad_obank_url c c.obank.return_url)
                          "OBANK_RETURN_URL must be a valid HTTPS billing return URL"
                        ++ problem (is_staging c && not c.obank.test)
                            "OBANK_TEST must be true in staging"))))

  unfoldable pub is_obank_sandbox_url : String → Bool
  is_obank_sandbox_url value = elim (net.parse_url (trim_space value)) [
    | none ↦ false
    | some u ↦
        equal_fold u.scheme "https"
        && equal_fold u.hostname "mw-api-test.dengi.kg"
        && str_eq u.path "/api/json/json.php"
        && str_eq u.raw_query ""
        && str_eq u.fragment ""
  ]

  unfoldable pub sandbox_problems : Config → List String
  sandbox_problems c =
      if is_production c && c.obank.test
      then problem (not c.obank.enabled)
          "OBANK_ENABLED=true is required for a production sandbox checkout"
        ++ (problem (not (is_valid_phone c.obank.test_only_phone))
              "OBANK_TEST_ONLY_PHONE must be a valid E.164 phone number in production sandbox mode"
            ++ (problem (is_below c.obank.test_price_kgs 1 || is_above c.obank.test_price_kgs 100)
                  "OBANK_TEST_PRICE_KGS must be between 1 and 100 in production sandbox mode"
                ++ problem (not (is_obank_sandbox_url c.obank.api_url))
                    "OBANK_API_URL must point to the O!Dengi sandbox in production sandbox mode"))
      else problem
          (not (str_eq c.obank.test_only_phone "") || not (eq_ℤ c.obank.test_price_kgs (pos 0)))
          "OBANK_TEST_ONLY_PHONE and OBANK_TEST_PRICE_KGS are allowed only in production sandbox mode"
