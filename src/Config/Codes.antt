-- ===== src/Config/Codes.antt =====
-- Where login codes come from under a configuration that Validate accepts: Validate and
-- issueSMSCodeForPhone together.
use online_prorab.Common.{
  ℕ, String, ◌≡◌, refl, ap, ◌∙◌, ◌⊎◌, inl, inr, Bool, true, false, Option, none, some, List, [],
  ◌∷◌, arith, str_eq, Bool-cases,
}
use online_prorab.Text.{normalize_phone}
use online_prorab.Login.{
  Settings, is_listed, is_review_phone, is_staging_test_phone, development_sms_fallback_enabled,
  generate_sms_code, issue_sms_code, issue_sms_code_for_phone,
}
use online_prorab.Config.{Config, Net, is_production, is_staging, is_production_like}
use online_prorab.Config.Key.{Float}
use online_prorab.Config.Values.{is_six_digit_code}
use online_prorab.Config.Rules.{review_problems, staging_problems, is_cons}
use online_prorab.Config.Production.{validate}
use online_prorab.Config.State.{settings_of}
use online_prorab.Config.Safe.{clean}
use online_prorab.Config.Hardened.{untested}

-- The code of the review, in production and for its phones only.
abbrev pub IsReviewCode : Config → Settings → String → String → Type 0
IsReviewCode c s phone code =
    (is_production c ≡ true)
    × (is_review_phone s phone ≡ true)
    × (code ≡ c.review_sms_code)
    × (is_six_digit_code code ≡ true)

-- The code of the tests, in staging and for its phone only.
abbrev pub IsTestCode : Config → Settings → String → String → Type 0
IsTestCode c s phone code =
    (is_staging c ≡ true)
    × (is_staging_test_phone s phone ≡ true)
    × (code ≡ c.staging_test_sms_code)
    × (is_six_digit_code code ≡ true)

-- A code from random bytes, for any other phone.
abbrev pub IsRandomCode : Settings → Option ℕ → String → String → Type 0
IsRandomCode s drawn phone code =
    (is_review_phone s phone ≡ false)
    × (is_staging_test_phone s phone ≡ false)
    × (generate_sms_code drawn ≡ some code)

listed-cons : (ps : List String) (phone : String) → is_listed ps phone ≡ true → is_cons ps ≡ true
unfolding is_listed
listed-cons [] phone h = absurd (ground arith)
listed-cons (p ∷ ps) phone h = refl

module _ {A W : Type 0} (net : Net A) (fl : Float W) (c : Config) (valid : validate net fl c ≡ none)
    (has_sender : Bool) (phone : String) where
  review_set :
      is_review_phone (settings_of c has_sender) phone ≡ true
      → (is_production c ≡ true)
        × (str_eq c.review_sms_code "" ≡ false)
        × (is_six_digit_code c.review_sms_code ≡ true)
  unfolding is_review_phone settings_of review_problems
  review_set r =
      let h : review_problems c ≡ [] = (clean net fl c valid).review in
      let listed = listed-cons c.review_sms_phones (normalize_phone phone) in
      let set : str_eq c.review_sms_code "" ≡ false = ground (arith, h, r, listed) in
      (ground (arith, h, set), set, ground (arith, h, set))

  test_set :
      is_staging_test_phone (settings_of c has_sender) phone ≡ true
      → (is_staging c ≡ true)
        × (str_eq c.staging_test_sms_code "" ≡ false)
        × (is_six_digit_code c.staging_test_sms_code ≡ true)
  unfolding is_staging_test_phone settings_of staging_problems
  test_set t =
      let h : staging_problems c ≡ [] = (clean net fl c valid).staging in
      (ground (arith, h, t), ground (arith, h, t), ground (arith, h, t))

  -- In staging and production, under a configuration that Validate accepts, a login code is the one of the
  -- review, of six digits, and this in production for the phones of the review only; or the one of
  -- the tests, of six digits, in staging for the phone of the tests only; or made of random bytes,
  -- for every other phone.
  pub issued_code_lem :
      is_production_like c ≡ true
      → (drawn : Option ℕ) (code : String)
      → issue_sms_code_for_phone (settings_of c has_sender) drawn phone ≡ some code
      → IsReviewCode c (settings_of c has_sender) phone code
        ⊎ IsTestCode c (settings_of c has_sender) phone code
        ⊎ IsRandomCode (settings_of c has_sender) drawn phone code
  unfolding issue_sms_code_for_phone issue_sms_code development_sms_fallback_enabled settings_of
  issued_code_lem live drawn code h =
      let s = settings_of c has_sender in
      elim (Bool-cases (is_review_phone s phone)) [
        | inl r ↦
            let (a, b, d) = review_set r in
            let same : code ≡ c.review_sms_code = ground (arith, h, r, b) in
            inl (a, r, same, ap is_six_digit_code same ∙ d)
        | inr r ↦ elim (Bool-cases (is_staging_test_phone s phone)) [
          | inl t ↦
              let (a, b, d) = test_set t in
              let same : code ≡ c.staging_test_sms_code = ground (arith, h, r, t, b) in
              inr (inl (a, t, same, ap is_six_digit_code same ∙ d))
          | inr t ↦ inr (inr (r, t, ground (arith, h, r, t, untested net fl c valid live)))
        ]
      ]
