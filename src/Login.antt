-- ===== src/Login.antt =====
-- backend/internal/httpapi/auth.go and account_deletion_auth.go: login codes that go out by SMS. The
-- hash of a code is a function that the handlers are given; random numbers, a fresh id and what the
-- SMS sender answers are arguments. Requests are decoded; the method and the presence of a database are
-- checked before.
pub mod Verify
pub mod Codes
pub mod Machine
pub mod Guesses
pub mod History
use Prim.Native.String.{len, ◌++◌ as text_append}
use online_prorab.Common.{
  ℕ, suc, ◌+◌, ◌*◌, ◌/◌, ◌%◌, ◌≡◌, refl, String, Bool, true, false, not, ◌&&◌, ◌||◌, Option, none,
  some, List, [], ◌∷◌, ◌++◌, ltb, ◌==◌, str_eq, if◌then◌else◌, find_where, update_where,
  delete_where, is_some, is_none,
}
use online_prorab.Text.{normalize_phone}
use online_prorab.Project.Team.{is_phone}
use online_prorab.Database.{Db, Env, insert_code, delete_code, invalidate_codes}

-- A row of `sms_login_codes`.
pub record LoginCode : Type 0 where
  pub id : String
  pub phone : String
  pub code_hash : String
  pub expires_at : ℕ
  pub attempts : ℕ
  pub consumed_at : Option ℕ
  pub created_at : ℕ

-- The part of the state of the program that the codes depend on.
pub record Settings : Type 0 where
  pub review_only_mode : Bool
  pub review_sms_phone : String
  pub review_sms_phones : List String
  pub review_sms_code : String
  pub is_staging : Bool
  pub staging_test_sms_phone : String
  pub staging_test_sms_code : String
  pub is_development : Bool
  pub dev_sms_code_enabled : Bool
  pub has_sender : Bool

unfoldable pub is_listed : List String → String → Bool
is_listed [] phone = false
is_listed (p ∷ ps) phone = str_eq phone p || is_listed ps phone

unfoldable pub is_review_phone : Settings → String → Bool
is_review_phone c phone =
    c.review_only_mode
    && not (str_eq (normalize_phone phone) "")
    && (not (str_eq c.review_sms_phone "") && str_eq (normalize_phone phone) c.review_sms_phone
        || is_listed c.review_sms_phones (normalize_phone phone))

unfoldable pub is_staging_test_phone : Settings → String → Bool
is_staging_test_phone c phone =
    c.is_staging
    && not (str_eq c.staging_test_sms_phone "")
    && str_eq (normalize_phone phone) c.staging_test_sms_phone

unfoldable pub development_sms_fallback_enabled : Settings → Bool
development_sms_fallback_enabled c = c.is_development && c.dev_sms_code_enabled && not c.has_sender

abbrev digit : ℕ → String
digit d =
    if d == 0
    then "0"
    else if d == 1
    then "1"
    else if d == 2
    then "2"
    else if d == 3
    then "3"
    else if d == 4
    then "4"
    else if d == 5
    then "5"
    else if d == 6
    then "6"
    else if d == 7
    then "7"
    else if d == 8
    then "8"
    else "9"

-- `%06d` of a number below a million.
unfoldable pub six_digits : ℕ → String
six_digits n = text_append (digit (n / 100000)) (
    text_append (digit (n / 10000 % 10)) (
      text_append (digit (n / 1000 % 10))
        (text_append (digit (n / 100 % 10)) (text_append (digit (n / 10 % 10)) (digit (n % 10))))))

-- `drawn` is the number in the four random bytes, `none` where there are none.
unfoldable pub generate_sms_code : Option ℕ → Option String
generate_sms_code none = none
generate_sms_code (some drawn) = some (six_digits (drawn % 1000000))

unfoldable pub issue_sms_code : Settings → Option ℕ → Option String
issue_sms_code c drawn =
    if development_sms_fallback_enabled c then some "111111" else generate_sms_code drawn

unfoldable pub issue_sms_code_for_phone : Settings → Option ℕ → String → Option String
issue_sms_code_for_phone c drawn phone =
    if is_review_phone c phone && not (str_eq c.review_sms_code "")
    then some c.review_sms_code
    else if is_staging_test_phone c phone && not (str_eq c.staging_test_sms_code "")
    then some c.staging_test_sms_code
    else issue_sms_code c drawn

-- The tables that the login handlers read and write.
pub record Store : Type 0 where
  pub codes : List LoginCode
  pub db : Db

abbrev pub with_codes : (List LoginCode → List LoginCode) → Store → Store
with_codes f st = record st { codes = f st.codes }

abbrev pub has_id : String → LoginCode → Bool
has_id id c = str_eq c.id id

-- `phone = $1 AND id <> $2 AND consumed_at IS NULL`.
abbrev pub is_older : String → String → LoginCode → Bool
is_older phone keep c = str_eq c.phone phone && not (str_eq c.id keep) && is_none c.consumed_at

abbrev pub consume : ℕ → LoginCode → LoginCode
consume now c = record c { consumed_at = some now }

abbrev pub new_code : Env → String → String → String → LoginCode
new_code env fresh_id phone code_hash = record {
  id = fresh_id;
  phone = phone;
  code_hash = code_hash;
  expires_at = env.clock + 300000000000;
  attempts = 0;
  consumed_at = none;
  created_at = env.db_clock;
}

unfoldable pub cleanup_sms_code : Env → String → Store → Store
cleanup_sms_code env id st =
    if env.up delete_code then with_codes (delete_where (has_id id)) st else st

unfoldable pub invalidate_older_sms_codes : Env → String → String → Store → Store
invalidate_older_sms_codes env phone keep st =
    if env.up invalidate_codes
    then with_codes (update_where (is_older phone keep) (consume env.db_clock)) st
    else st

-- The answer of RequestSMSCode: an HTTP error, or 202 with the code where development shows it.
pub data Requested : Type 0 where
  refused : ℕ → Requested
  code_requested : (dev_code : Option String) → Requested

abbrev code_sent : Settings → Env → String → String → String → Store → Requested × Store
code_sent c env fresh_id phone code st = (
  code_requested (if development_sms_fallback_enabled c then some code else none),
  invalidate_older_sms_codes env phone fresh_id st,
)

-- What follows once the code is stored; `delivered` is what the sender answers.
unfoldable pub deliver :
    Settings → Env → (delivered : Bool) → (fresh_id phone code : String) → Store → Requested × Store
deliver c env delivered fresh_id phone code st =
    if is_review_phone c phone || is_staging_test_phone c phone
    then code_sent c env fresh_id phone code st
    else if c.has_sender
    then (if delivered
        then code_sent c env fresh_id phone code st
        else (refused 502, cleanup_sms_code env fresh_id st))
    else if development_sms_fallback_enabled c
    then code_sent c env fresh_id phone code st
    else (refused 503, cleanup_sms_code env fresh_id st)

module _ (hash : (phone code : String) → String) where
  -- The INSERT fails also where the id is taken.
  abbrev store_code :
      Settings → Env → Bool → String → String → Option String → Store → Requested × Store
  store_code c env delivered fresh_id phone none st = (refused 500, st)
  store_code c env delivered fresh_id phone (some code) st =
      if not (env.up insert_code) || is_some (find_where (has_id fresh_id) st.codes)
      then (refused 500, st)
      else deliver c env delivered fresh_id phone code
          (with_codes (λ cs. cs ++ new_code env fresh_id phone (hash phone code) ∷ []) st)

  -- `body` is the phone of the decoded request, `none` where decoding fails.
  unfoldable pub request_sms_code :
      Settings
      → Env
      → (drawn : Option ℕ) → (delivered : Bool) → (fresh_id : String) → Option String
      → Store
      → Requested × Store
  request_sms_code c env drawn delivered fresh_id none st = (refused 400, st)
  request_sms_code c env drawn delivered fresh_id (some raw) st =
      if is_phone (normalize_phone raw)
      then store_code c env delivered fresh_id (normalize_phone raw)
          (issue_sms_code_for_phone c drawn (normalize_phone raw)) st
      else (refused 400, st)
