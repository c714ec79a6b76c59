-- ===== src/Bank.antt =====
-- VerifyResult of backend/internal/payment/obank/client.go: the signature of the bank's notifications.
-- The JSON decoder is outside: a payload is given by the values of its fields. HMAC-MD5 in hexadecimal
-- is a function that the definitions are given.
pub mod Signature
use Prim.Native.Char.{code}
use Prim.Native.String.{◌++◌ as text_append}
use online_prorab.Common.{
  ℕ, ◌+◌, ◌-◌, ◌*◌, String, Bool, true, false, ◌&&◌, Option, none, some, List, [], ◌∷◌, ltb, leb,
  ◌==◌, str_eq, if◌then◌else◌,
}
use online_prorab.Common.Int.{ℤ, pos, negsuc}
use online_prorab.Payment.{Incoming}

-- A JSON value, as far as `scalar` tells them apart; a number is kept as it is written.
pub data Json : Type 0 where
  missing other : Json
  text number : String → Json

abbrev not_empty : String → Option String
not_empty s = if str_eq s "" then none else some s

unfoldable pub scalar : Json → Option String
scalar missing = none
scalar other = none
scalar (text s) = some s
scalar (number s) = some s

-- A field that VerifyResult requires.
abbrev pub required : Json → Option String
required v = elim (scalar v) [ none ↦ none | some s ↦ not_empty s ]

pub record RawResult : Type 0 where
  pub trans_id : Json
  pub status : Json
  pub site_id : Json
  pub order_id : Json
  pub amount : Json
  pub currency : Json
  pub mktime : Json
  pub test : Json
  pub invoice : Json
  pub hash : Json

-- The eight values that are signed.
pub record Values : Type 0 where
  pub trans_id : String
  pub status : String
  pub site_id : String
  pub order_id : String
  pub amount : String
  pub currency : String
  pub mktime : String
  pub test : String

infixl 5 ◌>>=◌
abbrev ◌>>=◌ : {A B : Type 0} → Option A → (A → Option B) → Option B
none >>= f = none
some a >>= f = f a

abbrev pub values : RawResult → Option Values
values p = do
  trans_id ← required p.trans_id
  status ← required p.status
  site_id ← required p.site_id
  order_id ← required p.order_id
  amount ← required p.amount
  currency ← required p.currency
  mktime ← required p.mktime
  test ← required p.test
  some (record {
    trans_id = trans_id;
    status = status;
    site_id = site_id;
    order_id = order_id;
    amount = amount;
    currency = currency;
    mktime = mktime;
    test = test;
  })

abbrev joined : String → String → String
joined s rest = text_append s (text_append ":::" rest)

-- `strings.Join(values, ":::")`.
unfoldable pub signed_text : Values → String
signed_text v = joined v.trans_id (
    joined v.status (
      joined v.site_id
        (joined v.order_id (joined v.amount (joined v.currency (joined v.mktime v.test))))))

abbrev digit_of : ℕ → Option ℕ
digit_of c = if leb b'0' c && leb c b'9' then some (c - b'0') else none

unfoldable pub digits : ℕ → String → Option ℕ
digits n String.[] = some n
digits n (String.◌∷◌ c s) = elim (digit_of (code c)) [
  | none ↦ none
  | some d ↦ digits (n * 10 + d) s
]

-- A number in digits, at least one.
abbrev natural : String → Option ℕ
natural String.[] = none
natural (String.◌∷◌ c s) = digits 0 (String.◌∷◌ c s)

abbrev pub min_int64_size : ℕ
min_int64_size = 9223372036854775808

abbrev nonnegative : Option ℕ → Option ℤ
nonnegative none = none
nonnegative (some n) = if ltb n min_int64_size then some (pos n) else none

abbrev negative : Option ℕ → Option ℤ
negative none = none
negative (some n) =
    if n == 0 then some (pos 0) else if leb n min_int64_size then some (negsuc (n - 1)) else none

abbrev after_sign : ℕ → String → String → Option ℤ
after_sign c rest whole =
    if c == b'-'
    then negative (natural rest)
    else if c == b'+'
    then nonnegative (natural rest)
    else nonnegative (natural whole)

-- `strconv.ParseInt(s, 10, 64)`, and `strconv.Atoi` on 64 bits.
unfoldable pub parse_int : String → Option ℤ
parse_int String.[] = none
parse_int (String.◌∷◌ c s) = after_sign (code c) s (String.◌∷◌ c s)

abbrev lower : ℕ → ℕ
lower c = if leb b'A' c && leb c b'Z' then c + 32 else c

-- Whether a text in lower case is the other, which has only digits and small letters.
unfoldable pub is_lower_of : String → String → Bool
is_lower_of String.[] String.[] = true
is_lower_of String.[] (String.◌∷◌ d t) = false
is_lower_of (String.◌∷◌ c s) String.[] = false
is_lower_of (String.◌∷◌ c s) (String.◌∷◌ d t) = lower (code c) == code d && is_lower_of s t

abbrev or_empty : Option String → String
or_empty none = ""
or_empty (some s) = s

-- The notification that signed values stand for.
abbrev pub incoming : Values → Json → Option Incoming
incoming v invoice = do
  status ← parse_int v.status
  amount ← parse_int v.amount
  test ← parse_int v.test
  some (record {
    transaction_id = v.trans_id;
    status = status;
    site_id = v.site_id;
    order_id = v.order_id;
    amount_kopecks = amount;
    currency = v.currency;
    test = test;
    invoice_id = or_empty (scalar invoice);
  })

abbrev only_if : {A : Type 0} → Bool → Option A → Option A
only_if b o = if b then o else none

-- `payload` is the decoded body, `none` where decoding fails.
unfoldable pub verify_result :
    (hmac : (message secret : String) → String)
    → Option RawResult
    → (secret : String) → Option Incoming
verify_result hmac none secret = none
verify_result hmac (some p) secret = do
  v ← values p
  provided ← required p.hash
  only_if (is_lower_of provided (hmac (signed_text v) secret)) (incoming v p.invoice)
