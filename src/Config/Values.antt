-- ===== src/Config/Values.antt =====
-- The values of the environment: getEnvBool, getEnvInt, getDurationMinutes, getMegabytes, splitCSV and
-- normalizePhoneList, and the tests of phones and codes. A variable that is not set is "".
use Prim.Native.Char.{Char, code}
use online_prorab.Common.{
  ℕ, suc, ◌-◌, ◌*◌, ◌/◌, ◌%◌, ◌^◌, ◌≡◌, String, Bool, true, false, not, ◌&&◌, ◌||◌, Option, none,
  some, List, [], ◌∷◌, ◌++◌, leb, ltb, ◌==◌, str_eq, if◌then◌else◌, arith,
}
use online_prorab.Common.Int.{ℤ, pos, negsuc}
use online_prorab.Text.{trim_space, normalize_phone, lower_equals, byte_len}
use online_prorab.Bank.{parse_int}
use online_prorab.Project.Team.{all_digits}

abbrev prepend : Char → List String → List String
prepend c [] = (String.◌∷◌ c String.[]) ∷ []
prepend c (part ∷ parts) = String.◌∷◌ c part ∷ parts

-- `strings.Split(s, ",")`.
unfoldable pub split_comma : String → List String
split_comma String.[] = String.[] ∷ []
split_comma (String.◌∷◌ c s) =
    let rest = split_comma s in if code c == b',' then String.[] ∷ rest else prepend c rest

abbrev trimmed_items : List String → List String
trimmed_items [] = []
trimmed_items (part ∷ parts) =
    let rest = trimmed_items parts in
    if str_eq (trim_space part) "" then rest else trim_space part ∷ rest

unfoldable pub split_csv : String → List String
split_csv value = trimmed_items (split_comma value)

unfoldable pub contains_string : List String → String → Bool
contains_string [] target = false
contains_string (value ∷ values) target = str_eq value target || contains_string values target

abbrev add_phones : List String → List String → List String
add_phones phones [] = phones
add_phones phones (part ∷ parts) =
    let phone = normalize_phone part in
    add_phones
      (if not (str_eq phone "") && not (contains_string phones phone)
        then phones ++ phone ∷ []
        else phones)
      parts

unfoldable pub normalize_phone_list : String → List String
normalize_phone_list value = add_phones [] (split_comma value)

abbrev without_plus : String → String
without_plus String.[] = String.[]
without_plus (String.◌∷◌ c s) = if code c == b'+' then s else String.◌∷◌ c s

abbrev nine_to_fifteen : String → Bool
nine_to_fifteen s = leb 9 (byte_len s) && leb (byte_len s) 15 && all_digits s

unfoldable pub is_valid_phone : String → Bool
is_valid_phone value = nine_to_fifteen (without_plus (normalize_phone value))

unfoldable pub is_six_digit_code : String → Bool
is_six_digit_code value = byte_len value == 6 && all_digits value

-- The value of a variable, with what `getEnv` does to it.
unfoldable pub get_env : (value fallback : String) → String
get_env value fallback =
    let trimmed = trim_space value in if str_eq trimmed "" then fallback else trimmed

unfoldable pub get_env_bool : (value : String) → (fallback : Bool) → Option Bool
get_env_bool value fallback =
    let trimmed = trim_space value in
    if str_eq trimmed ""
    then some fallback
    else if lower_equals trimmed "1"
        || lower_equals trimmed "true"
        || lower_equals trimmed "yes"
        || lower_equals trimmed "on"
    then some true
    else if lower_equals trimmed "0"
        || lower_equals trimmed "false"
        || lower_equals trimmed "no"
        || lower_equals trimmed "off"
    then some false
    else none

unfoldable pub get_env_int : (value : String) → (fallback : ℤ) → Option ℤ
get_env_int value fallback =
    let trimmed = trim_space value in if str_eq trimmed "" then some fallback else parse_int trimmed

-- The product of an int64 and a positive constant, as int64 keeps it.
abbrev pub product : ℤ → ℕ → ℤ
product (pos n) k = pos (n * k)
product (negsuc n) k = negsuc (suc n * k - 1)

abbrev signed : ℕ → ℤ
signed m = if ltb m (2 ^ 63) then pos m else negsuc (2 ^ 64 - 1 - m)

unfoldable pub int64 : ℤ → ℤ
int64 (pos n) = signed (n % 2 ^ 64)
int64 (negsuc n) = signed (2 ^ 64 - 1 - n % 2 ^ 64)

-- Whether an integer is one of an int64.
abbrev pub fits_int64 : ℤ → Bool
fits_int64 (pos n) = ltb n (2 ^ 63)
fits_int64 (negsuc n) = ltb n (2 ^ 63)

abbrev pub minute : ℕ
minute = 60000000000

-- Between `minInt64 / minute` and `maxInt64 / minute`, which Go rounds towards 0.
abbrev is_duration : ℤ → Bool
is_duration (pos n) = leb n ((2 ^ 63 - 1) / minute)
is_duration (negsuc n) = leb (suc n) (2 ^ 63 / minute)

abbrev scaled : (ℤ → Bool) → ℕ → Option ℤ → Option ℤ
scaled within unit none = none
scaled within unit (some n) = if within n then some (int64 (product n unit)) else none

unfoldable pub get_duration_minutes : (value : String) → (fallback : ℤ) → Option ℤ
get_duration_minutes value fallback = scaled is_duration minute (get_env_int value fallback)

abbrev pub megabyte : ℕ
megabyte = 1048576

abbrev is_size : ℤ → Bool
is_size (pos n) = leb n ((2 ^ 63 - 1) / megabyte)
is_size (negsuc n) = leb (suc n) (2 ^ 63 / megabyte)

unfoldable pub get_megabytes : (value : String) → (fallback : ℤ) → Option ℤ
get_megabytes value fallback = scaled is_size megabyte (get_env_int value fallback)

-- What `scaled` makes of a number: exactly the product, where an int64 holds it, and an error elsewhere.
abbrev pub IsExact : ℕ → ℤ → Option ℤ → Type 0
IsExact unit n result =
    result ≡ (if fits_int64 (product n unit) then some (product n unit) else none)

int64_fits : (n : ℤ) → fits_int64 n ≡ true → int64 n ≡ n
unfolding int64
int64_fits (pos n) h = ground arith
int64_fits (negsuc n) h = ground arith

duration_fits : (n : ℤ) → is_duration n ≡ fits_int64 (product n minute)
duration_fits (pos n) = ground arith
duration_fits (negsuc n) = ground arith

size_fits : (n : ℤ) → is_size n ≡ fits_int64 (product n megabyte)
size_fits (pos n) = ground arith
size_fits (negsuc n) = ground arith

-- A number of minutes, or of megabytes, is read as exactly its nanoseconds, or bytes, wherever an int64
-- holds them, and refused wherever it does not: nothing wraps around and nothing is refused in vain.
pub scaled-IsExact :
    (value : String) (fallback n : ℤ)
    → get_env_int value fallback ≡ some n
    → IsExact minute n (get_duration_minutes value fallback)
      × IsExact megabyte n (get_megabytes value fallback)
unfolding get_duration_minutes get_megabytes
scaled-IsExact value fallback n h = (
  ground (arith, duration_fits n, int64_fits (product n minute), h),
  ground (arith, size_fits n, int64_fits (product n megabyte), h),
)
