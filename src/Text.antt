-- ===== src/Text.antt =====
-- The functions of Go's package strings that the code calls, on texts as lists of characters.
pub mod Path
use Prim.Native.Char.{Char, code}
use Prim.Native.String.{[], ◌∷◌}
use online_prorab.Common.{
  ℕ, String, Bool, true, false, ◌&&◌, ◌||◌, leb, ltb, ◌+◌, ◌==◌, str_eq, if◌then◌else◌,
}

-- `unicode.IsSpace`.
unfoldable pub is_space : ℕ → Bool
is_space c =
    leb 9 c && leb c 13
    || c == 32
    || c == 0x85
    || c == 0xA0
    || c == 0x1680
    || leb 0x2000 c && leb c 0x200a
    || c == 0x2028
    || c == 0x2029
    || c == 0x202f
    || c == 0x205f
    || c == 0x3000

abbrev pub is_empty : String → Bool
is_empty [] = true
is_empty (c ∷ s) = false

unfoldable pub trim_left : String → String
trim_left [] = []
trim_left (c ∷ s) = let rest = trim_left s in if is_space (code c) then rest else c ∷ s

unfoldable pub trim_right : String → String
trim_right [] = []
trim_right (c ∷ s) =
    let rest = trim_right s in if is_empty rest && is_space (code c) then [] else c ∷ rest

-- `strings.TrimSpace`.
unfoldable pub trim_space : String → String
unfolding trim_left trim_right is_space
trim_space s = trim_right (trim_left s)

-- `strings.ReplaceAll(s, " ", "")`.
unfoldable pub remove_spaces : String → String
remove_spaces [] = []
remove_spaces (c ∷ s) = let rest = remove_spaces s in if code c == 32 then rest else c ∷ rest

-- `normalizePhone`, the same in packages httpapi and config.
unfoldable pub normalize_phone : String → String
unfolding trim_space remove_spaces
normalize_phone phone = remove_spaces (trim_space phone)

abbrev utf8_size : ℕ → ℕ
utf8_size c = if ltb c 0x80 then 1 else if ltb c 0x800 then 2 else if ltb c 0x10000 then 3 else 4

-- `len(s)`, which counts bytes.
unfoldable pub byte_len : String → ℕ
byte_len [] = 0
byte_len (c ∷ s) = utf8_size (code c) + byte_len s

-- `strings.HasPrefix(s, prefix)`.
unfoldable pub has_prefix : (s prefix : String) → Bool
has_prefix s [] = true
has_prefix [] (d ∷ prefix) = false
has_prefix (c ∷ s) (d ∷ prefix) = code c == code d && has_prefix s prefix

-- `strings.Contains(s, part)`.
unfoldable pub contains : (s part : String) → Bool
contains [] part = is_empty part
contains (c ∷ s) part = has_prefix (c ∷ s) part || contains s part

-- The code point that `strings.EqualFold` compares, where one of the texts is ASCII: besides the ASCII
-- letters only U+017F and U+212A fold to ASCII.
abbrev fold_code : ℕ → ℕ
fold_code c =
    if leb b'A' c && leb c b'Z'
    then c + 32
    else if c == 0x17F
    then b's'
    else if c == 0x212A
    then b'k'
    else c

-- `strings.EqualFold(s, t)`, for an ASCII `t`.
unfoldable pub equal_fold : String → String → Bool
equal_fold [] [] = true
equal_fold [] (d ∷ t) = false
equal_fold (c ∷ s) [] = false
equal_fold (c ∷ s) (d ∷ t) = fold_code (code c) == fold_code (code d) && equal_fold s t

-- The code point of `unicode.ToLower` where that is ASCII; any other is left alone.
abbrev lower_code : ℕ → ℕ
lower_code c =
    if leb b'A' c && leb c b'Z'
    then c + 32
    else if c == 0x130
    then b'i'
    else if c == 0x212A
    then b'k'
    else c

abbrev lower_prefix : (s prefix : String) → Bool
lower_prefix s [] = true
lower_prefix [] (d ∷ prefix) = false
lower_prefix (c ∷ s) (d ∷ prefix) = lower_code (code c) == code d && lower_prefix s prefix

-- `strings.Contains(strings.ToLower(s), part)`, for an ASCII `part`.
unfoldable pub lower_contains : (s part : String) → Bool
lower_contains [] part = is_empty part
lower_contains (c ∷ s) part = lower_prefix (c ∷ s) part || lower_contains s part

-- `strings.ToLower(s) == t`, for an ASCII `t`.
unfoldable pub lower_equals : String → String → Bool
lower_equals [] [] = true
lower_equals [] (d ∷ t) = false
lower_equals (c ∷ s) [] = false
lower_equals (c ∷ s) (d ∷ t) = lower_code (code c) == code d && lower_equals s t

-- `unicode.ToLower`, where it gives ASCII; any other character is left alone.
abbrev lower_char : Char → Char
lower_char c =
    if code c == b'A'
    then "a"
    else if code c == b'B'
    then "b"
    else if code c == b'C'
    then "c"
    else if code c == b'D'
    then "d"
    else if code c == b'E'
    then "e"
    else if code c == b'F'
    then "f"
    else if code c == b'G'
    then "g"
    else if code c == b'H'
    then "h"
    else if code c == b'I'
    then "i"
    else if code c == b'J'
    then "j"
    else if code c == b'K'
    then "k"
    else if code c == b'L'
    then "l"
    else if code c == b'M'
    then "m"
    else if code c == b'N'
    then "n"
    else if code c == b'O'
    then "o"
    else if code c == b'P'
    then "p"
    else if code c == b'Q'
    then "q"
    else if code c == b'R'
    then "r"
    else if code c == b'S'
    then "s"
    else if code c == b'T'
    then "t"
    else if code c == b'U'
    then "u"
    else if code c == b'V'
    then "v"
    else if code c == b'W'
    then "w"
    else if code c == b'X'
    then "x"
    else if code c == b'Y'
    then "y"
    else if code c == b'Z'
    then "z"
    else if code c == 0x130
    then "i"
    else if code c == 0x212A
    then "k"
    else c

-- `strings.ToLower`, as far as ASCII goes.
unfoldable pub to_lower : String → String
to_lower [] = []
to_lower (c ∷ s) = lower_char c ∷ to_lower s

-- `strings.HasSuffix(s, suffix)`.
unfoldable pub has_suffix : (s suffix : String) → Bool
has_suffix [] suffix = is_empty suffix
has_suffix (c ∷ s) suffix = str_eq (c ∷ s) suffix || has_suffix s suffix

-- `strings.TrimSuffix(s, ".")`.
unfoldable pub trim_dot : String → String
trim_dot [] = []
trim_dot (c ∷ s) = let rest = trim_dot s in if code c == b'.' && is_empty s then [] else c ∷ rest
