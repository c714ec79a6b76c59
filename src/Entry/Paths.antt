-- ===== src/Entry/Paths.antt =====
-- isSafeStoragePath of backend/internal/httpapi/files.go.
use Prim.Native.Char.{code}
use online_prorab.Common.{ℕ, String, Bool, false, not, ◌&&◌, ◌||◌, List, leb, ◌==◌, str_eq}
use online_prorab.Text.{trim_space, is_empty, has_prefix, contains}
use online_prorab.Text.Path.{split_slash, to_slash, clean, is_rooted}

abbrev is_ascii_alpha : ℕ → Bool
is_ascii_alpha c = leb b'a' c && leb c b'z' || leb b'A' c && leb c b'Z'

abbrev has_drive : String → Bool
has_drive (String.◌∷◌ c (String.◌∷◌ d s)) = is_ascii_alpha (code c) && code d == b':'
has_drive _ = false

unfoldable pub has_parent : List String → Bool
has_parent List.[] = false
has_parent (List.◌∷◌ part parts) = str_eq part ".." || has_parent parts

abbrev is_safe : String → Bool
is_safe value =
    not (is_empty value || is_rooted value || has_drive value || has_parent (split_slash value))
    && not (
        str_eq (clean value) "."
        || str_eq (clean value) ".."
        || has_prefix (clean value) "../"
        || contains (clean value) "/../")

unfoldable pub is_safe_storage_path : String → Bool
is_safe_storage_path value = is_safe (to_slash (trim_space value))
