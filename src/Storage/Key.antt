-- ===== src/Storage/Key.antt =====
-- cleanKey of backend/internal/storage/key.go.
use Prim.Native.Char.{code}
use online_prorab.Common.{
  ℕ, String, ◌≡◌, refl, ap, sym, ◌∙◌, Bool, true, false, not, ◌&&◌, ◌||◌, ◌++◌, Option, none, some,
  List, ◌==◌, str_eq, eq_iff, Bool-cases, inl, inr, if◌then◌else◌, arith,
}
use mathlib.Core.List.{append-nil}
use online_prorab.Text.Path.{
  split_slash, join_slash, join-split, clean, is_rooted, resolve, resolve_all, rev_onto, or_dot,
}

-- `strings.ContainsRune`.
unfoldable pub contains_rune : ℕ → String → Bool
contains_rune n String.[] = false
contains_rune n (String.◌∷◌ c s) = code c == n || contains_rune n s

abbrev pub is_name : String → Bool
is_name segment = not (str_eq segment "" || str_eq segment "." || str_eq segment "..")

unfoldable pub are_names : List String → Bool
are_names List.[] = true
are_names (List.◌∷◌ segment segments) = is_name segment && are_names segments

unfoldable pub clean_key : String → Option String
clean_key key =
    if str_eq key "" || contains_rune 0 key || contains_rune b'\\' key || is_rooted key
    then none
    else if not (str_eq (clean key) key) || str_eq key "."
    then none
    else if not (are_names (split_slash key))
    then none
    else some key

-- Names are kept as they are, the last first.
resolve-names :
    (rooted : Bool) (kept parts : List String)
    → are_names parts ≡ true
    → resolve_all rooted kept parts ≡ rev_onto parts kept
unfolding resolve_all rev_onto are_names
resolve-names rooted kept List.[] h = refl
resolve-names rooted kept (List.◌∷◌ part parts) h =
    let named : is_name part ≡ true = ground arith in
    let rest : are_names parts ≡ true = ground arith in
    let kept_too : resolve rooted kept part ≡ List.◌∷◌ part kept = ground arith in
    ap (λ l. resolve_all rooted l parts) kept_too
    ∙ resolve-names rooted (List.◌∷◌ part kept) parts rest

rev_onto-rev_onto :
    (parts kept done : List String)
    → rev_onto (rev_onto parts kept) done ≡ rev_onto kept (parts ++ done)
unfolding rev_onto
rev_onto-rev_onto List.[] kept done = refl
rev_onto-rev_onto (List.◌∷◌ part parts) kept done =
    rev_onto-rev_onto parts (List.◌∷◌ part kept) done

-- A text that splits into names is no root, not `.`, and clean.
not_rooted : (key : String) → are_names (split_slash key) ≡ true → is_rooted key ≡ false
unfolding are_names split_slash
not_rooted String.[] h = refl
not_rooted (String.◌∷◌ c s) h = ground arith

not_empty : (key : String) → are_names (split_slash key) ≡ true → or_dot key ≡ key
unfolding are_names split_slash
not_empty String.[] h = absurd (ground arith)
not_empty (String.◌∷◌ c s) h = refl

names-IsClean : (key : String) → are_names (split_slash key) ≡ true → clean key ≡ key
unfolding clean
names-IsClean key h =
    let parts = split_slash key in
    let back : rev_onto (resolve_all (is_rooted key) List.[] parts) List.[] ≡ parts =
      ap (λ l. rev_onto l List.[]) (resolve-names (is_rooted key) List.[] parts h)
      ∙ rev_onto-rev_onto parts List.[] List.[]
      ∙ unfold rev_onto in append-nil parts in
    rw (not_rooted key h) (
      ap (λ l. or_dot (join_slash l))
        (ap (λ b. rev_onto (resolve_all b List.[] parts) List.[]) (sym (not_rooted key h)) ∙ back)
      ∙ ap or_dot (join-split key)
      ∙ not_empty key h)

empty_or_dot :
    (key : String) → (str_eq key "" || str_eq key ".") ≡ true → are_names (split_slash key) ≡ false
empty_or_dot key h = elim (Bool-cases (str_eq key "")) [
  | inl e ↦
      ap (λ k. are_names (split_slash k)) ((eq_iff key "").0 e)
      ∙ unfold are_names in unfold split_slash in refl
  | inr n ↦
      ap (λ k. are_names (split_slash k)) ((eq_iff key ".").0 (ground arith))
      ∙ unfold are_names in unfold split_slash in refl
]

-- A key is accepted exactly where its segments are names, none of them empty, `.` or `..`, and it has
-- neither a NUL nor a backslash; and it is then taken as it is.
pub clean_key_lem :
    (key : String)
    → clean_key key ≡ (
        if are_names (split_slash key) && not (contains_rune 0 key) && not (contains_rune b'\\' key)
        then some key
        else none)
unfolding clean_key
clean_key_lem key = elim (Bool-cases (are_names (split_slash key))) [
  | inr bad ↦ ground arith
  | inl fine ↦
      ground (
        arith,
        not_rooted key fine,
        names-IsClean key fine,
        eq_iff (clean key) key,
        empty_or_dot key,
      )
]
