-- ===== src/Text/Path.antt =====
-- Go's package path, as far as the code calls it; package filepath does the same on Unix.
use Prim.Native.Char.{Char, code}
use Prim.Native.String.{[], ◌∷◌}
use online_prorab.Common.{
  String, ◌≡◌, refl, ap, Bool, false, ◌||◌, List, arith, ◌==◌, str_eq, if◌then◌else◌, Bool-cases,
  inl, inr,
}
use text.Mathlib.TextEquality.{Char-path}

abbrev pub prepend : Char → List String → List String
prepend c List.[] = List.◌∷◌ (c ∷ []) List.[]
prepend c (List.◌∷◌ part parts) = List.◌∷◌ (c ∷ part) parts

-- `strings.Split(s, "/")`.
unfoldable pub split_slash : String → List String
split_slash [] = List.◌∷◌ [] List.[]
split_slash (c ∷ s) =
    let rest = split_slash s in if code c == b'/' then List.◌∷◌ [] rest else prepend c rest

abbrev pub slash : Char
slash = "/"

unfoldable pub append : String → String → String
append [] t = t
append (c ∷ s) t = c ∷ append s t

abbrev pub glue : List String → String
glue List.[] = []
glue (List.◌∷◌ part parts) = slash ∷ append part (glue parts)

-- `strings.Join(parts, "/")`.
unfoldable pub join_slash : List String → String
join_slash List.[] = []
join_slash (List.◌∷◌ part parts) = append part (glue parts)

-- `strings.ReplaceAll(s, "\\", "/")`.
unfoldable pub to_slash : String → String
to_slash [] = []
to_slash (c ∷ s) = let rest = to_slash s in if code c == b'\\' then slash ∷ rest else c ∷ rest

abbrev pub is_rooted : String → Bool
is_rooted [] = false
is_rooted (c ∷ s) = code c == b'/'

abbrev pub is_skipped : String → Bool
is_skipped part = str_eq part "" || str_eq part "."

-- One element of a path, on those before it, the last first. `..` takes the last one back; in a path
-- from the root it is dropped where there is none.
abbrev pub resolve : Bool → List String → String → List String
resolve rooted kept part =
    if is_skipped part
    then kept
    else if str_eq part ".."
    then elim kept [
      | List.[] ↦ if rooted then List.[] else List.◌∷◌ ".." List.[]
      | List.◌∷◌ last before ↦
          if str_eq last ".." then List.◌∷◌ ".." (List.◌∷◌ last before) else before
    ]
    else List.◌∷◌ part kept

unfoldable pub resolve_all : Bool → List String → List String → List String
resolve_all rooted kept List.[] = kept
resolve_all rooted kept (List.◌∷◌ part parts) = resolve_all rooted (resolve rooted kept part) parts

unfoldable pub rev_onto : List String → List String → List String
rev_onto List.[] done = done
rev_onto (List.◌∷◌ part parts) done = rev_onto parts (List.◌∷◌ part done)

abbrev pub or_dot : String → String
or_dot [] = "."
or_dot (c ∷ s) = c ∷ s

-- `path.Clean`.
unfoldable pub clean : String → String
clean value =
    let parts = rev_onto (resolve_all (is_rooted value) List.[] (split_slash value)) List.[] in
    if is_rooted value then slash ∷ join_slash parts else or_dot (join_slash parts)

append-nil : (s : String) → append s [] ≡ s
unfolding append
append-nil [] = refl
append-nil (c ∷ s) = ap (λ t. c ∷ t) (append-nil s)

join-prepend :
    (c : Char) (parts : List String) → join_slash (prepend c parts) ≡ c ∷ join_slash parts
unfolding join_slash append
join-prepend c List.[] = refl
join-prepend c (List.◌∷◌ part parts) = refl

-- There is always a first part.
split-cons :
    (s : String) → (part : String) × (parts : List String) × (split_slash s ≡ List.◌∷◌ part parts)
unfolding split_slash
split-cons [] = ([], List.[], refl)
split-cons (c ∷ s) =
    let (part, parts, e) = split-cons s in
    elim (Bool-cases (code c == b'/')) [
      | inl t ↦ ([], split_slash s, ground arith)
      | inr f ↦ (c ∷ part, parts, ground arith)
    ]

-- Joining the parts of a split gives the text back.
pub join-split : (s : String) → join_slash (split_slash s) ≡ s
unfolding join_slash split_slash append
join-split [] = refl
join-split (c ∷ s) =
    let (part, parts, e) = split-cons s in
    elim (Bool-cases (code c == b'/')) [
      | inl t ↦
          let same : c ≡ slash = Char-path c slash (ground arith) in
          ground (arith, same, join-split s, join-prepend c (split_slash s))
      | inr f ↦ ground (arith, join-split s, join-prepend c (split_slash s))
    ]
