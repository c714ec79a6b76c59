-- ===== src/Common/Tables.antt =====
-- Database tables as lists of rows: the statements that the SQL of the program is made of.
use Prim.Native.Nat.{ℕ, suc}
use mathlib.Core.Path.{◌≡◌, refl}
use mathlib.Core.Bool.{Bool, true, false}
use mathlib.Core.Option.{Option, none, some}
use mathlib.Core.List.{List, [], ◌∷◌, ◌++◌}
use native.Mathlib.Omega.{arith}
use online_prorab.Common.Tests.{if◌then◌else◌}

abbrev pub option_map {ℓ} : {A : Type ℓ} → (A → A) → Option A → Option A
option_map f none = none
option_map f (some a) = some (f a)

module _ {ℓ} {A : Type ℓ} where
  abbrev pub length : List A → ℕ
  length [] = 0
  length (x ∷ xs) = suc (length xs)

  -- The row of `SELECT … WHERE p`, where at most one row fits or the first is taken.
  unfoldable pub find_where : (A → Bool) → List A → Option A
  find_where p [] = none
  find_where p (x ∷ xs) = if p x then some x else find_where p xs

  -- `SELECT COUNT(*) … WHERE p`; also the rows that a statement with this condition affects.
  unfoldable pub count_where : (A → Bool) → List A → ℕ
  count_where p [] = 0
  count_where p (x ∷ xs) = let n = count_where p xs in if p x then suc n else n

  -- `UPDATE … SET f WHERE p`.
  unfoldable pub update_where : (A → Bool) → (A → A) → List A → List A
  update_where p f [] = []
  update_where p f (x ∷ xs) = (if p x then f x else x) ∷ update_where p f xs

  -- `DELETE … WHERE p`.
  unfoldable pub delete_where : (A → Bool) → List A → List A
  delete_where p [] = []
  delete_where p (x ∷ xs) = let rest = delete_where p xs in if p x then rest else x ∷ rest

  abbrev pub is_none : Option A → Bool
  is_none none = true
  is_none (some a) = false

  abbrev pub is_some : Option A → Bool
  is_some none = false
  is_some (some a) = true

  -- An update that keeps what the search asks maps over what the search finds.
  pub find_where-update_where :
      (q p : A → Bool) (f : A → A) (xs : List A)
      → ((x : A) → q (f x) ≡ q x)
      → find_where q (update_where p f xs)
        ≡ option_map (λ x. if p x then f x else x) (find_where q xs)
  unfolding find_where update_where count_where
  find_where-update_where q p f [] keep = refl
  find_where-update_where q p f (x ∷ xs) keep =
      ground (arith, keep x, find_where-update_where q p f xs keep)

  -- A row that is found satisfies the condition.
  pub find_where_holds :
      (p : A → Bool) (xs : List A) (x : A) → find_where p xs ≡ some x → p x ≡ true
  unfolding find_where update_where count_where
  find_where_holds p [] x h = cc
  find_where_holds p (y ∷ ys) x h = ground (arith, find_where_holds p ys x)

  pub count_where-append :
      (p : A → Bool) (xs : List A) (x : A)
      → count_where p (xs ++ x ∷ []) ≡ (if p x then suc (count_where p xs) else count_where p xs)
  unfolding find_where update_where count_where
  count_where-append p [] x = ground arith
  count_where-append p (y ∷ ys) x = ground (arith, count_where-append p ys x)

  -- Later rows do not hide a row that is found.
  pub find_where-append :
      (p : A → Bool) (xs ys : List A) {x : A}
      → find_where p xs ≡ some x
      → find_where p (xs ++ ys) ≡ some x
  unfolding find_where
  find_where-append p [] ys h = cc
  find_where-append p (y ∷ xs) ys {x} h = ground (arith, find_where-append p xs ys {x = x})

  pub find_where-append_none :
      (p : A → Bool) (xs : List A) (x : A)
      → find_where p xs ≡ none
      → p x ≡ true
      → find_where p (xs ++ x ∷ []) ≡ some x
  unfolding find_where
  find_where-append_none p [] x h t = ground arith
  find_where-append_none p (y ∷ xs) x h t = ground (arith, find_where-append_none p xs x)

  -- A row that is found stays found when other rows are deleted.
  pub find_where-delete_where :
      (p q : A → Bool) (xs : List A) (x : A)
      → find_where p xs ≡ some x
      → q x ≡ false
      → find_where p (delete_where q xs) ≡ some x
  unfolding find_where delete_where
  find_where-delete_where p q [] x h k = cc
  find_where-delete_where p q (y ∷ xs) x h k = ground (arith, find_where-delete_where p q xs x)

  -- An update that keeps what is counted keeps the count.
  pub count_where-update_where :
      (q p : A → Bool) (f : A → A) (xs : List A)
      → ((x : A) → p x ≡ true → q (f x) ≡ q x)
      → count_where q (update_where p f xs) ≡ count_where q xs
  unfolding count_where update_where
  count_where-update_where q p f [] keep = refl
  count_where-update_where q p f (x ∷ xs) keep =
      ground (arith, keep x, count_where-update_where q p f xs keep)
