-- ===== src/Common/Order.antt =====
-- `ORDER BY`, `LIMIT` and `OFFSET`, and searches in tables with a unique key.
use Prim.Native.Nat.{ℕ, zero, suc, ◌+◌, ◌≤◌}
use mathlib.Core.Path.{◌≡◌, refl}
use mathlib.Core.Bool.{Bool, true, false, not, ◌&&◌}
use mathlib.Core.Option.{Option, none, some}
use mathlib.Core.List.{List, [], ◌∷◌}
use native.Mathlib.Omega.{arith}
use mathlib.Core.Logic.{inl, inr}
use online_prorab.Common.Tests.{if◌then◌else◌, Option-cases}
use online_prorab.Common.Tables.{find_where, count_where, update_where, delete_where}

module _ {ℓ} {A : Type ℓ} where
  -- The rows of `SELECT … WHERE p`.
  unfoldable pub rows_where : (A → Bool) → List A → List A
  rows_where p [] = []
  rows_where p (x ∷ xs) = let rest = rows_where p xs in if p x then x ∷ rest else rest

  -- Every row satisfies `p`.
  unfoldable pub all_where : (A → Bool) → List A → Bool
  all_where p [] = true
  all_where p (x ∷ xs) = p x && all_where p xs

  unfoldable pub insert_by : (A → A → Bool) → A → List A → List A
  insert_by before x [] = x ∷ []
  insert_by before x (y ∷ ys) =
      let rest = insert_by before x ys in if before x y then x ∷ y ∷ ys else y ∷ rest

  -- `ORDER BY`, where `before` says which of two rows comes first.
  unfoldable pub order_by : (A → A → Bool) → List A → List A
  order_by before [] = []
  order_by before (x ∷ xs) = insert_by before x (order_by before xs)

  -- `LIMIT n`.
  unfoldable pub take : ℕ → List A → List A
  take zero xs = []
  take (suc n) [] = []
  take (suc n) (x ∷ xs) = x ∷ take n xs

  -- `OFFSET n`.
  unfoldable pub drop : ℕ → List A → List A
  drop zero xs = xs
  drop (suc n) [] = []
  drop (suc n) (x ∷ xs) = drop n xs

  -- The first row in an order, `ORDER BY … LIMIT 1`.
  abbrev pub head : List A → Option A
  head [] = none
  head (x ∷ xs) = some x

  count_where-insert_by :
      (q : A → Bool) (before : A → A → Bool) (x : A) (xs : List A)
      → count_where q (insert_by before x xs) ≡ count_where q (x ∷ xs)
  unfolding insert_by count_where
  count_where-insert_by q before x [] = refl
  count_where-insert_by q before x (y ∷ ys) = ground (arith, count_where-insert_by q before x ys)

  -- Ordering keeps the rows.
  pub count_where-order_by :
      (q : A → Bool) (before : A → A → Bool) (xs : List A)
      → count_where q (order_by before xs) ≡ count_where q xs
  unfolding order_by count_where
  count_where-order_by q before [] = refl
  count_where-order_by q before (x ∷ xs) = ground (
    arith,
    count_where-insert_by q before x (order_by before xs),
    count_where-order_by q before xs,
  )

  -- The rows that one condition selects, counted by another.
  pub count_where-rows_where :
      (q p : A → Bool) (xs : List A)
      → ((x : A) → q x ≡ true → p x ≡ true)
      → count_where q (rows_where p xs) ≡ count_where q xs
  unfolding rows_where count_where
  count_where-rows_where q p [] h = refl
  count_where-rows_where q p (x ∷ xs) h = ground (arith, h x, count_where-rows_where q p xs h)

  -- What a condition finds is counted by it, and by any other that it meets.
  pub count-found :
      (p q : A → Bool) (xs : List A) (x : A)
      → find_where p xs ≡ some x
      → q x ≡ true
      → 1 ≤ count_where q xs
  unfolding find_where count_where
  count-found p q [] x f h = cc
  count-found p q (y ∷ ys) x f h = ground (arith, count-found p q ys x)

  -- Where at most one row meets a condition, a row that is found and meets it is the one.
  pub find_unique :
      (p q : A → Bool) (xs : List A) (x : A)
      → find_where p xs ≡ some x
      → q x ≡ true
      → count_where q xs ≤ 1
      → find_where q xs ≡ some x
  unfolding find_where count_where
  find_unique p q [] x f h u = cc
  find_unique p q (y ∷ ys) x f h u = ground (arith, find_unique p q ys x, count-found p q ys x)

  update_none :
      (p : A → Bool) (f : A → A) (xs : List A) → count_where p xs ≡ 0 → update_where p f xs ≡ xs
  unfolding update_where count_where
  update_none p f [] h = refl
  update_none p f (x ∷ xs) h = ground (arith, update_none p f xs)

  -- An update of one row that adds nothing to what is counted.
  pub count-update_unique :
      (p q : A → Bool) (f : A → A) (xs : List A) (x : A)
      → find_where p xs ≡ some x
      → count_where p xs ≤ 1
      → (q (f x) ≡ true → q x ≡ true)
      → count_where q (update_where p f xs) ≤ count_where q xs
  unfolding update_where count_where find_where
  count-update_unique p q f [] x h u g = omega arith
  count-update_unique p q f (y ∷ ys) x h u g =
      ground (arith, count-update_unique p q f ys x, update_none p f ys)

  -- A weaker condition counts more.
  pub count_mono :
      (p q : A → Bool) (xs : List A)
      → ((x : A) → p x ≡ true → q x ≡ true)
      → count_where p xs ≤ count_where q xs
  unfolding count_where
  count_mono p q [] h = omega arith
  count_mono p q (x ∷ xs) h = ground (arith, h x, count_mono p q xs h)

  pub count-delete_where :
      (p q : A → Bool) (xs : List A) → count_where q (delete_where p xs) ≤ count_where q xs
  unfolding delete_where count_where
  count-delete_where p q [] = omega arith
  count-delete_where p q (x ∷ xs) = ground (arith, count-delete_where p q xs)

  -- What is not found is not counted.
  pub count_none : (p : A → Bool) (xs : List A) → find_where p xs ≡ none → count_where p xs ≡ 0
  unfolding find_where count_where
  count_none p [] h = refl
  count_none p (x ∷ xs) h = ground (arith, count_none p xs)

  -- What an update never makes true is counted less.
  pub count-update_le :
      (p q : A → Bool) (f : A → A) (xs : List A)
      → ((x : A) → q (f x) ≡ true → q x ≡ true)
      → count_where q (update_where p f xs) ≤ count_where q xs
  unfolding update_where count_where
  count-update_le p q f [] h = omega arith
  count-update_le p q f (x ∷ xs) h = ground (arith, h x, count-update_le p q f xs h)

  -- After an update a condition holds of rows that were updated, or where it held before.
  pub count-update_add :
      (p q : A → Bool) (f : A → A) (xs : List A)
      → count_where q (update_where p f xs)
        ≤ count_where (λ x. q x && not (p x)) xs + count_where p xs
  unfolding update_where count_where
  count-update_add p q f [] = omega arith
  count-update_add p q f (x ∷ xs) = ground (arith, count-update_add p q f xs)

  -- An update of one row after which it is no longer counted.
  pub count-update_lost :
      (p q : A → Bool) (f : A → A) (xs : List A) (x : A)
      → find_where p xs ≡ some x
      → count_where p xs ≤ 1
      → q x ≡ true
      → q (f x) ≡ false
      → suc (count_where q (update_where p f xs)) ≡ count_where q xs
  unfolding update_where count_where find_where
  count-update_lost p q f [] x h u t g = cc
  count-update_lost p q f (y ∷ ys) x h u t g =
      ground (arith, count-update_lost p q f ys x, update_none p f ys)

  -- What is not counted is not found.
  pub find_none : (p : A → Bool) (xs : List A) → count_where p xs ≡ 0 → find_where p xs ≡ none
  unfolding find_where count_where
  find_none p [] h = refl
  find_none p (x ∷ xs) h = ground (arith, find_none p xs)

  abbrev sooner : (A → A → Bool) → A → Option A → A
  sooner before x none = x
  sooner before x (some y) = if before y x then y else x

  -- `SELECT … WHERE p ORDER BY … LIMIT 1`.
  unfoldable pub first_by : (A → A → Bool) → (A → Bool) → List A → Option A
  first_by before p [] = none
  first_by before p (x ∷ xs) =
      let rest = first_by before p xs in if p x then some (sooner before x rest) else rest

  -- The first row in an order meets the condition.
  pub first_by_holds :
      (before : A → A → Bool) (p : A → Bool) (xs : List A) (x : A)
      → first_by before p xs ≡ some x
      → p x ≡ true
  unfolding first_by
  first_by_holds before p [] x f = cc
  first_by_holds before p (y ∷ ys) x f = elim (Option-cases (first_by before p ys)) [
    | inl e ↦ ground arith
    | inr (z, e) ↦ ground (arith, first_by_holds before p ys z e)
  ]

  count-first_by :
      (before : A → A → Bool) (p q : A → Bool) (xs : List A) (x : A)
      → first_by before p xs ≡ some x
      → q x ≡ true
      → 1 ≤ count_where q xs
  unfolding first_by count_where
  count-first_by before p q [] x f h = cc
  count-first_by before p q (y ∷ ys) x f h = elim (Option-cases (first_by before p ys)) [
    | inl e ↦ ground arith
    | inr (z, e) ↦ ground (arith, count-first_by before p q ys z e)
  ]

  -- The first row in an order is the one that a unique key finds.
  pub find-first_by :
      (before : A → A → Bool) (p q : A → Bool) (xs : List A) (x : A)
      → first_by before p xs ≡ some x
      → q x ≡ true
      → count_where q xs ≤ 1
      → find_where q xs ≡ some x
  unfolding first_by count_where find_where
  find-first_by before p q [] x f h u = cc
  find-first_by before p q (y ∷ ys) x f h u = elim (Option-cases (first_by before p ys)) [
    | inl e ↦ ground arith
    | inr (z, e) ↦ ground (arith, find-first_by before p q ys z e, count-first_by before p q ys z e)
  ]
