-- ===== src/Entry/Scope.antt =====
-- Whose rows a request touches.
use online_prorab.Common.{
  ℕ, ◌≤◌, String, ◌≡◌, refl, Bool, true, false, not, ◌&&◌, ◌||◌, none, some, List, [], ◌∷◌, ◌++◌,
  arith, find_where, count_where, update_where, is_some, if◌then◌else◌, ◌==◌,
}
use online_prorab.Common.Order.{rows_where, all_where}
use online_prorab.Entry.{Row, has_id, is_current, is_in, insert_row, set_body, set_deleted}
use online_prorab.Entry.Writes.{Effect, changed, failed, inserted, inserting, updating, dropping}

module _ {A : Type 0} (p : String) where
  -- The rows of the project `p`.
  abbrev pub ours : List (Row A) → List (Row A)
  ours = rows_where (is_in p)

  pub ours-insert :
      (r : Row A) (rows : List (Row A)) → is_in p r ≡ false → ours (rows ++ r ∷ []) ≡ ours rows
  unfolding rows_where
  ours-insert r [] h = ground arith
  ours-insert r (x ∷ xs) h = ground (arith, ours-insert r xs h)

  -- An update of rows of other projects.
  pub ours-update :
      (q : Row A → Bool) (f : Row A → Row A) (rows : List (Row A))
      → ((r : Row A) → (f r).project_id ≡ r.project_id)
      → all_where (λ r. not (q r && is_in p r)) rows ≡ true
      → ours (update_where q f rows) ≡ ours rows
  unfolding rows_where update_where all_where
  ours-update q f [] keep h = refl
  ours-update q f (x ∷ xs) keep h = ground (arith, keep x, ours-update q f xs keep)

  nobody :
      (id : String) (rows : List (Row A))
      → count_where (has_id id) rows ≡ 0
      → all_where (λ r. not (is_current id r && is_in p r)) rows ≡ true
  unfolding count_where all_where
  nobody id [] h = refl
  nobody id (x ∷ xs) h = ground (arith, nobody id xs)

  -- The only row under an id is in another project.
  pub only_elsewhere :
      (id : String) (rows : List (Row A)) (r : Row A)
      → count_where (has_id id) rows ≤ 1
      → find_where (is_current id) rows ≡ some r
      → is_in p r ≡ false
      → all_where (λ r. not (is_current id r && is_in p r)) rows ≡ true
  unfolding count_where all_where find_where
  only_elsewhere id [] r one h e = refl
  only_elsewhere id (x ∷ xs) r one h e = ground (arith, nobody id xs, only_elsewhere id xs r)

  abbrev pub Untouched : List (Row A) → Effect A → Type 0
  Untouched rows (changed status rows') = ours rows' ≡ ours rows
  Untouched rows (failed status) = Unit {0}

  if-Untouched :
      (c : Bool) (rows : List (Row A)) (e e' : Effect A)
      → Untouched rows e
      → Untouched rows e'
      → Untouched rows (if c then e else e')
  if-Untouched true rows e e' h k = h
  if-Untouched false rows e e' h k = k

  pub inserting-Untouched :
      (up : Bool) (r : Row A) (rows : List (Row A))
      → is_in p r ≡ false
      → Untouched rows (inserting up r rows)
  unfolding inserting insert_row
  inserting-Untouched true r rows h =
      elim (is_some (find_where (has_id r.id) rows))
        as (λ c. Untouched rows (inserted (if c then none else some (rows ++ r ∷ [])))) [
          | true ↦ tt
          | false ↦ ours-insert r rows h
        ]
  inserting-Untouched false r rows h = tt

  pub updating-Untouched :
      (up : Bool) (id : String) (f : A → A) (rows : List (Row A))
      → all_where (λ r. not (is_current id r && is_in p r)) rows ≡ true
      → Untouched rows (updating up id f rows)
  unfolding updating
  updating-Untouched up id f rows h =
      if-Untouched (not up || count_where (is_current id) rows == 0) rows _ _ tt
        (ours-update (is_current id) (set_body f) rows (λ r. refl) h)

  pub dropping-Untouched :
      (up : Bool) (now : ℕ) (id : String) (rows : List (Row A))
      → all_where (λ r. not (is_current id r && is_in p r)) rows ≡ true
      → Untouched rows (dropping up now id rows)
  unfolding dropping
  dropping-Untouched up now id rows h = if-Untouched (not up) rows _ _ tt (
      if-Untouched (count_where (is_current id) rows == 0) rows _ _ tt
        (ours-update (is_current id) (set_deleted now) rows (λ r. refl) h))
