-- ===== src/Entry/Listing.antt =====
-- listTasks, listCostItems, listDailyReports and listFiles, and who sees what. A text that stands for a
-- date is ordered as it is written.
use Prim.Native.String.{compare}
use Prim.Native.Nat.{Ordering}
use online_prorab.Common.{
  ℕ, zero, suc, String, ◌≡◌, refl, Bool, true, false, not, ◌&&◌, ◌||◌, List, [], ◌∷◌, arith, leb,
  str_eq, is_none,
}
use online_prorab.Common.Monad.{Result, ok}
use online_prorab.Common.Order.{rows_where, insert_by, order_by, take, all_where}
use online_prorab.Text.{trim_space}
use online_prorab.Database.{Db, Env, find_entry, find_file}
use online_prorab.Project.{read, has_project_permission}
use online_prorab.Entry.{Row, Task, CostItem, DailyReport, File, Books, is_in}
use online_prorab.Entry.Handlers.{can_access_project, refuse_if}
use online_prorab.Entry.Admission.{Holds, admitted, if-Holds}

abbrev is_shown : {A : Type 0} → String → Row A → Bool
is_shown project r = is_in project r && is_none r.deleted_at

-- ORDER BY created_at DESC.
abbrev newest : {A : Type 0} → Row A → Row A → Bool
newest a b = leb b.created_at a.created_at

abbrev text_after : String → String → Bool
text_after a b = elim (compare a b) [ Ordering.gt ↦ true | _ ↦ false ]

-- ORDER BY a date DESC, created_at DESC.
abbrev latest_day : {A : Type 0} → (A → String) → Row A → Row A → Bool
latest_day day a b =
    text_after (day a.body) (day b.body) || str_eq (day a.body) (day b.body) && newest a b

-- The checks of the four handlers, and 500 where the rows cannot be loaded.
unfoldable pub listing :
    {A : Type 0} → (up : Bool) → Env → (user project : String) → Db → List A → Result ℕ (List A)
listing up env user project db rows = refuse_if (str_eq project "") 400 (
    refuse_if (not (can_access_project env user project db)) 403 (refuse_if (not up) 500 (ok rows)))

module _ {W : Type 0} where
  unfoldable pub list_tasks :
      Env → (user project_id : String) → Books W → Result ℕ (List (Row Task))
  list_tasks env user project_id b =
      let project = trim_space project_id in
      listing (env.up find_entry) env user project b.db
        (order_by newest (rows_where (is_shown project) b.tasks))

  unfoldable pub list_cost_items :
      Env → (user project : String) → Books W → Result ℕ (List (Row (CostItem W)))
  list_cost_items env user project b =
      listing (env.up find_entry) env user project b.db
        (order_by (latest_day (λ c. c.spent_at)) (rows_where (is_shown project) b.cost_items))

  unfoldable pub list_daily_reports :
      Env → (user project_id : String) → Books W → Result ℕ (List (Row DailyReport))
  list_daily_reports env user project_id b =
      let project = trim_space project_id in
      listing (env.up find_entry) env user project b.db
        (order_by (latest_day (λ r. r.report_date)) (rows_where (is_shown project) b.daily_reports))

  unfoldable pub list_files :
      Env → (user project_id : String) → Books W → Result ℕ (List (Row File))
  list_files env user project_id b =
      let project = trim_space project_id in
      listing (env.up find_file) env user project b.db
        (take 500 (order_by newest (rows_where (is_shown project) b.files)))

module _ {A : Type 0} (p : A → Bool) where
  all-rows_where : (xs : List A) → all_where p (rows_where p xs) ≡ true
  unfolding all_where rows_where
  all-rows_where [] = refl
  all-rows_where (x ∷ xs) = ground (arith, all-rows_where xs)

  all-insert_by :
      (before : A → A → Bool) (x : A) (xs : List A)
      → p x ≡ true
      → all_where p xs ≡ true
      → all_where p (insert_by before x xs) ≡ true
  unfolding all_where insert_by
  all-insert_by before x [] h k = ground arith
  all-insert_by before x (y ∷ ys) h k = ground (arith, all-insert_by before x ys)

  all-order_by :
      (before : A → A → Bool) (xs : List A)
      → all_where p xs ≡ true
      → all_where p (order_by before xs) ≡ true
  unfolding all_where order_by
  all-order_by before [] h = refl
  all-order_by before (x ∷ xs) h =
      all-insert_by before x (order_by before xs) (ground arith)
        (all-order_by before xs (ground arith))

  all-take : (n : ℕ) (xs : List A) → all_where p xs ≡ true → all_where p (take n xs) ≡ true
  unfolding all_where take
  all-take zero xs h = refl
  all-take (suc n) [] h = refl
  all-take (suc n) (x ∷ xs) h = ground (arith, all-take n xs)

-- Rows that a reader of the project gets.
abbrev pub IsPrivate : {A : Type 0} → Env → (user project : String) → Db → List (Row A) → Type 0
IsPrivate env user project db rows =
    (has_project_permission env user project read db ≡ true)
    × (all_where (λ r. is_in project r && is_none r.deleted_at) rows ≡ true)

listing-IsPrivate :
    {A : Type 0} (up : Bool) (env : Env) (user project : String) (db : Db) (rows : List (Row A))
    → all_where (λ r. is_in project r && is_none r.deleted_at) rows ≡ true
    → Holds (IsPrivate env user project db) (listing up env user project db rows)
unfolding listing
listing-IsPrivate up env user project db rows h = if-Holds _ _ _ (λ named.
    if-Holds (not (has_project_permission env user project read db)) _ _
      (λ may. if-Holds _ _ _ (λ loaded. admitted (ground arith, h))))

-- The four listings show nothing of another project and nothing that is deleted, and they show it only
-- to who may read the project.
pub listings-IsPrivate :
    {W : Type 0} (env : Env) (user project : String) (b : Books W)
    → Holds (IsPrivate env user (trim_space project) b.db) (list_tasks env user project b)
      × Holds (IsPrivate env user project b.db) (list_cost_items env user project b)
      × Holds (IsPrivate env user (trim_space project) b.db) (list_daily_reports env user project b)
      × Holds (IsPrivate env user (trim_space project) b.db) (list_files env user project b)
unfolding list_tasks list_cost_items list_daily_reports list_files
listings-IsPrivate env user project b = (
  listing-IsPrivate _ env user (trim_space project) b.db _
      (all-order_by _ _ _ (all-rows_where _ b.tasks)),
  listing-IsPrivate _ env user project b.db _ (all-order_by _ _ _ (all-rows_where _ b.cost_items)),
  listing-IsPrivate _ env user (trim_space project) b.db _
      (all-order_by _ _ _ (all-rows_where _ b.daily_reports)),
  listing-IsPrivate _ env user (trim_space project) b.db _
      (all-take _ 500 _ (all-order_by _ _ _ (all-rows_where _ b.files))),
)
