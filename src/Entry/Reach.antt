-- ===== src/Entry/Reach.antt =====
-- A request touches only rows of projects in which its user has the permission.
use online_prorab.Common.{
  ◌≤◌, String, ◌≡◌, refl, ◌∙◌, Bool, true, false, not, ◌&&◌, ◌||◌, Option, none, some, List, [],
  ◌∷◌, arith, str_eq, eq_iff, find_where, count_where, is_some, if◌then◌else◌,
}
use online_prorab.Common.Order.{all_where}
use online_prorab.Database.{
  Env, begin, commit, insert_entry, update_entry, delete_entry, insert_file, archive_covers,
  delete_file, detach_receipts, insert_audit,
}
use online_prorab.Project.{Outcome}
use online_prorab.Entry.{
  Row, Task, CostItem, DailyReport, File, Books, has_id, is_current, is_in, set_body, set_deleted,
}
use online_prorab.Entry.Writes.{
  Write, Effect, changed, failed, with_tasks, with_cost_items, with_reports, with_file,
  archive_previous_project_covers, delete_file_metadata, is_previous_cover, refers_to, detached,
  perform, insert_task, insert_cost_item, insert_report, save_file, set_task, set_cost_item,
  set_report, drop_task, drop_cost_item, drop_report, drop_file, without_covers, finish_deletion,
  queue_then_finish,
}
use online_prorab.Entry.Requests.{FileRequest}
use online_prorab.Entry.Handlers.{is_receipt_of}
use online_prorab.Entry.Scope.{
  ours, ours-update, Untouched, inserting-Untouched, updating-Untouched, dropping-Untouched,
}

-- The row under an id is not of the project `p`.
abbrev Elsewhere : {A : Type 0} → String → String → List (Row A) → Type 0
Elsewhere p id rows = all_where (λ r. not (is_current id r && is_in p r)) rows ≡ true

-- What has the id of a current row later is of its project.
abbrev pub KeepsProjects : {A : Type 0} → List (Row A) → List (Row A) → Type 0
KeepsProjects {A} rows rows' =
    (id : String) (r r' : Row A)
    → find_where (is_current id) rows ≡ some r
    → find_where (has_id id) rows' ≡ some r'
    → r'.project_id ≡ r.project_id

module _ {A : Type 0} where
  all_pointwise : (t : A → Bool) (xs : List A) → ((x : A) → t x ≡ true) → all_where t xs ≡ true
  unfolding all_where
  all_pointwise t [] h = refl
  all_pointwise t (x ∷ xs) h = ground (arith, h x, all_pointwise t xs h)

module _ {W : Type 0} where
  -- The receipt of a cost item is a row of `files`, deleted or not, of kind receipt and of its project.
  abbrev pub is_linked : List (Row File) → Row (CostItem W) → Bool
  is_linked files c =
      str_eq c.body.receipt_file_id ""
      || is_some (find_where (is_receipt_of c.body.receipt_file_id c.project_id) files)

  -- Primary keys.
  pub record IsKeyed (b : Books W) : Type 0 where
    pub of_tasks : (id : String) → count_where (has_id id) b.tasks ≤ 1
    pub of_cost_items : (id : String) → count_where (has_id id) b.cost_items ≤ 1
    pub of_reports : (id : String) → count_where (has_id id) b.daily_reports ≤ 1
    pub of_files : (id : String) → count_where (has_id id) b.files ≤ 1

  -- What other requests may have done: no row has gone to another project.
  pub record IsLater (b b' : Books W) : Type 0 where
    pub of_tasks : KeepsProjects b.tasks b'.tasks
    pub of_cost_items : KeepsProjects b.cost_items b'.cost_items
    pub of_reports : KeepsProjects b.daily_reports b'.daily_reports
    pub of_files : KeepsProjects b.files b'.files

  module _ (p : String) where
    -- The rows of the project `p` are the same.
    pub record IsSame (b b' : Books W) : Type 0 where
      pub of_tasks : ours p b'.tasks ≡ ours p b.tasks
      pub of_cost_items : ours p b'.cost_items ≡ ours p b.cost_items
      pub of_reports : ours p b'.daily_reports ≡ ours p b.daily_reports
      pub of_files : ours p b'.files ≡ ours p b.files

    abbrev pub same : {b : Books W} → IsSame b b
    same = record { of_tasks = refl; of_cost_items = refl; of_reports = refl; of_files = refl }

    -- What a write is about lies outside of the project `p`.
    abbrev pub Outside : Books W → Write W → Type 0
    Outside b (insert_task id user q) = str_eq q.project_id p ≡ false
    Outside b (insert_cost_item id user q) = str_eq q.project_id p ≡ false
    Outside b (insert_report id user q) = str_eq q.project_id p ≡ false
    Outside b (save_file id user q) = str_eq q.project_id p ≡ false
    Outside b (set_task id q) = Elsewhere p id b.tasks
    Outside b (set_cost_item id q) = Elsewhere p id b.cost_items
    Outside b (set_report id q) = Elsewhere p id b.daily_reports
    Outside b (drop_task id) = Elsewhere p id b.tasks
    Outside b (drop_cost_item id) = Elsewhere p id b.cost_items
    Outside b (drop_report id) = Elsewhere p id b.daily_reports
    Outside b (drop_file id path) =
        Elsewhere p id b.files
        × (all_where (λ c. not (refers_to id c && is_in p c)) b.cost_items ≡ true)

    with_tasks-Same :
        (b : Books W) (e : Effect Task) → Untouched p b.tasks e → IsSame b (with_tasks b e).1
    with_tasks-Same b (changed status rows) h = record {
      of_tasks = h;
      of_cost_items = refl;
      of_reports = refl;
      of_files = refl;
    }
    with_tasks-Same b (failed status) h = same

    with_cost_items-Same :
        (b : Books W) (e : Effect (CostItem W))
        → Untouched p b.cost_items e
        → IsSame b (with_cost_items b e).1
    with_cost_items-Same b (changed status rows) h = record {
      of_cost_items = h;
      of_tasks = refl;
      of_reports = refl;
      of_files = refl;
    }
    with_cost_items-Same b (failed status) h = same

    with_reports-Same :
        (b : Books W) (e : Effect DailyReport)
        → Untouched p b.daily_reports e
        → IsSame b (with_reports b e).1
    with_reports-Same b (changed status rows) h = record {
      of_reports = h;
      of_tasks = refl;
      of_cost_items = refl;
      of_files = refl;
    }
    with_reports-Same b (failed status) h = same

    if-Same :
        {b : Books W} (c : Bool) {x y : Books W}
        → IsSame b x
        → IsSame b y
        → IsSame b (if c then x else y)
    if-Same true h k = h
    if-Same false h k = k

    answer-Same :
        {b : Books W} (c : Bool) (x y : Outcome × Books W)
        → IsSame b x.1
        → IsSame b y.1
        → IsSame b (if c then x else y).1
    answer-Same true x y h k = h
    answer-Same false x y h k = k

    without_covers-Same :
        (env : Env) (project current : String) (b : Books W) (queued : Option (List String))
        → str_eq project p ≡ false
        → IsSame b (without_covers env project current b queued)
    without_covers-Same env project current b none h = same
    without_covers-Same env project current b (some queued) h =
        if-Same (env.up commit)
          (record {
            of_tasks = refl;
            of_cost_items = refl;
            of_reports = refl;
            of_files =
                ours-update p (is_previous_cover project current b.files) (set_deleted env.db_clock)
                  b.files (λ r. refl)
                  (all_pointwise _ b.files (λ r.
                    ground (
                      arith,
                      eq_iff r.project_id project,
                      eq_iff r.project_id p,
                      eq_iff project p,
                    )));
          })
          same

    covers-Same :
        (env : Env) (project current : String) (b : Books W)
        → str_eq project p ≡ false
        → IsSame b (archive_previous_project_covers env project current b)
    unfolding archive_previous_project_covers
    covers-Same env project current b h =
        if-Same (not (env.up begin && env.up archive_covers)) same
          (without_covers-Same env project current b _ h)

    IsSame-trans : {b c d : Books W} → IsSame b c → IsSame c d → IsSame b d
    IsSame-trans h k = record {
      of_tasks = k.of_tasks ∙ h.of_tasks;
      of_cost_items = k.of_cost_items ∙ h.of_cost_items;
      of_reports = k.of_reports ∙ h.of_reports;
      of_files = k.of_files ∙ h.of_files;
    }

    with_files :
        (b : Books W) (rows : List (Row File))
        → ours p rows ≡ ours p b.files
        → IsSame b (record b { files = rows })
    with_files b rows h = record {
      of_tasks = refl;
      of_cost_items = refl;
      of_reports = refl;
      of_files = h;
    }

    with_file-Same :
        (env : Env) (id : String) (q : FileRequest) (b : Books W) (e : Effect File)
        → str_eq q.project_id p ≡ false
        → Untouched p b.files e
        → IsSame b (with_file env id q b e).1
    with_file-Same env id q b (failed status) other h = same
    with_file-Same env id q b (changed status rows) other h =
        if-Same (str_eq q.file.kind "project_cover")
          (IsSame-trans (with_files b rows h)
            (covers-Same env q.project_id id (record b { files = rows }) other))
          (with_files b rows h)

    finish-Same :
        (env : Env) (id path : String) (b : Books W) (files : List (Row File))
        (queued : Option (List String))
        → ours p files ≡ ours p b.files
        → all_where (λ c. not (refers_to id c && is_in p c)) b.cost_items ≡ true
        → IsSame b (finish_deletion env id path b files queued).1
    finish-Same env id path b files none hf hc = same
    finish-Same env id path b files (some queued) hf hc =
        answer-Same (not (env.up detach_receipts && env.up insert_audit && env.up commit)) _ _ same
          (record {
            of_tasks = refl;
            of_cost_items =
                ours-update p (refers_to id) (set_body detached) b.cost_items (λ r. refl) hc;
            of_reports = refl;
            of_files = hf;
          })

    queue-Same :
        (env : Env) (id path : String) (b : Books W) (e : Effect File)
        → Untouched p b.files e
        → all_where (λ c. not (refers_to id c && is_in p c)) b.cost_items ≡ true
        → IsSame b (queue_then_finish env id path b e).1
    queue-Same env id path b (failed status) hf hc = same
    queue-Same env id path b (changed status files) hf hc = finish-Same env id path b files _ hf hc

    pub perform-Same :
        (env : Env) (w : Write W) (b : Books W) → Outside b w → IsSame b (perform env w b).1
    unfolding perform delete_file_metadata
    perform-Same env (insert_task id user q) b h =
        with_tasks-Same b _ (inserting-Untouched p (env.up insert_entry) _ b.tasks h)
    perform-Same env (insert_cost_item id user q) b h =
        with_cost_items-Same b _ (inserting-Untouched p (env.up insert_entry) _ b.cost_items h)
    perform-Same env (insert_report id user q) b h =
        with_reports-Same b _ (inserting-Untouched p (env.up insert_entry) _ b.daily_reports h)
    perform-Same env (save_file id user q) b h =
        with_file-Same env id q b _ h (inserting-Untouched p (env.up insert_file) _ b.files h)
    perform-Same env (set_task id q) b h =
        with_tasks-Same b _ (updating-Untouched p (env.up update_entry) id _ b.tasks h)
    perform-Same env (set_cost_item id q) b h =
        with_cost_items-Same b _ (updating-Untouched p (env.up update_entry) id _ b.cost_items h)
    perform-Same env (set_report id q) b h =
        with_reports-Same b _ (updating-Untouched p (env.up update_entry) id _ b.daily_reports h)
    perform-Same env (drop_task id) b h =
        with_tasks-Same b _ (dropping-Untouched p (env.up delete_entry) _ id b.tasks h)
    perform-Same env (drop_cost_item id) b h =
        with_cost_items-Same b _ (dropping-Untouched p (env.up delete_entry) _ id b.cost_items h)
    perform-Same env (drop_report id) b h =
        with_reports-Same b _ (dropping-Untouched p (env.up delete_entry) _ id b.daily_reports h)
    perform-Same env (drop_file id path) b (hf, hc) = answer-Same (not (env.up begin)) _ _ same (
        queue-Same env id path b _
          (dropping-Untouched p (env.up delete_file) env.db_clock id b.files hf) hc)
