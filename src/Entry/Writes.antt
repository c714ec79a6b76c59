-- ===== src/Entry/Writes.antt =====
-- The statements that the handlers of tasks.go, cost_items.go, daily_reports.go and files.go end in,
-- once a request is admitted: each is one statement or one transaction. Between the checks and the
-- statement other requests may come.
use online_prorab.Common.{
  ℕ, String, Bool, false, not, ◌&&◌, ◌||◌, Option, none, some, List, [], ◌∷◌, ◌++◌, ltb, ◌==◌,
  str_eq, if◌then◌else◌, find_where, update_where, delete_where, count_where, is_none,
}
use online_prorab.Common.Order.{rows_where}
use online_prorab.Database.{
  Env, begin, commit, insert_entry, update_entry, delete_entry, insert_file, archive_covers,
  delete_file, queue_deletion, detach_receipts, insert_audit, unqueue_deletion, file_store,
  delete_object, requeue_deletion,
}
use online_prorab.Project.{Outcome, accepted, refused}
use online_prorab.Entry.{
  Row, Task, CostItem, DailyReport, File, Books, has_id, is_current, is_in, new_row, insert_row,
  set_body, set_deleted,
}
use online_prorab.Entry.Requests.{TaskRequest, CostRequest, ReportRequest, FileRequest}
use online_prorab.Entry.Paths.{is_safe_storage_path}

pub data Write (W : Type 0) : Type 0 where
  insert_task : (id user : String) → TaskRequest → Write W
  insert_cost_item : (id user : String) → CostRequest W → Write W
  insert_report : (id user : String) → ReportRequest → Write W
  save_file : (id user : String) → FileRequest → Write W
  set_task : (id : String) → TaskRequest → Write W
  set_cost_item : (id : String) → CostRequest W → Write W
  set_report : (id : String) → ReportRequest → Write W
  drop_task : (id : String) → Write W
  drop_cost_item : (id : String) → Write W
  drop_report : (id : String) → Write W
  drop_file : (id storage_path : String) → Write W

-- What is left of a table after a statement: its answer and the rows, or the status of a refusal.
pub data Effect (A : Type 0) : Type 0 where
  changed : (status : ℕ) → List (Row A) → Effect A
  failed : (status : ℕ) → Effect A

module _ {A : Type 0} where
  abbrev pub inserted : Option (List (Row A)) → Effect A
  inserted none = failed 500
  inserted (some rows) = changed 201 rows

  -- INSERT … RETURNING.
  unfoldable pub inserting : Bool → Row A → List (Row A) → Effect A
  inserting up r rows = if up then inserted (insert_row r rows) else failed 500

  -- UPDATE … WHERE id = $1 AND deleted_at IS NULL RETURNING.
  unfoldable pub updating : Bool → (id : String) → (A → A) → List (Row A) → Effect A
  updating up id f rows =
      if not up || count_where (is_current id) rows == 0
      then failed 404
      else changed 200 (update_where (is_current id) (set_body f) rows)

  -- UPDATE … SET deleted_at = now() WHERE id = $1 AND deleted_at IS NULL.
  unfoldable pub dropping : Bool → ℕ → (id : String) → List (Row A) → Effect A
  dropping up now id rows =
      if not up
      then failed 500
      else if count_where (is_current id) rows == 0
      then failed 404
      else changed 200 (update_where (is_current id) (set_deleted now) rows)

-- COALESCE(NULLIF(new, ''), old).
abbrev pub or_old : String → String → String
or_old new old = if str_eq new "" then old else new

abbrev pub updated_cost_item : {W : Type 0} → CostItem W → CostItem W → CostItem W
updated_cost_item new old = record new {
  receipt_file_id = or_old new.receipt_file_id old.receipt_file_id;
  spent_at = or_old new.spent_at old.spent_at;
}

abbrev pub updated_report : DailyReport → DailyReport → DailyReport
updated_report new old = record new { report_date = or_old new.report_date old.report_date }

unfoldable pub is_queued : List String → String → Bool
is_queued [] path = false
is_queued (p ∷ ps) path = str_eq p path || is_queued ps path

-- enqueueStorageDeletion; `none` where it fails.
unfoldable pub enqueue_storage_deletion : Bool → String → List String → Option (List String)
enqueue_storage_deletion up path deletions =
    if not (is_safe_storage_path path) || not up
    then none
    else if is_queued deletions path
    then some deletions
    else some (deletions ++ path ∷ [])

unfoldable pub enqueue_all : Bool → List (Row File) → List String → Option (List String)
enqueue_all up [] deletions = some deletions
enqueue_all up (r ∷ rows) deletions =
    elim (enqueue_storage_deletion up r.body.storage_path deletions) [
      | none ↦ none
      | some queued ↦ enqueue_all up rows queued
    ]

abbrev is_older_than : Option (Row File) → Row File → Bool
is_older_than none r = false
is_older_than (some current) r = ltb r.created_at current.created_at

abbrev pub is_previous_cover : (project current : String) → List (Row File) → Row File → Bool
is_previous_cover project current files r =
    is_in project r
    && str_eq r.body.kind "project_cover"
    && is_none r.deleted_at
    && not (has_id current r)
    && is_older_than (find_where (has_id current) files) r

abbrev pub or_same : List String → Option (List String) → List String
or_same deletions none = deletions
or_same deletions (some queued) = queued

-- removeStoredFile, and queueStorageDeletion where the store fails; what is left of the outbox. An error
-- is only logged.
unfoldable pub remove_stored_file : Env → (storage_path : String) → List String → List String
remove_stored_file env storage_path deletions =
    if not (env.up file_store)
    then deletions
    else if not (env.up delete_object)
    then or_same deletions
        (enqueue_storage_deletion (env.up requeue_deletion) storage_path deletions)
    else if env.up unqueue_deletion
    then delete_where (λ p. str_eq p storage_path) deletions
    else deletions

module _ {W : Type 0} where
  abbrev pub without_covers :
      Env → (project current : String) → Books W → Option (List String) → Books W
  without_covers env project current b none = b
  without_covers env project current b (some queued) =
      if env.up commit
      then record b {
        files =
            update_where (is_previous_cover project current b.files) (set_deleted env.db_clock)
              b.files;
        deletions = queued;
      }
      else b

  -- archivePreviousProjectCovers, a transaction whose failure changes nothing and is only logged.
  unfoldable pub archive_previous_project_covers :
      Env → (project current : String) → Books W → Books W
  archive_previous_project_covers env project current b =
      if not (env.up begin && env.up archive_covers)
      then b
      else without_covers env project current b (
          enqueue_all (env.up queue_deletion)
            (rows_where (is_previous_cover project current b.files) b.files) b.deletions)

  abbrev pub detached : CostItem W → CostItem W
  detached c = record c { receipt_file_id = "" }

  abbrev pub refers_to : String → Row (CostItem W) → Bool
  refers_to file r =
      not (str_eq r.body.receipt_file_id "")
      && str_eq r.body.receipt_file_id file
      && is_none r.deleted_at

  -- The rest of the transaction and, after its commit, the removal of the object.
  abbrev pub finish_deletion :
      Env
      → (file storage_path : String) → Books W
      → List (Row File)
      → Option (List String)
      → Outcome × Books W
  finish_deletion env file storage_path b files none = (refused 500, b)
  finish_deletion env file storage_path b files (some queued) =
      if not (env.up detach_receipts && env.up insert_audit && env.up commit)
      then (refused 500, b)
      else (
        accepted 200,
        record b {
          files = files;
          deletions = remove_stored_file env storage_path queued;
          cost_items = update_where (refers_to file) (set_body detached) b.cost_items;
        },
      )

  abbrev pub queue_then_finish :
      Env → (file storage_path : String) → Books W → Effect File → Outcome × Books W
  queue_then_finish env file storage_path b (failed status) = (refused status, b)
  queue_then_finish env file storage_path b (changed status files) =
      finish_deletion env file storage_path b files
        (enqueue_storage_deletion (env.up queue_deletion) storage_path b.deletions)

  -- DeleteFile once it has found the file and asked for the permission.
  unfoldable pub delete_file_metadata :
      Env → (file storage_path : String) → Books W → Outcome × Books W
  delete_file_metadata env file storage_path b =
      if not (env.up begin)
      then (refused 500, b)
      else queue_then_finish env file storage_path b
          (dropping (env.up delete_file) env.db_clock file b.files)

  abbrev pub with_tasks : Books W → Effect Task → Outcome × Books W
  with_tasks b (changed status rows) = (accepted status, record b { tasks = rows })
  with_tasks b (failed status) = (refused status, b)

  abbrev pub with_cost_items : Books W → Effect (CostItem W) → Outcome × Books W
  with_cost_items b (changed status rows) = (accepted status, record b { cost_items = rows })
  with_cost_items b (failed status) = (refused status, b)

  abbrev pub with_reports : Books W → Effect DailyReport → Outcome × Books W
  with_reports b (changed status rows) = (accepted status, record b { daily_reports = rows })
  with_reports b (failed status) = (refused status, b)

  abbrev pub after_file : Env → String → FileRequest → Books W → Books W
  after_file env id q b =
      if str_eq q.file.kind "project_cover"
      then archive_previous_project_covers env q.project_id id b
      else b

  abbrev pub with_file : Env → String → FileRequest → Books W → Effect File → Outcome × Books W
  with_file env id q b (changed status rows) =
      (accepted status, after_file env id q (record b { files = rows }))
  with_file env id q b (failed status) = (refused status, b)

  unfoldable pub perform : Env → Write W → Books W → Outcome × Books W
  perform env (insert_task id user q) b =
      with_tasks b
        (inserting (env.up insert_entry) (new_row id q.project_id user env.db_clock q.task) b.tasks)
  perform env (insert_cost_item id user q) b = with_cost_items b (
      inserting (env.up insert_entry) (new_row id q.project_id user env.db_clock q.cost_item)
        b.cost_items)
  perform env (insert_report id user q) b = with_reports b (
      inserting (env.up insert_entry) (new_row id q.project_id user env.db_clock q.report)
        b.daily_reports)
  perform env (save_file id user q) b =
      with_file env id q b
        (inserting (env.up insert_file) (new_row id q.project_id user env.db_clock q.file) b.files)
  perform env (set_task id q) b =
      with_tasks b (updating (env.up update_entry) id (λ old. q.task) b.tasks)
  perform env (set_cost_item id q) b =
      with_cost_items b
        (updating (env.up update_entry) id (updated_cost_item q.cost_item) b.cost_items)
  perform env (set_report id q) b =
      with_reports b (updating (env.up update_entry) id (updated_report q.report) b.daily_reports)
  perform env (drop_task id) b =
      with_tasks b (dropping (env.up delete_entry) env.db_clock id b.tasks)
  perform env (drop_cost_item id) b =
      with_cost_items b (dropping (env.up delete_entry) env.db_clock id b.cost_items)
  perform env (drop_report id) b =
      with_reports b (dropping (env.up delete_entry) env.db_clock id b.daily_reports)
  perform env (drop_file id storage_path) b = delete_file_metadata env id storage_path b
