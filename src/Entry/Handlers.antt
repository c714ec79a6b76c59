-- ===== src/Entry/Handlers.antt =====
-- The handlers of tasks.go, cost_items.go, daily_reports.go and files.go, from the decoded request on.
-- `admit_…` is what comes before the statement that writes.
use online_prorab.Common.{
  ℕ, String, Bool, true, false, not, ◌&&◌, ◌||◌, Option, none, some, leb, ltb, str_eq,
  if◌then◌else◌, find_where, is_none, is_some,
}
use online_prorab.Common.Int.{ℤ, pos, negsuc}
use online_prorab.Common.Monad.{Result, ok, err}
use online_prorab.Text.{byte_len}
use online_prorab.Database.{Db, Env, find_entry, find_file, check_receipt}
use online_prorab.Project.{
  Outcome, refused, read, has_project_permission, can_contribute_to_project, can_manage_project,
}
use online_prorab.Entry.{Row, File, Books, has_id, is_current, is_in, entry_project_id}
use online_prorab.Entry.Requests.{
  Today, Float64, TaskRequest, CostRequest, ReportRequest, FileRequest, normalize_task_request,
  normalize_cost_item_request, normalize_daily_report_request, is_valid_task_status,
  is_valid_workers_count, is_valid_file_kind, is_allowed_file_type, is_allowed_project_cover_type,
}
use online_prorab.Entry.Paths.{is_safe_storage_path}
use online_prorab.Entry.Writes.{
  Write, perform, insert_task, insert_cost_item, insert_report, save_file, set_task, set_cost_item,
  set_report, drop_task, drop_cost_item, drop_report, drop_file,
}

-- canAccessProject.
abbrev pub can_access_project : Env → String → String → Db → Bool
can_access_project env user project = has_project_permission env user project read

-- An early return with an error status.
unfoldable pub refuse_if : {A : Type 0} → Bool → (status : ℕ) → Result ℕ A → Result ℕ A
refuse_if test status r = if test then err status else r

-- 400 where a request does not normalize.
unfoldable pub normalized : {Q A : Type 0} → Option Q → (Q → Result ℕ A) → Result ℕ A
normalized none f = err 400
normalized (some q) f = f q

unfoldable pub permitted : {A : Type 0} → Bool → A → Result ℕ A
permitted test a = if not test then err 403 else ok a

unfoldable pub with_receipt : {A : Type 0} → Bool → A → Result ℕ A
with_receipt fits a = if not fits then err 400 else ok a

-- What is asked in the project that a row is in; without the row the answer is 403 too.
unfoldable pub permitted_in : {A : Type 0} → Option String → (String → Bool) → A → Result ℕ A
permitted_in none test a = err 403
permitted_in (some project) test a = permitted (test project) a

unfoldable pub is_receipt_of : (file project : String) → Row File → Bool
is_receipt_of file project r = has_id file r && is_in project r && str_eq r.body.kind "receipt"

abbrev is_negative : ℤ → Bool
is_negative (pos n) = false
is_negative (negsuc n) = true

abbrev exceeds : ℤ → ℕ → Bool
exceeds (pos n) limit = ltb 0 limit && ltb limit n
exceeds (negsuc n) limit = false

-- What createFileMetadata asks of a request that normalizeFileRequest has trimmed; `limit` is
-- MaxUploadBytes.
unfoldable pub is_file_request : (limit : ℕ) → FileRequest → Bool
is_file_request limit q =
    not (
      str_eq q.project_id ""
      || str_eq q.file.original_name ""
      || str_eq q.file.storage_path ""
      || str_eq q.file.content_type ""
      || is_negative q.file.size_bytes)
    && leb (byte_len q.file.original_name) 255
    && leb (byte_len q.file.storage_path) 512
    && is_valid_file_kind q.file.kind
    && is_safe_storage_path q.file.storage_path
    && is_allowed_file_type q.file.content_type
    && (not (str_eq q.file.kind "project_cover")
        || is_allowed_project_cover_type q.file.content_type)
    && not (exceeds q.file.size_bytes limit)

-- A request as the handlers get it.
pub data Request (W : Type 0) : Type 0 where
  create_task : (fresh_id : String) → TaskRequest → Request W
  update_task : (id : String) → TaskRequest → Request W
  delete_task : (id : String) → Request W
  create_cost_item : (fresh_id : String) → CostRequest W → Request W
  update_cost_item : (id : String) → CostRequest W → Request W
  delete_cost_item : (id : String) → Request W
  create_report : (fresh_id : String) → ReportRequest → Request W
  update_report : (id : String) → ReportRequest → Request W
  delete_report : (id : String) → Request W
  create_file_metadata :
      (is_production_like : Bool) → (limit : ℕ) → (fresh_id : String) → FileRequest → Request W
  delete_file : (id : String) → Request W

module _ {W : Type 0} where
  unfoldable pub receipt_belongs_to_project : Env → (file project : String) → Books W → Bool
  receipt_belongs_to_project env file project b =
      env.up check_receipt
      && is_some (find_where (λ r. is_receipt_of file project r && is_none r.deleted_at) b.files)

  abbrev pub receipt_fits : Env → (file project : String) → Books W → Bool
  receipt_fits env file project b = str_eq file "" || receipt_belongs_to_project env file project b

  unfoldable pub admit_create_task :
      Env → (user fresh_id : String) → TaskRequest → Books W → Result ℕ (Write W)
  admit_create_task env user fresh_id request b = normalized (normalize_task_request request) (λ q.
      refuse_if
        (str_eq q.project_id ""
          || str_eq q.task.title ""
          || not (is_valid_task_status q.task.status))
        400
        (permitted (can_contribute_to_project env user q.project_id b.db)
          (insert_task fresh_id user q)))

  unfoldable pub admit_update_task :
      Env → (user id : String) → TaskRequest → Books W → Result ℕ (Write W)
  admit_update_task env user id request b = normalized (normalize_task_request request) (λ q.
      refuse_if (str_eq q.task.title "" || not (is_valid_task_status q.task.status)) 400 (
        permitted_in (entry_project_id (env.up find_entry) id b.tasks)
          (λ project. can_contribute_to_project env user project b.db) (set_task id q)))

  unfoldable pub admit_delete_task : Env → (user id : String) → Books W → Result ℕ (Write W)
  admit_delete_task env user id b =
      permitted_in (entry_project_id (env.up find_entry) id b.tasks)
        (λ project. can_manage_project env user project b.db) (drop_task id)

  unfoldable pub admit_create_cost_item :
      Float64 W
      → Today
      → Env
      → (user fresh_id : String) → CostRequest W
      → Books W
      → Result ℕ (Write W)
  admit_create_cost_item fl today env user fresh_id request b =
      normalized (normalize_cost_item_request fl (some today) request) (λ q.
        refuse_if
          (str_eq q.project_id ""
            || str_eq q.cost_item.title ""
            || fl.less q.cost_item.amount fl.nought)
          400
          (refuse_if (not (can_contribute_to_project env user q.project_id b.db)) 403 (
            with_receipt (receipt_fits env q.cost_item.receipt_file_id q.project_id b)
              (insert_cost_item fresh_id user q))))

  abbrev pub edit_cost_item :
      Env → (user id : String) → CostRequest W → Books W → Option String → Result ℕ (Write W)
  edit_cost_item env user id q b none = err 403
  edit_cost_item env user id q b (some project) =
      refuse_if (not (can_contribute_to_project env user project b.db)) 403
        (with_receipt (receipt_fits env q.cost_item.receipt_file_id project b) (set_cost_item id q))

  unfoldable pub admit_update_cost_item :
      Float64 W → Env → (user id : String) → CostRequest W → Books W → Result ℕ (Write W)
  admit_update_cost_item fl env user id request b =
      normalized (normalize_cost_item_request fl none request) (λ q.
        refuse_if (str_eq q.cost_item.title "" || fl.less q.cost_item.amount fl.nought) 400
          (edit_cost_item env user id q b (entry_project_id (env.up find_entry) id b.cost_items)))

  unfoldable pub admit_delete_cost_item : Env → (user id : String) → Books W → Result ℕ (Write W)
  admit_delete_cost_item env user id b =
      permitted_in (entry_project_id (env.up find_entry) id b.cost_items)
        (λ project. can_manage_project env user project b.db) (drop_cost_item id)

  unfoldable pub admit_create_report :
      Today → Env → (user fresh_id : String) → ReportRequest → Books W → Result ℕ (Write W)
  admit_create_report today env user fresh_id request b =
      normalized (normalize_daily_report_request (some today) request) (λ q.
        refuse_if
          (str_eq q.project_id ""
            || str_eq q.report.summary ""
            || not (is_valid_workers_count q.report.workers_count))
          400
          (permitted (can_contribute_to_project env user q.project_id b.db)
            (insert_report fresh_id user q)))

  unfoldable pub admit_update_report :
      Env → (user id : String) → ReportRequest → Books W → Result ℕ (Write W)
  admit_update_report env user id request b =
      normalized (normalize_daily_report_request none request) (λ q.
        refuse_if
          (str_eq q.report.summary "" || not (is_valid_workers_count q.report.workers_count)) 400
          (permitted_in (entry_project_id (env.up find_entry) id b.daily_reports)
            (λ project. can_contribute_to_project env user project b.db) (set_report id q)))

  unfoldable pub admit_delete_report : Env → (user id : String) → Books W → Result ℕ (Write W)
  admit_delete_report env user id b =
      permitted_in (entry_project_id (env.up find_entry) id b.daily_reports)
        (λ project. can_manage_project env user project b.db) (drop_report id)

  unfoldable pub admit_create_file_metadata :
      (is_production_like : Bool)
      → (limit : ℕ) → Env
      → (user fresh_id : String) → FileRequest
      → Books W
      → Result ℕ (Write W)
  admit_create_file_metadata is_production_like limit env user fresh_id q b =
      refuse_if (is_production_like) 403 (
        refuse_if (not (is_file_request limit q)) 400 (
          refuse_if
            (str_eq q.file.kind "project_cover"
              && not (can_manage_project env user q.project_id b.db))
            403
            (permitted (can_contribute_to_project env user q.project_id b.db)
              (save_file fresh_id user q))))

  abbrev pub admit_drop_file :
      Env → (user id : String) → Books W → Option (Row File) → Result ℕ (Write W)
  admit_drop_file env user id b none = err 404
  admit_drop_file env user id b (some r) =
      permitted (can_manage_project env user r.project_id b.db) (drop_file id r.body.storage_path)

  unfoldable pub admit_delete_file : Env → (user id : String) → Books W → Result ℕ (Write W)
  admit_delete_file env user id b =
      if env.up find_file
      then admit_drop_file env user id b (find_where (is_current id) b.files)
      else err 404

  unfoldable pub admit :
      Float64 W → Today → Env → (user : String) → Request W → Books W → Result ℕ (Write W)
  admit fl today env user (create_task fresh_id q) = admit_create_task env user fresh_id q
  admit fl today env user (update_task id q) = admit_update_task env user id q
  admit fl today env user (delete_task id) = admit_delete_task env user id
  admit fl today env user (create_cost_item fresh_id q) =
      admit_create_cost_item fl today env user fresh_id q
  admit fl today env user (update_cost_item id q) = admit_update_cost_item fl env user id q
  admit fl today env user (delete_cost_item id) = admit_delete_cost_item env user id
  admit fl today env user (create_report fresh_id q) = admit_create_report today env user fresh_id q
  admit fl today env user (update_report id q) = admit_update_report env user id q
  admit fl today env user (delete_report id) = admit_delete_report env user id
  admit fl today env user (create_file_metadata is_production_like limit fresh_id q) =
      admit_create_file_metadata is_production_like limit env user fresh_id q
  admit fl today env user (delete_file id) = admit_delete_file env user id

  abbrev pub carry_out : Env → Books W → Result ℕ (Write W) → Outcome × Books W
  carry_out env b (err status) = (refused status, b)
  carry_out env b (ok w) = perform env w b

  -- The checks and the write are not in one transaction: the checks find the tables `b`, and the write
  -- the tables `b'`, after what other requests have done in between.
  unfoldable pub handle :
      Float64 W
      → Today
      → Env
      → Env
      → (user : String) → Request W
      → (b b' : Books W) → Outcome × Books W
  handle fl today env env' user q b b' = carry_out env' b' (admit fl today env user q b)
