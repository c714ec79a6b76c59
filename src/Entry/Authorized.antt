-- ===== src/Entry/Authorized.antt =====
-- Who may change what a project holds.
use online_prorab.Common.{
  ℕ, String, ◌≡◌, refl, Bool, true, false, not, Option, none, some, arith, find_where, ◌⊎◌, inl,
  inr, Bool-cases, Option-cases, if◌then◌else◌,
}
use online_prorab.Common.Order.{all_where}
use online_prorab.Common.Monad.{Result, ok, err}
use online_prorab.Database.{Env, ProjectStatus, Project, find_entry, find_file}
use online_prorab.Project.{
  Permission, contribute, manage, has_project_permission, can_contribute_to_project,
  can_manage_project, membership, is_member, is_live, is_read,
}
use online_prorab.Entry.{Row, File, Books, is_current, entry_project_id}
use online_prorab.Entry.Requests.{Today, Float64, TaskRequest, CostRequest, ReportRequest}
use online_prorab.Entry.Writes.{Write}
use online_prorab.Entry.Handlers.{
  Request, create_task, update_task, delete_task, create_cost_item, update_cost_item,
  delete_cost_item, create_report, update_report, delete_report, create_file_metadata, delete_file,
  admit, admit_create_task, admit_update_task, admit_delete_task, admit_create_cost_item,
  admit_update_cost_item, admit_delete_cost_item, admit_create_report, admit_update_report,
  admit_delete_report, admit_create_file_metadata, admit_delete_file, admit_drop_file,
  edit_cost_item, carry_out, handle,
}
use online_prorab.Entry.Admission.{
  Holds, refusal, admitted, if-Holds, normalized-Holds, permitted-Holds, with_receipt-Holds,
  permitted_in-Holds, other_project,
}
use online_prorab.Entry.Reach.{IsKeyed, IsSame, IsLater, same, Outside, perform-Same, is_linked}
use online_prorab.Entry.Elsewhere.{moved_elsewhere, row_elsewhere, items_elsewhere}

-- What a request needs in the project that it is about.
abbrev pub needed : {W : Type 0} → Request W → Permission
needed (delete_task id) = manage
needed (delete_cost_item id) = manage
needed (delete_report id) = manage
needed (delete_file id) = manage
needed _ = contribute

passed : {c : Bool} → not c ≡ false → c ≡ true
passed {c} h = ground arith

needed_writes : {W : Type 0} (q : Request W) → is_read (needed q) ≡ false
needed_writes (create_task id q) = refl
needed_writes (update_task id q) = refl
needed_writes (delete_task id) = refl
needed_writes (create_cost_item id q) = refl
needed_writes (update_cost_item id q) = refl
needed_writes (delete_cost_item id) = refl
needed_writes (create_report id q) = refl
needed_writes (update_report id q) = refl
needed_writes (delete_report id) = refl
needed_writes (create_file_metadata is_production_like limit id q) = refl
needed_writes (delete_file id) = refl

module _ {W : Type 0} (fl : Float64 W) (today : Today) (env : Env) (user p : String)
    (b b' : Books W) (later : IsLater b b') (keyed : IsKeyed b')
    (linked : all_where (is_linked b'.files) b'.cost_items ≡ true) where
  abbrev IsOutside : Result ℕ (Write W) → Type 0
  IsOutside = Holds (Outside p b')

  abbrev MayNot : Permission → Type 0
  MayNot required = has_project_permission env user p required b.db ≡ false

  abbrev contributes : String → Bool
  contributes project = can_contribute_to_project env user project b.db

  abbrev manages : String → Bool
  manages project = can_manage_project env user project b.db

  edit-Outside :
      (id : String) (q : CostRequest W) (project : Option String)
      → entry_project_id (env.up find_entry) id b.cost_items ≡ project
      → MayNot contribute
      → IsOutside (edit_cost_item env user id q b project)
  edit-Outside id q none e lacks = refusal
  edit-Outside id q (some project) e lacks = if-Holds (not (contributes project)) _ _ (λ may.
      with_receipt-Holds _ _ (λ fits.
        row_elsewhere (env.up find_entry) id p project contributes b.cost_items b'.cost_items
          (keyed.of_cost_items id) later.of_cost_items e (passed may) lacks))

  drop_file-Outside :
      (id : String) (found : Option (Row File))
      → find_where (is_current id) b.files ≡ found
      → MayNot manage
      → IsOutside (admit_drop_file env user id b found)
  drop_file-Outside id none e lacks = refusal
  drop_file-Outside id (some r) e lacks = permitted-Holds _ _ (λ may.
      let other = other_project manages r.project_id p may lacks in
      (
        moved_elsewhere id p r.project_id b'.files (keyed.of_files id)
            (λ x f. later.of_files id r x e f) other,
        items_elsewhere id p b'.files r (keyed.of_files id) (λ x f. later.of_files id r x e f) other
            b'.cost_items linked,
      ))

  -- An admitted request is about another project, where its user has not what it needs in `p`.
  admit-Outside : (q : Request W) → MayNot (needed q) → IsOutside (admit fl today env user q b)
  unfolding admit admit_create_task admit_update_task admit_delete_task admit_create_cost_item
      admit_update_cost_item admit_delete_cost_item admit_create_report admit_update_report
      admit_delete_report admit_create_file_metadata admit_delete_file
  admit-Outside (create_task id q) lacks = normalized-Holds _ _ (λ (t : TaskRequest) e.
      if-Holds _ _ _
        (λ fine. permitted-Holds _ _ (λ may. other_project contributes t.project_id p may lacks)))
  admit-Outside (update_task id q) lacks = normalized-Holds _ _ (λ (t : TaskRequest) e.
      if-Holds _ _ _ (λ fine. permitted_in-Holds _ _ _ (λ project e may.
        row_elsewhere (env.up find_entry) id p project contributes b.tasks b'.tasks
          (keyed.of_tasks id) later.of_tasks e may lacks)))
  admit-Outside (delete_task id) lacks = permitted_in-Holds _ _ _ (λ project e may.
      row_elsewhere (env.up find_entry) id p project manages b.tasks b'.tasks (keyed.of_tasks id)
        later.of_tasks e may lacks)
  admit-Outside (create_cost_item id q) lacks = normalized-Holds _ _ (λ (t : CostRequest W) e.
      if-Holds _ _ _ (λ fine. if-Holds (not (contributes t.project_id)) _ _ (λ may.
        with_receipt-Holds _ _
          (λ fits. other_project contributes t.project_id p (passed may) lacks))))
  admit-Outside (update_cost_item id q) lacks =
      normalized-Holds _ _
        (λ (t : CostRequest W) e. if-Holds _ _ _ (λ fine. edit-Outside id t _ refl lacks))
  admit-Outside (delete_cost_item id) lacks = permitted_in-Holds _ _ _ (λ project e may.
      row_elsewhere (env.up find_entry) id p project manages b.cost_items b'.cost_items
        (keyed.of_cost_items id) later.of_cost_items e may lacks)
  admit-Outside (create_report id q) lacks = normalized-Holds _ _ (λ (t : ReportRequest) e.
      if-Holds _ _ _
        (λ fine. permitted-Holds _ _ (λ may. other_project contributes t.project_id p may lacks)))
  admit-Outside (update_report id q) lacks = normalized-Holds _ _ (λ (t : ReportRequest) e.
      if-Holds _ _ _ (λ fine. permitted_in-Holds _ _ _ (λ project e may.
        row_elsewhere (env.up find_entry) id p project contributes b.daily_reports b'.daily_reports
          (keyed.of_reports id) later.of_reports e may lacks)))
  admit-Outside (delete_report id) lacks = permitted_in-Holds _ _ _ (λ project e may.
      row_elsewhere (env.up find_entry) id p project manages b.daily_reports b'.daily_reports
        (keyed.of_reports id) later.of_reports e may lacks)
  admit-Outside (create_file_metadata is_production_like limit id q) lacks =
      if-Holds _ _ _ (λ direct. if-Holds _ _ _ (λ fine.
        if-Holds _ _ _ (λ cover.
          permitted-Holds _ _ (λ may. other_project contributes q.project_id p may lacks))))
  admit-Outside (delete_file id) lacks =
      elim (env.up find_file)
        as (λ up. IsOutside (
          if up
          then admit_drop_file env user id b (find_where (is_current id) b.files)
          else err 404)) [ true ↦ drop_file-Outside id _ refl lacks | false ↦ refusal ]

  carry_out-Same :
      (env' : Env) (r : Result ℕ (Write W)) → IsOutside r → IsSame p b' (carry_out env' b' r).1
  carry_out-Same env' (ok w) (admitted h) = perform-Same p env' w b' h
  carry_out-Same env' (err status) h = same p

  no_permission :
      (q : Request W) (x : Project)
      → find_where (is_live p) b.db.projects ≡ some x
      → x.status ≡ ProjectStatus.archived
      → has_project_permission env user p (needed q) b.db ≡ false
  unfolding has_project_permission membership
  no_permission q x live archived =
      elim (Option-cases (find_where (is_member p user) b.db.members)) [
        | inl e ↦ ground arith
        | inr (m, e) ↦ let writing : is_read (needed q) ≡ false = needed_writes q in ground arith
      ]

  -- A request to create, change or delete a task, a cost item or a daily report, or to record or delete
  -- a file, changes the tasks, cost items, daily reports and files of a project only if its checks found
  -- that its user has there the permission that it needs, to contribute or, for a deletion, to manage.
  -- Else its write leaves them as it finds them, also where other requests came between the checks and
  -- the write, if these let every row stay in its project and the write finds unique primary keys and
  -- receipts of the projects of their items.
  pub handle_lem :
      (env' : Env) (q : Request W)
      → (has_project_permission env user p (needed q) b.db ≡ true)
        ⊎ IsSame p b' (handle fl today env env' user q b b').1
  unfolding handle
  handle_lem env' q = elim (Bool-cases (has_project_permission env user p (needed q) b.db)) [
    | inl may ↦ inl may
    | inr lacks ↦ inr (carry_out-Same env' _ (admit-Outside q lacks))
  ]

  -- An archived project is frozen for its members: no request to create, change or delete a task, a
  -- cost item or a daily report, or to record or delete a file, whose checks find the project archived,
  -- changes its tasks, cost items, daily reports or files, whoever sends it, also where other requests
  -- came between the checks and the write, if these let every row stay in its project and the write
  -- finds unique primary keys and receipts of the projects of their items.
  pub archived_frozen :
      (env' : Env) (q : Request W) (x : Project)
      → find_where (is_live p) b.db.projects ≡ some x
      → x.status ≡ ProjectStatus.archived
      → IsSame p b' (handle fl today env env' user q b b').1
  archived_frozen env' q x live archived = elim (handle_lem env' q) [
    | inr kept ↦ kept
    | inl may ↦ absurd (ground (arith, may, no_permission q x live archived))
  ]
