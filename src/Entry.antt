-- ===== src/Entry.antt =====
-- backend/internal/httpapi/tasks.go, cost_items.go, daily_reports.go and files.go: what the members of a
-- project write down in it. The four tables have the same columns around their own, so a row is generic.
-- Amounts of money are float64, of which the code uses what `Float64` lists.
pub mod Requests
pub mod Paths
pub mod Writes
pub mod Handlers
pub mod Admission
pub mod Scope
pub mod Reach
pub mod Elsewhere
pub mod Authorized
pub mod Detach
pub mod Listing
use online_prorab.Common.{
  ℕ, suc, String, Bool, true, false, not, ◌&&◌, Option, none, some, List, [], ◌∷◌, ◌++◌, str_eq,
  find_where, update_where, count_where, is_none, is_some, if◌then◌else◌,
}
use online_prorab.Common.Int.{ℤ}
use online_prorab.Database.{Db}

-- A row of `tasks`, `cost_items`, `daily_reports` or `files`.
pub record Row (A : Type 0) : Type 0 where
  pub id : String
  pub project_id : String
  pub created_by : String
  pub created_at : ℕ
  pub deleted_at : Option ℕ
  pub body : A

-- The columns of their own; a NULL text is "", as COALESCE makes it.
pub record Task : Type 0 where
  pub title : String
  pub description : String
  pub status : String
  pub due_date : String

pub record CostItem (W : Type 0) : Type 0 where
  pub title : String
  pub description : String
  pub category : String
  pub amount : W
  pub currency : String
  pub vendor : String
  pub receipt_file_id : String
  pub spent_at : String

pub record DailyReport : Type 0 where
  pub report_date : String
  pub summary : String
  pub workers_count : ℤ
  pub issues : String

pub record File : Type 0 where
  pub kind : String
  pub original_name : String
  pub storage_path : String
  pub content_type : String
  pub size_bytes : ℤ

-- The tables; of the outbox `file_storage_deletions` the paths.
pub record Books (W : Type 0) : Type 0 where
  pub db : Db
  pub tasks : List (Row Task)
  pub cost_items : List (Row (CostItem W))
  pub daily_reports : List (Row DailyReport)
  pub files : List (Row File)
  pub deletions : List String

module _ {A : Type 0} where
  abbrev pub has_id : String → Row A → Bool
  has_id id r = str_eq r.id id

  -- `id = $1 AND deleted_at IS NULL`.
  abbrev pub is_current : String → Row A → Bool
  is_current id r = has_id id r && is_none r.deleted_at

  abbrev pub is_in : String → Row A → Bool
  is_in project r = str_eq r.project_id project

  abbrev project_of : Option (Row A) → Option String
  project_of none = none
  project_of (some r) = some r.project_id

  -- taskProjectID, costItemProjectID, dailyReportProjectID and fileProjectID.
  unfoldable pub entry_project_id : Bool → String → List (Row A) → Option String
  entry_project_id up id rows = if up then project_of (find_where (is_current id) rows) else none

  abbrev pub new_row : (id project user : String) → (now : ℕ) → A → Row A
  new_row id project user now body = record {
    id = id;
    project_id = project;
    created_by = user;
    created_at = now;
    deleted_at = none;
    body = body;
  }

  -- INSERT, which fails where the primary key is taken.
  unfoldable pub insert_row : Row A → List (Row A) → Option (List (Row A))
  insert_row r rows =
      if is_some (find_where (has_id r.id) rows) then none else some (rows ++ r ∷ [])

  abbrev pub set_body : (A → A) → Row A → Row A
  set_body f r = record r { body = f r.body }

  abbrev pub set_deleted : ℕ → Row A → Row A
  set_deleted now r = record r { deleted_at = some now }
