-- ===== src/Project.antt =====
-- backend/internal/httpapi/permissions.go, and the transactions of projects.go on projects and
-- members. A project has here what permissions and limits depend on; its name, address, budget and
-- dates are left out.
pub mod Team
pub mod Access
pub mod Limits
pub mod Membership
use online_prorab.Common.{
  ℕ, String, Bool, true, false, not, ◌&&◌, ◌||◌, Option, none, some, List, [], ◌∷◌, ◌++◌, ◌==◌,
  str_eq, if◌then◌else◌, find_where, count_where, update_where, is_some,
}
use online_prorab.Common.Monad.{
  Call, Result, ok, err, ◌>>=◌, ◌>>◌, pure, raise, guard, or_raise, branch, query, exec,
  transaction,
}
use online_prorab.Subscription.{
  ensure_project_creation_allowed, subscription_http_error, is_active_project,
}
use online_prorab.Database.{
  Db, Project, ProjectStatus, Member, Env, Error, failure, no_rows, begin, commit, load_role,
  insert_project, insert_member, update_project,
}

pub data Permission : Type 0 where
  read contribute manage : Permission

unfoldable pub role_allows : String → Permission → Bool
role_allows role read =
    str_eq role "owner" || str_eq role "manager" || str_eq role "worker" || str_eq role "viewer"
role_allows role contribute = str_eq role "owner" || str_eq role "manager" || str_eq role "worker"
role_allows role manage = str_eq role "owner" || str_eq role "manager"

abbrev pub is_member : String → String → Member → Bool
is_member project user m = str_eq m.user_id user && str_eq m.project_id project

abbrev pub is_live : String → Project → Bool
is_live project p = str_eq p.id project && not p.deleted

-- `project_members pm JOIN projects p ON p.id = pm.project_id`, for one member of one project.
unfoldable pub membership : String → String → Db → Option (Member × Project)
membership user project db = elim (find_where (is_member project user) db.members) [
  | none ↦ none
  | some m ↦ elim (find_where (is_live project) db.projects) [ none ↦ none | some p ↦ some (m, p) ]
]

abbrev pub is_read : Permission → Bool
is_read read = true
is_read _ = false

unfoldable pub has_project_permission : Env → String → String → Permission → Db → Bool
has_project_permission env user project required db =
    env.up load_role && elim (membership user project db) [
      | none ↦ false
      | some (m, p) ↦
          if not (is_read required) && not (is_active_project p.status)
          then false
          else role_allows m.role required
    ]

abbrev pub can_contribute_to_project : Env → String → String → Db → Bool
can_contribute_to_project env user project = has_project_permission env user project contribute

abbrev pub can_manage_project : Env → String → String → Db → Bool
can_manage_project env user project = has_project_permission env user project manage

unfoldable pub can_manage_project_lifecycle : Env → String → String → Db → Bool
can_manage_project_lifecycle env user project db =
    env.up load_role
    && elim (membership user project db) [ none ↦ false | some (m, p) ↦ role_allows m.role manage ]

-- An HTTP status, of success or of a refusal.
pub data Outcome : Type 0 where
  accepted refused : ℕ → Outcome

abbrev pub subscription_status : Error → ℕ
subscription_status e = elim (subscription_http_error e) [ some status ↦ status | none ↦ 500 ]

abbrev pub answered : ℕ → Result Error (Unit {0}) × Db → Outcome × Db
answered status (ok u, db) = (accepted status, db)
answered status (err no_rows, db) = (refused 404, db)
answered status (err e, db) = (refused (subscription_status e), db)

abbrev pub new_project : String → String → Project
new_project id owner = record {
  id = id;
  owner_id = owner;
  status = ProjectStatus.active;
  deleted = false;
}

-- INSERT INTO project_members … ON CONFLICT DO NOTHING.
unfoldable pub add_member : String → String → String → Db → Db
add_member project user role db =
    if is_some (find_where (is_member project user) db.members) then db else record db {
      members = db.members ++ record { project_id = project; user_id = user; role = role } ∷ [];
    }

unfoldable pub store_project : Env → String → String → Call Db Error (Unit {0})
store_project env user fresh_id = transaction (do
  guard (env.up begin) failure
  ensure_project_creation_allowed env user
  exec (env.up insert_project) failure
      (λ db. record db { projects = db.projects ++ new_project fresh_id user ∷ [] })
  exec (env.up insert_member) failure (add_member fresh_id user "owner")
  guard (env.up commit) failure)

-- createProject, once the request is decoded and valid.
unfoldable pub create_project : Env → String → String → Db → Outcome × Db
create_project env user fresh_id db = answered 201 (store_project env user fresh_id db)

abbrev pub asks_active : Option ProjectStatus → Bool
asks_active none = false
asks_active (some status) = is_active_project status

abbrev pub set_project_status : Option ProjectStatus → Project → Project
set_project_status none p = p
set_project_status (some status) p = record p { status = status }

unfoldable pub store_update : Env → String → Option ProjectStatus → Call Db Error (Unit {0})
store_update env project status = transaction (do
  guard (env.up begin) failure
  found ← query (env.up load_role) no_rows (λ db. find_where (is_live project) db.projects)
  p ← or_raise found no_rows
  branch (asks_active status && not (is_active_project p.status))
      (ensure_project_creation_allowed env p.owner_id) (pure tt)
  exec (env.up update_project) no_rows (λ db. record db {
    projects = update_where (is_live project) (set_project_status status) db.projects;
  })
  guard (env.up commit) failure)

-- updateProject, once the request is decoded and valid; `none` leaves the status alone.
unfoldable pub change_project :
    Env → Env → String → String → Option ProjectStatus → Db → Outcome × Db
change_project env env' user project status db =
    if not (
      if asks_active status
      then can_manage_project_lifecycle env user project db
      else can_manage_project env user project db)
    then (refused 403, db)
    else answered 200 (store_update env' project status db)

abbrev pub is_unarchived : String → Project → Bool
is_unarchived project p = is_live project p && is_active_project p.status

-- deleteProject archives the project.
unfoldable pub delete_project : Env → String → String → Db → Outcome × Db
delete_project env user project db =
    if not (can_manage_project env user project db)
    then (refused 403, db)
    else if not (env.up update_project)
    then (refused 500, db)
    else if count_where (is_unarchived project) db.projects == 0
    then (refused 404, db)
    else (
      accepted 200,
      record db {
        projects =
            update_where (is_unarchived project) (λ p. record p { status = ProjectStatus.archived })
              db.projects;
      },
    )
