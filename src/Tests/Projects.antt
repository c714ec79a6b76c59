-- ===== src/Tests/Projects.antt =====
-- Projects and members of a small database.
use online_prorab.Common.{
  ◌≤◌, ◌≡◌, refl, true, some, [], ◌∷◌, find_where, count_where, delete_where,
}
use online_prorab.Common.Monad.{ok}
use online_prorab.Database.{Db, Member, Project, ProjectStatus}
use online_prorab.Subscription.{
  State, add_trial, counts_for, ensure_project_creation_allowed, ensure_subscription, in_force,
  plan_by_code,
}
use online_prorab.Project.{
  accepted, add_member, create_project, has_project_permission, is_member, membership, new_project,
  role_allows, store_project,
}
use online_prorab.Project.Team.{change_member, project_member, remove}
use online_prorab.Project.Limits.{create_project_lem}
use online_prorab.Project.Membership.{owner_kept}
use online_prorab.Tests.Samples.{db, env, home, owner_row, worker_row}

abbrev second_row : Member
second_row = record { project_id = "garage"; user_id = "aida"; role = "owner" }

abbrev two_projects : Db
two_projects = record db {
  projects = home ∷ new_project "garage" "aida" ∷ [];
  members = owner_row ∷ worker_row ∷ second_row ∷ [];
}

created : create_project env "aida" "garage" db ≡ (accepted 201, two_projects)
unfolding create_project store_project ensure_project_creation_allowed ensure_subscription add_trial
    plan_by_code find_where count_where add_member
created = refl

create_project_lem_example :
    (s : State) × (mid : Db) × (ensure_subscription env "aida" db ≡ (ok s, mid))
    × (in_force s.status ≡ true)
    × (count_where (counts_for "aida") two_projects.projects ≤ s.plan.max_projects)
create_project_lem_example = create_project_lem env "aida" "garage" db two_projects 201 created

abbrev third_row : Member
third_row = record { project_id = "home"; user_id = "dilya"; role = "viewer" }

abbrev one_more : Db
one_more = record db { members = owner_row ∷ worker_row ∷ third_row ∷ [] }

abbrev without_worker : Db
without_worker = record db { members = owner_row ∷ [] }

removed : project_member env env "aida" "home" "bek" remove db ≡ (accepted 200, without_worker)
unfolding project_member change_member has_project_permission membership role_allows find_where
    count_where delete_where
removed = refl

owner_kept_example : find_where (is_member "home" "aida") without_worker.members ≡ some owner_row
owner_kept_example =
    owner_kept env env "aida" "home" "bek" remove db without_worker (accepted 200) "home" "aida"
      owner_row (unfold find_where in refl) refl removed

abbrev archived_home : Project
archived_home = record home { status = ProjectStatus.archived }

abbrev archived_db : Db
archived_db = record db { projects = archived_home ∷ [] }
