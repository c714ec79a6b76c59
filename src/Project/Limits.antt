-- ===== src/Project/Limits.antt =====
-- The number of active projects stays within the plan.
use online_prorab.Common.{
  ℕ, ◌≤◌, String, ◌≡◌, true, inl, inr, arith, count_where, count_where-append, eq_refl, ◌∷◌, [],
  ◌++◌,
}
use online_prorab.Common.Monad.{ok, Call-cases}
use online_prorab.Database.{Db, Env}
use online_prorab.Subscription.{
  State, ensure_subscription, ensure_project_creation_allowed, counts_for, in_force,
}
use online_prorab.Subscription.Limits.{creation_allowed_lem}
use online_prorab.Project.{accepted, add_member, new_project, store_project, create_project}

add_member-projects :
    (project user role : String) (db : Db)
    → (add_member project user role db).projects ≡ db.projects
unfolding add_member
add_member-projects project user role db = ground arith

-- A project is created only for an account whose subscription is in force, and then the account has
-- at most as many active projects as its plan allows, the new one included.
pub create_project_lem :
    (env : Env) (user fresh_id : String) (db db' : Db) (status : ℕ)
    → create_project env user fresh_id db ≡ (accepted status, db')
    → (s : State) × (mid : Db) × (ensure_subscription env user db ≡ (ok s, mid))
      × (in_force s.status ≡ true)
      × (count_where (counts_for user) db'.projects ≤ s.plan.max_projects)
unfolding create_project store_project
create_project_lem env user fresh_id db db' status h =
    elim (Call-cases (ensure_project_creation_allowed env user db)) [
      | inr (x, t, e) ↦ absurd (ground arith)
      | inl (u, mid, e) ↦
          let (s, found, force, room) = creation_allowed_lem env user db mid e in
          let added = record mid { projects = mid.projects ++ new_project fresh_id user ∷ [] } in
          let projects : db'.projects ≡ (add_member fresh_id user "owner" added).projects =
            ground arith in
          (
            s,
            mid,
            found,
            force,
            ground (
              arith,
              add_member-projects fresh_id user "owner" added,
              count_where-append (counts_for user) mid.projects (new_project fresh_id user),
              eq_refl user,
            ),
          )
    ]
