-- ===== src/Subscription/Limits.antt =====
-- The limits of a plan.
use online_prorab.Common.{
  ◌<◌, String, ◌≡◌, true, some, arith, count_where, inl, inr, find_where, Option-cases, not, ◌&&◌,
  str_eq,
}
use online_prorab.Common.Monad.{ok, Call-cases}
use online_prorab.Database.{Db, Env, Project}
use online_prorab.Subscription.{
  State, ensure_subscription, in_force, ensure_project_creation_allowed, counts_for,
  ensure_project_member_capacity, participants,
}

-- Another project is allowed only under a subscription in force whose plan has room for it.
pub creation_allowed_lem :
    (env : Env) (user : String) (db db' : Db)
    → ensure_project_creation_allowed env user db ≡ (ok tt, db')
    → (s : State) × (ensure_subscription env user db ≡ (ok s, db'))
      × (in_force s.status ≡ true)
      × (count_where (counts_for user) db'.projects < s.plan.max_projects)
unfolding ensure_project_creation_allowed
creation_allowed_lem env user db db' h = elim (Call-cases (ensure_subscription env user db)) [
  | inl (s, t, e) ↦ (s, ground arith, ground arith, ground arith)
  | inr (x, t, e) ↦ absurd (ground arith)
]

-- Another participant is allowed only where the owner of the project, which is not deleted, has a
-- subscription in force and a plan with room.
pub capacity_lem :
    (env : Env) (project phone : String) (db db' : Db)
    → ensure_project_member_capacity env project phone db ≡ (ok tt, db')
    → (p : Project) × (find_where (λ x. str_eq x.id project && not x.deleted) db.projects ≡ some p)
      × (s : State) × (ensure_subscription env p.owner_id db ≡ (ok s, db'))
      × (in_force s.status ≡ true)
      × (participants env.db_clock project phone db' < s.plan.max_invited_members)
unfolding ensure_project_member_capacity
capacity_lem env project phone db db' h =
    elim (Option-cases (find_where (λ p. str_eq p.id project && not p.deleted) db.projects)) [
      | inl e ↦ absurd (ground arith)
      | inr (p, e) ↦ elim (Call-cases (ensure_subscription env p.owner_id db)) [
        | inl (s, t, f) ↦ (p, e, s, ground arith, ground arith, ground arith)
        | inr (x, t, f) ↦ absurd (ground arith)
      ]
    ]
