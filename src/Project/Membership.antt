-- ===== src/Project/Membership.antt =====
-- The members of a project.
use online_prorab.Common.{
  ℕ, String, ◌≡◌, refl, ap, ◌∙◌, sym, Bool, true, false, none, some, List, inl, inr, arith, not,
  ◌&&◌, ltb, find_where, update_where, eq_iff, str_eq, Option-cases, Bool-cases, find_where_holds,
  find_where-update_where, find_where-delete_where,
}
use online_prorab.Database.{Project, Db, Env, Member, Invite}
use online_prorab.Project.{Outcome, is_member}
use online_prorab.Project.Team.{
  Change, patch, remove, other, change_member, project_member, set_role,
}

-- A row that is updated elsewhere.
module _ (project member project' member' : String) (m : Member) (ms : List Member) where
  spared :
      find_where (is_member project' member') ms ≡ some m
      → is_member project member m ≡ false
      → (role : String)
      → find_where
          (is_member project' member')
          (update_where (is_member project member) (set_role role) ms)
        ≡ some m
  spared h miss role = ground (
    arith,
    find_where-update_where (is_member project' member') (is_member project member) (set_role role)
        ms (λ x. refl),
  )

-- Two searches for the same member find the same row.
owner_is_found :
    (project member project' member' : String) (m n : Member) (ms : List Member)
    → find_where (is_member project' member') ms ≡ some m
    → find_where (is_member project member) ms ≡ some n
    → is_member project member m ≡ true
    → m ≡ n
owner_is_found project member project' member' m n ms h k hit =
    let mine = find_where_holds (is_member project' member') ms m h in
    let u : m.user_id ≡ member = (eq_iff _ _).0 (ground arith) in
    let v : m.user_id ≡ member' = (eq_iff _ _).0 (ground arith) in
    let p : m.project_id ≡ project = (eq_iff _ _).0 (ground arith) in
    let q : m.project_id ≡ project' = (eq_iff _ _).0 (ground arith) in
    let both : some m ≡ some n =
      sym h
      ∙ ap (λ a. find_where (is_member a member') ms) (sym q ∙ p)
      ∙ ap (λ a. find_where (is_member project a) ms) (sym v ∙ u)
      ∙ k in
    ground arith

change_member_spares :
    (env : Env) (project member : String) (c : Change) (db db' : Db) (out : Outcome)
    (project' member' : String) (m : Member)
    → find_where (is_member project' member') db.members ≡ some m
    → is_member project member m ≡ false
    → change_member env project member c db ≡ (out, db')
    → find_where (is_member project' member') db'.members ≡ some m
unfolding change_member
change_member_spares env project member (patch none) db db' out project' member' m f miss h =
    ground arith
change_member_spares env project member (patch (some role)) db db' out project' member' m f miss h =
    ground (arith, spared project member project' member' m db.members f miss role)
change_member_spares env project member remove db db' out project' member' m f miss h = ground (
  arith,
  find_where-delete_where (is_member project' member') (is_member project member) db.members m f
      miss,
)
change_member_spares env project member other db db' out project' member' m f miss h = ground arith

-- No request to change or remove a member touches the membership of an owner, of this project or
-- another.
pub owner_kept :
    (env env' : Env) (actor project member : String) (change : Change) (db db' : Db) (out : Outcome)
    (project' member' : String) (m : Member)
    → find_where (is_member project' member') db.members ≡ some m
    → m.role ≡ "owner"
    → project_member env env' actor project member change db ≡ (out, db')
    → find_where (is_member project' member') db'.members ≡ some m
unfolding project_member
owner_kept env env' actor project member change db db' out project' member' m f own h =
    elim (Option-cases (find_where (is_member project member) db.members)) [
      | inl e ↦ ground arith
      | inr (n, e) ↦ elim (Bool-cases (str_eq n.role "owner")) [
        | inl same ↦ ground arith
        | inr differs ↦ elim (Bool-cases (is_member project member m)) [
          | inl hit ↦
              let one : m ≡ n =
                owner_is_found project member project' member' m n db.members f e hit in
              absurd (ground (arith, eq_iff n.role "owner"))
          | inr miss ↦ ground (
            arith,
            change_member_spares env' project member change db db' out project' member' m f miss,
          )
        ]
      ]
    ]

-- An invitation that is neither answered nor revoked and has not expired.
abbrev pub is_unanswered : ℕ → String → Invite → Bool
is_unanswered now project v =
    str_eq v.project_id project && not v.accepted && not v.revoked && ltb now v.expires_at
