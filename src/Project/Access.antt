-- ===== src/Project/Access.antt =====
-- Who may do what.
use online_prorab.Common.{String, ◌≡◌, ◌≢◌, refl, Bool, true, false, ◌&&◌, some, arith}
use online_prorab.Database.{Db, Env, Member, Project, ProjectStatus, load_role}
use online_prorab.Project.{
  Permission, read, contribute, manage, role_allows, membership, has_project_permission,
  can_manage_project_lifecycle,
}

abbrev pub at_most : Permission → Permission → Bool
at_most read _ = true
at_most contribute read = false
at_most contribute _ = true
at_most manage manage = true
at_most manage _ = false

-- Permissions are ordered: who may manage a project may contribute to it, and who may contribute may
-- read it, for every role, member and state of the project.
pub has_project_permission_mono :
    (env : Env) (user project : String) (low high : Permission) (db : Db)
    → at_most low high ≡ true
    → has_project_permission env user project high db ≡ true
    → has_project_permission env user project low db ≡ true
unfolding has_project_permission role_allows
has_project_permission_mono env user project read high db m h = ground arith
has_project_permission_mono env user project low high db m h = ground arith

-- An archived project is read-only for everybody, its owner included; its life cycle remains in the
-- hands of those whose role may manage it.
pub archived_read_only :
    (env : Env) (user project : String) (required : Permission) (m : Member) (p : Project) (db : Db)
    → membership user project db ≡ some (m, p)
    → p.status ≡ ProjectStatus.archived
    → required ≢ read
    → (has_project_permission env user project required db ≡ false)
      × (can_manage_project_lifecycle env user project db
          ≡ (env.up load_role && role_allows m.role manage))
unfolding has_project_permission can_manage_project_lifecycle
archived_read_only env user project read m p db f a n = absurd (n refl)
archived_read_only env user project required m p db f a n = (ground arith, ground arith)
