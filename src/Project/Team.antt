-- ===== src/Project/Team.antt =====
-- backend/internal/httpapi/project_team.go: invitations and members. A text that the handlers trim
-- is trimmed already; the audit log, the realtime event and the answer's body are left out.
use Prim.Native.Char.{code}
use Prim.Native.String.{len}
use online_prorab.Common.{
  ℕ, ◌+◌, ◌*◌, String, Bool, true, false, not, ◌&&◌, ◌||◌, Option, none, some, [], ◌∷◌, ◌++◌, leb,
  ltb, ◌==◌, str_eq, if◌then◌else◌, find_where, count_where, update_where, delete_where, is_some,
}
use online_prorab.Common.Monad.{
  Call, Result, ok, err, ◌>>=◌, ◌>>◌, guard, or_raise, query, exec, transaction,
}
use online_prorab.Text.{normalize_phone}
use online_prorab.Subscription.{ensure_project_member_capacity}
use online_prorab.Database.{
  Db, User, Member, Invite, Env, Error, failure, checkout_state, day, begin, commit, load_user,
  load_phone, load_invite, load_user_phone, load_role, insert_member, close_invites, insert_invite,
  complete_invite, update_member, delete_member, random,
}
use online_prorab.Project.{
  Outcome, accepted, refused, is_member, can_manage_project, add_member, subscription_status,
}

abbrev is_digit : ℕ → Bool
is_digit c = leb b'0' c && leb c b'9'

unfoldable pub all_digits : String → Bool
all_digits String.[] = true
all_digits (String.◌∷◌ c s) = is_digit (code c) && all_digits s

abbrev pub nine_to_fifteen_digits : String → Bool
nine_to_fifteen_digits s = leb 9 (len s) && leb (len s) 15 && all_digits s

-- `phoneRe`: ^\+?[0-9]{9,15}$
unfoldable pub is_phone : String → Bool
is_phone String.[] = false
is_phone (String.◌∷◌ c s) =
    if code c == b'+' then nine_to_fifteen_digits s else nine_to_fifteen_digits (String.◌∷◌ c s)

unfoldable pub is_assignable_project_role : String → Bool
is_assignable_project_role role =
    str_eq role "manager" || str_eq role "worker" || str_eq role "viewer"

abbrev pub has_phone : String → User → Bool
has_phone phone u = str_eq u.phone phone

-- A member of the project whose account has this phone.
abbrev pub member_has_phone : String → String → Db → Member → Bool
member_has_phone project phone db m =
    str_eq m.project_id project
    && is_some (find_where (λ u. str_eq u.id m.user_id && has_phone phone u) db.users)

abbrev pub is_invited : String → String → Invite → Bool
is_invited project phone v =
    str_eq v.project_id project && str_eq v.phone phone && not v.accepted && not v.revoked

abbrev pub revoke : Invite → Invite
revoke v = record v { revoked = true }

abbrev pub close_invites_for : String → String → Db → Db
close_invites_for project phone db = record db {
  invites = update_where (is_invited project phone) revoke db.invites;
}

-- The target already has an account: membership at once.
unfoldable pub assign_member : Env → String → String → String → String → Call Db Error (Unit {0})
assign_member env project phone role target = transaction (do
  guard (env.up begin) failure
  ensure_project_member_capacity env project phone
  present ←
      query (env.up insert_member) failure
        (λ db. is_some (find_where (is_member project target) db.members))
  guard (not present) checkout_state
  exec true failure (add_member project target role)
  exec (env.up close_invites) failure (close_invites_for project phone)
  guard (env.up commit) failure)

abbrev pub new_invite : String → ℕ → String → String → String → String → Invite
new_invite id now project phone role token_hash = record {
  id = id;
  project_id = project;
  phone = phone;
  role = role;
  token_hash = token_hash;
  expires_at = now + 7 * day;
  accepted = false;
  revoked = false;
}

-- Nobody has the phone yet: an invitation. The capacity is checked in a transaction of its own; the
-- two writes that follow are not in one.
unfoldable pub store_invite :
    Env → String → String → String → String → String → Call Db Error (Unit {0})
store_invite env fresh_id token_hash project phone role = do
  transaction (do
    guard (env.up begin) failure
    ensure_project_member_capacity env project phone
    guard (env.up commit) failure)
  guard (env.up random) failure
  exec (env.up close_invites) failure (close_invites_for project phone)
  exec (env.up insert_invite) failure (λ db. record db {
    invites = db.invites ++ new_invite fresh_id env.clock project phone role token_hash ∷ [];
  })

abbrev pub assignment_status : Error → ℕ
assignment_status checkout_state = 409
assignment_status e = subscription_status e

abbrev assigned : ℕ → Result Error (Unit {0}) × Db → Outcome × Db
assigned status (ok u, db) = (accepted status, db)
assigned status (err e, db) = (refused (assignment_status e), db)

unfoldable pub invite_or_assign :
    Env → String → String → String → String → String → Db → Outcome × Db
invite_or_assign env fresh_id token_hash project phone role db =
    elim (find_where (has_phone phone) db.users) [
      | some u ↦ assigned 200 (assign_member env project phone role u.id db)
      | none ↦ assigned 201 (store_invite env fresh_id token_hash project phone role db)
    ]

-- CreateProjectInvite, from the decoded request on.
unfoldable pub create_project_invite :
    Env → String → String → String → String → String → String → Db → Outcome × Db
create_project_invite env actor fresh_id token_hash project phone role db =
    if str_eq project "" || not (is_phone phone) || not (is_assignable_project_role role)
    then (refused 400, db)
    else if not (can_manage_project env actor project db)
    then (refused 403, db)
    else if not (env.up load_phone)
    then (refused 500, db)
    else if is_some (find_where (member_has_phone project phone db) db.members)
    then (refused 409, db)
    else if not (env.up load_user)
    then (refused 500, db)
    else invite_or_assign env fresh_id token_hash project phone role db

abbrev pub is_valid_invite : ℕ → String → Invite → Bool
is_valid_invite now token_hash v =
    str_eq v.token_hash token_hash && not v.accepted && not v.revoked && ltb now v.expires_at

abbrev pub set_role : String → Member → Member
set_role role m = record m { role = role }

-- INSERT … ON CONFLICT (project_id, user_id) DO UPDATE SET role = EXCLUDED.role.
unfoldable pub put_member : String → String → String → Db → Db
put_member project user role db =
    if is_some (find_where (is_member project user) db.members)
    then record db { members = update_where (is_member project user) (set_role role) db.members }
    else add_member project user role db

abbrev pub complete : String → Db → Db
complete id db = record db {
  invites = update_where (λ v. str_eq v.id id) (λ v. record v { accepted = true }) db.invites;
}

-- The refusals of AcceptProjectInvite with a status of their own.
pub data Refusal : Type 0 where
  invalid_invite no_user other_phone : Refusal
  other : Error → Refusal

abbrev as_refusal : {A : Type 0} → Call Db Error A → Call Db Refusal A
as_refusal m db =
    let (r, db') = m db in elim r [ ok a ↦ (ok a, db') | err e ↦ (err (other e), db') ]

-- The transaction of AcceptProjectInvite, for the hash of the token.
unfoldable pub take_invite : Env → String → String → Call Db Refusal (Unit {0})
take_invite env user token_hash = transaction (do
  guard (env.up begin) (other failure)
  found ←
      query (env.up load_invite) invalid_invite
        (λ db. find_where (is_valid_invite env.db_clock token_hash) db.invites)
  invite ← or_raise found invalid_invite
  account ←
      query (env.up load_user_phone) no_user (λ db. find_where (λ u. str_eq u.id user) db.users)
  u ← or_raise account no_user
  guard (str_eq (normalize_phone u.phone) (normalize_phone invite.phone)) other_phone
  as_refusal (ensure_project_member_capacity env invite.project_id invite.phone)
  exec (env.up insert_member) (other failure) (put_member invite.project_id user invite.role)
  exec (env.up complete_invite) (other failure) (complete invite.id)
  guard (env.up commit) (other failure))

abbrev refusal_status : Refusal → ℕ
refusal_status invalid_invite = 401
refusal_status no_user = 401
refusal_status other_phone = 403
refusal_status (other e) = subscription_status e

abbrev taken : Result Refusal (Unit {0}) × Db → Outcome × Db
taken (ok u, db) = (accepted 200, db)
taken (err e, db) = (refused (refusal_status e), db)

-- AcceptProjectInvite; `hash` is SHA-256 in hexadecimal.
unfoldable pub accept_project_invite : (String → String) → Env → String → String → Db → Outcome × Db
accept_project_invite hash env user token db =
    if str_eq token "" then (refused 400, db) else taken (take_invite env user (hash token) db)

-- What ProjectMember is asked: PATCH with a role (`none` where the body cannot be decoded), DELETE,
-- or another method.
pub data Change : Type 0 where
  patch : Option String → Change
  remove other : Change

unfoldable pub change_member : Env → String → String → Change → Db → Outcome × Db
change_member env project member (patch none) db = (refused 400, db)
change_member env project member (patch (some role)) db =
    if not (is_assignable_project_role role)
    then (refused 400, db)
    else if not (env.up update_member)
    then (refused 500, db)
    else (
      accepted 200,
      record db { members = update_where (is_member project member) (set_role role) db.members },
    )
change_member env project member remove db =
    if not (env.up delete_member)
    then (refused 500, db)
    else if count_where (is_member project member) db.members == 0
    then (refused 404, db)
    else (accepted 200, record db { members = delete_where (is_member project member) db.members })
change_member env project member other db = (refused 405, db)

-- ProjectMember; `env` serves the permission, `env'` the statements after it.
unfoldable pub project_member : Env → Env → String → String → String → Change → Db → Outcome × Db
project_member env env' actor project member change db =
    if str_eq project "" || str_eq member ""
    then (refused 400, db)
    else if not (can_manage_project env actor project db)
    then (refused 403, db)
    else if not (env'.up load_role)
    then (refused 404, db)
    else elim (find_where (is_member project member) db.members) [
      | none ↦ (refused 404, db)
      | some m ↦
          if str_eq m.role "owner"
          then (refused 409, db)
          else change_member env' project member change db
    ]
