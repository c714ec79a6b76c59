-- ===== src/Login/Verify.antt =====
-- VerifySMSCode of backend/internal/httpapi/auth.go and VerifyAccountDeletionSMSCode of
-- account_deletion_auth.go. `sign` is the signing of a token; an error is the status of the answer.
use Prim.Native.String.{len}
use online_prorab.Common.{
  ℕ, suc, String, Bool, true, false, not, ◌&&◌, ◌||◌, Option, none, some, List, [], ◌∷◌, ◌++◌, ltb,
  leb, ◌==◌, str_eq, if◌then◌else◌, find_where, update_where, is_some, is_none,
}
use online_prorab.Common.Monad.{
  Call, Result, ok, err, ◌>>=◌, ◌>>◌, pure, guard, or_raise, query, exec, transaction,
}
use online_prorab.Common.Order.{rows_where, first_by}
use online_prorab.Text.{normalize_phone, trim_space}
use online_prorab.Database.{
  Db, User, Invite, Env, Error, begin, commit, load_code, record_attempt, upsert_user, load_invites,
  insert_member, complete_invite, consume_code, find_user,
}
use online_prorab.Subscription.{ensure_project_member_capacity, subscription_http_error}
use online_prorab.Project.{add_member}
use online_prorab.Project.Team.{is_phone, has_phone, complete}
use online_prorab.Login.{LoginCode, Store, has_id, consume, with_codes}

-- `phone = $1 AND consumed_at IS NULL AND expires_at > now()`.
abbrev pub is_live : ℕ → String → LoginCode → Bool
is_live now phone c = str_eq c.phone phone && is_none c.consumed_at && ltb now c.expires_at

-- ORDER BY created_at DESC.
abbrev pub is_newer : LoginCode → LoginCode → Bool
is_newer a b = ltb b.created_at a.created_at

abbrev pub add_attempt : LoginCode → LoginCode
add_attempt c = record c { attempts = suc c.attempts }

abbrev pub set_code : String → (LoginCode → LoginCode) → Store → Store
set_code id f = with_codes (update_where (has_id id) f)

-- A call on the other tables.
abbrev pub on_db : {E A : Type 0} → Call Db E A → Call Store E A
on_db m st = let (r, db') = m st.db in (r, record st { db = db' })

-- A wrong code is recorded and committed: `none`.
abbrev pub reject_code : {A : Type 0} → Env → LoginCode → Call Store ℕ (Option A)
reject_code env c = do
  exec (env.up record_attempt) 503 (set_code c.id add_attempt)
  guard (env.up commit) 503
  pure none

-- What follows a comparison that came out so; a right code leads to `accept`.
unfoldable pub judge :
    {A : Type 0}
    → Env
    → Bool
    → (LoginCode → Call Store ℕ (Option A))
    → LoginCode
    → Call Store ℕ (Option A)
judge env true accept c = accept c
judge env false accept c = reject_code env c

-- The part that the two handlers share; `accept` is what a right code leads to.
unfoldable pub check_code :
    {A : Type 0}
    → (hash : String → String → String) → Env
    → (phone code : String) → (LoginCode → Call Store ℕ (Option A))
    → Call Store ℕ (Option A)
check_code hash env phone code accept = transaction (do
  guard (env.up begin) 503
  found ←
      query (env.up load_code) 503 (λ st. first_by is_newer (is_live env.db_clock phone) st.codes)
  c ← or_raise found 401
  guard (not (leb 5 c.attempts)) 429
  judge env (str_eq (hash phone code) c.code_hash) accept c)

-- INSERT INTO users … ON CONFLICT (phone) DO UPDATE.
abbrev pub put_user : Env → (fresh_id phone : String) → Db → Db
put_user env fresh_id phone db =
    if is_some (find_where (has_phone phone) db.users) then db else record db {
      users = db.users ++ record { id = fresh_id; phone = phone; created_at = env.db_clock } ∷ [];
    }

abbrev pub is_pending_invite : ℕ → String → Invite → Bool
is_pending_invite now phone v =
    str_eq v.phone phone && not v.accepted && not v.revoked && ltb now v.expires_at

abbrev pub join_project : Env → String → Invite → Call Db ℕ (Unit {0})
join_project env user v = do
  exec (env.up insert_member) 500 (add_member v.project_id user v.role)
  exec (env.up complete_invite) 500 (complete v.id)

-- An invitation beyond the limits of a subscription is skipped; another error ends the login.
abbrev pub by_capacity :
    Env → String → Invite → Result Error (Unit {0}) × Db → Result ℕ (Unit {0}) × Db
by_capacity env user v (ok u, db) = join_project env user v db
by_capacity env user v (err e, db) =
    if is_some (subscription_http_error e) then (ok tt, db) else (err 500, db)

unfoldable pub accept_invite : Env → String → Invite → Call Db ℕ (Unit {0})
accept_invite env user v db =
    by_capacity env user v (ensure_project_member_capacity env v.project_id v.phone db)

unfoldable pub accept_invites : Env → String → List Invite → Call Db ℕ (Unit {0})
accept_invites env user [] = pure tt
accept_invites env user (v ∷ vs) = do accept_invite env user v; accept_invites env user vs

-- The account of the phone and its invitations. The table holds invitations in order of creation.
unfoldable pub enter : Env → (fresh_id phone : String) → Call Db ℕ String
enter env fresh_id phone = do
  exec (env.up upsert_user) 500 (put_user env fresh_id phone)
  found ← query true 500 (λ db. find_where (has_phone phone) db.users)
  u ← or_raise found 500
  invites ←
      query (env.up load_invites) 500
        (λ db. rows_where (is_pending_invite env.db_clock phone) db.invites)
  accept_invites env u.id invites
  pure u.id

unfoldable pub log_in : Env → (fresh_id phone : String) → LoginCode → Call Store ℕ (Option String)
log_in env fresh_id phone c = do
  user ← on_db (enter env fresh_id phone)
  exec (env.up consume_code) 500 (set_code c.id (consume env.db_clock))
  guard (env.up commit) 500
  pure (some user)

-- The answer: an HTTP error, or a token with the account that it is for.
pub data Answer : Type 0 where
  refused : ℕ → Answer
  verified : (token user : String) → Answer

abbrev signed : String → Option String → Answer
signed user none = refused 500
signed user (some token) = verified token user

abbrev pub answered :
    (sign : String → Option String) → Result ℕ (Option String) × Store → Answer × Store
answered sign (err status, st) = (refused status, st)
answered sign (ok none, st) = (refused 401, st)
answered sign (ok (some user), st) = (signed user (sign user), st)

abbrev pub is_bad : String → String → Bool
is_bad phone code = not (is_phone phone) || not (len code == 6)

module _ (hash : String → String → String) (sign : String → Option String) where
  -- `raw_phone` and `raw_code` are those of the decoded request.
  unfoldable pub verify_sms_code :
      Env → (fresh_id raw_phone raw_code : String) → Store → Answer × Store
  verify_sms_code env fresh_id raw_phone raw_code st =
      if is_bad (normalize_phone raw_phone) (trim_space raw_code)
      then (refused 400, st)
      else answered sign (
          check_code hash env (normalize_phone raw_phone) (trim_space raw_code)
            (log_in env fresh_id (normalize_phone raw_phone)) st)

-- The code is spent also where nobody has the phone; that is answered after the commit.
unfoldable pub find_account : Env → String → LoginCode → Call Store ℕ (Option (Option User))
find_account env phone c = do
  found ← query (env.up find_user) 503 (λ st. find_where (has_phone phone) st.db.users)
  exec (env.up consume_code) 503 (set_code c.id (consume env.db_clock))
  guard (env.up commit) 503
  pure (some found)

abbrev pub deletion_answered :
    (sign : String → Option String) → Result ℕ (Option (Option User)) × Store → Answer × Store
deletion_answered sign (err status, st) = (refused status, st)
deletion_answered sign (ok none, st) = (refused 401, st)
deletion_answered sign (ok (some none), st) = (refused 404, st)
deletion_answered sign (ok (some (some u)), st) = (signed u.id (sign u.id), st)

module _ (hash : String → String → String) (sign : String → Option String) where
  unfoldable pub verify_account_deletion_sms_code :
      Env → (raw_phone raw_code : String) → Store → Answer × Store
  verify_account_deletion_sms_code env raw_phone raw_code st =
      if is_bad (normalize_phone raw_phone) (trim_space raw_code)
      then (refused 400, st)
      else deletion_answered sign (
          check_code hash env (normalize_phone raw_phone) (trim_space raw_code)
            (find_account env (normalize_phone raw_phone)) st)
