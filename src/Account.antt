-- ===== src/Account.antt =====
-- Who a request is from and the end of an account: requireAuth, requireActiveAccount and the reading of
-- tokens of backend/internal/httpapi/auth.go, account_deletion_auth.go, subscription_auth.go and
-- account.go. The JWT library is the function `parse`: it answers the claims of a token that is signed
-- with the secret of the server by HS256 and has not expired.
pub mod Deletion
use Prim.Native.Char.{code}
use online_prorab.Common.{
  ℕ, zero, suc, String, Bool, true, false, not, ◌&&◌, ◌||◌, Option, none, some, List, [], ◌∷◌, ltb,
  leb, ◌==◌, str_eq, if◌then◌else◌, find_where, delete_where, is_some,
}
use online_prorab.Common.Monad.{
  Call, Result, ok, err, ◌>>=◌, ◌>>◌, pure, guard, or_raise, query, exec, transaction,
}
use online_prorab.Text.{trim_space}
use online_prorab.Database.{
  Db, User, Error, Order, Member, Invite, Project, Env, begin, commit, load_user, lock_user,
  delete_files, delete_user,
}
use online_prorab.Subscription.{State, ensure_subscription, has_user, in_force}
use online_prorab.Session

-- The claims that the code looks at. A scope that is no text counts as some other text.
pub record Claims : Type 0 where
  pub scope : Option String
  pub sub : Option String

abbrev pub subject : Option String → Option String
subject none = none
subject (some s) = if str_eq s "" then none else some s

abbrev pub unscoped : Claims → Option String
unscoped c = if is_some c.scope then none else subject c.sub

abbrev pub has_scope : String → Option String → Bool
has_scope expected none = false
has_scope expected (some s) = str_eq s expected

abbrev pub account_deletion_token_scope : String
account_deletion_token_scope = "account:delete"

abbrev pub scoped_for_deletion : Claims → Option String
scoped_for_deletion c =
    if has_scope account_deletion_token_scope c.scope then subject c.sub else none

abbrev is_hex : ℕ → Bool
is_hex c = leb b'0' c && leb c b'9' || leb b'a' c && leb c b'f' || leb b'A' c && leb c b'F'

-- So many hexadecimal digits, and then for each further number a dash and so many more.
unfoldable pub hex_groups : ℕ → List ℕ → String → Bool
hex_groups zero [] String.[] = true
hex_groups zero [] (String.◌∷◌ c s) = false
hex_groups zero (n ∷ ns) String.[] = false
hex_groups zero (n ∷ ns) (String.◌∷◌ c s) = code c == b'-' && hex_groups n ns s
hex_groups (suc k) ns String.[] = false
hex_groups (suc k) ns (String.◌∷◌ c s) = is_hex (code c) && hex_groups k ns s

-- `accountIDRe`.
unfoldable pub is_account_id : String → Bool
is_account_id = hex_groups 8 (4 ∷ 4 ∷ 4 ∷ 12 ∷ [])

-- `strings.CutPrefix`.
unfoldable pub without_prefix : String → String → Option String
without_prefix String.[] s = some s
without_prefix (String.◌∷◌ c p) String.[] = none
without_prefix (String.◌∷◌ c p) (String.◌∷◌ d s) =
    let rest = without_prefix p s in if code c == code d then rest else none

abbrev pub has_account : String → User → Bool
has_account user u = str_eq u.id user

-- The refusal of requireActiveAccount, if any.
unfoldable pub require_active_account : Env → (has_db : Bool) → String → Db → Option ℕ
require_active_account env has_db user db =
    if not (is_account_id user)
    then some 401
    else if not has_db || not (env.up load_user)
    then some 503
    else if is_some (find_where (has_account user) db.users)
    then none
    else some 401

-- The account that a request is let through for, nobody in particular, or an HTTP error.
pub data Access : Type 0 where
  admitted : (user : String) → Access
  anonymous : Access
  denied : ℕ → Access

abbrev pub checked : String → Option ℕ → Access
checked user none = admitted user
checked user (some status) = denied status

abbrev pub active : Env → Bool → Option String → Db → Access
active env has_db none db = denied 401
active env has_db (some user) db = checked user (require_active_account env has_db user db)

abbrev pub or_else : Option String → Option String → Option String
or_else none other = other
or_else (some s) other = some s

abbrev pub claimed : (Claims → Option String) → Option Claims → Option String
claimed f none = none
claimed f (some c) = f c

module _ (parse : String → Option Claims) where
  unfoldable pub parse_access_token : String → Option String
  parse_access_token raw = claimed unscoped (parse raw)

  unfoldable pub parse_account_deletion_token : String → Option String
  parse_account_deletion_token raw = claimed scoped_for_deletion (parse raw)

  abbrev bearer : Env → Bool → Option String → Db → Access
  bearer env has_db none db = denied 401
  bearer env has_db (some raw) db = active env has_db (parse_access_token raw) db

  -- `header` is the Authorization header.
  unfoldable pub require_auth : Env → (has_db : Bool) → (header : String) → Db → Access
  require_auth env has_db header db = bearer env has_db (without_prefix "Bearer " header) db

  unfoldable pub optional_auth : Env → (has_db : Bool) → (header : String) → Db → Access
  optional_auth env has_db header db =
      if str_eq (trim_space header) "" then anonymous else require_auth env has_db header db

  abbrev deletion_bearer : Env → Bool → Option String → Db → Access
  deletion_bearer env has_db none db = denied 401
  deletion_bearer env has_db (some raw) db =
      active env has_db (or_else (parse_account_deletion_token raw) (parse_access_token raw)) db

  unfoldable pub require_account_deletion_auth :
      Env → (has_db : Bool) → (header : String) → Db → Access
  require_account_deletion_auth env has_db header db =
      deletion_bearer env has_db (without_prefix "Bearer " header) db

-- requireCurrentSubscription, with the tables after it; `none` lets the request through.
abbrev pub current : Result Error State × Db → Option ℕ × Db
current (err e, db) = (some 503, db)
current (ok s, db) = (if in_force s.status then none else some 403, db)

unfoldable pub require_current_subscription : Env → (has_db : Bool) → String → Db → Option ℕ × Db
require_current_subscription env has_db user db =
    if not has_db then (some 503, db) else current (ensure_subscription env user db)

abbrev pub subscribed : Env → Bool → Access → Db → Access × Db
subscribed env has_db (denied status) db = (denied status, db)
subscribed env has_db anonymous db = (anonymous, db)
subscribed env has_db (admitted user) db =
    let (refusal, db') = require_current_subscription env has_db user db in
    (checked user refusal, db')

unfoldable pub require_subscribed :
    (String → Option Claims) → Env → Env → (has_db : Bool) → (header : String) → Db → Access × Db
require_subscribed parse env env' has_db header db =
    subscribed env' has_db (require_auth parse env has_db header db) db

-- The tables with a reference to an account.
pub record Store : Type 0 where
  pub db : Db
  pub sessions : Session.Table

abbrev pub owns : String → Project → Bool
owns user p = str_eq p.owner_id user

abbrev pub is_in_owned : String → Db → String → Bool
is_in_owned user db project =
    is_some (find_where (λ p. str_eq p.id project && owns user p) db.projects)

-- `DELETE FROM users` with what its foreign keys cascade to: the rows of the account, its projects, and
-- the members and invitations of these.
unfoldable pub cascade : String → Store → Store
cascade user st = record {
  db = record {
    users = delete_where (has_account user) st.db.users;
    subscriptions = delete_where (has_user user) st.db.subscriptions;
    orders = delete_where (λ o. str_eq o.user_id user) st.db.orders;
    projects = delete_where (owns user) st.db.projects;
    members =
        delete_where (λ m. str_eq m.user_id user || is_in_owned user st.db m.project_id)
          st.db.members;
    invites = delete_where (λ v. is_in_owned user st.db v.project_id) st.db.invites;
  };
  sessions = delete_where (λ s. str_eq s.user_id user) st.sessions;
}

-- The journal of deletions: none, or one and whether it records the deletion.
pub data Journal : Type 0 where
  no_journal : Journal
  journal : (records : Bool) → Journal

abbrev is_protected : Journal → Bool
is_protected no_journal = false
is_protected (journal records) = true

abbrev records_it : Journal → Bool
records_it no_journal = true
records_it (journal records) = records

-- An error is the status of the answer.
unfoldable pub remove_account : Env → Journal → String → Call Store ℕ (Unit {0})
remove_account env j user = transaction (do
  guard (env.up begin) 500
  found ← query (env.up lock_user) 500 (λ st. find_where (has_account user) st.db.users)
  or_raise found 404
  guard (env.up delete_files) 500
  exec (env.up delete_user) 500 (cascade user)
  guard (records_it j) 503
  guard (env.up commit) 500)

abbrev pub status_of : Result ℕ (Unit {0}) × Store → ℕ × Store
status_of (ok u, st) = (200, st)
status_of (err status, st) = (status, st)

-- The DELETE of DeleteAccount, for the account that the request is from; the answer is an HTTP status.
unfoldable pub delete_account :
    (is_production_like : Bool) → Env → Journal → (user : String) → Store → ℕ × Store
delete_account is_production_like env j user st =
    if str_eq user ""
    then (401, st)
    else if is_production_like && not (is_protected j)
    then (503, st)
    else status_of (remove_account env j user st)
