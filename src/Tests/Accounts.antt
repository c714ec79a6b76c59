-- ===== src/Tests/Accounts.antt =====
-- Sessions, login codes, the end of an account and the batches of the deletion worker.
use online_prorab.Common.{
  ℕ, if◌then◌else◌, ◌+◌, ◌≤◌, ◌<◌, String, ◌≡◌, ◌≢◌, refl, Bool, true, false, none, some, Option,
  List, [], ◌∷◌, arith, find_where, update_where, count_where, delete_where, str_eq, eq_iff, ◌==◌,
}
use online_prorab.Common.Order.{rows_where, order_by, drop, first_by}
use online_prorab.Text.{normalize_phone, remove_spaces, trim_left, trim_right, trim_space, is_space}
use online_prorab.Project.Team.{all_digits, is_phone}
use online_prorab.Subscription.{has_user}
use online_prorab.Session
use online_prorab.Session.{
  Session, refresh_session, refreshed, refused, rotate, rotated, is_valid, is_active_of,
  max_active_user_sessions,
}
use online_prorab.Session.Limit.{IsUnique, Within}
use online_prorab.Session.History
use online_prorab.Session.History.{login, run-Within}
use online_prorab.Session.Rotation.{refresh_rotates}
use online_prorab.Login
use online_prorab.Login.{LoginCode, consume, has_id}
use online_prorab.Login.Verify.{
  verified, verify_sms_code, is_live, is_newer, check_code, judge, log_in, enter, accept_invites,
}
use online_prorab.Login.Codes.{verify_spends}
use online_prorab.Login.History as LoginHistory
use online_prorab.Account
use online_prorab.Account.{
  Claims, admitted, cascade, delete_account, has_account, is_in_owned, journal, owns,
  remove_account, require_account_deletion_auth, require_auth,
}
use online_prorab.Account.Deletion.{deletion_revokes}
use online_prorab.Storage.{Deletion}
use online_prorab.Storage.Batch.{Fate, Round}
use online_prorab.Tests.Samples.{db, env, january_31}

abbrev same : String → String
same s = s

abbrev as_token : String → Option String
as_token user = some user

abbrev up : Session.Server
up = record {
  random = true;
  begins = true;
  prunes = true;
  revokes = true;
  inserts = true;
  loads = true;
  rotates = true;
  commits = true;
  logs_out = true;
  clock = january_31;
  now = january_31;
}

abbrev later : Session.Server
later = record up { now = january_31 + 60000000000 }

-- The second login does not see the session of the first.
abbrev is_new : Session → Bool
is_new s = str_eq s.id "s1"

abbrev logins : List Session.History.Event
logins = login up (λ s. false) "s1" "t1" "aida" "phone" ∷ login up is_new "s2" "t2" "aida" "" ∷ []

overlapping : Session.History.AllOverlap same as_token 1 [] logins
unfolding Session.History.step Session.create_session Session.store_session count_where update_where
    delete_where find_where Session.sessions_to_revoke Session.is_among rows_where order_by drop
    trim_space trim_left trim_right is_space
overlapping = (omega arith, (omega arith, tt))

run-Within_example : Within 1 january_31 (Session.History.run same as_token [] logins)
run-Within_example =
    run-Within same as_token 1 [] logins 0 (omega arith, (omega arith, tt)) overlapping
      (record {
        unique = record {
          one_id = λ id. unfold count_where in omega arith;
          one_hash = λ h. unfold count_where in omega arith;
        };
        few = λ user. unfold count_where in omega arith;
      })

abbrev session : Session
session = record {
  id = "s1";
  user_id = "aida";
  token_hash = "t1";
  device_name = "phone";
  expires_at = january_31 + 1000;
  revoked_at = none;
  last_used_at = none;
  created_at = january_31;
}

abbrev rows : Session.Table
rows = session ∷ []

abbrev renewed : Session.Table
renewed = rotated up "t2" session ∷ []

session_renewed :
    refresh_session same up as_token "t2" (some "t1") rows ≡ (refreshed "aida" "t2", renewed)
unfolding refresh_session rotate find_where update_where trim_space trim_left trim_right is_space
session_renewed = refl

session-IsUnique : IsUnique rows
session-IsUnique = record {
  one_id = λ id. unfold count_where in ground arith;
  one_hash = λ h. unfold count_where in ground arith;
}

abbrev new_hash : String
new_hash = "t2"

other_hash : same new_hash ≢ same (trim_space "t1")
unfolding trim_space trim_left trim_right is_space
other_hash e = ground (arith, eq_iff new_hash "t1")

refresh_rotates_example :
    (refresh_session same later as_token "t3" (some "t1") renewed ≡ (refused 401, renewed))
    × (s : Session) × (find_where (is_valid january_31 (trim_space "t1")) rows ≡ some s)
    × (as_token s.user_id ≡ some "aida")
    × (find_where (is_valid (january_31 + 5) "t2") renewed ≡ some (rotated up "t2" s))
refresh_rotates_example =
    refresh_rotates same up later as_token "t2" "t3" "t1" "aida" rows renewed (january_31 + 5)
      session_renewed session-IsUnique other_hash (omega arith)

abbrev login_code : LoginCode
login_code = record {
  id = "c1";
  phone = "+996555000111";
  code_hash = "123456";
  expires_at = january_31 + 1000;
  attempts = 4;
  consumed_at = none;
  created_at = january_31;
}

abbrev store : Login.Store
store = record { codes = login_code ∷ []; db = db }

abbrev spent_store : Login.Store
spent_store = record { codes = consume january_31 login_code ∷ []; db = db }

abbrev code_itself : String → String → String
code_itself phone code = code

logged_in :
    verify_sms_code code_itself as_token env "u2" "+996555000111" "123456" store
    ≡ (verified "aida" "aida", spent_store)
unfolding verify_sms_code check_code judge log_in enter accept_invites rows_where first_by
    find_where update_where normalize_phone remove_spaces trim_space trim_left trim_right is_space
    is_phone all_digits
logged_in = refl

one_code : (id : String) → count_where (has_id id) (login_code ∷ []) ≤ 1
unfolding count_where
one_code id = ground arith

verify_spends_example :
    (c : LoginCode) × (first_by is_newer
        (is_live january_31 (normalize_phone "+996555000111"))
        store.codes
      ≡ some c)
    × (c.attempts < 5)
    × (trim_space "123456" ≡ c.code_hash)
    × (find_where (has_id c.id) spent_store.codes ≡ some (consume january_31 c))
    × (as_token "aida" ≡ some "aida")
verify_spends_example =
    verify_spends code_itself as_token env "u2" "+996555000111" "123456" "aida" "aida" store
      spent_store logged_in one_code

abbrev accounts : Account.Store
accounts = record { db = db; sessions = rows }

abbrev without_aida : Account.Store
without_aida = record {
  db = record {
    users = [];
    subscriptions = [];
    orders = [];
    projects = [];
    members = [];
    invites = [];
  };
  sessions = [];
}

aida_deleted : delete_account true env (journal true) "aida" accounts ≡ (200, without_aida)
unfolding delete_account remove_account cascade find_where delete_where
aida_deleted = refl

abbrev claims_of : String → Option Claims
claims_of raw = some (record { scope = none; sub = some raw })

deletion_revokes_example :
    (require_auth claims_of env true "Bearer aida" without_aida.db ≢ admitted "aida")
    × (require_account_deletion_auth claims_of env true "Bearer aida" without_aida.db
        ≢ admitted "aida")
    × (count_where (λ s. str_eq s.user_id "aida") without_aida.sessions ≡ 0)
    × (find_where (has_account "aida") without_aida.db.users ≡ none)
    × (count_where (owns "aida") without_aida.db.projects ≡ 0)
    × (count_where (λ o. str_eq o.user_id "aida") without_aida.db.orders ≡ 0)
    × (count_where (has_user "aida") without_aida.db.subscriptions ≡ 0)
    × (count_where (λ m. str_eq m.user_id "aida") without_aida.db.members ≡ 0)
    × (count_where (λ m. is_in_owned "aida" db m.project_id) without_aida.db.members ≡ 0)
    × (count_where (λ v. is_in_owned "aida" db v.project_id) without_aida.db.invites ≡ 0)
deletion_revokes_example =
    deletion_revokes true env env (journal true) "aida" "Bearer aida" accounts without_aida
      claims_of true aida_deleted

abbrev photo : Deletion
photo = record {
  id = 8;
  storage_path = "projects/home/roof";
  attempts = 0;
  available_at = 100;
  locked_until = none;
}

abbrev fate : Deletion → Fate
fate d = record { deleted = d.id == 8; recorded = true }

-- The first batch claims at 200, the others a second later.
abbrev rounds : ℕ → Round
rounds n = record {
  alive = true;
  up = true;
  fate = fate;
  started = 10;
  now = if n == 0 then 200 else 1000000200;
}
