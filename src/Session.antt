-- ===== src/Session.antt =====
-- backend/internal/httpapi/sessions.go: refresh sessions. The hash of a token and the signing of an
-- access token are functions that the handlers are given, and a fresh token and a fresh id are
-- arguments. Requests are decoded; the method and the presence of a database are checked before.
pub mod Limit
pub mod Rotation
pub mod History
use Prim.Native.String.{len}
use online_prorab.Common.{
  ℕ, ◌+◌, ◌*◌, String, Bool, true, false, not, ◌&&◌, ◌||◌, Option, none, some, List, [], ◌∷◌, ◌++◌,
  ltb, str_eq, if◌then◌else◌, find_where, update_where, delete_where, is_some, is_none,
}
use online_prorab.Common.Monad.{
  Call, Result, ok, err, ◌>>=◌, ◌>>◌, pure, guard, or_raise, query, exec, transaction,
}
use online_prorab.Common.Order.{rows_where, order_by, drop}
use online_prorab.Text.{trim_space}
use online_prorab.Database.{day}

-- A row of `refresh_sessions`.
pub record Session : Type 0 where
  pub id : String
  pub user_id : String
  pub token_hash : String
  pub device_name : String
  pub expires_at : ℕ
  pub revoked_at : Option ℕ
  pub last_used_at : Option ℕ
  pub created_at : ℕ

abbrev pub Table : Type 0
Table = List Session

-- Which statements and calls succeed, and the clocks of the program and of the database.
pub record Server : Type 0 where
  pub random : Bool
  pub begins : Bool
  pub prunes : Bool
  pub revokes : Bool
  pub inserts : Bool
  pub loads : Bool
  pub rotates : Bool
  pub commits : Bool
  pub logs_out : Bool
  pub clock : ℕ
  pub now : ℕ

abbrev pub refresh_token_ttl : ℕ
refresh_token_ttl = 60 * day

abbrev pub max_active_user_sessions : ℕ
max_active_user_sessions = 10

abbrev pub retention : ℕ
retention = 30 * day

-- `revoked_at IS NULL AND expires_at > now()`.
abbrev pub is_active : ℕ → Session → Bool
is_active now s = is_none s.revoked_at && ltb now s.expires_at

abbrev pub is_active_of : ℕ → String → Session → Bool
is_active_of now user s = str_eq s.user_id user && is_active now s

abbrev pub has_id : String → Session → Bool
has_id id s = str_eq s.id id

abbrev pub has_hash : String → Session → Bool
has_hash token_hash s = str_eq s.token_hash token_hash

abbrev long_before : ℕ → Option ℕ → Bool
long_before now none = false
long_before now (some t) = ltb (t + retention) now

-- The condition of the DELETE in CreateSession.
abbrev pub is_outdated : ℕ → Session → Bool
is_outdated now s = ltb (s.expires_at + retention) now || long_before now s.revoked_at

-- `COALESCE(last_used_at, created_at)`.
abbrev last_seen : Session → ℕ
last_seen s = elim s.last_used_at [ some t ↦ t | none ↦ s.created_at ]

abbrev pub is_newer : Session → Session → Bool
is_newer a b = ltb (last_seen b) (last_seen a)

-- All active sessions of the user but the nine that were used last, of the rows that are seen.
unfoldable pub sessions_to_revoke : ℕ → String → Table → Table
sessions_to_revoke now user rows =
    drop 9 (order_by is_newer (rows_where (is_active_of now user) rows))

-- `id IN (…)`.
unfoldable pub is_among : Table → Session → Bool
is_among [] s = false
is_among (x ∷ xs) s = has_id x.id s || is_among xs s

abbrev pub revoke : ℕ → Session → Session
revoke now s = record s { revoked_at = some now }

abbrev pub new_session : Server → String → String → String → String → Session
new_session o fresh_id user token_hash device = record {
  id = fresh_id;
  user_id = user;
  token_hash = token_hash;
  device_name = device;
  expires_at = o.clock + refresh_token_ttl;
  revoked_at = none;
  last_used_at = none;
  created_at = o.now;
}

-- The PRIMARY KEY and the UNIQUE constraint of the table.
abbrev pub is_taken : Session → Table → Bool
is_taken s rows =
    is_some (find_where (has_id s.id) rows) || is_some (find_where (has_hash s.token_hash) rows)

abbrev pub is_seen : (Session → Bool) → Session → Bool
is_seen unseen s = not (unseen s)

-- The transaction of CreateSession; the outcome of the DELETE is not looked at. An error is the
-- status of the answer. It takes no lock and reads committed rows only, so logins may overlap: `rows` has
-- what the others have committed when this one commits, and `unseen` tells which of these rows were
-- not committed yet when its DELETE and its UPDATE read the table.
unfoldable pub store_session :
    Server
    → (unseen : Session → Bool) → (fresh_id user token_hash device : String)
    → Call Table ℕ (Unit {0})
store_session o unseen fresh_id user token_hash device = transaction (do
  guard o.begins 500
  exec true 500 (λ rows.
      if o.prunes then delete_where (λ s. is_outdated o.now s && is_seen unseen s) rows else rows)
  exec o.revokes 500 (λ rows.
      update_where (is_among (sessions_to_revoke o.now user (rows_where (is_seen unseen) rows)))
        (revoke o.now) rows)
  taken ← query o.inserts 500 (is_taken (new_session o fresh_id user token_hash device))
  guard (not taken) 500
  exec true 500 (λ rows. rows ++ new_session o fresh_id user token_hash device ∷ [])
  guard o.commits 500)

-- An HTTP error, a new session, a refreshed one with its access token, or the bare logout.
pub data Answer : Type 0 where
  refused : ℕ → Answer
  created : (refresh_token : String) → Answer
  refreshed : (access_token refresh_token : String) → Answer
  logged_out : Answer

-- The condition under which a token refreshes its session.
abbrev pub is_valid : ℕ → String → Session → Bool
is_valid now token_hash s = has_hash token_hash s && is_active now s

abbrev pub rotated : Server → String → Session → Session
rotated o token_hash s = record s {
  token_hash = token_hash;
  expires_at = o.clock + refresh_token_ttl;
  last_used_at = some o.now;
}

abbrev pub takes_hash : String → String → Session → Bool
takes_hash id token_hash s = has_hash token_hash s && not (has_id id s)

-- `COALESCE(revoked_at, now())`.
abbrev pub revoke_once : ℕ → Session → Session
revoke_once now s = record s {
  revoked_at = elim s.revoked_at [ some t ↦ some t | none ↦ some now ];
}

module _ (hash : String → String) where
  abbrev session_created : String → Result ℕ (Unit {0}) × Table → Answer × Table
  session_created token (ok u, rows) = (created token, rows)
  session_created token (err status, rows) = (refused status, rows)

  -- `device` is the decoded name, "" where there is none.
  unfoldable pub create_session :
      Server
      → (unseen : Session → Bool) → (fresh_id fresh_token user device : String) → Table
      → Answer × Table
  create_session o unseen fresh_id fresh_token user device rows =
      if ltb 200 (len (trim_space device))
      then (refused 400, rows)
      else if not o.random
      then (refused 500, rows)
      else session_created fresh_token
          (store_session o unseen fresh_id user (hash fresh_token) (trim_space device) rows)

  -- The transaction of RefreshSession; `sign` is signAccessToken. The new hash must be no other row's.
  unfoldable pub rotate :
      Server → (sign : String → Option String) → (fresh_token token : String) → Call Table ℕ String
  rotate o sign fresh_token token = transaction (do
    guard o.begins 500
    found ← query o.loads 401 (find_where (is_valid o.now (hash token)))
    session ← or_raise found 401
    guard o.random 500
    taken ←
        query o.rotates 500
          (λ rows. is_some (find_where (takes_hash session.id (hash fresh_token)) rows))
    guard (not taken) 500
    exec true 500 (update_where (has_id session.id) (rotated o (hash fresh_token)))
    access ← or_raise (sign session.user_id) 500
    guard o.commits 500
    pure access)

  abbrev answered : String → Result ℕ String × Table → Answer × Table
  answered fresh_token (ok access, rows) = (refreshed access fresh_token, rows)
  answered fresh_token (err status, rows) = (refused status, rows)

  -- `body` is the decoded token, `none` where decoding fails.
  unfoldable pub refresh_session :
      Server
      → (String → Option String)
      → (fresh_token : String) → Option String
      → Table
      → Answer × Table
  refresh_session o sign fresh_token none rows = (refused 400, rows)
  refresh_session o sign fresh_token (some token) rows =
      if str_eq (trim_space token) ""
      then (refused 400, rows)
      else answered fresh_token (rotate o sign fresh_token (trim_space token) rows)

  unfoldable pub logout_session : Server → Option String → Table → Answer × Table
  logout_session o none rows = (refused 400, rows)
  logout_session o (some token) rows =
      if str_eq (trim_space token) "" then (refused 400, rows) else (
        logged_out,
        if o.logs_out
            then update_where (has_hash (hash (trim_space token))) (revoke_once o.now) rows
            else rows,
      )
