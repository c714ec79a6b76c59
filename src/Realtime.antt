-- ===== src/Realtime.antt =====
-- The hub of backend/internal/httpapi/realtime.go. Its mutex makes each operation one step. A
-- channel is the list of the payloads in it, oldest first; only whether it is full matters.
pub mod Bounds
use online_prorab.Common.{
  ℕ, suc, ◌+◌, ◌%◌, String, Bool, true, false, not, ◌&&◌, ◌||◌, Option, none, some, List, [], ◌∷◌,
  ◌++◌, leb, ltb, ◌==◌, str_eq, if◌then◌else◌, length, count_where, update_where, delete_where, map,
}

pub record Subscriber : Type 0 where
  pub id : ℕ
  pub user_id : String
  pub project_id : String
  pub events : List String

pub record Hub : Type 0 where
  pub next_id : ℕ
  pub subscribers : List Subscriber

abbrev pub max_realtime_connections : ℕ
max_realtime_connections = 256

abbrev pub max_realtime_connections_per_user : ℕ
max_realtime_connections_per_user = 8

abbrev pub channel_capacity : ℕ
channel_capacity = 32

abbrev pub of_user : String → Subscriber → Bool
of_user user s = str_eq s.user_id user

-- The id of the subscription, or `none` where a limit is reached. The uint64 counter is left
-- unbounded: it would take 2^64 subscriptions to wrap.
unfoldable pub subscribe : String → String → Hub → Option ℕ × Hub
subscribe user project h =
    if leb max_realtime_connections (length h.subscribers)
    then (none, h)
    else if leb max_realtime_connections_per_user (count_where (of_user user) h.subscribers)
    then (none, h)
    else (
      some (h.next_id + 1),
      record {
        next_id = h.next_id + 1;
        subscribers =
            record { id = h.next_id + 1; user_id = user; project_id = project; events = [] }
            ∷ h.subscribers;
      },
    )

-- The function that subscribe returns; `once` makes a second call do nothing, and so does a missing
-- id here.
unfoldable pub unsubscribe : ℕ → Hub → Hub
unsubscribe id h = record h { subscribers = delete_where (λ s. s.id == id) h.subscribers }

unfoldable pub contains : List String → String → Bool
contains [] user = false
contains (u ∷ us) user = str_eq u user || contains us user

abbrev pub wants : String → List String → Subscriber → Bool
wants project users s =
    (str_eq s.project_id "" || str_eq s.project_id project) && contains users s.user_id

-- `select` with a default: a full channel drops the payload.
abbrev pub send : String → Subscriber → Subscriber
send payload s =
    if ltb (length s.events) channel_capacity
    then record s { events = s.events ++ payload ∷ [] }
    else s

unfoldable pub publish : String → List String → String → Hub → Hub
publish project users payload h = record h {
  subscribers = update_where (wants project users) (send payload) h.subscribers;
}
