-- ===== src/RateLimit.antt =====
-- backend/internal/httpapi/auth_abuse.go and sms_rate_limit.go: attempts to request or verify a
-- login code, counted in a sliding window by phone and by remote address. Times and durations are
-- in nanoseconds. The advisory locks make one reservation at a time touch a key, so a reservation is
-- one step here.
pub mod Window
pub mod History
pub mod Middleware
pub mod Address
use Prim.Native.String.{◌++◌ as text_append}
use online_prorab.Common.{
  ℕ, suc, ◌+◌, ◌-◌, ◌*◌, ◌/◌, String, Bool, true, false, not, ◌&&◌, ◌||◌, Option, none, some, List,
  [], ◌∷◌, ◌++◌, leb, ltb, ◌==◌, str_eq, if◌then◌else◌, count_where, update_where,
}

abbrev pub second : ℕ
second = 1000000000

pub record Attempt : Type 0 where
  pub id : ℕ
  pub phone : Option String
  pub remote_key : String
  pub action : String
  pub succeeded : Bool
  pub created_at : ℕ

pub record Table : Type 0 where
  pub attempts : List Attempt
  pub next_id : ℕ

-- The limits of one kind of attempt; 0 is no limit.
pub record Limits : Type 0 where
  pub window : ℕ
  pub phone_limit : ℕ
  pub remote_limit : ℕ
  pub phone_cooldown : ℕ

abbrev pub sms_request_limits : Limits
sms_request_limits = record {
  window = 3600 * second;
  phone_limit = 6;
  remote_limit = 30;
  phone_cooldown = 45 * second;
}

abbrev pub sms_verify_limits : Limits
sms_verify_limits = record {
  window = 900 * second;
  phone_limit = 10;
  remote_limit = 30;
  phone_cooldown = 0;
}

-- `phone IN (NULLIF($2, ''), '+' || NULLIF($2, ''))`: with or without the plus sign.
abbrev pub is_phone_of : String → Option String → Bool
is_phone_of phone none = false
is_phone_of phone (some p) =
    not (str_eq phone "") && (str_eq p phone || str_eq p (text_append "+" phone))

-- `action = $3 AND created_at > now() - window`.
abbrev pub in_window : String → ℕ → ℕ → Attempt → Bool
in_window action window now a = str_eq a.action action && ltb now (a.created_at + window)

abbrev pub by_remote : String → ℕ → ℕ → String → Attempt → Bool
by_remote action window now remote_key a =
    in_window action window now a && str_eq a.remote_key remote_key

abbrev pub by_phone : String → ℕ → ℕ → String → Attempt → Bool
by_phone action window now phone a = in_window action window now a && is_phone_of phone a.phone

-- `COALESCE(MAX(created_at) FILTER (…), to_timestamp(0))`.
unfoldable pub latest : (Attempt → Bool) → List Attempt → ℕ
latest p [] = 0
latest p (a ∷ rows) =
    let rest = latest p rows in if p a && ltb rest a.created_at then a.created_at else rest

pub data Reservation : Type 0 where
  reserved : ℕ → Reservation
  wait : ℕ → Reservation
  unavailable : Reservation

-- Which of the statements the database completes.
pub record Server : Type 0 where
  pub begins : Bool
  pub locks : Bool
  pub counts : Bool
  pub inserts : Bool
  pub commits : Bool

abbrev pub null_if_empty : String → Option String
null_if_empty phone = if str_eq phone "" then none else some phone

abbrev pub insert_attempt : String → String → String → ℕ → Table → Table
insert_attempt action phone remote_key now t = record {
  attempts =
      t.attempts
      ++ record {
        id = t.next_id;
        phone = null_if_empty phone;
        remote_key = remote_key;
        action = action;
        succeeded = false;
        created_at = now;
      }
        ∷ [];
  next_id = suc t.next_id;
}

abbrev pub is_cooling : Limits → String → ℕ → ℕ → Bool
is_cooling l phone clock last =
    ltb 0 l.phone_cooldown
    && not (str_eq phone "")
    && ltb 0 (last / second)
    && ltb clock (last + l.phone_cooldown)

-- `clock` is `time.Now()`, `now` the database's.
unfoldable pub reserve_auth_attempt :
    Server → Limits → String → String → String → ℕ → ℕ → Table → Reservation × Table
reserve_auth_attempt up l action phone remote_key clock now t =
    if not (up.begins && up.locks && up.counts)
    then (unavailable, t)
    else (let last = latest (by_phone action l.window now phone) t.attempts in
        if is_cooling l phone clock last
        then (wait (last + l.phone_cooldown - clock), t)
        else if ltb 0 l.remote_limit
            && leb l.remote_limit
                (count_where (by_remote action l.window now remote_key) t.attempts)
        then (wait l.window, t)
        else if ltb 0 l.phone_limit
            && not (str_eq phone "")
            && leb l.phone_limit (count_where (by_phone action l.window now phone) t.attempts)
        then (wait l.window, t)
        else if up.inserts && up.commits
        then (reserved t.next_id, insert_attempt action phone remote_key now t)
        else (unavailable, t))

unfoldable pub complete_auth_attempt : Bool → ℕ → Bool → Table → Table
complete_auth_attempt up id succeeded t =
    if up
    then record t {
      attempts =
          update_where (λ a. a.id == id) (λ a. record a { succeeded = succeeded }) t.attempts;
    }
    else t

-- The Retry-After header of withSMSRequestRateLimit.
unfoldable pub request_retry_after : ℕ → ℕ
request_retry_after remaining =
    let seconds = remaining / second in if ltb seconds 1 then 1 else seconds
