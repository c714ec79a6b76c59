-- ===== src/RateLimit/Middleware.antt =====
-- withSMSRequestRateLimit of backend/internal/httpapi/sms_rate_limit.go and withSMSVerifyRateLimit of
-- auth_abuse.go, for a POST. The handler behind them is given by the status that it answers; it does
-- not touch the attempts. The start of the pruning of old attempts is left out.
use Prim.Native.Char.{code}
use Prim.Native.String.{[], ◌∷◌}
use online_prorab.Common.{
  ℕ, ◌≤◌, ◌/◌, ◌≡◌, arith, String, Bool, ◌&&◌, Option, none, some, leb, ltb, ◌==◌, if◌then◌else◌,
}
use online_prorab.Text.{normalize_phone, trim_space}
use online_prorab.Project.Team.{is_phone}
use online_prorab.RateLimit.{
  Reservation, Server, Table, complete_auth_attempt, request_retry_after, reserve_auth_attempt,
  reserved, second, sms_request_limits, sms_verify_limits, unavailable, wait,
}

-- A request as the limiter reads it: `body` is the phone of the decoded body, `none` where the body
-- is not JSON, and `remote_key` what requestRemoteKey returns.
pub record Post : Type 0 where
  pub body : Option String
  pub remote_key : Option String

-- The status of the handler behind, or a refusal; a refusal with 429 has its Retry-After.
pub data Answer : Type 0 where
  passed refused : ℕ → Answer
  too_many : ℕ → Answer

-- `smsRateLimitPhone`.
abbrev without_plus : String → String
without_plus [] = []
without_plus (c ∷ s) = if code c == b'+' then s else c ∷ s

unfoldable pub sms_rate_limit_phone : String → String
sms_rate_limit_phone phone = without_plus (normalize_phone phone)

abbrev is_success : ℕ → Bool
is_success status = leb 200 status && ltb status 300

-- What follows the reservation of an attempt.
unfoldable pub guarded : Bool → (ℕ → ℕ) → ℕ → Reservation × Table → Answer × Table
guarded completes retry_after inner (unavailable, t) = (refused 503, t)
guarded completes retry_after inner (wait remaining, t) = (too_many (retry_after remaining), t)
guarded completes retry_after inner (reserved id, t) =
    (passed inner, complete_auth_attempt completes id (is_success inner) t)

module _ (has_db completes : Bool) (up : Server) (inner clock now : ℕ) where
  abbrev request_from : String → Option String → Table → Answer × Table
  request_from phone none t = (refused 400, t)
  request_from phone (some key) t = guarded completes request_retry_after inner (
      reserve_auth_attempt up sms_request_limits "sms_request" (sms_rate_limit_phone phone) key
        clock now t)

  -- A phone that is not well formed goes to the handler, which refuses it.
  abbrev request_with : Option String → Option String → Table → Answer × Table
  request_with none key t = (refused 400, t)
  request_with (some raw) key t =
      if is_phone (normalize_phone (trim_space raw))
      then request_from (normalize_phone (trim_space raw)) key t
      else (passed inner, t)

  unfoldable pub with_sms_request_rate_limit : Post → Table → Answer × Table
  with_sms_request_rate_limit q t =
      if has_db then request_with q.body q.remote_key t else (refused 503, t)

  abbrev verify_phone : String → String
  verify_phone raw =
      if is_phone (normalize_phone raw) then sms_rate_limit_phone (normalize_phone raw) else ""

  abbrev verify_with : Option String → Option String → Table → Answer × Table
  verify_with none key t = (refused 400, t)
  verify_with (some raw) none t = (refused 400, t)
  verify_with (some raw) (some key) t =
      guarded completes (λ remaining. remaining / second) inner
        (reserve_auth_attempt up sms_verify_limits "sms_verify" (verify_phone raw) key clock now t)

  unfoldable pub with_sms_verify_rate_limit : Post → Table → Answer × Table
  with_sms_verify_rate_limit q t =
      if has_db then verify_with q.body q.remote_key t else (refused 503, t)

  -- A verification is put off for the whole window of fifteen minutes, never for less, and nothing
  -- is recorded of it.
  pub verify_waits :
      (q : Post) (t t' : Table) (seconds : ℕ)
      → with_sms_verify_rate_limit q t ≡ (too_many seconds, t')
      → (seconds ≡ 900) × (t' ≡ t)
  unfolding with_sms_verify_rate_limit guarded reserve_auth_attempt
  verify_waits q t t' seconds h = ground arith

  -- A request for a code that is put off waits for at least a second, and nothing is recorded of it.
  pub request_waits :
      (q : Post) (t t' : Table) (seconds : ℕ)
      → with_sms_request_rate_limit q t ≡ (too_many seconds, t')
      → (1 ≤ seconds) × (t' ≡ t)
  unfolding with_sms_request_rate_limit guarded reserve_auth_attempt request_retry_after
  request_waits q t t' seconds h = ground arith
