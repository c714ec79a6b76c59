-- ===== src/Tests/Workers.antt =====
-- The rate limits, the deletion worker and the hub.
use online_prorab.Common.{
  ◌↔◌, List, ℕ, ◌-◌, ◌≤◌, String, ◌≡◌, refl, true, false, none, some, [], ◌∷◌, arith, find_where,
  update_where, count_where, ltb, ◌==◌, inl, eq_iff, if◌then◌else◌, ◌≢◌,
}
use online_prorab.Common.Int.{pos}
use online_prorab.RateLimit
use online_prorab.RateLimit.{
  Attempt, Limits, Table, by_phone, by_remote, latest, reserve_auth_attempt, request_retry_after,
  reserved, sms_request_limits, wait,
}
use online_prorab.RateLimit.Window.{reserve_cooldown, reserve_within}
use online_prorab.RateLimit.History.{Request, Within, attempts, attempts-Within, grants}
use online_prorab.RateLimit.Middleware.{
  Post, guarded, sms_rate_limit_phone, too_many, with_sms_request_rate_limit,
  with_sms_verify_rate_limit,
}
use online_prorab.RateLimit.Address.{
  IsKey, Netip, forwarded, is_trusted_proxy, last_untrusted, parse_remote_address, remote_key_lem,
  request_remote_key,
}
use online_prorab.Text.{normalize_phone, remove_spaces, trim_left, trim_right, trim_space, is_space}
use online_prorab.Project.Team.{all_digits, is_phone}
use online_prorab.Storage.{
  Deletion, candidates, claim_pending_deletions, deletion_retry_delay, first, has_id,
  insert_ordered,
}
use online_prorab.Storage.Claims.{Action, act, acts, claim, claim_exclusive, enqueue}
use online_prorab.Storage.Retry.{IsBackoff, retry-IsBackoff}
use online_prorab.Realtime.{Hub, Subscriber, contains, publish}
use online_prorab.Realtime.Bounds.{
  IsValid, announce, empty, join, publish_private, run, run-IsValid,
}

abbrev up : RateLimit.Server
up = record { begins = true; locks = true; counts = true; inserts = true; commits = true }

-- Two hours after the epoch.
abbrev two_hours : ℕ
two_hours = 7200000000000

abbrev earlier_attempt : Attempt
earlier_attempt = record {
  id = 0;
  phone = some "+996555000111";
  remote_key = "r";
  action = "request";
  succeeded = true;
  created_at = 7100000000000;
}

abbrev new_attempt : Attempt
new_attempt = record earlier_attempt { id = 1; succeeded = false; created_at = two_hours }

abbrev one_attempt : Table
one_attempt = record { attempts = earlier_attempt ∷ []; next_id = 1 }

abbrev two_attempts : Table
two_attempts = record { attempts = earlier_attempt ∷ new_attempt ∷ []; next_id = 2 }

abbrev reserve_at : ℕ → Table → RateLimit.Reservation × Table
reserve_at now t =
    reserve_auth_attempt up sms_request_limits "request" "+996555000111" "r" now now t

granted : reserve_at two_hours one_attempt ≡ (reserved 1, two_attempts)
unfolding reserve_auth_attempt latest count_where
granted = refl

abbrev phone : String
phone = "+996555000111"

named : phone ≢ ""
named e = ground (arith, eq_iff phone "")

reserve_within_example :
    (count_where (by_remote "request" 3600000000000 two_hours "r") two_attempts.attempts ≤ 30)
    × (count_where
          (by_phone "request" 3600000000000 two_hours "+996555000111")
          two_attempts.attempts
        ≤ 6)
reserve_within_example =
    reserve_within up sms_request_limits "request" "+996555000111" "r" two_hours two_hours
      one_attempt two_attempts 1 (omega arith) (omega arith) named granted

reserve_cooldown_example :
    count_where
      (λ a.
        if by_phone "request" 3600000000000 two_hours "+996555000111" a
        then ltb (two_hours - 45000000000) a.created_at
        else false)
      one_attempt.attempts
    ≡ 0
reserve_cooldown_example =
    reserve_cooldown up sms_request_limits "request" "+996555000111" "r" two_hours two_hours
      one_attempt two_attempts 1 (omega arith) named (unfold latest in omega arith) granted

-- Ten seconds later the phone is still cooling down.
cooling : reserve_at 7210000000000 two_attempts ≡ (wait 35000000000, two_attempts)
unfolding reserve_auth_attempt latest count_where
cooling = refl

abbrev no_attempts : Table
no_attempts = record { attempts = []; next_id = 0 }

abbrev at : ℕ → Request
at now = record { up = up; phone = "+996555000111"; remote_key = "r"; clock = now; now = now }

attempts-Within_example :
    Within sms_request_limits "request" two_hours
      (attempts sms_request_limits "request" no_attempts (at 7100000000000 ∷ at two_hours ∷ []))
    × ((remote_key : String)
        → grants sms_request_limits "request" two_hours remote_key no_attempts
            (at 7100000000000 ∷ at two_hours ∷ [])
          ≤ 30)
attempts-Within_example =
    attempts-Within sms_request_limits "request" no_attempts (at 7100000000000 ∷ at two_hours ∷ [])
      0 (omega arith) (omega arith, (omega arith, tt))
      (λ remote_key. unfold count_where in omega arith)

abbrev post : Post
post = record { body = some "+996555000111"; remote_key = some "r" }

abbrev asked : Attempt
asked = record earlier_attempt {
  phone = some "996555000111";
  action = "sms_request";
  created_at = two_hours;
}

abbrev asked_once : Table
asked_once = record { attempts = asked ∷ []; next_id = 1 }

put_off :
    with_sms_request_rate_limit true true up 200 7210000000000 7210000000000 post asked_once
    ≡ (too_many 35, asked_once)
unfolding with_sms_request_rate_limit guarded reserve_auth_attempt latest count_where
    request_retry_after normalize_phone remove_spaces trim_space trim_left trim_right is_space
    is_phone all_digits sms_rate_limit_phone
put_off = refl

abbrev tried : Attempt
tried = record asked { action = "sms_verify" }

abbrev tried_ten_times : Table
tried_ten_times = record {
  attempts = tried ∷ tried ∷ tried ∷ tried ∷ tried ∷ tried ∷ tried ∷ tried ∷ tried ∷ tried ∷ [];
  next_id = 10;
}

blocked :
    with_sms_verify_rate_limit true true up 200 7210000000000 7210000000000 post tried_ten_times
    ≡ (too_many 900, tried_ten_times)
unfolding with_sms_verify_rate_limit guarded reserve_auth_attempt latest count_where normalize_phone
    remove_spaces trim_space trim_left trim_right is_space is_phone all_digits sms_rate_limit_phone
blocked = refl

abbrev fifteen_minutes : ℕ
fifteen_minutes = 900

-- Addresses as they are written, and no prefixes.
abbrev plain_netip : Netip
plain_netip = record {
  parse_addr = λ s. some s;
  has_zone = λ s. false;
  without_zone = λ s. s;
  unmap = λ s. s;
  prefix_contains = λ p s. none;
  host_of = λ s. none;
}

abbrev proxies : List String
proxies = "10.0.0.1" ∷ []

-- The first part is what the client wrote.
abbrev parts : List String
parts = "1.1.1.1" ∷ " 2.2.2.2" ∷ []

keyed : request_remote_key plain_netip proxies "10.0.0.1" parts ≡ some "2.2.2.2"
unfolding request_remote_key parse_remote_address is_trusted_proxy forwarded last_untrusted
    trim_space trim_left trim_right is_space
keyed = refl

remote_key_lem_example :
    (request_remote_key plain_netip proxies "10.0.0.1" parts ≡ some "2.2.2.2")
    ↔ IsKey plain_netip proxies "10.0.0.1" parts "2.2.2.2"
remote_key_lem_example = remote_key_lem plain_netip proxies "10.0.0.1" parts "2.2.2.2"

abbrev photo : Deletion
photo = record {
  id = 7;
  storage_path = "projects/home/photo";
  attempts = 0;
  available_at = 100;
  locked_until = none;
}

abbrev leased_photo : Deletion
leased_photo = record photo { locked_until = some 300000000200 }

claimed : claim_pending_deletions true 200 (photo ∷ []) ≡ (some (photo ∷ []), leased_photo ∷ [])
unfolding claim_pending_deletions candidates insert_ordered first has_id update_where
claimed = refl

-- Another worker claims in between, and an object is queued.
abbrev roof : Deletion
roof = record photo { id = 8; available_at = 900 }

abbrev between : List Action
between = claim true 250 ∷ enqueue roof ∷ []

claimed_again :
    claim_pending_deletions true 300 (acts (leased_photo ∷ []) between)
    ≡ (some [], leased_photo ∷ roof ∷ [])
unfolding claim_pending_deletions candidates insert_ordered first has_id update_where acts act
claimed_again = refl

claim_exclusive_example : has_id [] 7 ≡ false
claim_exclusive_example =
    claim_exclusive true true 200 300 7 (photo ∷ []) (leased_photo ∷ []) (leased_photo ∷ roof ∷ [])
      (photo ∷ []) [] between claimed (unfold has_id in refl) (omega arith, (refl, tt))
      (omega arith) claimed_again

retry-IsBackoff_example : IsBackoff (deletion_retry_delay (pos 3)) (deletion_retry_delay (pos 4))
retry-IsBackoff_example = retry-IsBackoff 3

run-IsValid_example : IsValid (run empty (join "aida" "" ∷ announce "home" ("aida" ∷ []) "e" ∷ []))
run-IsValid_example = run-IsValid (join "aida" "" ∷ announce "home" ("aida" ∷ []) "e" ∷ [])

abbrev bek : Subscriber
bek = record { id = 1; user_id = "bek"; project_id = ""; events = [] }

abbrev hub : Hub
hub = record { next_id = 1; subscribers = bek ∷ [] }

publish_private_example :
    find_where (λ x. x.id == 1) (publish "home" ("aida" ∷ []) "e" hub).subscribers ≡ some bek
publish_private_example =
    publish_private "home" ("aida" ∷ []) "e" hub 1 bek (unfold find_where in refl)
      (inl (unfold contains in refl))
