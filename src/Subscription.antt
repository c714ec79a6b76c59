-- ===== src/Subscription.antt =====
-- backend/internal/httpapi/subscription_limits.go: plans, prices, and the account's subscription.
-- `FOR UPDATE` has no effect on one call, so `lock` is not an argument.
pub mod Price
pub mod Standing
pub mod Limits
use online_prorab.Common.{
  ℕ, ◌+◌, ◌-◌, ◌*◌, ◌/◌, String, Bool, true, false, not, ◌&&◌, ◌||◌, Option, none, some, List, [],
  ◌∷◌, ◌++◌, if◌then◌else◌, ltb, leb, str_eq, find_where, count_where, update_where, is_some,
}
use online_prorab.Common.Monad.{
  Call, Result, ok, err, ◌>>=◌, ◌>>◌, pure, raise, guard, or_raise, query, exec,
}
use online_prorab.Database.{
  Db, User, Subscription, SubscriptionStatus, Project, ProjectStatus, Member, Invite, Env, Error,
  failure, no_rows, unknown_plan, unknown_period, subscription_expired, project_plan_limit,
  member_plan_limit, day, insert_trial, load_subscription, expire_subscription, count_projects,
  load_owner, count_participants,
}

pub record Plan : Type 0 where
  pub id : String
  pub price_kgs : ℕ
  pub annual_discount_percent : ℕ
  pub max_projects : ℕ
  pub max_invited_members : ℕ
  pub trial_days : ℕ

abbrev pub subscription_plans : List Plan
subscription_plans =
    record {
      id = "trial";
      price_kgs = 0;
      annual_discount_percent = 0;
      max_projects = 1;
      max_invited_members = 0;
      trial_days = 30;
    }
    ∷ record {
      id = "standard";
      price_kgs = 3000;
      annual_discount_percent = 10;
      max_projects = 5;
      max_invited_members = 5;
      trial_days = 0;
    }
    ∷ record {
      id = "max";
      price_kgs = 5000;
      annual_discount_percent = 15;
      max_projects = 20;
      max_invited_members = 20;
      trial_days = 0;
    }
    ∷ []

unfoldable pub plan_by_code : String → Option Plan
unfolding find_where
plan_by_code code = find_where (λ plan. str_eq plan.id code) subscription_plans

-- The configuration that prices depend on. The code asks of the two overrides only whether they are
-- above 0, so a negative one is 0 here.
pub record Pricing : Type 0 where
  pub is_staging : Bool
  pub override_kgs : ℕ
  pub obank_enabled : Bool
  pub obank_test : Bool
  pub staging_test_price_kgs : ℕ

abbrev pub staging_test_price_override_enabled : Pricing → Bool
staging_test_price_override_enabled c =
    c.is_staging && c.obank_enabled && c.obank_test && ltb 0 c.staging_test_price_kgs

abbrev pub known_period : String → Bool
known_period period = str_eq period "month" || str_eq period "year"

unfoldable pub plan_price : Pricing → Plan → String → Option ℕ
plan_price c plan period =
    if c.is_staging && ltb 0 c.override_kgs && not (str_eq plan.id "trial")
    then (if known_period period then some c.override_kgs else none)
    else if staging_test_price_override_enabled c && not (str_eq plan.id "trial")
    then (if known_period period then some c.staging_test_price_kgs else none)
    else if str_eq period "month"
    then some plan.price_kgs
    else if str_eq period "year"
    then some (plan.price_kgs * 12 * (100 - plan.annual_discount_percent) / 100)
    else none

pub record State : Type 0 where
  pub plan : Plan
  pub status : SubscriptionStatus
  pub billing_period : String
  pub started_at : ℕ
  pub trial_ends_at : ℕ
  pub current_period_end : Option ℕ

abbrev pub has_user : String → Subscription → Bool
has_user user row = str_eq row.user_id user

-- `t != nil && !t.After(now)`.
abbrev pub is_over : ℕ → Option ℕ → Bool
is_over now none = false
is_over now (some end) = leb end now

abbrev pub trial_row : User → Subscription
trial_row u = record {
  user_id = u.id;
  plan_code = "trial";
  status = SubscriptionStatus.trialing;
  billing_period = "month";
  started_at = u.created_at;
  trial_ends_at = u.created_at + 30 * day;
  current_period_end = none;
}

-- INSERT … SELECT … FROM users WHERE id = $1 ON CONFLICT (user_id) DO NOTHING.
unfoldable pub add_trial : String → Db → Db
unfolding find_where
add_trial user db = elim (find_where (has_user user) db.subscriptions) [
  | some row ↦ db
  | none ↦ elim (find_where (λ u. str_eq u.id user) db.users) [
    | some u ↦ record db { subscriptions = db.subscriptions ++ trial_row u ∷ [] }
    | none ↦ db
  ]
]

abbrev pub set_expired : String → Db → Db
set_expired user db = record db {
  subscriptions =
      update_where (has_user user) (λ row. record row { status = SubscriptionStatus.expired })
        db.subscriptions;
}

abbrev pub is_trialing : SubscriptionStatus → Bool
is_trialing SubscriptionStatus.trialing = true
is_trialing _ = false

abbrev pub is_active : SubscriptionStatus → Bool
is_active SubscriptionStatus.active = true
is_active _ = false

abbrev pub has_expired : ℕ → Subscription → Bool
has_expired now row =
    is_trialing row.status && leb row.trial_ends_at now
    || is_active row.status && is_over now row.current_period_end

abbrev pub state_of : Plan → Subscription → State
state_of plan row = record {
  plan = plan;
  status = row.status;
  billing_period = if str_eq row.billing_period "" then "month" else row.billing_period;
  started_at = row.started_at;
  trial_ends_at = row.trial_ends_at;
  current_period_end = row.current_period_end;
}

-- The UPDATE that records an expiry, and the state that is reported.
abbrev pub store_expiry : Env → String → State → Bool → Call Db Error State
store_expiry env user state true = do
  exec (env.up expire_subscription) failure (set_expired user)
  pure (record state { status = SubscriptionStatus.expired })
store_expiry env user state false = pure state

unfoldable pub ensure_subscription : Env → String → Call Db Error State
ensure_subscription env user = do
  exec (env.up insert_trial) failure (add_trial user)
  found ←
      query (env.up load_subscription) failure (λ db. find_where (has_user user) db.subscriptions)
  row ← or_raise found failure
  plan ← or_raise (plan_by_code row.plan_code) unknown_plan
  store_expiry env user (state_of plan row) (has_expired env.clock row)

-- The test of every caller: `state.Status != "trialing" && state.Status != "active"`.
abbrev pub in_force : SubscriptionStatus → Bool
in_force status = is_trialing status || is_active status

-- `subscriptionHTTPError`; the message is left out.
unfoldable pub subscription_http_error : Error → Option ℕ
subscription_http_error subscription_expired = some 403
subscription_http_error project_plan_limit = some 403
subscription_http_error member_plan_limit = some 403
subscription_http_error _ = none

abbrev pub is_active_project : ProjectStatus → Bool
is_active_project ProjectStatus.active = true
is_active_project ProjectStatus.archived = false

abbrev pub counts_for : String → Project → Bool
counts_for owner p = str_eq p.owner_id owner && not p.deleted && is_active_project p.status

unfoldable pub ensure_project_creation_allowed : Env → String → Call Db Error (Unit {0})
ensure_project_creation_allowed env user = do
  state ← ensure_subscription env user
  guard (in_force state.status) subscription_expired
  project_count ←
      query (env.up count_projects) failure (λ db. count_where (counts_for user) db.projects)
  guard (not (leb state.plan.max_projects project_count)) project_plan_limit

abbrev pub is_participant : String → Member → Bool
is_participant project m = str_eq m.project_id project && not (str_eq m.role "owner")

abbrev pub is_open_invite : ℕ → String → String → Invite → Bool
is_open_invite now project phone v =
    str_eq v.project_id project
    && not v.accepted
    && not v.revoked
    && ltb now v.expires_at
    && not (str_eq v.phone phone)

unfoldable pub participants : ℕ → String → String → Db → ℕ
participants now project phone db =
    count_where (is_participant project) db.members
    + count_where (is_open_invite now project phone) db.invites

unfoldable pub ensure_project_member_capacity : Env → String → String → Call Db Error (Unit {0})
ensure_project_member_capacity env project phone = do
  found ←
      query (env.up load_owner) failure
        (λ db. find_where (λ p. str_eq p.id project && not p.deleted) db.projects)
  row ← or_raise found failure
  state ← ensure_subscription env row.owner_id
  guard (in_force state.status) subscription_expired
  participant_count ←
      query (env.up count_participants) failure (participants env.db_clock project phone)
  guard (not (leb state.plan.max_invited_members participant_count)) member_plan_limit
