-- ===== src/Subscription/Standing.antt =====
-- What ensureSubscription reports and stores.
use online_prorab.Common.{
  ℕ, String, ◌≡◌, refl, Bool, true, false, some, arith, find_where, find_where-update_where,
  find_where_holds, ltb, not, Option-cases, inl, inr, if◌then◌else◌,
}
use online_prorab.Common.Monad.{Result, ok}
use online_prorab.Database.{Db, Subscription, SubscriptionStatus, Env, Error}
use online_prorab.Subscription.{
  State, plan_by_code, add_trial, ensure_subscription, in_force, has_user, has_expired, is_over,
}

-- A trial that has not ended, or a paid period that has no end or a later one.
abbrev pub has_time : ℕ → SubscriptionStatus → State → Bool
has_time now SubscriptionStatus.trialing s = ltb now s.trial_ends_at
has_time now SubscriptionStatus.active s = not (is_over now s.current_period_end)
has_time now _ s = false

-- An account that ensureSubscription reports in force has time left: a trial that has not ended, or
-- a paid period that has no end or a later one.
pub ensure_current :
    (env : Env) (user : String) (db db' : Db) (s : State)
    → ensure_subscription env user db ≡ (ok s, db')
    → in_force s.status ≡ true
    → has_time env.clock s.status s ≡ true
unfolding ensure_subscription
ensure_current env user db db' s h force = ground arith

-- What ensureSubscription reports is what the table then holds: the account has a row with the
-- reported status, period end and plan.
pub ensure_stored :
    (env : Env) (user : String) (db db' : Db) (s : State)
    → ensure_subscription env user db ≡ (ok s, db')
    → (row : Subscription) × (find_where (has_user user) db'.subscriptions ≡ some row)
      × (row.status ≡ s.status)
      × (row.current_period_end ≡ s.current_period_end)
      × (plan_by_code row.plan_code ≡ some s.plan)
unfolding ensure_subscription
ensure_stored env user db db' s h =
    elim (Option-cases (find_where (has_user user) (add_trial user db).subscriptions)) [
      | inl e ↦ absurd (ground arith)
      | inr (row, e) ↦ (
        if has_expired env.clock row
            then record row { status = SubscriptionStatus.expired }
            else row,
        ground (
          arith,
          find_where_holds (has_user user) (add_trial user db).subscriptions row e,
          find_where-update_where (has_user user) (has_user user)
              (λ r. record r { status = SubscriptionStatus.expired })
              (add_trial user db).subscriptions (λ r. refl),
        ),
        ground arith,
        ground arith,
        ground arith,
      )
    ]

-- Creating the trial row touches no other table.
add_trial_frame :
    (user : String) (db : Db)
    → add_trial user db ≡ record db { subscriptions = (add_trial user db).subscriptions }
unfolding add_trial
add_trial_frame user db = ground arith

-- Whatever the outcome, nothing but the subscriptions is written.
pub ensure_frame :
    (env : Env) (user : String) (db db' : Db) (r : Result Error State)
    → ensure_subscription env user db ≡ (r, db')
    → db' ≡ record db { subscriptions = db'.subscriptions }
unfolding ensure_subscription
ensure_frame env user db db' r h = ground (arith, add_trial_frame user db)
