-- ===== src/Tests/Subscriptions.antt =====
-- Prices, periods and the standing of an account.
use online_prorab.Common.{◌≡◌, refl, true, arith, find_where, ◌+◌}
use online_prorab.Common.Monad.{ok}
use online_prorab.Calendar.{Civil, last_day, shift, add_subscription_period}
use online_prorab.Calendar.Periods.{IsValid, shift_lem, months_of, months, twelve_months}
use online_prorab.Subscription.{plan_by_code, add_trial, ensure_subscription}
use online_prorab.Subscription.Standing.{ensure_current, has_time}
use online_prorab.Tests.Samples.{env, db, aida_state}

abbrev leap_day : Civil
leap_day = record { year = 2024; month = 2; day_of_month = 29; of_day = 0 }

abbrev mid_month : Civil
mid_month = record { year = 2023; month = 12; day_of_month = 15; of_day = 7 }

-- January 31 plus a month is February 29.
end_of_january : add_subscription_period 1706659200000000000 "month" ≡ 1709164800000000000
unfolding add_subscription_period
end_of_january = refl

leap_day-IsValid : IsValid leap_day
unfolding last_day
leap_day-IsValid = omega arith

mid_month-IsValid : IsValid mid_month
unfolding last_day
mid_month-IsValid = omega arith

shift_lem_example : months_of (shift leap_day "month") ≡ months_of leap_day + 1
shift_lem_example = (shift_lem leap_day leap_day-IsValid).0

twelve_months_example : months 12 mid_month ≡ shift mid_month "year"
twelve_months_example = twelve_months mid_month mid_month-IsValid (omega arith)

aida_ensured : ensure_subscription env "aida" db ≡ (ok aida_state, db)
unfolding ensure_subscription add_trial plan_by_code find_where
aida_ensured = refl

ensure_current_example : has_time env.clock aida_state.status aida_state ≡ true
ensure_current_example = ensure_current env "aida" db db aida_state aida_ensured refl
