-- ===== src/Calendar.antt =====
-- addSubscriptionPeriod of backend/internal/httpapi/subscription_checkout.go, on the proleptic
-- Gregorian calendar of package time. A time is a number of nanoseconds from the Unix epoch, in UTC.
pub mod Periods
use online_prorab.Common.{
  ℕ, ◌+◌, ◌-◌, ◌*◌, ◌/◌, ◌%◌, String, Bool, ◌&&◌, ◌||◌, not, leb, ltb, ◌==◌, if◌then◌else◌, str_eq,
}
use online_prorab.Database.{day}

-- What `Date` and `Clock` give; `of_day` is the time of day in nanoseconds.
pub record Civil : Type 0 where
  pub year : ℕ
  pub month : ℕ
  pub day_of_month : ℕ
  pub of_day : ℕ

abbrev pub is_leap : ℕ → Bool
is_leap y = y % 4 == 0 && not (y % 100 == 0) || y % 400 == 0

-- `time.Date(y, m+1, 0, …).Day()`.
unfoldable pub last_day : ℕ → ℕ → ℕ
last_day y m =
    if m == 2
    then (if is_leap y then 29 else 28)
    else if m == 4 || m == 6 || m == 9 || m == 11
    then 30
    else 31

-- The calendar date of a day counted from 0000-03-01.
abbrev of_days : ℕ → ℕ → Civil
of_days z clock =
    let era = z / 146097 in
    let doe = z % 146097 in
    let yoe = (doe + doe / 36524 - doe / 1460 - doe / 146096) / 365 in
    let doy = doe + yoe / 100 - 365 * yoe - yoe / 4 in
    let mp = (5 * doy + 2) / 153 in
    let m = (if ltb mp 10 then mp + 3 else mp - 9) in
    record {
      year = yoe + era * 400 + (if leb m 2 then 1 else 0);
      month = m;
      day_of_month = doy + 1 - (153 * mp + 2) / 5;
      of_day = clock;
    }

unfoldable pub date : ℕ → Civil
date t = of_days (t / day + 719468) (t % day)

-- `time.Date`, for a date from 1970 on.
unfoldable pub make : Civil → ℕ
make c =
    let y = (if leb c.month 2 then c.year - 1 else c.year) in
    let mp = (if ltb 2 c.month then c.month - 3 else c.month + 9) in
    let doy = (153 * mp + 2) / 5 + c.day_of_month - 1 in
    let yoe = y % 400 in
    let doe = yoe * 365 + yoe / 4 + doy - yoe / 100 in
    (y / 400 * 146097 + doe - 719468) * day + c.of_day

abbrev clamp : ℕ → ℕ → ℕ
clamp d last = if ltb last d then last else d

-- The date that the period ends on.
unfoldable pub shift : Civil → String → Civil
shift start period =
    if str_eq period "year"
    then record start {
      year = start.year + 1;
      day_of_month = clamp start.day_of_month (last_day (start.year + 1) start.month);
    }
    else let wraps = ltb 12 (start.month + 1) in
      let target_month = (if wraps then 1 else start.month + 1) in
      let target_year = (if wraps then start.year + 1 else start.year) in
      record start {
        year = target_year;
        month = target_month;
        day_of_month = clamp start.day_of_month (last_day target_year target_month);
      }

unfoldable pub add_subscription_period : ℕ → String → ℕ
unfolding date make shift last_day
add_subscription_period start period = make (shift (date start) period)
