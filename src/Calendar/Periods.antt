-- ===== src/Calendar/Periods.antt =====
-- Where a billing period ends.
use online_prorab.Common.{ℕ, min, zero, suc, ◌+◌, ◌*◌, ◌≤◌, String, ◌≡◌, arith}
use online_prorab.Calendar.{Civil, last_day, shift}

pub record IsValid (c : Civil) : Type 0 where
  pub month_from : 1 ≤ c.month
  pub month_to : c.month ≤ 12
  pub day_from : 1 ≤ c.day_of_month
  pub day_to : c.day_of_month ≤ last_day c.year c.month

pub last_day_bounds : (y m : ℕ) → (28 ≤ last_day y m) × (last_day y m ≤ 31)
unfolding last_day
last_day_bounds y m = ground arith

-- A date of the calendar plus a billing period is a date of the calendar: the day never lies beyond
-- the end of the target month.
pub shift-IsValid : (c : Civil) (period : String) → IsValid c → IsValid (shift c period)
unfolding shift
shift-IsValid c period v = ground (
  arith,
  last_day_bounds (c.year + 1) c.month,
  last_day_bounds c.year (c.month + 1),
  last_day_bounds (c.year + 1) 1,
)

abbrev pub months_of : Civil → ℕ
months_of c = c.year * 12 + c.month

-- From a valid date, a month moves one calendar month on, a year twelve; the time of day stays, and
-- the day of the month is the old one or, if that is earlier, the last of the target month.
pub shift_lem :
    (c : Civil)
    → IsValid c
    → (months_of (shift c "month") ≡ months_of c + 1)
      × (months_of (shift c "year") ≡ months_of c + 12)
      × ((shift c "month").day_of_month
          ≡ min c.day_of_month (last_day (shift c "month").year (shift c "month").month))
      × ((shift c "year").day_of_month
          ≡ min c.day_of_month (last_day (shift c "year").year (shift c "year").month))
      × ((shift c "month").of_day ≡ c.of_day)
      × ((shift c "year").of_day ≡ c.of_day)
unfolding shift
shift_lem c v = ground (
  arith,
  last_day_bounds c.year (c.month + 1),
  last_day_bounds (c.year + 1) 1,
  last_day_bounds (c.year + 1) c.month,
)

-- A date that every month has stays on its day.
pub months : ℕ → Civil → Civil
months zero c = c
months (suc n) c = months n (shift c "month")

record Steps (n : ℕ) (c d : Civil) : Type 0 where
  moved : months_of d ≡ months_of c + n
  same_day : d.day_of_month ≡ c.day_of_month
  same_time : d.of_day ≡ c.of_day
  valid : IsValid d

months-Steps : (n : ℕ) (c : Civil) → IsValid c → c.day_of_month ≤ 28 → Steps n c (months n c)
unfolding months
months-Steps zero c v h = ground arith
months-Steps (suc n) c v h =
    let next = shift_lem c v in
    let last = last_day_bounds (shift c "month").year (shift c "month").month in
    let kept : (shift c "month").day_of_month ≡ c.day_of_month = omega arith in
    let ih = months-Steps n (shift c "month") (shift-IsValid c "month" v) (omega arith) in
    record {
      moved = omega (arith, ih.moved);
      same_day = omega (arith, ih.same_day);
      same_time = omega (arith, ih.same_time);
      valid = ih.valid;
    }

Civil-eq :
    (c d : Civil)
    → c.year ≡ d.year
    → c.month ≡ d.month
    → c.day_of_month ≡ d.day_of_month
    → c.of_day ≡ d.of_day
    → c ≡ d
Civil-eq c d y m e t = ground arith

-- Twelve monthly periods one after another end on the day that one annual period does, if they start
-- on one of the first 28 days of a month.
pub twelve_months : (c : Civil) → IsValid c → c.day_of_month ≤ 28 → months 12 c ≡ shift c "year"
twelve_months c v h =
    let steps = months-Steps 12 c v h in
    let year = shift_lem c v in
    let valid = shift-IsValid c "year" v in
    let last = last_day_bounds (shift c "year").year (shift c "year").month in
    Civil-eq (months 12 c) (shift c "year") (omega (arith, steps.moved, steps.valid, valid))
      (omega (arith, steps.moved, steps.valid, valid)) (omega (arith, steps.same_day))
      (omega (arith, steps.same_time))
