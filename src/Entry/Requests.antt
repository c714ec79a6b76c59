-- ===== src/Entry/Requests.antt =====
-- What the handlers ask of a request: normalizeTaskRequest, normalizeCostItemRequest,
-- normalizeDailyReportRequest and normalizeFileRequest, with normalizeISODate, validateMoneyAmount and
-- normalizeProjectCurrency of projects.go.
use Prim.Native.Char.{code}
use online_prorab.Common.{
  ℕ, ◌+◌, ◌*◌, ◌-◌, ◌≡◌, String, Bool, true, false, not, ◌&&◌, ◌||◌, Option, none, some, List, [],
  ◌∷◌, leb, ◌==◌, str_eq, if◌then◌else◌,
}
use online_prorab.Common.Int.{ℤ, pos, negsuc}
use online_prorab.Text.{trim_space}
use online_prorab.Calendar.{last_day}
use online_prorab.Entry.{Task, CostItem, DailyReport, File}

abbrev codes : String → List ℕ
codes String.[] = []
codes (String.◌∷◌ c s) = code c ∷ codes s

abbrev is_digit : ℕ → Bool
is_digit c = leb b'0' c && leb c b'9'

abbrev digits : List ℕ → Bool
digits [] = true
digits (c ∷ cs) = is_digit c && digits cs

abbrev number : ℕ → List ℕ → ℕ
number n [] = n
number n (c ∷ cs) = number (n * 10 + (c - b'0')) cs

abbrev is_day : (year month day : ℕ) → Bool
is_day year month day = leb 1 month && leb month 12 && leb 1 day && leb day (last_day year month)

abbrev date_shaped : List ℕ → Bool
date_shaped (a ∷ b ∷ c ∷ d ∷ e ∷ f ∷ g ∷ h ∷ i ∷ j ∷ []) =
    digits (a ∷ b ∷ c ∷ d ∷ f ∷ g ∷ i ∷ j ∷ [])
    && e == b'-'
    && h == b'-'
    && is_day (number 0 (a ∷ b ∷ c ∷ d ∷ [])) (number 0 (f ∷ g ∷ [])) (number 0 (i ∷ j ∷ []))
date_shaped _ = false

-- `time.Parse("2006-01-02", value)` succeeds.
unfoldable pub is_iso_date : String → Bool
is_iso_date value = date_shaped (codes value)

-- What `time.Now().Format("2006-01-02")` gives.
pub record Today : Type 0 where
  pub text : String
  pub is_date : is_iso_date text ≡ true

-- `today` is given where the fallback is on.
unfoldable pub normalize_iso_date : Option Today → String → Option String
normalize_iso_date today raw =
    let value = trim_space raw in
    if str_eq value ""
    then some (elim today [ none ↦ "" | some t ↦ t.text ])
    else if is_iso_date value
    then some value
    else none

-- The operations and constants of float64 that validateMoneyAmount uses; `less` is `<`.
pub record Float64 (W : Type 0) : Type 0 where
  pub nought : W
  pub hundred : W
  pub max_money_amount : W
  pub less : W → W → Bool
  pub is_nan : W → Bool
  pub is_inf : W → Bool
  pub times : W → W → W
  pub divided : W → W → W
  pub round : W → W

unfoldable pub validate_money_amount : {W : Type 0} → Float64 W → W → Bool
validate_money_amount fl value =
    not (
      fl.less value fl.nought
      || fl.is_nan value
      || fl.is_inf value
      || fl.less fl.max_money_amount value)
    && not
        (fl.less fl.max_money_amount (fl.divided (fl.round (fl.times value fl.hundred)) fl.hundred))

-- The code point of `unicode.ToUpper` where that is an ASCII letter; any other is left alone.
abbrev upper : ℕ → ℕ
upper c =
    if leb b'a' c && leb c b'z'
    then c - 32
    else if c == 0x131
    then b'I'
    else if c == 0x17F
    then b'S'
    else c

abbrev upper_is : List ℕ → List ℕ → Bool
upper_is [] [] = true
upper_is (c ∷ cs) (d ∷ ds) = upper c == d && upper_is cs ds
upper_is _ _ = false

-- `strings.ToUpper(strings.TrimSpace(raw))`, where it is one of the three currencies.
unfoldable pub normalize_project_currency : String → Option String
normalize_project_currency raw =
    let currency = codes (trim_space raw) in
    if str_eq (trim_space raw) ""
    then some "KGS"
    else if upper_is currency (codes "KGS")
    then some "KGS"
    else if upper_is currency (codes "USD")
    then some "USD"
    else if upper_is currency (codes "KZT")
    then some "KZT"
    else none

pub record TaskRequest : Type 0 where
  pub project_id : String
  pub task : Task

pub record CostRequest (W : Type 0) : Type 0 where
  pub project_id : String
  pub cost_item : CostItem W

pub record ReportRequest : Type 0 where
  pub project_id : String
  pub report : DailyReport

pub record FileRequest : Type 0 where
  pub project_id : String
  pub file : File

abbrev or_default : String → String → String
or_default value fallback = if str_eq value "" then fallback else value

unfoldable pub is_valid_task_status : String → Bool
is_valid_task_status s =
    str_eq s "open" || str_eq s "in_progress" || str_eq s "done" || str_eq s "cancelled"

unfoldable pub normalize_task_request : TaskRequest → Option TaskRequest
normalize_task_request q = elim (normalize_iso_date none q.task.due_date) [
  | none ↦ none
  | some date ↦ some (record {
    project_id = trim_space q.project_id;
    task = record {
      title = trim_space q.task.title;
      description = trim_space q.task.description;
      status = or_default (trim_space q.task.status) "open";
      due_date = date;
    };
  })
]

module _ {W : Type 0} (fl : Float64 W) where
  -- normalizeCostItemRequestWithDateFallback.
  unfoldable pub normalize_cost_item_request : Option Today → CostRequest W → Option (CostRequest W)
  normalize_cost_item_request today q = elim (normalize_project_currency q.cost_item.currency) [
    | none ↦ none
    | some currency ↦
        if not (validate_money_amount fl q.cost_item.amount)
        then none
        else elim (normalize_iso_date today q.cost_item.spent_at) [
          | none ↦ none
          | some date ↦ some (record {
            project_id = trim_space q.project_id;
            cost_item = record {
              title = trim_space q.cost_item.title;
              description = trim_space q.cost_item.description;
              category = or_default (trim_space q.cost_item.category) "other";
              amount = q.cost_item.amount;
              currency = currency;
              vendor = trim_space q.cost_item.vendor;
              receipt_file_id = trim_space q.cost_item.receipt_file_id;
              spent_at = date;
            };
          })
        ]
  ]

-- normalizeDailyReportRequestWithDateFallback.
unfoldable pub normalize_daily_report_request : Option Today → ReportRequest → Option ReportRequest
normalize_daily_report_request today q = elim (normalize_iso_date today q.report.report_date) [
  | none ↦ none
  | some date ↦ some (record {
    project_id = trim_space q.project_id;
    report = record {
      report_date = date;
      summary = trim_space q.report.summary;
      workers_count = q.report.workers_count;
      issues = trim_space q.report.issues;
    };
  })
]

abbrev pub max_workers_count : ℕ
max_workers_count = 2147483647

unfoldable pub is_valid_workers_count : ℤ → Bool
is_valid_workers_count (pos n) = leb n max_workers_count
is_valid_workers_count (negsuc n) = false

unfoldable pub is_valid_file_kind : String → Bool
is_valid_file_kind kind =
    str_eq kind "receipt"
    || str_eq kind "photo"
    || str_eq kind "document"
    || str_eq kind "project_cover"

unfoldable pub is_allowed_project_cover_type : String → Bool
is_allowed_project_cover_type t =
    str_eq t "image/jpeg" || str_eq t "image/png" || str_eq t "image/webp"

unfoldable pub is_allowed_file_type : String → Bool
is_allowed_file_type t =
    str_eq t "image/jpeg"
    || str_eq t "image/png"
    || str_eq t "image/webp"
    || str_eq t "application/pdf"
