-- ===== src/Tests/Entries.antt =====
-- What members write down in a project, its files, and the keys of stored objects.
use online_prorab.Common.{
  ℕ, ◌≡◌, refl, ◌⊎◌, true, false, none, some, [], ◌∷◌, arith, ltb, ◌*◌, ◌/◌, find_where,
  count_where, not, ◌&&◌, if◌then◌else◌,
}
use online_prorab.Common.Int.{pos}
use online_prorab.Common.Order.{all_where}
use online_prorab.Database.{Db, Env, Project, ProjectStatus}
use online_prorab.Project.{has_project_permission, is_live}
use online_prorab.Entry.{Row, Task, CostItem, File, Books}
use online_prorab.Entry.Requests.{Float64, Today, is_iso_date, normalize_project_currency}
use online_prorab.Entry.Writes.{delete_file_metadata}
use online_prorab.Entry.Handlers.{Request, is_receipt_of, handle, create_task}
use online_prorab.Entry.Reach.{IsKeyed, IsLater, IsSame, is_linked}
use online_prorab.Entry.Authorized.{needed, handle_lem, archived_frozen}
use online_prorab.Entry.Admission.{Holds}
use online_prorab.Entry.Listing.{
  IsPrivate, list_tasks, list_cost_items, list_daily_reports, list_files, listings-IsPrivate,
}
use online_prorab.Entry.Detach.{AllOrNothing, delete_file_lem}
use online_prorab.Entry.Paths.{is_safe_storage_path, has_parent}
use online_prorab.Storage.Key.{clean_key, contains_rune, are_names, clean_key_lem}
use online_prorab.Text.Path.{
  split_slash, join_slash, clean, to_slash, rev_onto, resolve_all, append,
}
use online_prorab.Text.{trim_space, has_prefix, contains}
use online_prorab.Calendar.{last_day}

-- Whole numbers of cents in place of floats.
abbrev cents : Float64 ℕ
cents = record {
  nought = 0;
  hundred = 100;
  max_money_amount = 999999999999;
  less = ltb;
  is_nan = λ n. false;
  is_inf = λ n. false;
  times = λ a b. a * b;
  divided = λ a b. a / b;
  round = λ n. n;
}

leap_date : is_iso_date "2024-02-29" ≡ true
unfolding is_iso_date last_day
leap_date = refl

no_date : is_iso_date "2023-02-29" ≡ false
unfolding is_iso_date last_day
no_date = refl

upper_currency : normalize_project_currency " usd " ≡ some "USD"
unfolding normalize_project_currency trim_space
upper_currency = refl

abbrev today : Today
today = record { text = "2024-02-29"; is_date = leap_date }

abbrev env : Env
env = record { up = λ s. true; clock = 5; db_clock = 7 }

abbrev site : ProjectStatus → Project
site status = record { id = "p"; owner_id = "u"; status = status; deleted = false }

abbrev tables : ProjectStatus → Db
tables status = record {
  users = [];
  subscriptions = [];
  orders = [];
  projects = site status ∷ [];
  members = record { project_id = "p"; user_id = "u"; role = "owner" } ∷ [];
  invites = [];
}

abbrev receipt : Row File
receipt = record {
  id = "f";
  project_id = "p";
  created_by = "u";
  created_at = 1;
  deleted_at = none;
  body = record {
    kind = "receipt";
    original_name = "bill.pdf";
    storage_path = "p/2024/bill.pdf";
    content_type = "application/pdf";
    size_bytes = pos 10;
  };
}

abbrev bricks : Row (CostItem ℕ)
bricks = record {
  id = "c";
  project_id = "p";
  created_by = "u";
  created_at = 2;
  deleted_at = none;
  body = record {
    title = "bricks";
    description = "";
    category = "other";
    amount = 100;
    currency = "KGS";
    vendor = "";
    receipt_file_id = "f";
    spent_at = "2024-02-28";
  };
}

abbrev books : ProjectStatus → Books ℕ
books status = record {
  db = tables status;
  tasks = [];
  cost_items = bricks ∷ [];
  daily_reports = [];
  files = receipt ∷ [];
  deletions = [];
}

-- What another member adds between the checks and the write.
abbrev painting : Row Task
painting = record {
  id = "t0";
  project_id = "p";
  created_by = "v";
  created_at = 6;
  deleted_at = none;
  body = record { title = "paint"; description = ""; status = "todo"; due_date = "" };
}

abbrev books_later : ProjectStatus → Books ℕ
books_later status = record (books status) { tasks = painting ∷ [] }

later : (status : ProjectStatus) → IsLater (books status) (books_later status)
unfolding find_where
later status = record {
  of_tasks = λ id r r' e f. absurd (ground arith);
  of_cost_items = λ id r r' e f. ground arith;
  of_reports = λ id r r' e f. absurd (ground arith);
  of_files = λ id r r' e f. ground arith;
}

abbrev asked : Request ℕ
asked = create_task "t" (record {
  project_id = "p";
  task = record { title = "dig"; description = ""; status = ""; due_date = "2024-03-01" };
})

keyed : (status : ProjectStatus) → IsKeyed (books_later status)
unfolding count_where
keyed status = record {
  of_tasks = λ id. ground arith;
  of_cost_items = λ id. ground arith;
  of_reports = λ id. omega arith;
  of_files = λ id. ground arith;
}

linked :
    (status : ProjectStatus)
    → all_where (is_linked (books_later status).files) (books_later status).cost_items ≡ true
unfolding all_where find_where is_receipt_of
linked status = refl

handle_lem_example :
    (has_project_permission env "u" "p" (needed asked) (tables ProjectStatus.active) ≡ true)
    ⊎ IsSame "p"
        (books_later ProjectStatus.active)
        (handle cents today env env "u" asked
          (books ProjectStatus.active)
          (books_later ProjectStatus.active)).1
handle_lem_example =
    handle_lem cents today env "u" "p" (books ProjectStatus.active)
      (books_later ProjectStatus.active) (later ProjectStatus.active) (keyed ProjectStatus.active)
      (linked ProjectStatus.active) env asked

archived_site :
    find_where (is_live "p") (tables ProjectStatus.archived).projects
    ≡ some (site ProjectStatus.archived)
unfolding find_where
archived_site = refl

archived_frozen_example :
    IsSame "p"
      (books_later ProjectStatus.archived)
      (handle cents today env env "u" asked
        (books ProjectStatus.archived)
        (books_later ProjectStatus.archived)).1
archived_frozen_example =
    archived_frozen cents today env "u" "p" (books ProjectStatus.archived)
      (books_later ProjectStatus.archived) (later ProjectStatus.archived)
      (keyed ProjectStatus.archived) (linked ProjectStatus.archived) env asked
      (site ProjectStatus.archived) archived_site refl

delete_file_lem_example :
    AllOrNothing env "f" "p/2024/bill.pdf"
      (books ProjectStatus.active)
      (delete_file_metadata env "f" "p/2024/bill.pdf" (books ProjectStatus.active))
delete_file_lem_example = delete_file_lem env "f" "p/2024/bill.pdf" (books ProjectStatus.active)

listings-IsPrivate_example :
    Holds
      (IsPrivate env "u" (trim_space "p") (tables ProjectStatus.archived))
      (list_tasks env "u" "p" (books ProjectStatus.archived))
    × Holds
        (IsPrivate env "u" "p" (tables ProjectStatus.archived))
        (list_cost_items env "u" "p" (books ProjectStatus.archived))
    × Holds
        (IsPrivate env "u" (trim_space "p") (tables ProjectStatus.archived))
        (list_daily_reports env "u" "p" (books ProjectStatus.archived))
    × Holds
        (IsPrivate env "u" (trim_space "p") (tables ProjectStatus.archived))
        (list_files env "u" "p" (books ProjectStatus.archived))
listings-IsPrivate_example = listings-IsPrivate env "u" "p" (books ProjectStatus.archived)

key_accepted : clean_key "p/2024/a.pdf" ≡ some "p/2024/a.pdf"
unfolding clean_key contains_rune clean are_names split_slash join_slash append resolve_all rev_onto
key_accepted = refl

clean_key_lem_example : clean_key "p/2024/a.pdf" ≡ (
    if are_names (split_slash "p/2024/a.pdf")
      && not (contains_rune 0 "p/2024/a.pdf")
      && not (contains_rune b'\\' "p/2024/a.pdf")
    then some "p/2024/a.pdf"
    else none)
clean_key_lem_example = clean_key_lem "p/2024/a.pdf"

-- A path that is safe in isSafeStoragePath and is no key.
safe_but_no_key : (is_safe_storage_path "a//b" ≡ true) × (clean_key "a//b" ≡ none)
unfolding is_safe_storage_path clean_key to_slash trim_space has_parent split_slash clean join_slash
    rev_onto resolve_all append has_prefix contains contains_rune
safe_but_no_key = (refl, refl)
