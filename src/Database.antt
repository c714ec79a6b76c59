-- ===== src/Database.antt =====
-- The PostgreSQL tables that the handlers of backend/internal/httpapi share
-- (backend/internal/database/migrations), with the columns that the code reads. Ids, tokens and
-- phones are text; a time is a number of nanoseconds.
use online_prorab.Common.{ℕ, String, Bool, Option, List}
use online_prorab.Common.Int.{ℤ}

-- The CHECK constraint of `account_subscriptions.status`.
pub data SubscriptionStatus : Type 0 where
  trialing active expired canceled past_due : SubscriptionStatus

-- The CHECK constraint of `subscription_payment_orders.status`.
pub data OrderStatus : Type 0 where
  pending processing paid canceled : OrderStatus

pub record User : Type 0 where
  pub id : String
  pub phone : String
  pub created_at : ℕ

pub record Subscription : Type 0 where
  pub user_id : String
  pub plan_code : String
  pub status : SubscriptionStatus
  pub billing_period : String
  pub started_at : ℕ
  pub trial_ends_at : ℕ
  pub current_period_end : Option ℕ

-- A row of `subscription_payment_orders`, and what `scanSubscriptionPayment` reads of it: a NULL
-- text is "", as COALESCE makes it.
pub record Order : Type 0 where
  pub order_id : String
  pub user_id : String
  pub idempotency_key : String
  pub plan_id : String
  pub billing_period : String
  pub amount_kgs : ℕ
  pub amount_kopecks : ℤ
  pub currency : String
  pub status : OrderStatus
  pub invoice_id : String
  pub provider_transaction : String
  pub payment_url : String
  pub bank_app_link : String
  pub status_checked_at : Option ℕ
  pub created_at : ℕ
  pub paid_at : Option ℕ

pub data ProjectStatus : Type 0 where
  active archived : ProjectStatus

pub record Project : Type 0 where
  pub id : String
  pub owner_id : String
  pub status : ProjectStatus
  pub deleted : Bool

pub record Member : Type 0 where
  pub project_id : String
  pub user_id : String
  pub role : String

pub record Invite : Type 0 where
  pub id : String
  pub project_id : String
  pub phone : String
  pub role : String
  pub token_hash : String
  pub expires_at : ℕ
  pub accepted : Bool
  pub revoked : Bool

pub record Db : Type 0 where
  pub users : List User
  pub subscriptions : List Subscription
  pub orders : List Order
  pub projects : List Project
  pub members : List Member
  pub invites : List Invite

-- The statements that the server may refuse, and the calls that may fail, one for each place in
-- the code; `file_store` stands for whether a store of files is configured.
pub data Statement : Type 0 where
  begin commit : Statement
  insert_trial load_subscription expire_subscription : Statement
  count_projects load_owner count_participants : Statement
  load_order activate_subscription update_order insert_order random : Statement
  find_by_key find_open : Statement
  load_phone load_user load_invite load_user_phone load_role : Statement
  insert_member close_invites insert_invite complete_invite : Statement
  update_member delete_member insert_project update_project : Statement
  insert_code delete_code invalidate_codes load_code record_attempt : Statement
  upsert_user load_invites consume_code find_user : Statement
  lock_user delete_files delete_user : Statement
  find_entry insert_entry update_entry delete_entry check_receipt : Statement
  find_file insert_file archive_covers delete_file queue_deletion : Statement
  detach_receipts insert_audit unqueue_deletion : Statement
  file_store delete_object requeue_deletion : Statement

-- What a call finds outside: which statements succeed, the clock of the program (`time.Now()`)
-- and that of the database (`now()`).
pub record Env : Type 0 where
  pub up : Statement → Bool
  pub clock : ℕ
  pub db_clock : ℕ

-- The errors that callers tell apart; `failure` is any other.
pub data Error : Type 0 where
  failure no_rows unknown_plan unknown_period : Error
  subscription_expired project_plan_limit member_plan_limit : Error
  checkout_exists checkout_state payment_missing payment_invalid : Error

abbrev pub day : ℕ
day = 86400000000000
