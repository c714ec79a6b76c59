-- ===== src/Payment/Handlers.antt =====
-- The three handlers: SubscriptionCheckout, getSubscriptionCheckout and OBankResult. The answers of
-- the bank (obank.CreateInvoice, obank.GetStatus, obank.VerifyResult) are arguments. A handler makes
-- several rounds of statements, each with an environment of its own.
use Prim.Native.String.{len}
use online_prorab.Common.{
  ℕ, ◌/◌, String, Bool, not, ◌&&◌, ◌||◌, Option, none, some, ltb, ◌==◌, str_eq, if◌then◌else◌,
}
use online_prorab.Common.Int.{ℤ, eq_ℤ}
use online_prorab.Common.Monad.{Result, ok, err}
use online_prorab.Text.{trim_space}
use online_prorab.Subscription.{Plan, Pricing, plan_by_code, plan_price}
use online_prorab.Database.{
  Db, Order, OrderStatus, Env, Error, checkout_exists, checkout_state, payment_missing,
  payment_invalid, no_rows,
}
use online_prorab.Payment.{
  Config, Incoming, production_obank_sandbox_mode, configured_obank_test_flag, safe_idempotency_key,
  is_paid, is_canceled, is_open,
}
use online_prorab.Payment.Settle.{
  is_allowed_production_obank_test_user, apply_obank_result, mark_subscription_payment_paid,
  update_subscription_payment_status,
}
use online_prorab.Payment.Reserve.{
  Request, Invoice, reserve_subscription_checkout, save_obank_invoice, claim_obank_status_check,
  load_subscription_payment_order,
}

-- `writeCheckoutResponse`.
pub record CheckoutResponse : Type 0 where
  pub order_id : String
  pub status : OrderStatus
  pub plan_id : String
  pub billing_period : String
  pub amount_kgs : ℕ
  pub currency : String
  pub payment_url : String
  pub app_link : String
  pub created_at : ℕ
  pub paid_at : Option ℕ

unfoldable pub checkout_response : Order → CheckoutResponse
checkout_response o = record {
  order_id = o.order_id;
  status = o.status;
  plan_id = o.plan_id;
  billing_period = o.billing_period;
  amount_kgs = o.amount_kgs;
  currency = o.currency;
  payment_url = o.payment_url;
  app_link = if is_open o.status then o.bank_app_link else "";
  created_at = o.created_at;
  paid_at = o.paid_at;
}

-- An error with its HTTP status, an order, or the bare `{"ok": true}`.
pub data Reply : Type 0 where
  refused : ℕ → Reply
  order_reply : ℕ → CheckoutResponse → Reply
  done : ℕ → Reply

pub record Server : Type 0 where
  pub config : Config
  pub pricing : Pricing
  pub has_db : Bool

-- `math.MaxInt64`.
abbrev pub max_int64 : ℕ
max_int64 = 9223372036854775807

abbrev pub trimmed : Request → Request
trimmed q = record {
  plan_id = trim_space q.plan_id;
  billing_period = trim_space q.billing_period;
  idempotency_key = trim_space q.idempotency_key;
}

abbrev pub bad_key : String → Bool
bad_key key = ltb (len key) 16 || ltb 64 (len key) || not (safe_idempotency_key key)

abbrev sandbox_refuses : Config → Plan → String → Bool
sandbox_refuses c plan period =
    production_obank_sandbox_mode c
    && (not (str_eq plan.id "standard") || not (str_eq period "month"))

abbrev priced : Server → ℕ → Option ℕ
priced s price =
    if price == 0 || ltb (max_int64 / 100) price
    then none
    else some (if production_obank_sandbox_mode s.config then s.config.test_price_kgs else price)

abbrev price_of_plan : Server → Request → Option Plan → Option ℕ
price_of_plan s q none = none
price_of_plan s q (some plan) =
    if str_eq plan.id "trial" || sandbox_refuses s.config plan q.billing_period
    then none
    else elim (plan_price s.pricing plan q.billing_period) [ none ↦ none | some n ↦ priced s n ]

-- The price that an order is reserved at; `none` is one of the refusals with status 400.
unfoldable pub checkout_price : Server → Request → Option ℕ
checkout_price s q =
    if bad_key q.idempotency_key then none else price_of_plan s q (plan_by_code q.plan_id)

-- The statuses of the errors of reserveSubscriptionCheckout.
abbrev reservation_status : Error → ℕ
reservation_status checkout_exists = 409
reservation_status checkout_state = 409
reservation_status _ = 500

-- Asks the bank for an invoice where the order has no payment link yet.
unfoldable pub invoiced : Env → (Order → Option Invoice) → Order → Db → Reply × Db
invoiced env bank o db =
    if not (str_eq o.payment_url "")
    then (order_reply 201 (checkout_response o), db)
    else elim (bank o) [
      | none ↦ (refused 502, db)
      | some invoice ↦
          let (r, db') = save_obank_invoice env o.order_id invoice db in
          elim r [
            | err e ↦ (refused 503, db')
            | ok u ↦ (
              order_reply 201 (
                  checkout_response (record o {
                    invoice_id = invoice.id;
                    payment_url = invoice.payment_url;
                    bank_app_link = invoice.app_link;
                  })),
              db',
            )
          ]
    ]

abbrev reserved : Env → (Order → Option Invoice) → Result Error Order × Db → Reply × Db
reserved env bank (err e, db) = (refused (reservation_status e), db)
reserved env bank (ok o, db) =
    if is_paid o.status
    then (order_reply 200 (checkout_response o), db)
    else if is_canceled o.status
    then (refused 409, db)
    else invoiced env bank o db

abbrev start_at :
    Server
    → Env
    → Env
    → (Order → Option Invoice)
    → String
    → String
    → Request
    → Option ℕ
    → Db
    → Reply × Db
start_at s env env' bank fresh_id user q none db = (refused 400, db)
start_at s env env' bank fresh_id user q (some price) db =
    reserved env' bank (reserve_subscription_checkout env fresh_id user q price db)

abbrev start :
    Server
    → Env
    → Env
    → (Order → Option Invoice)
    → String
    → String
    → Option Request
    → Db
    → Reply × Db
start s env env' bank fresh_id user none db = (refused 400, db)
start s env env' bank fresh_id user (some q) db =
    start_at s env env' bank fresh_id user (trimmed q) (checkout_price s (trimmed q)) db

-- The POST of SubscriptionCheckout. `body` is the decoded request, `none` where decoding fails.
unfoldable pub subscription_checkout :
    Server
    → Env
    → Env
    → (Order → Option Invoice)
    → String
    → String
    → Option Request
    → Db
    → Reply × Db
subscription_checkout s env env' bank fresh_id user body db =
    if not s.config.enabled || not s.has_db
    then (refused 503, db)
    else if not (is_allowed_production_obank_test_user s.config env db user)
    then (refused 403, db)
    else start s env env' bank fresh_id user body db

-- obank.PaymentStatus.
pub record PaymentStatus : Type 0 where
  pub status : String
  pub transaction_id : String
  pub amount_kopecks : ℤ

-- The `switch` on the status that the bank reports.
unfoldable pub reconcile : Server → Env → Order → PaymentStatus → Db → Db
reconcile s env o p db =
    if str_eq p.status "approved"
    then (if eq_ℤ p.amount_kopecks o.amount_kopecks && not (str_eq p.transaction_id "")
        then (mark_subscription_payment_paid s.config env o.order_id p.transaction_id
            p.amount_kopecks o.invoice_id db).1
        else db)
    else if str_eq p.status "processing"
    then (update_subscription_payment_status env o.order_id OrderStatus.processing db).1
    else if str_eq p.status "canceled" || str_eq p.status "cancelled"
    then (update_subscription_payment_status env o.order_id OrderStatus.canceled db).1
    else db

abbrev reconcile_answer : Server → Env → Order → Option PaymentStatus → Db → Db
reconcile_answer s env o none db = db
reconcile_answer s env o (some p) db = reconcile s env o p db

-- Asks the bank about an open order that has an invoice, at most once in five seconds.
unfoldable pub check_status : Server → Env → Env → (Order → Option PaymentStatus) → Order → Db → Db
check_status s env env' bank o db =
    if is_open o.status && not (str_eq o.invoice_id "")
    then (let (claimed, db') = claim_obank_status_check env o.order_id db in
        if claimed then reconcile_answer s env' o (bank o) db' else db')
    else db

abbrev load_status : Error → ℕ
load_status no_rows = 404
load_status _ = 503

abbrev reloaded : Result Error Order × Db → Reply × Db
reloaded (err e, db) = (refused 503, db)
reloaded (ok o, db) = (order_reply 200 (checkout_response o), db)

unfoldable pub get_subscription_checkout :
    Server
    → Env
    → Env
    → Env
    → Env
    → (Order → Option PaymentStatus)
    → String
    → String
    → Db
    → Reply × Db
get_subscription_checkout s env₁ env₂ env₃ env₄ bank user order_id db =
    if not s.config.enabled || not s.has_db
    then (refused 503, db)
    else if not (is_allowed_production_obank_test_user s.config env₁ db user)
    then (refused 403, db)
    else if str_eq (trim_space order_id) "" || ltb 64 (len (trim_space order_id))
    then (refused 400, db)
    else (let (r, db') = load_subscription_payment_order env₁ user (trim_space order_id) db in
        elim r [
          | err e ↦ (refused (load_status e), db')
          | ok o ↦ reloaded (
              load_subscription_payment_order env₄ user (trim_space order_id)
                (check_status s env₂ env₃ bank o db'))
        ])

-- The statuses of the errors of applyOBankResult.
abbrev settlement_status : Error → ℕ
settlement_status payment_missing = 404
settlement_status payment_invalid = 422
settlement_status _ = 503

abbrev settled : Result Error (Unit {0}) × Db → Reply × Db
settled (ok u, db) = (done 200, db)
settled (err e, db) = (refused (settlement_status e), db)

-- The POST of OBankResult, after the body is read; `verified` is what obank.VerifyResult returns.
unfoldable pub obank_result : Server → Env → Option Incoming → Db → Reply × Db
obank_result s env verified db =
    if not s.config.enabled || str_eq s.config.password "" || not s.has_db
    then (refused 503, db)
    else elim verified [
      | none ↦ (refused 401, db)
      | some r ↦
          if not (str_eq r.site_id s.config.sid)
            || not (eq_ℤ r.test (configured_obank_test_flag s.config))
          then (refused 401, db)
          else settled (apply_obank_result s.config env r db)
    ]
