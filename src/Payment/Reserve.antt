-- ===== src/Payment/Reserve.antt =====
-- reserveSubscriptionCheckout, saveOBankInvoice, claimOBankStatusCheck and loadSubscriptionPaymentOrder.
use online_prorab.Common.{
  ℕ, ◌+◌, ◌*◌, String, Bool, true, false, not, ◌&&◌, ◌||◌, Option, none, some, List, [], ◌∷◌, ◌++◌,
  ltb, ◌==◌, str_eq, if◌then◌else◌, find_where, count_where, update_where,
}
use online_prorab.Common.Int.{pos}
use online_prorab.Common.Monad.{Call, ◌>>=◌, ◌>>◌, pure, guard, or_raise, query, exec, transaction}
use online_prorab.Subscription.{ensure_subscription}
use online_prorab.Database.{
  Db, Order, OrderStatus, Env, Error, failure, no_rows, checkout_exists, checkout_state, day, begin,
  commit, load_order, find_by_key, find_open, insert_order, random, update_order,
}
use online_prorab.Payment.{is_paid, is_canceled, is_open, is_open_order}
use online_prorab.Payment.Settle.{set_orders}

pub record Request : Type 0 where
  pub plan_id : String
  pub billing_period : String
  pub idempotency_key : String

abbrev pub has_key : String → String → Order → Bool
has_key user key o = str_eq o.user_id user && str_eq o.idempotency_key key

-- The condition of findOpenSubscriptionPayment.
abbrev pub is_recent_open : ℕ → String → Order → Bool
is_recent_open now user o =
    str_eq o.user_id user && is_open o.status && ltb now (o.created_at + day)

abbrev later : Order → Option Order → Order
later o none = o
later o (some p) = if ltb o.created_at p.created_at then p else o

-- ORDER BY created_at DESC LIMIT 1.
unfoldable pub latest_where : (Order → Bool) → List Order → Option Order
latest_where p [] = none
latest_where p (o ∷ os) = let rest = latest_where p os in if p o then some (later o rest) else rest

-- The order is not for what the request asks.
abbrev pub differs_from : Request → ℕ → Order → Bool
differs_from q price o =
    not (str_eq o.plan_id q.plan_id)
    || not (str_eq o.billing_period q.billing_period)
    || not (o.amount_kgs == price)

abbrev pub new_order : String → ℕ → String → Request → ℕ → Order
new_order order_id now user q price = record {
  order_id = order_id;
  user_id = user;
  idempotency_key = q.idempotency_key;
  plan_id = q.plan_id;
  billing_period = q.billing_period;
  amount_kgs = price;
  amount_kopecks = pos (price * 100);
  currency = "KGS";
  status = OrderStatus.pending;
  invoice_id = "";
  provider_transaction = "";
  payment_url = "";
  bank_app_link = "";
  status_checked_at = none;
  created_at = now;
  paid_at = none;
}

-- `order.CreatedAt.Before(time.Now().Add(-24h))`.
abbrev pub is_stale : ℕ → Order → Bool
is_stale now o = ltb (o.created_at + day) now

-- The order under the request's key.
abbrev pub reuse : Env → Request → ℕ → Order → Call Db Error Order
reuse env q price o = do
  guard (not (differs_from q price o)) checkout_state
  guard (not (is_canceled o.status || not (is_paid o.status) && is_stale env.clock o))
      checkout_state
  guard (env.up commit) failure
  pure o

-- The latest open order of the account.
abbrev pub resume : Env → Request → ℕ → Order → Call Db Error Order
resume env q price o = do
  guard (not (differs_from q price o)) checkout_exists
  guard (env.up commit) failure
  pure o

-- The INSERT stamps the row with the database's clock; the answer carries the program's.
abbrev pub create : Env → String → String → Request → ℕ → Call Db Error Order
create env fresh_id user q price = do
  guard (env.up random) failure
  exec (env.up insert_order) failure
      (set_orders (λ os. os ++ new_order fresh_id env.db_clock user q price ∷ []))
  guard (env.up commit) failure
  pure (new_order fresh_id env.clock user q price)

abbrev pub or_create : Env → String → String → Request → ℕ → Option Order → Call Db Error Order
or_create env fresh_id user q price (some o) = resume env q price o
or_create env fresh_id user q price none = create env fresh_id user q price

abbrev pub or_find_open : Env → String → String → Request → ℕ → Option Order → Call Db Error Order
or_find_open env fresh_id user q price (some o) = reuse env q price o
or_find_open env fresh_id user q price none = do
  open_order ←
      query (env.up find_open) failure
        (λ db. latest_where (is_recent_open env.db_clock user) db.orders)
  or_create env fresh_id user q price open_order

-- `fresh_id` is what newOBankOrderID draws.
unfoldable pub reserve_subscription_checkout :
    Env → String → String → Request → ℕ → Call Db Error Order
reserve_subscription_checkout env fresh_id user q price = transaction (do
  guard (env.up begin) failure
  state ← ensure_subscription env user
  found ←
      query (env.up find_by_key) failure
        (λ db. find_where (has_key user q.idempotency_key) db.orders)
  or_find_open env fresh_id user q price found)

-- What obank.CreateInvoice returns.
pub record Invoice : Type 0 where
  pub id : String
  pub payment_url : String
  pub app_link : String

unfoldable pub save_obank_invoice : Env → String → Invoice → Call Db Error (Unit {0})
save_obank_invoice env order_id invoice = do
  affected ←
      query (env.up update_order) failure (λ db. count_where (is_open_order order_id) db.orders)
  exec true failure (
      set_orders (
        update_where (is_open_order order_id) (λ o. record o {
          invoice_id = invoice.id;
          payment_url = invoice.payment_url;
          bank_app_link = invoice.app_link;
        })))
  guard (affected == 1) checkout_state

abbrev pub is_due : ℕ → Option ℕ → Bool
is_due now none = true
is_due now (some checked) = ltb (checked + 5000000000) now

abbrev pub is_claimable : ℕ → String → Order → Bool
is_claimable now order_id o = is_open_order order_id o && is_due now o.status_checked_at

unfoldable pub claim_obank_status_check : Env → String → Db → Bool × Db
claim_obank_status_check env order_id db =
    if env.up update_order
    then (
      count_where (is_claimable env.db_clock order_id) db.orders == 1,
      set_orders
          (update_where (is_claimable env.db_clock order_id)
            (λ o. record o { status_checked_at = some env.db_clock }))
          db,
    )
    else (false, db)

unfoldable pub load_subscription_payment_order : Env → String → String → Call Db Error Order
load_subscription_payment_order env user order_id = do
  found ←
      query (env.up load_order) failure
        (λ db. find_where (λ o. str_eq o.user_id user && str_eq o.order_id order_id) db.orders)
  or_raise found no_rows
