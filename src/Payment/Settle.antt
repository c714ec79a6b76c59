-- ===== src/Payment/Settle.antt =====
-- applyOBankResult and what it calls, and the two other ways an order changes its status.
use online_prorab.Common.{
  ℕ, String, Bool, true, false, not, ◌&&◌, ◌||◌, Option, none, some, List, ltb, ◌==◌, str_eq,
  if◌then◌else◌, find_where, count_where, update_where,
}
use online_prorab.Common.Int.{ℤ, pos, eq_ℤ, is_nonpositive}
use online_prorab.Common.Monad.{
  Call, ◌>>=◌, ◌>>◌, raise, guard, or_raise, branch, query, exec, transaction,
}
use online_prorab.Text.{normalize_phone}
use online_prorab.Calendar.{add_subscription_period}
use online_prorab.Subscription.{State, ensure_subscription, has_user, is_active}
use online_prorab.Database.{
  Db, Subscription, SubscriptionStatus, Order, OrderStatus, Env, Error, failure, checkout_state,
  payment_missing, payment_invalid, begin, commit, load_phone, load_order, activate_subscription,
  update_order,
}
use online_prorab.Payment.{
  Config, Incoming, production_obank_sandbox_mode, configured_obank_test_flag, is_paid, is_canceled,
  is_processing, is_order, is_open_order, keep_or,
}

-- `isAllowedProductionOBankTestUser`, where a database is configured.
unfoldable pub is_allowed_production_obank_test_user : Config → Env → Db → String → Bool
is_allowed_production_obank_test_user c env db user =
    if not (production_obank_sandbox_mode c)
    then true
    else if str_eq user "" || str_eq c.test_only_phone ""
    then false
    else elim (find_where (λ u. str_eq u.id user) db.users) [
      | none ↦ false
      | some u ↦ env.up load_phone && str_eq (normalize_phone u.phone) c.test_only_phone
    ]

-- The first test of applyOBankResult.
unfoldable pub is_malformed : Incoming → Bool
is_malformed r =
    str_eq r.order_id ""
    || str_eq r.transaction_id ""
    || is_nonpositive r.amount_kopecks
    || not (str_eq r.currency "KGS")

unfoldable pub mismatches : Incoming → Order → Bool
mismatches r order =
    not (eq_ℤ r.amount_kopecks order.amount_kopecks)
    || not (str_eq r.currency order.currency)
    || not (str_eq r.invoice_id "")
      && not (str_eq order.invoice_id "")
      && not (str_eq r.invoice_id order.invoice_id)

abbrev pub other_transaction : Incoming → Order → Bool
other_transaction r order =
    not (str_eq order.provider_transaction "")
    && not (str_eq order.provider_transaction r.transaction_id)

abbrev pub set_status : OrderStatus → Incoming → Order → Order
set_status status r o = record o {
  status = status;
  invoice_id = keep_or o.invoice_id r.invoice_id;
  provider_transaction = keep_or o.provider_transaction r.transaction_id;
}

abbrev pub set_orders : (List Order → List Order) → Db → Db
set_orders f db = record db { orders = f db.orders }

abbrev pub update_status : OrderStatus → Incoming → Db → Db
update_status status r = set_orders (update_where (is_order r.order_id) (set_status status r))

abbrev pub start_after : ℕ → Bool → Option ℕ → ℕ
start_after now running none = now
start_after now running (some end) = if running && ltb now end then end else now

-- Where the new period starts: at the end of a running one, else now.
abbrev pub period_start : ℕ → State → ℕ
period_start now state = start_after now (is_active state.status) state.current_period_end

abbrev pub activated : Order → ℕ → Subscription → Subscription
activated order start row = record row {
  plan_code = order.plan_id;
  status = SubscriptionStatus.active;
  billing_period = order.billing_period;
  started_at = start;
  current_period_end = some (add_subscription_period start order.billing_period);
}

abbrev pub activate_row : Order → ℕ → Db → Db
activate_row order start db = record db {
  subscriptions = update_where (has_user order.user_id) (activated order start) db.subscriptions;
}

abbrev pub set_paid : ℕ → String → String → Order → Order
set_paid now transaction_id invoice_id o = record o {
  status = OrderStatus.paid;
  invoice_id = keep_or o.invoice_id invoice_id;
  provider_transaction = transaction_id;
  paid_at = some now;
}

unfoldable pub activate_subscription_from_payment :
    Env → Order → String → String → Call Db Error (Unit {0})
activate_subscription_from_payment env order transaction_id invoice_id = do
  state ← ensure_subscription env order.user_id
  exec (env.up activate_subscription) failure (activate_row order (period_start env.clock state))
  affected ←
      query (env.up update_order) failure
        (λ db. count_where (is_open_order order.order_id) db.orders)
  exec true failure (
      set_orders (
        update_where (is_open_order order.order_id)
          (set_paid env.db_clock transaction_id invoice_id)))
  guard (affected == 1) checkout_state

-- The `switch` on the status of the notification.
unfoldable pub record_status : Env → Incoming → Order → Call Db Error (Unit {0})
record_status env r order =
    branch (eq_ℤ r.status (pos 1))
      (exec (env.up update_order) failure (update_status OrderStatus.processing r))
      (branch (eq_ℤ r.status (pos 2))
        (exec (env.up update_order) failure (update_status OrderStatus.canceled r))
        (branch (eq_ℤ r.status (pos 3))
          (activate_subscription_from_payment env order r.transaction_id r.invoice_id)
          (raise payment_invalid)))

-- What follows once the order is loaded and the notification fits it.
unfoldable pub settle_order : Env → Incoming → Order → Call Db Error (Unit {0})
settle_order env r order = branch (is_paid order.status) (guard (env.up commit) failure) (do
  guard (not (is_canceled order.status && not (eq_ℤ r.status (pos 2)))) checkout_state
  record_status env r order
  guard (env.up commit) failure)

unfoldable pub settle : Config → Env → Incoming → Call Db Error (Unit {0})
settle c env r = do
  guard (env.up begin) failure
  found ← query (env.up load_order) failure (λ db. find_where (is_order r.order_id) db.orders)
  order ← or_raise found payment_missing
  allowed ← query true failure (λ db. is_allowed_production_obank_test_user c env db order.user_id)
  guard allowed payment_invalid
  guard (not (mismatches r order)) payment_invalid
  guard (not (other_transaction r order)) payment_invalid
  settle_order env r order

unfoldable pub apply_obank_result : Config → Env → Incoming → Call Db Error (Unit {0})
apply_obank_result c env r =
    branch (is_malformed r) (raise payment_invalid) (transaction (settle c env r))

unfoldable pub mark_subscription_payment_paid :
    Config → Env → String → String → ℤ → String → Call Db Error (Unit {0})
mark_subscription_payment_paid c env order_id transaction_id amount_kopecks invoice_id =
    apply_obank_result c env (record {
      order_id = order_id;
      transaction_id = transaction_id;
      amount_kopecks = amount_kopecks;
      currency = "KGS";
      status = pos 3;
      site_id = c.sid;
      test = configured_obank_test_flag c;
      invoice_id = invoice_id;
    })

unfoldable pub update_subscription_payment_status :
    Env → String → OrderStatus → Call Db Error (Unit {0})
update_subscription_payment_status env order_id status =
    branch (not (is_processing status || is_canceled status)) (raise checkout_state) (
      exec (env.up update_order) failure
        (set_orders (update_where (is_open_order order_id) (λ o. record o { status = status }))))
