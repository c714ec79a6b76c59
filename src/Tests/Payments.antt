-- ===== src/Tests/Payments.antt =====
-- Checkouts, notifications and histories of an order.
use online_prorab.Common.{
  String, ◌≤◌, ◌*◌, ◌+◌, ◌≡◌, refl, true, false, none, some, [], ◌∷◌, ◌++◌, ◌⊎◌, arith, find_where,
  update_where, count_where, str_eq,
}
use online_prorab.Common.Int.{pos, eq_ℤ}
use online_prorab.Common.Monad.{Result, ok}
use online_prorab.Calendar.{add_subscription_period}
use online_prorab.Database.{Db, Error, Order, OrderStatus, Subscription, SubscriptionStatus, day}
use online_prorab.Subscription.{add_trial, ensure_subscription, plan_by_code}
use online_prorab.Payment.{
  Incoming, configured_obank_test_flag, is_canceled, is_order, is_open_order,
  production_obank_sandbox_mode,
}
use online_prorab.Payment.Settle.{
  activate_subscription_from_payment, activated, apply_obank_result,
  is_allowed_production_obank_test_user, is_malformed, mismatches, record_status, settle,
  settle_order,
}
use online_prorab.Payment.Reserve.{
  Request, has_key, is_recent_open, latest_where, new_order, reserve_subscription_checkout,
}
use online_prorab.Payment.Handlers.{done, obank_result, refused}
use online_prorab.Bank.{
  Json, RawResult, Values, digits, incoming, is_lower_of, parse_int, required, scalar, signed_text,
  values, verify_result,
}
use online_prorab.Bank.Signature.{accepted_signed}
use online_prorab.Payment.Effect.{Fits}
use online_prorab.Payment.Exact.{IsExact, paid-IsExact}
use online_prorab.Payment.Paid.{approval_pays, paid_activates, paid_again}
use online_prorab.Payment.Orders.{
  obank_result_refuses, reserve_orders, reserve_retry, reserve_terms,
}
use online_prorab.Payment.History.{Kept, claim, notify, run, run-Kept}
use online_prorab.Tests.Samples.{
  aida_row, aida_state, approval, config, db, env, january_31, order, paid_order, server,
}

-- The period that is paid for starts where the running one ends.
abbrev paid_db : Db
paid_db = record db {
  orders = paid_order ∷ [];
  subscriptions = activated order (january_31 + 5 * day) aida_row ∷ [];
}

-- The approval pays the order.
approved : apply_obank_result config env approval db ≡ (ok tt, paid_db)
unfolding apply_obank_result settle settle_order record_status activate_subscription_from_payment
    is_malformed mismatches is_allowed_production_obank_test_user production_obank_sandbox_mode
    ensure_subscription add_trial plan_by_code find_where count_where update_where
    configured_obank_test_flag add_subscription_period
approved = refl

order_found : find_where (is_order "stroy_1") db.orders ≡ some order
unfolding find_where
order_found = refl

paid_order_found : find_where (is_order "stroy_1") paid_db.orders ≡ some paid_order
unfolding find_where
paid_order_found = refl

run-Kept_example :
    Kept "stroy_1" order (run db (claim env "stroy_1" ∷ notify config env approval ∷ []))
run-Kept_example =
    run-Kept "stroy_1" db (claim env "stroy_1" ∷ notify config env approval ∷ []) order order_found

paid-IsExact_example : IsExact approval order paid_order
paid-IsExact_example =
    paid-IsExact config env approval db paid_db (ok tt) "stroy_1" order paid_order approved
      order_found paid_order_found refl refl

paid_activates_example :
    (row : Subscription) × (find_where (λ s. str_eq s.user_id "aida") paid_db.subscriptions
      ≡ some row)
    × (row.status ≡ SubscriptionStatus.active)
    × (row.plan_code ≡ "max")
    × (row.billing_period ≡ "month")
    × (env.clock ≤ row.started_at)
    × (row.current_period_end ≡ some (add_subscription_period row.started_at "month"))
paid_activates_example =
    paid_activates config env approval db paid_db (ok tt) order paid_order approved order_found
      paid_order_found refl refl

-- The same notification again.
repeated : apply_obank_result config env approval paid_db ≡ (ok tt, paid_db)
unfolding apply_obank_result settle settle_order record_status activate_subscription_from_payment
    is_malformed mismatches is_allowed_production_obank_test_user production_obank_sandbox_mode
    find_where configured_obank_test_flag
repeated = refl

paid_again_example : paid_db ≡ paid_db
paid_again_example =
    paid_again config env approval paid_db paid_db (ok tt) paid_order paid_order_found refl repeated

approval-Fits : Fits approval db order
unfolding is_malformed mismatches find_where
approval-Fits = ground arith

aida_loaded : ensure_subscription env "aida" db ≡ (ok aida_state, db)
unfolding ensure_subscription add_trial plan_by_code find_where
aida_loaded = refl

aida_allowed : is_allowed_production_obank_test_user config env db "aida" ≡ true
unfolding is_allowed_production_obank_test_user production_obank_sandbox_mode
aida_allowed = refl

one_open : count_where (is_open_order "stroy_1") db.orders ≡ 1
unfolding count_where
one_open = refl

approval_pays_example :
    ((apply_obank_result config env approval db).0 ≡ ok tt)
    × (o' : Order) × (find_where
          (is_order "stroy_1")
          (apply_obank_result config env approval db).1.orders
        ≡ some o')
    × (o'.status ≡ OrderStatus.paid)
    × (o'.provider_transaction ≡ approval.transaction_id)
    × (o'.paid_at ≡ some january_31)
    × (o'.user_id ≡ order.user_id)
    × (o'.plan_id ≡ order.plan_id)
    × (o'.billing_period ≡ order.billing_period)
    × (o'.amount_kopecks ≡ order.amount_kopecks)
approval_pays_example =
    approval_pays config env approval db db order aida_state (λ q. refl) aida_allowed approval-Fits
      refl refl one_open aida_loaded

-- A request for what the open order is for, under its key and under another.
abbrev same_request : Request
same_request = record {
  plan_id = "max";
  billing_period = "month";
  idempotency_key = "0123456789abcdef";
}

abbrev other_request : Request
other_request = record same_request { idempotency_key = "fedcba9876543210" }

retried : reserve_subscription_checkout env "stroy_2" "aida" same_request 5000 db ≡ (ok order, db)
unfolding reserve_subscription_checkout ensure_subscription add_trial plan_by_code find_where
retried = refl

abbrev found_again : Result Error Order
found_again = ok order

reserve_retry_example :
    (db.orders ≡ db.orders)
    × ((o : Order) → found_again ≡ ok o → (o ≡ order) × (is_canceled order.status ≡ false))
reserve_retry_example =
    reserve_retry env "stroy_2" "aida" same_request 5000 db db order found_again
      (unfold find_where in refl) retried

resumed : reserve_subscription_checkout env "stroy_2" "aida" other_request 5000 db ≡ (ok order, db)
unfolding reserve_subscription_checkout ensure_subscription add_trial plan_by_code find_where
    latest_where
resumed = refl

reserve_terms_example :
    (order.plan_id ≡ other_request.plan_id)
    × (order.billing_period ≡ other_request.billing_period)
    × (order.amount_kgs ≡ 5000)
reserve_terms_example = reserve_terms env "stroy_2" "aida" other_request 5000 db db order resumed

-- Without the open order the request adds one.
abbrev no_orders : Db
no_orders = record db { orders = [] }

abbrev made : Order
made = new_order "stroy_2" january_31 "aida" other_request 5000

created :
    reserve_subscription_checkout env "stroy_2" "aida" other_request 5000 no_orders
    ≡ (ok made, record db { orders = made ∷ [] })
unfolding reserve_subscription_checkout ensure_subscription add_trial plan_by_code find_where
    latest_where
created = refl

reserve_orders_example :
    (made ∷ [] ≡ [])
    ⊎ ((made ∷ [] ≡ [] ++ made ∷ [])
        × (find_where (has_key "aida" "fedcba9876543210") [] ≡ none)
        × (latest_where (is_recent_open january_31 "aida") [] ≡ none))
reserve_orders_example =
    reserve_orders env "stroy_2" "aida" other_request 5000 no_orders
      (record db { orders = made ∷ [] }) (ok made) created

-- The approval as the bank sends it, under a signature that is the secret itself.
abbrev payload : RawResult
payload = record {
  trans_id = Json.text "t1";
  status = Json.number "3";
  site_id = Json.text "site";
  order_id = Json.text "stroy_1";
  amount = Json.number "500000";
  currency = Json.text "KGS";
  mktime = Json.text "1706659200000";
  test = Json.number "1";
  invoice = Json.text "i1";
  hash = Json.text "SECRET";
}

abbrev secret_itself : String → String → String
secret_itself message secret = secret

accepted :
    obank_result server env (verify_result secret_itself (some payload) "secret") db
    ≡ (done 200, paid_db)
unfolding obank_result configured_obank_test_flag production_obank_sandbox_mode apply_obank_result
    settle settle_order record_status activate_subscription_from_payment is_malformed mismatches
    is_allowed_production_obank_test_user ensure_subscription add_trial plan_by_code find_where
    count_where update_where add_subscription_period verify_result scalar parse_int digits
    is_lower_of
accepted = refl

accepted_signed_example :
    (v : Values) × (provided : String) × (r : Incoming) × (values payload ≡ some v)
    × (required payload.hash ≡ some provided)
    × (is_lower_of provided (secret_itself (signed_text v) "secret") ≡ true)
    × (incoming v payload.invoice ≡ some r)
    × (r.site_id ≡ "site")
    × (eq_ℤ r.test (configured_obank_test_flag config) ≡ true)
    × (apply_obank_result config env r db ≡ (ok tt, paid_db))
accepted_signed_example = accepted_signed secret_itself server env payload db paid_db accepted

-- A notification of another amount.
abbrev short_payment : Incoming
short_payment = record approval { amount_kopecks = pos 100 }

rejected : obank_result server env (some short_payment) db ≡ (refused 422, db)
unfolding obank_result configured_obank_test_flag production_obank_sandbox_mode apply_obank_result
    settle is_malformed mismatches is_allowed_production_obank_test_user find_where
rejected = refl

obank_result_refuses_example : db ≡ db
obank_result_refuses_example =
    obank_result_refuses server env (some short_payment) db db 422 rejected
