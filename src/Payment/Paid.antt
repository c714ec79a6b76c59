-- ===== src/Payment/Paid.antt =====
-- What a payment does to the subscription, and that it does it once.
use online_prorab.Common.{
  ℕ, ◌≤◌, ◌≡◌, refl, sym, ◌∙◌, ap, true, false, some, arith, find_where, update_where, count_where,
  find_where_holds, find_where-update_where, if◌then◌else◌, eq_refl,
}
use online_prorab.Common.Int.{pos}
use online_prorab.Common.Monad.{Result, ok}
use online_prorab.Calendar.{add_subscription_period}
use online_prorab.Database.{
  Db, Order, OrderStatus, Env, Error, Statement, Subscription, SubscriptionStatus, begin,
  load_order, activate_subscription, update_order, commit,
}
use online_prorab.Subscription.{State, ensure_subscription, has_user}
use online_prorab.Subscription.Standing.{ensure_stored, ensure_frame}
use online_prorab.Payment.{Config, Incoming, is_paid, is_order, is_open, is_open_order}
use online_prorab.Payment.Settle.{
  set_status, set_paid, apply_obank_result, activated, period_start, is_malformed, mismatches,
  other_transaction, settle, settle_order, record_status, activate_subscription_from_payment,
  is_allowed_production_obank_test_user,
}
use online_prorab.Payment.Exact.{find-update}
use online_prorab.Payment.Effect.{Effect, unchanged, proceeds, cancels, pays, Fits, apply-Effect}

-- A notification for an order that is already paid changes nothing: a repeated delivery does not
-- extend the subscription again.
pub paid_again :
    (c : Config) (env : Env) (r : Incoming) (db db' : Db) (res : Result Error (Unit {0}))
    (o : Order)
    → find_where (is_order r.order_id) db.orders ≡ some o
    → is_paid o.status ≡ true
    → apply_obank_result c env r db ≡ (res, db')
    → db' ≡ db
paid_again c env r db db' res o f paid h = by_effect (apply-Effect c env r db db' res h)
  where
    unpaid : (order : Order) → Fits r db order → db' ≡ db
    unpaid order fits =
        let same : some o ≡ some order = sym f ∙ fits.named in absurd (ground (arith, fits.unpaid))

    by_effect : Effect env r db db' → db' ≡ db
    by_effect (unchanged e) = e
    by_effect (proceeds order fits live e) = unpaid order fits
    by_effect (cancels order fits e) = unpaid order fits
    by_effect (pays order s mid fits three live stored e) = unpaid order fits

-- The period never starts before the payment.
period_start-le : (now : ℕ) (s : State) → now ≤ period_start now s
period_start-le now s = ground arith

activated-found :
    (order : Order) (start : ℕ) (mid : Db) (row : Subscription)
    → find_where (has_user order.user_id) mid.subscriptions ≡ some row
    → find_where
        (has_user order.user_id)
        (update_where (has_user order.user_id) (activated order start) mid.subscriptions)
      ≡ some (activated order start row)
activated-found order start mid row found = ground (
  arith,
  find_where_holds (has_user order.user_id) mid.subscriptions row found,
  find_where-update_where (has_user order.user_id) (has_user order.user_id) (activated order start)
      mid.subscriptions (λ x. refl),
)

-- When a notification turns the order that it names to `paid`, the payer's subscription is active
-- under the plan and the billing period of the order, from no earlier than the payment, and ends one
-- billing period after its start.
pub paid_activates :
    (c : Config) (env : Env) (r : Incoming) (db db' : Db) (res : Result Error (Unit {0}))
    (o o' : Order)
    → apply_obank_result c env r db ≡ (res, db')
    → find_where (is_order r.order_id) db.orders ≡ some o
    → find_where (is_order r.order_id) db'.orders ≡ some o'
    → is_paid o.status ≡ false
    → is_paid o'.status ≡ true
    → (row : Subscription) × (find_where (has_user o.user_id) db'.subscriptions ≡ some row)
      × (row.status ≡ SubscriptionStatus.active)
      × (row.plan_code ≡ o.plan_id)
      × (row.billing_period ≡ o.billing_period)
      × (env.clock ≤ row.started_at)
      × (row.current_period_end ≡ some (add_subscription_period row.started_at o.billing_period))
paid_activates c env r db db' res o o' h f f' before after =
    by_effect (apply-Effect c env r db db' res h)
  where
    stays :
        (order : Order) (status : OrderStatus)
        → is_paid status ≡ false
        → db'.orders ≡ update_where (is_order r.order_id) (set_status status r) db.orders
        → ⊥
    stays order status unpaid e =
        let same : some o' ≡ some (if is_order r.order_id o then set_status status r o else o) =
          sym f'
          ∙ ap (find_where (is_order r.order_id)) e
          ∙ find-update r.order_id (is_order r.order_id) (set_status status r) db.orders o
              (λ x. refl) f in
        ground arith

    by_effect :
        Effect env r db db'
        → (row : Subscription) × (find_where (has_user o.user_id) db'.subscriptions ≡ some row)
          × (row.status ≡ SubscriptionStatus.active)
          × (row.plan_code ≡ o.plan_id)
          × (row.billing_period ≡ o.billing_period)
          × (env.clock ≤ row.started_at)
          × (row.current_period_end
              ≡ some (add_subscription_period row.started_at o.billing_period))
    by_effect (unchanged e) =
        let same : some o' ≡ some o =
          sym f' ∙ ap (λ d. find_where (is_order r.order_id) d.orders) e ∙ f in
        absurd (ground arith)
    by_effect (proceeds order fits live e) =
        absurd (stays order OrderStatus.processing refl (ap (λ d. d.orders) e))
    by_effect (cancels order fits e) =
        absurd (stays order OrderStatus.canceled refl (ap (λ d. d.orders) e))
    by_effect (pays order s mid fits three live stored e) =
        let (row, found, st, en, pl) = ensure_stored env order.user_id db mid s stored in
        let start = period_start env.clock s in
        let chosen : some order ≡ some o = sym fits.named ∙ f in
        let own : order ≡ o = ground arith in
        (
          activated order start row,
          ap (λ u. find_where (has_user u) db'.subscriptions) (ap (λ x. x.user_id) (sym own))
              ∙ ap (λ d. find_where (has_user order.user_id) d.subscriptions) e
              ∙ activated-found order start mid row found,
          refl,
          ap (λ x. x.plan_id) own,
          ap (λ x. x.billing_period) own,
          period_start-le env.clock s,
          ap (λ x. some (add_subscription_period start x.billing_period)) own,
        )

-- The orders after an approval that was settled.
module _ (c : Config) (env : Env) (r : Incoming) (db mid : Db) (o : Order) (s : State) where
  approval_settles :
      ((q : Statement) → env.up q ≡ true)
      → is_allowed_production_obank_test_user c env db o.user_id ≡ true
      → Fits r db o
      → is_open o.status ≡ true
      → r.status ≡ pos 3
      → count_where (is_open_order o.order_id) db.orders ≡ 1
      → ensure_subscription env o.user_id db ≡ (ok s, mid)
      → mid.orders ≡ db.orders
      → ((apply_obank_result c env r db).0 ≡ ok tt)
        × ((apply_obank_result c env r db).1.orders
            ≡ update_where
                (is_open_order o.order_id)
                (set_paid env.db_clock r.transaction_id r.invoice_id)
                db.orders)
  unfolding apply_obank_result settle settle_order record_status activate_subscription_from_payment
  approval_settles all allowed fits live three one stored frame =
      let one_left : count_where (is_open_order o.order_id) mid.orders ≡ 1 =
        ap (count_where (is_open_order o.order_id)) frame ∙ one in
      let up_begin = all begin in
      let up_load = all load_order in
      let up_activate = all activate_subscription in
      let up_update = all update_order in
      let up_commit = all commit in
      let formed : is_malformed r ≡ false = fits.well_formed in
      let found : find_where (is_order r.order_id) db.orders ≡ some o = fits.named in
      let agrees : mismatches r o ≡ false = fits.agrees in
      let same : other_transaction r o ≡ false = fits.same_transaction in
      (ground arith, ground arith)

-- The bank's approval is honoured: where the database completes every statement, the order is open
-- and the only one under its id, the notification fits it and the account's subscription can be
-- loaded, the notification succeeds, and the order is found afterwards with the status `paid`, the
-- notification's transaction and the time of the payment, for the same account, plan, period and amount.
pub approval_pays :
    (c : Config) (env : Env) (r : Incoming) (db mid : Db) (o : Order) (s : State)
    → ((q : Statement) → env.up q ≡ true)
    → is_allowed_production_obank_test_user c env db o.user_id ≡ true
    → Fits r db o
    → is_open o.status ≡ true
    → r.status ≡ pos 3
    → count_where (is_open_order o.order_id) db.orders ≡ 1
    → ensure_subscription env o.user_id db ≡ (ok s, mid)
    → ((apply_obank_result c env r db).0 ≡ ok tt)
      × (o' : Order) × (find_where (is_order r.order_id) (apply_obank_result c env r db).1.orders
          ≡ some o')
      × (o'.status ≡ OrderStatus.paid)
      × (o'.provider_transaction ≡ r.transaction_id)
      × (o'.paid_at ≡ some env.db_clock)
      × (o'.user_id ≡ o.user_id)
      × (o'.plan_id ≡ o.plan_id)
      × (o'.billing_period ≡ o.billing_period)
      × (o'.amount_kopecks ≡ o.amount_kopecks)
approval_pays c env r db mid o s all allowed fits live three one stored =
    let frame : mid.orders ≡ db.orders =
      ap (λ d. d.orders) (ensure_frame env o.user_id db mid (ok s) stored) in
    let (fine, orders) =
      approval_settles c env r db mid o s all allowed fits live three one stored frame in
    let target = find_where_holds (is_order r.order_id) db.orders o fits.named in
    let hit : is_open_order o.order_id o ≡ true = ground (arith, eq_refl o.order_id) in
    let paid =
      find-update r.order_id (is_open_order o.order_id)
        (set_paid env.db_clock r.transaction_id r.invoice_id) db.orders o (λ x. refl) fits.named in
    (
      fine,
      set_paid env.db_clock r.transaction_id r.invoice_id o,
      ap (find_where (is_order r.order_id)) orders ∙ ground arith,
      refl,
      refl,
      refl,
      refl,
      refl,
      refl,
      refl,
    )
