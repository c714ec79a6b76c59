-- ===== src/Payment/Exact.antt =====
-- What a bank notification may change in an order, and when it pays one.
use online_prorab.Common.{
  String, ◌≡◌, ◌≢◌, refl, sym, ◌∙◌, ap, Bool, true, false, some, List, arith, find_where,
  update_where, str_eq, eq_iff, find_where_holds, find_where-update_where, if◌then◌else◌,
}
use online_prorab.Common.Int.{pos, eq_ℤ}
use online_prorab.Common.Monad.{Result, ok}
use online_prorab.Database.{Db, Order, OrderStatus, Env, Error}
use online_prorab.Subscription.Standing.{ensure_frame}
use online_prorab.Payment.{Config, Incoming, is_paid, is_canceled, is_order, is_open_order}
use online_prorab.Payment.Settle.{
  is_malformed, mismatches, set_status, set_paid, apply_obank_result,
}
use online_prorab.Payment.Effect.{Effect, unchanged, proceeds, cancels, pays, Fits, apply-Effect}

-- The statuses that may follow a status: `paid` and `canceled` are final, and nothing becomes
-- `pending` again.
abbrev pub may_become : OrderStatus → OrderStatus → Bool
may_become OrderStatus.paid s = is_paid s
may_become OrderStatus.canceled s = is_canceled s
may_become OrderStatus.processing OrderStatus.pending = false
may_become _ _ = true

-- What an order was made for stays, and its status moves forward.
pub record Evolves (o o' : Order) : Type 0 where
  pub same_id : o'.order_id ≡ o.order_id
  pub same_user : o'.user_id ≡ o.user_id
  pub same_plan : o'.plan_id ≡ o.plan_id
  pub same_period : o'.billing_period ≡ o.billing_period
  pub same_kgs : o'.amount_kgs ≡ o.amount_kgs
  pub same_kopecks : o'.amount_kopecks ≡ o.amount_kopecks
  pub same_currency : o'.currency ≡ o.currency
  pub same_key : o'.idempotency_key ≡ o.idempotency_key
  pub forward : may_become o.status o'.status ≡ true

pub Evolves-refl : (o : Order) → Evolves o o
Evolves-refl o = ground arith

may_become_trans :
    (a b c : OrderStatus) → may_become a b ≡ true → may_become b c ≡ true → may_become a c ≡ true
may_become_trans OrderStatus.pending b c p q = ground arith
may_become_trans OrderStatus.processing b c p q = ground arith
may_become_trans OrderStatus.paid b c p q = ground arith
may_become_trans OrderStatus.canceled b c p q = ground arith

pub Evolves-trans : {a b c : Order} → Evolves a b → Evolves b c → Evolves a c
Evolves-trans {a} {b} {c} p q = ground (arith, may_become_trans a.status b.status c.status)

-- The order found under an id is the one that the notification names, if it has that id.
same_order :
    (id other : String) (orders : List Order) (o order : Order)
    → find_where (is_order id) orders ≡ some o
    → find_where (is_order other) orders ≡ some order
    → str_eq o.order_id other ≡ true
    → o ≡ order
same_order id other orders o order f g e =
    let at_id : o.order_id ≡ id = (eq_iff _ _).0 (find_where_holds (is_order id) orders o f) in
    let at_other : o.order_id ≡ other = (eq_iff _ _).0 e in
    let ids : id ≡ other = sym at_id ∙ at_other in
    let both : some o ≡ some order = sym f ∙ ap (λ k. find_where (is_order k) orders) ids ∙ g in
    ground arith

-- The order under an id after an UPDATE of the orders.
module _ (id : String) (p : Order → Bool) (f : Order → Order) (orders : List Order)
    (o : Order) where
  pub find-update :
      ((x : Order) → (f x).order_id ≡ x.order_id)
      → find_where (is_order id) orders ≡ some o
      → find_where (is_order id) (update_where p f orders) ≡ some (if p o then f o else o)
  find-update keep h = ground (
    arith,
    find_where-update_where (is_order id) p f orders (λ x. ap (λ k. str_eq k id) (keep x)),
  )

-- Whatever a notification holds, an order that exists keeps its terms, `paid` and `canceled` are
-- final, and no order goes back to `pending`.
pub apply-Evolves :
    (c : Config) (env : Env) (r : Incoming) (db db' : Db) (res : Result Error (Unit {0}))
    (id : String) (o : Order)
    → apply_obank_result c env r db ≡ (res, db')
    → find_where (is_order id) db.orders ≡ some o
    → (o' : Order) × (find_where (is_order id) db'.orders ≡ some o') × Evolves o o'
apply-Evolves c env r db db' res id o h f = by_effect (apply-Effect c env r db db' res h)
  where
    updated :
        (p : Order → Bool) (g : Order → Order)
        → ((x : Order) → (g x).order_id ≡ x.order_id)
        → db'.orders ≡ update_where p g db.orders
        → (p o ≡ true → Evolves o (g o))
        → (o' : Order) × (find_where (is_order id) db'.orders ≡ some o') × Evolves o o'
    updated p g keep e step = (
      if p o then g o else o,
      ap (find_where (is_order id)) e ∙ find-update id p g db.orders o keep f,
      ground (arith, Evolves-refl o),
    )

    by_effect :
        Effect env r db db'
        → (o' : Order) × (find_where (is_order id) db'.orders ≡ some o') × Evolves o o'
    by_effect (unchanged e) = (o, ap (λ d. find_where (is_order id) d.orders) e ∙ f, Evolves-refl o)
    by_effect (proceeds order fits live e) =
        updated (is_order r.order_id) (set_status OrderStatus.processing r) (λ x. refl)
          (ap (λ d. d.orders) e)
          (λ t. ground (arith, same_order id r.order_id db.orders o order f fits.named t))
    by_effect (cancels order fits e) =
        updated (is_order r.order_id) (set_status OrderStatus.canceled r) (λ x. refl)
          (ap (λ d. d.orders) e)
          (λ t. ground (arith, same_order id r.order_id db.orders o order f fits.named t))
    by_effect (pays order s mid fits three live stored e) =
        updated (is_open_order order.order_id) (set_paid env.db_clock r.transaction_id r.invoice_id)
          (λ x. refl)
          (ap (λ d. d.orders) e
            ∙ ap
                (λ d.
                  update_where (is_open_order order.order_id)
                    (set_paid env.db_clock r.transaction_id r.invoice_id) d.orders)
                (ensure_frame env order.user_id db mid (ok s) stored))
          (λ t. ground arith)

-- What a notification that pays an order agreed with.
pub record IsExact (r : Incoming) (o o' : Order) : Type 0 where
  pub same_id : r.order_id ≡ o.order_id
  pub approved : r.status ≡ pos 3
  pub whole_amount : eq_ℤ r.amount_kopecks o.amount_kopecks ≡ true
  pub kgs : r.currency ≡ "KGS"
  pub own_currency : r.currency ≡ o.currency
  pub transaction : r.transaction_id ≢ ""
  pub recorded : o'.provider_transaction ≡ r.transaction_id
  pub was_live : is_canceled o.status ≡ false

IsExact-of :
    {r : Incoming} {db : Db} {o o' : Order} (order : Order)
    → o ≡ order
    → Fits r db order
    → r.status ≡ pos 3
    → is_canceled order.status ≡ false
    → order.order_id ≡ r.order_id
    → o'.provider_transaction ≡ r.transaction_id
    → IsExact r o o'
unfolding is_malformed mismatches
IsExact-of {r} {db} {o} {o'} order chosen fits three live own recorded =
    let formed : is_malformed r ≡ false = fits.well_formed in
    let agrees : mismatches r order ≡ false = fits.agrees in
    record {
      same_id = ground arith;
      approved = three;
      whole_amount = ground arith;
      kgs = ground (arith, eq_iff r.currency "KGS");
      own_currency = ground (arith, eq_iff r.currency order.currency);
      transaction = λ e. ground (arith, eq_iff r.transaction_id "");
      recorded = recorded;
      was_live = ground arith;
    }

-- An order that a notification turns to `paid` was named by it, for its whole amount and in its
-- currency, with the status 3 and a transaction id, which is the one then recorded; it was neither
-- paid nor canceled before.
pub paid-IsExact :
    (c : Config) (env : Env) (r : Incoming) (db db' : Db) (res : Result Error (Unit {0}))
    (id : String) (o o' : Order)
    → apply_obank_result c env r db ≡ (res, db')
    → find_where (is_order id) db.orders ≡ some o
    → find_where (is_order id) db'.orders ≡ some o'
    → is_paid o.status ≡ false
    → is_paid o'.status ≡ true
    → IsExact r o o'
paid-IsExact c env r db db' res id o o' h f f' before after =
    by_effect (apply-Effect c env r db db' res h)
  where
    after_update :
        (p : Order → Bool) (g : Order → Order)
        → ((x : Order) → (g x).order_id ≡ x.order_id)
        → db'.orders ≡ update_where p g db.orders
        → some o' ≡ some (if p o then g o else o)
    after_update p g keep e =
        sym f' ∙ ap (find_where (is_order id)) e ∙ find-update id p g db.orders o keep f

    by_effect : Effect env r db db' → IsExact r o o'
    by_effect (unchanged e) =
        let same : some o' ≡ some o = sym f' ∙ ap (λ d. find_where (is_order id) d.orders) e ∙ f in
        absurd (ground arith)
    by_effect (proceeds order fits live e) =
        let same =
          after_update (is_order r.order_id) (set_status OrderStatus.processing r) (λ x. refl)
            (ap (λ d. d.orders) e) in
        absurd (ground arith)
    by_effect (cancels order fits e) =
        let same =
          after_update (is_order r.order_id) (set_status OrderStatus.canceled r) (λ x. refl)
            (ap (λ d. d.orders) e) in
        absurd (ground arith)
    by_effect (pays order s mid fits three live stored e) =
        let same =
          after_update (is_open_order order.order_id)
            (set_paid env.db_clock r.transaction_id r.invoice_id) (λ x. refl)
            (ap (λ d. d.orders) e
              ∙ ap
                  (λ d.
                    update_where (is_open_order order.order_id)
                      (set_paid env.db_clock r.transaction_id r.invoice_id) d.orders)
                  (ensure_frame env order.user_id db mid (ok s) stored)) in
        let hit : is_open_order order.order_id o ≡ true = ground arith in
        let own : order.order_id ≡ r.order_id =
          (eq_iff _ _).0 (find_where_holds (is_order r.order_id) db.orders order fits.named) in
        let chosen : o ≡ order =
          same_order id r.order_id db.orders o order f fits.named
            (ground (arith, eq_iff o.order_id order.order_id, eq_iff o.order_id r.order_id)) in
        IsExact-of order chosen fits three live own (ground arith)
