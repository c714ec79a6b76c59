-- ===== src/Payment/History.antt =====
-- Orders over any history of notifications, checkouts and status checks.
use online_prorab.Common.{
  ℕ, String, ◌≡◌, refl, ◌∙◌, ap, inl, inr, Bool, true, some, List, [], ◌∷◌, arith, find_where,
  update_where, find_where-append, Bool-cases, ◌&&◌, ◌||◌, if◌then◌else◌,
}
use online_prorab.Database.{Db, Order, OrderStatus, Env, update_order}
use online_prorab.Payment.{Config, Incoming, is_order, is_open_order, is_processing, is_canceled}
use online_prorab.Payment.Settle.{apply_obank_result, update_subscription_payment_status}
use online_prorab.Payment.Reserve.{
  Request, Invoice, is_claimable, reserve_subscription_checkout, save_obank_invoice,
  claim_obank_status_check,
}
use online_prorab.Payment.Exact.{Evolves, Evolves-refl, Evolves-trans, find-update, apply-Evolves}
use online_prorab.Payment.Orders.{reserve_orders}

-- One round of statements on the orders, with what the database did.
pub data Event : Type 0 where
  notify : Config → Env → Incoming → Event
  set_status : Env → String → OrderStatus → Event
  reserve : Env → (fresh_id user : String) → Request → (price : ℕ) → Event
  save : Env → String → Invoice → Event
  claim : Env → String → Event

pub step : Db → Event → Db
step db (notify c env r) = (apply_obank_result c env r db).1
step db (set_status env id status) = (update_subscription_payment_status env id status db).1
step db (reserve env fresh_id user q price) =
    (reserve_subscription_checkout env fresh_id user q price db).1
step db (save env id invoice) = (save_obank_invoice env id invoice db).1
step db (claim env id) = (claim_obank_status_check env id db).1

pub run : Db → List Event → Db
run db [] = db
run db (e ∷ es) = run (step db e) es

-- The order under an id has evolved from `o`.
abbrev pub Kept : String → Order → Db → Type 0
Kept id o db = (o' : Order) × (find_where (is_order id) db.orders ≡ some o') × Evolves o o'

updated :
    (id : String) (p : Order → Bool) (f : Order → Order) (db db' : Db) (o : Order)
    → ((x : Order) → (f x).order_id ≡ x.order_id)
    → (p o ≡ true → Evolves o (f o))
    → db'.orders ≡ update_where p f db.orders
    → find_where (is_order id) db.orders ≡ some o
    → Kept id o db'
updated id p f db db' o keep moves e h = (
  if p o then f o else o,
  ap (find_where (is_order id)) e ∙ find-update id p f db.orders o keep h,
  ground (arith, Evolves-refl o),
)

unmoved :
    (id : String) (db db' : Db) (o : Order)
    → db'.orders ≡ db.orders
    → find_where (is_order id) db.orders ≡ some o
    → Kept id o db'
unmoved id db db' o e h = (o, ap (find_where (is_order id)) e ∙ h, Evolves-refl o)

step-Kept :
    (id : String) (db : Db) (e : Event) (o : Order)
    → find_where (is_order id) db.orders ≡ some o
    → Kept id o (step db e)
unfolding step update_subscription_payment_status save_obank_invoice claim_obank_status_check
step-Kept id db (notify c env r) o h = apply-Evolves c env r db _ _ id o refl h
step-Kept id db (set_status env target status) o h =
    elim (Bool-cases ((is_processing status || is_canceled status) && env.up update_order)) [
      | inl up ↦
          updated id (is_open_order target) (λ x. record x { status = status }) db
            (step db (set_status env target status)) o (λ x. refl) (λ t. ground arith)
            (ground arith) h
      | inr down ↦ unmoved id db (step db (set_status env target status)) o (ground arith) h
    ]
step-Kept id db (reserve env fresh_id user q price) o h =
    elim (reserve_orders env fresh_id user q price db _ _ refl) [
      | inl e ↦ unmoved id db (step db (reserve env fresh_id user q price)) o e h
      | inr (e, f, g) ↦ (
        o,
        ap (find_where (is_order id)) e ∙ find_where-append (is_order id) db.orders _ h,
        Evolves-refl o,
      )
    ]
step-Kept id db (save env target invoice) o h = elim (Bool-cases (env.up update_order)) [
  | inl up ↦
      updated id (is_open_order target)
        (λ x. record x {
          invoice_id = invoice.id;
          payment_url = invoice.payment_url;
          bank_app_link = invoice.app_link;
        })
        db (step db (save env target invoice)) o (λ x. refl) (λ t. ground arith) (ground arith) h
  | inr down ↦ unmoved id db (step db (save env target invoice)) o (ground arith) h
]
step-Kept id db (claim env target) o h = elim (Bool-cases (env.up update_order)) [
  | inl up ↦
      updated id (is_claimable env.db_clock target)
        (λ x. record x { status_checked_at = some env.db_clock }) db (step db (claim env target)) o
        (λ x. refl) (λ t. ground arith) (ground arith) h
  | inr down ↦ unmoved id db (step db (claim env target)) o (ground arith) h
]

-- Over any history, an order that exists keeps its account, plan, period and amount, and its status
-- only moves forward: once `paid` or `canceled` it stays so.
pub run-Kept :
    (id : String) (db : Db) (es : List Event) (o : Order)
    → find_where (is_order id) db.orders ≡ some o
    → Kept id o (run db es)
unfolding run
run-Kept id db [] o h = (o, h, Evolves-refl o)
run-Kept id db (e ∷ es) o h =
    let (p, found, forward) = step-Kept id db e o h in
    let (q, found', forward') = run-Kept id (step db e) es p found in
    (q, found', Evolves-trans forward forward')
