-- ===== src/Payment/Effect.antt =====
-- What one bank notification can do to the tables.
use online_prorab.Common.{
  ℕ, ◌≡◌, inl, inr, true, false, not, some, arith, find_where, update_where, Bool-cases,
  Option-cases, ◌&&◌, ap, ◌∙◌,
}
use online_prorab.Common.Int.{ℤ, pos, eq_ℤ}
use online_prorab.Common.Monad.{Result, ok, Call-cases}
use online_prorab.Database.{Db, Order, OrderStatus, Env, Error}
use online_prorab.Subscription.{State, ensure_subscription}
use online_prorab.Payment.{Config, Incoming, is_paid, is_canceled, is_order, is_open_order}
use online_prorab.Payment.Settle.{
  is_malformed, mismatches, other_transaction, set_paid, update_status, set_orders, activate_row,
  period_start, record_status, settle_order, settle, apply_obank_result,
  activate_subscription_from_payment,
}

-- The notification fits the order that it names.
pub record Fits (r : Incoming) (db : Db) (order : Order) : Type 0 where
  pub well_formed : is_malformed r ≡ false
  pub named : find_where (is_order r.order_id) db.orders ≡ some order
  pub agrees : mismatches r order ≡ false
  pub same_transaction : other_transaction r order ≡ false
  pub unpaid : is_paid order.status ≡ false

pub data Effect (env : Env) (r : Incoming) (db db' : Db) : Type 0 where
  unchanged : db' ≡ db → Effect env r db db'
  proceeds :
      (order : Order)
      → Fits r db order
      → is_canceled order.status ≡ false
      → db' ≡ update_status OrderStatus.processing r db
      → Effect env r db db'
  cancels :
      (order : Order)
      → Fits r db order
      → db' ≡ update_status OrderStatus.canceled r db
      → Effect env r db db'
  pays :
      (order : Order) (s : State) (mid : Db)
      → Fits r db order
      → r.status ≡ pos 3
      → is_canceled order.status ≡ false
      → ensure_subscription env order.user_id db ≡ (ok s, mid)
      → db'
        ≡ set_orders
            (update_where
              (is_open_order order.order_id)
              (set_paid env.db_clock r.transaction_id r.invoice_id))
            (activate_row order (period_start env.clock s) mid)
      → Effect env r db db'

eq_ℤ-pos : (z : ℤ) (n : ℕ) → eq_ℤ z (pos n) ≡ true → z ≡ pos n
eq_ℤ-pos z n h = ground arith

record_status-Effect :
    (env : Env) (r : Incoming) (db db' : Db) (order : Order)
    → Fits r db order
    → (is_canceled order.status && not (eq_ℤ r.status (pos 2))) ≡ false
    → record_status env r order db ≡ (ok tt, db')
    → Effect env r db db'
unfolding record_status activate_subscription_from_payment
record_status-Effect env r db db' order f c h = elim (Bool-cases (eq_ℤ r.status (pos 1))) [
  | inl one ↦ proceeds order f (ground arith) (ground arith)
  | inr not_one ↦ elim (Bool-cases (eq_ℤ r.status (pos 2))) [
    | inl two ↦ cancels order f (ground arith)
    | inr not_two ↦ elim (Bool-cases (eq_ℤ r.status (pos 3))) [
      | inl three ↦ elim (Call-cases (ensure_subscription env order.user_id db)) [
        | inl (s, mid, e) ↦
            pays order s mid f (eq_ℤ-pos r.status 3 three) (ground arith) e (ground arith)
        | inr (x, mid, e) ↦ absurd (ground arith)
      ]
      | inr other ↦ absurd (ground arith)
    ]
  ]
]

settle_order-Effect :
    (env : Env) (r : Incoming) (db db' : Db) (order : Order)
    → is_malformed r ≡ false
    → find_where (is_order r.order_id) db.orders ≡ some order
    → mismatches r order ≡ false
    → other_transaction r order ≡ false
    → settle_order env r order db ≡ (ok tt, db')
    → Effect env r db db'
unfolding settle_order
settle_order-Effect env r db db' order w n m o h = elim (Bool-cases (is_paid order.status)) [
  | inl p ↦ unchanged (ground arith)
  | inr p ↦ elim (Call-cases (record_status env r order db)) [
    | inl (u, mid, e) ↦
        record_status-Effect env r db db' order
          (record { well_formed = w; named = n; agrees = m; same_transaction = o; unpaid = p })
          (ground arith) (ground arith)
    | inr (x, mid, e) ↦ absurd (ground arith)
  ]
]

settle-Effect :
    (c : Config) (env : Env) (r : Incoming) (db db' : Db)
    → is_malformed r ≡ false
    → settle c env r db ≡ (ok tt, db')
    → Effect env r db db'
unfolding settle
settle-Effect c env r db db' w h =
    elim (Option-cases (find_where (is_order r.order_id) db.orders)) [
      | inl e ↦ absurd (ground arith)
      | inr (order, e) ↦
          settle_order-Effect env r db db' order w e (ground arith) (ground arith) (ground arith)
    ]

-- Every notification, whatever the configuration and whatever the database refuses, does one of
-- four things.
pub apply-Effect :
    (c : Config) (env : Env) (r : Incoming) (db db' : Db) (res : Result Error (Unit {0}))
    → apply_obank_result c env r db ≡ (res, db')
    → Effect env r db db'
unfolding apply_obank_result
apply-Effect c env r db db' res h = elim (Bool-cases (is_malformed r)) [
  | inl e ↦ unchanged (ground arith)
  | inr w ↦ elim (Call-cases (settle c env r db)) [
    | inl (u, mid, e) ↦
        let same : mid ≡ db' = ground arith in
        settle-Effect c env r db db' w (e ∙ ap (λ t. (ok tt, t)) same)
    | inr (x, mid, e) ↦ unchanged (ground arith)
  ]
]
