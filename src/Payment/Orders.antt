-- ===== src/Payment/Orders.antt =====
-- What a checkout reserves, and what the result handler accepts.
use online_prorab.Common.{
  ℕ, ◌≤◌, ◌<◌, ◌*◌, String, ◌≡◌, refl, sym, ◌∙◌, ap, ◌⊎◌, inl, inr, true, false, Option, none, some,
  [], ◌∷◌, ◌++◌, arith, find_where, Bool-cases, Option-cases, ◌&&◌, eq_iff, eq_refl,
}
use online_prorab.Common.Int.{eq_ℤ}
use online_prorab.Common.Monad.{Result, ok, Call-cases}
use online_prorab.Database.{
  Db, Order, Env, Error, begin, commit, find_by_key, find_open, random, insert_order,
}
use online_prorab.Subscription.{ensure_subscription}
use online_prorab.Subscription.Standing.{ensure_frame}
use online_prorab.Payment.{
  is_canceled, Incoming, production_obank_sandbox_mode, configured_obank_test_flag,
}
use online_prorab.Payment.Settle.{apply_obank_result}
use online_prorab.Payment.Reserve.{
  Request, has_key, is_recent_open, latest_where, new_order, differs_from,
  reserve_subscription_checkout,
}
use online_prorab.Payment.Handlers.{Server, checkout_price, max_int64, obank_result, done, refused}

same_terms :
    (q : Request) (price : ℕ) (o : Order)
    → differs_from q price o ≡ false
    → (o.plan_id ≡ q.plan_id) × (o.billing_period ≡ q.billing_period) × (o.amount_kgs ≡ price)
same_terms q price o h = (
  ground (arith, eq_iff o.plan_id q.plan_id),
  ground (arith, eq_iff o.billing_period q.billing_period),
  ground arith,
)

reserve_fits :
    (env : Env) (fresh_id user : String) (q : Request) (price : ℕ) (db db' : Db) (o : Order)
    → reserve_subscription_checkout env fresh_id user q price db ≡ (ok o, db')
    → differs_from q price o ≡ false
unfolding reserve_subscription_checkout
reserve_fits env fresh_id user q price db db' o h =
    elim (Call-cases (ensure_subscription env user db)) [
      | inr (x, mid, e) ↦ absurd (ground arith)
      | inl (s, mid, e) ↦
          elim (Option-cases (find_where (has_key user q.idempotency_key) mid.orders)) [
            | inr (p, f) ↦ ground arith
            | inl f ↦
                elim (Option-cases (latest_where (is_recent_open env.db_clock user) mid.orders)) [
                  | inr (p, g) ↦ ground arith
                  | inl g ↦ ground (arith, eq_refl q.plan_id, eq_refl q.billing_period)
                ]
          ]
    ]

-- A reservation that succeeds hands back an order whose plan, period and price are the ones that
-- were asked for.
pub reserve_terms :
    (env : Env) (fresh_id user : String) (q : Request) (price : ℕ) (db db' : Db) (o : Order)
    → reserve_subscription_checkout env fresh_id user q price db ≡ (ok o, db')
    → (o.plan_id ≡ q.plan_id) × (o.billing_period ≡ q.billing_period) × (o.amount_kgs ≡ price)
reserve_terms env fresh_id user q price db db' o h =
    same_terms q price o (reserve_fits env fresh_id user q price db db' o h)

-- A reservation leaves the orders as they are, or adds one at the end; it adds one only where the
-- account has no order under the request's key and no open order of the last 24 hours.
pub reserve_orders :
    (env : Env) (fresh_id user : String) (q : Request) (price : ℕ) (db db' : Db)
    (res : Result Error Order)
    → reserve_subscription_checkout env fresh_id user q price db ≡ (res, db')
    → (db'.orders ≡ db.orders)
      ⊎ ((db'.orders ≡ db.orders ++ new_order fresh_id env.db_clock user q price ∷ [])
          × (find_where (has_key user q.idempotency_key) db.orders ≡ none)
          × (latest_where (is_recent_open env.db_clock user) db.orders ≡ none))
unfolding reserve_subscription_checkout
reserve_orders env fresh_id user q price db db' res h =
    elim (Call-cases (ensure_subscription env user db)) [
      | inr (x, mid, e) ↦ inl (ground arith)
      | inl (s, mid, e) ↦
          let frame : mid.orders ≡ db.orders =
            ap (λ d. d.orders) (ensure_frame env user db mid (ok s) e) in
          elim (Option-cases (find_where (has_key user q.idempotency_key) mid.orders)) [
            | inr (p, f) ↦ inl (ground arith)
            | inl f ↦
                elim (Option-cases (latest_where (is_recent_open env.db_clock user) mid.orders)) [
                  | inr (p, g) ↦ inl (ground arith)
                  | inl g ↦
                      elim (Bool-cases (
                        env.up begin
                        && env.up find_by_key
                        && env.up find_open
                        && env.up random
                        && env.up insert_order
                        && env.up commit)) [
                          | inl up ↦ inr (
                            ground arith,
                            ap (find_where (has_key user q.idempotency_key)) (sym frame) ∙ f,
                            ap (latest_where (is_recent_open env.db_clock user)) (sym frame) ∙ g,
                          )
                          | inr down ↦ inl (ground arith)
                        ]
                ]
          ]
    ]

-- A retry under a key that has an order adds no order, whether it succeeds or not; where it succeeds,
-- it hands back the order under the key, which is not canceled.
pub reserve_retry :
    (env : Env) (fresh_id user : String) (q : Request) (price : ℕ) (db db' : Db) (p : Order)
    (res : Result Error Order)
    → find_where (has_key user q.idempotency_key) db.orders ≡ some p
    → reserve_subscription_checkout env fresh_id user q price db ≡ (res, db')
    → (db'.orders ≡ db.orders)
      × ((o : Order) → res ≡ ok o → (o ≡ p) × (is_canceled p.status ≡ false))
unfolding reserve_subscription_checkout
reserve_retry env fresh_id user q price db db' p res f h =
    elim (Call-cases (ensure_subscription env user db)) [
      | inr (x, mid, e) ↦ (ground arith, λ o r. absurd (ground arith))
      | inl (s, mid, e) ↦
          let frame : mid.orders ≡ db.orders =
            ap (λ d. d.orders) (ensure_frame env user db mid (ok s) e) in
          let g : find_where (has_key user q.idempotency_key) mid.orders ≡ some p =
            ap (find_where (has_key user q.idempotency_key)) frame ∙ f in
          (ground arith, λ o r. (ground arith, ground arith))
    ]

-- A price that a checkout is made at is above 0, and its amount in kopecks fits an int64, where the
-- price of the production sandbox is between 1 and 100, as the configuration demands.
pub checkout_price_bounds :
    (s : Server) (q : Request) (price : ℕ)
    → (production_obank_sandbox_mode s.config ≡ true
        → (1 ≤ s.config.test_price_kgs) × (s.config.test_price_kgs ≤ 100))
    → checkout_price s q ≡ some price
    → (0 < price) × (price * 100 ≤ max_int64)
unfolding checkout_price
checkout_price_bounds s q price sandbox h = ground arith

-- The result handler answers 200 only to a verified notification of this merchant and of its mode,
-- and then the notification was applied.
pub obank_result_accepts :
    (s : Server) (env : Env) (verified : Option Incoming) (db db' : Db)
    → obank_result s env verified db ≡ (done 200, db')
    → (r : Incoming) × (verified ≡ some r)
      × (r.site_id ≡ s.config.sid)
      × (eq_ℤ r.test (configured_obank_test_flag s.config) ≡ true)
      × (apply_obank_result s.config env r db ≡ (ok tt, db'))
unfolding obank_result
obank_result_accepts s env none db db' h = absurd (ground arith)
obank_result_accepts s env (some r) db db' h =
    elim (Call-cases (apply_obank_result s.config env r db)) [
      | inl (u, t, e) ↦
          (r, refl, ground (arith, eq_iff r.site_id s.config.sid), ground arith, ground arith)
      | inr (x, t, e) ↦ absurd (ground arith)
    ]

-- Every refusal of the result handler leaves the tables as they are, also one in the middle of a
-- settlement.
pub obank_result_refuses :
    (s : Server) (env : Env) (verified : Option Incoming) (db db' : Db) (status : ℕ)
    → obank_result s env verified db ≡ (refused status, db')
    → db' ≡ db
unfolding obank_result apply_obank_result
obank_result_refuses s env none db db' status h = ground arith
obank_result_refuses s env (some r) db db' status h = ground arith
