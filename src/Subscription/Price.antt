-- ===== src/Subscription/Price.antt =====
-- The prices of planPrice.
use online_prorab.Common.{ℕ, ◌<◌, ◌≤◌, String, ◌≡◌, ◌≢◌, ◌↔◌, none, some, arith, eq_iff, false}
use online_prorab.Subscription.{Plan, Pricing, plan_by_code, plan_price, known_period}

-- The annual discount of a plan is at most 100 percent, so that the price does not go below 0.
pub plan_by_code-discount :
    (code : String) (plan : Plan)
    → plan_by_code code ≡ some plan
    → (plan.annual_discount_percent ≤ 15) × (plan.price_kgs ≤ 5000)
unfolding plan_by_code
plan_by_code-discount code plan h = ground arith

-- For a plan that is on sale and not the trial, with overrides of at most 100 as the configuration
-- demands, a quoted price is above 0 and at most 51000, what a year of the largest plan costs.
pub plan_price_bounds :
    (c : Pricing) (code period : String) (plan : Plan) (price : ℕ)
    → plan_by_code code ≡ some plan
    → plan.id ≢ "trial"
    → c.override_kgs ≤ 100
    → c.staging_test_price_kgs ≤ 100
    → plan_price c plan period ≡ some price
    → (0 < price) × (price ≤ 51000)
unfolding plan_by_code plan_price
plan_price_bounds c code period plan price found paid o t h = ground (arith, eq_iff plan.id "trial")

-- A price is refused exactly for a billing period other than "month" and "year", whatever the plan
-- and the overrides.
pub plan_price-none :
    (c : Pricing) (plan : Plan) (period : String)
    → (plan_price c plan period ≡ none) ↔ (known_period period ≡ false)
unfolding plan_price
plan_price-none c plan period = (λ h. ground arith, λ h. ground arith)
