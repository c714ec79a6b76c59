-- ===== src/Config/Prices.antt =====
-- What a checkout costs under a configuration that Validate accepts: planPrice, the checkout and
-- Validate together.
use mathlib.Core.Path.{subst}
use online_prorab.Common.{
  ℕ, ◌*◌, ◌-◌, ◌/◌, ◌≤◌, ◌<◌, String, ◌≡◌, ◌≢◌, sym, ◌⊎◌, inl, inr, Bool, true, false, ◌||◌, none,
  some, [], arith, eq_iff, str_eq, Bool-cases, Option-cases,
}
use online_prorab.Common.Int.{ℤ, pos, negsuc, is_below, is_above, positive_part}
use online_prorab.Subscription.{Plan, Pricing, plan_by_code, plan_price}
use online_prorab.Subscription.Price.{plan_price_bounds}
use online_prorab.Payment.{production_obank_sandbox_mode}
use online_prorab.Payment.Reserve.{Request}
use online_prorab.Payment.Handlers.{checkout_price}
use online_prorab.Config.{Config, Net, is_staging}
use online_prorab.Config.Key.{Float}
use online_prorab.Config.Rules.{price_problems, out_of_range}
use online_prorab.Config.Validate.{sandbox_problems}
use online_prorab.Config.Production.{validate}
use online_prorab.Config.State.{pricing_of, payment_config_of, server_of}
use online_prorab.Config.Safe.{clean}

-- The price of a plan for a month, or for a year with the discount of the plan.
abbrev pub IsListed : Plan → String → ℕ → Type 0
IsListed plan period price =
    (period ≡ "month") × (price ≡ plan.price_kgs)
    ⊎ (period ≡ "year") × (price ≡ plan.price_kgs * 12 * (100 - plan.annual_discount_percent) / 100)

pub record IsCharged (c : Config) (q : Request) (price : ℕ) : Type 0 where
  pub positive : 0 < price
  pub bounded : price ≤ 51000
  pub sandbox : production_obank_sandbox_mode (payment_config_of c) ≡ true → price ≤ 100
  pub listed :
      is_staging c ≡ false
      → production_obank_sandbox_mode (payment_config_of c) ≡ false
      → (plan : Plan) × (plan_by_code q.plan_id ≡ some plan)
        × (plan.id ≢ "trial")
        × IsListed plan q.billing_period price

in_range : (n : ℤ) → out_of_range n ≡ false → positive_part n ≤ 100
in_range (pos n) h = ground arith
in_range (negsuc n) h = ground arith

at_least_one :
    (n : ℤ)
    → (is_below n 1 || is_above n 100) ≡ false
    → (1 ≤ positive_part n) × (positive_part n ≤ 100)
at_least_one (pos n) h = (ground arith, ground arith)
at_least_one (negsuc n) h = absurd (ground arith)

list_price :
    (p : Pricing) (plan : Plan) (period : String) (n : ℕ)
    → p.is_staging ≡ false
    → plan_price p plan period ≡ some n
    → IsListed plan period n
unfolding plan_price
list_price p plan period n live h = elim (Bool-cases (str_eq period "month")) [
  | inl e ↦ inl ((eq_iff period "month").0 e, ground arith)
  | inr e ↦ elim (Bool-cases (str_eq period "year")) [
    | inl f ↦ inr ((eq_iff period "year").0 f, ground arith)
    | inr f ↦ absurd (ground arith)
  ]
]

module _ {A W : Type 0} (net : Net A) (fl : Float W) (c : Config)
    (valid : validate net fl c ≡ none) where
  overrides :
      (positive_part c.subscription_price_override_kgs ≤ 100)
      × (positive_part c.staging_test_payment_price_kgs ≤ 100)
  unfolding price_problems
  overrides =
      let h : price_problems c ≡ [] = (clean net fl c valid).price in
      (
        in_range c.subscription_price_override_kgs (ground (arith, h)),
        in_range c.staging_test_payment_price_kgs (ground (arith, h)),
      )

  sandbox_price :
      production_obank_sandbox_mode (payment_config_of c) ≡ true
      → (1 ≤ positive_part c.obank.test_price_kgs) × (positive_part c.obank.test_price_kgs ≤ 100)
  unfolding sandbox_problems production_obank_sandbox_mode payment_config_of
  sandbox_price mode =
      let h : sandbox_problems net c ≡ [] = (clean net fl c valid).sandbox in
      at_least_one c.obank.test_price_kgs (ground (arith, h, mode))

  -- Under a configuration that Validate accepts, every checkout costs more than 0 and at most 51000 som, what
  -- a year of the largest plan costs; at most 100 in the sandbox of production; and outside of
  -- staging and of that sandbox exactly the list price of a plan that is not the trial.
  pub checkout_price_lem :
      (has_db : Bool) (q : Request) (price : ℕ)
      → checkout_price (server_of c has_db) q ≡ some price
      → IsCharged c q price
  unfolding checkout_price server_of payment_config_of pricing_of
  checkout_price_lem has_db q price h = elim (Option-cases (plan_by_code q.plan_id)) [
    | inl e ↦ absurd (ground arith)
    | inr (plan, e) ↦ elim (Option-cases (plan_price (pricing_of c) plan q.billing_period)) [
      | inl f ↦ absurd (ground arith)
      | inr (n, f) ↦
          let paid : plan.id ≢ "trial" =
            λ is_trial. ground (arith, (eq_iff plan.id "trial").1 is_trial) in
          let (above, below) =
            plan_price_bounds (pricing_of c) q.plan_id q.billing_period plan n e paid (overrides.0)
              (overrides.1) f in
          record {
            positive = ground (arith, sandbox_price, above);
            bounded = ground (arith, sandbox_price, below);
            sandbox = λ mode. ground (arith, sandbox_price mode);
            listed = λ live off.
                let same : price ≡ n = ground arith in
                (
                  plan,
                  e,
                  paid,
                  subst (IsListed plan q.billing_period) (sym same)
                      (list_price (pricing_of c) plan q.billing_period n live f),
                );
          }
    ]
  ]
