-- ===== src/Payment.antt =====
-- backend/internal/httpapi/subscription_checkout.go and obank_sandbox.go: payment orders, the bank's
-- notifications, and the subscription that a payment starts.
pub mod Settle
pub mod Effect
pub mod Exact
pub mod Paid
pub mod Reserve
pub mod Handlers
pub mod Orders
pub mod History
use Prim.Native.Char.{Char, code}
use Prim.Native.String.{[], ◌∷◌}
use online_prorab.Common.{
  ℕ, ◌+◌, ◌*◌, String, Bool, true, false, not, ◌&&◌, ◌||◌, Option, none, some, leb, ltb, ◌==◌,
  str_eq, if◌then◌else◌,
}
use online_prorab.Common.Int.{ℤ, pos}
use online_prorab.Database.{Order, OrderStatus}

-- The part of the configuration that payments depend on (config.OBankConfig and the environment).
pub record Config : Type 0 where
  pub is_production : Bool
  pub enabled : Bool
  pub test : Bool
  pub sid : String
  pub password : String
  pub test_only_phone : String
  pub test_price_kgs : ℕ

-- obank.Result, the content of a notification whose signature was verified.
pub record Incoming : Type 0 where
  pub transaction_id : String
  pub status : ℤ
  pub site_id : String
  pub order_id : String
  pub amount_kopecks : ℤ
  pub currency : String
  pub test : ℤ
  pub invoice_id : String

unfoldable pub production_obank_sandbox_mode : Config → Bool
production_obank_sandbox_mode c = c.is_production && c.enabled && c.test

unfoldable pub configured_obank_test_flag : Config → ℤ
configured_obank_test_flag c = if c.test then pos 1 else pos 0

abbrev pub is_pending : OrderStatus → Bool
is_pending OrderStatus.pending = true
is_pending _ = false

abbrev pub is_processing : OrderStatus → Bool
is_processing OrderStatus.processing = true
is_processing _ = false

abbrev pub is_paid : OrderStatus → Bool
is_paid OrderStatus.paid = true
is_paid _ = false

abbrev pub is_canceled : OrderStatus → Bool
is_canceled OrderStatus.canceled = true
is_canceled _ = false

-- `status IN ('pending', 'processing')`.
abbrev pub is_open : OrderStatus → Bool
is_open status = is_pending status || is_processing status

abbrev pub is_order : String → Order → Bool
is_order id o = str_eq o.order_id id

abbrev pub is_open_order : String → Order → Bool
is_open_order id o = str_eq o.order_id id && is_open o.status

-- `COALESCE(NULLIF(old, ''), NULLIF(new, ''))`.
abbrev pub keep_or : String → String → String
keep_or old new = if str_eq old "" then new else old

abbrev is_key_character : ℕ → Bool
is_key_character c =
    leb b'a' c && leb c b'z'
    || leb b'A' c && leb c b'Z'
    || leb b'0' c && leb c b'9'
    || c == b'-'
    || c == b'_'

-- `safeIdempotencyKey`.
unfoldable pub safe_idempotency_key : String → Bool
safe_idempotency_key [] = true
safe_idempotency_key (c ∷ s) = is_key_character (code c) && safe_idempotency_key s

-- `billingPeriodRussian`.
unfoldable pub billing_period_russian : String → String
billing_period_russian period = if str_eq period "year" then "1 год" else "1 месяц"
