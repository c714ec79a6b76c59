-- ===== src/Tests/Samples.antt =====
-- A database with one account that has a running subscription and one open order.
use online_prorab.Common.{ℕ, ◌*◌, ◌+◌, true, false, some, none, [], ◌∷◌}
use online_prorab.Common.Int.{pos}
use online_prorab.Database.{
  Db, User, Subscription, SubscriptionStatus, Order, OrderStatus, Project, ProjectStatus, Member,
  Env, day,
}
use online_prorab.Subscription.{Pricing, Plan, State}
use online_prorab.Payment.{Config, Incoming}
use online_prorab.Payment.Handlers.{Server}

-- 2024-01-31, 00:00 UTC.
abbrev pub january_31 : ℕ
january_31 = 1706659200000000000

abbrev pub env : Env
env = record { up = λ s. true; clock = january_31; db_clock = january_31 }

abbrev pub aida : User
aida = record { id = "aida"; phone = "+996555000111"; created_at = january_31 }

abbrev pub aida_row : Subscription
aida_row = record {
  user_id = "aida";
  plan_code = "standard";
  status = SubscriptionStatus.active;
  billing_period = "month";
  started_at = january_31;
  trial_ends_at = january_31;
  current_period_end = some (january_31 + 5 * day);
}

abbrev pub order : Order
order = record {
  order_id = "stroy_1";
  user_id = "aida";
  idempotency_key = "0123456789abcdef";
  plan_id = "max";
  billing_period = "month";
  amount_kgs = 5000;
  amount_kopecks = pos 500000;
  currency = "KGS";
  status = OrderStatus.pending;
  invoice_id = "";
  provider_transaction = "";
  payment_url = "";
  bank_app_link = "";
  status_checked_at = none;
  created_at = january_31;
  paid_at = none;
}

abbrev pub home : Project
home = record { id = "home"; owner_id = "aida"; status = ProjectStatus.active; deleted = false }

abbrev pub owner_row : Member
owner_row = record { project_id = "home"; user_id = "aida"; role = "owner" }

abbrev pub worker_row : Member
worker_row = record { project_id = "home"; user_id = "bek"; role = "worker" }

abbrev pub db : Db
db = record {
  users = aida ∷ [];
  subscriptions = aida_row ∷ [];
  orders = order ∷ [];
  projects = home ∷ [];
  members = owner_row ∷ worker_row ∷ [];
  invites = [];
}

abbrev pub config : Config
config = record {
  is_production = false;
  enabled = true;
  test = true;
  sid = "site";
  password = "secret";
  test_only_phone = "";
  test_price_kgs = 0;
}

abbrev pub pricing : Pricing
pricing = record {
  is_staging = false;
  override_kgs = 0;
  obank_enabled = true;
  obank_test = true;
  staging_test_price_kgs = 0;
}

abbrev pub server : Server
server = record { config = config; pricing = pricing; has_db = true }

abbrev pub approval : Incoming
approval = record {
  transaction_id = "t1";
  status = pos 3;
  site_id = "site";
  order_id = "stroy_1";
  amount_kopecks = pos 500000;
  currency = "KGS";
  test = pos 1;
  invoice_id = "i1";
}

abbrev pub paid_order : Order
paid_order = record order {
  status = OrderStatus.paid;
  invoice_id = "i1";
  provider_transaction = "t1";
  paid_at = some january_31;
}

abbrev pub max_plan : Plan
max_plan = record {
  id = "max";
  price_kgs = 5000;
  annual_discount_percent = 15;
  max_projects = 20;
  max_invited_members = 20;
  trial_days = 0;
}

abbrev pub standard_plan : Plan
standard_plan = record {
  id = "standard";
  price_kgs = 3000;
  annual_discount_percent = 10;
  max_projects = 5;
  max_invited_members = 5;
  trial_days = 0;
}

abbrev pub aida_state : State
aida_state = record {
  plan = standard_plan;
  status = SubscriptionStatus.active;
  billing_period = "month";
  started_at = january_31;
  trial_ends_at = january_31;
  current_period_end = some (january_31 + 5 * day);
}
