-- ===== src/Tests.antt =====
-- The program on small inputs, and each result at an input that meets its hypotheses.
mod Samples
mod Subscriptions
mod Payments
mod Projects
mod Workers
mod Accounts
mod Entries
mod Configs
