-- ===== src/Lib.antt =====
-- The Go backend of OnlineProrab: accounts with subscriptions, payments through the bank's O!Dengi
-- checkout, projects with members, login limits, the realtime hub and the deletion of stored objects.
--
-- The parts, and how they interact. A request reaches a handler of backend/internal/httpapi, which
-- makes one or more rounds of SQL statements on the tables. Handlers of projects and members ask
-- subscription_limits.go what the account may do; a checkout reserves an order, the bank's
-- notification settles it, and the settlement extends the subscription. The login handlers stand
-- behind a limiter and open sessions, changes of projects go to a hub of listeners, and a worker deletes the objects
-- whose rows are gone.
--
-- Which file models which part:
-- - Common: the libraries' names that the modules share, Boolean tests, tables as lists of rows
--   (Common/Tables), integers (Common/Int) and the calls with state and errors (Common/Monad).
-- - Database: the tables of backend/internal/database/migrations as records, and what a call finds
--   outside: which statements the server completes and the two clocks.
-- - Text: the functions of package strings that the code calls, and normalizePhone.
-- - Subscription, with Price, Standing and Limits: httpapi/subscription_limits.go (planByCode,
--   planPrice, ensureSubscription, ensureProjectCreationAllowed, ensureProjectMemberCapacity).
-- - Calendar, with Periods: addSubscriptionPeriod of httpapi/subscription_checkout.go.
-- - Payment: httpapi/subscription_checkout.go and obank_sandbox.go. Settle has applyOBankResult and
--   activateSubscriptionFromPayment, Reserve reserveSubscriptionCheckout and saveOBankInvoice,
--   Handlers SubscriptionCheckout, getSubscriptionCheckout and OBankResult. Effect, Exact, Paid,
--   Orders and History hold the proofs.
-- - Project: httpapi/permissions.go and projects.go (hasProjectPermission, createProject,
--   updateProject, deleteProject); Team: project_team.go (CreateProjectInvite, AcceptProjectInvite,
--   ProjectMember). Access, Limits and Membership hold the proofs.
-- - RateLimit: httpapi/auth_abuse.go and sms_rate_limit.go (reserveAuthAttempt, completeAuthAttempt);
--   Middleware: the two middlewares; Address: requestRemoteKey. Window and History hold the proofs.
-- - Bank: VerifyResult of backend/internal/payment/obank/client.go, with its proofs in Signature.
-- - Session: httpapi/sessions.go (CreateSession, RefreshSession, LogoutSession). Limit, History and
--   Rotation hold the proofs.
-- - Login: the request of a code of httpapi/auth.go; Verify: VerifySMSCode and
--   VerifyAccountDeletionSMSCode of account_deletion_auth.go. Codes, Machine, Guesses and History hold
--   the proofs.
-- - Account: requireAuth, requireAccountDeletionAuth, requireSubscribed and DeleteAccount of
--   httpapi/auth.go, account_deletion_auth.go, subscription_auth.go and account.go. Deletion holds the
--   proofs.
-- - Entry: what members write down in a project, of httpapi/tasks.go, cost_items.go, daily_reports.go and
--   files.go. Requests has the normalizations and validations, with normalizeISODate, validateMoneyAmount
--   and normalizeProjectCurrency of projects.go; Paths isSafeStoragePath; Writes the statements and
--   transactions; Handlers the checks before them; Listing the listings, with who sees them. Admission,
--   Scope, Reach, Elsewhere, Authorized and Detach hold the proofs. Text/Path has package path.
-- - Realtime, with Bounds: the hub of httpapi/realtime.go.
-- - Storage, with Retry, Lease, Claims and Batch: storage/deletion_worker.go; Key: cleanKey of
--   storage/key.go.
-- - Config, with Key, Values, Rules, Validate, Production, State, Runs, Safe, Hardened, Prices and Codes:
--   backend/internal/config/config.go and SetState of httpapi/state.go. Key has the checks of a signing
--   key, Values the readers of variables, Rules, Validate and Production the parts of Validate, State
--   what the handlers are given of a configuration; the others hold the proofs, and Prices puts
--   Validate together with the prices of Subscription and the checkout of Payment, and Codes with the
--   login codes of Login.
-- - Tests: the program on small inputs.
--
-- How the code is modelled. A handler takes the tables and returns its answer with the tables
-- after it. An SQL statement is a function on lists of rows, with its WHERE clause as a Boolean
-- test. Every statement may fail: the environment says which do, and a transaction that fails
-- restores the tables. A row lock or an advisory lock lasts as long as its transaction, so a
-- transaction that takes one is one step, and the interleavings of several callers are the
-- sequences of such steps. The opening of a session takes no lock: it is given which rows of
-- overlapping logins it does not see. The handlers of Entry check and write in different
-- statements: they are given the tables before and after what others do in between. Text ids
-- stand for UUIDs. Times are nanoseconds from the Unix epoch, and the clocks of the program and
-- of the database are separate. What the bank answers, hashes and fresh random ids are
-- arguments. Counts and ids are unbounded natural numbers; an amount of money is an integer, and
-- the bound that the checkout puts on it is written out. The loop over batches of the deletion
-- worker takes fuel, with what every batch finds outside, and within five seconds of the
-- database's clock one batch more than there are rows due is enough; every other loop of the
-- code goes over a list or counts to a fixed number. The JWT library, the hashes and the signing
-- of tokens are functions that the definitions are given, and so are the operations on float64
-- and the functions of net, net/url and net/netip and the parser of the driver of the database.
-- Tasks, cost items, daily reports and files share a row type with the columns that all four
-- tables have.
--
-- What is not modelled. Load, which reads the variables of a configuration one after another,
-- and the migrations; the upload and the download of files; the decoding of requests and the
-- bodies of answers, the audit log, which the code writes without looking at the outcome, and
-- the push messages; the HTTP clients of the bank, of the SMS senders and of the object stores,
-- which only call outside services; the start-up and the routes.
pub mod Common
pub mod Database
pub mod Text
pub mod Subscription
pub mod Calendar
pub mod Payment
pub mod Project
pub mod RateLimit
pub mod Realtime
pub mod Storage
pub mod Session
pub mod Login
pub mod Account
pub mod Bank
pub mod Entry
pub mod Config
pub mod Tests
