-- ===== src/Lib.antt =====
-- Verification library of the 9plus API.
--
-- The platform is a set of NestJS services. Work that crosses services runs as a saga: the
-- orchestrator sorts the steps, runs each under a time limit, and at the first failure compensates
-- the completed steps in reverse order; it tells an event publisher about each step and saves its
-- state in a store. The core service registers a user by such a saga, over its database, password
-- hashing and Kafka.
--
-- Files and sources:
--   Common              Helpers. Common.Result is the model of async methods: a computation takes a
--                       state and gives a value or a thrown error together with the next state.
--                       Common.Dict is a JavaScript Map or object, with entries in insertion order.
--   Saga.Types          shared/common/src/saga/saga.interface.ts and interfaces/: the records and
--                       enums. `Run` pairs the context that the steps share with the outside world.
--   Saga.Events         publishEvent of shared/common/src/saga/saga-orchestrator.service.ts.
--   Saga.Steps          executeStep, executeWithTimeout, compensate, sortSteps and the loop of
--                       execute, of the same file. Its children hold the theorems: Order on sorting,
--                       Trace and Rollback on the calls a saga makes,
--                       Recovery and Plain on what its steps leave behind.
--   Saga.Orchestrator   execute and getStatus of the same file; children Calls, Recovery, Outcome
--                       and Recorded.
--   Saga.StateStore     shared/common/src/saga/saga-state-store.service.ts; children Laws,
--                       Updated, Expiry and Keys.
--   Saga.Memory         That orchestrator over that store: the objects that it saves; child Status on
--                       what getStatus reads.
--   Saga.Publisher      shared/common/src/saga/saga-event-publisher.service.ts; child Flat compares it
--                       with a plain list of subscriptions.
--   Registration        apps/core/src/saga/user-registration.saga.ts: the steps, their compensations
--                       and, in Registration.Username, generateUsername. Registration.Atomic uses the
--                       saga's recovery theorem.
--   Authorization       shared/authorization/src/guards: canActivate of the three guards that stand
--                       before a handler; child Combined on the guards in turn, Safety on what an
--                       admitted request has shown, Refusal on what they throw.
--   Consumer            apps/searcher/src/kafka/kafka-consumer.service.ts: handleMessage,
--                       getRetryAttempt, sendToDeadLetterQueue, registerHandler and eachMessage;
--                       Consumer.Attempts reads the retry header; child Delivery on commits and
--                       retries, Redelivery on a message that is delivered again and again.
--   Saga.Actions        What the bodies of steps are made of, and in Saga.Actions.Keeps the laws of
--                       actions that an observer of the world does not see.
--   Payment             plugins/payment/src/saga/subscription-payment.saga.ts: the steps, their
--                       compensations and the simulated helper methods; child Ledger on the steps
--                       that move no money, Charged on the whole saga, Simulated on the saga over the
--                       helper methods that the source has.
--   Lag                 apps/searcher/src/kafka/kafka-offset.service.ts: getConsumerLag, hasLag and
--                       getTotalLag; child Total relates the last two.
--   TestRun, TestResult plugins/ai-agent-testing/src/domain/entities/test-run.entity.ts: the entities of
--                       a test run and of a test's result; children Counts and Timing on sequences of
--                       calls of their methods.
--   TestService         plugins/ai-agent-testing/src/application/services/test-run.service.ts, and findByIds
--                       of test-case.service.ts; child Pages on reading page after page.
--   TestExecution       plugins/ai-agent-testing/src/application/sagas/execute-test-run.saga.ts: the steps
--                       and their compensations over TestService; child Tally on the counters, View on
--                       the steps that leave the run alone, Settled on the whole saga.
--   ApiRunner           plugins/ai-agent-testing/src/infrastructure/runner/api-runner.ts: child Url is
--                       resolveUrl, Steps one step; Report compares the report with the steps in turn,
--                       Offline is on tests that send no request.
--   Cache               apps/gateway/src/services/cache.service.ts; child Aside is on getOrSet.
--   Loaders             plugins/payment/src/dataloader/payment.dataloader.service.ts,
--                       apps/core/src/users/users.dataloader.service.ts and
--                       apps/core/src/roles/roles.dataloader.service.ts: the batch functions; child
--                       Batch compares a batch with loading the keys one by one.
--   Roles               apps/core/src/permissions/role-permission.service.ts; child Checks compares the
--                       checks with the list of a user's permissions, Grouped is on the actions by
--                       resource, Kept on deleteRole.
--   Logs                apps/logger/src: processRawLogLine, processAndShip and what they call in
--                       log-processor/log-processor.service.ts, shipLogBatch of
--                       log-shipper/log-shipper.service.ts, handleLogLine and flushBuffer of
--                       file-watcher/file-watcher.service.ts; child Names is extractServiceName,
--                       Service on the names it gives, Delivery on what arrives and what is lost.
--   Users               apps/core/src/users/users.service.ts over the model of
--                       apps/core/prisma/schema.prisma; child Tokens is login, logout and
--                       isTokenBlacklisted, Rows what an update leaves in a row, Blacklist on logout.
--   Auth                apps/core/src/auth/auth.service.ts: tokens, register and login, in Auth.Accounts
--                       the other methods, with verifyToken of two-factor.service.ts, in
--                       Auth.Passwords validatePasswordStrength of password.service.ts; child Admission
--                       is on who logs in, Stale on failed logins, Reset on the reset of a
--                       password, Refresh on refresh tokens and the second factor.
--   Billing             plugins/payment/src/billing/billing.service.ts: processPayment and
--                       markInvoicePaid, in Billing.Invoices the other methods; child Types is the models
--                       of plugins/payment/prisma/schema.prisma and the providers' interface, Providers
--                       the registry providers/provider.factory.ts, Rows what Prisma's queries and updates
--                       mean, Paid is on payments, Overdue on overdue invoices.
--   Checkout            plugins/payment/src/checkout/checkout.service.ts over Billing: processPayment,
--                       which is `pay_invoice` here, and refundPayment, in Checkout.Sessions the
--                       creation of a session; child Refunds is on refunds of one transaction, Bills
--                       on the invoice of a session.
--
-- Parameters. The steps, the event publisher, the state store and the clock are records of
-- functions on an arbitrary world. The registration's Prisma client, Bun's password hash and the
-- Kafka producer are the record `Backend`; what is asked of the database are the records of laws in
-- Registration.Keeps and Registration.Atomic, where a deletion may be refused; no step is asked to
-- succeed, but the theorem asks each to settle within its time limit. The payment saga's helper
-- methods are the record `Gateway`, with laws in Payment.Ledger; Payment.Simulated meets them with the
-- source's own helper methods, beside which a list of the payments is kept. The guards' two services,
-- the Kafka client with JSON.parse, and Kafka's admin client are the records `AuthServices`, `Broker`
-- and `Admin`, of which nothing is asked. Prisma's calls for test runs, roles and the data loaders
-- are the records `TestClient` and `RoleClient` and the query of a loader; the theorems that need it
-- state what a query finds and what an update leaves. The two test runners of the saga, the
-- network and the JSON values of the API runner, what the log collector calls, and Redis with JSON
-- are `Runners`, `Http`, `Platform` and `Redis`. The database, loaders, tokens and events of the
-- users and what sign-in needs beside them are `UserClient` and `AuthClient`; Auth.Attempts
-- and Auth.Reset have the laws of the user table, the first of one account, for which Auth.Stale takes
-- loaders that keep the row as it was first read, the second of all accounts with any loaders. The
-- database of the payment plugin, its clock and random texts are `ShopClient`, a payment provider is
-- `Provider`, and `Numbers` has the operations on JavaScript's numbers and Prisma's decimals, of which
-- nothing is asked. The concrete instances in the Tests modules meet these laws.
--
-- Bounds. Every loop of these sources is over a list, so the model is total without fuel; reading all
-- pages of test runs takes fuel, and TestService.Pages shows how much is enough. Times are
-- milliseconds in ℕ. A promise carries the time at which it settles, and the race against the timer
-- compares that time with the limit. Offsets, amounts and counters are unbounded, where JavaScript's
-- numbers are exact up to 2^53.
--
-- Not modelled. Log output; the effects of a timed-out step that happen after its timer fired (they
-- are taken to have happened at the timeout); interleavings of two sagas over one store, and of
-- lines that arrive while a flush waits; connecting to Kafka and the printed lag report; the web
-- runner, which drives a browser. Resolvers, Nest modules, DTOs and the remaining services
-- (organizations, plugins, the three payment providers, the gateway but for its cache, generation of
-- test documents, indexing) are not modelled.
pub mod Common
pub mod Saga
pub mod Registration
pub mod ApiRunner
pub mod Auth
pub mod Authorization
pub mod Billing
pub mod Cache
pub mod Checkout
pub mod Consumer
pub mod Lag
pub mod Loaders
pub mod Logs
pub mod Payment
pub mod Roles
pub mod TestExecution
pub mod TestResult
pub mod TestRun
pub mod TestService
pub mod Users
