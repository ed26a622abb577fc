-- ===== src/Lib.antt =====
-- The back end of BankShield, a bank on NestJS and Prisma: transfers with limits, idempotency keys
-- and a fraud check, reversals, logins with sessions and a lock, and the administration of users.
--
-- The parts of the program and the files that model them (paths from the repository's root):
--
-- * backend/prisma/schema.prisma, the tables and the enumerations that the services work on, in
--   Model (Model.Rows, Model.Enums). A column keeps its name in snake case; `updatedAt` is left out.
-- * backend/src/transactions/transactions.service.ts in Transactions: `normalizeIdempotencyKey`,
--   `getTransferFingerprint` and `findIdempotentTransfer` in Idempotency, `enforceTransferLimits` in
--   Limits, the checks of `transfer` in Checks, its closing transaction in Settlement, `transfer` in
--   Transfer and `reverse` in Reversal.
-- * backend/src/fraud/fraud.service.ts in Fraud; the engine that it asks is the parameter
--   FraudEngine, which gives an answer or fails.
-- * backend/src/devices/devices.service.ts in Devices.
-- * backend/src/auth in Auth: auth.service.ts in Sessions (`createRefreshToken`, `issueSession`,
--   `refresh`, `logout`, `revokeSession`, `revokeAllSessions`), Password (`changePassword`,
--   `forgotPassword`, `resetPassword`) and Login (`register`, `login`, the second step of a login);
--   mfa.service.ts in Mfa (`verifyUserCode`, `consumeRecoveryCode`), Mfa.Disable (`disable`) and
--   Mfa.Setup (`setup`, `verifySetup`, `regenerateRecoveryCodes`, the cipher's texts and the codes);
--   auth.guard.ts and roles.guard.ts in Guards.
-- * backend/src/users/users.service.ts, and `updateUserStatus` of backend/src/admin/admin.service.ts,
--   in Users.
-- * backend/src/accounts, backend/src/beneficiaries and backend/src/fraud-alerts in Accounts,
--   Beneficiaries and FraudAlerts.
-- * backend/src/soc/soc.service.ts in Soc: the investigation cases, the notes and the status of an
--   alert in Notes, the counts and the report in Summary, the export as comma-separated values in
--   Report, with a reader of such texts in Report.Reader.
-- * backend/src/security-events in SecurityEvents (`create`; the listings in Queries) and
--   backend/src/audit-logs in AuditLogs; the page of a listing, backend/src/common/dto, in Paging, and
--   the counts by name of the summaries in Counts.
-- * the request id and the error filter of backend/src/common, and of backend/src/app-setup.ts the
--   test of an origin, in Http; backend/src/config/configuration.ts in Config, where Config.Checks has
--   what safe settings are.
-- * the listings of a user's own rows (`getMyAccounts`, `getSessions`, `getMyDevices`, `findMine`,
--   `getMyTransactions`) in Own; whose rows they are in Own.Mine.
-- * the controllers, backend/src/*/*.controller.ts, in System.Routes: each route that changes
--   something, with the guards and the roles before it. System.Runs has the databases that any
--   sequence of requests leads to, System.Ledger what a client sees of the accounts, System.Money and
--   System.Quiet what each request does to the accounts.
-- * the rows that many services write (audit log, security events, login attempts), in Store.
--
-- How they interact: every service works on one database, so that its state is the record Db with a
-- list of rows for each table, and an operation is a Handler, from a World to a result or an error
-- and the World after it. The World also holds what the clock and the random source will give, and
-- what other requests commit (`others`): a `$transaction` first applies the next of these, so that
-- the checks before it may be out of date, and it is rolled back if its body throws. Outside a
-- transaction what a handler has written stays when it throws. A transfer calls Fraud and Devices,
-- a login calls Devices and Sessions, and Guards reads the token version that Sessions, Password and
-- Users raise.
--
-- The Prisma client is not in the repository: the record Prisma has its queries with what its
-- documentation says of each as laws, and Prisma.Listed is a client that meets them. The digests,
-- the password hashes and the signed tokens of Node crypto, bcrypt and @nestjs/jwt are the record
-- Crypto, with the law that a password opens its own hash; the codes of otplib and the cipher of the
-- stored secret are Totp. What a transfer takes of the platform (a digest, the start of the day, the
-- hour) is the record Platform; what the configuration takes of it (the parser of URLs, with the law
-- that an IPv6 host stands in brackets, and the reading of a number) is another. How JavaScript
-- writes a number, an amount or a time is the record Texts, and what text stands in the columns that
-- the model keeps as parts is the record Printer.
--
-- Numbers: money is counted in cents, a balance is an integer of any size, and times are in
-- milliseconds. A number of a client is taken as the validation of its DTO leaves it. Texts are
-- unbounded; `toLowerCase` and `toUpperCase` act on the letters of ASCII. A text such as
-- `Transaction:7` is kept as its parts (Resource), and an object that goes into `JSON.stringify` as
-- its fields (Details). A response leaves out what it only copies from a row that is returned.
--
-- Fuel: the loop that draws an account number runs on fuel, and with a free number among the draws
-- that the fuel allows it returns one. All other functions are structural.
--
-- A run of the system is a sequence of requests. What others commit while a request runs (`others`)
-- are runs themselves, so that requests interleave where a transaction begins.
--
-- Not modelled: the plain listings of backend/src/soc (reads with joins and sorts whose rows are
-- only copied), the alerts by day and the notifications, which are the fraud engine's; the rate
-- limits, the modules, the health check, logging and the mail that a reset would send, which are
-- the framework's or input and output; the Python fraud engine, the front ends and the migrations.
pub mod Base
pub mod Int
pub mod Text
pub mod Model
pub mod Prisma
pub mod Handler
pub mod Store
pub mod Fraud
pub mod Devices
pub mod Transactions
pub mod Auth
pub mod Users
pub mod Accounts
pub mod Beneficiaries
pub mod FraudAlerts
pub mod Soc
pub mod SecurityEvents
pub mod AuditLogs
pub mod Own
pub mod System
pub mod Http
pub mod Config
pub mod Counts
pub mod Paging
