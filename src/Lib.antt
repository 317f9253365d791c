-- ===== src/Lib.antt =====
-- Verification of the TillFlow payments service (services/payments/core), which charges customers
-- over M-Pesa and pays out commissions, and of the commission service (services/commission/ledger),
-- which computes the commissions and asks for the payouts.
--
-- The program. `PaymentService` (services/payments/core/payments.py) accepts a charge under an
-- idempotency key, commits the intent, calls the provider, and records the answer in a second
-- transaction; the provider's callback, the reconciliation and the sweep move the payment on.
-- `PayoutService` (services/payments/core/payouts.py) does the same for disbursements, with limits and
-- a kill switch. Both write through `Store` (services/payments/core/store.py), whose schema holds the
-- uniqueness constraints, and follow the tables of services/payments/core/states.py.
--
-- Files.
-- - Base: Boolean tests, texts as code points, and a table as a list of rows with what SELECT, UPDATE,
--   INSERT and COUNT do to it (Base/Table, lemmas in Base/Table/Update and
--   Base/Table/Unique).
-- - Payments/States: states.py. Payments/States/Machine: its transition tables as graphs.
-- - Payments/Common: services/payments/core/common.py and the patterns of
--   services/_shared/mpesa/models.py.
-- - Payments/Tables and Payments/Schema: the rows and the constraints of SCHEMA in store.py, and the
--   data of mpesa/models.py. Payments/Schema/Keys: a key names one row.
-- - Payments/Tx: a write transaction of services/payments/core/db.py as a state monad with exceptions.
-- - Payments/Store, Store/Payment, Store/Disbursement: the methods of `Store` and the statements on the
--   two tables.
-- - Payments/Service: replies, settings and the answers of the M-Pesa port.
-- - Payments/Collect: payments.py, one module for each part of `PaymentService` (Parse, Create,
--   Callback, Outcomes, Reconcile). Payments/Payout: payouts.py in the same way.
-- - Payments/Tx/Keeps: rules for transactions that keep the tables within a relation. Payments/Quiet:
--   the transactions that settle nothing, by these rules. Payments/Ledger: what it means that the
--   ledger agrees with a table of records, for any table, and that booking a success keeps it so.
--   Payments/Credit: its instance for payments. Payments/System: the transactions of the collections
--   as the steps of one system, with any interleaving, and what holds after it. Payments/Debit and
--   Payments/PayoutSystem: the same for disbursements, as a system of its own: the two are not
--   combined. Payments/Waiting: the transactions of the collections that only wait, by the same rules.
-- - Payments/ResultCodes, ResultCodes/B2c: services/_shared/mpesa/result_codes.py and
--   b2c_result_codes.py, less parse_result. ResultCodes/Digits: what `strip`, `isdigit` and `int` of
--   Python 3.12 make of a text, with the Unicode tables and the ValueError of `int`; ResultCodes/Spaces
--   and ResultCodes/Numbers: that no digit is white space, and the number that is read.
-- - Commission/Calc: services/commission/ledger/calc.py, without its dates.
-- - Commission/Tables: the rows and the constraints of services/commission/ledger/store.py, less
--   pos_cursors, which no code uses. Commission/Common: common.py, and the backoff of disburse.py.
-- - Commission/Close, Close/Day: close.py (`_close_attendant` is close_attendant); its other children
--   prove what a close does (Valid, Effect), that it returns (Ready, Returns), and what it counts (Adds,
--   Replay, Twice). Commission/Disburse: disburse.py; its children prove how a pass moves rows (Moves,
--   Pass, Word) and in which order it asks (Order).
-- - Commission/System: the transactions of both as the steps of one system, with any interleaving.
-- - Tests modules: concrete runs.
--
-- Conventions. A transaction is one step, since BEGIN IMMEDIATE and the advisory lock admit one writer
-- at a time; an exception that leaves it rolls it back. An UPDATE or INSERT that would break a
-- constraint raises `integrity_error`. Times are whole seconds, comparisons of times are written as
-- sums, and the clock is read once in a transaction. The answers of the provider, the uuid and the
-- hashes are arguments. A JSON column holds the value that is serialised. An INSERT puts its row
-- first, and `fetchone` takes the first row, as SQL leaves the order open. Amounts, counts and rates have
-- no upper limit: the refusal of a value that an INTEGER column cannot hold (4 bytes on PostgreSQL, 8
-- with SQLite) is not modelled. There is no fuel: loops are over lists of rows.
--
-- The commission tables are one record of lists too. A transaction of the commission service that a
-- constraint refuses, or a negative amount, is `none`; the tables are then as before it. A pass takes a
-- function from rows to what Payments answers, so a theorem holds for all answers. Replies are JSON
-- objects whose fields have the expected types.
--
-- Not modelled: metrics, logs, traces and the columns that they use; the Retry-After header and error
-- details; the database drivers; the HTTP application and the HTTP clients; reading the environment;
-- the provider's adapters; calendar dates; the command line entry points of the commission service. The
-- point of sale (services/pos) is not modelled.
pub mod Base
pub mod Payments
pub mod Commission
