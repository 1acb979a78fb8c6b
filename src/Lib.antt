-- ===== src/Lib.antt =====
-- The money of Apna Mandla, a marketplace of local shops (Backend/, FastAPI over SQLAlchemy):
-- wallets, the double-entry ledger, the checks before a debit, withdrawals, credit accounts
-- ("udhar"), the payment gateway and the audits; and the orders that the money pays for, from their
-- payment to their delivery.
--
-- How the parts interact. Every movement of money goes through `_credit` and `_debit` of
-- Backend/app/services/ledger_service.py, which change a wallet's balance and append a row to the
-- ledger; a row carries a number, the hash of the row before it and the balance after it. A debit
-- of anybody but the platform (user 1) is checked by Backend/app/services/fraud_service.py first.
-- The operations of `WalletService`, the endpoints of a withdrawal and the operations of
-- `UdharService` are sequences of such calls in one database session: they return and are
-- committed, or raise and are rolled back. The gateway's webhooks and the payment of an order are
-- sequences of the same kind over their own tables; orders go from their payment to the search for
-- a rider and to the delivery. Revoked tokens and the limits of requests are kept beside the
-- database, in Redis or in the memory of a process; the requests on sessions and one-time codes
-- read and write them. A rating is of an order that was delivered.
--
-- The files:
--   Money.antt           `_round` and `_daily_rate`: a decimal is a coefficient and a number of
--                        places, a stored amount a whole number of paise.
--   Schema.antt          the tables of Backend/app/models; `Books` has wallets and ledger rows,
--                        `Tables` the others. Columns that no modelled code reads are left out.
--   Env.antt             settings, and the parameters: clock, random identifiers, SHA-256, the
--                        printing of dates, Redis.
--   Session.antt         a call in a session: it returns a value and a new state, or an error.
--   Fraud.antt           `FraudService.pre_check` and its five checks.
--   Ledger.antt          ledger_service.py. Ledger/Rows has the queries, Ledger/Posting `_credit`
--                        (`credit`), `_debit` (`debit`) and `_write_entry` (`write_entry`),
--                        Ledger/Operations `WalletService` and `LedgerService`; `topup` is
--                        `topup_wallet`. Ledger/Invariant says which books are valid,
--                        Ledger/Outcome and Ledger/Preserve what a posting does to them,
--                        Ledger/Validity that operations keep them so. Ledger/Refinement has the
--                        abstract bank, balances and used keys by user; Ledger/Topup,
--                        Ledger/Payment, Ledger/Commission and Ledger/Transfers the operations;
--                        Ledger/Shifts and Ledger/GiveBack what postings under new keys add,
--                        Ledger/Refund the parts of a refund, Ledger/OrderRoundTrip a payment and
--                        its refund; Ledger/Frame what the operations leave alone.
--   Reconciliation.antt  Backend/app/services/reconciliation_service.py and
--                        Backend/app/services/ledger_integrity_service.py.
--   Withdrawal.antt      `request_withdrawal` (`withdraw`) of Backend/app/routes/wallets.py, and
--                        Backend/app/routes/withdrawal.py.
--   Udhar.antt           Backend/app/services/udhar_service.py and the interest job of
--                        Backend/app/services/scheduled_jobs.py.
--   Json.antt            the bodies of webhooks, and `dict.get`.
--   Table.antt           a table with an integer key: a row object that is changed in place.
--   Gateway.antt         Backend/app/services/gateway_service.py and Backend/app/routes/gateway.py:
--                        Gateway/Payload reads a body, Gateway/Operations is `GatewayService`,
--                        Gateway/Endpoints the routes. Gateway/Reading has what a webhook that
--                        returned has read, Gateway/WebhookOutcomes, Gateway/RefundOutcomes and
--                        Gateway/Forgery what the webhooks do, Gateway/LifeCycle any sequence.
--   Orders.antt          Orders/Payments: `add_money` and `pay_for_order` of
--                        Backend/app/routes/wallets.py and Backend/app/routes/payment.py.
--                        Orders/Delivery: Backend/app/routes/delivery.py,
--                        Backend/app/routes/order_flow.py and
--                        Backend/app/services/rider_transfer_service.py. Orders/Broadcast:
--                        Backend/app/services/rider_assignment_service.py and
--                        Backend/app/services/broadcast_service.py. Orders/Overrides: the other
--                        routes that write orders. Orders/Search has the loop that widens the
--                        search, Orders/Steps the calls that write orders, and Orders/LifeCycle any
--                        sequence of them.
--   Stores.antt          Backend/app/core/token_store.py (Stores/Tokens) and
--                        Backend/app/core/rate_limiter.py (Stores/Limiter).
--   Access.antt          Access/Tokens: Backend/app/core/security.py and Backend/app/core/csrf.py;
--                        Access/Sessions: Backend/app/core/auth.py, and auth_refresh.py,
--                        auth_logout.py and auth_sessions.py of Backend/app/routes; Access/Codes:
--                        auth_verify.py, auth_otp.py and auth_password.py there;
--                        Access/Roles: Backend/app/core/rbac.py.
--                        Access/Connection is a request: it keeps what it committed also when it
--                        raises. Access/Rotation, Access/Revoking and Access/Verification say how
--                        each request ends, Access/Steps what no sequence of them does, and
--                        Access/Refreshes, Access/Endings, Access/Isolation, Access/CodeLimits,
--                        Access/Kinds and Access/Admission what is promised.
--   Ratings.antt         Backend/app/services/rating_service.py; Ratings/Outcomes and
--                        Ratings/Totals what it does.
--   History.antt         the committed states, as a step relation over all these calls.
--   Tests.antt           runs at concrete inputs.
--
-- The choices of the model. A table is a list with the newest row first. A lookup that finds
-- nothing is `none`, and what the source then does is written out. The rows of the session are
-- locked by the source (`with_for_update`) in the services of money and orders, so a call is one
-- step there. The routes of Access and Ratings and the other routes on orders take no lock: for them
-- the model describes requests that come one after the other, not at once. A reading of the clock,
-- of the random source or of Redis is a parameter that is asked with the number of readings so far;
-- nothing is assumed of the answers. Two readings of the clock on neighbouring lines are one.
-- Exceptions are values, and what a call wrote before it raised is dropped. The constraints of the
-- tables are checked where a row is flushed; the one on the text of an entry's side holds by its
-- type. Loops run over lists, so no fuel is needed; `str` of a number has the number as fuel, which
-- is more than its digits. The loop that widens a search runs on fuel, one for each round; ten are
-- enough. No integer of the source has a fixed width. Where the source reads a column or calls a
-- method that does not exist, the model raises at that place. Times are microseconds. The widths of
-- text columns are not checked, as the default database does not check them.
--
-- Not modelled: the columns of descriptions and the logging; the creation of orders and carts;
-- Backend/app/routes/shop_order.py, whose states are no `OrderStatus`; passwords; the sending of
-- one-time codes; discounts, subscriptions and advertisements;
-- the endpoints that only read. SQL, Redis, hashing and the scheduler are libraries.
pub mod Prelude
pub mod Money
pub mod Json
pub mod Table
pub mod Schema
pub mod Env
pub mod Session
pub mod Fraud
pub mod Ledger
pub mod Reconciliation
pub mod Withdrawal
pub mod Udhar
pub mod Gateway
pub mod Orders
pub mod Stores
pub mod Access
pub mod Ratings
pub mod History
pub mod Tests
