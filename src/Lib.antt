-- ===== src/Lib.antt =====
-- diddi-pay-backend: a payment orchestrator, a wallet with a double-entry ledger, and a fund that lends.
--
-- The program is a FastAPI service over one PostgreSQL database. Its modules talk through ports: the
-- payment module takes requests and provider webhooks, keeps payments, refunds and payouts with an inbox
-- and an outbox, and posts financial journals; the wallet posts balanced transactions between accounts;
-- the fund computes loans and asks the other two to move money.
--
-- Prelude holds what all files share: numbers, tests, texts, tables of rows, decimals, integers, and
-- operations that may raise (Prelude/Actions): what each step of one maintains (Rules) and what it ends in
-- (Yields).
--
-- Payments models payfund_app/modules/payments.
--   Status, Transitions, Errors, Money and Entities are domain/entities.py and domain/errors.py, the
--   exceptions of application/errors.py included: a method that mutates its object is a function that
--   returns the new record or an exception (`transition_to` is `transition_intent`, and so on).
--   Payload and Database are the tables of infra/models.py, Session the unit of work over them.
--   Repositories has one file for each class of infra/repositories.py; Ports is application/ports.py and
--   Routing application/processor_router.py; Accounting is application/accounting.py and success.py.
--   Refunds, Webhooks and Deliveries are the use cases of the same names: `RefundUseCases.create` is
--   `Refunds.create` (`reserve` up to the first commit, `execute` after it),
--   `PaymentWebhookUseCases.process` is `Webhooks.process` and `handle`, `_apply_status` is
--   `Webhooks.Status.apply_status`, and `PaymentEventDeliveryUseCases.run` is `Deliveries.run`.
--   Intents is `PaymentUseCases` of application/use_cases.py (`get`, `list` and `cancel`; `create` is
--   Intents/Create), Payouts is `PayoutUseCases` of application/payouts.py (`reconcile` is
--   Payouts/Reconcile), and Reconciliation is `PaymentReconciliationUseCases`.
--
-- Wallet models payfund_app/modules/wallet.
--   Money, Entities and Errors are domain/, Store the tables and repositories of infra/ that the ledger
--   uses, and Ledger is application/ledger.py: `LedgerService.post`, `transfer`, `post_sur_transaction`
--   (here `post_on_transaction`) and `contre_passer` (here `reverse_transaction`).
--   Pins is the repositories of PINs, recovery codes and step-up proofs, Gateways infra/gateways.py, and
--   UseCases `WalletUseCases` of application/use_cases.py: Pin (`_verify_pin` is `verify_pin`), Proofs,
--   Payments (`transferer_p2p`, `payer_marchand`), Operations (`deposer`, `retirer`,
--   `confirmer_operation`, `echouer_operation`) and Reconcile. Exchange is application/exchange.py and
--   infra/exchange_rates.py, Service infra/wallet_service.py.
--   Requests is the step relation of all these operations, each in a session of `get_session`
--   (payfund_app/core/database.py), which takes everything back when an exception passes.
--
-- Fund models payfund_app/modules/fund.
--   Loan is domain/loan.py: `calculer_conditions` is `compute_terms`, `_ajouter_mois` is `add_months` and
--   `construire_echeancier` is `build_schedule`. Status, Tables and Repositories are domain/entities.py,
--   infra/models.py and infra/repositories.py; Campaigns and Loans are `FundUseCases` and `LoanUseCases`
--   of application/use_cases.py, and Collections is `FundPaymentUseCases` of
--   application/payment_use_cases.py, with `apply_event` in Events.
--   Ports holds the ports that the fund calls, as records of operations. The use cases take a wallet as
--   such a record; Ports/Contract says what a wallet must keep, and WalletClient is the wallet of the same
--   process, of Wallet/Service, which keeps it. The two share a database session, so the tables of the
--   fund hold the wallet and a request takes back both.
--   Raised has the invariant of campaigns and investments and the step relation of the fund's requests.
--
-- Conventions. A stateful operation is a function from the session (or the store) to a result and the
-- session after it; an exception keeps what was flushed, and the caller rolls back to what was
-- committed. A UUID is the next value of a counter. An operation reads the clock once, in seconds. Rows
-- stand in the order of insertion, which stands for `created_at`. An amount that has been validated is a
-- natural number, one that comes from outside is an integer; Python's integers have no width. A text
-- that the program formats from an identifier (a reference, an account, a key) is a constructor, and a
-- JSON dictionary that is only passed on is its text. Texts are ASCII. Operations run one after the
-- other. A row lock of the source ensures this within one transaction only: `create` of the refunds
-- commits before it calls the processor, which releases the lock, so two refunds of a payment that are
-- in flight together are outside the model. Every loop is a recursion over a list or over a count that
-- is given, so none needs fuel, but one: the digits of an inverse exchange rate are searched in 64
-- steps, more than a rate of the table needs (Wallet/Exchange/Digits). The random salt of a hash and a
-- token are functions of a counter. A lock of a PIN lasts 900 seconds. What is published on the bus of
-- domain events is a list in the store.
--
-- Parameters. A payment processor, the sender of callbacks, the digests (SHA-256 of a request or of a
-- body) and the printing of an identifier or of an exception are arguments of the definitions that use
-- them; a call of a processor or of the sender answers a result or an exception of any kind. So are, in
-- the `Environment` of the wallet, Argon2, SHA-256, the secrets, the settings and the gateways that speak
-- HTTP, and in the fund the scores and the payment orchestrator.
--
-- Not modelled: the HTTP layer, authentication and configuration, the clients of third parties, QR codes,
-- documents and challenges of identity checks, the migrations, the reports and the back office. Of the
-- database only the unique constraints, the checks on amounts and statuses and the references between rows
-- that an operation can violate are modelled. A decimal is exact, where Python's has 28 digits, except an
-- inverse exchange rate, and a year has no upper bound.
pub mod Prelude
pub mod Payments
pub mod Fund
pub mod Wallet
