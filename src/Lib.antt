-- ===== src/Lib.antt =====
-- go-hermes: a wallet service in Go. Users hold one wallet each; TopUp and Transfer move money
-- between them inside one database transaction, with a double-entry ledger, an idempotency record,
-- an audit log entry and a webhook delivery per movement; a worker sends the deliveries and retries
-- them; a reconciliation compares the wallets with the ledger; a rate limiter guards the routes.
--
-- Which file models which part:
--   Entity             internal/entity/models.go: the rows, the enumerations with an open
--                      constructor for a text outside the constants. A UUID is a number, a time is a
--                      number of nanoseconds.
--   AppError           internal/pkg/apperror/error.go and internal/repository/errors.go.
--   Types, Json        internal/usecase/types.go and MustMarshalSuccess of
--                      internal/pkg/apiresponse/response.go. A body is a JSON value, not its bytes.
--   UuidLib            github.com/google/uuid, a parameter.
--   Store              internal/repository/interfaces.go: records of operations over an abstract
--                      database. Store/Monad has the error-passing monad of a Go call, Store/View
--                      the tables as lists of rows, Store/Laws the behaviour of PostgreSQL and gorm
--                      that the code relies on (commit and rollback of a function that makes the
--                      calls of Store/Calls, locks that return the rows asked for, the unique key of
--                      idempotency records, the check on balances); Store/Deliveries has the row of
--                      a delivery, Store/Wallets and Store/Validity the sum of balances and the
--                      validity of the wallets table.
--   Gorm               internal/repository/gorm.go over gorm and PostgreSQL as a parameter. Query
--                      has what the code builds before it runs a statement, with the SQL fragments
--                      as syntax trees; Session the handle in the context (txContextKey,
--                      dbFromContext, WithinTransaction); Handles what it is to run on one handle,
--                      and Within that repository calls under a transaction's context do; Page the
--                      count and the page of a list; one file for each repository, and Repositories
--                      all of them. Semantics says what a query keeps of the tables, Laws what is
--                      relied on of gorm. Statements, StoreLaws, AccountLaws, WorkerLaws and Refines
--                      show that these repositories have the laws of Store; Locking is on LockByIDs,
--                      Listing, Access and Reads on the lists, Due on ListDue. Tables/Sql is a gorm
--                      that satisfies those laws.
--   Pagination         internal/pkg/pagination/pagination.go; Pages is on the page count.
--   AdminUsecase       AdminUsecase of internal/usecase/admin_health.go; Traces is on what its reads
--                      leave behind. Health has the rest of that file and the composite check of
--                      internal/repository/health.go.
--   Config             internal/config/config.go; Safe is on what Validate accepts.
--   Seed               seedAdmin of cmd/api/main.go; Once is on what it leaves behind.
--   Tables             a database that satisfies those laws; the tests run on it.
--   TransactionUsecase internal/usecase/transaction.go. Common has the shared parts (check_request
--                      for the guards, pending_record and answer_again for the idempotency key,
--                      finish for what follows the transaction); TopUp and Transfer have one
--                      definition for each stretch of the Go function between two early returns,
--                      from the outside in: transfer, transfer_db, transfer_tx, transfer_fresh,
--                      transfer_locked, transfer_checked, transfer_write; Queries has the four
--                      reads. Below TopUp and Transfer, Effect says what the writes do to the
--                      tables, Run what a run that ended well went through (Transfer/Fresh the part
--                      under a new key), Money what happens to the balances, Transfer/Failed and
--                      TopUp/Run what a failed request leaves, Calls that its transaction makes
--                      repository calls only, Retry what a repeated request does, Returns when a run
--                      on the reference tables ends well. The values drawn from uuid.New and
--                      time.Now are the argument Draws.
--   Webhook            internal/usecase/webhook.go. Create has the creation of a delivery and the
--                      bounded queue; Delivery has ProcessDelivery, markFailure and ProcessDue over
--                      net/http, crypto/hmac and fmt as the parameter HttpLib; Delivery/Allowance,
--                      Delivery/Attempts and Delivery/Once have the life of a delivery's row; Worker
--                      has the goroutine of Start as a step relation, Worker/Rounds what a round
--                      keeps and Worker/Tracked the allowance of each delivery.
--   Reconciliation     internal/usecase/reconciliation.go. Report, Entry, Order, Check and
--                      Check/Transactions are the parts of reconcileState; Entry/Laws, Check/Healthy
--                      and Check/Transactions/Pair and Accepted say what the checks amount to; Run
--                      is the use case around it.
--   AuthUsecase        internal/usecase/auth.go and GenerateToken of internal/pkg/auth/jwt.go, with
--                      the packages strings, bcrypt and golang-jwt as the parameter AuthLib; Account
--                      says what a registration adds.
--   Middleware         ParseToken of internal/pkg/auth/jwt.go, internal/middleware/auth.go,
--                      metrics_auth.go and trace.go, as functions of a request; Bearer is on the
--                      tokens that GenerateToken signs.
--   Router             the routes of internal/delivery/http/router.go with their guards; Starts says
--                      which guards they start with, Guarded who reaches which handler.
--   Handler            internal/delivery/http/handler, with the writer of
--                      internal/delivery/http/response, internal/pkg/validator and
--                      internal/pkg/idempotency/hash.go: a handler is a function of the request and
--                      of the process. Input is what it reads, Reply what it answers, Account, Money
--                      and Lists the handlers, Keeps what a handler keeps of the state.
--   Books              what the ledger says of the wallets and of the transactions: Movements on the
--                      entries of TopUp and Transfer, Posting and Posted on the transactions they
--                      post, History and Requests on any sequence of requests that write, Audit and
--                      Healthy on the reconciliation of what they leave.
--   System             the requests and the worker's rounds in any order (cmd/api/main.go): Settled
--                      on the rows of deliveries that have ended.
--   UserWallet         internal/usecase/user_wallet.go; Agree says what the reads return.
--   RateLimit          internal/pkg/ratelimit/limiter.go and internal/middleware/rate_limit.go, with
--                      the Redis client as a parameter; RateLimit/Window is on one window.
--   Base               shared names, lists, integers and int64 arithmetic that wraps around.
--   Tests              runs at concrete inputs.
--
-- How the parts interact: a use case calls the repositories of Store in the order of the source, each
-- call passes the database on, and an error ends the chain; TransactionManager turns an error into a
-- rollback. The webhook delivery is a row of the same transaction, and its id enters the worker's
-- queue after the commit. A round of the worker takes an id off the queue, and ProcessDelivery reads and
-- writes that row; a scan of the due rows takes up what the queue had no room for. System puts requests
-- and rounds side by side: a request and a round are one step each, since they write different rows.
--
-- Bounds: balances, amounts, counters and durations are int64s, with wrap-around written out. No
-- definition has fuel: every loop is over a list.
--
-- Not modelled: gorm, PostgreSQL, Redis, fiber, bcrypt, golang-jwt and logging, which are
-- libraries and stand as parameters where the code relies on them; the interleaving of two
-- transactions on one row, which row locks exclude; a second process with its own worker; what a
-- statement outside the open transaction sees; the rounding of a stored time to microseconds;
-- what fiber does with the table of routes, and the bytes of a response; the wiring and the
-- connections at start-up; metrics counters.
pub mod Base
pub mod Json
pub mod AppError
pub mod Entity
pub mod Store
pub mod UuidLib
pub mod Types
pub mod Webhook
pub mod TransactionUsecase
pub mod Tables
mod Tests
pub mod Reconciliation
pub mod RateLimit
pub mod Pagination
pub mod Gorm
pub mod AdminUsecase
pub mod Health
pub mod Config
pub mod Middleware
pub mod Router
pub mod Seed
pub mod Handler
pub mod Books
pub mod System
pub mod AuthUsecase
pub mod UserWallet
