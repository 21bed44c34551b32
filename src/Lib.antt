-- ===== src/Lib.antt =====
-- A model of the backend of the Stellar portfolio rebalancer, with theorems about it.
--
-- The program. The backend watches prices, decides whether a portfolio may be rebalanced, plans
-- the trades, and carries them out on the Stellar network. Modelled here are the parts that
-- decide, plan and trade, and services around them:
--   Risk      backend/src/services/riskManagements.ts, the class RiskManagementService: price and
--             return histories, circuit breakers, statistics, and the decision of
--             shouldAllowRebalance. Risk/Types has the data types and constants, Risk/Correlation,
--             Risk/Stats and Risk/Scores the statistics, Risk/Breakers the state, the updates and
--             the breakers, Risk/Decision the decision.
--   Market    backend/src/services/circuitBreakers.ts, the static checks of the automatic
--             rebalancer, each of which gives a verdict with a reason.
--   Plan      backend/src/services/rebalancePlan.ts, the dry run buildRebalancePlan, over
--   Decimal   backend/src/utils/decimal.ts, the rounded arithmetic of the object Dec.
--   Lock      backend/src/services/rebalanceLock.ts, one lock for each portfolio, in Redis or in
--             the memory of the process.
--   Revocation backend/src/services/tokenRevocation.ts: the revoked refresh tokens and users, in
--             Redis or in the memory of the process.
--   Sessions  backend/src/db/refreshTokenDb.ts: the refresh tokens, in the memory of the process.
--   Auth      backend/src/services/authService.ts: the issue, rotation and revocation of tokens,
--             the challenges that a wallet signs, and the log of these events.
--   AutoRebalance backend/src/jobs/autoRebalance.ts, the job processAutoRebalanceJob: the drift of
--             each portfolio and which of them are put into the queue of rebalances.
--   Dex       backend/src/services/dex.ts, the class StellarDEXService: Dex/Types has the data and the
--             libraries, Dex/Settings the environment, the signer and the assets, Dex/Exchange the
--             order book and the offers, Dex/Trade one trade, Dex/Assess the assessment,
--             Dex/Progress, Dex/Report and Dex/Rebalance the execution of a rebalance.
--   TaxReport backend/src/api/taxReport.routes.ts, fifoComputeReport: the tax lots of a portfolio,
--             first in, first out, and the entries of the report.
--   Prices    backend/src/services/reflector.ts, the class ReflectorService: Prices/Types has the data,
--             the sources and Redis, Prices/Cache the cache in memory, its statistics and settings,
--             Prices/Sources the requests to the Reflector and to CoinGecko, Prices/Redis the cache
--             that processes share, Prices/Resolve which prices a caller gets.
--   Strategy  backend/src/services/rebalancingStrategyService.ts, shouldRebalanceByStrategy: when the
--             strategy of a portfolio asks for a rebalance.
--   DeadLetter backend/src/services/webhookDeadLetter.ts: the webhook deliveries that have failed.
--   Idempotency backend/src/middleware/idempotency.ts, with its stores in
--             backend/src/services/idempotencyRedisStore.ts and backend/src/db/idempotencyDb.ts: a request
--             that is repeated with its key is meant to get the first response.
--   RateLimit backend/src/services/rateLimitMonitor.ts: the counts of throttled requests, the
--             alerts on addresses and users, and the lists of top offenders. The log line of each
--             throttled request and the text of generateReport are left out.
-- A route of the API asks the risk service for a decision, and the plan for a dry run. The job of
-- AutoRebalance asks the market checks and, for each portfolio, the risk service. Auth keeps its
-- refresh tokens in Sessions and asks Revocation for tokens that are used again. The risk service,
-- the lock, the revocation service, the dead-letter queue and the monitor are singletons in use, and
-- Auth has variables of its module; of the price feed each user makes an object of its own, so that
-- what holds of its fields, such as the time of the last request, holds for one object. Each is a
-- record here, and each method is a function from the record, the time and the arguments to the new
-- record and the result. Fields and methods keep their names, in snake case.
--
-- Shared modules: Prelude (Boolean tests, lists, JavaScript's maps and sorting, templates), Number,
-- and Async, the asynchronous functions of Dex, Prices and Idempotency: Async/Returns, Async/Keeps
-- and Async/Always are what holds of the values returned, of the states passed, and of calls that
-- cannot throw.
--
-- Numbers. A JavaScript number is a type with the operations of the record Number. Nothing is
-- assumed of rounding: the laws that a theorem needs are the records IsOrdered (the order of the
-- doubles away from NaN, with Math.min and Math.max as its bounds), IsCommutative, and
-- IsSubtractive (a finite number less itself is zero, and Math.min gives one of its arguments);
-- they are arguments of the theorem. Number/Fixed gives a type of eight-place decimals with NaN
-- that meets them, on which the definitions run and the theorems are applied in each Tests module.
-- Counts, indices and times in milliseconds are natural numbers.
--
-- Time. The code reads the clock several times in a call; here a call has one time, its first
-- argument. In Prices and Idempotency the clock is a function of the state of the world, read where
-- the code reads it. A clock that goes back is not modelled: an age is a difference of natural
-- numbers, which stops at 0.
--
-- Maps. A Map and a Record are association lists in the order of insertion. JavaScript lists the
-- keys of a Record that are numerals first, in order; asset codes are assumed not to be numerals.
--
-- Redis. The server is an instance of the record Redis or RedisList: a state and the commands used,
-- each of which answers or fails. No law is assumed of it, nor of JSON, which is a record too, but
-- for the laws that a theorem takes as arguments, as Prices/Stored does.
--
-- Errors. In Dex, Prices and Idempotency a method is a function from a state, of the server or of
-- the object and the world, to an outcome, returned or thrown, and a state; `>>=` ends at a call
-- that throws, and `catching` and `rescuing` are try blocks.
--
-- Libraries. The Stellar SDK and its server are the records Sdk and Horizon, the token library, the
-- hash and the check of a wallet's signature Jwt, Hash and Wallet, the job queue JobQueue, the
-- services of Prices and its JSON Sources and PricesJson; a law that a theorem needs is an argument
-- of it.
--
-- Loops. Each loop of the code over a list is structural recursion here. The loop of TaxReport that
-- takes a sale from the lots is recursion on fuel, one round for each lot and one more, which is
-- enough by TaxReport.Lots, as a round takes the whole lot or all that is left to sell.
--
-- Not modelled: logging and metrics; two requests whose steps interleave; in Prices the detailed
-- market data, the price history and the test of connectivity; the fetching of the contract's
-- events; the database, but for the statements on the table of idempotency keys, which are what
-- they do to its rows; the workers of the job queues; the API's routes and middleware, but for the
-- entries of the tax report and the idempotency keys; the smart contracts in Rust; the frontend.
-- These are calls of services outside the repository, texts of SQL, wiring and views, or parts that
-- no module here covers yet.
pub mod Prelude
pub mod Number
pub mod RateLimit
pub mod Redis
pub mod Revocation
pub mod Risk
pub mod Sessions
pub mod Strategy
pub mod TaxReport
pub mod Lock
pub mod Async
pub mod Auth
pub mod AutoRebalance
pub mod DeadLetter
pub mod Idempotency
pub mod Decimal
pub mod Dex
pub mod Market
pub mod Plan
pub mod Prices
