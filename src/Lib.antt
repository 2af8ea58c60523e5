-- ===== src/Lib.antt =====
-- The SoroSense vault client, backend and keeper.
--
-- SoroSense keeps stablecoin buckets in a vault. The client package is the one surface through which
-- the backend, the keeper and the frontend call the vault.
--
-- Seam is packages/vault-client/src/interface.ts: currencies, addresses, amounts, signers. Vault is
-- packages/vault-client/src/mock.ts, the in-memory vault: Vault/State its fields and reads,
-- Vault/Operations the effect of each writing method, Vault/Submit the two phases `prepare` and
-- `signAndSubmit`, Vault/Imperative the bodies of the methods statement by statement, without a rollback,
-- and Vault/Imperative/Atomic how they compare with the effects.
-- Amounts are bigints, so integers of any size (Int); the maps and sets are
-- insertion-ordered (Dict), with the keys `${user}:${currency}` as strings. The texts `exit-${n}`,
-- `mock-xdr-${n}` and `mock-tx-${n}` are kept as their numbers.
--
-- CostBasis is backend/src/earnings/cost-basis.ts: the replay of deposits and withdrawals into the cost
-- basis of each bucket. Sentinel is backend/src/sentinel: the risk signals and the score of a pool, and
-- in Sentinel/Freeze the keeper's freeze with its retries, over an interface of the two vault calls that
-- it makes; Sentinel/Freeze/Mock is the in-memory vault as an implementation of it. Allocator is
-- backend/src/mastra/allocator.ts: the decision of a tick, which takes Sentinel's threshold test, and
-- in Allocator/Tick the store, the injected effects and the tick.
--
-- Doubles are a parameter (Double): its operations are those that the code applies, and a theorem names
-- what it needs of them. Double/Fixed is a concrete number type for the runs. Texts of errors, reasons
-- and alerts are constructors. An injected effect or read resolves or rejects; a promise that rejects
-- is none. Loops are structural recursion on the list, or on the number of rounds that the loop's own
-- bound leaves.
--
-- Chain is backend/src/chain: Chain/Reader decodes the vault's events (event-reader.ts), over a decoder
-- of contract values, which is taken not to throw, and a date parser that are parameters; Chain/Store accumulates them by id
-- (event-store.ts), Chain/Poller drains pages into the store (poller.ts), at most as many as its cap.
-- The decoded deposits and withdrawals feed CostBasis, and with the agent's actions they feed Activity,
-- which is backend/src/api/user-activity.ts and backend/src/api/agent-activity.ts. Keeper is
-- backend/src/keeper/runner.ts, the allocator's effects as writes of a vault client and a tick against
-- its live state, and Keeper/Cron a pass of backend/src/keeper/cron.ts over the buckets,
-- with candidates given or from the catalog, its start on a
-- schedule, and Keeper/Cli the command line of backend/src/keeper/cli.ts.
--
-- Real is packages/vault-client/src/real.ts, the same ten writes over the generated bindings (a parameter)
-- and, in Real/Reads, the reads, with the pool registry and its inverse of backend/src/tools/vault.ts.
--
-- Faucet is backend/src/http/faucet.ts, the handler of one request with the times of the last mints;
-- requests run one at a time, so two that overlap while the minter works are not covered.
--
-- Scheduler is backend/src/scheduler/cron.ts: the interval, the settling of the handler and the stop as
-- the steps of a relation. Snapshots is backend/src/earnings/snapshotter.ts: the recorded share prices,
-- the tick and the calendar buckets. Realtime is backend/src/http/realtime.ts: the boot and the two loops,
-- which run the poll of Chain and the tick of Snapshots; each is a whole step there.
--
-- Activity/Log is backend/src/api/activity.ts and Activity/Feed the merged feed of
-- backend/src/api/activity-feed.ts, over the rows that Activity/User and Activity/Agent derive.
--
-- Catalog is backend/src/tools/catalog.ts with what reads it alone (backend/src/api/venue-meta.ts,
-- backend/src/api/pools.ts, backend/src/tools/pool-data.ts), Fee is backend/src/tools/fee.ts. Quotes is
-- backend/src/api/rates.ts, backend/src/api/holdings.ts and backend/src/api/live-apy.ts, Quotes/Simulate
-- backend/src/api/simulate.ts and backend/src/api/funding.ts. Earnings is backend/src/api/earnings.ts,
-- over CostBasis, Snapshots and Catalog. The reads of one such call see one state of the vault. Oracle is
-- backend/src/tools/price.ts, Oracle/PoolRate backend/src/tools/pool-rate.ts and Oracle/Fx the exchange
-- rates that backend/src/api/earnings.ts builds from it; the Stellar SDK is a parameter of all three.
-- Http is backend/src/http/app.ts, the handlers of the routes over these reads.
-- Seed is backend/src/scripts/demo-seed.ts: the plan and the run over the network and the vault client,
-- which are parameters, in Seed/Config the configuration and the key, and in
-- Seed/Chain the live effects, over Horizon, friendbot and the minter, with fifteen looks for the account. Amounts is how that script
-- and frontend/lib/vault/units.ts and sanitize.ts print and read decimal amounts.
-- Contributions is frontend/lib/vault/contributions.ts, and Wallet frontend/lib/wallet/balance.ts with the
-- request to Horizon as a parameter.
-- Results is backend/src/lib/result.ts. What JavaScript's `Date` says of months and years is a parameter.
--
-- Helpers: Base, Lists, Sort (by a key), Compare (by a comparison), Sum, Dict, Int, Double, Text, Decimal (texts as code
-- points, with what JavaScript does to decimal ones).
--
-- Not modelled: the generated bindings and the contracts in Rust, which the program calls; the
-- serving of HTTP, the argument parser of the demo seed and the agent framework's wiring; the components of the frontend and the landing page.
pub mod Base
pub mod Int
pub mod Dict
pub mod Sort
pub mod Sum
pub mod Seam
pub mod Vault
pub mod CostBasis
pub mod Double
pub mod Contributions
pub mod Wallet
pub mod Amounts
pub mod Decimal
pub mod Sentinel
pub mod Allocator
pub mod Activity
pub mod Chain
pub mod Keeper
pub mod Real
pub mod Faucet
pub mod Scheduler
pub mod Seed
pub mod Snapshots
pub mod Compare
pub mod Lists
pub mod Results
pub mod Text
pub mod Fee
pub mod Catalog
pub mod Quotes
pub mod Earnings
pub mod Oracle
pub mod Realtime
pub mod Http
