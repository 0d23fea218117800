-- ===== src/Lib.antt =====
-- The matching engine, the wallet, the order service and the limits of the controlled taker of
-- tradedrift: services/matching-engine/internal, services/wallet/internal, services/order/internal and
-- services/controlled-taker/internal; the paths below are from these.
--
-- A market engine owns one order book. Commands come from Kafka to its event loop, `Run`, one at a
-- time; the loop hands orders and cancellations to the matcher, which changes the book, and sends one
-- result for each message to the publisher. Mode changes come from the recovery and from an operator.
--
-- OrderBook: the types of orderbook/*.go. A book is two sides and an index; a side is a sorted slice
-- of prices and a map from prices to levels; a level is a FIFO list and a total.
-- Matcher: matcher/matcher.go. Search has the two binary searches, Ops has Insert, Cancel,
-- ExecuteBest, PartialFill, FullFill and GetDepth, Loop has Match. A panic is `none`.
-- Matching: the proofs about Matcher. A well-formed book (Book) is two price-time queues (Levels)
-- without a common id and an index of exactly their orders; Sweep says what Match has to do to a queue.
-- Snapshot: orderbook/snapshot.go, Serialize and Restore. Restoring: the proofs about it.
-- Command: kafka/command.go, from a message to the engine's input, with its proof.
-- Engine: market/engine.go (State), market/ring_buffer.go (Ring) and market/event_loop.go (Apply for
-- applyEvent, Loop for Run, Shutdown for its end). The fields that are atomic in Go are read and
-- written in one order.
-- Safety: the proofs about Engine.
-- Wallet: the wallet service. Tables has the rows of the database, Decimals what the service reads off
-- a decimal, Repository the SQL statements of repository/postgres with the constraints of
-- migration/00001, Reserve, Deposit, Validate and Settle the operations of service, and Serve the
-- sequence of calls. A transaction is a chain of steps that fail with an error or give new tables;
-- an error leaves the tables of the call. Transactions run one after the other, so locks are not
-- modelled. Lease is outbox_repository.go alone, by its own rows with status, claim and time.
-- Funds: the proofs about Wallet. Lease and Fencing are about the outbox. State has the measures and
-- the invariant, Ledger the keys of the ledger, Legs, Records and Settle the settlement.
-- Orders: the transactions of repository/postgres/order_repository.go, with the proofs about them.
-- Taker: engine/circuit_breaker.go (Breaker) and engine/safety.go (Safety), with the proofs about them.
-- Tests: concrete books, engines and messages, and the theorems applied to them.
-- Base: the names that the modules share; Outcomes, Post and Swaps for what runs on a database.
--
-- Numbers. Decimals are naturals in a smallest unit: the consumer (kafka/command.go) refuses a
-- quantity that is not positive and a price below zero. Ids, market names and times are naturals and 0
-- is their zero value. `Sequence` is a uint64 and wraps. Offsets are naturals, and none is -1.
--
-- In the wallet an amount is a number of units of 10^-10, as its columns DECIMAL(30,10) hold it, ids
-- are texts, and an amount in a request is what the decimal library makes of its text.
--
-- Fuel. `sort.Search` halves an interval, so its length is enough rounds; the matching loop takes at
-- least one order off the opposite queue in every round but the last, so one more than the length of
-- that queue is enough. The theorems on Match say that it returns, so the fuel never runs out.
--
-- Parameters: the id of a trade and the clock (`Env`), the texts of uuids, decimals and times and the
-- checksum of a snapshot (`Codec`), the decoding of JSON (`Decoder`), and the ids that the wallet draws
-- (`Ids`), and the products and quotients of the taker's decimals (`Arithmetic`). A time that is read is never
-- before the zero time.
--
-- Not modelled: the capacity of the two channels, log lines and metrics, the list of market-maker
-- orders in the published snapshot, the publisher, the Kafka client, recovery and the other services;
-- in the wallet the overflow of a column, failures of the connection, texts that are no UUID, time
-- stamps of rows but those of the lease, the getters and the loop of the outbox publisher.
mod Base
pub mod OrderBook
pub mod Matcher
pub mod Matching
pub mod Snapshot
pub mod Engine
pub mod Restoring
pub mod Command
pub mod Safety
pub mod Wallet
pub mod Funds
pub mod Orders
pub mod Taker
mod Tests
