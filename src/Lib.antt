-- ===== src/Lib.antt =====
-- A verification library of pg-tide: of its PostgreSQL extension, which keeps outbox tables, and of
-- its relay, the daemon that delivers the rows of those tables to message sinks.
--
-- The parts, and how they interact. A worker (pg-tide-relay/src/coordinator.rs, `worker_inner`)
-- runs one pipeline in a loop. It polls a source (pg-tide-relay/src/source/outbox.rs) for the rows
-- above its offset, decoded to messages (pg-tide-relay/src/envelope.rs); it publishes the batch to
-- a sink behind a circuit breaker (pg-tide-relay/src/circuit_breaker.rs); after a success, a dry
-- run or the insert of dead letters (pg-tide-relay/src/dlq.rs) it acknowledges the last message
-- polled, which commits the offset. Errors (pg-tide-relay/src/error.rs) are transient or permanent,
-- which decides between a retry, the dead letters and the end of the worker.
-- pg-tide-relay/src/delivery_model.rs is the repository's own pure model of one batch. The
-- extension (pg-tide-ext/src) inserts the rows, sweeps those that are expired and that every reader
-- has passed, keeps consumer groups with their offsets, and has the catalog of pipelines
-- (pg-tide-ext/src/outbox.rs and relay.rs), and inboxes for what the relay delivers. A sweep reads the offset that the worker stores, and a
-- worker's run has the sweep as one of its events.
--
-- Which file models which part:
--   Prelude     native numbers, lists, `i64` as signed integers, text as lists of code points;
--   Foreign     what other packages provide (`serde_json::Value`, `Uuid`, timestamps, database
--               errors), a record that the definitions take as an argument;
--   Errors      `RelayError`, its retry classes and the classification of connector failures;
--   Envelope    `RelayMessage`, `OutboxBatch::into_messages`, keys and subjects;
--   Dlq         `DlqEntry`, `insert_batch` and `insert_one` with the unique index as a list search;
--   Breaker     `CircuitBreaker` with the clock as an argument, in nanoseconds: Trips,
--               Timeouts and Recovery prove;
--   Delivery    `transition` of the delivery model;
--   Source      `OutboxPollerSource` without a consumer group: Rows has the rows and the decoding
--               of payloads, Poll has `poll`, `fenced_native_rows` and `configure_replay`, Commit
--               has `update_simple_offset` and `acknowledge`; Order, Offsets and Coverage prove;
--   HttpUtil    `is_forbidden_ip` (pg-tide-relay/src/http_util.rs), which guards the endpoints of
--               HTTP sinks;
--   Worker      Outcome has the loop's helpers, Limits `validate_publish_limits`, State the settings
--               and the state, Loop the start and one iteration of `worker_inner`, and Runs the
--               sequences of arrivals, sweeps, starts and iterations.
--   Compatibility  which versions work together (pg-tide-relay/src/compatibility.rs), with the
--               embedded policy file as an argument; Judgments proves;
--   Extension   Database has the tables as a record of lists, Failures `PgTideError` with `code`,
--               Validation `validate_identifier`, Outboxes `outbox_create_impl` to
--               `outbox_enable_impl`, Publish `outbox_publish_impl`, Groups the consumer groups,
--               `commit_offset_impl` and the publishers, Candidates and Sweep `sweep_one` with
--               `sweep_one_locked`, Sweep.Rounds `outbox_sweep_impl`, Relay the catalog, Calls
--               the sequences of calls, and Inboxes the inboxes (pg-tide-ext/src/inbox.rs).
--
-- How state and effects stand. Each operation takes its state and what its surroundings answer (the
-- database's faults before and after a commit took effect, the sink's result, a stop) and returns
-- its result with the next state; an iteration is the function `iterate`, and a run is a list of
-- events. A function of the extension takes which of its statements fail, numbered in the order of
-- the source, and what the clock and the roles answer; an error leaves the tables as they were,
-- since it aborts the transaction. Counters wrap at 32 bits and the poll backoff at 64 bits, written out. Nothing recurses
-- on fuel but `str::replace`, whose fuel is the length of the text, since each step uses up a
-- character, and the decimal form of a number n, with fuel n + 1, since it has at most n + 1 digits.
--
-- What is taken as given. Rows become visible in the order of their ids: publishers and the poll
-- take the outbox's advisory lock. A poll sees the rows of its outbox in the order of the query.
-- The sink, the sizes of encoded messages and the texts of errors are arguments. A batch counts as
-- accepted when the sink's `publish` returns `Ok`. Operators do not edit the dead letters, and rows
-- leave the outbox table by sweeps only. The address tests of Rust's standard library are written
-- out. EXISTS and COUNT are never NULL; the queries of one call see the same rows; a deletion
-- cascades along the foreign keys of the schema (sql/pg_tide--0.1.0.sql); messages stand in the
-- order of their ids, and a publish may leave a gap. Columns that only hold times of records, and
-- the order of the partitions, are left out, as is the id of
-- an inbox message; what table PostgreSQL takes a name for is an argument.
--
-- Not modelled: the relay's polling through a consumer group, `Coordinator::reconcile` and ownership, the rate limiter and the
-- semaphore of the loop (they only delay a publish), SET ROLE, metrics, logs, health, the sinks and
-- wire formats, configuration files, the command line, the extension's tenants, status views and installation. An error
-- of a JSON or database package carries no more than its SQLSTATE.
pub mod Prelude
pub mod Foreign
pub mod Errors
pub mod Envelope
pub mod Dlq
pub mod Source
pub mod Delivery
pub mod Breaker
pub mod Extension
pub mod Compatibility
pub mod Worker
pub mod HttpUtil
