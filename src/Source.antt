-- ===== src/Source.antt =====
-- pg-tide-relay/src/source/outbox.rs: the native outbox source, without a consumer group. The rows
-- of one outbox stand in the order of their ids, which is the order of the query. What the database
-- answers to each statement, and what it holds as large objects, is an argument.
pub mod Rows
pub mod Poll
pub mod Commit
pub mod Order
pub mod Offsets
mod Examples
pub mod Coverage
