-- ===== src/Extension.antt =====
-- pg-tide-ext/src: the PostgreSQL extension, whose functions publish to outboxes, sweep them and
-- keep consumer groups. A function that fails raises an error, which aborts the transaction.
pub mod Failures
pub mod Validation
pub mod Database
pub mod Candidates
pub mod Outboxes
pub mod Publish
pub mod Groups
pub mod Sweep
pub mod Calls
pub mod Relay
pub mod Inboxes
mod Examples
