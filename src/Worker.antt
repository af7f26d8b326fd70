-- ===== src/Worker.antt =====
-- pg-tide-relay/src/coordinator.rs: the worker of one pipeline. Its helpers, its settings and
-- state, one iteration of its loop, and runs of it.
pub mod Outcome
pub mod Limits
pub mod State
pub mod Loop
pub mod Runs
