-- ===== src/Incumbent.antt =====
-- crates/handoff/src/incumbent.rs: the incumbent's side of a handoff.
-- World: the process's state and the effects of its calls; Session: one supervisor connection;
-- Serve: the accept loop; the other children prove what these do.
pub mod World
pub mod Session
pub mod Serve
pub mod Quiet
pub mod Handlers
pub mod Recovery
pub mod Sessions
pub mod Accepts
pub mod Writer
pub mod NoSplit
mod TwoSeals
pub mod Answers
pub mod Commits
pub mod Example
mod Tests
