-- ===== src/Supervisor.antt =====
-- crates/handoff/src/supervisor.rs: the driver of a handoff.
-- World: the supervisor's state and the effects of its calls; Wire: what it reads from the two
-- processes; Handoff: `perform_handoff`, a function per phase; the other children prove what these do.
pub mod World
pub mod Wire
pub mod Handoff
pub mod Trace
pub mod Keeping
pub mod Reads
pub mod Sealing
pub mod Finishes
pub mod Healthy
pub mod Awaits
pub mod Script
pub mod Phases
pub mod Greeted
pub mod Commits
pub mod Settles
pub mod Asks
pub mod Silence
pub mod Once
pub mod Resume
pub mod Example
mod Tests
