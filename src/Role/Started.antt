-- ===== src/Role/Started.antt =====
-- crates/handoff/src/supervisor.rs, fd.rs and role.rs together: with descriptors to spare, the successor starts.
use handoff.Text.{Text}
use handoff.Process.{Process}
