-- ===== src/Trigger/Current.antt =====
-- crates/handoff-supervisor/src/main.rs over supervisor.rs: which child is the current one.
use handoff.Prelude.{◌≡◌, ◌⊎◌}
use handoff.Text.{Text}
use handoff.Supervisor.World.{World}
use handoff.Supervisor.Trace.{fate, released, IsReaped}
use handoff.Trigger.{State}

-- The current child is the one that the newest handoff released; or it is as before, and no child of a
-- handoff since then is left.
abbrev pub Follows : State → State → Type 0
Follows s s' =
    (fate s'.world.trace ≡ released s'.current_child)
    ⊎ ((s'.current_child ≡ s.current_child)
        × ((fate s'.world.trace ≡ fate s.world.trace) ⊎ IsReaped (fate s'.world.trace)))
