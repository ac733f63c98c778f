-- ===== src/Together.antt =====
-- crates/handoff/src/incumbent.rs and supervisor.rs together: an incumbent whose control socket only the
-- supervisor of this crate connects to. A frame that the supervisor has written reaches the incumbent whole and
-- in order, unless the connection ends before it.
pub mod Begins
pub mod Commits
mod Tests
use handoff.Prelude.{ℕ, suc, ◌≡◌, sym, ◌∙◌, Option, none, some, List, [], ◌∷◌, ◌++◌, take}
use handoff.Error.{Result, ok, err}
use handoff.Protocol.{ProtoVersion, Message, incumbent, seal_request, abort, resume_after_abort}
use handoff.Supervisor
use handoff.Supervisor.World.{Event, sent}
use handoff.Supervisor.Handoff.{SpawnSpec, perform_handoff}
use handoff.Incumbent.World.{Env, World}
use handoff.Incumbent.Session.{Poll}
use handoff.Incumbent.Serve.{Accept, accepted, refused}

-- The frames that the supervisor has sent the incumbent, the oldest first.
abbrev pub to_incumbent : List Event → List Message
to_incumbent [] = []
to_incumbent (sent incumbent m ∷ t) = to_incumbent t ++ (m ∷ [])
to_incumbent (_ ∷ t) = to_incumbent t

-- The frames that a session reads.
abbrev pub messages : List Poll → List Message
messages [] = []
messages (ok (some (_, m)) ∷ ps) = m ∷ messages ps
messages (ok none ∷ ps) = messages ps
messages (err _ ∷ ps) = messages ps

-- A session that reads, of the frames of one handoff, the first ones.
abbrev pub IsFromHandoff : List Poll → Type 0
IsFromHandoff polls =
    (env : Supervisor.World.Env) × (spec : SpawnSpec) × (w : Supervisor.World.World) × (k : ℕ)
    × (w.trace ≡ [])
    × (messages polls ≡ take k (to_incumbent (perform_handoff env spec w).1.trace))

abbrev pub AllFromHandoffs : List Accept → Type 0
AllFromHandoffs [] = Unit
AllFromHandoffs (refused _ ∷ rest) = AllFromHandoffs rest
AllFromHandoffs (accepted c ∷ rest) = IsFromHandoff c.polls × AllFromHandoffs rest

abbrev requests : List Message → ℕ
requests [] = 0
requests (seal_request _ ∷ ms) = suc (requests ms)
requests (_ ∷ ms) = requests ms
