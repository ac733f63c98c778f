-- ===== src/Fleet/OneWriter.antt =====
-- crates/handoff/src/incumbent.rs and lock.rs: of all the processes on a data directory, one at most has the
-- consumer's writer open.
use handoff.Prelude.{ℕ, ◌≡◌, ◌≢◌, true}
use handoff.Lock.{Disk}
use handoff.Incumbent.World.{World}
use handoff.Incumbent.Quiet.{writing}
use handoff.Fleet.{out, Node, System}
use handoff.Fleet.Owns.{Owns}
use handoff.Fleet.Sound.{Local}

-- A process that runs, with its consumer's writer open.
abbrev pub IsWriter : System → ℕ → Type 0
IsWriter s i = ((s.node i).pc ≢ out) × (writing (s.node i).world.trace ≡ true)

-- A process is in order, and has the flock if it holds the lock.
abbrev Good : Disk → ℕ → Node → Type 0
Good d i n = Local n.pc (record n.world { disk = d }) × Owns i (record n.world { disk = d })

abbrev IsSound : System → Type 0
IsSound s = (i : ℕ) → Good s.disk i (s.node i)
