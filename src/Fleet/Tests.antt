-- ===== src/Fleet/Tests.antt =====
-- crates/handoff/src/incumbent.rs: two processes of which the second takes over from the first.
use handoff.Prelude.{true, false, none, [], ℕ}
use handoff.Error.{ok}
use handoff.Protocol.{Message, prepare_handoff, seal_request}
use handoff.Incumbent.World.{Env, World, default}
use handoff.Incumbent.Session.{handle}
use handoff.Incumbent.Example.{answers}
use handoff.Lock.Acquire.{owned_by}
use handoff.Fleet.{out, idle, session, Node, System, view, move, fresh}

abbrev as_pid : ℕ → Env
as_pid i = record (answers (ok tt)) { me = i }

abbrev asleep : World
asleep = record {
  tick = 0;
  time = 0;
  lock = none;
  disk = owned_by 9;
  session = default;
  trace = [];
}

abbrev nobody : System
nobody = record {
  disk = record { flock = none; pidfile = none };
  node = λ i. record { pc = out; world = asleep };
}

-- What a step of process `i` makes of the system.
abbrev moved : System → ℕ → Node → System
moved s i n = record { disk = n.world.disk; node = move s.node i n }

abbrev one_serves : System
one_serves =
    moved nobody 1 (record { pc = idle; world = fresh (record { holder = 1 }) (owned_by 1) })

abbrev one_joins : System
one_joins =
    moved one_serves 1
      (record { pc = session false; world = record (view one_serves 1) { session = default } })

abbrev told : (s : System) (m : Message) → World
told s m = (handle (as_pid 1) 1 m (view s 1)).1

abbrev one_drains : System
one_drains =
    moved one_joins 1
      (record { pc = session false; world = told one_joins (prepare_handoff 9 2 1000 100) })

abbrev one_seals : System
one_seals =
    moved one_drains 1 (record { pc = session true; world = told one_drains (seal_request 9) })

abbrev two_serves : System
two_serves =
    moved one_seals 2 (record { pc = idle; world = fresh (record { holder = 2 }) (owned_by 2) })
