-- ===== src/Supervisor/Example.antt =====
-- crates/handoff/src/supervisor.rs: a run in which every call succeeds, with a healthy and a dying successor.
use handoff.Prelude.{refl, arith, true, false, none, some, List, [], ◌∷◌}
use handoff.Error.{ok, err, codec}
use handoff.Protocol.{
  negotiate_version, Message, incumbent, successor, hello, drained, heartbeat, seal_complete, ready,
}
use handoff.State.{Faults, empty}
use handoff.Supervisor.World.{Env, World, Reading}
use handoff.Supervisor.Handoff.{SpawnSpec}
use handoff.Supervisor.Healthy.{IsHealthy}
use handoff.Supervisor.Script.{Script, IsCooperative}
use handoff.State.{write_atomic}

abbrev pub no_faults : Faults
no_faults = record {
  create_dir = none;
  open_tmp = none;
  write_tmp = none;
  written = 0;
  sync_tmp = none;
  rename_tmp = none;
  sync_dir = none;
}

abbrev pub answers : Env
answers = record {
  me = 1;
  handoff_id = 9;
  einval = 22;
  format = λ template _. template;
  display = λ _. "error";
  wrong_id = λ _ _. "wrong handoff_id";
  wrong_role = λ _ _. "wrong role";
  lag = λ _. 1;
  unix_ms = λ _. 0;
  connect = ok tt;
  configure = λ _. ok tt;
  socketpair = ok tt;
  spawn = ok 7;
  send = λ _. ok tt;
  set_timeout = λ _. none;
  would_block = λ _. false;
  has_journal = true;
  codec = record { to_allocvec = λ j. ok (j.handoff_id ∷ []); from_bytes = λ _. err (codec 0) };
  faults = λ _. no_faults;
  unlink = λ _. none;
}

abbrev pub reading : Message → Reading
reading m = record { polled = ok (some (1, m)); partial = false; took = 5 }

abbrev pub incumbent_reads : List Reading
incumbent_reads =
    reading (hello incumbent 3 [] 1 1 0)
    ∷ reading (heartbeat 0)
    ∷ reading (drained 0 true)
    ∷ reading (seal_complete 9 [] [])
    ∷ []

abbrev pub before : List Reading → World
before from_successor = record {
  tick = 0;
  time = 0;
  in_flight = false;
  from_incumbent = incumbent_reads;
  from_successor = from_successor;
  guard = none;
  journal = empty;
  trace = [];
}

abbrev pub healthy : World
healthy = before (reading (hello successor 7 [] 1 1 0) ∷ reading (ready 9 [] true []) ∷ [])

-- The successor disconnects behind its hello.
abbrev pub dying : World
dying = before (reading (hello successor 7 [] 1 1 0) ∷ [])

abbrev pub spec : SpawnSpec
spec = record { deadline = 300000; drain_grace = 60000 }

-- What the two processes answer when all goes well.
abbrev pub script : Script
script = record {
  greeting = reading (hello incumbent 3 [] 1 1 0);
  while_draining = reading (heartbeat 0) ∷ [];
  drained = reading (drained 0 true);
  while_sealing = [];
  sealed = reading (seal_complete 9 [] []);
  rest = [];
  successor_greeting = reading (hello successor 7 [] 1 1 0);
  while_starting = [];
  ready = reading (ready 9 [] true []);
  successor_rest = [];
}

pub answers-IsHealthy : IsHealthy answers 7 1
unfolding write_atomic
answers-IsHealthy = record {
  connects = refl;
  configures = λ _. refl;
  pairs = refl;
  spawns = refl;
  sends = λ _. refl;
  arms = λ _. refl;
  writes = λ _ _ _. refl;
  prompt = λ _. omega arith;
}

pub script-IsCooperative : IsCooperative answers 7 1 spec script
unfolding negotiate_version
script-IsCooperative = record {
  greets = (1, 3, [], 1, 1, 0, 1, refl, refl, tt);
  drains = (1, 0, true, refl);
  seals = (1, [], [], refl);
  child_greets = (1, 7, [], 1, 1, 0, 1, refl, refl, refl);
  readies = (1, [], true, [], refl);
  busy = (ground arith, tt, tt);
  drains_in_time = omega arith;
  ends_in_time = omega arith;
}
