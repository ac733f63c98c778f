-- ===== src/Incumbent/Example.antt =====
-- crates/handoff/src/incumbent.rs: an incumbent that serves, and a system whose calls succeed.
use handoff.Prelude.{refl, true, false, none, some, List, [], ◌∷◌}
use handoff.Error.{Result, ok, err}
use handoff.Lock.{Faults}
use handoff.Lock.Acquire.{owned_by}
use handoff.Incumbent.World.{Env, World, DrainReport, SealReport, default}
use handoff.Incumbent.Answers.{IsHealthy}
use handoff.Incumbent.Session.{Poll}
use handoff.Incumbent.Serve.{Libc, Accept, accepted}
use handoff.Incumbent.Sessions.{IsIdle}

abbrev pub no_faults : Faults
no_faults = record {
  create_dir = none;
  open_lock = none;
  flock_errno = none;
  open_tmp = none;
  write_tmp = none;
  sync_tmp = none;
  rename_tmp = none;
  sync_dir = none;
}

abbrev pub answers : Result (Unit {0}) → Env
answers sealed = record {
  me = 1;
  build_id = [];
  display = λ _. "error";
  lag = λ _. 1;
  send = λ _. ok tt;
  arm = λ _. ok tt;
  clone = λ _. false;
  beats = λ _. 0;
  drain = λ _ _. ok (record { open_conns_remaining = 0; accept_closed = true });
  seal = λ _. elim sealed [
    | ok _ ↦ ok (record { last_revision_per_shard = 4 ∷ []; data_dir_fingerprint = [] })
    | err e ↦ err e
  ];
  resume = λ _. ok tt;
  faults = λ _. no_faults;
  others = λ _ d. d;
  unlink = λ _. none;
}

abbrev pub idle : World
idle = record {
  tick = 0;
  time = 0;
  lock = some (record { holder = 1 });
  disk = owned_by 1;
  session = default;
  trace = [];
}

pub idle-IsIdle : IsIdle idle
idle-IsIdle = record { settled = refl; has_lock = refl; ordered = tt }

abbrev pub linux : Libc
linux = record {
  econnaborted = 103;
  eproto = 71;
  eperm = 1;
  emfile = 24;
  enfile = 23;
  enobufs = 105;
  enomem = 12;
  eagain = 11;
}

abbrev pub from_peer : List Poll → Accept
from_peer polls = accepted (record { peer_uid = ok 100; configured = ok tt; polls = polls })

abbrev pub drain_report : DrainReport
drain_report = record { open_conns_remaining = 0; accept_closed = true }

abbrev pub seal_report : SealReport
seal_report = record { last_revision_per_shard = 4 ∷ []; data_dir_fingerprint = [] }

pub answers-IsHealthy : IsHealthy (answers (ok tt)) drain_report seal_report
answers-IsHealthy = record {
  sends = λ _. refl;
  arms = λ _. refl;
  drains = λ _ _. refl;
  seals = λ _. refl;
}
