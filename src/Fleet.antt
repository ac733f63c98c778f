-- ===== src/Fleet.antt =====
-- crates/handoff/src/incumbent.rs and lock.rs: any number of processes on one data directory, each of which
-- starts, serves, seals, resumes and dies, in any order. A step is what one process does up to its
-- next wait; it changes the disk at most once. The steps call the functions of the model.
pub mod Owns
pub mod Sound
pub mod OneWriter
mod Tests
use handoff.Prelude.{
  ℕ, ◌≡◌, Bool, true, false, Option, none, some, List, [], ite, ℕ_discrete, if◌then◌else◌,
}
use handoff.Error.{Result, ok, err, Error, IoError}
use handoff.Protocol.{ProtoVersion, Message, hello, Side, proto_min, proto_max}
use handoff.Lock.{Disk, Faults, DataDirLock, acquire, release, unlock}
use handoff.Incumbent.World.{
  Env, World, is_held, default, write_frame, set_read_timeout, sleep, reacquire, call_resume,
}
use handoff.Incumbent.Session.{SessionOutcome, committed, closed, on_read_error, clean_up, handle}
use handoff.Incumbent.Writer.{Permits, flag}

-- Where a process stands between two steps. A session says whether it may have sealed.
pub data Pc : Type 0 where
  out : Pc  -- it does not run
  idle : Pc  -- in `accept`, or before the choice of a version
  session : (may_have_sealed : Bool) → Pc
  recovering : Pc  -- in `acquire_with_short_retry`
  done : Pc  -- `serve` has returned behind a `Commit`

pub record Node : Type 0 where
  pub pc : Pc
  pub world : World

-- `after_session`, up to its next wait.
abbrev pub place : Result SessionOutcome × World → Pc
place (ok committed, w) = done
place (ok closed, w) = idle
place (err _, w) = if is_held w.lock then idle else recovering

-- The outcome of a message loop.
abbrev pub close : Env → Result SessionOutcome × World → Node
close env (r, w) = record { pc = place (clean_up env r w); world = (clean_up env r w).1 }

-- A process that has just acquired the lock, by a cold start or as a successor.
abbrev pub fresh : DataDirLock → Disk → World
fresh l d = record { tick = 0; time = 0; lock = some l; disk = d; session = default; trace = [] }

abbrev pub start_of : Env → World → Message
start_of env w = hello Side.incumbent env.me env.build_id proto_min proto_max 0

-- One step of a process, with the disk in its world.
pub data Act (env : Env) (w : World) : Pc → Node → Type 0 where
  boot :
      (f : Faults) (l : DataDirLock) (d : Disk)
      → acquire env.me f w.disk ≡ (ok l, d)
      → Act env w out (record { pc = idle; world = fresh l d })
  boot_fails :
      (f : Faults) (e : Error) (d : Disk)
      → acquire env.me f w.disk ≡ (err e, d)
      → Act env w out (record { pc = out; world = record w { disk = d } })
  back_off : (ms : ℕ) → Act env w idle (record { pc = idle; world = (sleep env ms w).1 })
  greet :
      Act env w idle
        (record { pc = idle; world = (write_frame env proto_max (start_of env w) w).1 })
  arm : Act env w idle (record { pc = idle; world = (set_read_timeout env w).1 })
  join :
      ProtoVersion
      → Act env w idle (record { pc = session false; world = record w { session = default } })
  carry_on :
      (chosen : ProtoVersion) (b : Bool) (m : Message) (w' : World)
      → Permits b m
      → handle env chosen m w ≡ (ok none, w')
      → Act env w (session b) (record { pc = session (flag b m); world = w' })
  leave :
      (chosen : ProtoVersion) (b : Bool) (m : Message) (o : SessionOutcome) (w' : World)
      → Permits b m
      → handle env chosen m w ≡ (ok (some o), w')
      → Act env w (session b) (close env (ok o, w'))
  stop :
      (chosen : ProtoVersion) (b : Bool) (m : Message) (e : Error) (w' : World)
      → Permits b m
      → handle env chosen m w ≡ (err e, w')
      → Act env w (session b) (close env (err e, w'))
  hang_up :
      (chosen : ProtoVersion) (b : Bool) (e : Error)
      → Act env w (session b) (close env (on_read_error env chosen e w))
  retry :
      (e : Error) (w' : World)
      → reacquire env w ≡ (err e, w')
      → Act env w recovering (record { pc = recovering; world = w' })
  recover :
      (w' : World)
      → reacquire env w ≡ (ok tt, w')
      → Act env w recovering (record { pc = idle; world = (call_resume env w').1 })
  quit :
      (f : Option IoError)
      → Act env w idle
          (record { pc = out; world = record w { lock = none; disk = release f w.disk } })

pub record System : Type 0 where
  pub disk : Disk
  pub node : ℕ → Node

abbrev pub move : (ℕ → Node) → ℕ → Node → ℕ → Node
move f i n j = ite (ℕ_discrete i j) n (f j)

-- The world of a process, with the disk that all share.
abbrev pub view : System → ℕ → World
view s i = record (s.node i).world { disk = s.disk }

-- What other processes do to the disk are steps of their own.
abbrev pub IsAlone : Env → Type 0
IsAlone env = (n : ℕ) (d : Disk) → env.others n d ≡ d

-- The kernel closes the files of a process.
abbrev pub freed_of : ℕ → Option ℕ → Disk → Disk
freed_of i none d = d
freed_of i (some j) d = ite (ℕ_discrete i j) (unlock d) d

abbrev pub freed : ℕ → Disk → Disk
freed i d = freed_of i d.flock d

-- The answers of the system may differ from step to step.
pub data Step (s : System) : System → Type 0 where
  act :
      (env : Env) (n : Node)
      → IsAlone env
      → Act env (view s env.me) (s.node env.me).pc n
      → Step s (record { disk = n.world.disk; node = move s.node env.me n })
  die :
      (i : ℕ)
      → Step s (record {
        disk = freed i s.disk;
        node =
            move s.node i (record {
              pc = out;
              world = record (view s i) { lock = none; disk = freed i s.disk };
            });
      })

pub data Reach (s : System) : System → Type 0 where
  here : Reach s s
  next : {t u : System} → Reach s t → Step t u → Reach s u

-- No process runs yet; the disk may have been left in any state.
pub record IsStart (s : System) : Type 0 where
  pub all_out : (i : ℕ) → (s.node i).pc ≡ out
  pub no_lock : (i : ℕ) → (s.node i).world.lock ≡ none
