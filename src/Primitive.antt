-- ===== src/Primitive.antt =====
-- crates/handoff-tests/src/bin/primitive.rs: the process that the integration tests hand off, from its start into `serve`,
-- as a cold start and as a successor. Its markers, crash points, delays and logging are left out.
pub mod Serves
mod Tests
use handoff.Prelude.{ℕ, true, List, [], ◌∷◌, String}
use handoff.Error.{Result, ok, err, Error}
use handoff.Fallible.{◌>>=◌}
use handoff.Text.{Text, text}
use handoff.Protocol.{HandoffId, Message, hello, Side, proto_min, proto_max}
use handoff.Frame.{Codec}
use handoff.Frame.Write.{write_frame}
use handoff.Lock
use handoff.Lock.{DataDirLock, acquire, release}
use handoff.Sock.Bind.{System}
use handoff.Role.{Reads, BegunSuccessor, ReadinessSnapshot, start}
use handoff.Role.Takeover.{Takeover, Incumbent, bind_replacing, announce_and_bind}
use handoff.Incumbent.World.{Env, World}
use handoff.Incumbent.Serve.{Libc, Accept, ServeEnd, serve}
use handoff.Fleet.{fresh}

-- What the process has around it.
pub record Around : Type 0 where
  pub codec : Codec
  pub system : System
  pub env : Env
  pub libc : Libc
  pub euid : ℕ
  pub faults : Lock.Faults  -- of the one `acquire`
  pub wrong_id : HandoffId → HandoffId → String
  pub socket_path : Text
  pub data_dir : Text
  pub accepts : List Accept

pub record State : Type 0 where
  pub flock : Lock.Disk
  pub takeover : Takeover

pub data Run : Type 0 where
  failed : Error → State → Run  -- before `serve`
  served : Takeover → ServeEnd → World → Run

abbrev pub snapshot : ReadinessSnapshot
snapshot = record { listening_on = []; healthz_ok = true; advertised_revision_per_shard = 43 ∷ [] }

module _ (a : Around) where
  -- The incumbent owns the lock.
  abbrev pub go_on : DataDirLock → Lock.Disk → Result Incumbent × Takeover → Run
  go_on lock d (ok _, t) =
      served t (serve a.env a.libc a.euid a.accepts (fresh lock d)).0
        (serve a.env a.libc a.euid a.accepts (fresh lock d)).1
  go_on lock d (err e, t) = failed e (record { flock = release (a.env.unlink 0) d; takeover = t })

  abbrev pub cold_start_with : Takeover → Result DataDirLock × Lock.Disk → Run
  cold_start_with t (ok lock, d) =
      go_on lock d (bind_replacing a.system a.socket_path a.data_dir lock t)
  cold_start_with t (err e, d) = failed e (record { flock = d; takeover = t })

  unfoldable pub run_cold_start : State → Run
  run_cold_start s = cold_start_with s.takeover (acquire a.env.me a.faults s.flock)

  abbrev pub succeed_with : BegunSuccessor → Takeover → Result DataDirLock × Lock.Disk → Run
  succeed_with b t (ok lock, d) =
      go_on lock d (announce_and_bind a.codec a.system b snapshot a.socket_path a.data_dir lock t)
  succeed_with b t (err e, d) = failed e (record { flock = d; takeover = t })

  abbrev pub begun_with : Takeover → Lock.Disk → Result BegunSuccessor → Run
  begun_with t d (ok b) = succeed_with b t (acquire a.env.me a.faults d)
  begun_with t d (err e) = failed e (record { flock = d; takeover = t })

  abbrev pub greeting_of : Message
  greeting_of = hello Side.successor a.env.me (text "handoff-test") proto_min proto_max 0

  -- `control` is what `read_message` returns, time after time.
  unfoldable pub run_successor : Reads → State → Run
  run_successor control s =
      let (written, socket) = write_frame a.codec proto_max greeting_of s.takeover.control in
      begun_with (record s.takeover { control = socket }) s.flock (start a.wrong_id written control)
