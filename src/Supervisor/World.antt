-- ===== src/Supervisor/World.antt =====
-- crates/handoff/src/supervisor.rs: the supervisor's state, and its calls of the outside: the two
-- control sockets, the child process, the journal and the clock. `Env` answers the calls; each is
-- indexed by the number of calls made so far. `trace` records what matters of them, the newest first.
use handoff.Prelude.{
  ℕ, suc, ◌+◌, ◌-◌, max, Bool, false, not, ◌&&◌, Option, none, some, List, ◌∷◌, String, ◌==◌,
  if◌then◌else◌,
}
use handoff.Error.{Result, ok, err, Error, io, IoError}
use handoff.Fallible
use handoff.Fallible.{◌>>=◌, ◌>>◌, pure, throw, lift, catch}
use handoff.Protocol.{HandoffId, ProtoVersion, Message, Side, incumbent, successor, abort}
use handoff.State.{Phase, StateJournal, Store, Codec, Faults, write_atomic, delete}

-- Milliseconds.
abbrev pub min_read_timeout : ℕ
min_read_timeout = 100

abbrev pub wire_slack : ℕ
wire_slack = 1000

-- What one `poll_read` returns, whether bytes of a frame are then buffered, and how long it took.
pub record Reading : Type 0 where
  pub polled : Result (Option (ProtoVersion × Message))
  pub partial : Bool
  pub took : ℕ

pub record Env : Type 0 where
  pub me : ℕ  -- our pid
  pub handoff_id : HandoffId  -- `HandoffId::new()`
  pub einval : ℕ
  pub format : String → String → String  -- a `format!` template and its argument
  pub display : Error → String  -- the `Display` that `thiserror` derives
  pub wrong_id : HandoffId → HandoffId → String
  pub wrong_role : Side → Side → String
  pub lag : ℕ → ℕ  -- milliseconds that pass before a reading of the clock
  pub unix_ms : ℕ → ℕ
  pub connect : Result (Unit {0})
  pub configure : ℕ → Result (Unit {0})
  pub socketpair : Result (Unit {0})
  pub spawn : Result ℕ
  pub send : ℕ → Result (Unit {0})
  pub set_timeout : ℕ → Option IoError
  pub would_block : ℕ → Bool  -- a peek finds the socket open and empty
  pub has_journal : Bool  -- `journal_path` is set
  pub codec : Codec
  pub faults : ℕ → Faults
  pub unlink : ℕ → Option IoError

pub data Event : Type 0 where
  sent got : Side → Message → Event
  spawned killed handed_over : (pid : ℕ) → Event

pub record World : Type 0 where
  pub tick : ℕ
  pub time : ℕ
  pub in_flight : Bool
  pub from_incumbent : List Reading
  pub from_successor : List Reading
  pub guard : Option ℕ  -- the pid of the child that `ChildGuard` owns
  pub journal : Store
  pub trace : List Event

abbrev pub M {ℓ} : Type ℓ → Type ℓ
M A = Fallible.M World A

abbrev pub ticked : World → World
ticked w = record w { tick = suc w.tick }

abbrev pub note : Event → World → World
note e w = record w { tick = suc w.tick; trace = e ∷ w.trace }

-- A frame that fails to be written is not recorded.
abbrev pub report_sent : Side → Message → Result (Unit {0}) → World → World
report_sent peer m (ok _) w = note (sent peer m) w
report_sent peer m (err _) w = ticked w

abbrev pub stream : Side → World → List Reading
stream incumbent w = w.from_incumbent
stream successor w = w.from_successor

abbrev pub put_stream : Side → List Reading → World → World
put_stream incumbent rs w = record w { from_incumbent = rs }
put_stream successor rs w = record w { from_successor = rs }

-- The child of the guard is killed and reaped.
abbrev pub drop_guard : World → World
drop_guard w = elim w.guard [ none ↦ w | some pid ↦ record (note (killed pid) w) { guard = none } ]

-- `ChildGuard::new` around what `Command::spawn` returns.
abbrev pub spawned_by : Result ℕ → World → Result ℕ × World
spawned_by (ok pid) w = (ok pid, record (note (spawned pid) w) { guard = some pid })
spawned_by (err e) w = (err e, ticked w)

-- A scope that owns the guard.
abbrev pub guarded {ℓ} : {A : Type ℓ} → M A → M A
guarded body w = ((body w).0, drop_guard (body w).1)

module _ (env : Env) where
  unfoldable pub instant_now : M ℕ
  instant_now w =
      let t = w.time + env.lag w.tick in (ok t, record w { tick = suc w.tick; time = t })

  unfoldable pub now_unix_ms : M ℕ
  now_unix_ms w = (ok (env.unix_ms w.tick), ticked w)

  unfoldable pub configure_control_stream : M (Unit {0})
  configure_control_stream w = (env.configure w.tick, ticked w)

  unfoldable pub write_frame : Side → Message → M (Unit {0})
  write_frame peer m w = (env.send w.tick, report_sent peer m (env.send w.tick) w)

  -- Tolerates `EINVAL` on a socket whose read cannot block.
  abbrev pub tolerate : Option IoError → Bool → Result (Unit {0})
  tolerate none blocks = ok tt
  tolerate (some e) blocks =
      if elim e.raw_os_error [ none ↦ false | some n ↦ n == env.einval ] && not blocks
      then ok tt
      else err (io e)

  unfoldable pub arm_recv_timeout : M (Unit {0})
  arm_recv_timeout w = (tolerate (env.set_timeout w.tick) (env.would_block w.tick), ticked w)

  unfoldable pub remaining_until : ℕ → M ℕ
  remaining_until deadline = do now ← instant_now; pure (max (deadline - now) min_read_timeout)

  unfoldable pub spawn_successor : M ℕ
  spawn_successor w = spawned_by env.spawn w

  unfoldable pub kill_and_reap : M (Unit {0})
  kill_and_reap w = (ok tt, drop_guard w)

  -- The child that the guard gives up.
  unfoldable pub disarm : M (Option ℕ)
  disarm w = elim w.guard [
    | none ↦ (ok none, w)
    | some pid ↦ (ok (some pid), record (note (handed_over pid) w) { guard = none })
  ]

  unfoldable pub send_best_effort_abort : String → M (Unit {0})
  send_best_effort_abort reason =
      catch (write_frame successor (abort env.handoff_id reason)) >>= λ _. pure tt

  abbrev pub entry : Phase → (pid started : ℕ) → StateJournal
  entry phase pid started = record {
    handoff_id = env.handoff_id;
    phase = phase;
    incumbent_pid = env.me;
    successor_pid = some pid;
    started_at_unix_ms = started;
  }

  abbrev pub journaled : Result (Unit {0}) × Store → World → Result (Unit {0}) × World
  journaled (r, store) w = (r, record w { tick = suc w.tick; journal = store })

  unfoldable pub journal_set : Phase → (pid started : ℕ) → M (Unit {0})
  journal_set phase pid started w =
      if env.has_journal
      then journaled
          (write_atomic env.codec (env.faults w.tick) (entry phase pid started) w.journal) w
      else (ok tt, w)

  unfoldable pub journal_clear : M (Unit {0})
  journal_clear w =
      if env.has_journal
      then (
        ok tt,
        record w { tick = suc w.tick; journal = (delete (env.unlink w.tick) w.journal).1 },
      )
      else (ok tt, w)
