-- ===== src/Incumbent/World.antt =====
-- crates/handoff/src/incumbent.rs: the incumbent's state, and its calls of the outside: the control
-- socket, the consumer's `Drainable` hooks (drainable.rs), the data-dir lock and the clock.
-- `Env` answers the calls; each is indexed by the number of calls made so far.
-- `trace` records the calls, the newest first, each with whether the lock was held.
use handoff.Prelude.{
  ℕ, zero, suc, ◌+◌, Bool, true, false, Option, none, some, List, ◌∷◌, String, if◌then◌else◌,
}
use handoff.Error.{Result, ok, err, Error, IoError}
use handoff.Protocol.{HandoffId, ProtoVersion, Message, heartbeat}
use handoff.Fallible
pub use handoff.Fallible.{and_then, ◌>>=◌, ◌>>◌, pure, throw, catch, lift}
use handoff.Lock.{Disk, Faults, DataDirLock, acquire, release}

-- drainable.rs
pub record DrainReport : Type 0 where
  pub open_conns_remaining : ℕ
  pub accept_closed : Bool

pub record SealReport : Type 0 where
  pub last_revision_per_shard : List ℕ
  pub data_dir_fingerprint : List ℕ

pub record Env : Type 0 where
  pub me : ℕ  -- our pid
  pub build_id : List ℕ
  pub display : Error → String  -- the `Display` that `thiserror` derives
  pub lag : ℕ → ℕ  -- milliseconds that pass before a reading of the clock
  pub send : ℕ → Result (Unit {0})
  pub arm : ℕ → Result (Unit {0})  -- `set_read_timeout(Some(_))`
  pub clone : ℕ → Bool  -- whether `try_clone` succeeds
  pub beats : ℕ → ℕ  -- heartbeats that fall due during a hook
  pub drain : ℕ → ℕ → Result DrainReport
  pub seal : ℕ → Result SealReport
  pub resume : ℕ → Result (Unit {0})
  pub faults : ℕ → Faults
  pub others : ℕ → Disk → Disk  -- what other processes have done to the disk by then
  pub unlink : ℕ → Option IoError

pub data Event : Type 0 where
  sent : ProtoVersion → Message → Event
  drain_called : (deadline : ℕ) → Result DrainReport → Event
  seal_called : Result SealReport → Event
  resume_called : Result (Unit {0}) → Event
  released : Event
  acquired : Event
  slept : (ms : ℕ) → Event

-- `SessionState`
pub record SessionState : Type 0 where
  pub active : Option HandoffId
  pub sealed : Bool
  pub drained : Bool

abbrev pub default : SessionState
default = record { active = none; sealed = false; drained = false }

pub record World : Type 0 where
  pub tick : ℕ
  pub time : ℕ
  pub lock : Option DataDirLock
  pub disk : Disk
  pub session : SessionState
  pub trace : List (Bool × Event)

-- A computation that may fail. What it changed before it failed stays changed.
abbrev pub M {ℓ} : Type ℓ → Type ℓ
M A = Fallible.M World A

abbrev pub is_held : Option DataDirLock → Bool
is_held none = false
is_held (some _) = true

abbrev pub note : Event → World → World
note e w = record w { tick = suc w.tick; trace = (is_held w.lock, e) ∷ w.trace }

abbrev pub get_session : M SessionState
get_session w = (ok w.session, w)

abbrev pub put_session : SessionState → M (Unit {0})
put_session s w = (ok tt, record w { session = s })

-- A frame that fails to be written is not recorded.
abbrev pub report_sent : ProtoVersion → Message → Result (Unit {0}) → World → World
report_sent v m (ok _) w = note (sent v m) w
report_sent v m (err _) w = record w { tick = suc w.tick }

abbrev pub locked_by : Result DataDirLock × Disk → World → Result (Unit {0}) × World
locked_by (ok l, d) w = (ok tt, record (note acquired w) { lock = some l; disk = d })
locked_by (err e, d) w = (err e, record w { tick = suc w.tick; disk = d })

module _ (env : Env) where
  unfoldable pub write_frame : ProtoVersion → Message → M (Unit {0})
  write_frame v m w = (env.send w.tick, report_sent v m (env.send w.tick) w)

  -- `Instant::now()`
  unfoldable pub instant_now : M ℕ
  instant_now w =
      let t = w.time + env.lag w.tick in (ok t, record w { tick = suc w.tick; time = t })

  unfoldable pub sleep : ℕ → M (Unit {0})
  sleep ms w = (ok tt, record (note (slept ms) w) { time = w.time + ms })

  unfoldable pub set_read_timeout : M (Unit {0})
  set_read_timeout w = (env.arm w.tick, record w { tick = suc w.tick })

  unfoldable pub call_drain : ℕ → M DrainReport
  call_drain deadline w = let r = env.drain w.tick deadline in (r, note (drain_called deadline r) w)

  unfoldable pub call_seal : M SealReport
  call_seal w = let r = env.seal w.tick in (r, note (seal_called r) w)

  unfoldable pub call_resume : M (Unit {0})
  call_resume w = let r = env.resume w.tick in (r, note (resume_called r) w)

  -- `self.lock = Some(DataDirLock::acquire(&self.data_dir)?)`
  unfoldable pub reacquire : M (Unit {0})
  reacquire w = locked_by (acquire env.me (env.faults w.tick) (env.others w.tick w.disk)) w

  abbrev pub drop_lock : Option DataDirLock → World → World
  drop_lock none w = w
  drop_lock (some _) w = record (note released w) {
    lock = none;
    disk = release (env.unlink w.tick) w.disk;
  }

  -- `self.lock.take()`, whose result is dropped
  unfoldable pub take_lock : M (Unit {0})
  take_lock w = (ok tt, drop_lock w.lock w)

  -- The heartbeat thread writes until a write fails.
  unfoldable pub heartbeats : ProtoVersion → ℕ → M (Unit {0})
  heartbeats v zero w = (ok tt, w)
  heartbeats v (suc n) w = elim (env.send w.tick) [
    | err _ ↦ (ok tt, record w { tick = suc w.tick })
    | ok _ ↦ heartbeats v n (note (sent v (heartbeat w.time)) w)
  ]

  -- The main thread does not touch the socket while it runs `work`.
  unfoldable pub run_with_heartbeats {ℓ} : {A : Type ℓ} → ProtoVersion → M A → M A
  run_with_heartbeats v work w =
      if env.clone w.tick
      then (heartbeats v (env.beats w.tick) >> work) (record w { tick = suc w.tick })
      else work (record w { tick = suc w.tick })
