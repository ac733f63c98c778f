-- ===== src/Lock/Acquire.antt =====
-- crates/handoff/src/lock.rs: one process that acquires the lock, on every branch.
use handoff.Prelude.{ℕ, ◌≡◌, refl, zero, suc, not, ◌&&◌, true, false, none, some, arith}
use handoff.Error.{Result, ok, err, IsErr, lock_held, stale_lock_break_refused, ℤ, pos, negsuc}
use handoff.Lock.{
  Disk, Faults, DataDirLock, Signal, named_holder, write_pid_atomic, try_flock, acquire,
  is_pid_alive, retry_stale, acquire_or_break_stale, is_zero,
}

-- What a call of `acquire` by `me` may do to a disk.
abbrev pub Acquires : ℕ → Disk → Result DataDirLock × Disk → Type 0
Acquires me d (ok lock, d') =
    (d.flock ≡ none) × (lock.holder ≡ me) × (d'.flock ≡ some me) × (d'.pidfile ≡ some (pos me))
Acquires me d (err e, d') = d'.flock ≡ d.flock

-- For every process, every combination of failing system calls and every state of the disk: if
-- `acquire` returns the lock, the flock was free and is now held by the caller, whom the pidfile
-- names; if it returns an error, the flock is held by whoever held it before.
pub acquire-Acquires : (me : ℕ) (f : Faults) (d : Disk) → Acquires me d (acquire me f d)
unfolding acquire write_pid_atomic try_flock
acquire-Acquires me f d = ground arith

-- No system call fails, up to the flock.
pub record Reaches (f : Faults) : Type 0 where
  pub create_dir : f.create_dir ≡ none
  pub open_lock : f.open_lock ≡ none
  pub flock_errno : f.flock_errno ≡ none

-- While another process holds the flock, `acquire` fails and leaves the disk as it was, whatever
-- system calls fail; and if those up to the flock succeed, the error names the pid in the pidfile.
pub acquire-held :
    (me h : ℕ) (f : Faults) (d : Disk)
    → d.flock ≡ some h
    → IsErr (acquire me f d).0
      × ((acquire me f d).1 ≡ d)
      × (Reaches f → acquire me f d ≡ (err (lock_held (named_holder d.pidfile)), d))
unfolding acquire try_flock
acquire-held me h f d held = (ground arith, ground arith, λ r. ground arith)

-- While another process holds the flock throughout, `acquire_or_break_stale` returns an error and the
-- flock stays with its holder, whatever the pidfile says, whatever `kill` reports, whatever system
-- calls fail, and whatever other processes do to the disk between the two attempts.
pub acquire_or_break_stale-held :
    (kill : ℕ → Signal) (me h : ℕ) (f g : Faults) (others : Disk → Disk) (d : Disk)
    → d.flock ≡ some h
    → (others d).flock ≡ some h
    → IsErr (acquire_or_break_stale kill me f g others d).0
      × ((acquire_or_break_stale kill me f g others d).1.flock ≡ some h)
unfolding acquire_or_break_stale retry_stale acquire try_flock
acquire_or_break_stale-held kill me h f g others d held still = (ground arith, ground arith)

-- No system call of `acquire` fails.
pub record IsClean (f : Faults) : Type 0 where
  pub reaches : Reaches f
  pub open_tmp : f.open_tmp ≡ none
  pub write_tmp : f.write_tmp ≡ none
  pub sync_tmp : f.sync_tmp ≡ none
  pub rename_tmp : f.rename_tmp ≡ none
  pub sync_dir : f.sync_dir ≡ none

abbrev pub owned_by : ℕ → Disk
owned_by me = record { flock = some me; pidfile = some (pos me) }

pub acquire-clean :
    (me : ℕ) (f : Faults) (d : Disk)
    → IsClean f
    → d.flock ≡ none
    → acquire me f d ≡ (ok (record { holder = me }), owned_by me)
unfolding acquire try_flock write_pid_atomic
acquire-clean me f d cf free = ground arith

-- `holder_pid != 0 && is_pid_alive(holder_pid)`: the first test follows from the second.
alive-eq :
    (kill : ℕ → Signal) (p : ℤ) → (not (is_zero p) && is_pid_alive kill p) ≡ is_pid_alive kill p
unfolding is_pid_alive
alive-eq kill (pos zero) = refl
alive-eq kill (pos (suc n)) = refl
alive-eq kill (negsuc n) = refl

-- Where no system call fails: `acquire_or_break_stale` takes a free flock, whatever an old pidfile
-- says; it refuses a held one, naming the pid in the pidfile, if that process is alive; and if that
-- process is dead and the flock has come free by the second attempt, it takes it.
pub acquire_or_break_stale-clean :
    (kill : ℕ → Signal) (me : ℕ) (f g : Faults) (others : Disk → Disk) (d : Disk)
    → IsClean f
    → IsClean g
    → (d.flock ≡ none
        → acquire_or_break_stale kill me f g others d ≡ (ok (record { holder = me }), owned_by me))
      × ((h : ℕ)
          → d.flock ≡ some h
          → is_pid_alive kill (named_holder d.pidfile) ≡ true
          → acquire_or_break_stale kill me f g others d
            ≡ (err (stale_lock_break_refused (named_holder d.pidfile)), d))
      × ((h : ℕ)
          → d.flock ≡ some h
          → is_pid_alive kill (named_holder d.pidfile) ≡ false
          → (others d).flock ≡ none
          → acquire_or_break_stale kill me f g others d
            ≡ (ok (record { holder = me }), owned_by me))
unfolding acquire_or_break_stale retry_stale
acquire_or_break_stale-clean kill me f g others d cf cg = (
  (λ free. rw (acquire-clean me f d cf free)),
  (λ h held alive.
      rw
        ((acquire-held me h f d held).2 cf.reaches, alive-eq kill (named_holder d.pidfile), alive)),
  (λ h held dead free. rw (
    (acquire-held me h f d held).2 cf.reaches,
    alive-eq kill (named_holder d.pidfile),
    dead,
    acquire-clean me g (others d) cg free,
  )),
)
