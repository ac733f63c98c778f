-- ===== src/Lock/Tests.antt =====
-- crates/handoff/src/lock.rs: runs of two processes, 1 and 2.
use handoff.Prelude.{ℕ, ◌≡◌, refl, ite, ℕ_discrete, none, some, true, false, arith}
use handoff.Error.{Result, ok, err, IsErr, stale_lock_break_refused, pos}
use handoff.Lock.{
  Disk, Faults, DataDirLock, Signal, no_such_process, named_holder, is_pid_alive,
  acquire_or_break_stale, try_flock, write_pid_atomic,
}
use handoff.Lock.Acquire.{
  acquire_or_break_stale-held, IsClean, acquire_or_break_stale-clean, owned_by,
}
use handoff.Lock.Interleave.{
  locked, held, System, Step, take, write, here, next, all_out, Reach-exclusive,
}

abbrev no_faults : Faults
no_faults = record {
  create_dir = none;
  open_lock = none;
  flock_errno = none;
  open_tmp = none;
  write_tmp = none;
  sync_tmp = none;
  rename_tmp = none;
  sync_dir = none;
}

no_faults-IsClean : IsClean no_faults
no_faults-IsClean = record {
  reaches = record { create_dir = refl; open_lock = refl; flock_errno = refl };
  open_tmp = refl;
  write_tmp = refl;
  sync_tmp = refl;
  rename_tmp = refl;
  sync_dir = refl;
}

-- Process 2 holds the flock; the pidfile names process 5.
abbrev taken : Disk
taken = record { flock = some 2; pidfile = some (pos 5) }

abbrev stale : Disk
stale = record { flock = none; pidfile = some (pos 5) }

abbrev nobody : ℕ → Signal
nobody _ = no_such_process

acquire_or_break_stale-held_example :
    IsErr (acquire_or_break_stale nobody 1 no_faults no_faults (λ d. d) taken).0
    × ((acquire_or_break_stale nobody 1 no_faults no_faults (λ d. d) taken).1.flock ≡ some 2)
acquire_or_break_stale-held_example =
    acquire_or_break_stale-held nobody 1 2 no_faults no_faults (λ d. d) taken refl refl

abbrev break_stale : Disk → Result DataDirLock × Disk
break_stale d = acquire_or_break_stale nobody 1 no_faults no_faults (λ _. stale) d

acquire_or_break_stale-clean_example :
    (taken.flock ≡ none → break_stale taken ≡ (ok (record { holder = 1 }), owned_by 1))
    × ((h : ℕ)
        → taken.flock ≡ some h
        → is_pid_alive nobody (named_holder taken.pidfile) ≡ true
        → break_stale taken ≡ (err (stale_lock_break_refused (named_holder taken.pidfile)), taken))
    × ((h : ℕ)
        → taken.flock ≡ some h
        → is_pid_alive nobody (named_holder taken.pidfile) ≡ false
        → stale.flock ≡ none
        → break_stale taken ≡ (ok (record { holder = 1 }), owned_by 1))
acquire_or_break_stale-clean_example =
    acquire_or_break_stale-clean nobody 1 no_faults no_faults (λ _. stale) taken no_faults-IsClean
      no_faults-IsClean

-- The dead process 5 is replaced.
stale_broken : break_stale taken ≡ (ok (record { holder = 1 }), owned_by 1)
unfolding is_pid_alive
stale_broken = acquire_or_break_stale-clean_example.2 2 refl refl refl

abbrev one_locked : System
one_locked = record {
  disk = record { flock = some 1; pidfile = some (pos 5) };
  pc = λ j. ite (ℕ_discrete 1 j) locked ((all_out stale).pc j);
}

one_takes : Step (all_out stale) one_locked
unfolding try_flock
one_takes = take 1 (record { flock = some 1; pidfile = some (pos 5) }) refl refl

abbrev one_held : System
one_held = record { disk = owned_by 1; pc = λ j. ite (ℕ_discrete 1 j) held (one_locked.pc j) }

one_writes : Step one_locked one_held
unfolding write_pid_atomic ℕ_discrete
one_writes = write 1 no_faults (owned_by 1) refl refl

Reach-exclusive_example :
    ◌≡◌ {A = ℕ} 1 1
    × (one_held.disk.flock ≡ some 1)
    × (one_held.pc 1 ≡ held → one_held.disk.pidfile ≡ some (pos 1))
Reach-exclusive_example =
    Reach-exclusive stale 1 1 (next (next here one_takes) one_writes) (λ e. absurd (ground arith))
      (λ e. absurd (ground arith))
