-- ===== src/Lock.antt =====
-- crates/handoff/src/lock.rs: the exclusive lock of one data directory and its pidfile.
-- `Disk` is what the kernel keeps: the process that holds the flock on `.handoff.lock`, and what the
-- pidfile parses to. `Faults` says which system calls of one `acquire` fail, and how; a process is
-- named by its pid. The paths are left out.
pub mod Acquire
mod Interleave
mod Tests
use handoff.Prelude.{
  ℕ, zero, suc, Bool, true, false, not, ◌&&◌, Option, none, some, ◌==◌, if◌then◌else◌,
}
use handoff.Fallible
use handoff.Fallible.{attempt, ◌>>=◌, ◌>>◌}
use handoff.Error.{
  Result, ok, err, Error, io, nix, lock_held, stale_lock_break_refused, IoError, ℤ, pos, negsuc,
}

pub record Disk : Type 0 where
  pub flock : Option ℕ
  pub pidfile : Option ℤ

pub record Faults : Type 0 where
  pub create_dir : Option IoError
  pub open_lock : Option IoError
  pub flock_errno : Option ℕ
  pub open_tmp : Option IoError
  pub write_tmp : Option IoError
  pub sync_tmp : Option IoError
  pub rename_tmp : Option IoError
  pub sync_dir : Option IoError

-- The guard; its drop releases the flock of `holder`.
pub record DataDirLock : Type 0 where
  pub holder : ℕ

-- `read_pidfile(..).unwrap_or(0)`
abbrev pub named_holder : Option ℤ → ℤ
named_holder none = pos 0
named_holder (some p) = p

-- During one `write_pid_atomic`: what the temporary file parses to, if there is one. Its name is this process's
-- alone, and `truncate` empties an old one, so that it does not outlast the call here.
pub record Writing : Type 0 where
  pub disk : Disk
  pub tmp : Option (Option ℤ)

abbrev pub M : Type 0 → Type 0
M A = Fallible.M Writing A

abbrev pub unstaged : Result (Unit {0}) × Writing → Result (Unit {0}) × Disk
unstaged (r, w) = (r, w.disk)

-- `writeln!`
abbrev pub written_pid : ℕ → Option (Option ℤ) → Option (Option ℤ)
written_pid pid none = none
written_pid pid (some _) = some (some (pos pid))

-- `rename`: the pidfile is what the temporary file was.
abbrev pub renamed : Writing → Writing
renamed w = elim w.tmp [
  | none ↦ w
  | some p ↦ record { disk = record w.disk { pidfile = p }; tmp = none }
]

-- A failing rename removes the temporary file.
abbrev pub rename_or_remove : Option IoError → M (Unit {0})
rename_or_remove (some e) w = (err (io e), record w { tmp = none })
rename_or_remove none w = (ok tt, renamed w)

abbrev pub call : Option IoError → (Writing → Writing) → M (Unit {0})
call (some e) f w = (err (io e), w)
call none f w = (ok tt, f w)

abbrev pub write_staged : ℕ → Faults → M (Unit {0})
write_staged pid f = do
  call f.open_tmp (λ w. record w { tmp = some none })
  call f.write_tmp (λ w. record w { tmp = written_pid pid w.tmp })
  call f.sync_tmp (λ w. w)
  rename_or_remove f.rename_tmp
  call f.sync_dir (λ w. w)

-- The syncs only matter behind a power failure, of which nothing is said here.
pub write_pid_atomic : ℕ → Faults → Disk → Result (Unit {0}) × Disk
write_pid_atomic pid f d = unstaged (write_staged pid f (record { disk = d; tmp = none }))

-- `Flock::lock` with `LockExclusiveNonblock`: `err (nix e)`, or `err` with the named holder.
pub try_flock : ℕ → Option ℕ → Disk → Result (Unit {0}) × Disk
try_flock me (some errno) d = (err (nix errno), d)
try_flock me none d = elim d.flock [
  | some _ ↦ (err (lock_held (named_holder d.pidfile)), d)
  | none ↦ (ok tt, record d { flock = some me })
]

-- The kernel closes the lock file.
abbrev pub unlock : Disk → Disk
unlock d = record d { flock = none }

-- `?` on the pidfile write drops the fresh `Flock`, and leaves the pidfile.
abbrev pub keep_flock : ℕ → Result (Unit {0}) × Disk → Result DataDirLock × Disk
keep_flock me (ok _, d) = (ok (record { holder = me }), d)
keep_flock me (err e, d) = (err e, unlock d)

abbrev pub with_flock : ℕ → Faults → Result (Unit {0}) × Disk → Result DataDirLock × Disk
with_flock me f (ok _, d) = keep_flock me (write_pid_atomic me f d)
with_flock me f (err e, d) = (err e, d)

pub acquire : ℕ → Faults → Disk → Result DataDirLock × Disk
acquire me f d =
    attempt f.create_dir d
      λ d₁. attempt f.open_lock d₁ λ d₂. with_flock me f (try_flock me f.flock_errno d₂)

-- `impl Drop`: the pidfile goes first, while the flock is still held.
unfoldable pub remove_pidfile : Option IoError → Disk → Disk
remove_pidfile none d = record d { pidfile = none }
remove_pidfile (some _) d = d

unfoldable pub release : Option IoError → Disk → Disk
release f d = unlock (remove_pidfile f d)

-- What `kill(pid, 0)` reports.
pub data Signal : Type 0 where
  delivered not_permitted no_such_process other_errno : Signal

pub is_pid_alive : (ℕ → Signal) → ℤ → Bool
is_pid_alive kill (negsuc _) = false
is_pid_alive kill (pos zero) = false
is_pid_alive kill (pos (suc n)) = elim (kill (suc n)) [ no_such_process ↦ false | _ ↦ true ]

abbrev pub refuse_break : Result DataDirLock × Disk → Result DataDirLock × Disk
refuse_break (err (lock_held p), d) = (err (stale_lock_break_refused p), d)
refuse_break (ok lock, d) = (ok lock, d)
refuse_break (err e, d) = (err e, d)

abbrev is_zero : ℤ → Bool
is_zero (pos zero) = true
is_zero _ = false

-- The first attempt's result; `others` is what other processes do before the second.
pub retry_stale :
    (ℕ → Signal)
    → ℕ
    → Faults
    → (Disk → Disk)
    → Result DataDirLock × Disk
    → Result DataDirLock × Disk
retry_stale kill me f others (err (lock_held p), d) =
    if not (is_zero p) && is_pid_alive kill p
    then (err (stale_lock_break_refused p), d)
    else refuse_break (acquire me f (others d))
retry_stale kill me f others (ok lock, d) = (ok lock, d)
retry_stale kill me f others (err e, d) = (err e, d)

pub acquire_or_break_stale :
    (ℕ → Signal) → ℕ → Faults → Faults → (Disk → Disk) → Disk → Result DataDirLock × Disk
acquire_or_break_stale kill me f g others d = retry_stale kill me g others (acquire me f d)
