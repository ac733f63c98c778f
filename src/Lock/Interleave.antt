-- ===== src/Lock/Interleave.antt =====
-- crates/handoff/src/lock.rs: any number of processes that take, keep, release and lose the lock, a
-- system call at a time, in any order. The steps call the functions of the model.
use handoff.Prelude.{ℕ, ◌≡◌, ◌≢◌, refl, Option, none, some, ite, ℕ_discrete, arith}
use handoff.Error.{ok, err, IoError, Error, pos}
use handoff.Lock.{Disk, Faults, try_flock, write_pid_atomic, unlock, remove_pidfile}

-- Where a process stands between the calls that change the disk.
pub data Pc : Type 0 where
  out : Pc  -- does not hold the flock
  locked : Pc  -- has the flock, before the pidfile is written
  held : Pc  -- `acquire` has returned
  clearing : Pc  -- in `drop`, behind the removal of the pidfile

pub record System : Type 0 where
  pub disk : Disk
  pub pc : ℕ → Pc

abbrev move : (ℕ → Pc) → ℕ → Pc → ℕ → Pc
move f i p j = ite (ℕ_discrete i j) p (f j)

-- A process that dies loses its flock to the kernel; its pidfile stays.
abbrev die : Pc → Disk → Disk
die out d = d
die _ d = unlock d

pub data Step (s : System) : System → Type 0 where
  take :
      (i : ℕ) (d : Disk)
      → s.pc i ≡ out
      → try_flock i none s.disk ≡ (ok tt, d)
      → Step s (record { disk = d; pc = move s.pc i locked })
  write :
      (i : ℕ) (f : Faults) (d : Disk)
      → s.pc i ≡ locked
      → write_pid_atomic i f s.disk ≡ (ok tt, d)
      → Step s (record { disk = d; pc = move s.pc i held })
  write_fails :
      (i : ℕ) (f : Faults) (e : Error) (d : Disk)
      → s.pc i ≡ locked
      → write_pid_atomic i f s.disk ≡ (err e, d)
      → Step s (record { disk = unlock d; pc = move s.pc i out })
  clear :
      (i : ℕ) (f : Option IoError)
      → s.pc i ≡ held
      → Step s (record { disk = remove_pidfile f s.disk; pc = move s.pc i clearing })
  close :
      (i : ℕ) → s.pc i ≡ clearing → Step s (record { disk = unlock s.disk; pc = move s.pc i out })
  crash : (i : ℕ) → Step s (record { disk = die (s.pc i) s.disk; pc = move s.pc i out })

pub data Reach (s : System) : System → Type 0 where
  here : Reach s s
  next : {t u : System} → Reach s t → Step t u → Reach s u

-- The flock names whoever is not `out`, and the pidfile names whoever has acquired.
pub record IsConsistent (s : System) : Type 0 where
  pub owner : (i : ℕ) → s.pc i ≢ out → s.disk.flock ≡ some i
  pub named : (i : ℕ) → s.pc i ≡ held → s.disk.pidfile ≡ some (pos i)

Step-IsConsistent : {s t : System} → Step s t → IsConsistent s → IsConsistent t
unfolding try_flock write_pid_atomic remove_pidfile
Step-IsConsistent {s} (take i d at e) c = record {
  owner = λ j h. ground (arith, c.owner j);
  named = λ j h. ground (arith, c.owner j, c.named j);
}
Step-IsConsistent {s} (write i f d at e) c = record {
  owner = λ j h. ground (arith, c.owner j, c.owner i);
  named = λ j h. ground (arith, c.owner j, c.owner i, c.named j);
}
Step-IsConsistent {s} (write_fails i f x d at e) c = record {
  owner = λ j h. ground (arith, c.owner j, c.owner i);
  named = λ j h. ground (arith, c.owner j, c.owner i, c.named j);
}
Step-IsConsistent {s} (clear i f at) c = record {
  owner = λ j h. ground (arith, c.owner j, c.owner i);
  named = λ j h. ground (arith, c.owner j, c.owner i, c.named j);
}
Step-IsConsistent {s} (close i at) c = record {
  owner = λ j h. ground (arith, c.owner j, c.owner i);
  named = λ j h. ground (arith, c.owner j, c.owner i, c.named j);
}
Step-IsConsistent {s} (crash i) c = record {
  owner = λ j h. ground (arith, c.owner j, c.owner i);
  named = λ j h. ground (arith, c.owner j, c.owner i, c.named j);
}

Reach-IsConsistent : {s t : System} → IsConsistent s → Reach s t → IsConsistent t
Reach-IsConsistent c here = c
Reach-IsConsistent c (next r st) = Step-IsConsistent st (Reach-IsConsistent c r)

-- No process has the lock yet; others, outside the model, may have left a disk in any state.
abbrev pub all_out : Disk → System
all_out d = record { disk = d; pc = λ _. out }

-- In every state that any interleaving of the processes' steps and deaths reaches from one where none
-- has the lock: two processes that hold the flock are one and the same, the kernel's record names
-- it, and once its `acquire` has returned the pidfile names it too.
pub Reach-exclusive :
    (d : Disk) {t : System} (i j : ℕ)
    → Reach (all_out d) t
    → t.pc i ≢ out
    → t.pc j ≢ out
    → (i ≡ j) × (t.disk.flock ≡ some i) × (t.pc i ≡ held → t.disk.pidfile ≡ some (pos i))
Reach-exclusive d {t} i j r hi hj =
    (ground (arith, c.owner i hi, c.owner j hj), c.owner i hi, c.named i)
  where
    c : IsConsistent t
    c =
        Reach-IsConsistent
          (record { owner = λ k h. absurd (h refl); named = λ k h. absurd (ground arith) }) r
