-- ===== src/Fd.antt =====
-- crates/handoff/src/fd.rs: the descriptors that a spawned child inherits. `Table` is the descriptor
-- table of the forked child; a slot names the open file description behind a descriptor. The kernel's
-- choice of a free descriptor, and its refusals, are `Kernel`.
pub mod Stages
pub mod Settling
pub mod Arranged
pub mod Completes
pub mod Spawn
pub mod Linux
mod Tests
use handoff.Prelude.{
  ℕ, zero, suc, ◌+◌, Bool, true, false, Option, none, some, List, [], ◌∷◌, length, ite, ℕ_discrete,
}
use handoff.Error.{Result, ok, err, Error, io, IoError}
use handoff.Fallible
use handoff.Fallible.{◌>>=◌, ◌>>◌, pure}

pub record Slot : Type 0 where
  pub description : ℕ
  pub cloexec : Bool

abbrev pub Table : Type 0
Table = ℕ → Option Slot

abbrev pub M {ℓ} : Type ℓ → Type ℓ
M A = Fallible.M Table A

-- What `dup2` and `fcntl(F_DUPFD)` leave to the kernel.
pub record Kernel : Type 0 where
  pub ebadf : IoError
  pub free : Table → ℕ → Result ℕ  -- a free descriptor at or above the bound
  pub refuses : Table → ℕ → ℕ → Option IoError  -- whether `dup2` fails

abbrev pub put : ℕ → Option Slot → Table → Table
put fd s t j = ite (ℕ_discrete fd j) s (t j)

-- A duplicate survives `execve`.
abbrev pub copy : Slot → Slot
copy s = record s { cloexec = false }

abbrev pub sd_listen_fds_start : ℕ
sd_listen_fds_start = 3

-- Stage 3: the duplicates are closed.
unfoldable pub close_all : List ℕ → M (Unit {0})
close_all [] = pure tt
close_all (fd ∷ fds) = λ t. close_all fds (put fd none t)

module _ (k : Kernel) where
  abbrev pub duplicated : Slot → Result ℕ → Table → Result ℕ × Table
  duplicated s (err e) t = (err e, t)
  duplicated s (ok fd) t = (ok fd, put fd (some (copy s)) t)

  -- `fcntl(fd, F_DUPFD, bound)`
  abbrev pub dup_above : (bound fd : ℕ) → M ℕ
  dup_above bound fd t = elim (t fd) [
    | none ↦ (err (io k.ebadf), t)
    | some s ↦ duplicated s (k.free t bound) t
  ]

  abbrev pub settled : Slot → ℕ → Option IoError → Table → Result (Unit {0}) × Table
  settled s dst (some e) t = (err (io e), t)
  settled s dst none t = (ok tt, put dst (some (copy s)) t)

  abbrev pub dup2 : (fd dst : ℕ) → M (Unit {0})
  dup2 fd dst t = elim (t fd) [
    | none ↦ (err (io k.ebadf), t)
    | some s ↦ settled s dst (k.refuses t fd dst) t
  ]

  -- Stage 1: every source is lifted above the destinations.
  unfoldable pub stage : (bound : ℕ) → List ℕ → M (List ℕ)
  stage bound [] = pure []
  stage bound (fd ∷ fds) = do
    new_fd ← dup_above bound fd
    rest ← stage bound fds
    pure (new_fd ∷ rest)

  -- Stage 2: each duplicate is settled at its target, from `dst` on.
  unfoldable pub settle : (dst : ℕ) → List ℕ → M (Unit {0})
  settle dst [] = pure tt
  settle dst (fd ∷ fds) = do dup2 fd dst; settle (suc dst) fds

  unfoldable pub install_inherited_fds : List ℕ → M (Unit {0})
  install_inherited_fds [] = pure tt
  install_inherited_fds (fd ∷ fds) = do
    working ← stage (sd_listen_fds_start + length (fd ∷ fds)) (fd ∷ fds)
    settle sd_listen_fds_start working
    close_all working
