-- ===== src/Fd/Linux.antt =====
-- crates/handoff/src/fd.rs: a kernel of the kind the installation asks for, with 64 descriptors.
use handoff.Prelude.{ℕ, zero, suc, ◌+◌, ◌-◌, ◌≤◌, ◌<◌, ◌≡◌, refl, Option, none, some, arith}
use handoff.Error.{Result, ok, err, io, from_kind, other}
use handoff.Fd.{Slot, Table, Kernel}
use handoff.Fd.Stages.{IsSound}
use handoff.Fd.Completes.{IsWilling}

-- The lowest free descriptor from `fd` on, of `n`.
abbrev search : ℕ → Table → ℕ → Result ℕ
search zero t fd = err (io (from_kind other))
search (suc n) t fd = elim (t fd) [ none ↦ ok fd | some _ ↦ search n t (suc fd) ]

search-above : (n : ℕ) (t : Table) (fd f : ℕ) → search n t fd ≡ ok f → (fd ≤ f) × (t f ≡ none)
search-above zero t fd f e = absurd (ground arith)
search-above (suc n) t fd f e = ground (arith, search-above n t (suc fd) f)

search-finds :
    (n : ℕ) (t : Table) (bound fd : ℕ)
    → bound ≤ fd
    → fd < bound + n
    → t fd ≡ none
    → (f : ℕ) × (search n t bound ≡ ok f) × (f ≤ fd)
search-finds zero t bound fd lo hi e = absurd (omega arith)
search-finds (suc n) t bound fd lo hi e =
    go (λ lo' hi'. search-finds n t (suc bound) fd lo' hi' e) (t bound) refl
  where
    go :
        (suc bound ≤ fd → fd < suc bound + n → (f : ℕ) × (search n t (suc bound) ≡ ok f) × (f ≤ fd))
        → (slot : Option Slot) → t bound ≡ slot
        → (f : ℕ) × (search (suc n) t bound ≡ ok f) × (f ≤ fd)
    go next none q = (bound, ground (arith, q), lo)
    go next (some d) q =
        let (f, r, low) = next (ground (arith, q, e)) (omega arith) in
        (f, ground (arith, q, r), low)

abbrev pub linux : Kernel
linux = record {
  ebadf = from_kind other;
  free = λ t bound. search (64 - bound) t bound;
  refuses = λ _ _ _. none;
}

pub linux-IsSound : IsSound linux
linux-IsSound = record {
  above = λ t bound fd e. (search-above (64 - bound) t bound fd e).0;
  unused = λ t bound fd e. (search-above (64 - bound) t bound fd e).1;
}

pub linux-IsWilling : IsWilling linux 64
linux-IsWilling = record {
  finds = λ t bound fd lo hi e. search-finds (64 - bound) t bound fd lo (omega arith) e;
  accepts = λ t fd dst. refl;
}
