-- ===== src/Fd/Completes.antt =====
-- crates/handoff/src/fd.rs: with descriptors to spare, the installation succeeds.
use handoff.Prelude.{
  ℕ, suc, ◌+◌, ◌≤◌, ◌<◌, ◌≡◌, ◌≢◌, refl, subst, ap, ◌∙◌, Option, none, some, List, [], ◌∷◌, length,
  arith,
}
use handoff.Error.{ok}
use handoff.Fd.{Slot, Table, Kernel, put, copy, stage, settle, close_all, install_inherited_fds}
use handoff.Fd.Stages.{
  IsSound, Staged, StagesTo, AllOpen, stage-StagesTo, Staged-first, put-AllOpen,
}
use handoff.Fd.Arranged.{arranged, Installs, install_inherited_fds-Installs, close_all-ok}

-- Below the limit of the process, the kernel gives the lowest descriptor that is free, and `dup2` does
-- not fail.
pub record IsWilling (k : Kernel) (limit : ℕ) : Type 0 where
  pub finds :
      (t : Table) (bound fd : ℕ)
      → bound ≤ fd
      → fd < limit
      → t fd ≡ none
      → (f : ℕ) × (k.free t bound ≡ ok f) × (f ≤ fd)
  pub accepts : (t : Table) (fd dst : ℕ) → k.refuses t fd dst ≡ none

-- From `top` on, every descriptor is free.
abbrev pub FreeFrom : ℕ → Table → Type 0
FreeFrom top t = (j : ℕ) → top ≤ j → t j ≡ none

put-FreeFrom :
    (top f : ℕ) (d : Slot) (t : Table)
    → f ≤ top
    → FreeFrom top t
    → FreeFrom (suc top) (put f (some d) t)
put-FreeFrom top f d t low h j lo = ground (arith, h j)

opened : (slot : Option Slot) → slot ≢ none → (d : Slot) × (slot ≡ some d)
opened none h = absurd (h refl)
opened (some d) h = (d, refl)

Staged-AllOpen :
    (bound : ℕ) (ss fs : List ℕ) (t t' : Table) → Staged bound ss fs t t' → AllOpen t' fs
Staged-AllOpen bound [] [] t t' h = tt
Staged-AllOpen bound (s ∷ ss) (f ∷ fs) t t' (lo, free, d, held, h) = (
  (λ e. ground (arith, Staged-first bound f ss fs (copy d) t t' h)),
  Staged-AllOpen bound ss fs (put f (some (copy d)) t) t' h,
)
Staged-AllOpen bound [] (f ∷ fs) t t' h = absurd h
Staged-AllOpen bound (s ∷ ss) [] t t' h = absurd h

stage-cons :
    (k : Kernel) (bound s f : ℕ) (ss fs : List ℕ) (d : Slot) (t t' : Table)
    → t s ≡ some d
    → k.free t bound ≡ ok f
    → stage k bound ss (put f (some (copy d)) t) ≡ (ok fs, t')
    → stage k bound (s ∷ ss) t ≡ (ok (f ∷ fs), t')
unfolding stage
stage-cons k bound s f ss fs d t t' e e' q = ground arith

settle-cons :
    (k : Kernel) (dst f : ℕ) (fs : List ℕ) (d : Slot) (t t' : Table)
    → t f ≡ some d
    → k.refuses t f dst ≡ none
    → settle k (suc dst) fs (put dst (some (copy d)) t) ≡ (ok tt, t')
    → settle k dst (f ∷ fs) t ≡ (ok tt, t')
unfolding settle
settle-cons k dst f fs d t t' e e' q = ground arith

module _ (k : Kernel) (sound : IsSound k) (limit : ℕ) (willing : IsWilling k limit) where
  stage-completes :
      (bound top : ℕ) (ss : List ℕ) (t : Table)
      → bound ≤ top
      → top + length ss ≤ limit
      → FreeFrom top t
      → AllOpen t ss
      → (fs : List ℕ) × (t' : Table) × (stage k bound ss t ≡ (ok fs, t'))
  unfolding stage
  stage-completes bound top [] t lo room free o = ([], t, refl)
  stage-completes bound top (s ∷ ss) t lo room free (h, o) =
      let (d, e) = opened (t s) h in
      let (f, e', low) = willing.finds t bound top lo (omega arith) (free top (omega arith)) in
      let (fs, t', q) =
        stage-completes bound (suc top) ss (put f (some (copy d)) t) (omega arith) (omega arith)
          (put-FreeFrom top f (copy d) t low free) (put-AllOpen f (copy d) ss t o) in
      (f ∷ fs, t', stage-cons k bound s f ss fs d t t' e e' q)

  settle-completes :
      (dst : ℕ) (fs : List ℕ) (t : Table)
      → AllOpen t fs
      → (t' : Table) × (settle k dst fs t ≡ (ok tt, t'))
  unfolding settle
  settle-completes dst [] t o = (t, refl)
  settle-completes dst (f ∷ fs) t (h, o) =
      let (d, e) = opened (t f) h in
      let (t', q) =
        settle-completes (suc dst) fs (put dst (some (copy d)) t)
          (put-AllOpen dst (copy d) fs t o) in
      (t', settle-cons k dst f fs d t t' e (willing.accepts t f dst) q)

  stages_complete :
      (top : ℕ) (ss : List ℕ) (t : Table)
      → 3 + length ss ≤ top
      → top + length ss ≤ limit
      → FreeFrom top t
      → AllOpen t ss
      → (t' : Table) × (install_inherited_fds k ss t ≡ (ok tt, t'))
  unfolding install_inherited_fds
  stages_complete top [] t lo room free o = (t, refl)
  stages_complete top (s ∷ ss) t lo room free o =
      let (fs, t₁, e₁) = stage-completes (3 + length (s ∷ ss)) top (s ∷ ss) t lo room free o in
      let g : Staged (3 + length (s ∷ ss)) (s ∷ ss) fs t t₁ =
        subst (StagesTo (3 + length (s ∷ ss)) (s ∷ ss) t) e₁
          (stage-StagesTo k sound (3 + length (s ∷ ss)) (s ∷ ss) t) in
      let (t₂, e₂) =
        settle-completes 3 fs t₁ (Staged-AllOpen (3 + length (s ∷ ss)) (s ∷ ss) fs t t₁ g) in
      ((close_all fs t₂).1, rw (e₁, e₂) (close_all-ok fs t₂))

  -- For a kernel that gives the lowest free descriptor at or above the bound while there is one below the
  -- process's limit, and whose `dup2` does not fail: from a table of open sources in which every
  -- descriptor from `top` on is free, where `top` lies above the targets and as many descriptors as there
  -- are sources fit between it and the limit, `install_inherited_fds` succeeds and leaves the simultaneous
  -- assignment.
  pub install_inherited_fds-completes :
      (top : ℕ) (ss : List ℕ) (t : Table)
      → 3 + length ss ≤ top
      → top + length ss ≤ limit
      → FreeFrom top t
      → AllOpen t ss
      → install_inherited_fds k ss t ≡ (ok tt, arranged ss t)
  install_inherited_fds-completes top ss t lo room free o =
      let (t', e) = stages_complete top ss t lo room free o in
      let q : t' ≡ arranged ss t =
        subst (Installs ss t) e (install_inherited_fds-Installs k sound ss t o) in
      e ∙ ap (λ (u : Table). (ok tt, u)) q
