-- ===== src/Fd/Arranged.antt =====
-- crates/handoff/src/fd.rs: the three stages together put every source in its place at once.
use handoff.Prelude.{
  ℕ, ◌+◌, ◌-◌, ◌≡◌, refl, ap, ◌∙◌, Bool-cases, inl, inr, none, some, List, [], ◌∷◌, length, arith,
  fun_ext, dec_lt, leb, ltb, ◌&&◌, if◌then◌else◌,
}
use handoff.Error.{Result, ok, err}
use handoff.Fallible.{and_then}
use handoff.Sock.{contains}
use handoff.Fd.{
  Table, Kernel, put, copy, stage, settle, close_all, install_inherited_fds, sd_listen_fds_start,
}
use handoff.Fd.Stages.{
  IsSound, nth, look, copied, Staged, StagesTo, AllOpen, stage-StagesTo, Staged-above, Staged-other,
  Staged-free, Staged-copies, Staged-length,
}
use handoff.Fd.Settling.{
  Settled, SettlesTo, settle-SettlesTo, Settled-below, Settled-above, Settled-at, AllAbove,
  close_all-contains,
}

-- The simultaneous assignment: target `3 + i` holds what source `i` held, and the rest stays.
abbrev pub arranged : List ℕ → Table → Table
arranged ss t j =
    if leb sd_listen_fds_start j && ltb j (sd_listen_fds_start + length ss)
    then copied (look t (nth ss (j - sd_listen_fds_start)))
    else t j

pub Staged-AllAbove :
    (bound : ℕ) (ss fs : List ℕ) (t t' : Table) → Staged bound ss fs t t' → AllAbove bound fs
Staged-AllAbove bound [] [] t t' h = tt
Staged-AllAbove bound (s ∷ ss) (f ∷ fs) t t' (lo, free, d, held, h) =
    (lo, Staged-AllAbove bound ss fs (put f (some (copy d)) t) t' h)
Staged-AllAbove bound [] (f ∷ fs) t t' h = absurd h
Staged-AllAbove bound (s ∷ ss) [] t t' h = absurd h

-- The table behind the three stages, at one descriptor.
arranged-at :
    (ss fs : List ℕ) (t t₁ t₂ : Table) (j : ℕ)
    → AllOpen t ss
    → Staged (3 + length ss) ss fs t t₁
    → Settled 3 fs t₁ t₂
    → (close_all fs t₂).1 j ≡ arranged ss t j
arranged-at ss fs t t₁ t₂ j o g h =
    let n : length fs ≡ length ss = Staged-length (3 + length ss) ss fs t t₁ g in
    close_all-contains fs t₂ j ∙ elim (Bool-cases (contains fs j)) [
      | inl c ↦ ground (
        arith,
        c,
        Staged-above (3 + length ss) ss fs t t₁ j g c,
        Staged-free (3 + length ss) ss fs t t₁ j g c,
      )
      | inr c ↦ rw c (elim (dec_lt j 3) [
        | yes below ↦ ground (
          arith,
          Settled-below 3 fs t₁ t₂ j h below,
          Staged-other (3 + length ss) ss fs t t₁ j g c,
        )
        | no start ↦ elim (dec_lt j (3 + length ss)) [
          | no above ↦ ground (
            arith,
            n,
            Settled-above 3 fs t₁ t₂ j h (omega (arith, n)),
            Staged-other (3 + length ss) ss fs t t₁ j g c,
          )
          | yes within ↦ ground (
            arith,
            ap t₂ {x = j} {y = 3 + (j - 3)} (omega arith),
            Settled-at 3 (3 + length ss) fs t₁ t₂ (j - 3) h
                (Staged-AllAbove (3 + length ss) ss fs t t₁ g) (omega (arith, n))
                (omega (arith, n)),
            Staged-copies (3 + length ss) ss fs t t₁ (j - 3) o g,
          )
        ]
      ])
    ]

pub close_all-ok : (fs : List ℕ) (t : Table) → close_all fs t ≡ (ok tt, (close_all fs t).1)
unfolding close_all
close_all-ok [] t = refl
close_all-ok (f ∷ fs) t = close_all-ok fs (put f none t)

-- What an installation may leave.
abbrev pub Installs : List ℕ → Table → Result (Unit {0}) × Table → Type 0
Installs ss t (ok _, t') = t' ≡ arranged ss t
Installs ss t (err e, t') = Unit

module _ (k : Kernel) (sound : IsSound k) where
  settled-Installs :
      (ss fs : List ℕ) (t t₁ : Table) (out : Result (Unit {0}) × Table)
      → AllOpen t ss
      → Staged (3 + length ss) ss fs t t₁
      → SettlesTo 3 fs t₁ out
      → Installs ss t (and_then out (λ _. close_all fs))
  settled-Installs ss fs t t₁ (ok _, t₂) o g h =
      rw (close_all-ok fs t₂) (fun_ext (λ j. arranged-at ss fs t t₁ t₂ j o g h))
  settled-Installs ss fs t t₁ (err e, t₂) o g h = tt

  staged-Installs :
      (ss : List ℕ) (t : Table) (out : Result (List ℕ) × Table)
      → AllOpen t ss
      → StagesTo (3 + length ss) ss t out
      → Installs ss t (and_then out (λ fs t'. and_then (settle k 3 fs t') (λ _. close_all fs)))
  staged-Installs ss t (ok fs, t₁) o g =
      settled-Installs ss fs t t₁ (settle k 3 fs t₁) o g (settle-SettlesTo k 3 fs t₁)
  staged-Installs ss t (err e, t₁) o g = tt

  -- For a kernel whose `F_DUPFD` returns a descriptor that is free and at or above the bound, for every
  -- descriptor table and every list of open sources, in any order and overlapping the targets in any
  -- way: if `install_inherited_fds` succeeds, the table it leaves is the simultaneous assignment, in which
  -- descriptor `3 + i` holds a copy of what source `i` held before, with close-on-exec cleared, and
  -- every other descriptor is as it was.
  pub install_inherited_fds-Installs :
      (ss : List ℕ) (t : Table) → AllOpen t ss → Installs ss t (install_inherited_fds k ss t)
  unfolding install_inherited_fds
  install_inherited_fds-Installs [] t o = fun_ext (λ j. ground arith)
  install_inherited_fds-Installs (s ∷ ss) t o =
      staged-Installs (s ∷ ss) t (stage k (3 + length (s ∷ ss)) (s ∷ ss) t) o
        (stage-StagesTo k sound (3 + length (s ∷ ss)) (s ∷ ss) t)
